-- ===== src/Net/X509.antt =====
-- kernel/lib/x509.c: the DER reader, and the search for a certificate's RSA key.
--
-- The certificate is a function of the offset, and a pointer into it is an offset. `none` is -1.
pub mod Reader
mod Tests
use yart_os.Prelude.{
  ℕ, zero, suc, ◌+◌, ◌-◌, ◌*◌, ◌/◌, ◌%◌, Bool, true, false, ◌&&◌, ◌||◌, not, Option, none, some,
  if◌then◌else◌, ltb, leb, ◌==◌, u32_mod, add32,
}

-- der_t
pub record Der : Type 0 where
  pub tag : ℕ
  pub v : ℕ
  pub len : ℕ

-- for (i = 0; i < nbytes; i++) l = (l << 8) | p[2 + i]
pub length_loop : (rounds at : ℕ) → (ℕ → ℕ) → (l : ℕ) → ℕ
length_loop zero at f l = l
length_loop (suc n) at f l = length_loop n (at + 1) f ((l * 256 + f at) % u32_mod)

-- the end of der_read, once the length is known
abbrev pub checked : (tag p hdr l len : ℕ) → Option Der
checked tag p hdr l len =
    if ltb len (add32 hdr l) then none else some (record { tag = tag; v = p + hdr; len = l })

-- der_read, with `len` bytes available at `p`
pub der_read : (f : ℕ → ℕ) → (p len : ℕ) → Option Der
der_read f p len =
    let nbytes = f (p + 1) % 128 in
    if ltb len 2
    then none
    else if f (p + 1) / 128 % 2 == 1
    then (if nbytes == 0 || ltb 4 nbytes || ltb len (2 + nbytes)
        then none
        else checked (f p) p (2 + nbytes) (length_loop nbytes (p + 2) f 0) len)
    else checked (f p) p 2 (f (p + 1)) len

-- `len - (u32)(a.v + a.len - start)`: what is left of `len` bytes from `start` on after `a`
abbrev pub left_after : (a : Der) → (start len : ℕ) → ℕ
left_after a start len = (len + u32_mod - (a.v + a.len - start) % u32_mod) % u32_mod

-- der_read with the test of the tag that follows it
pub read_tag : (tag : ℕ) → (f : ℕ → ℕ) → (p len : ℕ) → Option Der
read_tag tag f p len = elim (der_read f p len) [
  | none ↦ none
  | some d ↦ if d.tag == tag then some d else none
]

-- the key in a candidate `e`, a SEQUENCE in the certificate's body
pub candidate : (f : ℕ → ℕ) → Der → Option Der
candidate f e = elim (read_tag 0x30 f e.v e.len) [
  | none ↦ none
  | some a ↦ elim (read_tag 6 f a.v a.len) [
    | none ↦ none
    | some oid ↦ read_tag 3 f (a.v + a.len) (left_after a e.v e.len)
  ]
]

-- what the loop over the body comes to
pub data Scan : Type 0 where
  found : Der → Scan
  refused : Scan
  running : Scan

-- The loop of x509_get_spki_bitstring for at most `rounds` elements, with `left` bytes at `p`.
pub spki_loop : (rounds : ℕ) → (f : ℕ → ℕ) → (p left : ℕ) → Scan
spki_loop zero f p left = running
spki_loop (suc n) f p left = elim (der_read f p left) [
  | none ↦ refused
  | some e ↦
      let consumed = (e.v + e.len - p) % u32_mod in
      let rest = spki_loop n f (p + consumed) ((left + u32_mod - consumed) % u32_mod) in
      let next : Scan = elim (candidate f e) [ none ↦ rest | some b ↦ found b ] in
      if ltb left 2 then refused else if e.tag == 0x30 then next else rest
]

pub spki_bitstring : (rounds : ℕ) → (f : ℕ → ℕ) → (certlen : ℕ) → Scan
spki_bitstring n f certlen = elim (read_tag 0x30 f 0 certlen) [
  | none ↦ refused
  | some top ↦ elim (read_tag 0x30 f top.v top.len) [
    | none ↦ refused
    | some tbs ↦ spki_loop n f tbs.v tbs.len
  ]
]

-- `if (len > 1 && v[0] == 0) { v++; len--; }`: the place and the length of an INTEGER's bytes
abbrev pub strip_zero : (f : ℕ → ℕ) → Der → ℕ × ℕ
strip_zero f d = if ltb 1 d.len && f d.v == 0 then (d.v + 1, d.len - 1) else (d.v, d.len)

-- where the modulus and the exponent stand, and their lengths
pub record RsaKey : Type 0 where
  pub modulus : ℕ
  pub modlen : ℕ
  pub exponent : ℕ
  pub explen : ℕ

-- the second half of x509_rsa_key, once the modulus `m` is read
pub with_exponent : (f : ℕ → ℕ) → (seq m : Der) → Option RsaKey
with_exponent f seq m = elim (read_tag 2 f (m.v + m.len) (left_after m seq.v seq.len)) [
  | none ↦ none
  | some e ↦ some (record {
    modulus = (strip_zero f m).0;
    modlen = (strip_zero f m).1;
    exponent = (strip_zero f e).0;
    explen = if ltb 8 (strip_zero f e).1 then 8 else (strip_zero f e).1;
  })
]

pub rsa_key : (f : ℕ → ℕ) → (bits bitslen : ℕ) → Option RsaKey
rsa_key f bits bitslen =
    let key : Option RsaKey = elim (read_tag 0x30 f (bits + 1) (bitslen - 1)) [
      | none ↦ none
      | some seq ↦ elim (read_tag 2 f seq.v seq.len) [
        | none ↦ none
        | some m ↦ if m.len == 0 || ltb 257 m.len then none else with_exponent f seq m
      ]
    ] in
    if ltb bitslen 1 then none else key
