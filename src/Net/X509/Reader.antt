-- ===== src/Net/X509/Reader.antt =====
-- What the DER reader of kernel/lib/x509.c accepts, and where its walk does not end.
use yart_os.Prelude.{
  ℕ, zero, suc, ◌+◌, ◌-◌, ◌%◌, ◌<◌, ◌≤◌, ◌≡◌, ◌≢◌, refl, some, arith, sym, ◌∙◌, ap, u32_mod,
}
use yart_os.Net.X509.{
  Der, RsaKey, running, length_loop, der_read, spki_loop, with_exponent, rsa_key,
}

-- An element whose length leaves room for its header in 32 bits lies in the bytes that are available,
-- after a header of at least two bytes.
pub der_read-in_bounds :
    (f : ℕ → ℕ) (p len : ℕ) (d : Der)
    → der_read f p len ≡ some d
    → d.len + 6 < u32_mod
    → (p + 2 ≤ d.v) × (d.v + d.len ≤ p + len)
unfolding der_read
der_read-in_bounds f p len d e h = (ground (arith, e), ground (arith, e))

-- The element at `p` says that its length is 2 ^ 32 - 6.
pub record Wraps (f : ℕ → ℕ) (p : ℕ) : Type 0 where
  pub form : f (p + 1) ≡ 0x84
  pub b₂ : f (p + 2) ≡ 0xff
  pub b₃ : f (p + 3) ≡ 0xff
  pub b₄ : f (p + 4) ≡ 0xff
  pub b₅ : f (p + 5) ≡ 0xfa

Wraps-length : (f : ℕ → ℕ) (p : ℕ) → Wraps f p → length_loop 4 (p + 2) f 0 ≡ 0xffff_fffa
unfolding length_loop
Wraps-length f p w =
    let a : f (p + 2 + 1) ≡ 0xff = let q : p + 3 ≡ p + 2 + 1 = omega arith in sym (ap f q) ∙ w.b₃ in
    let b : f (p + 2 + 1 + 1) ≡ 0xff =
      let q : p + 4 ≡ p + 2 + 1 + 1 = omega arith in sym (ap f q) ∙ w.b₄ in
    let c : f (p + 2 + 1 + 1 + 1) ≡ 0xfa =
      let q : p + 5 ≡ p + 2 + 1 + 1 + 1 = omega arith in sym (ap f q) ∙ w.b₅ in
    omega (arith, w.b₂, a, b, c)

der_read-Wraps :
    (f : ℕ → ℕ) (p len : ℕ)
    → Wraps f p
    → 6 ≤ len
    → der_read f p len ≡ some (record { tag = f p; v = p + 6; len = 0xffff_fffa })
unfolding der_read
der_read-Wraps f p len w h = ground (arith, w.form, Wraps-length f p w)

-- Where an element that is no SEQUENCE says that its length is 2 ^ 32 - 6, with six bytes or more
-- left, the walk over a certificate's body stays at that element for ever: it is still running after
-- any number of rounds.
pub spki_loop-stuck :
    (n : ℕ) (f : ℕ → ℕ) (p left : ℕ)
    → Wraps f p
    → f p ≢ 0x30
    → 6 ≤ left
    → left < u32_mod
    → spki_loop n f p left ≡ running
unfolding spki_loop
spki_loop-stuck zero f p left w t h lt = refl
spki_loop-stuck (suc n) f p left w t h lt =
    let x : p + (p + 6 + 0xffff_fffa - p) % u32_mod ≡ p = omega arith in
    let y : (left + u32_mod - (p + 6 + 0xffff_fffa - p) % u32_mod) % u32_mod ≡ left = omega arith in
    let ih = spki_loop-stuck n f p left w t h lt in
    let rest : spki_loop n f (p + (p + 6 + 0xffff_fffa - p) % u32_mod)
          ((left + u32_mod - (p + 6 + 0xffff_fffa - p) % u32_mod) % u32_mod)
        ≡ running =
      rw (x, y) ih in
    let d = der_read-Wraps f p left w h in rw (d, spki_loop) (ground (arith, rest, t))

-- A key that x509_rsa_key finds has a modulus of at most 257 bytes and an exponent of at most 8, for
-- any bytes and any length.
pub rsa_key-sizes :
    (f : ℕ → ℕ) (bits bitslen : ℕ) (k : RsaKey)
    → rsa_key f bits bitslen ≡ some k
    → (k.modlen ≤ 257) × (k.explen ≤ 8)
unfolding rsa_key with_exponent
rsa_key-sizes f bits bitslen k e = (ground (arith, e), ground (arith, e))
