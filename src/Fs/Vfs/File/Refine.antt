-- ===== src/Fs/Vfs/File/Refine.antt =====
-- Files of kernel/fs/vfs.c as what a program sees of them: a length, and a byte at each place below
-- it. The operations implement the abstract ones.
use yart_os.Prelude.{
  ℕ, ◌+◌, ◌-◌, ◌^◌, ◌<◌, ◌≤◌, ◌≡◌, ◌⊎◌, inl, inr, refl, true, false, ◌&&◌, not, Option, arith,
  if◌then◌else◌, ltb, leb, u64_mod, add64, sym, ◌∙◌, ap, subst, fun_ext, min, u32_mod, ◌%◌,
}
use native.Mathlib.Decide.{dec_lt}
use yart_os.CString.{memcpy}
use yart_os.Fs.Vfs.File.{
  Node, Outcome, done, failed, int_result, is_file, ensure_cap, put_bytes, written, if_room,
  cleared, cut, read, read_count, write, truncate,
}
use yart_os.Fs.Vfs.File.Grow.{Grown, ensure_cap-Grown}

pub record Contents : Type 0 where
  pub len : ℕ
  pub byte : ℕ → ℕ

-- The contents of a node: nothing of the block beyond `size` shows.
abbrev pub view : Node → Contents
view v = record { len = v.size; byte = λ i. if ltb i v.size then v.bytes i else 0 }

-- POSIX pwrite: a gap reads as zeros.
abbrev pub pwrite : (buf : ℕ → ℕ) → (off n : ℕ) → Contents → Contents
pwrite buf off n c = record {
  len = if ltb c.len (off + n) then off + n else c.len;
  byte = λ i. if leb off i && ltb i (off + n) then buf (i - off) else c.byte i;
}

-- POSIX ftruncate: what is added reads as zeros.
abbrev pub ftruncate : (n : ℕ) → Contents → Contents
ftruncate n c = record { len = n; byte = λ i. if ltb i n then c.byte i else 0 }

-- The bytes that a read at `off` returns, and how many.
abbrev pub pread_count : (off n : ℕ) → Contents → ℕ
pread_count off n c = min n (c.len - off)

-- The file's bytes lie in its block.
abbrev pub Fits : Node → Type 0
Fits v = v.size ≤ v.cap

Contents-eq : (c d : Contents) → c.len ≡ d.len → ((i : ℕ) → c.byte i ≡ d.byte i) → c ≡ d
Contents-eq c d l b = cc (l, fun_ext b)

-- `r` is the result of an operation that took `v` to a file with the contents `c`.
pub record Implements (o : Outcome) (c : Contents) (r : Outcome × Node) : Type 0 where
  pub outcome : r.0 ≡ o
  pub contents : view r.1 ≡ c
  pub fits : Fits r.1

pub int_result-done : (n : ℕ) → n < 2 ^ 31 → int_result n ≡ done n
unfolding int_result
int_result-done n small = let e : n % u32_mod ≡ n = omega (arith, small) in ground (arith, e, small)

pub put_bytes-eq :
    (now : ℕ) (buf : ℕ → ℕ) (off n : ℕ) (u : Node)
    → n < 2 ^ 31
    → off + n ≤ u.cap
    → put_bytes now buf off n u ≡ (done n, written now buf off n u)
put_bytes-eq now buf off n u small room = rw (int_result-done n small) (ground (arith, room))

pub if_room-done :
    (r : Outcome × Node) (next : Node → Outcome × Node) → r.0 ≡ done 0 → if_room r next ≡ next r.1
if_room-done r next e = ap (λ o. if_room (o, r.1) next) e

module _ (kmalloc : ℕ → Option (ℕ → ℕ)) (now n : ℕ) (v : Node) (file : is_file v ≡ true)
    (h : Fits v) where
  pub write-eq :
      (buf : ℕ → ℕ) (off : ℕ)
      → off + n ≤ 2 ^ 63
      → write kmalloc now buf off n v
        ≡ if_room (ensure_cap kmalloc (off + n) v) (put_bytes now buf off n)
  unfolding write
  write-eq buf off le =
      let e : add64 off n ≡ off + n = omega arith in
      let f : not (is_file v) ≡ false = ground (arith, file) in rw (f, e) refl

  cut-Implements : n ≤ v.size → Implements (done 0) (ftruncate n (view v)) (done 0, cut now n v)
  cut-Implements le = record {
    outcome = refl;
    contents = Contents-eq (view (cut now n v)) (ftruncate n (view v)) refl (λ i. ground arith);
    fits = omega arith;
  }

  cleared-Implements :
      (u : Node)
      → Grown n v u
      → v.size < n
      → Implements (done 0) (ftruncate n (view v)) (done 0, cut now n (cleared n u))
  cleared-Implements u g lt = record {
    outcome = refl;
    contents =
        Contents-eq (view (cut now n (cleared n u))) (ftruncate n (view v)) refl
          (λ i. ground (arith, g.size, g.bytes i));
    fits = g.room;
  }

  truncate-grows :
      v.size < n
      → truncate kmalloc now n v
        ≡ if_room (ensure_cap kmalloc n v) (λ u. (done 0, cut now n (cleared n u)))
  unfolding truncate
  truncate-grows lt =
      let f : not (is_file v) ≡ false = ground (arith, file) in
      let t : ltb v.size n ≡ true = ground arith in rw (f, t) refl

  truncate-cuts : n ≤ v.size → truncate kmalloc now n v ≡ (done 0, cut now n v)
  unfolding truncate
  truncate-cuts le =
      let f : not (is_file v) ≡ false = ground (arith, file) in
      let t : ltb v.size n ≡ false = ground arith in rw (f, t) refl

  -- On a file whose bytes lie in its block, and for a length up to 2 ^ 63, vfs_truncate either does
  -- what ftruncate does to the file's contents, with what is added read as zeros, or fails and
  -- changes nothing.
  pub truncate-Implements :
      n ≤ 2 ^ 63
      → Implements (done 0) (ftruncate n (view v)) (truncate kmalloc now n v)
        ⊎ (truncate kmalloc now n v ≡ (failed, v))
  truncate-Implements le =
      let next = λ (u : Node). let r : Outcome × Node = (done 0, cut now n (cleared n u)) in r in
      let r = ensure_cap kmalloc n v in
      elim (dec_lt v.size n) [
        | no x ↦ inl (
            subst (Implements (done 0) (ftruncate n (view v))) (sym (truncate-cuts (omega arith)))
              (cut-Implements (omega arith)))
        | yes x ↦ elim (ensure_cap-Grown kmalloc n v le) [
          | inl (d, g) ↦ inl (
              subst (Implements (done 0) (ftruncate n (view v)))
                (sym (truncate-grows x ∙ if_room-done r next d)) (cleared-Implements r.1 g x))
          | inr z ↦ inr (truncate-grows x ∙ ap (λ y. if_room y next) z)
        ]
      ]

module _ (buf : ℕ → ℕ) (off n : ℕ) (v : Node) (file : is_file v ≡ true) where
  read-done :
      (m : ℕ)
      → read_count off n v ≡ done m
      → read buf off n v ≡ (int_result m, memcpy buf 0 v.bytes off m)
  unfolding read
  read-done m e = rw (e, read) refl

  read_count-eq : off + n < u64_mod → read_count off n v ≡ done (pread_count off n (view v))
  unfolding read_count
  read_count-eq le = ground (arith, file)

  -- For fewer than 2 ^ 31 bytes and an end below 2 ^ 64, vfs_read returns the number of bytes that lie between the offset and the
  -- file's end, at most `n`, and copies those bytes and no other.
  pub read-pread :
      n < 2 ^ 31
      → off + n < u64_mod
      → ((read buf off n v).0 ≡ done (pread_count off n (view v)))
        × ((i : ℕ)
            → (read buf off n v).1 i
              ≡ (if ltb i (pread_count off n (view v)) then (view v).byte (off + i) else buf i))
  read-pread small le =
      let m = pread_count off n (view v) in
      let e = read-done m (read_count-eq le) in
      (
        ap (λ r. r.0) e ∙ int_result-done m (omega (arith, small)),
        λ i.
            let q : off + (i - 0) ≡ off + i = omega arith in
            ap (λ r. r.1 i) e ∙ ground (arith, ap v.bytes q),
      )
