-- ===== src/Net/Bytes.antt =====
-- Byte buffers as functions of the offset, with the helpers of kernel/lib/eapol.c on them. A buffer
-- has no end: the bounds are those that the code checks.
use yart_os.Prelude.{
  ℕ, zero, suc, ◌+◌, ◌-◌, ◌*◌, ◌/◌, ◌%◌, ◌≤◌, ◌<◌, ◌^◌, ◌≡◌, ◌⊎◌, subst, sym, ap, ◌∙◌, refl, Bool,
  true, false, ◌||◌, not, ◌==◌, update, u64_mod, arith, Bool-cases, inl, inr,
}
use native.Mathlib.Decide.{dec_lt}
pub use yart_os.CString.{memset, memcpy}

-- the bytes from offset `p` on
abbrev pub at : (ℕ → ℕ) → ℕ → ℕ → ℕ
at f p i = f (p + i)

-- be16(f + p)
abbrev pub be16 : (ℕ → ℕ) → ℕ → ℕ
be16 f p = f p * 256 + f (p + 1)

-- put16(f + p, v)
abbrev pub put16 : (ℕ → ℕ) → ℕ → ℕ → ℕ → ℕ
put16 f p v = update (update f p (v / 256 % 256)) (p + 1) (v % 256)

-- for (i = 0; i < 8; i++) v = (v << 8) | p[i]
pub be_loop : (rounds p : ℕ) → (ℕ → ℕ) → ℕ → ℕ
be_loop zero p f v = v
be_loop (suc n) p f v = be_loop n (p + 1) f ((v * 256 + f p) % u64_mod)

pub be64 : (ℕ → ℕ) → ℕ → ℕ
be64 f p = be_loop 8 p f 0

-- for (i = 7; i >= 0; i--) { p[i] = (u8)v; v >>= 8; }
pub put_loop : (rounds p v : ℕ) → (ℕ → ℕ) → ℕ → ℕ
put_loop zero p v f = f
put_loop (suc n) p v f = put_loop n p (v / 256) (update f (p + n) (v % 256))

pub put64 : (ℕ → ℕ) → ℕ → ℕ → ℕ → ℕ
put64 f p v = put_loop 8 p v f

-- whether the bits of `mask`, a power of two, are set: (v & mask) != 0
abbrev pub has_bit : ℕ → ℕ → Bool
has_bit v mask = v / mask % 2 == 1

-- ct_memcmp: `d` says whether the collected differences are other than 0.
unfoldable pub differ : (rounds i : ℕ) → (ℕ → ℕ) → (ℕ → ℕ) → Bool → Bool
differ zero i a b d = d
differ (suc n) i a b d = differ n (i + 1) a b (d || not (a i == b i))

pub differ-true : (n i : ℕ) (a b : ℕ → ℕ) → differ n i a b true ≡ true
unfolding differ
differ-true zero i a b = refl
differ-true (suc n) i a b = differ-true n (i + 1) a b

-- No difference is found exactly between equal bytes.
pub differ-false :
    (n i : ℕ) (a b : ℕ → ℕ) → differ n i a b false ≡ false → (k : ℕ) → i ≤ k → k < i + n → a k ≡ b k
unfolding differ
differ-false zero i a b e k lo hi = absurd (omega arith)
differ-false (suc n) i a b e k lo hi = elim (Bool-cases (a i == b i)) [
  | inl h ↦
      let later = differ-false n (i + 1) a b (ground (arith, h)) k in
      elim (dec_lt i k) [
        | yes x ↦ later (omega arith) (omega arith)
        | no x ↦ let y : k ≡ i = omega arith in rw y (ground (arith, h))
      ]
  | inr h ↦ absurd (ground (arith, h, differ-true n (i + 1) a b))
]

pub differ-equal :
    (n i : ℕ) (a b : ℕ → ℕ)
    → ((k : ℕ) → i ≤ k → k < i + n → a k ≡ b k)
    → differ n i a b false ≡ false
unfolding differ
differ-equal zero i a b h = refl
differ-equal (suc n) i a b h =
    let x : a i ≡ b i = h i (omega arith) (omega arith) in
    ground (arith, x, differ-equal n (i + 1) a b (λ k lo hi. h k (omega arith) (omega arith)))

be_loop-ext :
    (n p v : ℕ) (f g : ℕ → ℕ)
    → ((k : ℕ) → k < n → f (p + k) ≡ g (p + k))
    → be_loop n p f v ≡ be_loop n p g v
unfolding be_loop
be_loop-ext zero p v f g h = refl
be_loop-ext (suc n) p v f g h =
    let q : p + 0 ≡ p = omega arith in
    let e : f p ≡ g p = subst (λ i. f i ≡ g i) q (h 0 (omega arith)) in
    rw e (
      be_loop-ext n (p + 1) ((v * 256 + g p) % u64_mod) f g
        (λ k lt. let q : p + 1 + k ≡ p + (k + 1) = omega arith in rw q (h (k + 1) (omega arith))))

-- Only the eight bytes matter.
pub be64-ext :
    (p : ℕ) (f g : ℕ → ℕ) → ((k : ℕ) → k < 8 → f (p + k) ≡ g (p + k)) → be64 f p ≡ be64 g p
unfolding be64
be64-ext p f g h = be_loop-ext 8 p 0 f g h

-- The byte that put64 writes at each of the eight places, and nothing elsewhere.
abbrev pub byte_of : ℕ → ℕ → ℕ
byte_of v k = v / 256 ^ (7 - k) % 256

pub put64-at : (f : ℕ → ℕ) (p v k : ℕ) → k < 8 → put64 f p v (p + k) ≡ byte_of v k
unfolding put64 put_loop
put64-at f p v k h = ground arith

pub put64-out : (f : ℕ → ℕ) (p v i : ℕ) → (i < p) ⊎ (p + 8 ≤ i) → put64 f p v i ≡ f i
unfolding put64 put_loop
put64-out f p v i h = ground arith

be_loop-last :
    (n p v : ℕ) (f : ℕ → ℕ) → be_loop (suc n) p f v ≡ (be_loop n p f v * 256 + f (p + n)) % u64_mod
unfolding be_loop
be_loop-last zero p v f = let q : p + 0 ≡ p = omega arith in rw q refl
be_loop-last (suc n) p v f =
    let q : p + 1 + n ≡ p + suc n = omega arith in
    be_loop-last n (p + 1) ((v * 256 + f p) % u64_mod) f
    ∙ ap (λ i. (be_loop n (p + 1) f ((v * 256 + f p) % u64_mod) * 256 + f i) % u64_mod) q

put_loop-out : (n p v i : ℕ) (f : ℕ → ℕ) → p + n ≤ i → put_loop n p v f i ≡ f i
unfolding put_loop
put_loop-out zero p v i f h = refl
put_loop-out (suc n) p v i f h =
    put_loop-out n p (v / 256) i (update f (p + n) (v % 256)) (omega arith) ∙ ground arith

-- `v` has at most `n` bytes.
abbrev Fits : ℕ → ℕ → Type 0
Fits zero v = v ≡ 0
Fits (suc n) v = Fits n (v / 256)

be_loop-put_loop :
    (n p v : ℕ) (f : ℕ → ℕ) → v < u64_mod → Fits n v → be_loop n p (put_loop n p v f) 0 ≡ v
unfolding put_loop
be_loop-put_loop zero p v f h e = unfold be_loop in sym e
be_loop-put_loop (suc n) p v f h e =
    let g = update f (p + n) (v % 256) in
    let x : put_loop n p (v / 256) g (p + n) ≡ v % 256 =
      put_loop-out n p (v / 256) (p + n) g (omega arith) ∙ ground arith in
    let y = be_loop-put_loop n p (v / 256) g (omega arith) e in
    be_loop-last n p 0 (put_loop n p (v / 256) g) ∙ rw (x, y) (omega arith)

-- Eight bytes written are the number that is read.
pub be64-put64 : (f : ℕ → ℕ) (p v : ℕ) → v < u64_mod → be64 (put64 f p v) p ≡ v
unfolding be64 put64
be64-put64 f p v h = be_loop-put_loop 8 p v f h (omega arith)
