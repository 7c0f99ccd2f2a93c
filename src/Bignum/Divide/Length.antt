-- ===== src/Bignum/Divide/Length.antt =====
-- bn_bitlen of kernel/lib/bignum.c: the number of significant bits.
use yart_os.Prelude.{
  ℕ, zero, suc, ◌+◌, ◌*◌, ◌/◌, ◌^◌, ◌≤◌, ◌<◌, ◌≡◌, ◌≢◌, ◌⊎◌, inl, inr, refl, ◌∙◌, List, [], ◌∷◌,
  u32_mod, arith,
}
use yart_os.Bignum.Value.{value, AreLimbs}
use yart_os.Bignum.Divide.{top_bit, bitlen_loop, bitlen}
use native.Mathlib.Decide.{dec_lt}
use native.Mathlib.Nat.{pow-suc, div-eq_of_lt, div-eq_of_lt-le}
use yart_os.Bignum.Power.Convert.{pow_add}

-- `v` is 0 and `l` too, or `v` has its top bit at `l - 1`.
abbrev pub IsLength : (v l : ℕ) → Type 0
IsLength v l = ((v ≡ 0) × (l ≡ 0)) ⊎ ((k : ℕ) × (l ≡ k + 1) × (2 ^ k ≤ v) × (v < 2 * 2 ^ k))

pub pow_pos : (b : ℕ) → 0 < 2 ^ b
pow_pos zero = omega arith
pow_pos (suc b) = omega (arith, pow_pos b, pow-suc 2 b)

quotient : (x p : ℕ) → 0 < p → x < 2 * p → ((x < p) × (x / p ≡ 0)) ⊎ ((p ≤ x) × (x / p ≡ 1))
quotient x p lo h = elim (dec_lt x p) [
  | yes lt ↦ inl (lt, div-eq_of_lt lt)
  | no ge ↦ inr (omega arith, div-eq_of_lt-le {k = 1} p {m = x} (omega arith) (omega arith))
]

top_bit-set : (b x : ℕ) → x / 2 ^ b ≡ 1 → top_bit (suc b) x ≡ b + 1
unfolding top_bit
top_bit-set b x e = rw e refl

top_bit-clear : (b x : ℕ) → x / 2 ^ b ≡ 0 → top_bit (suc b) x ≡ top_bit b x
unfolding top_bit
top_bit-clear b x e = rw e refl

top_bit-IsLength : (b x : ℕ) → x < 2 ^ b → IsLength x (top_bit b x)
top_bit-IsLength zero x h = unfold top_bit in inl (omega (arith, h), refl)
top_bit-IsLength (suc b) x h =
    elim (quotient x (2 ^ b) (pow_pos b) (omega (arith, h, pow-suc 2 b))) [
      | inl (lt, e) ↦ rw (top_bit-clear b x e) (top_bit-IsLength b x lt)
      | inr (ge, e) ↦ inr (b, top_bit-set b x e, ge, omega (arith, h, pow-suc 2 b))
    ]

-- the same for the limbs from the `i`-th on
abbrev LengthFrom : (i v l : ℕ) → Type 0
LengthFrom i v l =
    ((v ≡ 0) × (l ≡ 0)) ⊎ ((k : ℕ) × (l ≡ i * 32 + k + 1) × (2 ^ k ≤ v) × (v < 2 * 2 ^ k))

loop-high :
    (i x : ℕ) (xs : List ℕ)
    → bitlen_loop (i + 1) xs ≢ 0
    → bitlen_loop i (x ∷ xs) ≡ bitlen_loop (i + 1) xs
unfolding bitlen_loop
loop-high i x xs n = ground (arith, n)

loop-low :
    (i x : ℕ) (xs : List ℕ)
    → bitlen_loop (i + 1) xs ≡ 0
    → x ≢ 0
    → top_bit 32 x ≢ 0
    → bitlen_loop i (x ∷ xs) ≡ i * 32 + top_bit 32 x
unfolding bitlen_loop
loop-low i x xs e n m = ground (arith, e, n, m)

loop-none :
    (i x : ℕ) (xs : List ℕ) → bitlen_loop (i + 1) xs ≡ 0 → x ≡ 0 → bitlen_loop i (x ∷ xs) ≡ 0
unfolding bitlen_loop
loop-none i x xs e n = ground (arith, e, n)

pow-limb : (k : ℕ) → 2 ^ (k + 32) ≡ u32_mod * 2 ^ k
pow-limb k = pow_add k 32 ∙ omega arith

bitlen_loop-LengthFrom :
    (xs : List ℕ) (i : ℕ) → AreLimbs xs → LengthFrom i (value xs) (bitlen_loop i xs)
bitlen_loop-LengthFrom [] i h = unfold bitlen_loop in inl (refl, refl)
bitlen_loop-LengthFrom (x ∷ xs) i (b, h) = elim (bitlen_loop-LengthFrom xs (i + 1) h) [
  | inl (z, e) ↦ elim (top_bit-IsLength 32 x b) [
    | inl (zx, ex) ↦ inl (omega (arith, z, zx), loop-none i x xs e zx)
    | inr (k, ex, lo, hi) ↦ inr (
      k,
      loop-low i x xs e (omega (arith, lo, pow_pos k)) (omega (arith, ex)) ∙ omega (arith, ex),
      omega (arith, lo, z),
      omega (arith, hi, z),
    )
  ]
  | inr (k, e, lo, hi) ↦ inr (
    k + 32,
    loop-high i x xs (omega (arith, e)) ∙ omega (arith, e),
    omega (arith, lo, pow-limb k),
    omega (arith, hi, pow-limb k, b),
  )
]

-- For limbs of 32 bits, bn_bitlen returns 0 for the number 0, and otherwise one more than the exponent of the largest power of two in the number.
pub bitlen-IsLength : (a : List ℕ) → AreLimbs a → IsLength (value a) (bitlen a)
unfolding bitlen
bitlen-IsLength a h = elim (bitlen_loop-LengthFrom a 0 h) [
  | inl z ↦ inl z
  | inr (k, e, lo, hi) ↦ inr (k, omega (arith, e), lo, hi)
]
