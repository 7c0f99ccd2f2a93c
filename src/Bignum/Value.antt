-- ===== src/Bignum/Value.antt =====
-- The number that the limbs of kernel/lib/bignum.c stand for.
use yart_os.Prelude.{
  ℕ, zero, suc, ◌+◌, ◌*◌, ◌<◌, ◌≡◌, refl, List, [], ◌∷◌, ◌++◌, length, u32_mod, arith, replicate,
  ap,
}

abbrev pub value : List ℕ → ℕ
value [] = 0
value (x ∷ xs) = x + u32_mod * value xs

-- 2 ^ (32 * n)
abbrev pub weight : List ℕ → ℕ
weight [] = 1
weight (x ∷ xs) = u32_mod * weight xs

abbrev pub AreLimbs : List ℕ → Type 0
AreLimbs [] = Unit {0}
AreLimbs (x ∷ xs) = (x < u32_mod) × AreLimbs xs

pub value-bound : (xs : List ℕ) → AreLimbs xs → value xs < weight xs
value-bound [] h = omega arith
value-bound (x ∷ xs) (b, h) = omega (arith, value-bound xs h)

pub weight-append : (xs : List ℕ) (c : ℕ) → weight (xs ++ c ∷ []) ≡ u32_mod * weight xs
weight-append [] c = refl
weight-append (x ∷ xs) c = omega (arith, weight-append xs c)

pub value-append : (xs : List ℕ) (c : ℕ) → value (xs ++ c ∷ []) ≡ value xs + weight xs * c
value-append [] c = omega arith
value-append (x ∷ xs) c = grind (arith, value-append xs c)

pub value_zeros : (n : ℕ) → value (replicate n 0) ≡ 0
value_zeros zero = refl
value_zeros (suc n) = omega (arith, value_zeros n)

pub zeros-AreLimbs : (n : ℕ) → AreLimbs (replicate n 0)
zeros-AreLimbs zero = tt
zeros-AreLimbs (suc n) = (omega arith, zeros-AreLimbs n)

pub weight-length : (xs ys : List ℕ) → length xs ≡ length ys → weight xs ≡ weight ys
weight-length [] [] h = refl
weight-length [] (y ∷ ys) h = absurd (omega arith)
weight-length (x ∷ xs) [] h = absurd (omega arith)
weight-length (x ∷ xs) (y ∷ ys) h = omega (arith, weight-length xs ys (omega arith))

pub length_zeros : (n : ℕ) → length {A = ℕ} (replicate n 0) ≡ n
length_zeros zero = refl
length_zeros (suc n) = ap suc (length_zeros n)
