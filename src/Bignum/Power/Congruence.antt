-- ===== src/Bignum/Power/Congruence.antt =====
-- Numbers modulo an odd number: sums of products, and division by 2 ^ (32 * BN_LIMBS).
use yart_os.Prelude.{ℕ, ◌+◌, ◌*◌, ◌/◌, ◌%◌, ◌≡◌, refl, List, [], ◌∷◌, u32_mod, arith, sym, ◌∙◌, ap}
use native.Mathlib.Nat.{add-mul-mod_self_right, div-add-mod}
use yart_os.Bignum.{head_or, n0inv}
use yart_os.Bignum.Value.{value, weight}
use yart_os.Bignum.Inverse.{n0inv-inverse}

-- `x` and `y` are congruent modulo `m`.
abbrev pub Congruent : (m x y : ℕ) → Type 0
Congruent m x y = x % m ≡ y % m

mul_residues : (a c m : ℕ) → (a * c) % m ≡ ((a % m) * (c % m)) % m
mul_residues a c m =
    ap (λ k. k % m)
      (split m (a / m) (a % m) (c / m) (c % m) a c (div-add-mod a m) (div-add-mod c m))
    ∙ add-mul-mod_self_right ((a % m) * (c % m)) (a / m * c + (a % m) * (c / m)) m
  where
    split :
        (m p r q s a c : ℕ) → m * p + r ≡ a → m * q + s ≡ c → a * c ≡ r * s + (p * c + r * q) * m
    split m p r q s a c e f = grind (arith, ap (λ k. k * c) e, ap (λ k. r * k) f)

pub mul-Congruent :
    (m a b c d : ℕ) → Congruent m a b → Congruent m c d → Congruent m (a * c) (b * d)
mul-Congruent m a b c d e f =
    mul_residues a c m
    ∙ ap (λ k. (k * (c % m)) % m) e
    ∙ ap (λ k. ((b % m) * k) % m) f
    ∙ sym (mul_residues b d m)

-- the inverse of 2 ^ 32 modulo n, and its powers
inverse_of : List ℕ → ℕ
inverse_of [] = 0
inverse_of (x ∷ xs) = (x * n0inv (x ∷ xs) + 1) / u32_mod + value xs * n0inv (x ∷ xs)

inverse-right : (n : List ℕ) → head_or n % 2 ≡ 1 → Congruent (value n) (u32_mod * inverse_of n) 1
unfolding inverse_of
inverse-right [] h = absurd (ground (arith, h))
inverse-right (x ∷ xs) h =
    let i = n0inv (x ∷ xs) in
    let k = (x * i + 1) / u32_mod in
    let e : x * i + 1 ≡ u32_mod * k = omega (arith, n0inv-inverse (x ∷ xs) h) in
    ap (λ v. v % (x + u32_mod * value xs)) (whole x i k (value xs) e)
    ∙ add-mul-mod_self_right 1 i (x + u32_mod * value xs)
  where
    whole :
        (x i k v : ℕ) → x * i + 1 ≡ u32_mod * k → u32_mod * (k + v * i) ≡ 1 + i * (x + u32_mod * v)
    whole x i k v e = grind (arith, e)

inverse_weight : ℕ → List ℕ → ℕ
inverse_weight i [] = 1
inverse_weight i (x ∷ xs) = i * inverse_weight i xs

inverse_weight-right :
    (m i : ℕ) (xs : List ℕ)
    → Congruent m (u32_mod * i) 1
    → Congruent m (weight xs * inverse_weight i xs) 1
unfolding inverse_weight
inverse_weight-right m i [] h = refl
inverse_weight-right m i (x ∷ xs) h =
    let p =
      mul-Congruent m (u32_mod * i) 1 (weight xs * inverse_weight i xs) 1 h
        (inverse_weight-right m i xs h) in
    ap (λ v. v % m) (shuffle i (weight xs) (inverse_weight i xs)) ∙ p
  where
    shuffle : (i w v : ℕ) → u32_mod * w * (i * v) ≡ u32_mod * i * (w * v)
    shuffle i w v = grind arith

-- A factor 2 ^ (32 * BN_LIMBS) can be left out modulo an odd number.
pub cancel :
    (n : List ℕ) (x y : ℕ)
    → head_or n % 2 ≡ 1
    → Congruent (value n) (x * weight n) (y * weight n)
    → Congruent (value n) x y
cancel n x y h e =
    let m = value n in
    let i = inverse_weight (inverse_of n) n in
    let one = inverse_weight-right m (inverse_of n) n (inverse-right n h) in
    let f = mul-Congruent m (x * weight n) (y * weight n) i i e refl in
    undo m x i one ∙ f ∙ sym (undo m y i one)
  where
    times_one : (x : ℕ) → x ≡ x * 1
    times_one x = omega arith

    regroup : (x w i : ℕ) → x * (w * i) ≡ x * w * i
    regroup x w i = grind arith

    undo : (m x i : ℕ) → Congruent m (weight n * i) 1 → Congruent m x (x * weight n * i)
    undo m x i one =
        ap (λ v. v % m) (times_one x)
        ∙ sym (mul-Congruent m x x (weight n * i) 1 refl one)
        ∙ ap (λ v. v % m) (regroup x (weight n) i)
