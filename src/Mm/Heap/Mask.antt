-- ===== src/Mm/Heap/Mask.antt =====
-- The two masks of kmalloc_aligned in kernel/mm/heap.c: a number and the one below it share a bit but for
-- a power of two, and the complement of what is below a power of two clears the bits below it.
use yart_os.Prelude.{
  ℕ, zero, suc, ◌-◌, ◌*◌, ◌/◌, ◌%◌, ◌^◌, ◌≤◌, ◌<◌, ◌≡◌, refl, sym, arith, ap, ◌∙◌, min,
}
use Prim.Native.Nat.{bit_and, bit_and-bitwise, digits}
use native.Mathlib.Nat.{pow-suc, one-le-pow, zero-div, div-one, div-div-eq-div-mul}
use native.Mathlib.Decide.{ℕ_discrete}

-- the digits that two numbers share, on `n` rounds
abbrev common : (n a b : ℕ) → ℕ
common n a b = digits (λ b. zero) min n a b

bit_and-common : (a b : ℕ) → bit_and a b ≡ common a a b
bit_and-common a b = bit_and-bitwise a b

pow-double : (i : ℕ) → 2 ^ suc i ≡ 2 ^ i * 2
pow-double i = pow-suc 2 i

pow_pos : (i : ℕ) → 1 ≤ 2 ^ i
pow_pos i = one-le-pow i 2 (omega arith)

common_self : (n a : ℕ) → a ≤ n → common n a a ≡ 0 → a ≡ 0
common_self n zero le e = refl
common_self zero (suc a) le e = absurd (omega (arith, le))
common_self (suc n) (suc a) le e =
    let h = common_self n (suc a / 2) (omega (arith, le)) (omega (arith, e)) in omega (arith, h, e)

-- A number that shares no digit with the one below it is a power of two.
common_pred : (n a : ℕ) → a < n → common n (suc a) a ≡ 0 → (j : ℕ) × (suc a ≡ 2 ^ j)
common_pred zero a lt e = absurd (omega (arith, lt))
common_pred (suc n) a lt e = elim (ℕ_discrete (suc a % 2) 0) [
  | yes even ↦
      let q : suc a / 2 ≡ suc (a / 2) = omega (arith, even) in
      let z : common n (suc a / 2) (a / 2) ≡ 0 = omega (arith, e) in
      let (j, i) =
        common_pred n (a / 2) (omega (arith, lt, even))
          (ap (λ k. common n k (a / 2)) (sym q) ∙ z) in
      (suc j, omega (arith, q, i, even, pow-double j))
  | no odd ↦
      let q : suc a / 2 ≡ a / 2 = omega (arith, odd) in
      let z : common n (suc a / 2) (a / 2) ≡ 0 = omega (arith, e) in
      let h =
        common_self n (a / 2) (omega (arith, lt)) (ap (λ k. common n k (a / 2)) (sym q) ∙ z) in
      (0, omega (arith, h, odd))
]

common_ones : (n w x : ℕ) → x ≤ n → x < 2 ^ w → common n x (2 ^ w - 1) ≡ x
common_ones zero w x le lt = omega (arith, le)
common_ones (suc n) w zero le lt = refl
common_ones (suc n) zero (suc x) le lt = absurd (omega (arith, lt))
common_ones (suc n) (suc w) (suc x) le lt =
    let p = pow-double w in
    let one = pow_pos w in
    let h = common_ones n w (suc x / 2) (omega (arith, le)) (omega (arith, lt, p)) in
    let half : (2 ^ suc w - 1) / 2 ≡ 2 ^ w - 1 = omega (arith, p, one) in
    let last : (2 ^ suc w - 1) % 2 ≡ 1 = omega (arith, p, one) in rw (half, last, h) (omega arith)

-- The bits from the `j`-th on.
common_high :
    (j n w x : ℕ) → j ≤ w → x ≤ n → x < 2 ^ w → common n x (2 ^ w - 2 ^ j) ≡ x / 2 ^ j * 2 ^ j
common_high zero n w x jw le lt = common_ones n w x le lt ∙ omega (arith, div-one x)
common_high (suc j) zero w x jw le lt =
    let z : x ≡ 0 = omega (arith, le) in rw (z, zero-div (2 ^ suc j)) (omega arith)
common_high (suc j) (suc n) w zero jw le lt = rw (zero-div (2 ^ suc j)) (omega arith)
common_high (suc j) (suc n) zero (suc x) jw le lt = absurd (omega (arith, jw))
common_high (suc j) (suc n) (suc w) (suc x) jw le lt =
    let p = pow-double w in
    let q = pow-double j in
    let h =
      common_high j n w (suc x / 2) (omega (arith, jw)) (omega (arith, le))
        (omega (arith, lt, p)) in
    let half : (2 ^ suc w - 2 ^ suc j) / 2 ≡ 2 ^ w - 2 ^ j = omega (arith, p, q) in
    let last : (2 ^ suc w - 2 ^ suc j) % 2 ≡ 0 = omega (arith, p, q) in
    let quot : suc x / 2 / 2 ^ j ≡ suc x / 2 ^ suc j =
      div-div-eq-div-mul (suc x) 2 (2 ^ j) ∙ ap (λ k. suc x / k) (omega (arith, q)) in
    let none : min (suc x % 2) 0 ≡ 0 = omega arith in
    rw (half, last, h, none, quot, q) (grind arith)

-- A number from 1 on that shares no bit with the one below it is a power of two.
pub bit_and_pred : (a : ℕ) → 0 < a → bit_and a (a - 1) ≡ 0 → (j : ℕ) × (a ≡ 2 ^ j)
bit_and_pred zero lt e = absurd (omega (arith, lt))
bit_and_pred (suc a) lt e =
    let d : suc a - 1 ≡ a = omega arith in
    common_pred (suc a) a (omega arith)
      (sym (bit_and-common (suc a) a) ∙ ap (bit_and (suc a)) (sym d) ∙ e)

-- The complement of 2^j - 1 in 64 bits rounds down to a multiple of 2^j.
pub bit_and_high : (j x : ℕ) → j ≤ 64 → x < 2 ^ 64 → bit_and x (2 ^ 64 - 2 ^ j) ≡ x / 2 ^ j * 2 ^ j
bit_and_high j x le lt = bit_and-common x _ ∙ common_high j x 64 x le (omega arith) lt
