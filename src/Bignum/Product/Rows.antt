-- ===== src/Bignum/Product/Rows.antt =====
-- bn_mul_wide of kernel/lib/bignum.c: its result is the product.
use yart_os.Prelude.{
  ℕ, ◌+◌, ◌*◌, ◌≤◌, ◌<◌, ◌≡◌, ◌≢◌, refl, ◌∙◌, ap, List, [], ◌∷◌, length, u32_mod, arith, replicate,
}
use yart_os.Bignum.{head_or, tail}
use yart_os.Bignum.Value.{
  value, weight, AreLimbs, value-bound, value_zeros, zeros-AreLimbs, length_zeros,
}
use native.Mathlib.Nat.{mul-le-mul_right}
use native.Mathlib.Decide.{ℕ_discrete}
use yart_os.Bignum.Product.{add_row, mul_rows, mul_wide}
use yart_os.Bignum.Product.Limbs.{AreOf, summed, summed-AreOf}

row-zero : (x : ℕ) (b w : List ℕ) → x ≡ 0 → add_row x b w ≡ w
unfolding add_row
row-zero x b w z = ground (arith, z)

row-summed : (x : ℕ) (b w : List ℕ) → x ≢ 0 → add_row x b w ≡ summed x b w
unfolding add_row summed
row-summed x b w z = ground (arith, z)

no_row : (v x b : ℕ) → x ≡ 0 → v ≡ v + x * b
no_row v x b z = grind (arith, ap (λ k. k * b) z)

add_row-AreOf :
    (x : ℕ) (b w : List ℕ)
    → x < u32_mod
    → AreLimbs b
    → AreLimbs w
    → length b < length w
    → value w < weight b
    → AreOf (add_row x b w) (value w + x * value b) (length w)
add_row-AreOf x b w hx hb hw lt small = elim (ℕ_discrete x 0) [
  | yes z ↦
      rw (row-zero x b w z)
        (record { at = no_row (value w) x (value b) z; limbs = hw; size = refl })
  | no nz ↦ rw (row-summed x b w nz) (summed-AreOf x b w hx hb hw lt small)
]

-- the next row's number is below the weight again
next_small : (v x b w h t : ℕ) → v < w → x < u32_mod → b < w → h + u32_mod * t ≡ v + x * b → t < w
next_small v x b w h t hv hx hb e =
    let most : x * b ≤ 4294967295 * b = mul-le-mul_right b (omega (arith, hx)) in
    omega (arith, most, e, hv, hb)

row-total :
    (m h t a b x v : ℕ)
    → m ≡ t + a * b
    → h + u32_mod * t ≡ v + x * b
    → h + u32_mod * m ≡ v + (x + u32_mod * a) * b
row-total m h t a b x v e f = grind (arith, e, f)

mul_rows-AreOf :
    (a b w : List ℕ)
    → AreLimbs a
    → AreLimbs b
    → AreLimbs w
    → length w ≡ length a + length b
    → value w < weight b
    → AreOf (mul_rows a b w) (value w + value a * value b) (length a + length b)
unfolding mul_rows
mul_rows-AreOf [] b w ha hb hw e small = record { at = omega arith; limbs = hw; size = e }
mul_rows-AreOf (x ∷ a) b w (bx, ha) hb hw e small =
    go (λ t. mul_rows-AreOf a b t ha hb) (add_row x b w)
      (add_row-AreOf x b w bx hb hw (omega (arith, e)) small)
  where
    go :
        ((t : List ℕ)
          → AreLimbs t
          → length t ≡ length a + length b
          → value t < weight b
          → AreOf (mul_rows a b t) (value t + value a * value b) (length a + length b))
        → (t : List ℕ) → AreOf t (value w + x * value b) (length w)
        → AreOf
            (head_or t ∷ mul_rows a b (tail t))
            (value w + value (x ∷ a) * value b)
            (length (x ∷ a) + length b)
    go rows [] row = absurd (omega (arith, row.size, e))
    go rows (h ∷ t) row =
        let ih = rows t row.limbs.1 (omega (arith, row.size, e)) (
          next_small (value w) x (value b) (weight b) h (value t) small bx (value-bound b hb)
            row.at) in
        record {
          at =
              row-total (value (mul_rows a b t)) h (value t) (value a) (value b) x (value w) ih.at
                row.at;
          limbs = (row.limbs.0, ih.limbs);
          size = omega (arith, ih.size);
        }

weight_pos : (b : List ℕ) → 0 < weight b
weight_pos [] = omega arith
weight_pos (x ∷ b) = omega (arith, weight_pos b)

-- For two numbers of limbs, bn_mul_wide fills an array as long as both together with the limbs of their product.
pub mul_wide-value :
    (a b : List ℕ)
    → AreLimbs a
    → AreLimbs b
    → (value (mul_wide a b) ≡ value a * value b)
      × AreLimbs (mul_wide a b)
      × (length (mul_wide a b) ≡ length a + length b)
unfolding mul_wide
mul_wide-value a b ha hb =
    let n = length a + length b in
    let zeros = value_zeros n in
    let r =
      mul_rows-AreOf a b (replicate n 0) ha hb (zeros-AreLimbs n) (length_zeros n)
        (omega (arith, zeros, weight_pos b)) in
    (r.at ∙ omega (arith, zeros), r.limbs, r.size)
