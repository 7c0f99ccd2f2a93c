-- ===== src/Bignum/Product/Limbs.antt =====
-- One row of bn_mul_wide in kernel/lib/bignum.c, on numbers.
use yart_os.Prelude.{
  ℕ, zero, suc, ◌+◌, ◌*◌, ◌<◌, ◌≡◌, refl, sym, ◌∙◌, ap, List, [], ◌∷◌, ◌++◌, length, u32_mod, arith,
  take, drop, length-take, length-drop, take-append-drop, length-append,
}
use yart_os.Bignum.{mac_loop}
use yart_os.Bignum.Value.{value, weight, AreLimbs, weight-length}
use yart_os.Bignum.Row.{mac_loop-Accumulates}
use yart_os.Bignum.Product.{add_top}

value-join : (xs ys : List ℕ) → value (xs ++ ys) ≡ value xs + weight xs * value ys
value-join [] ys = omega arith
value-join (x ∷ xs) ys = grind (arith, value-join xs ys)

-- A number 0 of at least one limb takes a limb.
pub add_top-value :
    (w : List ℕ) (c : ℕ)
    → AreLimbs w
    → c < u32_mod
    → value w ≡ 0
    → 0 < length w
    → (value (add_top w c) ≡ c) × AreLimbs (add_top w c) × (length (add_top w c) ≡ length w)
unfolding add_top
add_top-value [] c h b z lo = absurd (omega arith)
add_top-value (x ∷ []) c (bx, h) b z lo = (omega (arith, z, b), (omega arith, tt), refl)
add_top-value (x ∷ y ∷ w) c (bx, (by, h)) b z lo =
    let zx : x ≡ 0 = omega (arith, z) in
    let zy : y + u32_mod * value w ≡ 0 = omega (arith, z) in
    let zw : value w ≡ 0 = omega (arith, zy) in
    (omega (arith, zx, zy, zw, b), (omega arith, (omega arith, h)), refl)

pub AreLimbs-take : (n : ℕ) (w : List ℕ) → AreLimbs w → AreLimbs (take n w)
AreLimbs-take zero w h = tt
AreLimbs-take (suc n) [] h = tt
AreLimbs-take (suc n) (x ∷ w) (b, h) = (b, AreLimbs-take n w h)

AreLimbs-drop : (n : ℕ) (w : List ℕ) → AreLimbs w → AreLimbs (drop n w)
AreLimbs-drop zero w h = h
AreLimbs-drop (suc n) [] h = tt
AreLimbs-drop (suc n) (x ∷ w) (b, h) = AreLimbs-drop n w h

AreLimbs-append : (xs ys : List ℕ) → AreLimbs xs → AreLimbs ys → AreLimbs (xs ++ ys)
AreLimbs-append [] ys h k = k
AreLimbs-append (x ∷ xs) ys (b, h) k = (b, AreLimbs-append xs ys h k)

-- Limbs `r` of the number `v`, `n` of them.
pub record AreOf (r : List ℕ) (v n : ℕ) : Type 0 where
  pub at : value r ≡ v
  pub limbs : AreLimbs r
  pub size : length r ≡ n

high_zero : (lo w hi v : ℕ) → lo + w * hi ≡ v → v < w → hi ≡ 0
high_zero lo w zero v e lt = refl
high_zero lo w (suc hi) v e lt = absurd (grind (arith, e))

row-sum : (r w q c t k b : ℕ) → r + w * q ≡ t + k * b + 0 → c ≡ q → r + w * c ≡ t + k * b
row-sum r w q c t k b e f = grind (arith, e, ap (λ z. w * z) f)

unfoldable pub summed : (x : ℕ) (b w : List ℕ) → List ℕ
summed x b w = let r = mac_loop x (take (length b) w) b 0 in r.0 ++ add_top (drop (length b) w) r.1

-- the parts of the number that a row is added to: the part above is 0
pub parts :
    (b w : List ℕ)
    → length b < length w
    → value w < weight b
    → (length (take (length b) w) ≡ length b)
      × (value (take (length b) w) ≡ value w)
      × (value (drop (length b) w) ≡ 0)
      × (length b + length (drop (length b) w) ≡ length w)
parts b w lt small =
    let n = length b in
    let size : length (take n w) ≡ n = length-take n w ∙ omega (arith, lt) in
    let whole : value (take n w) + weight (take n w) * value (drop n w) ≡ value w =
      sym (value-join (take n w) (drop n w)) ∙ ap value (take-append-drop n w) in
    let at : weight (take n w) ≡ weight b = weight-length (take n w) b size in
    let none_high : value (drop n w) ≡ 0 =
      high_zero (value (take n w)) (weight (take n w)) (value (drop n w)) (value w) whole
        (omega (arith, small, at)) in
    let same : weight (take n w) * value (drop n w) ≡ 0 =
      ap (λ k. weight (take n w) * k) none_high ∙ omega arith in
    (size, omega (arith, whole, same), none_high, omega (arith, length-drop n w, lt))

pub summed-AreOf :
    (x : ℕ) (b w : List ℕ)
    → x < u32_mod
    → AreLimbs b
    → AreLimbs w
    → length b < length w
    → value w < weight b
    → AreOf (summed x b w) (value w + x * value b) (length w)
unfolding summed
summed-AreOf x b w hx hb hw lt small =
    let n = length b in
    let (size, low, high, rest) = parts b w lt small in
    let r = mac_loop x (take n w) b 0 in
    let acc =
      mac_loop-Accumulates x (take n w) b 0 hx (AreLimbs-take n w hw) hb size (omega arith) in
    let (top, limbs, top_size) =
      add_top-value (drop n w) r.1 (AreLimbs-drop n w hw) acc.carry high
        (omega (arith, rest, lt)) in
    let same : weight r.0 ≡ weight (take n w) = weight-length r.0 (take n w) acc.size in
    record {
      at =
          value-join r.0 (add_top (drop n w) r.1)
          ∙ ap (λ k. value r.0 + k * value (add_top (drop n w) r.1)) same
          ∙ row-sum (value r.0) (weight (take n w)) r.1 (value (add_top (drop n w) r.1))
              (value (take n w)) x (value b) acc.sum top
          ∙ ap (λ k. k + x * value b) low;
      limbs = AreLimbs-append r.0 (add_top (drop n w) r.1) acc.limbs limbs;
      size =
          length-append r.0 (add_top (drop n w) r.1)
          ∙ omega (arith, acc.size, size, top_size, rest);
    }
