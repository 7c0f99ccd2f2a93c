-- ===== src/Bignum/Divide/Shift.antt =====
-- bn_shl1 and the shift to the right in bn_mod of kernel/lib/bignum.c, on numbers.
use yart_os.Prelude.{
  ℕ, zero, suc, ◌+◌, ◌*◌, ◌/◌, ◌%◌, ◌^◌, ◌≤◌, ◌<◌, ◌≡◌, refl, sym, ◌∙◌, ap, List, [], ◌∷◌, length,
  u32_mod, arith,
}
use yart_os.Bignum.Value.{value, weight, AreLimbs, weight-length}
use yart_os.Bignum.Divide.{shl_loop, shl1, shl_times, shr_loop}
use yart_os.Bignum.Divide.Length.{pow_pos}
use native.Mathlib.Nat.{pow-suc}

-- `r` with the bit that is shifted out, `q`, is twice `xs` and the carry.
record Shifts (xs : List ℕ) (c : ℕ) (r : List ℕ) (q : ℕ) : Type 0 where
  sum : value r + weight xs * q ≡ 2 * value xs + c
  carry : q ≤ 1
  limbs : AreLimbs r
  size : length r ≡ length xs

shift-cons :
    (d r c x xs q w k : ℕ)
    → d + u32_mod * k ≡ 2 * x + c
    → r + w * q ≡ 2 * xs + k
    → d + u32_mod * r + u32_mod * w * q ≡ 2 * (x + u32_mod * xs) + c
shift-cons d r c x xs q w k e f = grind (arith, e, f)

-- the bit that leaves the list
top_carry : List ℕ → ℕ → ℕ
top_carry [] c = c
top_carry (x ∷ xs) c = top_carry xs (x / 2 ^ 31)

shl_loop-Shifts :
    (xs : List ℕ) (c : ℕ) → AreLimbs xs → c ≤ 1 → Shifts xs c (shl_loop xs c) (top_carry xs c)
unfolding shl_loop top_carry
shl_loop-Shifts [] c hx hc = record { sum = omega arith; carry = hc; limbs = tt; size = refl }
shl_loop-Shifts (x ∷ xs) c (b, hx) hc =
    let k = x / 2 ^ 31 in
    let ih = shl_loop-Shifts xs k hx (omega (arith, b)) in
    let digit : (x * 2 % u32_mod + c) + u32_mod * k ≡ 2 * x + c = omega (arith, b, hc) in
    record {
      sum =
          shift-cons (x * 2 % u32_mod + c) (value (shl_loop xs k)) c x (value xs) (top_carry xs k)
            (weight xs) k digit ih.sum;
      carry = ih.carry;
      limbs = (omega (arith, b, hc), ih.limbs);
      size = ap suc ih.size;
    }

-- A list of limbs of a number, as long as another.
pub record HasValue (r like : List ℕ) (v : ℕ) : Type 0 where
  pub at : value r ≡ v
  pub limbs : AreLimbs r
  pub size : length r ≡ length like

no_carry : (r w q v : ℕ) → r + w * q ≡ v → q ≤ 1 → v < w → r ≡ v
no_carry r w zero v e h lt = omega (arith, e)
no_carry r w (suc zero) v e h lt = absurd (omega arith)
no_carry r w (suc (suc q)) v e h lt = absurd (omega arith)

shl1-HasValue :
    (a : List ℕ) → AreLimbs a → 2 * value a < weight a → HasValue (shl1 a) a (2 * value a)
unfolding shl1
shl1-HasValue a h lt =
    let s = shl_loop-Shifts a 0 h (omega arith) in
    record {
      at =
          no_carry (value (shl_loop a 0)) (weight a) (top_carry a 0) (2 * value a)
            (s.sum ∙ omega arith) s.carry lt;
      limbs = s.limbs;
      size = s.size;
    }

at_most : (v p : ℕ) → 0 < p → v ≤ v * p
at_most v (suc p) h = grind arith
at_most v zero h = absurd (omega arith)

twice : (v p : ℕ) → 2 * v * p ≡ v * (p * 2)
twice v p = grind arith

pub shl_times-HasValue :
    (k : ℕ) (a : List ℕ)
    → AreLimbs a
    → value a * 2 ^ k < weight a
    → HasValue (shl_times k a) a (value a * 2 ^ k)
unfolding shl_times
shl_times-HasValue zero a h lt = record { at = omega arith; limbs = h; size = refl }
shl_times-HasValue (suc k) a h lt =
    let total : 2 * value a * 2 ^ k ≡ value a * 2 ^ suc k =
      twice (value a) (2 ^ k) ∙ ap (λ p. value a * p) (sym (pow-suc 2 k)) in
    let one =
      shl1-HasValue a h (omega (arith, lt, sym total, at_most (2 * value a) (2 ^ k) (pow_pos k))) in
    let w : weight (shl1 a) ≡ weight a = weight-length (shl1 a) a one.size in
    let same : value (shl1 a) * 2 ^ k ≡ value a * 2 ^ suc k = ap (λ v. v * 2 ^ k) one.at ∙ total in
    let rest = shl_times-HasValue k (shl1 a) one.limbs (omega (arith, same, w, lt)) in
    record { at = rest.at ∙ same; limbs = rest.limbs; size = rest.size ∙ one.size }

-- `r` is the half of `xs`, and `c` the bit below, in the place of a limb's top bit.
record Halves (xs r : List ℕ) (c : ℕ) : Type 0 where
  sum : 2 * value r + value xs % 2 ≡ value xs
  carry : c ≡ value xs % 2 * 2 ^ 31
  limbs : AreLimbs r
  size : length r ≡ length xs

shr_loop-Halves : (xs : List ℕ) → AreLimbs xs → Halves xs (shr_loop xs).0 (shr_loop xs).1
unfolding shr_loop
shr_loop-Halves [] h = record { sum = refl; carry = refl; limbs = tt; size = refl }
shr_loop-Halves (x ∷ xs) (b, h) =
    let ih = shr_loop-Halves xs h in
    record {
      sum = omega (arith, ih.sum, ih.carry, b);
      carry = omega (arith, b);
      limbs = (omega (arith, ih.carry, b), ih.limbs);
      size = ap suc ih.size;
    }

pub shr_loop-HasValue :
    (xs : List ℕ) (v : ℕ) → AreLimbs xs → value xs ≡ 2 * v → HasValue (shr_loop xs).0 xs v
shr_loop-HasValue xs v h e =
    let s = shr_loop-Halves xs h in
    record { at = omega (arith, s.sum, e); limbs = s.limbs; size = s.size }
