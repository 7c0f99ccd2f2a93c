-- ===== src/Bignum/Divide/Remainder.antt =====
-- bn_mod of kernel/lib/bignum.c: its result is the remainder.
use yart_os.Prelude.{
  ℕ, zero, suc, ◌+◌, ◌-◌, ◌*◌, ◌%◌, ◌^◌, ◌≤◌, ◌<◌, ◌≡◌, inl, inr, refl, sym, ◌∙◌, ap, true, false,
  if◌then◌else◌, List, length, arith,
}
use yart_os.Bignum.{at_least, sub}
use yart_os.Bignum.Value.{value, weight, AreLimbs, value-bound, weight-length}
use yart_os.Bignum.Subtract.{at_least-cases, sub-value, sub_loop-Subtracts, IsRemainder}
use yart_os.Bignum.Divide.{shr_loop, shl_times, divide_loop, mod_big, bitlen}
use yart_os.Bignum.Divide.Length.{bitlen-IsLength, pow_pos}
use yart_os.Bignum.Power.Convert.{pow_add, weight-two}
use yart_os.Bignum.Divide.Shift.{shl_times-HasValue, shr_loop-HasValue}
use native.Mathlib.Decide.{dec_lt}
use native.Mathlib.Nat.{
  pow-suc, mul-le-mul_right, mul-lt-mul_of_pos_right, mul-add-mod_self_right, mod-eq_of_lt,
}

-- one turn: the rest of `rem` after the subtraction of `t`, if it fits
record Rest (rem t r : List ℕ) : Type 0 where
  times : ℕ
  sum : value rem ≡ times * value t + value r
  less : value rem < 2 * value t → value r < value t
  limbs : AreLimbs r
  size : length r ≡ length rem

turn-Rest :
    (rem t : List ℕ)
    → AreLimbs rem
    → AreLimbs t
    → length rem ≡ length t
    → Rest rem t (if at_least rem t then sub rem t else rem)
turn-Rest rem t hr ht e = elim (at_least-cases rem t hr ht e) [
  | inl (y, le) ↦
      let d = sub_loop-Subtracts rem t 0 hr ht e (omega arith) in
      let v = sub-value rem t hr ht e le in
      rw y (record {
        times = 1;
        sum = omega (arith, v);
        less = λ h. omega (arith, v, h);
        limbs = d.limbs;
        size = d.size;
      })
  | inr (n, lt) ↦
      rw n (record { times = 0; sum = omega arith; less = λ h. lt; limbs = hr; size = refl })
]

-- `v` is a multiple of `m` and `r`, which is smaller.
abbrev Left : (v m r : ℕ) → Type 0
Left v m r = (q : ℕ) × (v ≡ q * m + r) × (r < m)

scaled : (v a t m p r q s : ℕ) → v ≡ a * t + r → t ≡ m * p → r ≡ q * m + s → v ≡ (a * p + q) * m + s
scaled v a t m p r q s e f g = grind (arith, e, ap (λ k. a * k) f, g)

halved : (m p : ℕ) → m * (p * 2) ≡ 2 * (m * p)
halved m p = grind arith

divide_loop-Left :
    (k : ℕ) (m : ℕ) (rem t : List ℕ)
    → AreLimbs rem
    → AreLimbs t
    → length rem ≡ length t
    → value t ≡ m * 2 ^ k
    → value rem < 2 * value t
    → let r = divide_loop (suc k) rem t in
      Left (value rem) m (value r) × AreLimbs r × (length r ≡ length rem)
unfolding divide_loop
divide_loop-Left zero m rem t hr ht e f lt =
    let one = turn-Rest rem t hr ht e in
    let m_is : value t ≡ m = f ∙ omega arith in
    (
      (
        one.times,
        one.sum ∙ ap (λ x. one.times * x + value (if at_least rem t then sub rem t else rem)) m_is,
        omega (arith, one.less lt, m_is),
      ),
      one.limbs,
      one.size,
    )
divide_loop-Left (suc k) m rem t hr ht e f lt =
    let one = turn-Rest rem t hr ht e in
    let half : value t ≡ 2 * (m * 2 ^ k) = f ∙ ap (λ p. m * p) (pow-suc 2 k) ∙ halved m (2 ^ k) in
    let next = shr_loop-HasValue t (m * 2 ^ k) ht half in
    let ((q, sum, less), limbs, size) =
      divide_loop-Left k m _ (shr_loop t).0 one.limbs next.limbs (one.size ∙ e ∙ sym next.size)
        next.at (omega (arith, one.less lt, next.at, half)) in
    (
      (
        one.times * 2 ^ suc k + q,
        scaled _ one.times (value t) m (2 ^ suc k) _ q _ one.sum f sum,
        less,
      ),
      limbs,
      size ∙ one.size,
    )

pow-lt : (a b : ℕ) → a < b → 2 * 2 ^ a ≤ 2 ^ b
pow-lt a b h =
    let e : 2 ^ b ≡ 2 ^ suc a * 2 ^ (b - suc a) =
      ap (λ k. 2 ^ k) (omega (arith, h)) ∙ pow_add (suc a) (b - suc a) in
    grow (2 ^ b) (2 ^ suc a) (2 ^ a) (2 ^ (b - suc a)) e (pow-suc 2 a) (pow_pos (b - suc a))
  where
    grow : (x y a p : ℕ) → x ≡ y * p → y ≡ a * 2 → 0 < p → 2 * a ≤ x
    grow x y a zero e f h = absurd (omega arith)
    grow x y a (suc p) e f h = grind (arith, e, f)

lt-pow : (a b : ℕ) → 2 ^ a < 2 * 2 ^ b → a ≤ b
lt-pow a b h = elim (dec_lt b a) [
  | yes lt ↦ absurd (omega (arith, pow-lt b a lt, h))
  | no ge ↦ omega arith
]

exponent-lt : (a b : ℕ) → 2 ^ a < 2 ^ b → a < b
exponent-lt a b h = elim (dec_lt a b) [
  | yes lt ↦ lt
  | no ge ↦ elim (dec_lt b a) [
    | yes gt ↦ absurd (omega (arith, pow-lt b a gt, h))
    | no le ↦
        let same : 2 ^ a ≡ 2 ^ b = ap (λ k. 2 ^ k) (omega (arith, ge, le)) in
        absurd (omega (arith, same, h))
  ]
]

-- the modulus, shifted to the length of the number
aligned : (m s p q : ℕ) → p ≡ q * s → q ≤ m → m < 2 * q → 0 < s → (m * s < 2 * p) × (p ≤ m * s)
aligned m s p q e lo hi pos =
    let up : m * s < 2 * q * s = mul-lt-mul_of_pos_right hi pos in
    let down : q * s ≤ m * s = mul-le-mul_right s lo in
    (grind (arith, e, up), omega (arith, e, down))

exact : (v m r : ℕ) → Left v m r → r ≡ v % m
exact v m r (q, e, lt) = sym (ap (λ k. k % m) e ∙ mul-add-mod_self_right q m r ∙ mod-eq_of_lt lt)

-- Shifting the modulus by the difference of the lengths makes it as long as the number and keeps it in the limbs.
shift-fits :
    (a m : List ℕ)
    → AreLimbs a
    → AreLimbs m
    → length a ≡ length m
    → 0 < value m
    → value m ≤ value a
    → let s = bitlen a - bitlen m in
      (value m * 2 ^ s < weight m) × (value a < 2 * (value m * 2 ^ s))
shift-fits a m ha hm e pos le = elim (bitlen-IsLength a ha) [
  | inl (z, _) ↦ absurd (omega (arith, z, pos, le))
  | inr (i, ea, lo, hi) ↦ elim (bitlen-IsLength m hm) [
    | inl (z, _) ↦ absurd (omega (arith, z, pos))
    | inr (j, em, low, high) ↦
        let ji : j ≤ i = lt-pow j i (omega (arith, low, le, hi)) in
        let s : bitlen a - bitlen m ≡ i - j = omega (arith, ea, em) in
        let parts : 2 ^ i ≡ 2 ^ j * 2 ^ (i - j) =
          ap (λ k. 2 ^ k) (omega (arith, ji)) ∙ pow_add j (i - j) in
        let (up, down) =
          aligned (value m) (2 ^ (i - j)) (2 ^ i) (2 ^ j) parts low high (pow_pos (i - j)) in
        let room : 2 * 2 ^ i ≤ 2 ^ (32 * length m) = pow-lt i (32 * length m) (
          exponent-lt i (32 * length m)
            (omega (arith, lo, value-bound a ha, weight-length a m e, weight-two m))) in
        rw s (omega (arith, up, room, weight-two m), omega (arith, hi, down))
  ]
]

mod-small : (a m : List ℕ) → at_least a m ≡ false → mod_big a m ≡ a
unfolding mod_big
mod-small a m e = rw (mod_big, e) refl

mod-large :
    (a m : List ℕ)
    → at_least a m ≡ true
    → let s = bitlen a - bitlen m in mod_big a m ≡ divide_loop (s + 1) a (shl_times s m)
unfolding mod_big
mod-large a m e = rw (mod_big, e) refl

-- For two numbers of equally many limbs, the second of which is not 0, bn_mod returns limbs of the remainder.
pub mod_big-IsRemainder :
    (a m : List ℕ)
    → AreLimbs a
    → AreLimbs m
    → length a ≡ length m
    → 0 < value m
    → IsRemainder (mod_big a m) m (value a)
mod_big-IsRemainder a m ha hm e pos = elim (at_least-cases a m ha hm e) [
  | inr (n, lt) ↦
      rw (mod-small a m n)
        (record { value_of = sym (mod-eq_of_lt lt); less = lt; limbs = ha; size = e })
  | inl (y, le) ↦
      let (fits, big) = shift-fits a m ha hm e pos le in
      let s = bitlen a - bitlen m in
      let t = shl_times-HasValue s m hm fits in
      let (left, limbs, size) =
        divide_loop-Left s (value m) a (shl_times s m) ha t.limbs (e ∙ sym t.size) t.at
          (omega (arith, big, t.at)) in
      let rounds : suc s ≡ s + 1 = omega arith in
      rw (mod-large a m y, sym rounds)
        (record {
          value_of = exact (value a) (value m) _ left;
          less = left.2;
          limbs = limbs;
          size = size ∙ e;
        })
]
