-- ===== src/Bignum/Subtract.antt =====
-- bn_cmp, bn_sub and bn_dbl_mod of kernel/lib/bignum.c as operations on numbers.
use yart_os.Prelude.{
  ℕ, zero, suc, ◌+◌, ◌-◌, ◌*◌, ◌/◌, ◌%◌, ◌<◌, ◌≤◌, ◌≡◌, ◌⊎◌, inl, inr, refl, true, false, ◌||◌, not,
  List, [], ◌∷◌, length, ◌==◌, u32_mod, u64_mod, arith, sym, ◌∙◌, ap, subst,
}
use yart_os.Bignum.{below, equal, above, cmp, at_least, sub_loop, sub, double_loop, dbl_mod}
use native.Mathlib.Nat.{add-mod_right, mod-eq_of_lt}
use yart_os.Bignum.Value.{value, weight, AreLimbs, value-bound, weight-length}

-- The digits of one step of the subtraction.
digit-sub :
    (x y c : ℕ)
    → x < u32_mod
    → y < u32_mod
    → c ≤ 1
    → (((x + u64_mod - y - c) % u64_mod) % u32_mod + y + c
        ≡ x + u32_mod * (((x + u64_mod - y - c) % u64_mod) / u32_mod % 2))
digit-sub x y c hx hy hc = omega arith

-- Limbs `r` with the borrow `q` are the difference of limbs less the borrow `c`.
pub record Subtracts (xs ys : List ℕ) (c : ℕ) (r : List ℕ) (q : ℕ) : Type 0 where
  pub sum : value r + value ys + c ≡ value xs + weight xs * q
  pub borrow : q ≤ 1
  pub limbs : AreLimbs r
  pub size : length r ≡ length xs

sum-cons :
    (d r y ys c x xs q w k : ℕ)
    → d + y + c ≡ x + u32_mod * k
    → r + ys + k ≡ xs + w * q
    → d + u32_mod * r + (y + u32_mod * ys) + c ≡ x + u32_mod * xs + u32_mod * w * q
sum-cons d r y ys c x xs q w k e f = grind (arith, e, f)

pub sub_loop-Subtracts :
    (xs ys : List ℕ) (c : ℕ)
    → AreLimbs xs
    → AreLimbs ys
    → length xs ≡ length ys
    → c ≤ 1
    → Subtracts xs ys c (sub_loop xs ys c).0 (sub_loop xs ys c).1
sub_loop-Subtracts [] [] c hx hy e hc = record {
  sum = omega arith;
  borrow = hc;
  limbs = tt;
  size = refl;
}
sub_loop-Subtracts [] (y ∷ ys) c hx hy e hc = absurd (omega arith)
sub_loop-Subtracts (x ∷ xs) [] c hx hy e hc = absurd (omega arith)
sub_loop-Subtracts (x ∷ xs) (y ∷ ys) c (bx, hx) (by', hy) e hc =
    let d = (x + u64_mod - y - c) % u64_mod in
    let k = d / u32_mod % 2 in
    let ih = sub_loop-Subtracts xs ys k hx hy (omega arith) (omega arith) in
    let rest = sub_loop xs ys k in
    record {
      sum =
          sum-cons (d % u32_mod) (value rest.0) y (value ys) c x (value xs) rest.1 (weight xs) k
            (digit-sub x y c bx by' hc) ih.sum;
      borrow = ih.borrow;
      limbs = (omega arith, ih.limbs);
      size = ap suc ih.size;
    }

-- bn_cmp compares the numbers.
data Compares (xs ys : List ℕ) : Type 0 where
  is_below : cmp xs ys ≡ below → value xs < value ys → Compares xs ys
  is_equal : cmp xs ys ≡ equal → value xs ≡ value ys → Compares xs ys
  is_above : cmp xs ys ≡ above → value ys < value xs → Compares xs ys

digits-lt : (x y v w : ℕ) → x < u32_mod → v < w → x + u32_mod * v < y + u32_mod * w
digits-lt x y v w h l = omega arith

below_equal_above : (x y : ℕ) → (x < y) ⊎ (x ≡ y) ⊎ (y < x)
below_equal_above x y = ground arith

cmp-Compares : (xs ys : List ℕ) → AreLimbs xs → AreLimbs ys → length xs ≡ length ys → Compares xs ys
cmp-Compares [] [] hx hy e = is_equal refl refl
cmp-Compares [] (y ∷ ys) hx hy e = absurd (omega arith)
cmp-Compares (x ∷ xs) [] hx hy e = absurd (omega arith)
cmp-Compares (x ∷ xs) (y ∷ ys) (bx, hx) (by', hy) e =
    elim (cmp-Compares xs ys hx hy (omega arith)) [
      | is_below c l ↦ is_below (ground (arith, c)) (digits-lt x y (value xs) (value ys) bx l)
      | is_above c l ↦ is_above (ground (arith, c)) (digits-lt y x (value ys) (value xs) by' l)
      | is_equal c l ↦ same_high x y xs ys c l
    ]
  where
    same_high :
        (x y : ℕ) (xs ys : List ℕ)
        → cmp xs ys ≡ equal
        → value xs ≡ value ys
        → Compares (x ∷ xs) (y ∷ ys)
    same_high x y xs ys c l = elim (below_equal_above x y) [
      | inl lt ↦ is_below (ground (arith, c, lt)) (omega (arith, l, lt))
      | inr (inl eq') ↦ is_equal (ground (arith, c, eq')) (omega (arith, l, eq'))
      | inr (inr gt) ↦ is_above (ground (arith, c, gt)) (omega (arith, l, gt))
    ]

-- What the test before a subtraction says.
pub at_least-cases :
    (xs ys : List ℕ)
    → AreLimbs xs
    → AreLimbs ys
    → length xs ≡ length ys
    → ((at_least xs ys ≡ true) × (value ys ≤ value xs))
      ⊎ ((at_least xs ys ≡ false) × (value xs < value ys))
at_least-cases xs ys hx hy e = elim (cmp-Compares xs ys hx hy e) [
  | is_below c l ↦ inr (ground (arith, c), l)
  | is_equal c l ↦ inl (ground (arith, c), omega (arith, l))
  | is_above c l ↦ inl (ground (arith, c), omega (arith, l))
]

-- bn_sub of a number that is not larger
pub sub-value :
    (xs ys : List ℕ)
    → AreLimbs xs
    → AreLimbs ys
    → length xs ≡ length ys
    → value ys ≤ value xs
    → value (sub xs ys) + value ys ≡ value xs
sub-value xs ys hx hy e le =
    let s = sub_loop-Subtracts xs ys 0 hx hy e (omega arith) in
    let b = value-bound (sub xs ys) s.limbs in
    let w : weight (sub xs ys) ≡ weight xs = weight-length (sub xs ys) xs s.size in
    small (value (sub xs ys)) (value ys) (value xs) (weight xs) (sub_loop xs ys 0).1 s.sum s.borrow
      (rw (sym w) b) le (value-bound xs hx)
  where
    small : (r y x w q : ℕ) → r + y + 0 ≡ x + w * q → q ≤ 1 → r < w → y ≤ x → x < w → r + y ≡ x
    small r y x w zero e h a b c = grind (arith, e)
    small r y x w (suc zero) e h a b c = absurd (omega arith)
    small r y x w (suc (suc q)) e h a b c = absurd (omega arith)

-- the digits of one step of the doubling
digit-double :
    (x c : ℕ)
    → x < u32_mod
    → c ≤ 1
    → (((x * 2 + c) % u64_mod) % u32_mod + u32_mod * (((x * 2 + c) % u64_mod) / u32_mod)
        ≡ 2 * x + c)
      × (((x * 2 + c) % u64_mod) / u32_mod ≤ 1)
digit-double x c hx hc = (omega arith, omega arith)

pub record Doubles (xs : List ℕ) (c : ℕ) (r : List ℕ) (q : ℕ) : Type 0 where
  pub sum : value r + weight xs * q ≡ 2 * value xs + c
  pub carry : q ≤ 1
  pub limbs : AreLimbs r
  pub size : length r ≡ length xs

double-cons :
    (d r c x xs q w k : ℕ)
    → d + u32_mod * k ≡ 2 * x + c
    → r + w * q ≡ 2 * xs + k
    → d + u32_mod * r + u32_mod * w * q ≡ 2 * (x + u32_mod * xs) + c
double-cons d r c x xs q w k e f = grind (arith, e, f)

double_loop-Doubles :
    (xs : List ℕ) (c : ℕ)
    → AreLimbs xs
    → c ≤ 1
    → Doubles xs c (double_loop xs c).0 (double_loop xs c).1
double_loop-Doubles [] c hx hc = record { sum = omega arith; carry = hc; limbs = tt; size = refl }
double_loop-Doubles (x ∷ xs) c (bx, hx) hc =
    let d = (x * 2 + c) % u64_mod in
    let k = d / u32_mod in
    let (e, hk) = digit-double x c bx hc in
    let ih = double_loop-Doubles xs k hx hk in
    let rest = double_loop xs k in
    record {
      sum = double-cons (d % u32_mod) (value rest.0) c x (value xs) rest.1 (weight xs) k e ih.sum;
      carry = ih.carry;
      limbs = (omega arith, ih.limbs);
      size = ap suc ih.size;
    }

once : (a n s : ℕ) → s + n ≡ a → s < n → a % n ≡ s
once a n s e h = ap (λ k. k % n) (sym e) ∙ add-mod_right s n ∙ mod-eq_of_lt h

-- A list of limbs with the value of a remainder.
pub record IsRemainder (r n : List ℕ) (v : ℕ) : Type 0 where
  pub value_of : value r ≡ v % value n
  pub less : value r < value n
  pub limbs : AreLimbs r
  pub size : length r ≡ length n

module _ (a n : List ℕ) (ha : AreLimbs a) (hn : AreLimbs n) (e : length a ≡ length n)
    (lt : value a < value n) where
  doubled : List ℕ
  doubled = (double_loop a 0).0

  double-sum : value doubled + weight a * (double_loop a 0).1 ≡ 2 * value a
  unfolding doubled
  double-sum = (double_loop-Doubles a 0 ha (omega arith)).sum ∙ omega arith

  doubled-limbs : AreLimbs doubled
  unfolding doubled
  doubled-limbs = (double_loop-Doubles a 0 ha (omega arith)).limbs

  doubled-size : length doubled ≡ length n
  unfolding doubled
  doubled-size = (double_loop-Doubles a 0 ha (omega arith)).size ∙ e

  difference : Subtracts doubled n 0 (sub doubled n) (sub_loop doubled n 0).1
  difference = sub_loop-Subtracts doubled n 0 doubled-limbs hn doubled-size (omega arith)

  reduced :
      value (sub doubled n) + value n ≡ 2 * value a → IsRemainder (sub doubled n) n (2 * value a)
  reduced q = record {
    value_of = sym (once (2 * value a) (value n) (value (sub doubled n)) q (omega (arith, q, lt)));
    less = omega (arith, q, lt);
    limbs = difference.limbs;
    size = difference.size ∙ doubled-size;
  }

  carried-sum : (double_loop a 0).1 ≡ 1 → value (sub doubled n) + value n ≡ 2 * value a
  carried-sum h =
      carried (value (sub doubled n)) (value n) (value doubled) (value a) (weight a)
        (weight doubled) (sub_loop doubled n 0).1 difference.sum
        (subst (λ q. value doubled + weight a * q ≡ 2 * value a) h double-sum) difference.borrow
        (weight-length doubled a (doubled-size ∙ sym e))
        (subst (λ w. value n < w) (sym (weight-length a n e)) (value-bound n hn)) lt
    where
      carried :
          (s m r v w u k : ℕ)
          → s + m + 0 ≡ r + u * k
          → r + w * 1 ≡ 2 * v
          → k ≤ 1
          → u ≡ w
          → m < w
          → v < m
          → s + m ≡ 2 * v
      carried s m r v w u zero f g hk o hm hv = absurd (omega arith)
      carried s m r v w u (suc zero) f g hk o hm hv = omega arith
      carried s m r v w u (suc (suc k)) f g hk o hm hv = absurd (omega arith)

  double-cases : ((double_loop a 0).1 ≡ 1) ⊎ ((double_loop a 0).1 ≡ 0)
  double-cases = let h = (double_loop-Doubles a 0 ha (omega arith)).carry in ground (arith, h)

  dbl_mod-big :
      (not ((double_loop a 0).1 == 0) || at_least doubled n) ≡ true → dbl_mod a n ≡ sub doubled n
  unfolding dbl_mod doubled
  dbl_mod-big h = ground (arith, h)

  dbl_mod-small :
      (not ((double_loop a 0).1 == 0) || at_least doubled n) ≡ false → dbl_mod a n ≡ doubled
  unfolding dbl_mod doubled
  dbl_mod-small h = ground (arith, h)

  uncarried : (double_loop a 0).1 ≡ 0 → value doubled ≡ 2 * value a
  uncarried h =
      let s = subst (λ q. value doubled + weight a * q ≡ 2 * value a) h double-sum in
      omega (arith, s)

  below_modulus :
      value doubled ≡ 2 * value a → value doubled < value n → IsRemainder doubled n (2 * value a)
  below_modulus q h = record {
    value_of = q ∙ sym (mod-eq_of_lt (subst (λ k. k < value n) q h));
    less = h;
    limbs = doubled-limbs;
    size = doubled-size;
  }

  -- For limbs of a number below the modulus, bn_dbl_mod returns the limbs of twice that number modulo it.
  pub dbl_mod-IsRemainder : IsRemainder (dbl_mod a n) n (2 * value a)
  dbl_mod-IsRemainder = elim double-cases [
    | inl h ↦
        let big : (not ((double_loop a 0).1 == 0) || at_least doubled n) ≡ true =
          ground (arith, h) in
        subst (λ r. IsRemainder r n (2 * value a)) (sym (dbl_mod-big big)) (reduced (carried-sum h))
    | inr h ↦ elim (at_least-cases doubled n doubled-limbs hn doubled-size) [
      | inl (t, le) ↦
          let big : (not ((double_loop a 0).1 == 0) || at_least doubled n) ≡ true =
            ground (arith, h, t) in
          subst (λ r. IsRemainder r n (2 * value a)) (sym (dbl_mod-big big))
            (reduced (sub-value doubled n doubled-limbs hn doubled-size le ∙ uncarried h))
      | inr (t, l) ↦
          let big : (not ((double_loop a 0).1 == 0) || at_least doubled n) ≡ false =
            ground (arith, h, t) in
          subst (λ r. IsRemainder r n (2 * value a)) (sym (dbl_mod-small big))
            (below_modulus (uncarried h) l)
    ]
  ]
