-- ===== src/Bignum/Power/Convert.antt =====
-- The conversion of bn_mont_consts and bn_mod_mul of kernel/lib/bignum.c: the residues of
-- 2 ^ (32 * BN_LIMBS), and a product modulo n.
use yart_os.Prelude.{
  ℕ, zero, suc, ◌+◌, ◌*◌, ◌%◌, ◌^◌, ◌<◌, ◌≡◌, refl, List, [], ◌∷◌, arith, sym, ◌∙◌, ap, subst,
  length, Option,
}
use native.Mathlib.Nat.{mod-mod, mod-eq_of_lt, pow-suc}
use yart_os.Bignum.{head_or, dbl_mod}
use yart_os.Bignum.Value.{value, weight, AreLimbs, value_zeros, zeros-AreLimbs, length_zeros}
use yart_os.Bignum.Subtract.{IsRemainder, dbl_mod-IsRemainder}
use yart_os.Bignum.Reduce.{Returns}
use yart_os.Bignum.Inverse.{mont_mul-n0inv}
use yart_os.Bignum.Power.{double_times, one, mont_r, mont_r2, mul, mod_mul, and_then}
use yart_os.Bignum.Power.Congruence.{Congruent, mul-Congruent, cancel}

-- `n` is an odd modulus above 1, in limbs.
pub record IsModulus (n : List ℕ) : Type 0 where
  pub limbs : AreLimbs n
  pub odd : head_or n % 2 ≡ 1
  pub above_one : 1 < value n

double_times-IsRemainder :
    (k v : ℕ) (r n : List ℕ)
    → AreLimbs n
    → IsRemainder r n v
    → IsRemainder (double_times k r n) n (2 ^ k * v)
double_times-IsRemainder zero v r n hn h = subst (λ w. IsRemainder r n w) (times_one v) h
  where
    times_one : (v : ℕ) → v ≡ 2 ^ 0 * v
    times_one v = omega arith
double_times-IsRemainder (suc k) v r n hn h =
    let d = dbl_mod-IsRemainder r n h.limbs hn h.size h.less in
    let e : Congruent (value n) (2 * value r) (2 * v) =
      mul-Congruent (value n) 2 2 (value r) v refl
        (ap (λ w. w % value n) h.value_of ∙ mod-mod v (value n)) in
    subst (λ w. IsRemainder (double_times (suc k) r n) n w) (shuffle k v)
      (double_times-IsRemainder k (2 * v) (dbl_mod r n) n hn
        (record { value_of = d.value_of ∙ e; less = d.less; limbs = d.limbs; size = d.size }))
  where
    shuffle : (k v : ℕ) → 2 ^ k * (2 * v) ≡ 2 ^ suc k * v
    shuffle k v = grind (arith, ap (λ w. w * v) (pow-suc 2 k))

pub pow_add : (a b : ℕ) → 2 ^ (a + b) ≡ 2 ^ a * 2 ^ b
pow_add zero b =
    let e : 0 + b ≡ b = omega arith in
    let f : 2 ^ b ≡ 2 ^ 0 * 2 ^ b = omega arith in ap (λ k. 2 ^ k) e ∙ f
pow_add (suc a) b =
    let e : suc a + b ≡ suc (a + b) = omega arith in
    ap (λ k. 2 ^ k) e
    ∙ pow-suc 2 (a + b)
    ∙ grind (arith, ap (λ k. k * 2) (pow_add a b), ap (λ k. k * 2 ^ b) (pow-suc 2 a))

pub weight-two : (n : List ℕ) → 2 ^ (32 * length n) * 1 ≡ weight n
weight-two [] = refl
weight-two (x ∷ xs) =
    let e : 32 * suc (length xs) ≡ 32 + 32 * length xs = omega arith in
    ap (λ k. 2 ^ k * 1) e
    ∙ ap (λ k. k * 1) (pow_add 32 (32 * length xs))
    ∙ omega (arith, weight-two xs)

value-one : (n : List ℕ) → 1 < value n → value (one n) ≡ 1
value-one [] h = absurd (omega arith)
value-one (x ∷ xs) h = omega (arith, value_zeros (length xs))

one-AreLimbs : (n : List ℕ) → AreLimbs (one n)
one-AreLimbs [] = tt
one-AreLimbs (x ∷ xs) = (omega arith, zeros-AreLimbs (length xs))

one-length : (n : List ℕ) → length (one n) ≡ length n
one-length [] = refl
one-length (x ∷ xs) = ap suc (length_zeros (length xs))

module _ (n : List ℕ) (h : IsModulus n) where
  one-IsRemainder : IsRemainder (one n) n 1
  one-IsRemainder = record {
    value_of = value-one n h.above_one ∙ sym (mod-eq_of_lt h.above_one);
    less = subst (λ v. v < value n) (sym (value-one n h.above_one)) h.above_one;
    limbs = one-AreLimbs n;
    size = one-length n;
  }

  pub mont_r-IsRemainder : IsRemainder (mont_r n) n (weight n)
  mont_r-IsRemainder =
      subst (λ w. IsRemainder (mont_r n) n w) (weight-two n)
        (double_times-IsRemainder (32 * length n) 1 (one n) n h.limbs one-IsRemainder)

  pub mont_r2-IsRemainder : IsRemainder (mont_r2 n) n (weight n * weight n)
  mont_r2-IsRemainder =
      subst (λ w. IsRemainder (mont_r2 n) n w)
        (squared (2 ^ (32 * length n)) (weight n) (weight-two n))
        (double_times-IsRemainder (32 * length n) (weight n) (mont_r n) n h.limbs
          mont_r-IsRemainder)
    where
      squared : (p w : ℕ) → p * 1 ≡ w → p * w ≡ w * w
      squared p w e = grind (arith, ap (λ k. k * w) e)

pub and_then-Returns :
    {P Q : List ℕ → Type 0} (o : Option (List ℕ)) (f : List ℕ → Option (List ℕ))
    → Returns o P
    → ((r : List ℕ) → P r → Returns (f r) Q)
    → Returns (and_then o f) Q
and_then-Returns {Q = Q} o f h g =
    subst (λ u. Returns (and_then u f) Q) (sym h.returned) (g h.result h.holds)

module _ (n : List ℕ) (h : IsModulus n) (k : ℕ) where
  -- A call of bn_mont_mul, by the residues that its arguments and its result have.
  pub mul-IsRemainder :
      (a b : List ℕ) (y x : ℕ)
      → AreLimbs a
      → length a ≡ length n
      → IsRemainder b n y
      → Congruent (value n) (value a * y) (x * weight n)
      → Returns (mul (suc (suc k)) n a b) (λ r. IsRemainder r n x)
  mul-IsRemainder a b y x ha ea hb e =
      let r = mont_mul-n0inv k a b n h.odd ha hb.limbs h.limbs ea hb.size hb.less in
      let p = r.holds in
      let same : Congruent (value n) (value b) y =
        ap (λ w. w % value n) hb.value_of ∙ mod-mod y (value n) in
      let c : Congruent (value n) (value r.result) x =
        cancel n (value r.result) x h.odd
          (p.product ∙ mul-Congruent (value n) (value a) (value a) (value b) y refl same ∙ e) in
      record {
        result = r.result;
        returned = r.returned;
        holds = record {
          value_of = sym (mod-eq_of_lt p.less) ∙ c;
          less = p.less;
          limbs = p.limbs;
          size = p.size;
        };
      }

  -- A product of two residues, as bn_mont_mul takes and gives them.
  pub mul-residues :
      (a b : List ℕ) (x y z : ℕ)
      → IsRemainder a n (x * weight n)
      → IsRemainder b n y
      → x * y ≡ z
      → Returns (mul (suc (suc k)) n a b) (λ r. IsRemainder r n z)
  mul-residues a b x y z ha hb e =
      let same : Congruent (value n) (value a) (x * weight n) =
        ap (λ w. w % value n) ha.value_of ∙ mod-mod (x * weight n) (value n) in
      mul-IsRemainder a b y z ha.limbs ha.size hb (
        mul-Congruent (value n) (value a) (x * weight n) y y same refl
        ∙ ap (λ v. v % value n) (regroup x (weight n) y z e))
    where
      regroup : (x w y z : ℕ) → x * y ≡ z → x * w * y ≡ z * w
      regroup x w y z e = grind (arith, ap (λ k. k * w) e)

  -- The conversion: a * 2 ^ (32 * BN_LIMBS).
  pub convert :
      (a : List ℕ)
      → AreLimbs a
      → length a ≡ length n
      → Returns (mul (suc (suc k)) n a (mont_r2 n)) (λ r. IsRemainder r n (value a * weight n))
  convert a ha ea =
      mul-IsRemainder a (mont_r2 n) (weight n * weight n) (value a * weight n) ha ea
        (mont_r2-IsRemainder n h) (ap (λ v. v % value n) (regroup (value a) (weight n)))
    where
      regroup : (a w : ℕ) → a * (w * w) ≡ a * w * w
      regroup a w = grind arith

  -- The way back.
  pub convert_back :
      (a : List ℕ) (x : ℕ)
      → IsRemainder a n (x * weight n)
      → Returns (mul (suc (suc k)) n a (one n)) (λ r. IsRemainder r n x)
  convert_back a x ha = mul-residues a (one n) x 1 x ha (one-IsRemainder n h) (omega arith)

  -- For limbs as many as those of an odd modulus above 1, bn_mod_mul returns the limbs of the product
  -- modulo `n`.
  pub mod_mul-IsRemainder :
      (a b : List ℕ)
      → AreLimbs a
      → AreLimbs b
      → length a ≡ length n
      → length b ≡ length n
      → Returns (mod_mul (suc (suc k)) a b n) (λ r. IsRemainder r n (value a * value b))
  unfolding mod_mul
  mod_mul-IsRemainder a b ha hb ea eb =
      and_then-Returns (mul (suc (suc k)) n a (mont_r2 n))
        (λ am.
          and_then (mul (suc (suc k)) n b (mont_r2 n))
            (λ bm. and_then (mul (suc (suc k)) n am bm) (λ t. mul (suc (suc k)) n t (one n))))
        (convert a ha ea)
        (λ am ham.
          and_then-Returns (mul (suc (suc k)) n b (mont_r2 n))
            (λ bm. and_then (mul (suc (suc k)) n am bm) (λ t. mul (suc (suc k)) n t (one n)))
            (convert b hb eb)
            (λ bm hbm.
              and_then-Returns (mul (suc (suc k)) n am bm) (λ t. mul (suc (suc k)) n t (one n))
                (mul-residues am bm (value a) (value b * weight n) (value a * value b * weight n)
                  ham hbm (regroup (value a) (value b) (weight n)))
                (λ t ht. convert_back t (value a * value b) ht)))
    where
      regroup : (a b w : ℕ) → a * (b * w) ≡ a * b * w
      regroup a b w = grind arith
