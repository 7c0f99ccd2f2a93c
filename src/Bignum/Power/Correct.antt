-- ===== src/Bignum/Power/Correct.antt =====
-- bn_modpow of kernel/lib/bignum.c returns the power modulo n.
use yart_os.Prelude.{
  ℕ, zero, suc, ◌+◌, ◌*◌, ◌/◌, ◌%◌, ◌^◌, ◌<◌, ◌≡◌, refl, List, [], ◌∷◌, u32_mod, arith, sym, ◌∙◌,
  ap, subst, length, Option, some,
}
use native.Mathlib.Nat.{pow-suc, pow-zero, div-add-mod, mod-lt, mod-eq_of_lt, add-mul-mod_self_left}
use yart_os.Bignum.Value.{value, weight, AreLimbs}
use yart_os.Bignum.Subtract.{IsRemainder}
use yart_os.Bignum.Reduce.{Returns}
use yart_os.Bignum.Power.{
  mul, mont_r, modpow, Ladder, waiting, running, turn, bit_loop, limb_loop, acc_of,
}
use yart_os.Bignum.Power.Convert.{
  IsModulus, mul-residues, convert, convert_back, mont_r-IsRemainder,
}

-- The ladder has read the exponent `e` from its highest bits on: its number stands for base ^ e, and it
-- waits for the first bit that is 1 as long as `e` is 0.
abbrev Holds : (n : List ℕ) → (base e : ℕ) → Ladder → Type 0
Holds n base e (waiting acc) = (e ≡ 0) × IsRemainder acc n (1 * weight n)
Holds n base e (running acc) = IsRemainder acc n (base ^ e * weight n)

record Climbs (n : List ℕ) (base : ℕ) (e : ℕ) (o : Option Ladder) : Type 0 where
  state : Ladder
  returned : o ≡ some state
  holds : Holds n base e state

pow_double : (b e : ℕ) → b ^ e * b ^ e ≡ b ^ (e * 2)
pow_double b zero = ap (λ k. k * k) (pow-zero b) ∙ sym (pow-zero b)
pow_double b (suc e) =
    let i : suc e * 2 ≡ suc (suc (e * 2)) = omega arith in
    ap (λ k. k * k) (pow-suc b e)
    ∙ grow (b ^ e) b (b ^ (e * 2)) (pow_double b e)
    ∙ sym (ap (λ k. b ^ k) i ∙ pow-suc b (suc (e * 2)) ∙ ap (λ k. k * b) (pow-suc b (e * 2)))
  where
    grow : (x b q : ℕ) → x * x ≡ q → x * b * (x * b) ≡ q * b * b
    grow x b q h = grind (arith, ap (λ k. k * b * b) h)

pow_step : (b e : ℕ) → b ^ e * b ≡ b ^ (e + 1)
pow_step b e = let i : e + 1 ≡ suc e = omega arith in sym (ap (λ k. b ^ k) i ∙ pow-suc b e)

pow_positive : (b : ℕ) → 0 < 2 ^ b
pow_positive zero = omega arith
pow_positive (suc b) = omega (arith, pow_positive b, pow-suc 2 b)

-- The lowest bits with the next one.
low_bits : (b v : ℕ) → v % 2 ^ suc b ≡ v / 2 ^ b % 2 * 2 ^ b + v % 2 ^ b
low_bits b v =
    let p = 2 ^ b in
    let q = v / p in
    let s : p * q + v % p ≡ v = div-add-mod v p in
    let e : v ≡ q % 2 * p + v % p + p * 2 * (q / 2) =
      split p q (v % p) v (q % 2) (q / 2) s (div-add-mod q 2) in
    let lt : v % p < p = mod-lt v (pow_positive b) in
    let two : q % 2 < 2 = omega arith in
    ap (λ k. v % k) (pow-suc 2 b)
    ∙ ap (λ k. k % (p * 2)) e
    ∙ add-mul-mod_self_left (q % 2 * p + v % p) (p * 2) (q / 2)
    ∙ mod-eq_of_lt (below p (q % 2) (v % p) two lt)
  where
    split : (p q r v t h : ℕ) → p * q + r ≡ v → 2 * h + t ≡ q → v ≡ t * p + r + p * 2 * h
    split p q r v t h e f = grind (arith, e, ap (λ k. p * k) f)

    below : (p t r : ℕ) → t < 2 → r < p → t * p + r < p * 2
    below p zero r h g = omega arith
    below p (suc zero) r h g = omega arith
    below p (suc (suc t)) r h g = absurd (omega arith)

module _ (n : List ℕ) (h : IsModulus n) (k base : ℕ) (bm : List ℕ)
    (hb : IsRemainder bm n (base * weight n)) where
  squared :
      (e : ℕ) (acc : List ℕ)
      → IsRemainder acc n (base ^ e * weight n)
      → Returns (mul (suc (suc k)) n acc acc) (λ r. IsRemainder r n (base ^ (e * 2) * weight n))
  squared e acc r =
      mul-residues n h k acc acc (base ^ e) (base ^ e * weight n) (base ^ (e * 2) * weight n) r r
        (join (base ^ e) (weight n) (base ^ (e * 2)) (pow_double base e))
    where
      join : (p w q : ℕ) → p * p ≡ q → p * (p * w) ≡ q * w
      join p w q e = grind (arith, ap (λ k. k * w) e)

  multiplied :
      (e : ℕ) (acc : List ℕ)
      → IsRemainder acc n (base ^ e * weight n)
      → Returns (mul (suc (suc k)) n acc bm) (λ r. IsRemainder r n (base ^ (e + 1) * weight n))
  multiplied e acc r =
      mul-residues n h k acc bm (base ^ e) (base * weight n) (base ^ (e + 1) * weight n) r hb
        (join (base ^ e) base (weight n) (base ^ (e + 1)) (pow_step base e))
    where
      join : (p b w q : ℕ) → p * b ≡ q → p * (b * w) ≡ q * w
      join p b w q e = grind (arith, ap (λ k. k * w) e)

  turn-Holds :
      (e bit : ℕ) (s : Ladder)
      → Holds n base e s
      → bit < 2
      → Climbs n base (e * 2 + bit) (turn (suc (suc k)) n bm bit s)
  turn-Holds e zero (waiting acc) (z, r) lt = record {
    state = waiting acc;
    returned = refl;
    holds = (omega (arith, z), r);
  }
  turn-Holds e (suc zero) (waiting acc) (z, r) lt = record {
    state = running bm;
    returned = refl;
    holds = subst (λ p. IsRemainder bm n (p * weight n)) (first e z) hb;
  }
    where
      first : (e : ℕ) → e ≡ 0 → base ≡ base ^ (e * 2 + 1)
      first e z =
          let i : e * 2 + 1 ≡ 1 = omega (arith, z) in
          let o : 1 * base ≡ base = omega arith in
          sym (pow-suc base 0 ∙ ap (λ k. k * base) (pow-zero base) ∙ o) ∙ sym (ap (λ k. base ^ k) i)
  turn-Holds e zero (running acc) r lt =
      let sq = squared e acc r in
      let i : e * 2 + 0 ≡ e * 2 = omega arith in
      let q = sq.returned in
      record {
        state = running sq.result;
        returned = ground (arith, q);
        holds = subst (λ p. IsRemainder sq.result n (base ^ p * weight n)) (sym i) sq.holds;
      }
  turn-Holds e (suc zero) (running acc) r lt =
      let sq = squared e acc r in
      let m = multiplied (e * 2) sq.result sq.holds in
      let q = sq.returned in
      let p = m.returned in
      record { state = running m.result; returned = ground (arith, q, p); holds = m.holds }
  turn-Holds e (suc (suc bit)) s r lt = absurd (omega arith)

  bit_loop-Holds :
      (b limb e : ℕ) (s : Ladder)
      → Holds n base e s
      → Climbs n base (e * 2 ^ b + limb % 2 ^ b) (bit_loop b (suc (suc k)) n bm limb s)
  unfolding bit_loop
  bit_loop-Holds zero limb e s g = record {
    state = s;
    returned = refl;
    holds = subst (λ v. Holds n base v s) (none_left e limb) g;
  }
    where
      none_left : (e limb : ℕ) → e ≡ e * 2 ^ 0 + limb % 2 ^ 0
      none_left e limb = omega arith
  bit_loop-Holds (suc b) limb e s g =
      let t = turn-Holds e (limb / 2 ^ b % 2) s g (omega arith) in
      let u = bit_loop-Holds b limb (e * 2 + limb / 2 ^ b % 2) t.state t.holds in
      let q = t.returned in
      let p = u.returned in
      record {
        state = u.state;
        returned = ground (arith, q, p);
        holds = subst (λ v. Holds n base v u.state) (next_bit b limb e) u.holds;
      }
    where
      join : (e p t r q s : ℕ) → q ≡ p * 2 → s ≡ t * p + r → (e * 2 + t) * p + r ≡ e * q + s
      join e p t r q s f g = grind (arith, ap (λ k. e * k) f, g)

      next_bit :
          (b limb e : ℕ)
          → (e * 2 + limb / 2 ^ b % 2) * 2 ^ b + limb % 2 ^ b ≡ e * 2 ^ suc b + limb % 2 ^ suc b
      next_bit b limb e =
          join e (2 ^ b) (limb / 2 ^ b % 2) (limb % 2 ^ b) (2 ^ suc b) (limb % 2 ^ suc b)
            (pow-suc 2 b) (low_bits b limb)

  limb_loop-Holds :
      (exp : List ℕ) (s : Ladder)
      → AreLimbs exp
      → Holds n base 0 s
      → Climbs n base (value exp) (limb_loop exp (suc (suc k)) n bm s)
  unfolding limb_loop
  limb_loop-Holds [] s a g = record { state = s; returned = refl; holds = g }
  limb_loop-Holds (x ∷ xs) s (lt, a) g =
      let t = limb_loop-Holds xs s a g in
      let u = bit_loop-Holds 32 x (value xs) t.state t.holds in
      let q = t.returned in
      let p = u.returned in
      record {
        state = u.state;
        returned = ground (arith, q, p);
        holds = subst (λ v. Holds n base v u.state) (whole (value xs) x lt) u.holds;
      }
    where
      whole : (v x : ℕ) → x < u32_mod → v * 2 ^ 32 + x % 2 ^ 32 ≡ x + u32_mod * v
      whole v x lt = omega arith

  acc-IsRemainder :
      (e : ℕ) (s : Ladder) → Holds n base e s → IsRemainder (acc_of s) n (base ^ e * weight n)
  acc-IsRemainder e (waiting acc) (z, r) =
      subst (λ p. IsRemainder acc n (p * weight n)) (sym (ap (λ k. base ^ k) z ∙ pow-zero base)) r
  acc-IsRemainder e (running acc) r = r

module _ (n : List ℕ) (h : IsModulus n) (k : ℕ) where
  unit : Returns (mul (suc (suc k)) n (mont_r n) (mont_r n)) (λ r. IsRemainder r n (1 * weight n))
  unit =
      let w : weight n ≡ 1 * weight n = omega arith in
      let r = mont_r-IsRemainder n h in
      mul-residues n h k (mont_r n) (mont_r n) 1 (weight n) (1 * weight n)
        (subst (λ v. IsRemainder (mont_r n) n v) w r) r refl

  -- For limbs `base`, as many as those of an odd modulus above 1, and any limbs `exp`: bn_modpow returns
  -- the limbs of base ^ exp modulo `n`.
  pub modpow-IsRemainder :
      (base exp : List ℕ)
      → AreLimbs base
      → AreLimbs exp
      → length base ≡ length n
      → Returns (modpow (suc (suc k)) base exp n) (λ r. IsRemainder r n (value base ^ value exp))
  unfolding modpow
  modpow-IsRemainder base exp hb he eb =
      let c = convert n h k base hb eb in
      let r =
        limb_loop-Holds n h k (value base) c.result c.holds exp (waiting unit.result) he
          (refl, unit.holds) in
      let s =
        convert_back n h k (acc_of r.state) (value base ^ value exp)
          (acc-IsRemainder n h k (value base) c.result c.holds (value exp) r.state r.holds) in
      let q₁ = c.returned in
      let q₂ = unit.returned in
      let q₃ = r.returned in
      let q₄ = s.returned in
      record { result = s.result; returned = ground (arith, q₁, q₂, q₃, q₄); holds = s.holds }
