-- ===== src/Bignum/Crt/Correct.antt =====
-- bn_rsa_private_crt of kernel/lib/bignum.c: its result has the residues that the two halves were computed with.
use yart_os.Prelude.{
  ℕ, zero, suc, ◌+◌, ◌*◌, ◌%◌, ◌^◌, ◌≤◌, ◌<◌, ◌≡◌, refl, sym, ◌∙◌, ap, List, [], ◌∷◌, length, arith,
  some,
}
use yart_os.Bignum.Value.{value, AreLimbs}
use yart_os.Bignum.Subtract.{IsRemainder}
use yart_os.Bignum.Reduce.{Returns}
use yart_os.Bignum.Power.{modpow, mod_mul, and_then}
use yart_os.Bignum.Power.Congruence.{Congruent, mul-Congruent}
use yart_os.Bignum.Power.Convert.{IsModulus, and_then-Returns, mod_mul-IsRemainder}
use yart_os.Bignum.Power.Correct.{modpow-IsRemainder}
use yart_os.Bignum.Divide.{mod_big}
use yart_os.Bignum.Divide.Remainder.{mod_big-IsRemainder}
use yart_os.Bignum.Crt.{lifted_gap, join_halves, private_crt}
use yart_os.Bignum.Crt.Sum.{lifted_gap-value}
use yart_os.Bignum.Crt.Join.{below_product, join_halves-value, garner}
use native.Mathlib.Nat.{pow-suc, pow-zero, mod-mod, mul-add-mod_self_right}

pow-Congruent : (m a b e : ℕ) → Congruent m a b → Congruent m (a ^ e) (b ^ e)
pow-Congruent m a b zero h = ap (λ k. k % m) (pow-zero a ∙ sym (pow-zero b))
pow-Congruent m a b (suc e) h =
    ap (λ k. k % m) (pow-suc a e)
    ∙ mul-Congruent m (a ^ e) (b ^ e) a b (pow-Congruent m a b e h) h
    ∙ ap (λ k. k % m) (sym (pow-suc b e))

-- the residue of a power, computed from the residue of the base
power_residue :
    (r m b : List ℕ) (v e : ℕ)
    → IsRemainder b m v
    → IsRemainder r m (value b ^ e)
    → Congruent (value m) (value r) (v ^ e)
power_residue r m b v e hb hr =
    let base : Congruent (value m) (value b) v =
      ap (λ k. k % value m) hb.value_of ∙ mod-mod v (value m) in
    ap (λ k. k % value m) hr.value_of
    ∙ mod-mod (value b ^ e) (value m)
    ∙ pow-Congruent (value m) (value b) v e base

-- Two odd moduli above 1, the second at most the first, their product, and the inverse of the second modulo
-- the first, in equally many limbs.
pub record IsKey (p q qinv n : List ℕ) : Type 0 where
  pub first : IsModulus p
  pub second : IsModulus q
  pub limbs : AreLimbs n
  pub size_p : length p ≡ length n
  pub size_q : length q ≡ length n
  pub ordered : value q ≤ value p
  pub product : value n ≡ value p * value q
  pub inverse : Congruent (value p) (value qinv * value q) 1
  pub inverse_limbs : AreLimbs qinv
  pub inverse_size : length qinv ≡ length n

-- What the recombination returns: a number below n that has the residues of c ^ dp and c ^ dq.
abbrev pub Recombined : (c p q dp dq n r : List ℕ) → Type 0
Recombined c p q dp dq n r =
    (value r < value n)
    × Congruent (value p) (value r) (value c ^ value dp)
    × Congruent (value q) (value r) (value c ^ value dq)

nonempty : (p : List ℕ) → 0 < value p → 0 < length p
nonempty [] h = absurd (omega arith)
nonempty (x ∷ p) h = omega arith

recombine :
    (c p q dp dq qinv n m1 m2 h : List ℕ)
    → IsKey p q qinv n
    → Congruent (value p) (value m1) (value c ^ value dp)
    → Congruent (value q) (value m2) (value c ^ value dq)
    → AreLimbs m1
    → AreLimbs m2
    → length m1 ≡ length p
    → length m2 ≡ length q
    → value m2 < value q
    → IsRemainder h p (value qinv * value (lifted_gap p m1 m2))
    → Recombined c p q dp dq n (join_halves h q m2 n)
recombine c p q dp dq qinv n m1 m2 h key c1 c2 l1 l2 s1 s2 lt hh =
    let pos : 0 < length n =
      omega (arith, nonempty p (omega (arith, key.first.above_one)), key.size_p) in
    let whole =
      join_halves-value h q m2 n (value p) hh.limbs key.second.limbs l2 key.limbs
        (hh.size ∙ key.size_p) key.size_q (s2 ∙ key.size_q) pos hh.less lt key.product in
    let (ed, _, _) =
      lifted_gap-value p m1 m2 key.first.limbs l1 l2 s1 (s2 ∙ key.size_q ∙ sym key.size_p)
        (omega (arith, lt, key.ordered)) in
    let below = below_product (value h) (value p) (value q) (value m2) hh.less lt in
    let at_p =
      garner (value p) (value q) (value qinv) (value (lifted_gap p m1 m2)) (value h) (value m1)
        (value m2) hh.value_of key.inverse ed in
    let at_q : Congruent (value q) (value h * value q + value m2) (value m2) =
      mul-add-mod_self_right (value h) (value q) (value m2) in
    (
      omega (arith, whole, below, key.product),
      ap (λ v. v % value p) whole ∙ at_p ∙ c1,
      ap (λ v. v % value q) whole ∙ at_q ∙ c2,
    )

-- For odd moduli `q` and `p` above 1 with q <= p, their product `n`, the inverse of `q` modulo `p`, limbs `c`
-- as many as those of all these, and any limbs `dp` and `dq`: the middle of bn_rsa_private_crt returns
-- a number below the product that is congruent to c ^ dp modulo p and to c ^ dq modulo q.
pub private_crt-Recombined :
    (k : ℕ) (c p q dp dq qinv n : List ℕ)
    → IsKey p q qinv n
    → AreLimbs c
    → AreLimbs dp
    → AreLimbs dq
    → length c ≡ length n
    → Returns (private_crt (suc (suc k)) c p q dp dq qinv n) (Recombined c p q dp dq n)
unfolding private_crt
private_crt-Recombined k c p q dp dq qinv n key hc hdp hdq ec =
    let cp =
      mod_big-IsRemainder c p hc key.first.limbs (ec ∙ sym key.size_p)
        (omega (arith, key.first.above_one)) in
    let cq =
      mod_big-IsRemainder c q hc key.second.limbs (ec ∙ sym key.size_q)
        (omega (arith, key.second.above_one)) in
    and_then-Returns (modpow (suc (suc k)) (mod_big c p) dp p)
      (λ m1. and_then (modpow (suc (suc k)) (mod_big c q) dq q) (λ m2.
        and_then (mod_mul (suc (suc k)) qinv (lifted_gap p m1 m2) p)
          (λ h. some (join_halves h q m2 n))))
      (modpow-IsRemainder p key.first k (mod_big c p) dp cp.limbs hdp cp.size)
      (λ m1 r1.
        and_then-Returns (modpow (suc (suc k)) (mod_big c q) dq q)
          (λ m2.
            and_then (mod_mul (suc (suc k)) qinv (lifted_gap p m1 m2) p)
              (λ h. some (join_halves h q m2 n)))
          (modpow-IsRemainder q key.second k (mod_big c q) dq cq.limbs hdq cq.size)
          (λ m2 r2.
            let (_, limbs, size) =
              lifted_gap-value p m1 m2 key.first.limbs r1.limbs r2.limbs r1.size
                (r2.size ∙ key.size_q ∙ sym key.size_p) (omega (arith, r2.less, key.ordered)) in
            and_then-Returns (mod_mul (suc (suc k)) qinv (lifted_gap p m1 m2) p)
              (λ h. some (join_halves h q m2 n))
              (mod_mul-IsRemainder p key.first k qinv (lifted_gap p m1 m2) key.inverse_limbs limbs
                (key.inverse_size ∙ sym key.size_p) size)
              (λ h rh. record {
                result = join_halves h q m2 n;
                returned = refl;
                holds =
                    recombine c p q dp dq qinv n m1 m2 h key
                      (power_residue m1 p (mod_big c p) (value c) (value dp) cp r1)
                      (power_residue m2 q (mod_big c q) (value c) (value dq) cq r2) r1.limbs
                      r2.limbs r1.size r2.size r2.less rh;
              })))
