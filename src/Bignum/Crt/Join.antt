-- ===== src/Bignum/Crt/Join.antt =====
-- The last steps of bn_rsa_private_crt in kernel/lib/bignum.c: the sum of the halves, and its residues.
use yart_os.Prelude.{
  ℕ, suc, ◌+◌, ◌*◌, ◌%◌, ◌≤◌, ◌<◌, ◌≡◌, ◌⊎◌, inl, inr, refl, sym, ◌∙◌, ap, false, List, [], ◌∷◌,
  length, arith,
}
use yart_os.Bignum.Value.{value, weight, AreLimbs, value-bound}
use yart_os.Bignum.Power.Congruence.{Congruent, mul-Congruent}
use yart_os.Bignum.Product.{mul_wide}
use yart_os.Bignum.Product.Rows.{mul_wide-value}
use yart_os.Bignum.Crt.{add_loop, wide_at_least, join_halves}
use yart_os.Bignum.Crt.Sum.{add_loop-AreOf, wide_at_least-false}
use native.Mathlib.Nat.{add-mod, mod-mod, add-mod_right, mul-le-mul_right}

weight-le : (xs ys : List ℕ) → length xs ≤ length ys → weight xs ≤ weight ys
weight-le [] [] h = omega arith
weight-le [] (y ∷ ys) h = omega (arith, weight-le [] ys (omega arith))
weight-le (x ∷ xs) [] h = absurd (omega arith)
weight-le (x ∷ xs) (y ∷ ys) h = omega (arith, weight-le xs ys (omega arith))

-- m2 + h * q stays below p * q.
pub below_product : (h p q m2 : ℕ) → h < p → m2 < q → h * q + m2 < p * q
below_product h p q m2 hp mq =
    let up : suc h * q ≤ p * q = mul-le-mul_right q hp in grind (arith, up)

join_keeps :
    (h q m2 n : List ℕ)
    → wide_at_least (add_loop (mul_wide h q) m2) n ≡ false
    → join_halves h q m2 n ≡ add_loop (mul_wide h q) m2
unfolding join_halves
join_keeps h q m2 n e = rw (join_halves, e) refl

pub join_halves-value :
    (h q m2 n : List ℕ) (p : ℕ)
    → AreLimbs h
    → AreLimbs q
    → AreLimbs m2
    → AreLimbs n
    → length h ≡ length n
    → length q ≡ length n
    → length m2 ≡ length n
    → 0 < length n
    → value h < p
    → value m2 < value q
    → value n ≡ p * value q
    → value (join_halves h q m2 n) ≡ value h * value q + value m2
join_halves-value h q m2 n p hh hq hm hn eh eq' em lo hp mq total =
    let (at, limbs, size) = mul_wide-value h q hh hq in
    let small : value h * value q + value m2 < value n =
      omega (arith, below_product (value h) p (value q) (value m2) hp mq, total) in
    let room = weight-le n (mul_wide h q) (omega (arith, size, eh)) in
    let sum =
      add_loop-AreOf (mul_wide h q) m2 limbs hm (omega (arith, size, eh, em))
        (omega (arith, at, small, room, value-bound n hn)) in
    let keep =
      wide_at_least-false (add_loop (mul_wide h q) m2) n sum.limbs hn
        (omega (arith, sum.size, size, eh, eq', lo)) (omega (arith, sum.at, at, small)) in
    rw (join_keeps h q m2 n keep) (sum.at ∙ ap (λ v. v + value m2) at)

-- Garner's step: with the inverse of q modulo p, the sum has the residue of m1.
reassociate : (i d q : ℕ) → i * d * q ≡ d * (i * q)
reassociate i d q = grind arith

pub garner :
    (p q i d h m1 m2 : ℕ)
    → h ≡ (i * d) % p
    → Congruent p (i * q) 1
    → (d + m2 ≡ m1) ⊎ (d + m2 ≡ m1 + p)
    → Congruent p (h * q + m2) m1
garner p q i d h m1 m2 eh inv ed =
    let h_is : Congruent p h (i * d) = ap (λ k. k % p) eh ∙ mod-mod (i * d) p in
    let hq : Congruent p (h * q) d =
      mul-Congruent p h (i * d) q q h_is refl
      ∙ ap (λ k. k % p) (reassociate i d q)
      ∙ mul-Congruent p d d (i * q) 1 refl inv
      ∙ ap (λ k. k % p) (omega arith) in
    add-mod (h * q) m2 p
    ∙ ap (λ k. (k + m2 % p) % p) hq
    ∙ sym (add-mod d m2 p)
    ∙ elim ed [ inl e ↦ ap (λ k. k % p) e | inr e ↦ ap (λ k. k % p) e ∙ add-mod_right m1 p ]
