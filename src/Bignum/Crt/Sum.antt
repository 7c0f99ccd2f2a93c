-- ===== src/Bignum/Crt/Sum.antt =====
-- The sum in bn_rsa_private_crt of kernel/lib/bignum.c, its comparison with the modulus, and the difference before it.
use yart_os.Prelude.{
  ℕ, zero, suc, ◌+◌, ◌*◌, ◌/◌, ◌%◌, ◌≤◌, ◌<◌, ◌≡◌, ◌⊎◌, inl, inr, refl, sym, ◌∙◌, ap, false, List,
  [], ◌∷◌, length, u32_mod, u64_mod, arith, take, drop,
}
use yart_os.Bignum.{sub}
use yart_os.Bignum.Value.{value, weight, AreLimbs, value-bound, weight-length}
use yart_os.Bignum.Subtract.{at_least-cases, sub-value, sub_loop-Subtracts}
use yart_os.Bignum.Product.Limbs.{AreOf, parts, AreLimbs-take}
use yart_os.Bignum.Crt.{ripple, add_loop, any_limb, wide_at_least, lifted_gap}

ripple-none : (w : List ℕ) → ripple 0 w ≡ w
unfolding ripple
ripple-none [] = refl
ripple-none (x ∷ w) = refl

ripple-one :
    (x : ℕ) (w : List ℕ)
    → ripple 1 (x ∷ w) ≡ (x + 1) % u64_mod % u32_mod ∷ ripple ((x + 1) % u64_mod / u32_mod) w
unfolding ripple
ripple-one x w = refl

ripple-AreOf :
    (w : List ℕ) (c : ℕ)
    → AreLimbs w
    → c ≤ 1
    → value w + c < weight w
    → AreOf (ripple c w) (value w + c) (length w)
ripple-AreOf w zero h b lt =
    rw (ripple-none w) (record { at = omega arith; limbs = h; size = refl })
ripple-AreOf w (suc (suc c)) h b lt = absurd (omega arith)
ripple-AreOf [] (suc zero) h b lt = absurd (omega arith)
ripple-AreOf (x ∷ w) (suc zero) (bx, h) b lt =
    let y = (x + 1) % u64_mod in
    let ih = ripple-AreOf w (y / u32_mod) h (omega (arith, bx)) (omega (arith, bx, lt)) in
    rw (ripple-one x w) (record {
      at = omega (arith, ih.at, bx);
      limbs = (omega arith, ih.limbs);
      size = ap suc ih.size;
    })

pub add_loop-AreOf :
    (w m : List ℕ)
    → AreLimbs w
    → AreLimbs m
    → length m ≤ length w
    → value w + value m < weight w
    → AreOf (add_loop w m) (value w + value m) (length w)
unfolding add_loop
add_loop-AreOf w [] hw hm le lt = record { at = omega arith; limbs = hw; size = refl }
add_loop-AreOf [] (m ∷ ms) hw hm le lt = absurd (omega arith)
add_loop-AreOf (x ∷ w) (m ∷ ms) (bx, hw) (bm, hm) le lt =
    let y = (x + m) % u64_mod in
    let k = y / u32_mod in
    let digit : y % u32_mod + u32_mod * k ≡ x + m = omega (arith, bx, bm) in
    let r = ripple-AreOf w k hw (omega (arith, bx, bm)) (omega (arith, lt, digit)) in
    let same : weight (ripple k w) ≡ weight w = weight-length (ripple k w) w r.size in
    let ih =
      add_loop-AreOf (ripple k w) ms r.limbs hm (omega (arith, r.size, le))
        (omega (arith, r.at, same, lt, digit)) in
    record {
      at = omega (arith, ih.at, r.at, digit);
      limbs = (omega arith, ih.limbs);
      size = omega (arith, ih.size, r.size);
    }

any_limb-zero : (w : List ℕ) → value w ≡ 0 → any_limb w ≡ false
unfolding any_limb
any_limb-zero [] z = refl
any_limb-zero (x ∷ w) z =
    let zx : x ≡ 0 = omega (arith, z) in
    let zw : value w ≡ 0 = omega (arith, z) in ground (arith, zx, any_limb-zero w zw)

-- A number below the modulus is left alone.
pub wide_at_least-false :
    (w n : List ℕ)
    → AreLimbs w
    → AreLimbs n
    → length n < length w
    → value w < value n
    → wide_at_least w n ≡ false
unfolding wide_at_least
wide_at_least-false w n hw hn le lt =
    let (size, low, high, _) = parts n w le (omega (arith, lt, value-bound n hn)) in
    rw (any_limb-zero (drop (length n) w) high)
      (elim (at_least-cases (take (length n) w) n (AreLimbs-take (length n) w hw) hn size) [
        | inl (y, ge) ↦ absurd (omega (arith, ge, low, lt))
        | inr (e, _) ↦ e
      ])

-- The difference of two residues modulo p, the second at most p.
pub lifted_gap-value :
    (p a b : List ℕ)
    → AreLimbs p
    → AreLimbs a
    → AreLimbs b
    → length a ≡ length p
    → length b ≡ length p
    → value b ≤ value p
    → ((value (lifted_gap p a b) + value b ≡ value a)
        ⊎ (value (lifted_gap p a b) + value b ≡ value a + value p))
      × AreLimbs (lifted_gap p a b)
      × (length (lifted_gap p a b) ≡ length p)
unfolding lifted_gap
lifted_gap-value p a b hp ha hb ea eb le = elim (at_least-cases a b ha hb (ea ∙ sym eb)) [
  | inl (y, ge) ↦
      let s = sub_loop-Subtracts a b 0 ha hb (ea ∙ sym eb) (omega arith) in
      rw y (inl (sub-value a b ha hb (ea ∙ sym eb) ge), s.limbs, s.size ∙ ea)
  | inr (n, lt) ↦
      let s = sub_loop-Subtracts b a 0 hb ha (eb ∙ sym ea) (omega arith) in
      let v = sub-value b a hb ha (eb ∙ sym ea) (omega (arith, lt)) in
      let size : length p ≡ length (sub b a) = sym (s.size ∙ eb) in
      let t = sub_loop-Subtracts p (sub b a) 0 hp s.limbs size (omega arith) in
      let u = sub-value p (sub b a) hp s.limbs size (omega (arith, v, le)) in
      rw n (inr (omega (arith, u, v)), t.limbs, t.size)
]
