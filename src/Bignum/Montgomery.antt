-- ===== src/Bignum/Montgomery.antt =====
-- bn_mont_mul of kernel/lib/bignum.c computes a * b / 2 ^ (32 * BN_LIMBS) modulo n.
use yart_os.Prelude.{
  ℕ, ◌+◌, ◌*◌, ◌/◌, ◌%◌, ◌<◌, ◌≤◌, ◌≡◌, List, [], ◌∷◌, ◌++◌, length, u32_mod, u64_mod, arith, sym,
  ◌∙◌, ap, subst,
}
use yart_os.Bignum.{mac_loop, Acc, head_or, tail, round}
use yart_os.Bignum.Value.{value, weight, AreLimbs, value-append, weight-length}
use yart_os.Bignum.Row.{
  Accumulates, mac_loop-Accumulates, lowest_zero, total, IsState, tail-value, tail-weight,
  tail-AreLimbs, tail-size,
}

head_or-mac_loop :
    (k : ℕ) (t b : List ℕ)
    → 0 < length t
    → 0 < length b
    → head_or (mac_loop k t b 0).0 ≡ (head_or t + k * head_or b) % u32_mod
head_or-mac_loop k [] b h g = absurd (omega arith)
head_or-mac_loop k (t ∷ ts) [] h g = absurd (omega arith)
head_or-mac_loop k (t ∷ ts) (b ∷ bs) h g = omega arith

-- What one turn does to the accumulator: it adds the row and a multiple of the modulus that makes the
-- sum divisible by 2 ^ 32, and divides.
pub record Turns (ai : ℕ) (b n : List ℕ) (t u : Acc) : Type 0 where
  pub factor : ℕ
  pub small : factor < u32_mod
  pub sum : u32_mod * total u ≡ total t + ai * value b + factor * value n
  pub state : IsState u n

sum_of_turn :
    (l w top r rc ai b s sc m n tv wt xl xh zl zh : ℕ)
    → r + w * rc ≡ l + ai * b + 0
    → s + w * sc ≡ r + m * n + 0
    → s ≡ u32_mod * tv
    → w ≡ u32_mod * wt
    → u32_mod * xh + xl ≡ top + rc
    → u32_mod * zh + zl ≡ xl + sc
    → u32_mod * (tv + wt * zl + w * (xh + zh)) ≡ l + w * top + ai * b + m * n
sum_of_turn l w top r rc ai b s sc m n tv wt xl xh zl zh e1 e2 e3 e4 e5 e6 =
    let f5 = ap (λ v. w * v) e5 in
    let f6 = ap (λ v. w * v) e6 in
    let f4 = ap (λ v. v * zl) e4 in grind (arith, e1, e2, e3, f4, f5, f6)

digits :
    (x y : ℕ)
    → x < u32_mod
    → y < u32_mod
    → (u32_mod * (((x + y) % u64_mod) / u32_mod) + ((x + y) % u64_mod) % u32_mod ≡ x + y)
      × (((x + y) % u64_mod) / u32_mod ≤ 1)
digits x y h g = (omega arith, omega arith)

total_of :
    (l w v t p x z : ℕ)
    → l ≡ t + p
    → w ≡ v
    → x ≤ 1
    → z ≤ 1
    → l + w * ((x + z) % u32_mod) ≡ t + p + v * (x + z)
total_of l w v t p x z e f h g =
    let m : (x + z) % u32_mod ≡ x + z = omega arith in
    ap (λ k. l + w * k) m ∙ grind (arith, e, ap (λ k. k * (x + z)) f)

module _ (ai : ℕ) (b n : List ℕ) (n0inv k : ℕ) (t : Acc) (ha : ai < u32_mod) (hb : AreLimbs b)
    (hn : AreLimbs n) (eb : length b ≡ length n) (pos : 0 < length n)
    (inv : head_or n * n0inv + 1 ≡ u32_mod * k) (st : IsState t n) where
  first : List ℕ × ℕ
  first = mac_loop ai t.low b 0

  multiplier : ℕ
  multiplier = head_or first.0 * n0inv % u32_mod

  second : List ℕ × ℕ
  second = mac_loop multiplier first.0 n 0

  first-Accumulates : Accumulates ai t.low b 0 first.0 first.1
  unfolding first
  first-Accumulates =
      mac_loop-Accumulates ai t.low b 0 ha st.limbs hb (st.size ∙ sym eb) (omega arith)

  multiplier_small : multiplier < u32_mod
  unfolding multiplier
  multiplier_small = omega arith

  second-Accumulates : Accumulates multiplier first.0 n 0 second.0 second.1
  unfolding second
  second-Accumulates =
      mac_loop-Accumulates multiplier first.0 n 0 multiplier_small first-Accumulates.limbs hn
        (first-Accumulates.size ∙ st.size) (omega arith)

  second-size : length second.0 ≡ length n
  second-size = second-Accumulates.size ∙ first-Accumulates.size ∙ st.size

  second-head : head_or second.0 ≡ 0
  unfolding second multiplier
  second-head =
      head_or-mac_loop multiplier first.0 n
        (subst (λ v. 0 < v) (sym (first-Accumulates.size ∙ st.size)) pos) pos
      ∙ lowest_zero (head_or first.0) (head_or n) n0inv k inv

  added : ℕ
  added = (t.top + first.1) % u64_mod

  added_again : ℕ
  added_again = (added % u32_mod + second.1) % u64_mod

  added-digits :
      (u32_mod * (added / u32_mod) + added % u32_mod ≡ t.top + first.1) × (added / u32_mod ≤ 1)
  unfolding added
  added-digits = digits t.top first.1 st.top first-Accumulates.carry

  added_again-digits :
      (u32_mod * (added_again / u32_mod) + added_again % u32_mod ≡ added % u32_mod + second.1)
      × (added_again / u32_mod ≤ 1)
  unfolding added_again
  added_again-digits = digits (added % u32_mod) second.1 (omega arith) second-Accumulates.carry

  next : Acc
  next = record {
    low = tail second.0 ++ (added_again % u32_mod) ∷ [];
    top = (added / u32_mod + added_again / u32_mod) % u32_mod;
  }

  next-size : length next.low ≡ length n
  unfolding next
  next-size =
      tail-size second.0 (added_again % u32_mod) (subst (λ v. 0 < v) (sym second-size) pos)
      ∙ second-size

  next-total :
      total next
      ≡ value (tail second.0)
        + weight (tail second.0) * (added_again % u32_mod)
        + weight t.low * (added / u32_mod + added_again / u32_mod)
  unfolding next
  next-total =
      let (e, g) = added-digits in
      let (f, h) = added_again-digits in
      total_of (value (next.low)) (weight (next.low)) (weight t.low) (value (tail second.0))
        (weight (tail second.0) * (added_again % u32_mod)) (added / u32_mod) (added_again / u32_mod)
        (value-append (tail second.0) (added_again % u32_mod))
        (weight-length next.low t.low (next-size ∙ sym st.size)) g h

  next-sum : u32_mod * total next ≡ total t + ai * value b + multiplier * value n
  next-sum =
      let (e, g) = added-digits in
      let (f, h) = added_again-digits in
      let some_limb = subst (λ v. 0 < v) (sym second-size) pos in
      ap (λ v. u32_mod * v) next-total
      ∙ sum_of_turn (value t.low) (weight t.low) t.top (value first.0) first.1 ai (value b)
          (value second.0) second.1 multiplier (value n) (value (tail second.0))
          (weight (tail second.0)) (added % u32_mod) (added / u32_mod) (added_again % u32_mod)
          (added_again / u32_mod) first-Accumulates.sum
          (subst (λ w. value second.0 + w * second.1 ≡ value first.0 + multiplier * value n + 0)
            (weight-length first.0 t.low first-Accumulates.size) second-Accumulates.sum)
          (tail-value second.0 some_limb second-head)
          (weight-length t.low second.0 (st.size ∙ sym second-size)
            ∙ tail-weight second.0 some_limb)
          e f

  pub round-Turns : Turns ai b n t (round ai b n n0inv t)
  unfolding next added_again added second multiplier first
  round-Turns = record {
    factor = multiplier;
    small = multiplier_small;
    sum = next-sum;
    state = record {
      limbs = tail-AreLimbs second.0 (added_again % u32_mod) second-Accumulates.limbs (omega arith);
      size = next-size;
      top = omega arith;
    };
  }
