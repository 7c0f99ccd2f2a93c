-- ===== src/Bignum/Reduce.antt =====
-- bn_mont_mul of kernel/lib/bignum.c as a whole: the loop over the limbs and the last reduction.
use yart_os.Prelude.{
  ℕ, zero, suc, ◌+◌, ◌*◌, ◌%◌, ◌<◌, ◌≤◌, ◌≡◌, inl, inr, refl, List, [], ◌∷◌, length, u32_mod, arith,
  sym, ◌∙◌, ap, subst, Option, some, replicate,
}
use native.Mathlib.Nat.{add-mul-mod_self_right, mul-le-mul_left, mul-le-mul_right}
use yart_os.Bignum.{
  Acc, head_or, round, rounds_loop, reduce_loop, last_sub, mont_mul, sub, sub_loop,
}
use yart_os.Bignum.Value.{
  value, weight, AreLimbs, value-bound, weight-length, value_zeros, zeros-AreLimbs, length_zeros,
}
use yart_os.Bignum.Subtract.{sub_loop-Subtracts, at_least-cases, sub-value}
use yart_os.Bignum.Row.{total, IsState}
use yart_os.Bignum.Montgomery.{round-Turns}

-- What the turns for the limbs `a` do to the accumulator.
record Runs (a b n : List ℕ) (t u : Acc) : Type 0 where
  factor : ℕ
  sum : weight a * total u ≡ total t + value a * value b + factor * value n
  state : IsState u n
  bound : total u < value b + value n

turn_bound :
    (x b n m v u : ℕ)
    → x < u32_mod
    → m < u32_mod
    → v < b + n
    → u32_mod * u ≡ v + x * b + m * n
    → u < b + n
turn_bound x b n m v u hx hm hv e =
    let p : x * b ≤ 4294967295 * b = mul-le-mul_right b (omega arith) in
    let q : m * n ≤ 4294967295 * n = mul-le-mul_right n (omega arith) in omega (arith, p, q, e)

run-sum :
    (x a b n m q w v v₁ v₂ : ℕ)
    → u32_mod * v₁ ≡ v + x * b + m * n
    → w * v₂ ≡ v₁ + a * b + q * n
    → u32_mod * w * v₂ ≡ v + (x + u32_mod * a) * b + (m + u32_mod * q) * n
run-sum x a b n m q w v v₁ v₂ e f = grind (arith, e, f)

module _ (b n : List ℕ) (n0inv k : ℕ) (hb : AreLimbs b) (hn : AreLimbs n) (eb : length b ≡ length n)
    (pos : 0 < length n) (inv : head_or n * n0inv + 1 ≡ u32_mod * k) where
  rounds_loop-Runs :
      (a : List ℕ) (t : Acc)
      → AreLimbs a
      → IsState t n
      → total t < value b + value n
      → Runs a b n t (rounds_loop a b n n0inv t)
  unfolding rounds_loop
  rounds_loop-Runs [] t ha st lt = record { factor = 0; sum = grind arith; state = st; bound = lt }
  rounds_loop-Runs (x ∷ a) t (hx, ha) st lt =
      let r = round-Turns x b n n0inv k t hx hb hn eb pos inv st in
      let u = round x b n n0inv t in
      let g : total u < value b + value n =
        turn_bound x (value b) (value n) r.factor (total t) (total u) hx r.small lt r.sum in
      let ih = rounds_loop-Runs a u ha r.state g in
      record {
        factor = r.factor + u32_mod * ih.factor;
        sum =
            run-sum x (value a) (value b) (value n) r.factor ih.factor (weight a) (total t)
              (total u) (total (rounds_loop a b n n0inv u)) r.sum ih.sum;
        state = ih.state;
        bound = ih.bound;
      }

-- Limbs below the modulus that differ from `v` by a multiple of it.
record Reduces (r n : List ℕ) (v : ℕ) : Type 0 where
  times : ℕ
  sum : value r + times * value n ≡ v
  less : value r < value n
  limbs : AreLimbs r
  size : length r ≡ length n

data Served (n : List ℕ) (v : ℕ) (o : Option (List ℕ)) : Type 0 where
  served : (r : List ℕ) → o ≡ some r → Reduces r n v → Served n v o

last_sub-Served :
    (t n : List ℕ) (v j : ℕ)
    → AreLimbs t
    → AreLimbs n
    → length t ≡ length n
    → value t + j * value n ≡ v
    → value t < 2 * value n
    → Served n v (last_sub n (some t))
last_sub-Served t n v j ht hn e s lt = elim (at_least-cases t n ht hn e) [
  | inl (c, le) ↦
      let d = sub-value t n ht hn e le in
      let l = sub_loop-Subtracts t n 0 ht hn e (omega arith) in
      served (sub t n) (ground (arith, c)) (record {
        times = suc j;
        sum = once_more (value (sub t n)) (value n) (value t) j v d s;
        less = omega (arith, d, lt);
        limbs = l.limbs;
        size = l.size ∙ e;
      })
  | inr (c, l) ↦
      served t (ground (arith, c)) (record { times = j; sum = s; less = l; limbs = ht; size = e })
]
  where
    once_more : (r n t j v : ℕ) → r + n ≡ t → t + j * n ≡ v → r + suc j * n ≡ v
    once_more r n t j v d s = grind (arith, d, s)

borrowed :
    (s n t w u x q : ℕ)
    → s + n + 0 ≡ t + w * q
    → q ≤ 1
    → w ≡ u
    → x ≡ w
    → n < u
    → t + w * 1 < 2 * n
    → (s + n ≡ t + w * 1) × (q ≡ 1)
borrowed s n t w u x zero e h f g l lt = absurd (omega arith)
borrowed s n t w u x (suc zero) e h f g l lt = (omega arith, refl)
borrowed s n t w u x (suc (suc q)) e h f g l lt = absurd (omega arith)

reduce_loop-Served :
    (k hv : ℕ) (t n : List ℕ)
    → AreLimbs t
    → AreLimbs n
    → length t ≡ length n
    → value t + weight t * hv < 2 * value n
    → Served n (value t + weight t * hv) (last_sub n (reduce_loop (suc (suc k)) hv t n))
reduce_loop-Served k zero t n ht hn e lt =
    last_sub-Served t n (value t + weight t * 0) 0 ht hn e (omega arith) (omega arith)
reduce_loop-Served k (suc zero) t n ht hn e lt =
    let d = sub_loop-Subtracts t n 0 ht hn e (omega arith) in
    let w = weight-length t n e in
    let r = sub_loop t n 0 in
    let (sum, q) =
      borrowed (value r.0) (value n) (value t) (weight t) (weight n) (weight r.0) r.1 d.sum d.borrow
        w (weight-length r.0 t d.size) (value-bound n hn) lt in
    let stop : reduce_loop (suc (suc k)) 1 t n ≡ some r.0 = ground (arith, q) in
    subst (λ o. Served n (value t + weight t * 1) (last_sub n o)) (sym stop)
      (last_sub-Served r.0 n (value t + weight t * 1) 1 d.limbs hn (d.size ∙ e) (omega (arith, sum))
        (omega (arith, sum, lt)))
reduce_loop-Served k (suc (suc hv)) t n ht hn e lt =
    let w = weight-length t n e in
    let b = value-bound n hn in
    let p : weight t * 2 ≤ weight t * suc (suc hv) = mul-le-mul_left (weight t) (omega arith) in
    absurd (omega (arith, w, b, p, lt))

-- a call that returns limbs with a property
pub record Returns (o : Option (List ℕ)) (P : List ℕ → Type 0) : Type 0 where
  pub result : List ℕ
  pub returned : o ≡ some result
  pub holds : P result

-- The limbs of a * b / 2 ^ (32 * BN_LIMBS) modulo n.
pub record IsProduct (a b n r : List ℕ) : Type 0 where
  pub product : (value r * weight n) % value n ≡ (value a * value b) % value n
  pub less : value r < value n
  pub limbs : AreLimbs r
  pub size : length r ≡ length n

congruent :
    (w r j n a b q v : ℕ) → w * v ≡ 0 + a * b + q * n → r + j * n ≡ v → (r * w) % n ≡ (a * b) % n
congruent w r j n a b q v e f =
    sym (add-mul-mod_self_right (r * w) (w * j) n)
    ∙ ap (λ k. k % n) (both w r j n a b q v e f)
    ∙ add-mul-mod_self_right (a * b) q n
  where
    both :
        (w r j n a b q v : ℕ)
        → w * v ≡ 0 + a * b + q * n
        → r + j * n ≡ v
        → r * w + w * j * n ≡ a * b + q * n
    both w r j n a b q v e f = grind (arith, e, ap (λ k. w * k) f)

module _ (a b n : List ℕ) (n0inv k : ℕ) (ha : AreLimbs a) (hb : AreLimbs b) (hn : AreLimbs n)
    (ea : length a ≡ length n) (eb : length b ≡ length n) (less : value b < value n)
    (inv : head_or n * n0inv + 1 ≡ u32_mod * k) where
  zeros : Acc
  zeros = record { low = replicate (length n) 0; top = 0 }

  zero_total : total zeros ≡ 0
  unfolding zeros
  zero_total = grind (arith, value_zeros (length n))

  some_limb : 0 < length n
  some_limb = nonempty n less
    where
      nonempty : (m : List ℕ) → value b < value m → 0 < length m
      nonempty [] h = absurd (omega arith)
      nonempty (x ∷ m) h = omega arith

  start-IsState : IsState zeros n
  unfolding zeros
  start-IsState = record {
    limbs = zeros-AreLimbs (length n);
    size = length_zeros (length n);
    top = omega arith;
  }

  run : Runs a b n zeros (rounds_loop a b n n0inv zeros)
  run =
      rounds_loop-Runs b n n0inv k hb hn eb some_limb inv a zeros ha start-IsState
        (omega (arith, zero_total, less))

  mont_mul-Served :
      (rounds : ℕ)
      → Served n (total (rounds_loop a b n n0inv zeros)) (mont_mul (suc (suc rounds)) a b n n0inv)
  unfolding mont_mul zeros
  mont_mul-Served rounds =
      let u = rounds_loop a b n n0inv zeros in
      reduce_loop-Served rounds u.top u.low n run.state.limbs hn run.state.size
        (omega (arith, run.bound, less))

  Reduces-IsProduct :
      (rounds : ℕ) (r : List ℕ)
      → Reduces r n (total (rounds_loop a b n n0inv zeros))
      → IsProduct a b n r
  Reduces-IsProduct rounds r d = record {
    product =
        subst (λ w. (value r * w) % value n ≡ (value a * value b) % value n) (weight-length a n ea)
          (congruent (weight a) (value r) d.times (value n) (value a) (value b) run.factor
            (total (rounds_loop a b n n0inv zeros))
            (run.sum ∙ ap (λ z. z + value a * value b + run.factor * value n) zero_total) d.sum);
    less = d.less;
    limbs = d.limbs;
    size = d.size;
  }

  -- For limbs `a` and `b` as many as those of the modulus, with `b` below it, and an `n0inv` that is the
  -- negative inverse of its lowest limb modulo 2 ^ 32: bn_mont_mul returns, after at most two turns of
  -- its last loop, limbs `r` of a number below the modulus with r * 2 ^ (32 * BN_LIMBS) congruent to
  -- a * b.
  pub mont_mul-IsProduct :
      (rounds : ℕ) → Returns (mont_mul (suc (suc rounds)) a b n n0inv) (IsProduct a b n)
  mont_mul-IsProduct rounds = elim (mont_mul-Served rounds) [
    | served r e d ↦ record { result = r; returned = e; holds = Reduces-IsProduct rounds r d }
  ]
