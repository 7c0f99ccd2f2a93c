-- ===== src/Bignum/Inverse.antt =====
-- bn_n0inv of kernel/lib/bignum.c, where each turn doubles the number of right bits, and bn_mont_mul
-- with its result.
use yart_os.Prelude.{
  ℕ, zero, suc, ◌+◌, ◌-◌, ◌*◌, ◌/◌, ◌%◌, ◌<◌, ◌≡◌, refl, List, length, u32_mod, arith, sym, ◌∙◌, ap,
}
use native.Mathlib.Nat.{add-mul-mod_self_left, div-add-mod, mod-eq_of_lt, mul-mod_right}
use yart_os.Bignum.{newton_next, newton, n0inv, head_or, mont_mul}
use yart_os.Bignum.Value.{value, AreLimbs}
use yart_os.Bignum.Reduce.{Returns, IsProduct, mont_mul-IsProduct}

newton_core :
    (b n x v u w y p s d x' : ℕ)
    → b * p + u ≡ n * x
    → b * s + x' ≡ x * v
    → b * d + v ≡ y
    → y + w ≡ 1 + b
    → u ≡ w + 1
    → n * x' + (b * (n * s) + w * w + b * (u * d)) ≡ 1 + (b * (p * v) + b * u)
newton_core b n x v u w y p s d x' e1 e2 e3 e4 e5 =
    let f1 = ap (λ k. k * v) e1 in
    let f2 = ap (λ k. n * k) e2 in
    let f3 = ap (λ k. u * k) e3 in
    let f4 = ap (λ k. u * k) e4 in
    let f5 = ap (λ k. k * w) e5 in grind (arith, f1, f2, f3, f4, f5, e5)

-- the same with the modulus `b` as a multiple of m * m, and w as a multiple of m
newton_multiple :
    (b m c j z g h : ℕ)
    → m * m * c ≡ b
    → z + (b * g + (m * j) * (m * j)) ≡ 1 + b * h
    → z + m * m * (c * g + j * j) ≡ 1 + m * m * (c * h)
newton_multiple b m c j z g h e f =
    let f1 = ap (λ k. k * g) e in let f2 = ap (λ k. k * h) e in grind (arith, f, f1, f2)

residue : (b m q a : ℕ) → m * q ≡ b → (a % b) % m ≡ a % m
residue b m q a e =
    let s : b * (a / b) + a % b ≡ a = div-add-mod a b in
    let t : a % b + m * (q * (a / b)) ≡ a = spread b m q (a / b) (a % b) a e s in
    sym (add-mul-mod_self_left (a % b) m (q * (a / b))) ∙ ap (λ k. k % m) t
  where
    spread : (b m q p r a : ℕ) → m * q ≡ b → b * p + r ≡ a → r + m * (q * p) ≡ a
    spread b m q p r a e s = grind (arith, ap (λ k. k * p) e, s)

-- A turn of the Newton iteration: right modulo m becomes right modulo m * m.
newton_next-mod :
    (m c n x : ℕ)
    → 1 < m
    → m * m * c ≡ u32_mod
    → (n * x) % m ≡ 1
    → (n * newton_next n x) % (m * m) ≡ 1 % (m * m)
unfolding newton_next
newton_next-mod m c n x lt e h =
    let u = n * x % u32_mod in
    let y = 2 + u32_mod - u in
    let v = y % u32_mod in
    let x' = x * v % u32_mod in
    let p = n * x / u32_mod in
    let s = x * v / u32_mod in
    let d = y / u32_mod in
    let j = u / m in
    let r : u % m ≡ 1 = residue u32_mod m (m * c) (n * x) (assoc m c u32_mod e) ∙ h in
    let one : u ≡ m * j + 1 = sym (div-add-mod u m) ∙ ap (λ k. m * j + k) r in
    let core =
      newton_core u32_mod n x v u (m * j) y p s d x' (div-add-mod (n * x) u32_mod)
        (div-add-mod (x * v) u32_mod) (div-add-mod y u32_mod) (omega (arith, one)) one in
    let flat =
      newton_multiple u32_mod m c j (n * x') (n * s + u * d) (p * v + u) e
        (regroup (n * x') (n * s) (m * j) (u * d) (p * v) u core) in
    sym (add-mul-mod_self_left (n * x') (m * m) (c * (n * s + u * d) + j * j))
    ∙ ap (λ k. k % (m * m)) flat
    ∙ add-mul-mod_self_left 1 (m * m) (c * (p * v + u))
  where
    assoc : (m c b : ℕ) → m * m * c ≡ b → m * (m * c) ≡ b
    assoc m c b e = grind (arith, e)

    regroup :
        (z a w b p u : ℕ)
        → z + (u32_mod * a + w * w + u32_mod * b) ≡ 1 + (u32_mod * p + u32_mod * u)
        → z + (u32_mod * (a + b) + w * w) ≡ 1 + u32_mod * (p + u)
    regroup z a w b p u e = grind (arith, e)

newton_next-lt : (n x : ℕ) → newton_next n x < u32_mod
unfolding newton_next
newton_next-lt n x = omega arith

newton-right : (n : ℕ) → n % 2 ≡ 1 → (n * newton 5 n 1) % u32_mod ≡ 1
newton-right n h =
    let x₁ = newton_next n 1 in
    let x₂ = newton_next n x₁ in
    let x₃ = newton_next n x₂ in
    let x₄ = newton_next n x₃ in
    let h₁ = newton_next-mod 2 0x4000_0000 n 1 (omega arith) refl (omega (arith, h)) in
    let h₂ = newton_next-mod 4 0x1000_0000 n x₁ (omega arith) refl h₁ in
    let h₃ = newton_next-mod 16 0x0100_0000 n x₂ (omega arith) refl h₂ in
    let h₄ = newton_next-mod 256 0x0001_0000 n x₃ (omega arith) refl h₃ in
    newton_next-mod 65536 1 n x₄ (omega arith) refl h₄

negated :
    (n x : ℕ)
    → x < u32_mod
    → (n * x) % u32_mod ≡ 1
    → (n * ((u32_mod - x) % u32_mod) + 1) % u32_mod ≡ 0
negated n zero lt h = absurd (ground (arith, n-zero n, h))
  where
    n-zero : (n : ℕ) → n * 0 ≡ 0
    n-zero n = omega arith
negated n (suc x) lt h =
    let q = n * suc x / u32_mod in
    let y = u32_mod - suc x in
    let small : (u32_mod - suc x) % u32_mod ≡ y = mod-eq_of_lt (omega (arith, lt)) in
    let s : u32_mod * q + 1 ≡ n * suc x =
      ap (λ k. u32_mod * q + k) (sym h) ∙ div-add-mod (n * suc x) u32_mod in
    let sum : y + suc x ≡ u32_mod = omega (arith, lt) in
    ap (λ k. (n * k + 1) % u32_mod) small
    ∙ sym (add-mul-mod_self_left (n * y + 1) u32_mod q)
    ∙ ap (λ k. k % u32_mod) (collect n (suc x) y q s sum)
    ∙ mul-mod_right u32_mod n
  where
    collect :
        (n x y q : ℕ)
        → u32_mod * q + 1 ≡ n * x
        → y + x ≡ u32_mod
        → n * y + 1 + u32_mod * q ≡ u32_mod * n
    collect n x y q s e = grind (arith, s, ap (λ k. n * k) e)

newton-lt : (k n x : ℕ) → newton (suc k) n x < u32_mod
newton-lt zero n x = newton_next-lt n x
newton-lt (suc k) n x = newton-lt k n (newton_next n x)

-- For an odd modulus, bn_n0inv is the negative inverse of its lowest limb modulo 2 ^ 32.
pub n0inv-inverse : (n : List ℕ) → head_or n % 2 ≡ 1 → (head_or n * n0inv n + 1) % u32_mod ≡ 0
unfolding n0inv
n0inv-inverse n h =
    negated (head_or n) (newton 5 (head_or n) 1) (newton-lt 4 (head_or n) 1)
      (newton-right (head_or n) h)

-- For limbs `a` and `b` as many as those of an odd modulus `n`, with `b` below it: bn_mont_mul with
-- the result of bn_n0inv returns, after at most two turns of its last loop, limbs of a number below the
-- modulus whose product with 2 ^ (32 * BN_LIMBS) is congruent to a * b.
pub mont_mul-n0inv :
    (rounds : ℕ) (a b n : List ℕ)
    → head_or n % 2 ≡ 1
    → AreLimbs a
    → AreLimbs b
    → AreLimbs n
    → length a ≡ length n
    → length b ≡ length n
    → value b < value n
    → Returns (mont_mul (suc (suc rounds)) a b n (n0inv n)) (IsProduct a b n)
mont_mul-n0inv rounds a b n odd ha hb hn ea eb lt =
    let k = (head_or n * n0inv n + 1) / u32_mod in
    let e : head_or n * n0inv n + 1 ≡ u32_mod * k = exact (n0inv-inverse n odd) in
    mont_mul-IsProduct a b n (n0inv n) k ha hb hn ea eb lt e rounds
  where
    exact : {v : ℕ} → v % u32_mod ≡ 0 → v ≡ u32_mod * (v / u32_mod)
    exact h = omega (arith, h)
