-- ===== src/Bignum/Row.antt =====
-- One row of the multiplication in bn_mont_mul of kernel/lib/bignum.c, and one turn of its loop.
use yart_os.Prelude.{
  ℕ, suc, ◌+◌, ◌*◌, ◌/◌, ◌%◌, ◌<◌, ◌≤◌, ◌≡◌, refl, List, [], ◌∷◌, ◌++◌, length, length-append,
  u32_mod, u64_mod, arith, sym, ◌∙◌, ap,
}
use native.Mathlib.Nat.{mul-le-mul, add-mul-mod_self_left, mul-mod_right, div-add-mod}
use yart_os.Bignum.{mac_loop, Acc, head_or, tail}
use yart_os.Bignum.Value.{value, weight, AreLimbs}

product_bound : (k b : ℕ) → k < u32_mod → b < u32_mod → k * b ≤ 18446744065119617025
product_bound k b hk hb =
    let x : k ≤ 4294967295 = omega arith in let y : b ≤ 4294967295 = omega arith in mul-le-mul x y

digit-mac :
    (t k b c : ℕ)
    → t < u32_mod
    → k < u32_mod
    → b < u32_mod
    → c < u32_mod
    → (((t + k * b + c) % u64_mod) % u32_mod + u32_mod * (((t + k * b + c) % u64_mod) / u32_mod)
        ≡ t + k * b + c)
      × (((t + k * b + c) % u64_mod) / u32_mod < u32_mod)
digit-mac t k b c ht hk hb hc = go (k * b) (product_bound k b hk hb)
  where
    go :
        (p : ℕ)
        → p ≤ 18446744065119617025
        → (((t + p + c) % u64_mod) % u32_mod + u32_mod * (((t + p + c) % u64_mod) / u32_mod)
            ≡ t + p + c)
          × (((t + p + c) % u64_mod) / u32_mod < u32_mod)
    go p h = (omega arith, omega arith)

-- Limbs `r` with the carry `q` are t + k * b + c.
pub record Accumulates (k : ℕ) (t b : List ℕ) (c : ℕ) (r : List ℕ) (q : ℕ) : Type 0 where
  pub sum : value r + weight t * q ≡ value t + k * value b + c
  pub carry : q < u32_mod
  pub limbs : AreLimbs r
  pub size : length r ≡ length t

mac-cons :
    (d r t k b c ts bs q w h : ℕ)
    → d + u32_mod * h ≡ t + k * b + c
    → r + w * q ≡ ts + k * bs + h
    → d + u32_mod * r + u32_mod * w * q ≡ t + u32_mod * ts + k * (b + u32_mod * bs) + c
mac-cons d r t k b c ts bs q w h e f = grind (arith, e, f)

pub mac_loop-Accumulates :
    (k : ℕ) (t b : List ℕ) (c : ℕ)
    → k < u32_mod
    → AreLimbs t
    → AreLimbs b
    → length t ≡ length b
    → c < u32_mod
    → Accumulates k t b c (mac_loop k t b c).0 (mac_loop k t b c).1
mac_loop-Accumulates k [] [] c hk ht hb e hc = record {
  sum = grind arith;
  carry = hc;
  limbs = tt;
  size = refl;
}
mac_loop-Accumulates k [] (b ∷ bs) c hk ht hb e hc = absurd (omega arith)
mac_loop-Accumulates k (t ∷ ts) [] c hk ht hb e hc = absurd (omega arith)
mac_loop-Accumulates k (t ∷ ts) (b ∷ bs) c hk (at, ht) (ab, hb) e hc =
    let x = (t + k * b + c) % u64_mod in
    let h = x / u32_mod in
    let (s, g) = digit-mac t k b c at hk ab hc in
    let ih = mac_loop-Accumulates k ts bs h hk ht hb (omega arith) g in
    let rest = mac_loop k ts bs h in
    record {
      sum =
          mac-cons (x % u32_mod) (value rest.0) t k b c (value ts) (value bs) rest.1 (weight ts) h s
            ih.sum;
      carry = ih.carry;
      limbs = (omega arith, ih.limbs);
      size = ap suc ih.size;
    }

-- The choice of `m` makes the lowest number 0.
pub lowest_zero :
    (r n0 i k : ℕ) → n0 * i + 1 ≡ u32_mod * k → (r + (r * i % u32_mod) * n0) % u32_mod ≡ 0
lowest_zero r n0 i k e =
    let j = r * i / u32_mod in
    let m = r * i % u32_mod in
    let split : u32_mod * j + m ≡ r * i = div-add-mod (r * i) u32_mod in
    let whole : r + m * n0 + u32_mod * (j * n0) ≡ u32_mod * (r * k) =
      multiple r n0 i k j m split e in
    sym (add-mul-mod_self_left (r + m * n0) u32_mod (j * n0))
    ∙ ap (λ v. v % u32_mod) whole
    ∙ mul-mod_right u32_mod (r * k)
  where
    multiple :
        (r n0 i k j m : ℕ)
        → u32_mod * j + m ≡ r * i
        → n0 * i + 1 ≡ u32_mod * k
        → r + m * n0 + u32_mod * (j * n0) ≡ u32_mod * (r * k)
    multiple r n0 i k j m a b = grind (arith, ap (λ v. v * n0) a, ap (λ v. r * v) b)

-- the limbs of the state with the number above them
abbrev pub total : Acc → ℕ
total t = value t.low + weight t.low * t.top

pub record IsState (t : Acc) (n : List ℕ) : Type 0 where
  pub limbs : AreLimbs t.low
  pub size : length t.low ≡ length n
  pub top : t.top < u32_mod

pub tail-value :
    (xs : List ℕ) → 0 < length xs → head_or xs ≡ 0 → value xs ≡ u32_mod * value (tail xs)
tail-value [] h e = absurd (omega arith)
tail-value (x ∷ xs) h e = omega (arith, e)

pub tail-weight : (xs : List ℕ) → 0 < length xs → weight xs ≡ u32_mod * weight (tail xs)
tail-weight [] h = absurd (omega arith)
tail-weight (x ∷ xs) h = refl

pub tail-AreLimbs : (xs : List ℕ) (c : ℕ) → AreLimbs xs → c < u32_mod → AreLimbs (tail xs ++ c ∷ [])
tail-AreLimbs [] c h l = (l, tt)
tail-AreLimbs (x ∷ xs) c (a, h) l = append xs h
  where
    append : (ys : List ℕ) → AreLimbs ys → AreLimbs (ys ++ c ∷ [])
    append [] g = (l, tt)
    append (y ∷ ys) (b, g) = (b, append ys g)

pub tail-size : (xs : List ℕ) (c : ℕ) → 0 < length xs → length (tail xs ++ c ∷ []) ≡ length xs
tail-size [] c h = absurd (omega arith)
tail-size (x ∷ xs) c h = omega (arith, length-append xs (c ∷ []))
