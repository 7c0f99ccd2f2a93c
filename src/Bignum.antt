-- ===== src/Bignum.antt =====
-- The numbers of 2048 bits of kernel/lib/bignum.c, for RSA.
--
-- A bn_t is the list of its limbs of 32 bits, the lowest first. The functions take lists of any
-- length, of which the source's is BN_LIMBS. Sums of a u64 wrap as in the source.
pub mod Value
pub mod Subtract
pub mod Row
pub mod Montgomery
pub mod Reduce
pub mod Inverse
pub mod Power
pub mod Divide
pub mod Product
pub mod Crt
mod Tests
use yart_os.Prelude.{
  ℕ, zero, suc, ◌+◌, ◌-◌, ◌*◌, ◌/◌, ◌%◌, ◌^◌, Bool, true, false, ◌&&◌, ◌||◌, not, List, [], ◌∷◌,
  ◌++◌, Option, some, none, if◌then◌else◌, ltb, leb, ◌==◌, u32_mod, u64_mod, replicate, get_or,
  length,
}

abbrev pub bn_limbs : ℕ
bn_limbs = 64

-- the results -1, 0 and 1 of bn_cmp
pub data Sign : Type 0 where
  below : Sign
  equal : Sign
  above : Sign

-- bn_cmp: the limbs above come first.
abbrev pub cmp : List ℕ → List ℕ → Sign
cmp [] ys = equal
cmp (x ∷ xs) [] = equal
cmp (x ∷ xs) (y ∷ ys) = elim (cmp xs ys) [
  | below ↦ below
  | above ↦ above
  | equal ↦ if ltb y x then above else if ltb x y then below else equal
]

-- bn_cmp(a, b) >= 0
abbrev pub at_least : List ℕ → List ℕ → Bool
at_least xs ys = elim (cmp xs ys) [ below ↦ false | equal ↦ true | above ↦ true ]

-- the loop of bn_sub, with the borrow that is left
abbrev pub sub_loop : List ℕ → List ℕ → (borrow : ℕ) → List ℕ × ℕ
sub_loop [] ys c = ([], c)
sub_loop (x ∷ xs) [] c = ([], c)
sub_loop (x ∷ xs) (y ∷ ys) c =
    let d = (x + u64_mod - y - c) % u64_mod in
    let rest = sub_loop xs ys (d / u32_mod % 2) in (d % u32_mod ∷ rest.0, rest.1)

-- bn_sub
abbrev pub sub : List ℕ → List ℕ → List ℕ
sub a b = (sub_loop a b 0).0

-- the loop of bn_dbl_mod, with the carry that is left; the bit that `<< 1` frees takes the carry
abbrev pub double_loop : List ℕ → (carry : ℕ) → List ℕ × ℕ
double_loop [] c = ([], c)
double_loop (x ∷ xs) c =
    let d = (x * 2 + c) % u64_mod in
    let rest = double_loop xs (d / u32_mod) in (d % u32_mod ∷ rest.0, rest.1)

-- bn_dbl_mod
pub dbl_mod : (a n : List ℕ) → List ℕ
dbl_mod a n = let r = double_loop a 0 in if not (r.1 == 0) || at_least r.0 n then sub r.0 n else r.0

-- for (j...) { x = t[j] + (u64)k * b[j] + carry; t[j] = (u32)x; carry = x >> 32; }
abbrev pub mac_loop : (k : ℕ) → (t b : List ℕ) → (carry : ℕ) → List ℕ × ℕ
mac_loop k [] b c = ([], c)
mac_loop k (t ∷ ts) [] c = ([], c)
mac_loop k (t ∷ ts) (b ∷ bs) c =
    let x = (t + k * b + c) % u64_mod in
    let rest = mac_loop k ts bs (x / u32_mod) in (x % u32_mod ∷ rest.0, rest.1)

-- the first BN_LIMBS numbers of `t` and the next one
pub record Acc : Type 0 where
  pub low : List ℕ
  pub top : ℕ

abbrev pub head_or : List ℕ → ℕ
head_or [] = 0
head_or (x ∷ xs) = x

abbrev pub tail : List ℕ → List ℕ
tail [] = []
tail (x ∷ xs) = xs

-- one turn of the outer loop of bn_mont_mul, for the limb `ai`: the last number of `t`, which the next
-- turn overwrites, is gone after the shift
abbrev pub round : (ai : ℕ) → (b n : List ℕ) → (n0inv : ℕ) → Acc → Acc
round ai b n n0inv t =
    let r = mac_loop ai t.low b 0 in
    let x = (t.top + r.1) % u64_mod in
    let m = head_or r.0 * n0inv % u32_mod in
    let s = mac_loop m r.0 n 0 in
    let z = (x % u32_mod + s.1) % u64_mod in
    record { low = tail s.0 ++ (z % u32_mod) ∷ []; top = (x / u32_mod + z / u32_mod) % u32_mod }

pub rounds_loop : (a b n : List ℕ) → (n0inv : ℕ) → Acc → Acc
rounds_loop [] b n n0inv t = t
rounds_loop (x ∷ a) b n n0inv t = rounds_loop a b n n0inv (round x b n n0inv t)

-- while (hv) { tmp2 -= n, with the borrow; hv -= borrow; }
abbrev pub reduce_loop : (rounds : ℕ) → (hv : ℕ) → (t n : List ℕ) → Option (List ℕ)
reduce_loop zero hv t n = none
reduce_loop (suc k) hv t n =
    let r = sub_loop t n 0 in
    let rest = reduce_loop k (hv - r.1) r.0 n in if hv == 0 then some t else rest

abbrev pub last_sub : List ℕ → Option (List ℕ) → Option (List ℕ)
last_sub n none = none
last_sub n (some t) = if at_least t n then some (sub t n) else some t

-- bn_mont_mul, whose reduction runs on `rounds` turns
pub mont_mul : (rounds : ℕ) → (a b n : List ℕ) → (n0inv : ℕ) → Option (List ℕ)
mont_mul k a b n n0inv =
    let t = rounds_loop a b n n0inv (record { low = replicate (length n) 0; top = 0 }) in
    last_sub n (reduce_loop k t.top t.low n)

-- x * (2 - n0 * x)
pub newton_next : (n0 x : ℕ) → ℕ
newton_next n0 x = x * ((2 + u32_mod - n0 * x % u32_mod) % u32_mod) % u32_mod

-- for (i = 0; i < rounds; i++) x = x * (2 - n0 * x);
abbrev pub newton : (rounds n0 x : ℕ) → ℕ
newton zero n0 x = x
newton (suc k) n0 x = newton k n0 (newton_next n0 x)

-- bn_n0inv
pub n0inv : List ℕ → ℕ
n0inv n = (u32_mod - newton 5 (head_or n) 1) % u32_mod
