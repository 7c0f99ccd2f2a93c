-- ===== src/Bignum/Divide.antt =====
-- bn_bitlen, bn_shl1 and bn_mod of kernel/lib/bignum.c: long division by shifts.
pub mod Length
pub mod Shift
pub mod Remainder
mod Tests
use yart_os.Prelude.{
  ℕ, zero, suc, ◌+◌, ◌-◌, ◌*◌, ◌/◌, ◌%◌, ◌^◌, Bool, true, false, List, [], ◌∷◌, if◌then◌else◌, ◌==◌,
  u32_mod,
}
use yart_os.Bignum.{Sign, below, equal, above, cmp, at_least, sub}

-- for (b = bits - 1; b >= 0; b--) if (x & (1u << b)) return b + 1
unfoldable pub top_bit : (bits x : ℕ) → ℕ
top_bit zero x = 0
top_bit (suc b) x = let rest = top_bit b x in if x / 2 ^ b % 2 == 1 then b + 1 else rest

-- the limbs from the `i`-th on: those above come first
unfoldable pub bitlen_loop : (i : ℕ) → List ℕ → ℕ
bitlen_loop i [] = 0
bitlen_loop i (x ∷ xs) =
    let rest = bitlen_loop (i + 1) xs in
    let bit = top_bit 32 x in
    if rest == 0 then (if x == 0 then 0 else if bit == 0 then 0 else i * 32 + bit) else rest

unfoldable pub bitlen : List ℕ → ℕ
bitlen a = bitlen_loop 0 a

-- (x << 1) | carry, with a carry of at most 1
unfoldable pub shl_loop : List ℕ → (carry : ℕ) → List ℕ
shl_loop [] c = []
shl_loop (x ∷ xs) c = (x * 2 % u32_mod + c) ∷ shl_loop xs (x / 2 ^ 31)

unfoldable pub shl1 : List ℕ → List ℕ
shl1 a = shl_loop a 0

-- for (i = 0; i < shift; i++) bn_shl1(&t, &t)
unfoldable pub shl_times : (shift : ℕ) → List ℕ → List ℕ
shl_times zero t = t
shl_times (suc k) t = shl_times k (shl1 t)

-- t >>= 1, with the carry that goes to the limb below
unfoldable pub shr_loop : List ℕ → List ℕ × ℕ
shr_loop [] = ([], 0)
shr_loop (x ∷ xs) = let (r, c) = shr_loop xs in ((x / 2 + c) ∷ r, x * 2 ^ 31 % u32_mod)

-- for (i = 0; i <= shift; i++) { if (rem >= t) rem -= t; t >>= 1; }
unfoldable pub divide_loop : (rounds : ℕ) → (rem t : List ℕ) → List ℕ
divide_loop zero rem t = rem
divide_loop (suc k) rem t = divide_loop k (if at_least rem t then sub rem t else rem) (shr_loop t).0

unfoldable pub mod_big : (a m : List ℕ) → List ℕ
mod_big a m =
    let shift = bitlen a - bitlen m in
    elim (at_least a m) [ false ↦ a | true ↦ divide_loop (shift + 1) a (shl_times shift m) ]
