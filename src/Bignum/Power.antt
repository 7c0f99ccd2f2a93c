-- ===== src/Bignum/Power.antt =====
-- The modular exponentiation of kernel/lib/bignum.c.
--
-- A result is `none` where a call of bn_mont_mul has not come to its end after `rounds` turns of its
-- last loop.
pub mod Congruence
pub mod Convert
pub mod Correct
mod Tests
use yart_os.Prelude.{
  ℕ, zero, suc, ◌+◌, ◌-◌, ◌*◌, ◌/◌, ◌%◌, ◌^◌, Bool, true, false, List, [], ◌∷◌, Option, some, none,
  if◌then◌else◌, ◌==◌, replicate, length,
}
use yart_os.Bignum.{mont_mul, dbl_mod, n0inv}

-- for (i = 0; i < rounds; i++) bn_dbl_mod(&r, &r, n);
abbrev pub double_times : (rounds : ℕ) → (r n : List ℕ) → List ℕ
double_times zero r n = r
double_times (suc k) r n = double_times k (dbl_mod r n) n

-- the number 1 in as many limbs as `n`
abbrev pub one : (n : List ℕ) → List ℕ
one [] = []
one (x ∷ xs) = 1 ∷ replicate (length xs) 0

-- the first result of bn_mont_consts, 2 ^ (32 * BN_LIMBS) modulo n
abbrev pub mont_r : (n : List ℕ) → List ℕ
mont_r n = double_times (32 * length n) (one n) n

-- the second, the square of the first modulo n
abbrev pub mont_r2 : (n : List ℕ) → List ℕ
mont_r2 n = double_times (32 * length n) (mont_r n) n

abbrev pub and_then : Option (List ℕ) → (List ℕ → Option (List ℕ)) → Option (List ℕ)
and_then none f = none
and_then (some r) f = f r

-- bn_mont_mul with bn_n0inv's result
abbrev pub mul : (rounds : ℕ) → (n a b : List ℕ) → Option (List ℕ)
mul k n a b = mont_mul k a b n (n0inv n)

-- bn_mod_mul
pub mod_mul : (rounds : ℕ) → (a b n : List ℕ) → Option (List ℕ)
mod_mul k a b n = and_then (mul k n a (mont_r2 n)) (λ am.
    and_then (mul k n b (mont_r2 n)) (λ bm. and_then (mul k n am bm) (λ t. mul k n t (one n))))

-- `started` and `acc` of bn_modpow
pub data Ladder : Type 0 where
  waiting : List ℕ → Ladder
  running : List ℕ → Ladder

-- one turn of the inner loop, for a bit of the exponent
abbrev pub turn : (rounds : ℕ) → (n base : List ℕ) → (bit : ℕ) → Ladder → Option Ladder
turn k n base bit (waiting acc) = some (if bit == 0 then waiting acc else running base)
turn k n base bit (running acc) = elim (mul k n acc acc) [
  | none ↦ none
  | some sq ↦ elim (bit == 0) [
    | true ↦ some (running sq)
    | false ↦ elim (mul k n sq base) [ none ↦ none | some m ↦ some (running m) ]
  ]
]

-- the inner loop, over the lowest `bits` bits of a limb from the highest on
pub bit_loop : (bits : ℕ) → (rounds : ℕ) → (n base : List ℕ) → (limb : ℕ) → Ladder → Option Ladder
bit_loop zero k n base e s = some s
bit_loop (suc b) k n base e s = elim (turn k n base (e / 2 ^ b % 2) s) [
  | none ↦ none
  | some u ↦ bit_loop b k n base e u
]

-- the outer loop: the limbs above come first
pub limb_loop : (exp : List ℕ) → (rounds : ℕ) → (n base : List ℕ) → Ladder → Option Ladder
limb_loop [] k n base s = some s
limb_loop (e ∷ es) k n base s = elim (limb_loop es k n base s) [
  | none ↦ none
  | some u ↦ bit_loop 32 k n base e u
]

abbrev pub acc_of : Ladder → List ℕ
acc_of (waiting acc) = acc
acc_of (running acc) = acc

-- bn_modpow
pub modpow : (rounds : ℕ) → (base exp n : List ℕ) → Option (List ℕ)
modpow k base exp n = and_then (mul k n base (mont_r2 n)) (λ bm.
    and_then (mul k n (mont_r n) (mont_r n)) (λ acc. elim (limb_loop exp k n bm (waiting acc)) [
      | none ↦ none
      | some s ↦ mul k n (acc_of s) (one n)
    ]))
