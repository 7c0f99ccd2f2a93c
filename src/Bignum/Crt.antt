-- ===== src/Bignum/Crt.antt =====
-- bn_rsa_private_crt of kernel/lib/bignum.c between its reading and its writing of bytes, with bn_wide_cmp_n and bn_wide_sub_n.
pub mod Sum
pub mod Join
pub mod Correct
mod Tests
use yart_os.Prelude.{
  ℕ, zero, suc, ◌+◌, ◌-◌, ◌*◌, ◌/◌, ◌%◌, ◌^◌, Bool, true, false, ◌||◌, not, List, [], ◌∷◌, ◌++◌,
  Option, some, none, length, if◌then◌else◌, ◌==◌, u32_mod, u64_mod, take, drop,
}
use yart_os.Bignum.{at_least, sub, sub_loop}
use yart_os.Bignum.Divide.{mod_big}
use yart_os.Bignum.Product.{mul_wide}
use yart_os.Bignum.Power.{modpow, mod_mul, and_then}

-- for (k = i + 1; carry && k < 128; k++) ...
unfoldable pub ripple : (carry : ℕ) → List ℕ → List ℕ
ripple c [] = []
ripple c (x ∷ w) =
    let y = (x + c) % u64_mod in
    let rest = ripple (y / u32_mod) w in if c == 0 then x ∷ w else y % u32_mod ∷ rest

-- for (i = 0; i < BN_LIMBS; i++) { x = (u64)w[i] + m2.d[i]; ... }
unfoldable pub add_loop : (w m : List ℕ) → List ℕ
add_loop w [] = w
add_loop [] (m ∷ ms) = []
add_loop (x ∷ w) (m ∷ ms) =
    let y = (x + m) % u64_mod in y % u32_mod ∷ add_loop (ripple (y / u32_mod) w) ms

unfoldable pub any_limb : List ℕ → Bool
any_limb [] = false
any_limb (x ∷ xs) = any_limb xs || not (x == 0)

-- bn_wide_cmp_n(w, n) >= 0
unfoldable pub wide_at_least : (w n : List ℕ) → Bool
wide_at_least w n = if any_limb (drop (length n) w) then true else at_least (take (length n) w) n

-- for (i = BN_LIMBS; i < 128 && borrow; i++) ...
unfoldable pub borrow_loop : (borrow : ℕ) → List ℕ → List ℕ
borrow_loop c [] = []
borrow_loop c (x ∷ w) =
    let y = (x + u64_mod - c) % u64_mod in
    let rest = borrow_loop (y / 2 ^ 63) w in if c == 0 then x ∷ w else y % u32_mod ∷ rest

-- bn_wide_sub_n
unfoldable pub wide_sub : (w n : List ℕ) → List ℕ
wide_sub w n =
    let r = sub_loop (take (length n) w) n 0 in r.0 ++ borrow_loop r.1 (drop (length n) w)

-- m1 - m2, or p less the difference
unfoldable pub lifted_gap : (p m1 m2 : List ℕ) → List ℕ
lifted_gap p m1 m2 = if at_least m1 m2 then sub m1 m2 else sub p (sub m2 m1)

-- m2 + h * q, less n when it is not below
unfoldable pub join_halves : (h q m2 n : List ℕ) → List ℕ
join_halves h q m2 n =
    let w = add_loop (mul_wide h q) m2 in if wide_at_least w n then wide_sub w n else w

unfoldable pub private_crt : (rounds : ℕ) → (c p q dp dq qinv n : List ℕ) → Option (List ℕ)
private_crt k c p q dp dq qinv n = and_then (modpow k (mod_big c p) dp p) (λ m1.
    and_then (modpow k (mod_big c q) dq q)
      (λ m2. and_then (mod_mul k qinv (lifted_gap p m1 m2) p) (λ h. some (join_halves h q m2 n))))
