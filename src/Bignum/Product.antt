-- ===== src/Bignum/Product.antt =====
-- bn_mul_wide of kernel/lib/bignum.c: the schoolbook product.
--
-- `w` is the part of the array from the place of the current limb on, lowest first; a write behind its end is lost.
pub mod Limbs
pub mod Rows
mod Tests
use yart_os.Prelude.{
  ℕ, ◌+◌, ◌/◌, ◌%◌, List, [], ◌∷◌, ◌++◌, length, if◌then◌else◌, ◌==◌, Bool, true, false, u32_mod,
  u64_mod, replicate, take, drop,
}
use yart_os.Bignum.{mac_loop, head_or, tail}

-- w[i + BN_LIMBS] += carry; w[i + BN_LIMBS + 1] += the carry of that
unfoldable pub add_top : (w : List ℕ) → (carry : ℕ) → List ℕ
add_top [] c = []
add_top (x ∷ []) c = (x + c) % u64_mod % u32_mod ∷ []
add_top (x ∷ y ∷ w) c =
    (x + c) % u64_mod % u32_mod ∷ (y + (x + c) % u64_mod / u32_mod) % u32_mod ∷ w

-- one turn of the outer loop, for the limb `ai`
unfoldable pub add_row : (ai : ℕ) → (b w : List ℕ) → List ℕ
add_row ai b w =
    let r = mac_loop ai (take (length b) w) b 0 in
    let sum = r.0 ++ add_top (drop (length b) w) r.1 in if ai == 0 then w else sum

unfoldable pub mul_rows : (a b w : List ℕ) → List ℕ
mul_rows [] b w = w
mul_rows (x ∷ a) b w = let t = add_row x b w in head_or t ∷ mul_rows a b (tail t)

-- for numbers of equally many limbs, and an array of twice as many
unfoldable pub mul_wide : (a b : List ℕ) → List ℕ
mul_wide a b = mul_rows a b (replicate (length a + length b) 0)
