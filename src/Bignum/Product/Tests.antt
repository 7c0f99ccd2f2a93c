-- ===== src/Bignum/Product/Tests.antt =====
-- Runs of bn_mul_wide of kernel/lib/bignum.c.
use yart_os.Prelude.{◌≡◌, refl, [], ◌∷◌}
use yart_os.Bignum.Product.{mul_wide, mul_rows, add_row, add_top}

squares :
    mul_wide (0xffffffff ∷ 0xffffffff ∷ []) (0xffffffff ∷ 0xffffffff ∷ [])
    ≡ 1 ∷ 0 ∷ 0xfffffffe ∷ 0xffffffff ∷ []
unfolding mul_wide mul_rows add_row add_top
squares = refl
