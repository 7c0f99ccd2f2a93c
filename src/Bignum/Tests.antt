-- ===== src/Bignum/Tests.antt =====
-- The theorems on kernel/lib/bignum.c, at small numbers.
use yart_os.Prelude.{refl, [], ◌∷◌, arith}
use yart_os.Bignum.{mont_mul, n0inv}
use yart_os.Bignum.Reduce.{Returns, IsProduct}
use yart_os.Bignum.Inverse.{mont_mul-n0inv}

mont_mul-n0inv_example :
    Returns
      (mont_mul 2 (3 ∷ []) (4 ∷ []) (7 ∷ []) (n0inv (7 ∷ [])))
      (IsProduct (3 ∷ []) (4 ∷ []) (7 ∷ []))
mont_mul-n0inv_example =
    mont_mul-n0inv 0 (3 ∷ []) (4 ∷ []) (7 ∷ []) refl (omega arith, tt) (omega arith, tt)
      (omega arith, tt) refl refl (omega arith)
