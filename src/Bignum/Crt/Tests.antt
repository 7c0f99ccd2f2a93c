-- ===== src/Bignum/Crt/Tests.antt =====
-- A run of the private operation of kernel/lib/bignum.c with a small key.
use yart_os.Prelude.{ℕ, refl, List, [], ◌∷◌, arith}
use yart_os.Bignum.Reduce.{Returns}
use yart_os.Bignum.Crt.{private_crt}
use yart_os.Bignum.Crt.Correct.{IsKey, Recombined, private_crt-Recombined}

abbrev limb : ℕ → List ℕ
limb x = x ∷ []

-- 13, 11 and their product
small-IsKey : IsKey (limb 13) (limb 11) (limb 6) (limb 143)
small-IsKey = record {
  first = record { limbs = (omega arith, tt); odd = refl; above_one = omega arith };
  second = record { limbs = (omega arith, tt); odd = refl; above_one = omega arith };
  limbs = (omega arith, tt);
  size_p = refl;
  size_q = refl;
  ordered = omega arith;
  product = refl;
  inverse = refl;
  inverse_limbs = (omega arith, tt);
  inverse_size = refl;
}

private_crt-Recombined_example :
    Returns
      (private_crt 2 (limb 42) (limb 13) (limb 11) (limb 7) (limb 3) (limb 6) (limb 143))
      (Recombined (limb 42) (limb 13) (limb 11) (limb 7) (limb 3) (limb 143))
private_crt-Recombined_example =
    private_crt-Recombined 0 (limb 42) (limb 13) (limb 11) (limb 7) (limb 3) (limb 6) (limb 143)
      small-IsKey (omega arith, tt) (omega arith, tt) (omega arith, tt) refl
