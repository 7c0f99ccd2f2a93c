-- ===== src/Bignum/Power/Tests.antt =====
-- The theorems on the modular exponentiation of kernel/lib/bignum.c, at small numbers.
use yart_os.Prelude.{ℕ, ◌^◌, refl, List, [], ◌∷◌, arith}
use yart_os.Bignum.Value.{value}
use yart_os.Bignum.Subtract.{IsRemainder}
use yart_os.Bignum.Reduce.{Returns}
use yart_os.Bignum.Power.{modpow}
use yart_os.Bignum.Power.Convert.{IsModulus}
use yart_os.Bignum.Power.Correct.{modpow-IsRemainder}

-- the modulus of RSA with the primes 61 and 53
abbrev modulus : List ℕ
modulus = 3233 ∷ []

modulus-IsModulus : IsModulus modulus
modulus-IsModulus = record { limbs = (omega arith, tt); odd = refl; above_one = omega arith }

modpow-IsRemainder_example :
    Returns
      (modpow 2 (65 ∷ []) (17 ∷ []) modulus)
      (λ r. IsRemainder r modulus (value (65 ∷ []) ^ value (17 ∷ [])))
modpow-IsRemainder_example =
    modpow-IsRemainder modulus modulus-IsModulus 0 (65 ∷ []) (17 ∷ []) (omega arith, tt)
      (omega arith, tt) refl
