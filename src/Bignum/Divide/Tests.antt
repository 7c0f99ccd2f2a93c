-- ===== src/Bignum/Divide/Tests.antt =====
-- Runs of bn_bitlen and bn_mod of kernel/lib/bignum.c.
use yart_os.Prelude.{ℕ, ◌≡◌, refl, List, [], ◌∷◌, arith}
use yart_os.Bignum.Value.{value}
use yart_os.Bignum.Subtract.{IsRemainder}
use yart_os.Bignum.Divide.{
  bitlen, bitlen_loop, top_bit, mod_big, divide_loop, shl_times, shl1, shl_loop, shr_loop,
}
use yart_os.Bignum.Divide.Remainder.{mod_big-IsRemainder}

abbrev number : List ℕ
number = 7 ∷ 0x89abcdef ∷ 5 ∷ []

abbrev modulus : List ℕ
modulus = 0xfffffffb ∷ 3 ∷ 0 ∷ []

sixty_seven : bitlen number ≡ 67
unfolding bitlen bitlen_loop top_bit
sixty_seven = refl

remainder : mod_big number modulus ≡ 0xec16c178 ∷ 1 ∷ 0 ∷ []
unfolding mod_big bitlen bitlen_loop top_bit divide_loop shl_times shl1 shl_loop shr_loop
remainder = refl

mod_big-IsRemainder_example : IsRemainder (mod_big number modulus) modulus (value number)
mod_big-IsRemainder_example =
    mod_big-IsRemainder number modulus (omega arith, (omega arith, (omega arith, tt)))
      (omega arith, (omega arith, (omega arith, tt))) refl (omega arith)
