-- ===== src/Net/X509/Tests.antt =====
-- The theorems on kernel/lib/x509.c at concrete bytes.
use yart_os.Prelude.{ℕ, ◌≡◌, refl, some, arith, if◌then◌else◌, ◌==◌, [], ◌∷◌, get_or}
use yart_os.Net.X509.{Der, RsaKey, running, der_read, read_tag, spki_loop, rsa_key, with_exponent}
use yart_os.Net.X509.Reader.{Wraps, spki_loop-stuck}

-- an INTEGER of three bytes
abbrev integer : ℕ → ℕ
integer i = if i == 0 then 2 else if i == 1 then 3 else 7

abbrev read_integer : Der
read_integer = record { tag = 2; v = 2; len = 3 }

integer_read : der_read integer 0 10 ≡ some read_integer
unfolding der_read
integer_read = refl

-- an element that says that it is 2 ^ 32 - 6 bytes long
abbrev endless : ℕ → ℕ
endless i = get_or (2 ∷ 0x84 ∷ 0xff ∷ 0xff ∷ 0xff ∷ 0xfa ∷ []) i 0

endless-Wraps : Wraps endless 0
endless-Wraps = record { form = refl; b₂ = refl; b₃ = refl; b₄ = refl; b₅ = refl }

spki_loop-stuck_example : spki_loop 1000 endless 0 100 ≡ running
spki_loop-stuck_example =
    spki_loop-stuck 1000 endless 0 100 endless-Wraps (λ e. absurd (omega (arith, e))) (omega arith)
      (omega arith)

-- a BIT STRING with a modulus of one byte after a zero, and an exponent of two bytes
abbrev key_bits : ℕ → ℕ
key_bits i = get_or (0 ∷ 0x30 ∷ 8 ∷ 2 ∷ 2 ∷ 0 ∷ 9 ∷ 2 ∷ 2 ∷ 1 ∷ 1 ∷ []) i 0

abbrev key : RsaKey
key = record { modulus = 6; modlen = 1; exponent = 9; explen = 2 }

key_read : rsa_key key_bits 0 11 ≡ some key
unfolding rsa_key read_tag der_read with_exponent
key_read = refl
