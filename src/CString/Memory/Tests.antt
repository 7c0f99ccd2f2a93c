-- ===== src/CString/Memory/Tests.antt =====
-- The theorems on the memory functions of kernel/lib/string.c, for ranges that overlap.
use yart_os.Prelude.{ℕ, ◌≡◌, ◌*◌}
use yart_os.CString.{memcpy}
use yart_os.CString.Memory.{memmove}
use yart_os.CString.Memory.Move.{memmove-memcpy}

abbrev squares : ℕ → ℕ
squares i = i * i

memmove-memcpy_example : memmove 7 5 4 squares 9 ≡ memcpy squares 7 squares 5 4 9
memmove-memcpy_example = memmove-memcpy 7 5 4 squares 9
