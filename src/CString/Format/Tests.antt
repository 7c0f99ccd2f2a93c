-- ===== src/CString/Format/Tests.antt =====
-- The theorems on the formatted output of kernel/lib/string.c, for `%s: %5d` and a number.
use yart_os.Prelude.{ℕ, ◌+◌, ◌-◌, ◌≡◌, ◌≤◌, false, List, [], ◌∷◌, arith}
use yart_os.CString.Format.{Out, vsnprintf, put_num}
use yart_os.CString.Format.Bounds.{Leaves, IsPrinted, vsnprintf-IsPrinted}
use yart_os.CString.Format.Digits.{read_number, put_num-read_number}

abbrev fmt : List ℕ
fmt = 37 ∷ 115 ∷ 58 ∷ 32 ∷ 37 ∷ 53 ∷ 100 ∷ []

abbrev empty : ℕ → ℕ
empty i = 0

abbrev text : ℕ → List ℕ
text p = 97 ∷ 98 ∷ []

vsnprintf-IsPrinted_example :
    Leaves (IsPrinted 6 empty) (vsnprintf 6 text fmt (0x1000 ∷ 42 ∷ []) empty)
vsnprintf-IsPrinted_example =
    vsnprintf-IsPrinted 6 text fmt (0x1000 ∷ 42 ∷ []) empty (omega arith) (omega arith)

abbrev out : Out
out = record { buf = empty; pos = 0; overrun = false }

put_num-read_number_example :
    ((put_num 100 48879 16 false false 0 32 out).overrun ≡ false)
    × ((put_num 100 48879 16 false false 0 32 out).pos ≤ out.pos + 32)
    × (read_number 16
          (put_num 100 48879 16 false false 0 32 out).buf
          out.pos
          ((put_num 100 48879 16 false false 0 32 out).pos - out.pos)
        ≡ 48879)
put_num-read_number_example =
    put_num-read_number 100 48879 16 32 out (omega arith) (omega arith) (omega arith) (omega arith)
