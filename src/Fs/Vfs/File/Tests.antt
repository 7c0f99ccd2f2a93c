-- ===== src/Fs/Vfs/File/Tests.antt =====
-- The theorems on the contents of a file in kernel/fs/vfs.c, at a file of 5 bytes.
use yart_os.Prelude.{◌-◌, ℕ, ◌+◌, ◌≡◌, ◌^◌, refl, some, Option, false, arith, if◌then◌else◌, ltb}
use yart_os.Fs.Vfs.File.{Node, file, done, overrun, int_result, grow_loop, read, write, ensure_cap}
use yart_os.Fs.Vfs.File.Refine.{view, pread_count, read-pread}
use yart_os.Fs.Vfs.File.Write.{write-overruns}

-- A heap that always has room, with 0xAA in it.
abbrev roomy : ℕ → Option (ℕ → ℕ)
roomy n = some (λ i. 0xaa)

abbrev five : Node
five = record {
  kind = file;
  bytes = λ i. 0x41 + i;
  size = 5;
  cap = 64;
  mtime = 0;
  dirty = false;
  dirty_b0 = 0;
  dirty_b1 = 0;
}

abbrev empty : Node
empty = record five { size = 0; cap = 0 }

abbrev ones : ℕ → ℕ
ones i = 1

-- A write behind the end leaves a gap of zeros, in a block of twice the size.
gap : (view (write roomy 9 ones 70 3 five).1).byte 66 ≡ 0
unfolding write ensure_cap grow_loop
gap = refl

read-pread_example :
    ((read ones 2 9 five).0 ≡ done (pread_count 2 9 (view five)))
    × ((i : ℕ)
        → (read ones 2 9 five).1 i
          ≡ (if ltb i (pread_count 2 9 (view five)) then (view five).byte (2 + i) else ones i))
read-pread_example = read-pread ones 2 9 five refl (omega arith) (omega arith)

wrote : (write roomy 9 ones 70 3 five).0 ≡ done 3
unfolding write ensure_cap grow_loop int_result
wrote = refl

-- pwrite of two bytes at offset -1
write-overruns_example : write roomy 9 ones (2 ^ 64 - 1) 2 five ≡ (overrun, five)
write-overruns_example =
    write-overruns roomy 9 ones (2 ^ 64 - 1) 2 five refl (omega arith) (omega arith) (omega arith)
      (omega arith) (omega arith)
