-- ===== src/Fs/Blkfs/Space/Tests.antt =====
-- A volume of one group with four data blocks, and the theorems on bitmaps there.
use yart_os.Prelude.{ℕ, ◌≡◌, ◌≢◌, ◌⊎◌, refl, true, false, arith, if◌then◌else◌, ltb, ◌==◌}
use yart_os.Fs.Blkfs.Layout.{find_group}
use yart_os.Fs.Blkfs.Space.{Volume, bbit, alloc_block, scan_blocks, scan_pass, find_block}
use yart_os.Fs.Blkfs.Space.DataBlocks.{IsData, IsSound, alloc_block_cases}

-- Blocks 10 to 13 hold data; 10 and 11 are taken.
abbrev four_blocks : Volume
four_blocks = record {
  total_groups = 1;
  desc = λ g. record {
    block_bitmap = 2;
    inode_bitmap = 3;
    inode_table = 4;
    data_start = 10;
    data_end = 14;
    free_blocks = 4;
    free_inodes = 1024;
  };
  bbitmap = λ g i. ltb i 2;
  ibitmap = λ g i. ltb i 1;
}

four_blocks-IsSound : IsSound four_blocks
four_blocks-IsSound = record {
  some_group = omega arith;
  few = omega arith;
  starts = λ g h. omega arith;
  ends = λ g h. omega arith;
  width = λ g h. omega arith;
  apart = λ g g' blk a b. omega (arith, a.group, b.group);
}

takes_the_first_free : (alloc_block 0 four_blocks).0 ≡ 12
unfolding alloc_block find_block scan_pass scan_blocks bbit find_group
takes_the_first_free = refl

alloc_block_cases_example :
    ((blk : ℕ) × (g : ℕ) × ((alloc_block 0 four_blocks).0 ≡ blk)
      × (blk ≢ 0)
      × IsData four_blocks g blk
      × (bbit blk four_blocks ≡ false)
      × ((c : ℕ)
          → bbit c (alloc_block 0 four_blocks).1 ≡ (if c == blk then true else bbit c four_blocks)))
    ⊎ ((alloc_block 0 four_blocks ≡ (0, four_blocks))
        × ((g c : ℕ) → IsData four_blocks g c → bbit c four_blocks ≡ true))
alloc_block_cases_example = alloc_block_cases 0 four_blocks four_blocks-IsSound
