-- ===== src/Fs/Blkfs/Blocks/Tests.antt =====
-- A file of 1100 blocks on a disk whose bitmaps are of no account here.
use yart_os.Prelude.{◌+◌, ◌≡◌, refl, true, false, arith, if◌then◌else◌, ltb}
use yart_os.Fs.Blkfs.Layout.{find_group}
use yart_os.Fs.Blkfs.Space.{Volume, alloc_block, find_block, scan_pass, scan_blocks, bbit, bset}
use yart_os.Fs.Blkfs.Blocks.{
  Inode, Disk, inode_get_block, truncate_blocks, get_single, obtain, obtain_table, obtain_entry,
}
use yart_os.Fs.Blkfs.Blocks.Mapping.{inode_get_block-again}
use yart_os.Fs.Blkfs.Blocks.Truncate.{truncate_blocks-inode_get_block}

abbrev volume : Volume
volume = record {
  total_groups = 0;
  desc = λ g. record {
    block_bitmap = 0;
    inode_bitmap = 0;
    inode_table = 0;
    data_start = 0;
    data_end = 0;
    free_blocks = 0;
    free_inodes = 0;
  };
  bbitmap = λ g i. true;
  ibitmap = λ g i. true;
}

abbrev disk : Disk
disk = record { volume = volume; entries = λ b i. 2000 + i }

abbrev file : Inode
file = record {
  direct = λ i. 100 + i;
  single_indirect = 50;
  double_indirect = 51;
  triple_indirect = 0;
  blocks_count = 1100;
}

truncate_blocks-inode_get_block_example :
    let (i, e) = truncate_blocks 20 file disk in
    (inode_get_block 15 false 0 i e).0
    ≡ (if ltb 15 20 then (inode_get_block 15 false 0 file disk).0 else 0)
truncate_blocks-inode_get_block_example =
    truncate_blocks-inode_get_block 20 15 0 file disk (omega arith)

-- a file without a block, on a disk that has one group of eight blocks, all free
abbrev fresh : Disk
fresh = record {
  volume = record volume {
    total_groups = 1;
    desc = λ g. record (volume.desc g) { data_start = 10; data_end = 18 };
    bbitmap = λ g i. false;
  };
  entries = λ b i. 0;
}

abbrev empty : Inode
empty = record file { direct = λ i. 0; single_indirect = 0; double_indirect = 0; blocks_count = 0 }

-- Block 20 of the file gets a table and a block.
eleventh : (inode_get_block 20 true 0 empty fresh).0 ≡ 11
unfolding inode_get_block get_single obtain obtain_table obtain_entry alloc_block find_block
    scan_pass scan_blocks bbit bset find_group
eleventh = refl

inode_get_block-again_example :
    let (b, i, e) = inode_get_block 20 true 0 empty fresh in (inode_get_block 20 false 0 i e).0 ≡ b
inode_get_block-again_example = inode_get_block-again 20 0 0 empty fresh (omega (arith, eleventh))
