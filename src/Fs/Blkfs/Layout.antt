-- ===== src/Fs/Blkfs/Layout.antt =====
-- The geometry that compute_layout of kernel/fs/blkfs.c gives a volume.
pub mod Closed
pub mod Regions
pub mod CrcIndex
pub mod Sample
mod Tests
use yart_os.Prelude.{
  ℕ, zero, suc, ◌+◌, ◌-◌, ◌*◌, ◌/◌, ◌%◌, Bool, true, false, ◌&&◌, ◌||◌, Option, none, some,
  if◌then◌else◌, ltb, leb, ◌==◌, update, u32_mod, add32,
}

abbrev pub blocks_per_group : ℕ
blocks_per_group = 4096

abbrev pub inodes_per_group : ℕ
inodes_per_group = 1024

-- YFS_META_PER_GROUP: the two bitmaps and the 32 blocks of the inode table
abbrev pub meta_per_group : ℕ
meta_per_group = 34

abbrev pub journal_blocks : ℕ
journal_blocks = 64

abbrev pub max_groups : ℕ
max_groups = 64

-- yfs_gdesc_t
pub record GroupDesc : Type 0 where
  pub block_bitmap : ℕ
  pub inode_bitmap : ℕ
  pub inode_table : ℕ
  pub data_start : ℕ
  pub data_end : ℕ
  pub free_blocks : ℕ
  pub free_inodes : ℕ

-- the fields of yfs_sb_t and g_desc that compute_layout sets to something that varies
pub record Layout : Type 0 where
  pub total_blocks : ℕ
  pub total_groups : ℕ
  pub journal_start : ℕ
  pub crc_start : ℕ
  pub desc : ℕ → GroupDesc

-- the array after memset(g_desc, 0, sizeof g_desc)
abbrev pub no_desc : ℕ → GroupDesc
no_desc g = record {
  block_bitmap = 0;
  inode_bitmap = 0;
  inode_table = 0;
  data_start = 0;
  data_end = 0;
  free_blocks = 0;
  free_inodes = 0;
}

abbrev pub span_of : ℕ → ℕ
span_of g = 2 + g * blocks_per_group

abbrev pub span_end_of : (journal_start g : ℕ) → ℕ
span_end_of journal_start g =
    if ltb journal_start (span_of g + blocks_per_group)
    then journal_start
    else span_of g + blocks_per_group

abbrev pub group_desc : (journal_start g : ℕ) → GroupDesc
group_desc journal_start g = record {
  block_bitmap = span_of g;
  inode_bitmap = span_of g + 1;
  inode_table = span_of g + 2;
  data_start = span_of g + meta_per_group;
  data_end = span_end_of journal_start g;
  free_blocks = span_end_of journal_start g - (span_of g + meta_per_group);
  free_inodes = inodes_per_group;
}

-- The loop over the groups from `g` on; `none` is `return false`.
pub fill : (rounds g journal_start : ℕ) → (ℕ → GroupDesc) → Option (ℕ → GroupDesc)
fill zero g journal_start desc = some desc
fill (suc n) g journal_start desc =
    elim (leb (span_end_of journal_start g) (span_of g + meta_per_group)) [
      | true ↦ none
      | false ↦ fill n (g + 1) journal_start (update desc g (group_desc journal_start g))
    ]

-- data_end - data_start, on u32
abbrev pub data_blocks : GroupDesc → ℕ
data_blocks d = (d.data_end + u32_mod - d.data_start) % u32_mod

-- for (g = 0; g < groups; g++) data_total += ...
pub sum_data : (groups : ℕ) → (ℕ → GroupDesc) → ℕ
sum_data zero desc = 0
sum_data (suc n) desc = add32 (sum_data n desc) (data_blocks (desc n))

abbrev pub crc_blocks_of : ℕ → ℕ
crc_blocks_of data_total = add32 (data_total * 4 % u32_mod) 4095 / 4096

abbrev pub clamp : (groups crc_start : ℕ) → (ℕ → GroupDesc) → ℕ → GroupDesc
clamp groups crc_start desc g =
    if ltb g groups && ltb crc_start (desc g).data_end
    then record (desc g) { data_end = crc_start }
    else desc g

-- the layout once the loop over the groups has filled `desc`: the CRC region lies before the
-- journal, and no group's data runs into it
pub place : (total groups : ℕ) → (ℕ → GroupDesc) → Layout
place total groups desc =
    let journal_start = total - journal_blocks in
    let crc_start = (journal_start + u32_mod - crc_blocks_of (sum_data groups desc)) % u32_mod in
    record {
      total_blocks = total;
      total_groups = groups;
      journal_start = journal_start;
      crc_start = crc_start;
      desc = clamp groups crc_start desc;
    }

-- the check at the end
pub finish : Layout → Option Layout
finish l = if ltb (l.desc 0).data_start l.crc_start then some l else none

-- compute_layout on a disk of `total` blocks; `none` is `return false`.
pub compute_layout : ℕ → Option Layout
compute_layout total =
    let groups = add32 total 4095 / blocks_per_group in
    let filled : Option Layout = elim (fill groups 0 (total - journal_blocks) no_desc) [
      | none ↦ none
      | some desc ↦ finish (place total groups desc)
    ] in
    if ltb total 1024 then none else if groups == 0 || ltb max_groups groups then none else filled

-- group_of_data_block from group `g` on; `none` is -1.
unfoldable pub find_group : (rounds g blk : ℕ) → (ℕ → GroupDesc) → Option ℕ
find_group zero g blk desc = none
find_group (suc n) g blk desc = elim (leb (desc g).data_start blk && ltb blk (desc g).data_end) [
  | true ↦ some g
  | false ↦ find_group n (g + 1) blk desc
]

-- The CRC slot of a data block, counted over the groups before its own.
pub index_loop : (rounds g idx blk : ℕ) → (ℕ → GroupDesc) → ℕ
index_loop zero g idx blk desc = 0xffff_ffff
index_loop (suc n) g idx blk desc =
    elim (leb (desc g).data_start blk && ltb blk (desc g).data_end) [
      | true ↦ add32 idx (blk - (desc g).data_start)
      | false ↦ index_loop n (g + 1) (add32 idx (data_blocks (desc g))) blk desc
    ]

pub data_index : ℕ → Layout → ℕ
unfolding index_loop
data_index blk l = index_loop l.total_groups 0 0 blk l.desc

-- the block that holds the CRC of slot `idx`, and the offset there
pub crc_block : ℕ → Layout → ℕ
crc_block idx l = add32 l.crc_start (idx * 4 % u32_mod / 4096)

pub crc_offset : ℕ → ℕ
crc_offset idx = idx * 4 % u32_mod % 4096
