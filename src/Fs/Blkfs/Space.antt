-- ===== src/Fs/Blkfs/Space.antt =====
-- The bitmaps of kernel/fs/blkfs.c: which blocks and inodes of a volume are taken.
--
-- A bitmap is the function that its test computes: `bbitmap g i` is bit `i % 8` of byte `i / 8` of
-- g_bbitmap[g], and bset writes that bit.
pub mod Inodes
pub mod DataBlocks
pub mod Format
mod Tests
use yart_os.Prelude.{
  ℕ, zero, suc, ◌+◌, ◌-◌, ◌*◌, ◌/◌, ◌%◌, Bool, true, false, Option, none, some, if◌then◌else◌, ltb,
  leb, ◌==◌, ◌&&◌, update, u32_mod, add32,
}
use yart_os.Fs.Blkfs.Layout.{GroupDesc, Layout, find_group, inodes_per_group, data_blocks}

pub record Volume : Type 0 where
  pub total_groups : ℕ
  pub desc : ℕ → GroupDesc
  pub bbitmap : ℕ → ℕ → Bool
  pub ibitmap : ℕ → ℕ → Bool

abbrev pub update_bit : (ℕ → ℕ → Bool) → ℕ → ℕ → Bool → ℕ → ℕ → Bool
update_bit bits g i v g' i' = if g' == g && i' == i then v else bits g' i'

-- the group of an inode number and its place there
abbrev pub ino_group : ℕ → ℕ
ino_group ino = (ino - 1) / inodes_per_group

abbrev pub ino_index : ℕ → ℕ
ino_index ino = (ino - 1) % inodes_per_group

pub ibit : ℕ → Volume → Bool
ibit ino v = v.ibitmap (ino_group ino) (ino_index ino)

pub iset : ℕ → Bool → Volume → Volume
iset ino b v = record v { ibitmap = update_bit v.ibitmap (ino_group ino) (ino_index ino) b }

unfoldable pub bbit : ℕ → Volume → Bool
bbit blk v = elim (find_group v.total_groups 0 blk v.desc) [
  | none ↦ true
  | some g ↦ v.bbitmap g (blk - (v.desc g).data_start)
]

unfoldable pub bset : ℕ → Bool → Volume → Volume
bset blk b v = elim (find_group v.total_groups 0 blk v.desc) [
  | none ↦ v
  | some g ↦ record v { bbitmap = update_bit v.bbitmap g (blk - (v.desc g).data_start) b }
]

-- the loop of alloc_ino over the inodes of group `g`, from place `i` on
pub scan_inodes : (rounds i g : ℕ) → Volume → Option ℕ
scan_inodes zero i g v = none
scan_inodes (suc n) i g v = elim (ibit (g * inodes_per_group + i + 1) v) [
  | true ↦ scan_inodes n (i + 1) g v
  | false ↦ some (g * inodes_per_group + i + 1)
]

-- the loop over the groups, from `g` on
pub scan_groups : (rounds g : ℕ) → Volume → Option ℕ
scan_groups zero g v = none
scan_groups (suc n) g v = elim (scan_inodes inodes_per_group 0 g v) [
  | none ↦ scan_groups n (g + 1) v
  | some ino ↦ some ino
]

pub alloc_ino : Volume → ℕ × Volume
alloc_ino v = elim (scan_groups v.total_groups 0 v) [
  | none ↦ (0, v)
  | some ino ↦ (ino, iset ino true v)
]

-- the loop of alloc_block over the blocks of one group, from `blk` on
unfoldable pub scan_blocks : (rounds blk : ℕ) → Volume → Option ℕ
scan_blocks zero blk v = none
scan_blocks (suc n) blk v = elim (bbit blk v) [
  | true ↦ scan_blocks n (blk + 1) v
  | false ↦ some blk
]

-- the loop over the groups: the first pass starts at the preferred one
unfoldable pub scan_pass : (rounds gg pass prefer : ℕ) → Volume → Option ℕ
scan_pass zero gg pass prefer v = none
scan_pass (suc n) gg pass prefer v =
    let g = if pass == 0 then (prefer + gg) % u32_mod % v.total_groups else gg in
    elim (scan_blocks (data_blocks (v.desc g)) (v.desc g).data_start v) [
      | none ↦ scan_pass n (gg + 1) pass prefer v
      | some blk ↦ some blk
    ]

-- the block that the two passes settle on
unfoldable pub find_block : ℕ → Volume → Option ℕ
find_block prefer v = elim (scan_pass v.total_groups 0 0 prefer v) [
  | some blk ↦ some blk
  | none ↦ scan_pass v.total_groups 0 1 prefer v
]

unfoldable pub alloc_block : ℕ → Volume → ℕ × Volume
alloc_block prefer v = elim (find_block prefer v) [
  | none ↦ (0, v)
  | some blk ↦ (blk, bset blk true v)
]

-- The bitmaps that format writes for a layout.
pub format : Layout → Volume
format l = record {
  total_groups = l.total_groups;
  desc = l.desc;
  bbitmap = λ g i. false;
  ibitmap = λ g i. false;
}

-- YFS_ROOT_INO
abbrev pub root_ino : ℕ
root_ino = 1

-- the inode number that persist_node gives a node which has none
pub assign_ino : (is_root : Bool) → Volume → ℕ × Volume
assign_ino is_root v = if is_root then (root_ino, v) else alloc_ino v
