-- ===== src/Fs/Blkfs/Blocks.antt =====
-- The block map of an inode in kernel/fs/blkfs.c: direct blocks, and tables of 1024 block numbers
-- one and two levels deep.
--
-- The disk is what the code reads of it here: `entries b i` is the i-th u32 of block `b`.
pub mod Truncate
pub mod Mapping
mod Tests
use yart_os.Prelude.{
  ℕ, zero, suc, ◌+◌, ◌-◌, ◌*◌, ◌/◌, ◌%◌, Bool, true, false, Option, none, some, if◌then◌else◌, ltb,
  leb, ◌==◌, ◌&&◌, update, u32_mod, not,
}
use yart_os.Fs.Blkfs.Space.{Volume, bset, alloc_block}

-- YFS_DIRECT
abbrev pub direct_blocks : ℕ
direct_blocks = 12

-- YFS_INDIRECT_PER
abbrev pub indirect_per : ℕ
indirect_per = 1024

-- the part of yfs_inode_t that says where the data is
pub record Inode : Type 0 where
  pub direct : ℕ → ℕ
  pub single_indirect : ℕ
  pub double_indirect : ℕ
  pub triple_indirect : ℕ
  pub blocks_count : ℕ

pub record Disk : Type 0 where
  pub volume : Volume
  pub entries : ℕ → ℕ → ℕ

abbrev pub write_entry : (ℕ → ℕ → ℕ) → ℕ → ℕ → ℕ → ℕ → ℕ → ℕ
write_entry entries b i x b' i' = if b' == b && i' == i then x else entries b' i'

-- wr_blk of a block of zeros
abbrev pub zero_block : (ℕ → ℕ → ℕ) → ℕ → ℕ → ℕ → ℕ
zero_block entries b b' i' = if b' == b then 0 else entries b' i'

-- `if (!b) { if (!alloc) return 0; b = alloc_block(prefer_group); if (!b) return 0; ... }`: a block
-- number that is 0 is replaced by a fresh one, if `alloc` says so.
pub obtain : (b : ℕ) → (alloc : Bool) → (prefer : ℕ) → Disk → ℕ × Disk
obtain b alloc prefer d =
    if b == 0
    then (if alloc
        then (
          (alloc_block prefer d.volume).0,
          record d { volume = (alloc_block prefer d.volume).1 },
        )
        else (0, d))
    else (b, d)

-- The same for a table, which starts out as zeros.
pub obtain_table : (b : ℕ) → (alloc : Bool) → (prefer : ℕ) → Disk → ℕ × Disk
obtain_table b alloc prefer d =
    let (t, e) = obtain b alloc prefer d in
    if b == 0 && not (t == 0) then (t, record e { entries = zero_block e.entries t }) else (t, e)

-- The entry `i` of the table `t`: `if (!b) { ... e[i] = b; wr_blk(tbl, buf); }`
pub obtain_entry : (t i : ℕ) → (alloc : Bool) → (prefer : ℕ) → Disk → ℕ × Disk
obtain_entry t i alloc prefer d =
    let (b, e) = obtain (d.entries t i) alloc prefer d in
    if d.entries t i == 0 && not (b == 0)
    then (b, record e { entries = write_entry e.entries t i b })
    else (b, e)

-- The entry as before, but a table itself.
pub obtain_subtable : (t i : ℕ) → (alloc : Bool) → (prefer : ℕ) → Disk → ℕ × Disk
obtain_subtable t i alloc prefer d =
    let (b, e) = obtain_table (d.entries t i) alloc prefer d in
    if d.entries t i == 0 && not (b == 0)
    then (b, record e { entries = write_entry e.entries t i b })
    else (b, e)

pub get_direct : (index : ℕ) → Bool → (prefer : ℕ) → Inode → Disk → ℕ × Inode × Disk
get_direct index alloc prefer inode d =
    let (b, e) = obtain (inode.direct index) alloc prefer d in
    (b, record inode { direct = update inode.direct index b }, e)

pub get_single : (index : ℕ) → Bool → (prefer : ℕ) → Inode → Disk → ℕ × Inode × Disk
get_single index alloc prefer inode d =
    let (t, e) = obtain_table inode.single_indirect alloc prefer d in
    let inode' = record inode { single_indirect = t } in
    let (b, f) = obtain_entry t index alloc prefer e in
    if t == 0 then (0, inode', e) else (b, inode', f)

pub get_double : (index : ℕ) → Bool → (prefer : ℕ) → Inode → Disk → ℕ × Inode × Disk
get_double index alloc prefer inode d =
    let (t, e) = obtain_table inode.double_indirect alloc prefer d in
    let inode' = record inode { double_indirect = t } in
    let (s, f) = obtain_subtable t (index / indirect_per) alloc prefer e in
    let (b, g) = obtain_entry s (index % indirect_per) alloc prefer f in
    if t == 0 then (0, inode', e) else if s == 0 then (0, inode', f) else (b, inode', g)

-- inode_get_block: the number of the block that holds the file's block `index`, or 0.
pub inode_get_block : (index : ℕ) → Bool → (prefer : ℕ) → Inode → Disk → ℕ × Inode × Disk
inode_get_block index alloc prefer inode d =
    if ltb index direct_blocks
    then get_direct index alloc prefer inode d
    else if ltb (index - direct_blocks) indirect_per
    then get_single (index - direct_blocks) alloc prefer inode d
    else if ltb (index - direct_blocks - indirect_per) (indirect_per * indirect_per)
    then get_double (index - direct_blocks - indirect_per) alloc prefer inode d
    else (0, inode, d)

-- for (i = 0; i < YFS_INDIRECT_PER; i++) if (e[i]) bset(e[i], false): `table` is the buffer.
pub free_listed : (rounds i : ℕ) → (ℕ → ℕ) → Volume → Volume
free_listed zero i table v = v
free_listed (suc n) i table v =
    free_listed n (i + 1) table (if table i == 0 then v else bset (table i) false v)

-- the loop of free_indirect_tree over the subtrees, each freed by `free`
pub each_subtree : (rounds i : ℕ) → (ℕ → Volume → Volume) → (ℕ → ℕ) → Volume → Volume
each_subtree zero i free table v = v
each_subtree (suc n) i free table v =
    each_subtree n (i + 1) free table (if table i == 0 then v else free (table i) v)

-- free_indirect_tree at depth `suc depth`. It writes no block of the disk.
pub free_indirect_tree : (depth : ℕ) → (ℕ → ℕ → ℕ) → ℕ → Volume → Volume
free_indirect_tree zero entries tbl v =
    if tbl == 0 then v else bset tbl false (free_listed indirect_per 0 (entries tbl) v)
free_indirect_tree (suc depth) entries tbl v =
    let freed =
      bset tbl false
        (each_subtree indirect_per 0 (free_indirect_tree depth entries) (entries tbl) v) in
    if tbl == 0 then v else freed

-- for (i = from; i < YFS_DIRECT; i++) if (in->direct[i]) { bset(...); in->direct[i] = 0; }
pub clear_direct : (rounds i : ℕ) → (ℕ → ℕ) × Volume → (ℕ → ℕ) × Volume
clear_direct zero i (direct, v) = (direct, v)
clear_direct (suc n) i (direct, v) =
    clear_direct n (i + 1)
      (if direct i == 0 then (direct, v) else (update direct i 0, bset (direct i) false v))

-- for (i = hi; i < YFS_INDIRECT_PER; i++) if (e[i]) { bset(e[i], false); e[i] = 0; }
pub clear_table : (rounds i : ℕ) → (ℕ → ℕ) × Volume → (ℕ → ℕ) × Volume
clear_table zero i (table, v) = (table, v)
clear_table (suc n) i (table, v) =
    clear_table n (i + 1)
      (if table i == 0 then (table, v) else (update table i 0, bset (table i) false v))

-- wr_blk of a table
abbrev pub write_table : (ℕ → ℕ → ℕ) → ℕ → (ℕ → ℕ) → ℕ → ℕ → ℕ
write_table entries b table b' i' = if b' == b then table i' else entries b' i'

-- the part of truncate_blocks about the direct blocks
pub truncate_direct : (nblocks : ℕ) → Inode → Disk → Inode × Disk
truncate_direct nblocks inode d =
    let (direct, v) = clear_direct (direct_blocks - nblocks) nblocks (inode.direct, d.volume) in
    (record inode { direct = direct }, record d { volume = v })

-- the part about the single indirect table
pub truncate_single : (nblocks : ℕ) → Inode → Disk → Inode × Disk
truncate_single nblocks inode d =
    let tbl = inode.single_indirect in
    let freed : Inode × Disk = (
      record inode { single_indirect = 0 },
      record d { volume = free_indirect_tree 0 d.entries tbl d.volume },
    ) in
    let hi = nblocks - direct_blocks in
    let (table, v) = clear_table (indirect_per - hi) hi (d.entries tbl, d.volume) in
    if tbl == 0
    then (inode, d)
    else if leb nblocks direct_blocks
    then freed
    else if leb indirect_per hi
    then freed
    else (inode, record d { volume = v; entries = write_table d.entries tbl table })

-- the part about the deeper tables
pub truncate_deep : (nblocks : ℕ) → Inode → Disk → Inode × Disk
truncate_deep nblocks inode d =
    let drop = not (inode.double_indirect == 0) && leb nblocks (direct_blocks + indirect_per) in
    let v =
      if drop then free_indirect_tree 1 d.entries inode.double_indirect d.volume else d.volume in
    let w =
      if inode.triple_indirect == 0
      then v
      else free_indirect_tree 2 d.entries inode.triple_indirect v in
    (
      record inode {
        double_indirect = if drop then 0 else inode.double_indirect;
        triple_indirect = 0;
        blocks_count = nblocks;
      },
      record d { volume = w },
    )

pub truncate_blocks : (nblocks : ℕ) → Inode → Disk → Inode × Disk
truncate_blocks nblocks inode d =
    let (i₁, d₁) = truncate_direct nblocks inode d in
    let (i₂, d₂) = truncate_single nblocks i₁ d₁ in truncate_deep nblocks i₂ d₂

-- free_all_blocks: every block and table that the inode owns
pub free_all_blocks : Inode → Disk → Inode × Disk
free_all_blocks inode d =
    let (direct, v) = clear_direct direct_blocks 0 (inode.direct, d.volume) in
    let v₁ = free_indirect_tree 0 d.entries inode.single_indirect v in
    let v₂ = free_indirect_tree 1 d.entries inode.double_indirect v₁ in
    let v₃ = free_indirect_tree 2 d.entries inode.triple_indirect v₂ in
    (
      record inode {
        direct = direct;
        single_indirect = 0;
        double_indirect = 0;
        triple_indirect = 0;
        blocks_count = 0;
      },
      record d { volume = v₃ },
    )
