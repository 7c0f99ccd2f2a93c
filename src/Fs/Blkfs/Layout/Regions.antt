-- ===== src/Fs/Blkfs/Layout/Regions.antt =====
-- Where compute_layout of kernel/fs/blkfs.c puts the regions of a volume, and when they overlap.
use yart_os.Prelude.{ℕ, ◌+◌, ◌-◌, ◌*◌, ◌≤◌, ◌<◌, ◌≡◌, ◌∙◌, some, u32_mod, arith, min}
use yart_os.Fs.Blkfs.Layout.Closed.{
  IsLaidOut, groups_of, compute_layout-IsLaidOut, place-IsLaidOut, past_guards, fill-ok, fill-some,
  span_end_of-min,
}
use yart_os.Fs.Blkfs.Layout.{
  GroupDesc, Layout, group_desc, span_of, span_end_of, place, finish, compute_layout,
  journal_blocks, blocks_per_group, meta_per_group, max_groups, no_desc, clamp,
}

-- the descriptor of group `k`, field by field
pub record IsDesc (j crc k : ℕ) (d : GroupDesc) : Type 0 where
  pub block_bitmap : d.block_bitmap ≡ span_of k
  pub inode_bitmap : d.inode_bitmap ≡ span_of k + 1
  pub inode_table : d.inode_table ≡ span_of k + 2
  pub data_start : d.data_start ≡ span_of k + meta_per_group
  pub data_end : d.data_end ≡ min (min j (span_of k + blocks_per_group)) crc

clamp-IsDesc : (n j crc k : ℕ) → k < n → IsDesc j crc k (clamp n crc (λ g. group_desc j g) k)
clamp-IsDesc n j crc k h = record {
  block_bitmap = ground arith;
  inode_bitmap = ground arith;
  inode_table = ground arith;
  data_start = ground arith;
  data_end = ground arith;
}

pub desc-IsDesc :
    (total : ℕ) (l : Layout) (k : ℕ)
    → IsLaidOut total l
    → k < groups_of total
    → IsDesc (total - journal_blocks) l.crc_start k (l.desc k)
desc-IsDesc total l k v h =
    rw (v.desc k h) (clamp-IsDesc (groups_of total) (total - journal_blocks) l.crc_start k h)

-- The regions of a volume in their order on the disk: in each group the two bitmaps, the inode table
-- of 32 blocks and the data; then the CRC region, then the journal, which ends the disk. No region
-- reaches into the next one.
pub record RegionsApart (total : ℕ) (l : Layout) : Type 0 where
  pub first : (l.desc 0).block_bitmap ≡ 2
  pub tables :
      (k : ℕ)
      → k < l.total_groups
      → ((l.desc k).inode_bitmap ≡ (l.desc k).block_bitmap + 1)
        × ((l.desc k).inode_table ≡ (l.desc k).inode_bitmap + 1)
        × ((l.desc k).data_start ≡ (l.desc k).inode_table + 32)
  pub blocks :
      (k : ℕ)
      → k < l.total_groups
      → ((l.desc k).data_start < (l.desc k).data_end) × ((l.desc k).data_end ≤ l.crc_start)
  pub next : (k : ℕ) → k + 1 < l.total_groups → (l.desc k).data_end ≤ (l.desc (k + 1)).block_bitmap
  pub tail : (l.crc_start ≤ l.journal_start) × (l.journal_start + journal_blocks ≡ total)

-- Where the last group has room for at least 254 data blocks, the layout that compute_layout gives
-- has, in this order and with no overlap, the superblocks and for each group its two bitmaps, its
-- inode table and its data, of at least one block, then the CRC region, and a journal that ends where
-- the disk does.
pub compute_layout-RegionsApart :
    (total : ℕ) (l : Layout)
    → total < u32_mod
    → compute_layout total ≡ some l
    → span_of (l.total_groups - 1) + meta_per_group + 254 + journal_blocks ≤ total
    → RegionsApart total l
compute_layout-RegionsApart total l h e room =
    let (v, _) = compute_layout-IsLaidOut total l h e in
    let g = v.groups in
    record {
      first = (desc-IsDesc total l 0 v v.few.0).block_bitmap;
      tables = λ k x. omega (arith, desc-IsDesc total l k v (omega (arith, g)));
      blocks = λ k x. omega (
        arith,
        desc-IsDesc total l k v (omega (arith, g)),
        v.crc,
        v.room k (omega (arith, g)),
        v.few,
        v.large,
        g,
      );
      next = λ k x. omega (
        arith,
        desc-IsDesc total l k v (omega (arith, g)),
        desc-IsDesc total l (k + 1) v (omega (arith, g)),
      );
      tail = omega (arith, v.crc, v.journal, v.large);
    }

room_at :
    (g r k : ℕ)
    → 1 ≤ r
    → k ≤ g
    → span_of k + meta_per_group < span_end_of (blocks_per_group * g + 100 + r - journal_blocks) k
room_at g r k c h =
    omega (arith, span_end_of-min (blocks_per_group * g + 100 + r - journal_blocks) k)

finish-ok : (l : Layout) → (l.desc 0).data_start < l.crc_start → finish l ≡ some l
unfolding finish
finish-ok l h = ground arith

-- For each number of groups from 2 to 64 there are three disk sizes at which compute_layout succeeds
-- and the CRC region, from `crc_start` to `journal_start`, holds the last block of the inode table of
-- the last group, whose data then ends before it starts.
pub compute_layout-overlap :
    (g r : ℕ)
    → 1 ≤ g
    → g < max_groups
    → 1 ≤ r
    → r ≤ 3
    → (l : Layout) × (compute_layout (blocks_per_group * g + 100 + r) ≡ some l)
      × (l.crc_start < (l.desc g).inode_table + 32)
      × ((l.desc g).inode_table + 32 ≤ l.journal_start)
      × ((l.desc g).data_end < (l.desc g).data_start)
compute_layout-overlap g r a b c d =
    let total = blocks_per_group * g + 100 + r in
    let n : groups_of total ≡ g + 1 = omega arith in
    let room =
      λ (k : ℕ) (lo : 0 ≤ k) (hi : k < 0 + groups_of total). room_at g r k c (omega arith) in
    let (desc, f) = fill-ok (groups_of total) 0 (total - journal_blocks) no_desc room in
    let (at, _) = fill-some (groups_of total) 0 (total - journal_blocks) no_desc desc f in
    let v : IsLaidOut total (place total (groups_of total) desc) =
      place-IsLaidOut total desc (omega arith) (omega arith) (record {
        at = λ k x. (at k (omega arith) (omega arith)).0;
        room = λ k x. (at k (omega arith) (omega arith)).1;
        low = omega arith;
        high = omega arith;
      }) in
    let l = place total (groups_of total) desc in
    let i = desc-IsDesc total l g v (omega arith) in
    (
      l,
      past_guards total (omega arith) (omega arith) desc f
          ∙ finish-ok l (omega (arith, desc-IsDesc total l 0 v (omega arith), v.crc, n)),
      omega (arith, i, v.crc, n),
      omega (arith, i, v.journal),
      omega (arith, i, v.crc, n),
    )
