-- ===== src/Fs/Blkfs/Layout/CrcIndex.antt =====
-- data_index of kernel/fs/blkfs.c: the slot of a data block's CRC.
use yart_os.Prelude.{
  ℕ, zero, suc, ◌+◌, ◌-◌, ◌*◌, ◌^◌, ◌≤◌, ◌<◌, ◌≡◌, false, ◌&&◌, some, ltb, leb, u32_mod, add32,
  arith,
}
use yart_os.Fs.Blkfs.Layout.{
  Layout, span_of, compute_layout, data_blocks, journal_blocks, blocks_per_group, meta_per_group,
  index_loop, data_index, crc_block, crc_offset,
}
use yart_os.Fs.Blkfs.Layout.Closed.{IsLaidOut, data_total_of, compute_layout-IsLaidOut}
use yart_os.Fs.Blkfs.Layout.Regions.{desc-IsDesc}
use native.Mathlib.Decide.{dec_lt}

-- `blk` is a data block of group `k`.
pub record InGroup (l : Layout) (k blk : ℕ) : Type 0 where
  pub group : k < l.total_groups
  pub lower : (l.desc k).data_start ≤ blk
  pub upper : blk < (l.desc k).data_end

-- The room that the last group needs for the regions to be apart.
abbrev pub HasTail : ℕ → Layout → Type 0
HasTail total l = span_of (l.total_groups - 1) + meta_per_group + 254 + journal_blocks ≤ total

-- Each group but the last has 4062 data blocks.
abbrev full : ℕ
full = blocks_per_group - meta_per_group

full_group :
    (total k : ℕ) (l : Layout)
    → IsLaidOut total l
    → HasTail total l
    → k + 1 < l.total_groups
    → data_blocks (l.desc k) ≡ full
full_group total k l v room h =
    omega
      (arith, desc-IsDesc total l k v (omega (arith, v.groups)), v.crc, v.groups, v.few, v.large)

data_end-lt :
    (total k : ℕ) (l : Layout)
    → IsLaidOut total l
    → k < l.total_groups
    → (l.desc k).data_end < 2 ^ 19
data_end-lt total k l v h =
    omega (arith, desc-IsDesc total l k v (omega (arith, v.groups)), v.few, v.large, v.groups)

past :
    (total g k blk : ℕ) (l : Layout)
    → IsLaidOut total l
    → InGroup l k blk
    → g < k
    → (l.desc g).data_end ≤ blk
past total g k blk l v i h = omega (
  arith,
  desc-IsDesc total l g v (omega (arith, i.group, v.groups)),
  desc-IsDesc total l k v (omega (arith, i.group, v.groups)),
  i.lower,
)

index_loop-closed :
    (n g k blk total : ℕ) (l : Layout)
    → IsLaidOut total l
    → HasTail total l
    → InGroup l k blk
    → g + n ≡ l.total_groups
    → g ≤ k
    → index_loop n g (full * g) blk l.desc ≡ full * k + (blk - (l.desc k).data_start)
unfolding index_loop
index_loop-closed zero g k blk total l v room i e le = absurd (omega (arith, i.group))
index_loop-closed (suc n) g k blk total l v room i e le = elim (dec_lt g k) [
  | yes before ↦
      let di = desc-IsDesc total l g v (omega (arith, i.group, v.groups)) in
      let dk = desc-IsDesc total l k v (omega (arith, i.group, v.groups)) in
      let miss : (leb (l.desc g).data_start blk && ltb blk (l.desc g).data_end) ≡ false =
        ground (arith, past total g k blk l v i before) in
      let step : add32 (full * g) (data_blocks (l.desc g)) ≡ full * (g + 1) =
        omega
          (arith, full_group total g l v room (omega (arith, i.group)), v.groups, v.few, i.group) in
      rw (miss, index_loop, step)
        (index_loop-closed n (g + 1) k blk total l v room i (omega arith) (omega arith))
  | no here ↦
      let z : g ≡ k = omega arith in
      rw z (ground (arith, i.lower, i.upper, i.group, v.groups, v.few, data_end-lt total k l v))
]

-- The slot of a data block: 4062 for each group before its own, and its place in its group.
data_index-closed :
    (total k blk : ℕ) (l : Layout)
    → IsLaidOut total l
    → HasTail total l
    → InGroup l k blk
    → data_index blk l ≡ full * k + (blk - (l.desc k).data_start)
unfolding data_index
data_index-closed total k blk l v room i =
    index_loop-closed l.total_groups 0 k blk total l v room i (omega arith) (omega arith)

-- A slot in numbers: it is below the number of data blocks, and it determines the block.
record IsSlot (total k blk idx : ℕ) : Type 0 where
  small : idx < data_total_of total
  width : data_total_of total < 2 ^ 18
  block : idx + 34 * k + 36 ≡ blk
  group : (full * k ≤ idx) × (idx < full * (k + 1))

data_index-IsSlot :
    (total k blk : ℕ) (l : Layout)
    → IsLaidOut total l
    → HasTail total l
    → InGroup l k blk
    → IsSlot total k blk (data_index blk l)
data_index-IsSlot total k blk l v room i =
    let d = desc-IsDesc total l k v (omega (arith, i.group, v.groups)) in
    let x = data_index-closed total k blk l v room i in
    record {
      small = omega (arith, d, x, i.lower, i.upper, i.group, v.groups, v.crc, v.few, v.large);
      width = omega (arith, v.few, v.large);
      block = omega (arith, d, x, i.lower);
      group = omega (arith, d, x, i.lower, i.upper);
    }

module _ (total : ℕ) (l : Layout) (h : total < u32_mod) (e : compute_layout total ≡ some l)
    (room : HasTail total l) where
  -- In a volume whose last group has room, the CRC of each data block has its place inside the CRC
  -- region, and four bytes fit there.
  pub crc_block-in_region :
      (k blk : ℕ)
      → InGroup l k blk
      → (l.crc_start ≤ crc_block (data_index blk l) l)
        × (crc_block (data_index blk l) l < l.journal_start)
        × (crc_offset (data_index blk l) + 4 ≤ 4096)
  unfolding crc_block crc_offset
  crc_block-in_region k blk i =
      let (v, _) = compute_layout-IsLaidOut total l h e in
      let x = data_index-IsSlot total k blk l v room i in
      omega (arith, x, v.crc, v.journal, v.few, v.large)

  -- In a volume whose last group has room, two data blocks have their CRCs in the same place only if they are one block.
  pub crc_block-injective :
      (k blk k' blk' : ℕ)
      → InGroup l k blk
      → InGroup l k' blk'
      → crc_block (data_index blk l) l ≡ crc_block (data_index blk' l) l
      → crc_offset (data_index blk l) ≡ crc_offset (data_index blk' l)
      → blk ≡ blk'
  unfolding crc_block crc_offset
  crc_block-injective k blk k' blk' i i' b o =
      let (v, _) = compute_layout-IsLaidOut total l h e in
      let x = data_index-IsSlot total k blk l v room i in
      let x' = data_index-IsSlot total k' blk' l v room i' in
      let same : data_index blk l ≡ data_index blk' l =
        omega (arith, x, x', v.crc, v.journal, v.few, v.large) in
      omega (arith, x, x', same)
