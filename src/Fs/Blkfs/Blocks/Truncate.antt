-- ===== src/Fs/Blkfs/Blocks/Truncate.antt =====
-- truncate_blocks of kernel/fs/blkfs.c: what is left of a file's block map.
use yart_os.Prelude.{
  ℕ, zero, suc, ◌+◌, ◌-◌, ◌≤◌, ◌<◌, ◌≡◌, refl, sym, ap, ◌∙◌, false, ◌&&◌, ◌||◌, if◌then◌else◌, ltb,
  leb, ◌==◌, update, arith, Bool-cases, inl, inr,
}
use native.Mathlib.Decide.{dec_lt}
use yart_os.Fs.Blkfs.Space.{Volume, bset}
use yart_os.Fs.Blkfs.Blocks.{
  Inode, Disk, direct_blocks, indirect_per, clear_direct, clear_table, truncate_direct,
  truncate_single, truncate_deep, truncate_blocks, inode_get_block,
}
use yart_os.Fs.Blkfs.Blocks.Mapping.{block_of, entry_of, inode_get_block-eq-block_of}

-- The loops put 0 at the places from `i` on and leave the others.
clear_direct-at :
    (n i j : ℕ) (direct : ℕ → ℕ) (v : Volume)
    → (clear_direct n i (direct, v)).0 j ≡ (if leb i j && ltb j (i + n) then 0 else direct j)
unfolding clear_direct
clear_direct-at zero i j direct v = ground arith
clear_direct-at (suc n) i j direct v = elim (Bool-cases (direct i == 0)) [
  | inl z ↦ rw (z, clear_direct) (ground (arith, clear_direct-at n (i + 1) j direct v))
  | inr z ↦
      rw (z, clear_direct)
        (ground (arith, clear_direct-at n (i + 1) j (update direct i 0) (bset (direct i) false v)))
]

clear_table-at :
    (n i j : ℕ) (table : ℕ → ℕ) (v : Volume)
    → (clear_table n i (table, v)).0 j ≡ (if leb i j && ltb j (i + n) then 0 else table j)
unfolding clear_table
clear_table-at zero i j table v = ground arith
clear_table-at (suc n) i j table v = elim (Bool-cases (table i == 0)) [
  | inl z ↦ rw (z, clear_table) (ground (arith, clear_table-at n (i + 1) j table v))
  | inr z ↦
      rw (z, clear_table)
        (ground (arith, clear_table-at n (i + 1) j (update table i 0) (bset (table i) false v)))
]

truncate_direct-at :
    (n : ℕ) (inode : Inode) (d : Disk)
    → let (i, e) = truncate_direct n inode d in
      ((j : ℕ) → j < direct_blocks → i.direct j ≡ (if leb n j then 0 else inode.direct j))
      × (i.single_indirect ≡ inode.single_indirect)
      × (i.double_indirect ≡ inode.double_indirect)
      × (e.entries ≡ d.entries)
unfolding truncate_direct
truncate_direct-at n inode d = (
  (λ j h. ground (arith, clear_direct-at (direct_blocks - n) n j inode.direct d.volume)),
  refl,
  refl,
  refl,
)

-- What truncate_single does to the first table: below its size the entries from `n - 12` on go, and
-- from its size on all of them.
truncate_single-at :
    (n : ℕ) (inode : Inode) (d : Disk)
    → let (i, e) = truncate_single n inode d in
      ((j : ℕ)
        → j < indirect_per
        → entry_of e.entries i.single_indirect j ≡ (
            if leb (direct_blocks + indirect_per) n || leb n (direct_blocks + j)
            then 0
            else entry_of d.entries inode.single_indirect j))
      × (i.direct ≡ inode.direct)
      × (i.double_indirect ≡ inode.double_indirect)
unfolding truncate_single
truncate_single-at n inode d =
    let hi = n - direct_blocks in
    let tbl = inode.single_indirect in
    (
      (λ j h. ground (arith, clear_table-at (indirect_per - hi) hi j (d.entries tbl) d.volume)),
      ground arith,
      ground arith,
    )

truncate_deep-at :
    (n : ℕ) (inode : Inode) (d : Disk)
    → let (i, e) = truncate_deep n inode d in
      (i.direct ≡ inode.direct)
      × (i.single_indirect ≡ inode.single_indirect)
      × (n ≤ direct_blocks + indirect_per → i.double_indirect ≡ 0)
      × (e.entries ≡ d.entries)
unfolding truncate_deep
truncate_deep-at n inode d = (refl, refl, (λ h. ground arith), refl)

block_of_deep :
    (index : ℕ) (inode : Inode) (entries : ℕ → ℕ → ℕ)
    → direct_blocks + indirect_per ≤ index
    → inode.double_indirect ≡ 0
    → block_of inode entries index ≡ 0
block_of_deep index inode entries h z = ground arith

block_of_cases :
    (n index : ℕ) (inode i : Inode) (entries entries' : ℕ → ℕ → ℕ)
    → index < direct_blocks + indirect_per
    → (index < direct_blocks → i.direct index ≡ (if leb n index then 0 else inode.direct index))
    → (direct_blocks ≤ index
        → entry_of entries' i.single_indirect (index - direct_blocks) ≡ (
            if leb (direct_blocks + indirect_per) n || leb n index
            then 0
            else entry_of entries inode.single_indirect (index - direct_blocks)))
    → block_of i entries' index ≡ (
        if leb n index || (leb direct_blocks index && leb (direct_blocks + indirect_per) n)
        then 0
        else block_of inode entries index)
block_of_cases n index inode i entries entries' h a b = ground arith

-- The three parts together, on the map of the file's blocks.
truncate_blocks-block_of :
    (n index : ℕ) (inode : Inode) (d : Disk)
    → let (i, e) = truncate_blocks n inode d in
      (index < direct_blocks + indirect_per
        → block_of i e.entries index ≡ (
            if leb n index || (leb direct_blocks index && leb (direct_blocks + indirect_per) n)
            then 0
            else block_of inode d.entries index))
      × (n ≤ direct_blocks + indirect_per
          → direct_blocks + indirect_per ≤ index
          → block_of i e.entries index ≡ 0)
unfolding truncate_blocks
truncate_blocks-block_of n index inode d =
    let i₁ = (truncate_direct n inode d).0 in
    let d₁ = (truncate_direct n inode d).1 in
    let i₂ = (truncate_single n i₁ d₁).0 in
    let d₂ = (truncate_single n i₁ d₁).1 in
    let i₃ = (truncate_deep n i₂ d₂).0 in
    let d₃ = (truncate_deep n i₂ d₂).1 in
    let (a, b, _, e) = truncate_direct-at n inode d in
    let (s, f, _) = truncate_single-at n i₁ d₁ in
    let (g, t, w, u) = truncate_deep-at n i₂ d₂ in
    let j = index - direct_blocks in
    let direct : i₃.direct index ≡ i₁.direct index = ap (λ h. h index) (g ∙ f) in
    let last : entry_of d₃.entries i₃.single_indirect j ≡ entry_of d₂.entries i₂.single_indirect j =
      rw (t, u) in
    let first : entry_of d₁.entries i₁.single_indirect j
        ≡ entry_of d.entries inode.single_indirect j =
      rw (b, e) in
    (
      (λ h.
          block_of_cases n index inode i₃ d.entries d₃.entries h (λ k. direct ∙ a index k)
            (λ k.
              last
              ∙ s j (omega arith)
              ∙ (let z : direct_blocks + j ≡ index = omega arith in rw (z, first)))),
      λ h k. block_of_deep index i₃ d₃.entries k (w h),
    )

module _ (n index x : ℕ) where
  abbrev left : ℕ
  left =
      if leb n index || (leb direct_blocks index && leb (direct_blocks + indirect_per) n)
      then 0
      else x

  kept : n < direct_blocks + indirect_per → index < n → left ≡ x
  kept h k = ground arith

  gone : n ≤ index → left ≡ 0
  gone k = ground arith

  lost : direct_blocks + indirect_per ≤ n → direct_blocks ≤ index → left ≡ 0
  lost h k = ground arith

-- Shrinking a file to fewer than 1036 blocks keeps the blocks below the new size where they are,
-- and maps no block at or beyond it.
pub truncate_blocks-inode_get_block :
    (n index p : ℕ) (inode : Inode) (d : Disk)
    → n < direct_blocks + indirect_per
    → let (i, e) = truncate_blocks n inode d in
      (inode_get_block index false p i e).0
      ≡ (if ltb index n then (inode_get_block index false p inode d).0 else 0)
truncate_blocks-inode_get_block n index p inode d h =
    let (i, e) = truncate_blocks n inode d in
    let (near, far) = truncate_blocks-block_of n index inode d in
    let after = inode_get_block-eq-block_of index p i e in
    let before = inode_get_block-eq-block_of index p inode d in
    elim (dec_lt index n) [
      | yes k ↦
          after
          ∙ near (omega arith)
          ∙ kept n index (block_of inode d.entries index) h k
          ∙ sym before
          ∙ ground arith
      | no k ↦ elim (dec_lt index (direct_blocks + indirect_per)) [
        | yes l ↦
            after
            ∙ near l
            ∙ gone n index (block_of inode d.entries index) (omega arith)
            ∙ ground arith
        | no l ↦ after ∙ far (omega arith) (omega arith) ∙ ground arith
      ]
    ]

-- Shrinking a file to 1036 blocks or more drops the first table whole: the file's blocks from 12 to
-- 1035, which are below the new size, are no longer mapped.
pub truncate_blocks-loses :
    (n index p : ℕ) (inode : Inode) (d : Disk)
    → direct_blocks + indirect_per ≤ n
    → direct_blocks ≤ index
    → index < direct_blocks + indirect_per
    → let (i, e) = truncate_blocks n inode d in
      (index < n) × ((inode_get_block index false p i e).0 ≡ 0)
truncate_blocks-loses n index p inode d h lo hi =
    let (i, e) = truncate_blocks n inode d in
    let (near, far) = truncate_blocks-block_of n index inode d in
    (
      omega arith,
      inode_get_block-eq-block_of index p i e
          ∙ near hi
          ∙ lost n index (block_of inode d.entries index) h lo,
    )
