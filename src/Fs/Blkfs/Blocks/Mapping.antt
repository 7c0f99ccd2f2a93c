-- ===== src/Fs/Blkfs/Blocks/Mapping.antt =====
-- inode_get_block of kernel/fs/blkfs.c as a map from a file's blocks to the volume's.
use yart_os.Prelude.{
  ℕ, ◌-◌, ◌*◌, ◌/◌, ◌%◌, ◌≡◌, ◌≢◌, refl, ◌∙◌, true, false, if◌then◌else◌, ltb, ◌==◌, arith,
  Bool-cases, inl, inr,
}
use yart_os.Fs.Blkfs.Blocks.{
  Inode, Disk, direct_blocks, indirect_per, obtain, obtain_table, obtain_entry, obtain_subtable,
  get_direct, get_single, get_double, inode_get_block,
}

-- An entry of a table; the table 0 is no table.
abbrev pub entry_of : (ℕ → ℕ → ℕ) → ℕ → ℕ → ℕ
entry_of entries t i = if t == 0 then 0 else entries t i

-- The block of a file, read off the inode and its tables.
abbrev pub block_of : Inode → (ℕ → ℕ → ℕ) → ℕ → ℕ
block_of inode entries index =
    if ltb index direct_blocks
    then inode.direct index
    else if ltb (index - direct_blocks) indirect_per
    then entry_of entries inode.single_indirect (index - direct_blocks)
    else if ltb (index - direct_blocks - indirect_per) (indirect_per * indirect_per)
    then entry_of entries
        (entry_of entries inode.double_indirect
          ((index - direct_blocks - indirect_per) / indirect_per))
        ((index - direct_blocks - indirect_per) % indirect_per)
    else 0

obtain-false : (b p : ℕ) (d : Disk) → obtain b false p d ≡ (b, d)
unfolding obtain
obtain-false b p d = ground arith

obtain_table-false : (b p : ℕ) (d : Disk) → obtain_table b false p d ≡ (b, d)
unfolding obtain_table
obtain_table-false b p d = rw (obtain-false b p d) (ground arith)

obtain_entry-false : (t i p : ℕ) (d : Disk) → obtain_entry t i false p d ≡ (d.entries t i, d)
unfolding obtain_entry
obtain_entry-false t i p d = rw (obtain-false (d.entries t i) p d) (ground arith)

obtain_subtable-false : (t i p : ℕ) (d : Disk) → obtain_subtable t i false p d ≡ (d.entries t i, d)
unfolding obtain_subtable
obtain_subtable-false t i p d = rw (obtain_table-false (d.entries t i) p d) (ground arith)

get_direct-false :
    (index p : ℕ) (inode : Inode) (d : Disk)
    → (get_direct index false p inode d).0 ≡ inode.direct index
unfolding get_direct
get_direct-false index p inode d = rw (obtain-false (inode.direct index) p d)

get_single-false :
    (index p : ℕ) (inode : Inode) (d : Disk)
    → (get_single index false p inode d).0 ≡ entry_of d.entries inode.single_indirect index
unfolding get_single
get_single-false index p inode d =
    rw
      (
        obtain_table-false inode.single_indirect p d,
        obtain_entry-false inode.single_indirect index p d,
      )
      (ground arith)

get_double-false :
    (index p : ℕ) (inode : Inode) (d : Disk)
    → (get_double index false p inode d).0
      ≡ entry_of d.entries
          (entry_of d.entries inode.double_indirect (index / indirect_per))
          (index % indirect_per)
unfolding get_double
get_double-false index p inode d =
    let t = inode.double_indirect in
    let s = d.entries t (index / indirect_per) in
    rw
      (
        obtain_table-false t p d,
        obtain_subtable-false t (index / indirect_per) p d,
        obtain_entry-false s (index % indirect_per) p d,
      )
      (ground arith)

-- Without `alloc`, inode_get_block returns the block that the inode and its tables name.
pub inode_get_block-eq-block_of :
    (index p : ℕ) (inode : Inode) (d : Disk)
    → (inode_get_block index false p inode d).0 ≡ block_of inode d.entries index
unfolding inode_get_block
inode_get_block-eq-block_of index p inode d = ground (
  arith,
  get_direct-false index p inode d,
  get_single-false (index - direct_blocks) p inode d,
  get_double-false (index - direct_blocks - indirect_per) p inode d,
)

obtain_entry-entry :
    (t i p : ℕ) (d : Disk) → let (b, e) = obtain_entry t i true p d in b ≢ 0 → e.entries t i ≡ b
unfolding obtain_entry obtain
obtain_entry-entry t i p d ne = ground arith

-- An entry that is taken is not written again.
obtain_entry-keeps :
    (t i p t' i' : ℕ) (d : Disk)
    → d.entries t' i' ≢ 0
    → (obtain_entry t i true p d).1.entries t' i' ≡ d.entries t' i'
unfolding obtain_entry obtain
obtain_entry-keeps t i p t' i' d ne = ground arith

obtain_subtable-entry :
    (t i p : ℕ) (d : Disk) → let (b, e) = obtain_subtable t i true p d in b ≢ 0 → e.entries t i ≡ b
unfolding obtain_subtable obtain_table obtain
obtain_subtable-entry t i p d ne = ground arith

get_direct-again :
    (index p : ℕ) (inode : Inode) (d : Disk)
    → let (b, i, e) = get_direct index true p inode d in i.direct index ≡ b
unfolding get_direct
get_direct-again index p inode d = ground arith

get_single-again :
    (index p : ℕ) (inode : Inode) (d : Disk)
    → let (b, i, e) = get_single index true p inode d in
      b ≢ 0 → entry_of e.entries i.single_indirect index ≡ b
unfolding get_single
get_single-again index p inode d ne =
    let (t, e) = obtain_table inode.single_indirect true p d in
    ground (arith, obtain_entry-entry t index p e)

get_double-again :
    (index p : ℕ) (inode : Inode) (d : Disk)
    → let (b, i, e) = get_double index true p inode d in
      b ≢ 0
      → entry_of e.entries
          (entry_of e.entries i.double_indirect (index / indirect_per))
          (index % indirect_per)
        ≡ b
unfolding get_double
get_double-again index p inode d ne =
    let (t, e) = obtain_table inode.double_indirect true p d in
    let q = index / indirect_per in
    let r = index % indirect_per in
    let (s, f) = obtain_subtable t q true p e in
    ground (
      arith,
      obtain_subtable-entry t q p e,
      obtain_entry-entry s r p f,
      obtain_entry-keeps s r p t q f,
    )

block_of-again :
    (index p : ℕ) (inode : Inode) (d : Disk)
    → let (b, i, e) = inode_get_block index true p inode d in b ≢ 0 → block_of i e.entries index ≡ b
unfolding inode_get_block
block_of-again index p inode d = elim (Bool-cases (ltb index direct_blocks)) [
  | inl t ↦ rw (t, inode_get_block) (λ ne. get_direct-again index p inode d)
  | inr t ↦ elim (Bool-cases (ltb (index - direct_blocks) indirect_per)) [
    | inl u ↦ rw (t, u, inode_get_block) (get_single-again (index - direct_blocks) p inode d)
    | inr u ↦
        elim (Bool-cases
          (ltb (index - direct_blocks - indirect_per) (indirect_per * indirect_per))) [
            | inl w ↦
                rw (t, u, w, inode_get_block)
                  (get_double-again (index - direct_blocks - indirect_per) p inode d)
            | inr w ↦ rw (t, u, w, inode_get_block) (λ ne. absurd (ne refl))
          ]
  ]
]

-- When inode_get_block with `alloc` returns a block, looking the same index up afterwards gives that
-- block, at each of the three levels.
pub inode_get_block-again :
    (index p q : ℕ) (inode : Inode) (d : Disk)
    → (inode_get_block index true p inode d).0 ≢ 0
    → let (b, i, e) = inode_get_block index true p inode d in
      (inode_get_block index false q i e).0 ≡ b
inode_get_block-again index p q inode d ne =
    let (b, i, e) = inode_get_block index true p inode d in
    inode_get_block-eq-block_of index q i e ∙ block_of-again index p inode d ne
