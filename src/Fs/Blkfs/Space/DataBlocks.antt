-- ===== src/Fs/Blkfs/Space/DataBlocks.antt =====
-- alloc_block of kernel/fs/blkfs.c and the block bitmaps.
use yart_os.Prelude.{
  ℕ, zero, suc, ◌+◌, ◌-◌, ◌%◌, ◌≤◌, ◌<◌, ◌≡◌, ◌≢◌, ap, ◌∙◌, Bool, true, false, ◌&&◌, none, some,
  if◌then◌else◌, ltb, leb, ◌==◌, u32_mod, arith, Bool-cases, Option-cases, inl, inr, ◌⊎◌, subst,
}
use yart_os.Fs.Blkfs.Layout.{GroupDesc, find_group, data_blocks}
use yart_os.Fs.Blkfs.Space.{
  Volume, bbit, bset, scan_blocks, scan_pass, find_block, alloc_block, update_bit,
}
use native.Mathlib.Decide.{dec_lt}

-- `blk` is a data block of group `g`.
pub record IsData (v : Volume) (g blk : ℕ) : Type 0 where
  pub group : g < v.total_groups
  pub lower : (v.desc g).data_start ≤ blk
  pub upper : blk < (v.desc g).data_end

-- There is a group; a group's data starts after block 0 and does not end before it starts; and no
-- block is in the data of two groups.
pub record IsSound (v : Volume) : Type 0 where
  pub some_group : 0 < v.total_groups
  pub few : v.total_groups ≤ 64
  pub starts : (g : ℕ) → g < v.total_groups → 0 < (v.desc g).data_start
  pub ends : (g : ℕ) → g < v.total_groups → (v.desc g).data_start ≤ (v.desc g).data_end
  pub width : (g : ℕ) → g < v.total_groups → (v.desc g).data_end < u32_mod
  pub apart : (g g' blk : ℕ) → IsData v g blk → IsData v g' blk → g ≡ g'

find_group-some :
    (n g blk r : ℕ) (desc : ℕ → GroupDesc)
    → find_group n g blk desc ≡ some r
    → (g ≤ r) × (r < g + n) × ((desc r).data_start ≤ blk) × (blk < (desc r).data_end)
unfolding find_group
find_group-some zero g blk r desc e = absurd (grind arith)
find_group-some (suc n) g blk r desc e =
    elim (Bool-cases (leb (desc g).data_start blk && ltb blk (desc g).data_end)) [
      | inl t ↦ ground arith
      | inr f ↦ ground (arith, find_group-some n (g + 1) blk r desc)
    ]

find_group-none :
    (n g blk k : ℕ) (desc : ℕ → GroupDesc)
    → find_group n g blk desc ≡ none
    → g ≤ k
    → k < g + n
    → (desc k).data_start ≤ blk
    → blk < (desc k).data_end
    → ⊥
unfolding find_group
find_group-none zero g blk k desc e a b c d = absurd (omega arith)
find_group-none (suc n) g blk k desc e a b c d =
    elim (Bool-cases (leb (desc g).data_start blk && ltb blk (desc g).data_end)) [
      | inl t ↦ ground arith
      | inr f ↦ elim (dec_lt g k) [
        | yes later ↦ ground (arith, find_group-none n (g + 1) blk k desc)
        | no here ↦ let z : g ≡ k = omega arith in ground (arith, z)
      ]
    ]

module _ (v : Volume) (ok : IsSound v) where
  -- The group that the code finds for a data block is the one that it lies in.
  find_group-IsData : (g blk : ℕ) → IsData v g blk → find_group v.total_groups 0 blk v.desc ≡ some g
  find_group-IsData g blk d = elim (Option-cases (find_group v.total_groups 0 blk v.desc)) [
    | inl e ↦ absurd (
        find_group-none v.total_groups 0 blk g v.desc e (omega arith) (omega (arith, d.group))
          d.lower d.upper)
    | inr (r, e) ↦
        let (a, b, lo, hi) = find_group-some v.total_groups 0 blk r v.desc e in
        e ∙ ap some (ok.apart r g blk (record { group = omega arith; lower = lo; upper = hi }) d)
  ]

  bbit-IsData :
      (g blk : ℕ) → IsData v g blk → bbit blk v ≡ v.bbitmap g (blk - (v.desc g).data_start)
  unfolding bbit
  bbit-IsData g blk d = rw (find_group-IsData g blk d, bbit)

  -- A block that is not used is a data block.
  IsData-of_free : (blk : ℕ) → bbit blk v ≡ false → (g : ℕ) × IsData v g blk
  unfolding bbit
  IsData-of_free blk f = elim (Option-cases (find_group v.total_groups 0 blk v.desc)) [
    | inl e ↦ ground (arith, e)
    | inr (r, e) ↦
        let (a, b, lo, hi) = find_group-some v.total_groups 0 blk r v.desc e in
        (r, record { group = omega arith; lower = lo; upper = hi })
  ]

  bset-IsData :
      (g blk : ℕ) (b : Bool)
      → IsData v g blk
      → bset blk b v ≡ record v { bbitmap = update_bit v.bbitmap g (blk - (v.desc g).data_start) b }
  unfolding bset
  bset-IsData g blk b d = rw (find_group-IsData g blk d, bset)

  -- Writing the bit of one data block leaves all others.
  pub bbit-bset :
      (g a c : ℕ) (x : Bool) → IsData v g a → bbit c (bset a x v) ≡ (if c == a then x else bbit c v)
  unfolding bbit
  bbit-bset g a c x d =
      rw (bset-IsData g a x d) (elim (Option-cases (find_group v.total_groups 0 c v.desc)) [
        | inl e ↦ rw (e, bbit) (ground (arith, find_group-IsData g a d, e))
        | inr (r, e) ↦
            let (p, q, lo, hi) = find_group-some v.total_groups 0 c r v.desc e in
            rw (e, bbit) (ground (arith, find_group-IsData g a d, d.lower, lo))
      ])

scan_blocks-some : (n blk r : ℕ) (v : Volume) → scan_blocks n blk v ≡ some r → bbit r v ≡ false
unfolding scan_blocks
scan_blocks-some zero blk r v e = absurd (grind arith)
scan_blocks-some (suc n) blk r v e = elim (Bool-cases (bbit blk v)) [
  | inl u ↦ ground (arith, scan_blocks-some n (blk + 1) r v)
  | inr f ↦ ground arith
]

scan_blocks-none :
    (n blk j : ℕ) (v : Volume)
    → scan_blocks n blk v ≡ none
    → blk ≤ j
    → j < blk + n
    → bbit j v ≡ true
unfolding scan_blocks
scan_blocks-none zero blk j v e lo hi = absurd (omega arith)
scan_blocks-none (suc n) blk j v e lo hi = elim (Bool-cases (bbit blk v)) [
  | inl u ↦ ground (arith, scan_blocks-none n (blk + 1) j v)
  | inr f ↦ ground arith
]

scan_pass-some :
    (n gg pass prefer r : ℕ) (v : Volume) → scan_pass n gg pass prefer v ≡ some r → bbit r v ≡ false
unfolding scan_pass
scan_pass-some zero gg pass prefer r v e = absurd (grind arith)
scan_pass-some (suc n) gg pass prefer r v e =
    let g = if pass == 0 then (prefer + gg) % u32_mod % v.total_groups else gg in
    elim (Option-cases (scan_blocks (data_blocks (v.desc g)) (v.desc g).data_start v)) [
      | inl u ↦
          scan_pass-some n (gg + 1) pass prefer r v
            (let q : scan_pass n (gg + 1) pass prefer v ≡ some r = rw (u, scan_pass) at e in q)
      | inr (b, f) ↦
          let q : some b ≡ some r = rw (f, scan_pass) at e in
          scan_blocks-some (data_blocks (v.desc g)) (v.desc g).data_start r v (f ∙ q)
    ]

scan_pass-none :
    (n gg prefer g j : ℕ) (v : Volume)
    → IsSound v
    → scan_pass n gg 1 prefer v ≡ none
    → gg ≤ g
    → g < gg + n
    → gg + n ≤ v.total_groups
    → IsData v g j
    → bbit j v ≡ true
unfolding scan_pass
scan_pass-none zero gg prefer g j v ok e lo hi fit d = absurd (omega arith)
scan_pass-none (suc n) gg prefer g j v ok e lo hi fit d =
    elim (Option-cases (scan_blocks (data_blocks (v.desc gg)) (v.desc gg).data_start v)) [
      | inl u ↦ elim (dec_lt gg g) [
        | yes later ↦
            let q : scan_pass n (gg + 1) 1 prefer v ≡ none = rw (u, scan_pass) at e in
            scan_pass-none n (gg + 1) prefer g j v ok q (omega arith) (omega arith) (omega arith) d
        | no here ↦
            let z : gg ≡ g = omega arith in
            let u' =
              subst (λ k. scan_blocks (data_blocks (v.desc k)) (v.desc k).data_start v ≡ none) z
                u in
            scan_blocks-none (data_blocks (v.desc g)) (v.desc g).data_start j v u' d.lower
              (omega (arith, d.upper, ok.width g d.group, d.lower))
      ]
      | inr (b, f) ↦ let q : some b ≡ none = rw (f, scan_pass) at e in cc q
    ]

find_block-some : (prefer r : ℕ) (v : Volume) → find_block prefer v ≡ some r → bbit r v ≡ false
unfolding find_block
find_block-some prefer r v e = elim (Option-cases (scan_pass v.total_groups 0 0 prefer v)) [
  | inl u ↦
      scan_pass-some v.total_groups 0 1 prefer r v
        (let q : scan_pass v.total_groups 0 1 prefer v ≡ some r = rw (u, find_block) at e in q)
  | inr (b, f) ↦
      scan_pass-some v.total_groups 0 0 prefer r v
        (let q : some b ≡ some r = rw (f, find_block) at e in f ∙ q)
]

find_block-none :
    (prefer : ℕ) (v : Volume)
    → find_block prefer v ≡ none
    → scan_pass v.total_groups 0 1 prefer v ≡ none
unfolding find_block
find_block-none prefer v e = ground arith

-- On a sound volume alloc_block either returns a data block that was free and takes its bit and no
-- other, or, where each data block is used, returns 0 and changes nothing.
pub alloc_block_cases :
    (prefer : ℕ) (v : Volume)
    → IsSound v
    → ((blk : ℕ) × (g : ℕ) × ((alloc_block prefer v).0 ≡ blk)
        × (blk ≢ 0)
        × IsData v g blk
        × (bbit blk v ≡ false)
        × ((c : ℕ) → bbit c (alloc_block prefer v).1 ≡ (if c == blk then true else bbit c v)))
      ⊎ ((alloc_block prefer v ≡ (0, v)) × ((g c : ℕ) → IsData v g c → bbit c v ≡ true))
unfolding alloc_block
alloc_block_cases prefer v ok = elim (Option-cases (find_block prefer v)) [
  | inl e ↦ inr (
    ground (arith, e),
    λ g c d.
        scan_pass-none v.total_groups 0 prefer g c v ok (find_block-none prefer v e) (omega arith)
          (omega (arith, d.group)) (omega arith) d,
  )
  | inr (b, e) ↦
      let f = find_block-some prefer b v e in
      let (g, d) = IsData-of_free v ok b f in
      inl (
        b,
        g,
        ground (arith, e),
        omega (arith, d.lower, ok.starts g d.group),
        d,
        f,
        λ c. rw (e, alloc_block) (bbit-bset v ok g b c true d),
      )
]
