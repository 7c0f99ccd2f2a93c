-- ===== src/Fs/Blkfs/Space/Inodes.antt =====
-- alloc_ino of kernel/fs/blkfs.c and the inode bitmap.
use yart_os.Prelude.{
  ℕ, zero, suc, ◌+◌, ◌*◌, ◌≤◌, ◌<◌, ◌≡◌, refl, Bool, true, false, none, some, if◌then◌else◌, ◌==◌,
  arith, Bool-cases, Option-cases, inl, inr, ◌⊎◌,
}
use yart_os.Fs.Blkfs.Layout.{Layout, inodes_per_group}
use yart_os.Fs.Blkfs.Space.{
  Volume, ibit, iset, scan_inodes, scan_groups, alloc_ino, format, assign_ino, root_ino, ino_group,
  ino_index,
}

-- Two inode numbers other than 0 are one if their bits are.
ino_eq : (a b : ℕ) → 1 ≤ a → 1 ≤ b → ino_group a ≡ ino_group b → ino_index a ≡ ino_index b → a ≡ b
ino_eq a b ha hb g i = omega arith

-- Writing the bit of one inode leaves the others.
pub ibit-iset :
    (a b : ℕ) (x : Bool) (v : Volume)
    → 1 ≤ a
    → 1 ≤ b
    → ibit b (iset a x v) ≡ (if b == a then x else ibit b v)
unfolding ibit iset
ibit-iset a b x v ha hb = ground (arith, ino_eq b a)

scan_inodes-some :
    (n i g r : ℕ) (v : Volume)
    → scan_inodes n i g v ≡ some r
    → (ibit r v ≡ false) × (g * inodes_per_group + i < r) × (r ≤ g * inodes_per_group + i + n)
unfolding scan_inodes
scan_inodes-some zero i g r v e = absurd (grind arith)
scan_inodes-some (suc n) i g r v e = elim (Bool-cases (ibit (g * inodes_per_group + i + 1) v)) [
  | inl u ↦ ground (arith, scan_inodes-some n (i + 1) g r v)
  | inr f ↦ ground arith
]

scan_inodes-none :
    (n i g j : ℕ) (v : Volume)
    → scan_inodes n i g v ≡ none
    → g * inodes_per_group + i < j
    → j ≤ g * inodes_per_group + i + n
    → ibit j v ≡ true
unfolding scan_inodes
scan_inodes-none zero i g j v e lo hi = absurd (omega arith)
scan_inodes-none (suc n) i g j v e lo hi =
    elim (Bool-cases (ibit (g * inodes_per_group + i + 1) v)) [
      | inl u ↦ ground (arith, scan_inodes-none n (i + 1) g j v)
      | inr f ↦ ground arith
    ]

scan_groups-some :
    (n g r : ℕ) (v : Volume)
    → scan_groups n g v ≡ some r
    → (ibit r v ≡ false) × (g * inodes_per_group < r) × (r ≤ (g + n) * inodes_per_group)
unfolding scan_groups
scan_groups-some zero g r v e = absurd (grind arith)
scan_groups-some (suc n) g r v e = elim (Option-cases (scan_inodes inodes_per_group 0 g v)) [
  | inl u ↦ ground (arith, scan_groups-some n (g + 1) r v)
  | inr (q, f) ↦ ground (arith, scan_inodes-some inodes_per_group 0 g r v)
]

scan_groups-none :
    (n g j : ℕ) (v : Volume)
    → scan_groups n g v ≡ none
    → g * inodes_per_group < j
    → j ≤ (g + n) * inodes_per_group
    → ibit j v ≡ true
unfolding scan_groups
scan_groups-none zero g j v e lo hi = absurd (omega arith)
scan_groups-none (suc n) g j v e lo hi = elim (Option-cases (scan_inodes inodes_per_group 0 g v)) [
  | inl u ↦
      ground (arith, scan_groups-none n (g + 1) j v, scan_inodes-none inodes_per_group 0 g j v)
  | inr (q, f) ↦ ground arith
]

-- An inode number other than 0 that alloc_ino returns is one of the volume's, was free, and is the
-- only one whose bit changes; 0 is returned exactly when no inode is free, and changes nothing.
pub alloc_ino_cases :
    (v : Volume)
    → ((r : ℕ) × ((alloc_ino v).0 ≡ r)
        × (1 ≤ r)
        × (r ≤ v.total_groups * inodes_per_group)
        × (ibit r v ≡ false)
        × ((j : ℕ) → 1 ≤ j → ibit j (alloc_ino v).1 ≡ (if j == r then true else ibit j v)))
      ⊎ ((alloc_ino v ≡ (0, v))
          × ((j : ℕ) → 1 ≤ j → j ≤ v.total_groups * inodes_per_group → ibit j v ≡ true))
unfolding alloc_ino
alloc_ino_cases v = elim (Option-cases (scan_groups v.total_groups 0 v)) [
  | inl e ↦ inr (
    ground (arith, e),
    λ j lo hi. scan_groups-none v.total_groups 0 j v e (omega arith) (omega arith),
  )
  | inr (r, e) ↦
      let (f, lo, hi) = scan_groups-some v.total_groups 0 r v e in
      inl (
        r,
        ground (arith, e),
        omega arith,
        omega arith,
        f,
        λ j h. rw (e, alloc_ino) (ibit-iset r j true v (omega arith) h),
      )
]

scan_inodes_first :
    (n i g : ℕ) (v : Volume)
    → 0 < n
    → ibit (g * inodes_per_group + i + 1) v ≡ false
    → scan_inodes n i g v ≡ some (g * inodes_per_group + i + 1)
unfolding scan_inodes
scan_inodes_first zero i g v h f = absurd (omega arith)
scan_inodes_first (suc n) i g v h f = ground arith

scan_first : (n : ℕ) (v : Volume) → 0 < n → ibit 1 v ≡ false → scan_groups n 0 v ≡ some 1
unfolding scan_groups
scan_first zero v h f = absurd (omega arith)
scan_first (suc n) v h f =
    rw (scan_inodes_first inodes_per_group 0 0 v (omega arith) f, scan_groups)

-- On a freshly formatted volume with at least one group, the first node that is persisted and is not the root gets inode 1,
-- the number that the root gets.
pub assign_ino-format :
    (l : Layout)
    → 0 < l.total_groups
    → ((assign_ino false (format l)).0 ≡ root_ino)
      × ((assign_ino true (assign_ino false (format l)).1).0 ≡ (assign_ino false (format l)).0)
unfolding assign_ino alloc_ino format ibit
assign_ino-format l h =
    let e : scan_groups l.total_groups 0 (format l) ≡ some 1 =
      scan_first l.total_groups (format l) h refl in
    (ground (arith, e), ground (arith, e))
