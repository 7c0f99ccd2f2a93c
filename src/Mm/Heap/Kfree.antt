-- ===== src/Mm/Heap/Kfree.antt =====
-- kfree of kernel/mm/heap.c: what it refuses and accepts, and the marks of the blocks after a merge.
use yart_os.Prelude.{
  ℕ, zero, suc, ◌+◌, ◌<◌, ◌≡◌, ◌≢◌, ◌⊎◌, inl, inr, refl, true, false, if◌then◌else◌, ◌==◌, arith,
  u64_mod, ◌∙◌, add64, Bool-cases,
}
use yart_os.Mm.Heap.{
  Heap, heap_magic, bucket_push, bucket_remove, remove_from, link_to, num_buckets, sub64,
  header_bytes,
}
use yart_os.Mm.Heap.Release.{absorb, join_next, join_prev, put_back, kfree, count_release, is_free}
use yart_os.Mm.Heap.Lists.{remove_from-first, remove_from-link, remove_from-next}
use yart_os.Mm.Heap.Found.{SameHeaders}
use yart_os.Mm.Heap.Scan.{same_all, same_link}
use native.Mathlib.Decide.{ℕ_discrete}

-- only the links and the buckets differ
abbrev Quiet : Heap → Heap → Type 0
Quiet h h' = SameHeaders h.blocks h'.blocks × (h'.bad_frees ≡ h.bad_frees)

remove_from-Quiet : (fuel k i b : ℕ) (h : Heap) → Quiet h (remove_from fuel k i b h)
remove_from-Quiet fuel zero i b h = unfold remove_from in (same_all h.blocks, refl)
remove_from-Quiet fuel (suc k) i b h = elim (ℕ_discrete (h.buckets i) b) [
  | yes q ↦ rw (remove_from-first fuel k i b h q) (same_all h.blocks, refl)
  | no q ↦ elim (ℕ_discrete (link_to fuel (h.buckets i) b h) 0) [
    | yes z ↦ rw (remove_from-next fuel k i b h q z) (remove_from-Quiet fuel k (i + 1) b h)
    | no z ↦ rw (remove_from-link fuel k i b h q z) (same_link h.blocks _ (h.blocks b).req, refl)
  ]
]

pub bucket_remove-Quiet : (fuel b : ℕ) (h : Heap) → Quiet h (bucket_remove fuel b h)
unfolding bucket_remove
bucket_remove-Quiet fuel b h = remove_from-Quiet fuel num_buckets 0 b h

-- What is refused: kfree of a pointer whose header has not the magic number, or has the mark of a free block, changes nothing but the counter of bad releases, to which it adds one.
pub kfree-rejects :
    (fuel b : ℕ) (h : Heap)
    → b + header_bytes < u64_mod
    → ((h.blocks b).magic ≢ heap_magic) ⊎ ((h.blocks b).free ≡ true)
    → kfree fuel (b + header_bytes) h ≡ record h { bad_frees = add64 h.bad_frees 1 }
unfolding kfree
kfree-rejects fuel b h lt bad =
    let at : sub64 (b + header_bytes) header_bytes ≡ b = omega (arith, lt) in
    ground (arith, at, bad)

pub kfree-accepts :
    (fuel b : ℕ) (h : Heap)
    → b + header_bytes < u64_mod
    → (h.blocks b).magic ≡ heap_magic
    → (h.blocks b).free ≡ false
    → kfree fuel (b + header_bytes) h ≡ put_back fuel b (count_release b h)
unfolding kfree
kfree-accepts fuel b h lt m f =
    let at : sub64 (b + header_bytes) header_bytes ≡ b = omega (arith, lt) in
    ground (arith, at, m, f)

-- magic number and mark of every block, and the counter of bad releases
abbrev pub Marks : Heap → Heap → Type 0
Marks h h' =
    ((x : ℕ)
      → ((h'.blocks x).magic ≡ (h.blocks x).magic) × ((h'.blocks x).free ≡ (h.blocks x).free))
    × (h'.bad_frees ≡ h.bad_frees)

pub absorb-Marks : (a b : ℕ) (h : Heap) → Marks h (absorb a b h)
unfolding absorb
absorb-Marks a b h = ((λ x. (ground arith, ground arith)), ground arith)

absorb_remove-Marks : (fuel a b c : ℕ) (h : Heap) → Marks h (absorb a b (bucket_remove fuel c h))
absorb_remove-Marks fuel a b c h =
    let (same, q) = bucket_remove-Quiet fuel c h in
    let (mark, e) = absorb-Marks a b (bucket_remove fuel c h) in
    ((λ x. ((mark x).0 ∙ (same x).0, (mark x).1 ∙ (same x).2)), e ∙ q)

pub join_next-alone :
    (fuel b : ℕ) (h : Heap) → is_free (h.blocks b).next h ≡ false → join_next fuel b h ≡ h
unfolding join_next
join_next-alone fuel b h e = rw (join_next, e) refl

pub join_next-joins :
    (fuel b : ℕ) (h : Heap)
    → is_free (h.blocks b).next h ≡ true
    → join_next fuel b h ≡ absorb b (h.blocks b).next (bucket_remove fuel (h.blocks b).next h)
unfolding join_next
join_next-joins fuel b h e = rw (join_next, e) refl

pub join_prev-alone :
    (fuel b : ℕ) (h : Heap) → is_free (h.blocks b).prev h ≡ false → join_prev fuel b h ≡ (b, h)
unfolding join_prev
join_prev-alone fuel b h e = rw (join_prev, e) refl

pub join_prev-joins :
    (fuel b : ℕ) (h : Heap)
    → is_free (h.blocks b).prev h ≡ true
    → let pv = (h.blocks b).prev in join_prev fuel b h ≡ (pv, absorb pv b (bucket_remove fuel pv h))
unfolding join_prev
join_prev-joins fuel b h e = rw (join_prev, e) refl

pub join_next-Marks : (fuel b : ℕ) (h : Heap) → Marks h (join_next fuel b h)
join_next-Marks fuel b h = elim (Bool-cases (is_free (h.blocks b).next h)) [
  | inl e ↦
      rw (join_next-joins fuel b h e)
        (absorb_remove-Marks fuel b (h.blocks b).next (h.blocks b).next h)
  | inr e ↦ rw (join_next-alone fuel b h e) ((λ x. (refl, refl)), refl)
]

join_prev-Marks : (fuel b : ℕ) (h : Heap) → Marks h (join_prev fuel b h).1
join_prev-Marks fuel b h = elim (Bool-cases (is_free (h.blocks b).prev h)) [
  | inl e ↦
      rw (join_prev-joins fuel b h e)
        (absorb_remove-Marks fuel (h.blocks b).prev b (h.blocks b).prev h)
  | inr e ↦ rw (join_prev-alone fuel b h e) ((λ x. (refl, refl)), refl)
]

-- the block that put_back puts into a bucket
unfoldable pub merged : (fuel b : ℕ) → Heap → ℕ
merged fuel b h = (join_prev fuel b (join_next fuel b h)).0

pub put_back-marks :
    (fuel b x : ℕ) (h : Heap)
    → let h' = put_back fuel b h in
      ((h'.blocks x).magic ≡ (h.blocks x).magic)
      × ((h'.blocks x).free ≡ (if x == merged fuel b h then true else (h.blocks x).free))
      × (h'.bad_frees ≡ h.bad_frees)
unfolding put_back merged bucket_push
put_back-marks fuel b x h =
    let (next, p) = join_next-Marks fuel b h in
    let (prev, q) = join_prev-Marks fuel b (join_next fuel b h) in
    (ground (arith, next x, prev x), ground (arith, next x, prev x), q ∙ p)
