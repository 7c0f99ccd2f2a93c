-- ===== src/Mm/Heap/Twice.antt =====
-- All cases of kfree, a second kfree of the same pointer, and the merging of blocks, in
-- kernel/mm/heap.c.
use yart_os.Prelude.{
  ℕ, ◌+◌, ◌<◌, ◌≡◌, ◌≢◌, ◌↔◌, inl, inr, refl, sym, true, false, if◌then◌else◌, ◌==◌, arith, u64_mod,
  ap, ◌∙◌, add64, Bool-cases, ◌⊎◌, not,
}
use native.Mathlib.Decide.{ℕ_discrete}
use yart_os.Mm.Heap.{Heap, heap_magic, bucket_push, bucket_remove, header_bytes}
use yart_os.Mm.Heap.Release.{absorb, join_next, put_back, kfree, count_release, is_free}
use yart_os.Mm.Heap.Split.{end_of}
use yart_os.Mm.Heap.Kfree.{
  merged, bucket_remove-Quiet, kfree-accepts, kfree-rejects, join_next-Marks, join_next-alone,
  join_next-joins, join_prev-alone, join_prev-joins, put_back-marks,
}

absorb-prev :
    (a b : ℕ) (h : Heap)
    → (h.blocks b).next ≢ a
    → ((absorb a b h).blocks a).prev ≡ (h.blocks a).prev
unfolding absorb
absorb-prev a b h n = ground (arith, n)

join_next-prev :
    (fuel b : ℕ) (h : Heap)
    → (h.blocks (h.blocks b).next).next ≢ b
    → ((join_next fuel b h).blocks b).prev ≡ (h.blocks b).prev
join_next-prev fuel b h n = elim (Bool-cases (is_free (h.blocks b).next h)) [
  | inl e ↦
      let nx = (h.blocks b).next in
      let (same, _) = bucket_remove-Quiet fuel nx h in
      rw (join_next-joins fuel b h e)
        (absorb-prev b nx (bucket_remove fuel nx h) (λ q. n (sym (same nx).3 ∙ q)) ∙ (same b).4)
  | inr e ↦ rw (join_next-alone fuel b h e) refl
]

-- The block that goes into a bucket is the one before when that is free.
merged-prev :
    (fuel b : ℕ) (h : Heap)
    → (h.blocks (h.blocks b).next).next ≢ b
    → merged fuel b h ≡ (if is_free (h.blocks b).prev h then (h.blocks b).prev else b)
unfolding merged
merged-prev fuel b h n =
    let h1 = join_next fuel b h in
    let at = join_next-prev fuel b h n in
    let (mark, _) = join_next-Marks fuel b h in
    let test : is_free (h1.blocks b).prev h1 ≡ is_free (h.blocks b).prev h =
      ground (arith, at, mark (h.blocks b).prev) in
    elim (Bool-cases (is_free (h.blocks b).prev h)) [
      | inl e ↦ rw (e, merged, join_prev-joins fuel b h1 (test ∙ e)) at
      | inr e ↦ rw (e, merged, join_prev-alone fuel b h1 (test ∙ e)) refl
    ]

count_release-bad_frees : (b : ℕ) (h : Heap) → (count_release b h).bad_frees ≡ h.bad_frees
unfolding count_release
count_release-bad_frees b h = refl

-- the marks after a release that is accepted
kfree-marks :
    (fuel b x : ℕ) (h : Heap)
    → b + header_bytes < u64_mod
    → (h.blocks b).magic ≡ heap_magic
    → (h.blocks b).free ≡ false
    → (h.blocks (h.blocks b).next).next ≢ b
    → let h' = kfree fuel (b + header_bytes) h in
      let c = if is_free (h.blocks b).prev h then (h.blocks b).prev else b in
      ((h'.blocks x).magic ≡ (h.blocks x).magic)
      × ((h'.blocks x).free ≡ (if x == c then true else (h.blocks x).free))
      × (h'.bad_frees ≡ h.bad_frees)
unfolding count_release
kfree-marks fuel b x h lt m f n =
    let h0 = count_release b h in
    let (magic, free, bad) = put_back-marks fuel b x h0 in
    rw (kfree-accepts fuel b h lt m f) (
      magic,
      free ∙ ap (λ c. if x == c then true else (h.blocks x).free) (merged-prev fuel b h0 n),
      bad,
    )

-- kfree of the pointer behind a header that ends below 2^64, where the block after is not followed by that header: either the header has the magic number and no mark of a free block, and then no bad release is counted, no magic number changes, and the block before, when it is free, or else the block itself, is marked free and no other mark changes;
-- or the magic number or the mark is wrong, and then kfree adds one to the counter of bad releases and changes nothing else.
pub kfree-cases :
    (fuel b : ℕ) (h : Heap)
    → b + header_bytes < u64_mod
    → (h.blocks (h.blocks b).next).next ≢ b
    → let h' = kfree fuel (b + header_bytes) h in
      let c = if is_free (h.blocks b).prev h then (h.blocks b).prev else b in
      (((h.blocks b).magic ≡ heap_magic)
        × ((h.blocks b).free ≡ false)
        × (h'.bad_frees ≡ h.bad_frees)
        × ((x : ℕ)
            → ((h'.blocks x).magic ≡ (h.blocks x).magic)
              × ((h'.blocks x).free ≡ (if x == c then true else (h.blocks x).free))))
      ⊎ ((((h.blocks b).magic ≢ heap_magic) ⊎ ((h.blocks b).free ≡ true))
          × (h' ≡ record h { bad_frees = add64 h.bad_frees 1 }))
kfree-cases fuel b h lt n = elim (ℕ_discrete (h.blocks b).magic heap_magic) [
  | no m ↦ inr (inl m, kfree-rejects fuel b h lt (inl m))
  | yes m ↦ elim (Bool-cases (h.blocks b).free) [
    | inl f ↦ inr (inr f, kfree-rejects fuel b h lt (inr f))
    | inr f ↦ inl (
      m,
      f,
      (kfree-marks fuel b b h lt m f n).2,
      λ x. let (magic, free, _) = kfree-marks fuel b x h lt m f n in (magic, free),
    )
  ]
]

-- For a block in use with the magic number, whose header ends below 2^64, whose neighbour before is another block and whose second next is not itself: kfree leaves the magic number in its header, and marks it free exactly when the block before is not free. So a second kfree of the same pointer is counted as a bad release when the block before is not free;
-- when that is free, the second kfree is not counted.
pub kfree-again :
    (fuel b : ℕ) (h : Heap)
    → b + header_bytes < u64_mod
    → (h.blocks b).magic ≡ heap_magic
    → (h.blocks b).free ≡ false
    → (h.blocks b).prev ≢ b
    → (h.blocks (h.blocks b).next).next ≢ b
    → let h1 = kfree fuel (b + header_bytes) h in
      ((h1.blocks b).magic ≡ heap_magic)
      × ((h1.blocks b).free ≡ not (is_free (h.blocks b).prev h))
      × ((kfree fuel (b + header_bytes) h1).bad_frees
          ≡ (if is_free (h.blocks b).prev h then h.bad_frees else add64 h.bad_frees 1))
kfree-again fuel b h lt m f pb n =
    let h1 = kfree fuel (b + header_bytes) h in
    let (magic, free, bad) = kfree-marks fuel b b h lt m f n in
    elim (Bool-cases (is_free (h.blocks b).prev h)) [
      | inl e ↦
          let in_use : (h1.blocks b).free ≡ false = ground (arith, free, e, pb, f) in
          let (_, _, again) = put_back-marks fuel b b (count_release b h1) in
          (
            magic ∙ m,
            in_use ∙ ap not (sym e),
            rw (e, kfree-accepts fuel b h1 lt (magic ∙ m) in_use)
                (again ∙ count_release-bad_frees b h1 ∙ bad),
          )
      | inr e ↦
          let shut : (h1.blocks b).free ≡ true = ground (arith, free, e) in
          (
            magic ∙ m,
            shut ∙ ap not (sym e),
            rw (e, kfree-rejects fuel b h1 lt (inr shut)) (ap (λ k. add64 k 1) bad),
          )
    ]

absorb-size :
    (a b : ℕ) (h : Heap)
    → (h.blocks a).size + 64 + (h.blocks b).size < u64_mod
    → ((absorb a b h).blocks a).size ≡ (h.blocks a).size + 64 + (h.blocks b).size
unfolding absorb
absorb-size a b h lt = ground (arith, lt)

put_back-size :
    (fuel b : ℕ) (h : Heap)
    → is_free (h.blocks b).next h ≡ false
    → is_free (h.blocks b).prev h ≡ true
    → let pv = (h.blocks b).prev in
      ((put_back fuel b h).blocks pv).size
      ≡ ((absorb pv b (bucket_remove fuel pv h)).blocks pv).size
unfolding put_back bucket_push
put_back-size fuel b h e p =
    rw (join_next-alone fuel b h e, join_prev-joins fuel b h p) (ground arith)

-- When the block after is not free and the block before is, kfree of a block in use makes the block before longer by the size of the freed block and 64 bytes, wherever the two lie;
-- so it then ends where the freed block ended exactly when it had ended where the freed block begins.
pub kfree-Merged :
    (fuel b : ℕ) (h : Heap)
    → b + header_bytes < u64_mod
    → (h.blocks b).magic ≡ heap_magic
    → (h.blocks b).free ≡ false
    → is_free (h.blocks b).next h ≡ false
    → is_free (h.blocks b).prev h ≡ true
    → let pv = (h.blocks b).prev in
      (h.blocks pv).size + 64 + (h.blocks b).size < u64_mod
      → let h' = kfree fuel (b + header_bytes) h in
        (end_of h'.blocks pv ≡ end_of h.blocks pv + 64 + (h.blocks b).size)
        × ((end_of h'.blocks pv ≡ end_of h.blocks b) ↔ (b ≡ end_of h.blocks pv))
unfolding count_release
kfree-Merged fuel b h lt m f e p small =
    let h0 = count_release b h in
    let pv = (h.blocks b).prev in
    let (same, _) = bucket_remove-Quiet fuel pv h0 in
    let size : ((kfree fuel (b + header_bytes) h).blocks pv).size
        ≡ (h.blocks pv).size + 64 + (h.blocks b).size =
      rw (kfree-accepts fuel b h lt m f) (
        put_back-size fuel b h0 e p
        ∙ absorb-size pv b (bucket_remove fuel pv h0)
            (omega (arith, small, (same pv).1, (same b).1))
        ∙ omega (arith, (same pv).1, (same b).1)) in
    (omega (arith, size), ((λ q. omega (arith, size, q)), λ q. omega (arith, size, q)))
