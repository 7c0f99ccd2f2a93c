-- ===== src/Mm/Heap/Grow.antt =====
-- grow of kernel/mm/heap.c: how many bytes the new block has for the request.
use yart_os.Prelude.{
  ℕ, ◌+◌, ◌*◌, ◌/◌, ◌%◌, ◌≤◌, ◌<◌, ◌≡◌, ◌≢◌, ◌⊎◌, ◌↔◌, inl, inr, refl, arith, u64_mod, ap, ◌∙◌,
  some, add64, subst,
}
use yart_os.Mm.Heap.Hand.{hand_out-whole, split-whole}
use native.Mathlib.Decide.{dec_lt, dec_le}
use yart_os.Mm.Pmm.{Pmm, page, alloc_run, page_size}
use yart_os.Mm.Heap.{Heap, heap_canary}
use yart_os.Mm.Heap.Alloc.{
  grow, add_run, grow_pages, grow_size, link_last, mark_used, hand_out, alloc_from_class,
  obtain_block, kmalloc, round16,
}

-- A request is a page multiple less the header, of at least 8 pages.
abbrev pub Exact : ℕ → Type 0
Exact n = ((n + 48) % page_size ≡ 0) × (8 * page_size ≤ n + 48)

grow_pages-cases :
    (n : ℕ)
    → n + 2 * page_size < u64_mod
    → ((n + 48 ≤ 7 * page_size) × (grow_pages n ≡ 8))
      ⊎ ((7 * page_size < n + 48) × (grow_pages n ≡ (n + 48 + 0xfff) / page_size))
unfolding grow_pages
grow_pages-cases n lt = elim (dec_lt ((n + 48 + 0xfff) / page_size) 8) [
  | yes few ↦ inl (omega arith, ground (arith, few, lt))
  | no many ↦ inr (omega arith, ground (arith, many, lt))
]

grow_size-pages : (k : ℕ) → 0 < k → k * page_size < u64_mod → grow_size k + 64 ≡ k * page_size
unfolding grow_size
grow_size-pages k lo lt = omega (arith, lo, lt)

-- For a request that is a multiple of 16 and well below 2^64, the block that grow makes has room for the request exactly when the request and the header together
-- are not a whole number of at least 8 pages; in that case it is 16 bytes short, since the pages are counted without the canary's gap.
pub grow_size-grow_pages :
    (n : ℕ)
    → n % 16 ≡ 0
    → n + 2 * page_size < u64_mod
    → ((n ≤ grow_size (grow_pages n)) ↔ (¬ Exact n)) × (Exact n → grow_size (grow_pages n) + 16 ≡ n)
grow_size-grow_pages n m lt =
    let cases : (grow_size (grow_pages n) + 64 ≡ 8 * page_size × n + 48 ≤ 7 * page_size)
        ⊎ (grow_size (grow_pages n) + 64 ≡ (n + 48 + 0xfff) / page_size * page_size
            × 7 * page_size < n + 48) =
      elim (grow_pages-cases n lt) [
        | inl (few, e) ↦ inl (rw e (grow_size-pages 8 (omega arith) (omega arith)), few)
        | inr (many, e) ↦ inr (rw e (grow_size-pages _ (omega arith) (omega arith)), many)
      ] in
    (
      (
        (λ le (x, y). absurd (omega (arith, cases))),
        λ fine. elim (dec_le n (grow_size (grow_pages n))) [
          | yes le ↦ le
          | no gt ↦ absurd (fine (omega (arith, cases), omega (arith, cases)))
        ],
      ),
      λ (x, y). omega (arith, cases),
    )

link_last-size :
    (fuel b x : ℕ) (h : Heap) → ((link_last fuel b h).blocks x).size ≡ (h.blocks x).size
unfolding link_last
link_last-size fuel b x h = ground arith

pub grow-add_run :
    (fuel n p : ℕ) (h : Heap) (pmm : Pmm)
    → alloc_run (grow_pages n) h.pmm ≡ (page p, pmm)
    → grow fuel n h ≡ some (add_run fuel (grow_pages n) p pmm h)
unfolding grow
grow-add_run fuel n p h pmm e =
    rw (grow, e) (ap (λ r. some (add_run fuel (grow_pages n) p r.1 h)) e)

add_run-size :
    (fuel k p : ℕ) (pmm : Pmm) (h : Heap)
    → let (b, h') = add_run fuel k p pmm h in (h'.blocks b).size ≡ grow_size k
unfolding add_run
add_run-size fuel k p pmm h = link_last-size fuel (add64 p h.hhdm) (add64 p h.hhdm) _ ∙ ground arith

add_run-start : (fuel k p : ℕ) (pmm : Pmm) (h : Heap) → (add_run fuel k p pmm h).0 ≡ add64 p h.hhdm
unfolding add_run
add_run-start fuel k p pmm h = refl

kmalloc-grown :
    (fuel n b : ℕ) (h h2 : Heap)
    → n ≢ 0
    → (alloc_from_class fuel (round16 n) h).0 ≡ 0
    → grow fuel (round16 n) (alloc_from_class fuel (round16 n) h).1 ≡ some (b, h2)
    → b ≢ 0
    → kmalloc fuel n h ≡ some (hand_out b (round16 n) h2)
unfolding kmalloc obtain_block
kmalloc-grown fuel n b h h2 m z e k = ground (arith, m, z, e, k)

mark_used-words :
    (b n : ℕ) (h : Heap) → b + 48 + n < u64_mod → (mark_used b n h).words (b + 48 + n) ≡ heap_canary
unfolding mark_used
mark_used-words b n h lt = ground (arith, lt)

-- When a request is a multiple of 16 that with the header makes a whole number of at least 8 pages, no free block can serve it, and the page allocator gives new pages for it that end far enough below 2^64, kmalloc
-- returns a payload that with the canary does not fit them: it writes the canary at the first address behind the pages.
pub kmalloc-overruns :
    (fuel n p : ℕ) (h : Heap) (pmm : Pmm)
    → n % 16 ≡ 0
    → Exact n
    → let (none_yet, h1) = alloc_from_class fuel n h in
      none_yet ≡ 0
      → alloc_run (grow_pages n) h1.pmm ≡ (page p, pmm)
      → 0 < p + h1.hhdm
      → p + h1.hhdm + n + 2 * page_size < u64_mod
      → (h' : Heap) × (kmalloc fuel n h ≡ some (p + h1.hhdm + 48, h'))
        × (h'.words (p + h1.hhdm + (n + 48)) ≡ heap_canary)
        × (grow_pages n * page_size ≡ n + 48)
kmalloc-overruns fuel n p h pmm m x z run lo lt =
    let h1 = (alloc_from_class fuel n h).1 in
    let b = p + h1.hhdm in
    let at : add64 p h1.hhdm ≡ b = omega (arith, lt) in
    let r : round16 n ≡ n = omega (arith, m, lt) in
    let grown = add_run fuel (grow_pages n) p pmm h1 in
    let start : grown.0 ≡ b = add_run-start fuel (grow_pages n) p pmm h1 ∙ at in
    let size : (grown.1.blocks b).size + 16 ≡ n = omega (
      arith,
      (grow_size-grow_pages n m (omega arith)).1 x,
      add_run-size fuel (grow_pages n) p pmm h1,
      ap (λ z. (grown.1.blocks z).size) start,
    ) in
    let behind : b + 48 + n ≡ b + (n + 48) = omega arith in
    (
      mark_used b n grown.1,
      kmalloc-grown fuel n grown.0 h grown.1 (omega (arith, x.1)) (rw r z)
            (rw r (grow-add_run fuel n p h1 pmm run)) (omega (arith, start, lo))
          ∙ ap some (
              rw (r, start)
                (hand_out-whole b n grown.1 (omega arith)
                  (split-whole b n grown.1 (omega arith) (omega arith)))),
      subst (λ a. (mark_used b n grown.1).words a ≡ heap_canary) behind
          (mark_used-words b n grown.1 (omega arith)),
      omega (arith, x, grow_pages-cases n (omega arith)),
    )
