-- ===== src/Mm/Heap/Init.antt =====
-- heap_init of kernel/mm/heap.c: the first free block.
use yart_os.Prelude.{
  ℕ, ◌+◌, ◌-◌, ◌*◌, ◌<◌, ◌≡◌, ◌≢◌, inl, refl, sym, true, List, [], ◌∷◌, update, arith, u64_mod, ap,
  ◌∙◌, add64, some, subst,
}
use yart_os.Mm.Pmm.{Pmm, page, alloc_run}
use yart_os.Mm.Heap.{Heap, Block, huge_class, class_for, class_from, bucket_push, heap_magic}
use yart_os.Mm.Heap.Alloc.{heap_init, no_blocks, grow, grow_pages, grow_size, add_run, link_last}
use yart_os.Mm.Heap.Grow.{grow-add_run}
use yart_os.Mm.Heap.Serve.{push-SameHeaders}
use yart_os.Mm.Heap.Space.{FreeSpace, push-FreeSpace}
use yart_os.Mm.Heap.Split.{end_of}

-- the first block's free list, alone
abbrev pub only : ℕ → ℕ → List ℕ
only b = update (λ i. []) huge_class (b ∷ [])

empty-FreeSpace : (h : Heap) → ((i : ℕ) → h.buckets i ≡ 0) → FreeSpace h (λ i. [])
empty-FreeSpace h e = record {
  lists = record { chain = λ i hi. e i; apart = λ i j x hi hj p q. absurd (ground arith) };
  apart = λ x y p q n. absurd (ground (arith, p.2));
  marked = λ x p. absurd (ground (arith, p.2));
  bounded = λ x p. absurd (ground (arith, p.2));
  next_out = λ x p. absurd (ground (arith, p.2));
}

first_class : class_for (grow_size 257) ≡ huge_class
unfolding class_for grow_size class_from
first_class = refl

add_run-first :
    (k p : ℕ) (pmm' pmm : Pmm) (hhdm : ℕ) (blocks : ℕ → Block) (words : ℕ → ℕ)
    → let (b, h) = add_run 0 k p pmm' (no_blocks pmm hhdm blocks words) in
      (b ≡ add64 p hhdm)
      × ((h.blocks b).size ≡ grow_size k)
      × ((h.blocks b).magic ≡ heap_magic)
      × ((h.blocks b).free ≡ true)
      × ((h.blocks b).next ≡ 0)
      × ((i : ℕ) → h.buckets i ≡ 0)
unfolding add_run link_last no_blocks
add_run-first k p pmm' pmm hhdm blocks words =
    (refl, ground arith, ground arith, ground arith, ground arith, λ i. refl)

-- heap_init once the pages are there
heap_init-add_run :
    (pmm pmm' : Pmm) (hhdm p : ℕ) (blocks : ℕ → Block) (words : ℕ → ℕ)
    → grow 0 0x100000 (no_blocks pmm hhdm blocks words)
      ≡ some (add_run 0 257 p pmm' (no_blocks pmm hhdm blocks words))
    → let (b, h) = add_run 0 257 p pmm' (no_blocks pmm hhdm blocks words) in
      b ≢ 0 → heap_init pmm hhdm blocks words ≡ some (bucket_push b (class_for (h.blocks b).size) h)
unfolding heap_init
heap_init-add_run pmm pmm' hhdm p blocks words e n = ground (arith, e, n)

pages_first : grow_pages 0x100000 ≡ 257
unfolding grow_pages
pages_first = refl

size_first : grow_size 257 ≡ 257 * 0x1000 - 64
unfolding grow_size
size_first = refl

-- When the page allocator gives heap_init its 257 pages, not at address 0 and well below 2^64, then after it the only free block is that at their start, and it has all of them but for its header and the canary's gap.
pub heap_init-FreeSpace :
    (pmm pmm' : Pmm) (hhdm p : ℕ) (blocks : ℕ → Block) (words : ℕ → ℕ)
    → alloc_run 257 pmm ≡ (page p, pmm')
    → 0 < p + hhdm
    → p + hhdm + 0x102000 < u64_mod
    → (h : Heap) × (heap_init pmm hhdm blocks words ≡ some h)
      × FreeSpace h (only (p + hhdm))
      × (end_of h.blocks (p + hhdm) ≡ p + hhdm + 257 * 0x1000)
heap_init-FreeSpace pmm pmm' hhdm p blocks words e lo lt =
    let h0 = no_blocks pmm hhdm blocks words in
    let run : alloc_run (grow_pages 0x100000) h0.pmm ≡ (page p, pmm') =
      subst (λ k. alloc_run k h0.pmm ≡ (page p, pmm')) (sym pages_first) (unfold no_blocks in e) in
    let grown : grow 0 0x100000 h0 ≡ some (add_run 0 257 p pmm' h0) =
      grow-add_run 0 0x100000 p h0 pmm' run ∙ ap (λ k. some (add_run 0 k p pmm' h0)) pages_first in
    let b = (add_run 0 257 p pmm' h0).0 in
    let h = (add_run 0 257 p pmm' h0).1 in
    let (at, size, magic, free, next, none_yet) = add_run-first 257 p pmm' pmm hhdm blocks words in
    let start : b ≡ p + hhdm = at ∙ omega (arith, lt) in
    let sized : (h.blocks b).size ≡ 257 * 0x1000 - 64 = size ∙ size_first in
    let ci : class_for (h.blocks b).size ≡ huge_class = ap class_for size ∙ first_class in
    let space : FreeSpace (bucket_push b huge_class h) (only b) =
      push-FreeSpace b huge_class (empty-FreeSpace h none_yet) (omega arith)
        (omega (arith, start, lo)) (λ x q. absurd (ground (arith, q.2))) magic free
        (omega (arith, sized, start, lt)) (inl (omega (arith, next))) in
    let (_, pushed, _, _, _) = push-SameHeaders b huge_class h b in
    (
      bucket_push b huge_class h,
      heap_init-add_run pmm pmm' hhdm p blocks words grown (omega (arith, start, lo))
          ∙ ap (λ c. some (bucket_push b c h)) ci,
      subst (λ a. FreeSpace (bucket_push b huge_class h) (only a)) start space,
      subst (λ a. end_of (bucket_push b huge_class h).blocks a ≡ a + 257 * 0x1000) start
          (omega (arith, pushed, sized)),
    )
