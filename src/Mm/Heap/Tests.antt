-- ===== src/Mm/Heap/Tests.antt =====
-- Runs of kernel/mm/heap.c, and its theorems at concrete heaps.
use yart_os.Prelude.{
  ℕ, ◌+◌, ◌*◌, ◌≤◌, ◌≡◌, ◌≢◌, ◌⊎◌, ◌↔◌, inl, refl, true, false, if◌then◌else◌, ◌==◌, ltb, update,
  arith, some,
}
use yart_os.Mm.Pmm.{Pmm, page, alloc_run, find_run, take_run, page_size}
use yart_os.Mm.Heap.{
  Heap, Block, Stats, heap_magic, heap_canary, class_for, class_from, bucket_remove, header_bytes,
}
use yart_os.Mm.Heap.Alloc.{
  heap_init, grow_pages, grow_size, class_pass, huge_scan, alloc_from_class, round16, hand_out,
  kmalloc,
}
use yart_os.Mm.Heap.Release.{kfree}
use yart_os.Mm.Heap.Lists.{Lists, Absent, bucket_remove-Lists}
use yart_os.Mm.Heap.Chain.{erase}
use yart_os.Mm.Heap.Found.{Held}
use yart_os.Mm.Heap.Space.{FreeSpace}
use yart_os.Mm.Heap.Split.{end_of}
use yart_os.Mm.Heap.Init.{only, heap_init-FreeSpace}
use yart_os.Mm.Heap.Kmalloc.{Served, kmalloc-Served}
use yart_os.Mm.Heap.Grow.{Exact, grow_size-grow_pages, kmalloc-overruns}
use yart_os.Mm.Heap.Twice.{kfree-cases, kfree-again, kfree-Merged}
use native.Mathlib.Decide.{ℕ_discrete}

-- Page 0 is reserved, the other 299 are free.
abbrev pages : Pmm
pages = record {
  used = λ i. ltb i 1;
  refs = λ i. 0;
  total_pages = 300;
  used_pages = 1;
  last_idx = 1;
  double_free_count = 0;
  bad_ref_count = 0;
  oom_force = false;
  memory = λ a. 0;
}

abbrev no_stats : Stats
no_stats = record {
  total_alloc_bytes = 0;
  total_free_bytes = 0;
  cur_bytes = 0;
  peak_bytes = 0;
  alloc_count = 0;
  free_count = 0;
  grow_count = 0;
  per_class_active = λ i. 0;
}

abbrev no_block : Block
no_block = record { magic = 0; size = 0; req = 0; free = false; next = 0; prev = 0 }

-- one free block of eight pages
abbrev first_block : Block
first_block = record { magic = heap_magic; size = 0x7fc0; req = 0; free = true; next = 0; prev = 0 }

abbrev one : Heap
one = record {
  blocks = λ a. if a == 0x1000 then first_block else no_block;
  words = λ a. 0;
  head = 0x1000;
  buckets = λ i. if i == 20 then 0x1000 else 0;
  heap_pages_total = 8;
  bad_frees = 0;
  bad_canaries = 0;
  stats = no_stats;
  pmm = pages;
  hhdm = 0x100000;
}

-- no block at all
abbrev bare : Heap
bare = record one { buckets = λ i. 0; head = 0 }

-- a block in use, at an address far behind the free block before it
abbrev behind : Block
behind = record {
  magic = heap_magic;
  size = 0x40;
  req = 0x40;
  free = false;
  next = 0;
  prev = 0x1000;
}

abbrev two : Heap
two = record one {
  blocks = λ a.
      if a == 0x1000
      then record first_block { next = 0x20000 }
      else if a == 0x20000
      then behind
      else no_block;
}

one-Lists : Lists one (only 0x1000)
one-Lists = record {
  chain = λ i hi. elim (ℕ_discrete i 20) [
    | yes q ↦ rw q (refl, (λ e. absurd (omega (arith, e))), refl, refl)
    | no q ↦ ground (arith, q)
  ];
  apart = λ i j x hi hj p q. ground arith;
}

one-Held : (x : ℕ) → Held (only 0x1000) x → x ≡ 0x1000
one-Held x (i, hi, e) = ground arith

one-FreeSpace : FreeSpace one (only 0x1000)
one-FreeSpace = record {
  lists = one-Lists;
  apart = λ x y p q n. absurd (omega (arith, one-Held x p, one-Held y q, n));
  marked = λ x p. rw (one-Held x p) (refl, refl);
  bounded = λ x p. rw (one-Held x p) (omega arith);
  next_out = λ x p. rw (one-Held x p) (inl (omega arith));
}

finds_the_block : (alloc_from_class 1 (round16 100) one).0 ≡ 0x1000
unfolding alloc_from_class class_pass huge_scan class_for class_from
finds_the_block = refl

kmalloc-Served_example :
    (p : ℕ) × (h' : Heap) × (kmalloc 1 100 one ≡ some (p, h')) × Served one (only 0x1000) 100 p h'
kmalloc-Served_example =
    kmalloc-Served 1 100 one-FreeSpace (omega arith) (omega arith) (omega (arith, finds_the_block))

bucket_remove-Lists_example :
    Lists (bucket_remove 1 0x1000 one) (λ j. erase 0x1000 (only 0x1000 j))
    × Absent (λ j. erase 0x1000 (only 0x1000 j)) 0x1000
bucket_remove-Lists_example =
    bucket_remove-Lists 1 0x1000 one-Lists (omega arith) (λ j hj. ground arith)

-- a block whose neighbour before is not free
abbrev lone : Heap
lone = record two {
  blocks = λ a.
      if a == 0x1000
      then record first_block { next = 0x20000; free = false }
      else if a == 0x20000
      then behind
      else no_block;
}

kfree-cases_example :
    let h' = kfree 1 (0x20000 + header_bytes) lone in
    (((lone.blocks 0x20000).magic ≡ heap_magic)
      × ((lone.blocks 0x20000).free ≡ false)
      × (h'.bad_frees ≡ 0)
      × ((x : ℕ)
          → ((h'.blocks x).magic ≡ (lone.blocks x).magic)
            × ((h'.blocks x).free ≡ (if x == 0x20000 then true else (lone.blocks x).free))))
    ⊎ ((((lone.blocks 0x20000).magic ≢ heap_magic) ⊎ ((lone.blocks 0x20000).free ≡ true))
        × (h' ≡ record lone { bad_frees = 1 }))
kfree-cases_example = kfree-cases 1 0x20000 lone (omega arith) (omega arith)

kfree-again_example :
    let h1 = kfree 1 (0x20000 + header_bytes) two in
    ((h1.blocks 0x20000).magic ≡ heap_magic)
    × ((h1.blocks 0x20000).free ≡ false)
    × ((kfree 1 (0x20000 + header_bytes) h1).bad_frees ≡ 0)
kfree-again_example = kfree-again 1 0x20000 two (omega arith) refl refl (omega arith) (omega arith)

kfree-Merged_example :
    let h' = kfree 1 (0x20000 + header_bytes) two in
    (end_of h'.blocks 0x1000 ≡ 0x9000 + 64 + 0x40)
    × ((end_of h'.blocks 0x1000 ≡ 0x20000 + 64 + 0x40) ↔ (◌≡◌ {A = ℕ} 0x20000 0x9000))
kfree-Merged_example = kfree-Merged 1 0x20000 two (omega arith) refl refl refl refl (omega arith)

grow_size-grow_pages_example :
    ((0x8fd0 ≤ grow_size (grow_pages 0x8fd0)) ↔ (¬ Exact 0x8fd0))
    × (Exact 0x8fd0 → grow_size (grow_pages 0x8fd0) + 16 ≡ 0x8fd0)
grow_size-grow_pages_example = grow_size-grow_pages 0x8fd0 refl (omega arith)

none_for_nine : (alloc_from_class 1 0x8fd0 bare).0 ≡ 0
unfolding alloc_from_class class_pass huge_scan class_for class_from
none_for_nine = refl

nine_pages :
    alloc_run (grow_pages 0x8fd0) (alloc_from_class 1 0x8fd0 bare).1.pmm
    ≡ (page 0x1000, take_run 9 1 pages)
unfolding alloc_from_class class_pass huge_scan class_for class_from grow_pages alloc_run find_run
nine_pages = refl

same_hhdm : (alloc_from_class 1 0x8fd0 bare).1.hhdm ≡ 0x100000
unfolding alloc_from_class class_pass huge_scan class_for class_from
same_hhdm = refl

kmalloc-overruns_example :
    let h1 = (alloc_from_class 1 0x8fd0 bare).1 in
    (h' : Heap) × (kmalloc 1 0x8fd0 bare ≡ some (0x1000 + h1.hhdm + 48, h'))
    × (h'.words (0x1000 + h1.hhdm + (0x8fd0 + 48)) ≡ heap_canary)
    × (grow_pages 0x8fd0 * page_size ≡ 0x8fd0 + 48)
kmalloc-overruns_example =
    kmalloc-overruns 1 0x8fd0 0x1000 bare (take_run 9 1 pages) refl (refl, omega arith)
      none_for_nine nine_pages (omega arith) (omega (arith, same_hhdm))

first_pages : alloc_run 257 pages ≡ (page 0x1000, take_run 257 1 pages)
unfolding alloc_run find_run
first_pages = refl

heap_init-FreeSpace_example :
    (h : Heap) × (heap_init pages 0x100000 (λ a. no_block) (λ a. 0) ≡ some h)
    × FreeSpace h (only (0x1000 + 0x100000))
    × (end_of h.blocks (0x1000 + 0x100000) ≡ 0x1000 + 0x100000 + 257 * 0x1000)
heap_init-FreeSpace_example =
    heap_init-FreeSpace pages (take_run 257 1 pages) 0x100000 0x1000 (λ a. no_block) (λ a. 0)
      first_pages (omega arith) (omega arith)

-- the heap after kmalloc of 100 + 64 + 16 bytes
after : Heap
after = (hand_out 0x1000 192 (record one { buckets = update one.buckets 20 0 })).1
