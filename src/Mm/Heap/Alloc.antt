-- ===== src/Mm/Heap/Alloc.antt =====
-- Allocation in kernel/mm/heap.c: grow, split, alloc_from_class, heap_init, kmalloc, kzalloc and kmalloc_aligned.
use yart_os.Prelude.{
  ℕ, zero, suc, ◌+◌, ◌-◌, ◌*◌, ◌/◌, ◌%◌, true, false, Option, none, some, if◌then◌else◌, ltb, leb,
  ◌==◌, update, u64_mod, add64,
}
use yart_os.Mm.Pmm.{Pmm, page, panic, page_size, alloc_run}
use yart_os.Mm.Heap.{
  Heap, Block, Stats, heap_magic, heap_canary, canary_bytes, header_bytes, num_classes, huge_class,
  sub64, class_for, payload, canary_of, bfree_next, modify, bfree_set_next, bucket_push, bucket_pop,
}
use Prim.Native.Nat.{bit_and}

-- while (t->next) t = t->next
unfoldable pub last_block : (fuel t : ℕ) → Heap → ℕ
last_block zero t h = t
last_block (suc k) t h = elim ((h.blocks t).next == 0) [
  | true ↦ t
  | false ↦ last_block k (h.blocks t).next h
]

-- the pages that grow asks for
unfoldable pub grow_pages : ℕ → ℕ
grow_pages need_payload =
    let pages = add64 (add64 header_bytes need_payload) 0xfff / page_size in
    if ltb pages 8 then 8 else pages

unfoldable pub grow_size : ℕ → ℕ
grow_size pages = sub64 (sub64 (pages * page_size % u64_mod) header_bytes) canary_bytes

-- The block at `b` becomes the last of the list of all blocks.
unfoldable pub link_last : (fuel b : ℕ) → Heap → Heap
link_last fuel b h = elim (h.head == 0) [
  | true ↦ record h { head = b }
  | false ↦
      let t = last_block fuel h.head h in
      modify b (λ x. record x { prev = t }) (modify t (λ x. record x { next = b }) h)
]

-- the block that grow makes of the pages at the physical address `p`
unfoldable pub add_run : (fuel pages p : ℕ) → Pmm → Heap → ℕ × Heap
add_run fuel pages p pmm h =
    let b = add64 p h.hhdm in
    let fresh : Block = record {
      magic = heap_magic;
      size = grow_size pages;
      req = 0;
      free = true;
      next = 0;
      prev = 0;
    } in
    let h1 = link_last fuel b (record h { pmm = pmm; blocks = update h.blocks b fresh }) in
    (
      b,
      record h1 {
        heap_pages_total = add64 h.heap_pages_total pages;
        stats = record h.stats { grow_count = add64 h.stats.grow_count 1 };
      },
    )

-- `none` is the panic of pmm_alloc_pages.
unfoldable pub grow : (fuel need_payload : ℕ) → Heap → Option (ℕ × Heap)
grow fuel need_payload h =
    let pages = grow_pages need_payload in
    let (run, pmm) = alloc_run pages h.pmm in
    elim run [ panic ↦ none | page p ↦ some (add_run fuel pages p pmm h) ]

unfoldable pub split : (b want : ℕ) → Heap → ℕ × Heap
split b want h =
    let x = h.blocks b in
    let n = add64 (add64 (add64 b header_bytes) want) canary_bytes in
    let rest : Block = record {
      magic = heap_magic;
      size = sub64 (sub64 (sub64 x.size want) header_bytes) canary_bytes;
      req = 0;
      free = true;
      next = x.next;
      prev = b;
    } in
    let h1 = record h { blocks = update h.blocks n rest } in
    let h2 = if x.next == 0 then h1 else modify x.next (λ y. record y { prev = n }) h1 in
    let h3 = modify b (λ y. record y { next = n; size = want }) h2 in
    if ltb x.size (add64 want (header_bytes + canary_bytes + 32)) then (0, h) else (n, h3)

-- for (i = NUM_CLASSES - rounds; i < NUM_CLASSES; i++): of each bucket only the first block is tried
unfoldable pub class_pass : (rounds i n : ℕ) → Heap → ℕ × Heap
class_pass zero i n h = (0, h)
class_pass (suc k) i n h = elim (h.buckets i == 0) [
  | true ↦ class_pass k (i + 1) n h
  | false ↦
      let (b, h1) = bucket_pop i h in
      elim (leb n (h1.blocks b).size) [
        | true ↦ (b, h1)
        | false ↦ class_pass k (i + 1) n (bucket_push b (class_for (h1.blocks b).size) h1)
      ]
]

-- the scan of the bucket of huge blocks, with the block `pr` before `b`
unfoldable pub huge_scan : (fuel b pr n : ℕ) → Heap → ℕ × Heap
huge_scan zero b pr n h = (0, h)
huge_scan (suc k) b pr n h = elim (b == 0) [
  | true ↦ (0, h)
  | false ↦ elim (leb n (h.blocks b).size) [
    | false ↦ huge_scan k (bfree_next b h) b n h
    | true ↦ elim (pr == 0) [
      | true ↦ (b, record h { buckets = update h.buckets huge_class (bfree_next b h) })
      | false ↦ (b, bfree_set_next pr (bfree_next b h) h)
    ]
  ]
]

unfoldable pub alloc_from_class : (fuel n : ℕ) → Heap → ℕ × Heap
alloc_from_class fuel n h =
    let (b, h1) = class_pass (num_classes - class_for n) (class_for n) n h in
    elim (b == 0) [ true ↦ huge_scan fuel (h1.buckets huge_class) 0 n h1 | false ↦ (b, h1) ]

-- the state before the first grow
unfoldable pub no_blocks : Pmm → (hhdm : ℕ) → (blocks : ℕ → Block) → (words : ℕ → ℕ) → Heap
no_blocks pmm hhdm blocks words =
    let empty : Stats = record {
      total_alloc_bytes = 0;
      total_free_bytes = 0;
      cur_bytes = 0;
      peak_bytes = 0;
      alloc_count = 0;
      free_count = 0;
      grow_count = 0;
      per_class_active = λ i. 0;
    } in
    record {
      blocks = blocks;
      words = words;
      head = 0;
      buckets = λ i. 0;
      heap_pages_total = 0;
      bad_frees = 0;
      bad_canaries = 0;
      stats = empty;
      pmm = pmm;
      hhdm = hhdm;
    }

unfoldable pub heap_init : Pmm → (hhdm : ℕ) → (blocks : ℕ → Block) → (words : ℕ → ℕ) → Option Heap
heap_init pmm hhdm blocks words = elim (grow 0 0x100000 (no_blocks pmm hhdm blocks words)) [
  | none ↦ none
  | some (b, h1) ↦ some (if b == 0 then h1 else bucket_push b (class_for (h1.blocks b).size) h1)
]

-- (n + 15) & ~15
abbrev pub round16 : ℕ → ℕ
round16 n = add64 n 15 / 16 * 16

unfoldable pub count_alloc : (n : ℕ) → Stats → Stats
count_alloc n s = record s {
  total_alloc_bytes = add64 s.total_alloc_bytes n;
  alloc_count = add64 s.alloc_count 1;
  cur_bytes = add64 s.cur_bytes n;
  peak_bytes = if ltb s.peak_bytes (add64 s.cur_bytes n) then add64 s.cur_bytes n else s.peak_bytes;
  per_class_active =
      update s.per_class_active (class_for n) (add64 (s.per_class_active (class_for n)) 1);
}

-- b->free = false, the request and its canary, and the statistics
unfoldable pub mark_used : (b n : ℕ) → Heap → Heap
mark_used b n h =
    let h1 = modify b (λ x. record x { free = false; req = n }) h in
    record h1 {
      words = update h1.words (canary_of b h1) heap_canary;
      stats = count_alloc n h1.stats;
    }

-- what kmalloc does with the block `b` that it found, for a rounded request
unfoldable pub hand_out : (b n : ℕ) → Heap → ℕ × Heap
hand_out b n h =
    let (rem, h1) = split b n h in
    let h2 = if rem == 0 then h1 else bucket_push rem (class_for (h1.blocks rem).size) h1 in
    (payload b, mark_used b n h2)

-- a block of the free lists, or else of new pages
unfoldable pub obtain_block : (fuel n : ℕ) → Heap → Option (ℕ × Heap)
obtain_block fuel n h =
    let (b, h1) = alloc_from_class fuel n h in
    elim (b == 0) [ true ↦ grow fuel n h1 | false ↦ some (b, h1) ]

unfoldable pub kmalloc : (fuel n : ℕ) → Heap → Option (ℕ × Heap)
kmalloc fuel n h = elim (n == 0) [
  | true ↦ some (0, h)
  | false ↦ elim (obtain_block fuel (round16 n) h) [
    | none ↦ none
    | some (b, h1) ↦ elim (b == 0) [
      | true ↦ some (0, h1)
      | false ↦ some (hand_out b (round16 n) h1)
    ]
  ]
]

-- while (align < want) align <<= 1
unfoldable pub double_to : (fuel align want : ℕ) → ℕ
double_to zero align want = align
double_to (suc k) align want = elim (ltb align want) [
  | true ↦ double_to k (align * 2 % u64_mod) want
  | false ↦ align
]

unfoldable pub pow2_align : ℕ → ℕ
pow2_align align = if bit_and align (align - 1) == 0 then align else double_to 64 1 align

-- (raw + sizeof(void *) + align - 1) & ~(align - 1)
unfoldable pub align_up : (raw align : ℕ) → ℕ
align_up raw align = bit_and (sub64 (add64 (add64 raw 8) align) 1) (u64_mod - 1 - sub64 align 1)

-- The third component is the store of the pointers in front of the aligned ones.
unfoldable pub kmalloc_aligned : (fuel n align : ℕ) → Heap → (ℕ → ℕ) → Option (ℕ × Heap × (ℕ → ℕ))
kmalloc_aligned fuel n align h slots =
    let a = pow2_align align in
    elim (leb align 16) [
      | true ↦ elim (kmalloc fuel n h) [ none ↦ none | some (p, h1) ↦ some (p, h1, slots) ]
      | false ↦ elim (kmalloc fuel (add64 (add64 n a) 16) h) [
        | none ↦ none
        | some (raw, h1) ↦ elim (raw == 0) [
          | true ↦ some (0, h1, slots)
          | false ↦ some (align_up raw a, h1, update slots (sub64 (align_up raw a) 8) raw)
        ]
      ]
    ]
