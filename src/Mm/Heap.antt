-- ===== src/Mm/Heap.antt =====
-- kernel/mm/heap.c: the kernel heap, blocks with a header and free lists by size class.
--
-- `blocks` is the memory seen as block headers and `words` the memory seen as numbers of 32 bits, both by
-- address; 0 is NULL. As in the code the list of the free blocks of a class goes through `req`.
-- The lock is held throughout each function, which is one step.
pub mod Mask
pub mod Alloc
pub mod Release
pub mod Chain
pub mod Lists
pub mod Found
pub mod Scan
pub mod Serve
pub mod Split
pub mod Space
pub mod Hand
pub mod Kmalloc
pub mod Grow
pub mod Kfree
pub mod Twice
pub mod Align
pub mod Init
mod Tests
use yart_os.Prelude.{
  ℕ, zero, suc, ◌+◌, ◌-◌, ◌*◌, ◌/◌, ◌%◌, Bool, true, false, Option, none, some, List, [], ◌∷◌,
  if◌then◌else◌, ltb, leb, ◌==◌, update, u64_mod, add64, get_or,
}
use yart_os.Mm.Pmm.{Pmm, Outcome, page, panic, page_size, alloc_run}

abbrev pub heap_magic : ℕ
heap_magic = 0x59415254

abbrev pub heap_canary : ℕ
heap_canary = 0xC0FFEE00

abbrev pub canary_bytes : ℕ
canary_bytes = 16

-- sizeof(block_t)
abbrev pub header_bytes : ℕ
header_bytes = 48

abbrev pub num_classes : ℕ
num_classes = 20

abbrev pub huge_class : ℕ
huge_class = 20

abbrev pub num_buckets : ℕ
num_buckets = 21

abbrev pub classes : List ℕ
classes =
    16 ∷ 32 ∷ 48 ∷ 64 ∷ 96 ∷ 128 ∷ 192 ∷ 256 ∷ 384 ∷ 512 ∷ 768 ∷ 1024 ∷ 1536 ∷ 2048 ∷ 3072 ∷ 4096
    ∷ 6144 ∷ 8192 ∷ 12288 ∷ 16384 ∷ []

pub record Block : Type 0 where
  pub magic : ℕ
  pub size : ℕ
  pub req : ℕ
  pub free : Bool
  pub next : ℕ
  pub prev : ℕ

pub record Stats : Type 0 where
  pub total_alloc_bytes : ℕ
  pub total_free_bytes : ℕ
  pub cur_bytes : ℕ
  pub peak_bytes : ℕ
  pub alloc_count : ℕ
  pub free_count : ℕ
  pub grow_count : ℕ
  pub per_class_active : ℕ → ℕ

pub record Heap : Type 0 where
  pub blocks : ℕ → Block
  pub words : ℕ → ℕ
  pub head : ℕ
  pub buckets : ℕ → ℕ
  pub heap_pages_total : ℕ
  pub bad_frees : ℕ
  pub bad_canaries : ℕ
  pub stats : Stats
  pub pmm : Pmm
  pub hhdm : ℕ

-- `uint64_t` subtraction
abbrev pub sub64 : ℕ → ℕ → ℕ
sub64 a b = (a + u64_mod - b) % u64_mod

-- the first class from the `i`-th on that holds `n` bytes
unfoldable pub class_from : (cs : List ℕ) (i n : ℕ) → ℕ
class_from [] i n = huge_class
class_from (c ∷ cs) i n = if leb n c then i else class_from cs (i + 1) n

unfoldable pub class_for : ℕ → ℕ
class_for n = class_from classes 0 n

abbrev pub payload : ℕ → ℕ
payload b = add64 b header_bytes

abbrev pub canary_of : ℕ → Heap → ℕ
canary_of b h = add64 (payload b) (h.blocks b).req

abbrev pub bfree_next : ℕ → Heap → ℕ
bfree_next b h = (h.blocks b).req

-- *b = f(*b)
abbrev pub modify : ℕ → (Block → Block) → Heap → Heap
modify b f h = record h { blocks = update h.blocks b (f (h.blocks b)) }

abbrev pub bfree_set_next : ℕ → ℕ → Heap → Heap
bfree_set_next b n h = modify b (λ x. record x { req = n }) h

unfoldable pub bucket_push : (b ci : ℕ) → Heap → Heap
bucket_push b ci h =
    let h1 = bfree_set_next b (h.buckets ci) h in record h1 { buckets = update h.buckets ci b }

unfoldable pub bucket_pop : (ci : ℕ) → Heap → ℕ × Heap
bucket_pop ci h =
    let b = h.buckets ci in
    if b == 0 then (0, h) else (b, record h { buckets = update h.buckets ci (bfree_next b h) })

-- the inner loop of bucket_remove: the block from `t` on whose successor is `b`, or 0
unfoldable pub link_to : (fuel t b : ℕ) → Heap → ℕ
link_to zero t b h = 0
link_to (suc k) t b h = elim (t == 0) [
  | true ↦ 0
  | false ↦ elim (bfree_next t h == b) [ true ↦ t | false ↦ link_to k (bfree_next t h) b h ]
]

-- for (i = NUM_BUCKETS - rounds; i < NUM_BUCKETS; i++) ...
unfoldable pub remove_from : (fuel rounds i b : ℕ) → Heap → Heap
remove_from fuel zero i b h = h
remove_from fuel (suc k) i b h = elim (h.buckets i == b) [
  | true ↦ record h { buckets = update h.buckets i (bfree_next b h) }
  | false ↦ elim (link_to fuel (h.buckets i) b h == 0) [
    | true ↦ remove_from fuel k (i + 1) b h
    | false ↦ bfree_set_next (link_to fuel (h.buckets i) b h) (bfree_next b h) h
  ]
]

unfoldable pub bucket_remove : (fuel b : ℕ) → Heap → Heap
bucket_remove fuel b h = remove_from fuel num_buckets 0 b h
