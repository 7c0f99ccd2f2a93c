-- ===== src/Mm/Heap/Split.antt =====
-- split of kernel/mm/heap.c: the two blocks that a block is cut into.
use yart_os.Prelude.{ℕ, ◌+◌, ◌≤◌, ◌<◌, ◌≡◌, ◌≢◌, true, arith, u64_mod}
use yart_os.Mm.Heap.{Heap, Block, heap_magic}
use yart_os.Mm.Heap.Alloc.{split}

-- the address behind the block at `b`: header, payload and canary gap
abbrev pub end_of : (ℕ → Block) → ℕ → ℕ
end_of f b = b + 64 + (f b).size

-- what a list of free blocks and its sizes read of a header
abbrev pub SameBody : (f g : ℕ → Block) → ℕ → Type 0
SameBody f g x =
    ((g x).magic ≡ (f x).magic)
    × ((g x).size ≡ (f x).size)
    × ((g x).req ≡ (f x).req)
    × ((g x).free ≡ (f x).free)
    × ((g x).next ≡ (f x).next)

-- In `h1` the block `b` of `h` is cut into one of `want` bytes and the free block `n`, which fill its
-- place and follow each other in the list of all blocks.
pub record IsCut (h : Heap) (b want n : ℕ) (h1 : Heap) : Type 0 where
  pub place : n ≡ b + 64 + want
  pub left : (h1.blocks b).size ≡ want
  pub right : end_of h1.blocks n ≡ end_of h.blocks b
  pub room : 32 ≤ (h1.blocks n).size
  pub marked_free : (h1.blocks n).free ≡ true
  pub magic : (h1.blocks n).magic ≡ heap_magic
  pub linked : ((h1.blocks b).next ≡ n) × ((h1.blocks n).next ≡ (h.blocks b).next)
  pub back : (h.blocks b).next ≢ 0 → (h.blocks b).next ≢ b → (h1.blocks (h.blocks b).next).prev ≡ n
  pub others : (x : ℕ) → x ≢ b → x ≢ n → SameBody h.blocks h1.blocks x
  pub buckets : h1.buckets ≡ h.buckets
  pub words : h1.words ≡ h.words

-- Cutting a block whose end is below 2^64 and that has room for 96 bytes more than are wanted gives one of just the size that is wanted and
-- a free block of at least 32 bytes that together fill its place, linked with each other and with the block that came next; other blocks keep
-- their size, mark and free-list link.
pub split-IsCut :
    (b want : ℕ) (h : Heap)
    → end_of h.blocks b < u64_mod
    → want + 96 ≤ (h.blocks b).size
    → (h.blocks b).next ≢ b + 64 + want
    → IsCut h b want (split b want h).0 (split b want h).1
unfolding split
split-IsCut b want h fits room apart = record {
  place = ground (arith, fits, room);
  left = ground (arith, fits, room);
  right = ground (arith, fits, room, apart);
  room = ground (arith, fits, room, apart);
  marked_free = ground (arith, fits, room, apart);
  magic = ground (arith, fits, room, apart);
  linked = (ground (arith, fits, room, apart), ground (arith, fits, room, apart));
  back = λ m k. ground (arith, fits, room, apart, m, k);
  others = λ x m k. (
    ground (arith, fits, room, m, k),
    ground (arith, fits, room, m, k),
    ground (arith, fits, room, m, k),
    ground (arith, fits, room, m, k),
    ground (arith, fits, room, m, k),
  );
  buckets = ground (arith, fits, room);
  words = ground (arith, fits, room);
}
