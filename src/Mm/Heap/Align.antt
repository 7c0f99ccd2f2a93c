-- ===== src/Mm/Heap/Align.antt =====
-- kmalloc_aligned and kfree_aligned of kernel/mm/heap.c.
use yart_os.Prelude.{ℕ, ◌*◌, ◌^◌, ◌≤◌, ◌<◌, ◌≡◌}
use yart_os.Mm.Heap.{Heap}

-- The least power of two that reaches `want`.
abbrev pub LeastPow : (want r : ℕ) → Type 0
LeastPow want r = (j : ℕ) × (r ≡ 2 ^ j) × (want ≤ r) × (r < 2 * want)
