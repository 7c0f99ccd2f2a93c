-- ===== src/Mm/Heap/Release.antt =====
-- kfree and kfree_aligned of kernel/mm/heap.c.
use yart_os.Prelude.{
  ℕ, ◌+◌, ◌-◌, Bool, true, false, if◌then◌else◌, ltb, ◌==◌, not, ◌&&◌, update, add64,
}
use yart_os.Mm.Heap.{
  Heap, Stats, heap_magic, heap_canary, canary_bytes, header_bytes, num_buckets, sub64, class_for,
  canary_of, modify, bucket_push, bucket_remove,
}

unfoldable pub count_free : (req : ℕ) → Stats → Stats
count_free req s =
    let ci = class_for req in
    record s {
      per_class_active =
          if ltb ci num_buckets && not (s.per_class_active ci == 0)
          then update s.per_class_active ci (s.per_class_active ci - 1)
          else s.per_class_active;
      total_free_bytes = add64 s.total_free_bytes req;
      free_count = add64 s.free_count 1;
      cur_bytes = s.cur_bytes - (if ltb req s.cur_bytes then req else s.cur_bytes);
    }

-- `a` takes in the block `b` behind it in the list of all blocks.
unfoldable pub absorb : (a b : ℕ) → Heap → Heap
absorb a b h =
    let h1 =
      modify a
        (λ x. record x {
          size = add64 x.size (add64 (header_bytes + canary_bytes) (h.blocks b).size);
          next = (h.blocks b).next;
        })
        h in
    if (h.blocks b).next == 0 then h1 else modify (h.blocks b).next (λ x. record x { prev = a }) h1

-- a && a->free
abbrev pub is_free : (a : ℕ) → Heap → Bool
is_free a h = not (a == 0) && (h.blocks a).free

-- if (b->next && b->next->free) ...
unfoldable pub join_next : (fuel b : ℕ) → Heap → Heap
join_next fuel b h =
    let nx = (h.blocks b).next in
    elim (is_free nx h) [ false ↦ h | true ↦ absorb b nx (bucket_remove fuel nx h) ]

-- if (b->prev && b->prev->free) ..., with the block that is then `b`
unfoldable pub join_prev : (fuel b : ℕ) → Heap → ℕ × Heap
join_prev fuel b h =
    let pv = (h.blocks b).prev in
    elim (is_free pv h) [ false ↦ (b, h) | true ↦ (pv, absorb pv b (bucket_remove fuel pv h)) ]

unfoldable pub put_back : (fuel b : ℕ) → Heap → Heap
put_back fuel b h =
    let (c, h1) = join_prev fuel b (join_next fuel b h) in
    let h2 = modify c (λ x. record x { free = true; req = 0 }) h1 in
    bucket_push c (class_for (h2.blocks c).size) h2

-- the check of the canary and the statistics
unfoldable pub count_release : (b : ℕ) → Heap → Heap
count_release b h = record h {
  bad_canaries =
      if h.words (canary_of b h) == heap_canary then h.bad_canaries else add64 h.bad_canaries 1;
  stats = count_free (h.blocks b).req h.stats;
}

unfoldable pub kfree : (fuel p : ℕ) → Heap → Heap
kfree fuel p h =
    let b = sub64 p header_bytes in
    let bad = record h { bad_frees = add64 h.bad_frees 1 } in
    elim (p == 0) [
      | true ↦ h
      | false ↦ elim (not ((h.blocks b).magic == heap_magic)) [
        | true ↦ bad
        | false ↦ elim (h.blocks b).free [
          | true ↦ bad
          | false ↦ put_back fuel b (count_release b h)
        ]
      ]
    ]

unfoldable pub kfree_aligned : (fuel p : ℕ) → (ℕ → ℕ) → Heap → Heap
kfree_aligned fuel p slots h = elim (p == 0) [ true ↦ h | false ↦ kfree fuel (slots (sub64 p 8)) h ]
