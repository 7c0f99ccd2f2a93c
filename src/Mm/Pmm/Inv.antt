-- ===== src/Mm/Pmm/Inv.antt =====
-- The well-formedness of the page allocator's state, kept by every function of kernel/mm/pmm.c.
use yart_os.Prelude.{
  ℕ, zero, suc, ◌+◌, ◌*◌, ◌/◌, ◌^◌, ◌≤◌, ◌<◌, ◌≡◌, true, false, arith, count_below, count_below-le,
  add64, count_below-mark, count_below-clear,
}
use yart_os.Mm.Pmm.{
  Pmm, page_size, alloc_idx, ref_page, unref_page, mark_page_used, free_loop, free_pages, mark_loop,
  mark_range_used, release,
}

pub record IsValid (s : Pmm) : Type 0 where
  -- `used_pages` counts the set bits of the bitmap.
  pub counted : s.used_pages ≡ count_below s.total_pages s.used
  -- Physical addresses have 64 bits.
  pub bounded : s.total_pages ≤ 2 ^ 52
  pub hint : s.last_idx ≤ s.total_pages
  -- A free page has no references.
  pub free_unref : (i : ℕ) → s.used i ≡ false → s.refs i ≡ 0
  pub refs_u16 : (i : ℕ) → s.refs i ≤ 0xffff

pub alloc_idx-IsValid :
    {s : Pmm} (i : ℕ) → IsValid s → i < s.total_pages → s.used i ≡ false → IsValid (alloc_idx i s)
unfolding alloc_idx
alloc_idx-IsValid {s} i v h e = record {
  counted = omega (
    arith,
    v.counted,
    count_below-mark s.total_pages i s.used h e,
    count_below-le s.total_pages s.used,
    v.bounded,
  );
  bounded = v.bounded;
  hint = omega (arith, v.bounded);
  free_unref = λ j. ground (arith, v.free_unref j);
  refs_u16 = λ j. ground (arith, v.refs_u16 j);
}

pub ref_page-IsValid : {s : Pmm} (p : ℕ) → IsValid s → IsValid (ref_page p s)
unfolding ref_page
ref_page-IsValid {s} p v = record {
  counted = ground (arith, v.counted);
  bounded = ground (arith, v.bounded);
  hint = ground (arith, v.hint);
  free_unref = λ j. ground (arith, v.free_unref j);
  refs_u16 = λ j. ground (arith, v.refs_u16 j);
}

release-IsValid :
    {s : Pmm} (p i : ℕ) → IsValid s → i < s.total_pages → s.used i ≡ true → IsValid (release p i s)
unfolding release
release-IsValid {s} p i v h e = record {
  counted = omega (
    arith,
    v.counted,
    count_below-clear s.total_pages i s.used h e,
    count_below-le s.total_pages s.used,
    v.bounded,
  );
  bounded = v.bounded;
  hint = ground (arith, v.hint);
  free_unref = λ j. ground (arith, v.free_unref j);
  refs_u16 = λ j. ground (arith, v.refs_u16 j);
}

-- Dropping a reference, to whatever address, keeps a valid state valid.
pub unref_page-IsValid : {s : Pmm} (p : ℕ) → IsValid s → IsValid (unref_page p s)
unfolding unref_page
unref_page-IsValid {s} p v = record {
  counted = ground (
    arith,
    v.counted,
    count_below-clear s.total_pages (p / page_size) s.used,
    count_below-le s.total_pages s.used,
    v.bounded,
  );
  bounded = ground (arith, v.bounded);
  hint = ground (arith, v.hint);
  free_unref = λ j. ground (arith, v.free_unref j);
  refs_u16 = λ j. ground (arith, v.refs_u16 j);
}

pub mark_page_used-IsValid : {s : Pmm} (p : ℕ) → IsValid s → IsValid (mark_page_used p s)
unfolding mark_page_used
mark_page_used-IsValid {s} p v = record {
  counted = ground (
    arith,
    v.counted,
    count_below-mark s.total_pages (p / page_size) s.used,
    count_below-le s.total_pages s.used,
    v.bounded,
  );
  bounded = ground (arith, v.bounded);
  hint = ground (arith, v.hint);
  free_unref = λ j. ground (arith, v.free_unref j);
  refs_u16 = λ j. ground (arith, v.refs_u16 j);
}

free_loop-IsValid : (n k p : ℕ) (s : Pmm) → IsValid s → IsValid (free_loop n k p s)
unfolding free_loop
free_loop-IsValid zero k p s v = v
free_loop-IsValid (suc n) k p s v =
    free_loop-IsValid n (k + 1) p _ (unref_page-IsValid (add64 p (k * page_size)) v)

-- Freeing a run of pages, owned or not, keeps a valid state valid.
pub free_pages-IsValid : {s : Pmm} (p n : ℕ) → IsValid s → IsValid (free_pages p n s)
unfolding free_pages
free_pages-IsValid {s} p n v = free_loop-IsValid n 0 p s v

mark_loop-IsValid : (n k base : ℕ) (s : Pmm) → IsValid s → IsValid (mark_loop n k base s)
unfolding mark_loop
mark_loop-IsValid zero k base s v = v
mark_loop-IsValid (suc n) k base s v =
    mark_loop-IsValid n (k + 1) base _ (mark_page_used-IsValid (add64 base (k * page_size)) v)

-- Reserving a range of pages, in range or not, keeps a valid state valid.
pub mark_range_used-IsValid :
    {s : Pmm} (base npages : ℕ) → IsValid s → IsValid (mark_range_used base npages s)
unfolding mark_range_used
mark_range_used-IsValid {s} base npages v = mark_loop-IsValid npages 0 base s v
