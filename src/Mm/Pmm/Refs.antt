-- ===== src/Mm/Pmm/Refs.antt =====
-- The reference counts of kernel/mm/pmm.c: pmm_ref_page, pmm_unref_page and what they detect.
use yart_os.Prelude.{
  ℕ, zero, suc, ◌+◌, ◌-◌, ◌/◌, ◌≤◌, ◌<◌, ◌≡◌, ◌⊎◌, refl, true, false, inl, inr, arith, update,
  count_below-clear, count_below-le, add64, u64_mod, sym,
}
use yart_os.Mm.Pmm.{Pmm, page_size, ref_page, unref_page, refcount, release}
use yart_os.Mm.Pmm.Inv.{IsValid}

-- The page at `p` is in range and allocated.
pub record IsAllocated (p : ℕ) (s : Pmm) : Type 0 where
  pub in_range : p / page_size < s.total_pages
  pub used : s.used (p / page_size) ≡ true

-- Dropping a reference that a page does not have (a free page, a page out of range, a page with a
-- count of 0) changes the detector's counter and nothing else.
pub unref_page-detects :
    (p : ℕ) (s : Pmm)
    → (s.total_pages ≤ p / page_size)
      ⊎ ((s.used (p / page_size) ≡ false) ⊎ (s.refs (p / page_size) ≡ 0))
    → unref_page p s ≡ record s { double_free_count = add64 s.double_free_count 1 }
unfolding unref_page
unref_page-detects p s h = ground arith

module _ (p : ℕ) (s : Pmm) (h : IsAllocated p s) where
  unref_page-last : refcount p s ≡ 1 → unref_page p s ≡ release p (p / page_size) s
  unfolding unref_page refcount
  unref_page-last e = ground (arith, h.in_range, h.used)

  unref_page-shared :
      1 < refcount p s
      → unref_page p s
        ≡ record s { refs = update s.refs (p / page_size) (s.refs (p / page_size) - 1) }
  unfolding unref_page refcount
  unref_page-shared e = ground (arith, h.in_range, h.used)

  ref_page-counts :
      refcount p s < 0xffff
      → ref_page p s
        ≡ record s { refs = update s.refs (p / page_size) (s.refs (p / page_size) + 1) }
  unfolding ref_page refcount
  ref_page-counts e = ground (arith, h.in_range, h.used)

  refcount-allocated : refcount p s ≡ s.refs (p / page_size)
  unfolding refcount
  refcount-allocated = ground (arith, h.in_range)

-- Freeing twice an allocated page that has one owner: the first call frees it and counts no error,
-- and the second is detected and changes nothing else.
pub double_free :
    (p : ℕ) (s : Pmm)
    → IsAllocated p s
    → refcount p s ≡ 1
    → let t = unref_page p s in
      (t.used (p / page_size) ≡ false)
      × (t.double_free_count ≡ s.double_free_count)
      × (unref_page p t ≡ record t { double_free_count = add64 t.double_free_count 1 })
unfolding release
double_free p s h e =
    rw (unref_page-last p s h e)
      (ground arith, refl, unref_page-detects p _ (inr (inl (ground arith))))

module _ (p : ℕ) (s : Pmm) (h : IsAllocated p s) where
  -- For an allocated page with an owner, below the saturation point, a new reference is counted and undone by dropping it: bitmap, counts, number of
  -- used pages and memory are as before.
  pub unref_page-ref_page :
      0 < refcount p s
      → refcount p s < 0xffff
      → let t = unref_page p (ref_page p s) in
        (t.used ≡ s.used)
        × ((j : ℕ) → t.refs j ≡ s.refs j)
        × (t.used_pages ≡ s.used_pages)
        × (t.memory ≡ s.memory)
        × (refcount p (ref_page p s) ≡ refcount p s + 1)
  unref_page-ref_page lo hi =
      let i = p / page_size in
      let t : Pmm = record s { refs = update s.refs i (s.refs i + 1) } in
      let a : IsAllocated p t = record { in_range = h.in_range; used = h.used } in
      let c : refcount p t ≡ refcount p s + 1 =
        ground (arith, refcount-allocated p t a, refcount-allocated p s h) in
      rw (ref_page-counts p s h hi, unref_page-shared p t a (omega (arith, c)))
        (refl, (λ j. ground arith), refl, refl, c)

  -- For an allocated page at the saturation point the new reference is not counted, and dropping it takes away one that
  -- another owner holds.
  pub ref_page-saturates :
      refcount p s ≡ 0xffff
      → (ref_page p s ≡ s) × (refcount p (unref_page p (ref_page p s)) ≡ 0xfffe)
  unfolding unref_page ref_page refcount
  ref_page-saturates e = (ground (arith, h.in_range, h.used), ground (arith, h.in_range, h.used))

-- `k` owners drop their references.
pub unref_times : ℕ → ℕ → Pmm → Pmm
unref_times zero p s = s
unref_times (suc k) p s = unref_times k p (unref_page p s)

unref_times-zero : (p : ℕ) (s : Pmm) → unref_times 0 p s ≡ s
unfolding unref_times
unref_times-zero p s = refl

unref_times-suc : (k p : ℕ) (s : Pmm) → unref_times (suc k) p s ≡ unref_times k p (unref_page p s)
unfolding unref_times
unref_times-suc k p s = refl

-- With fewer drops than references an allocated page stays allocated and its contents stay; the count says
-- how many are left.
pub unref_times-lt :
    (k p : ℕ) (s : Pmm)
    → IsAllocated p s
    → k < refcount p s
    → let t = unref_times k p s in
      IsAllocated p t
      × (refcount p t + k ≡ refcount p s)
      × (t.used_pages ≡ s.used_pages)
      × (t.memory ≡ s.memory)
unref_times-lt zero p s a h = rw unref_times-zero (a, omega arith, refl, refl)
unref_times-lt (suc k) p s a h =
    let i = p / page_size in
    let t : Pmm = record s { refs = update s.refs i (s.refs i - 1) } in
    let b : IsAllocated p t = record { in_range = a.in_range; used = a.used } in
    let c : refcount p t + 1 ≡ refcount p s =
      ground (arith, refcount-allocated p t b, refcount-allocated p s a) in
    let (x, y, z, w) = unref_times-lt k p t b (omega (arith, c)) in
    rw (unref_times-suc k p s, unref_page-shared p s a (omega arith)) (x, omega (arith, c, y), z, w)

-- As many drops as references free the page.
unref_times-eq :
    (k p : ℕ) (s : Pmm)
    → IsAllocated p s
    → 0 < s.used_pages
    → s.used_pages < u64_mod
    → suc k ≡ refcount p s
    → let t = unref_times (suc k) p s in
      (t.used (p / page_size) ≡ false)
      × (t.used_pages + 1 ≡ s.used_pages)
      × ((a : ℕ) → p ≤ a → a < p + page_size → t.memory a ≡ 0)
unfolding release
unref_times-eq zero p s a lo hi e =
    rw (unref_times-suc 0 p s, unref_times-zero, unref_page-last p s a (sym e))
      (ground arith, omega arith, λ q l u. ground arith)
unref_times-eq (suc k) p s a lo hi e =
    let i = p / page_size in
    let t : Pmm = record s { refs = update s.refs i (s.refs i - 1) } in
    let b : IsAllocated p t = record { in_range = a.in_range; used = a.used } in
    let c : refcount p t + 1 ≡ refcount p s =
      ground (arith, refcount-allocated p t b, refcount-allocated p s a) in
    rw (unref_times-suc (suc k) p s, unref_page-shared p s a (omega arith))
      (unref_times-eq k p t b lo hi (omega (arith, c)))

-- In a valid state, dropping every reference of an allocated page frees it: its bit is cleared, one used page less
-- is counted, and it reads as zeros.
pub unref_times-all :
    (k p : ℕ) (s : Pmm)
    → IsValid s
    → IsAllocated p s
    → suc k ≡ refcount p s
    → let t = unref_times (suc k) p s in
      (t.used (p / page_size) ≡ false)
      × (t.used_pages + 1 ≡ s.used_pages)
      × ((a : ℕ) → p ≤ a → a < p + page_size → t.memory a ≡ 0)
unref_times-all k p s v a e =
    let c = count_below-clear s.total_pages (p / page_size) s.used a.in_range a.used in
    let b = count_below-le s.total_pages s.used in
    unref_times-eq k p s a (omega (arith, c, v.counted)) (omega (arith, b, v.counted, v.bounded)) e
