-- ===== src/Mm/Pmm/Tests.antt =====
-- Runs of the functions of kernel/mm/pmm.c, and its theorems at concrete states.
use yart_os.Prelude.{
  ℕ, ◌+◌, ◌*◌, ◌/◌, ◌≤◌, ◌<◌, ◌≡◌, ◌≢◌, refl, false, arith, ltb, ◌==◌, if◌then◌else◌,
}
use yart_os.Mm.Pmm.{
  Pmm, page_size, scan, find_idx, find_free_locked, find_run, alloc_pages_below, unref_page,
  refcount,
}
use yart_os.Mm.Pmm.Inv.{IsValid, unref_page-IsValid}
use yart_os.Mm.Pmm.Alloc.{Fresh, find_free_locked-Fresh}
use yart_os.Mm.Pmm.Refs.{IsAllocated, unref_times, unref_times-all}
use yart_os.Mm.Pmm.Search.{AllFree}
use yart_os.Mm.Pmm.Runs.{Taken, alloc_pages_below-Taken}
use yart_os.Mm.Pmm.Oom.{nothing, Reclaim, IsLawful}

-- Six pages: page 0 is reserved, page 1 has two owners, the rest is free.
abbrev small : Pmm
small = record {
  used = λ i. ltb i 2;
  refs = λ i. if i == 1 then 2 else 0;
  total_pages = 6;
  used_pages = 2;
  last_idx = 3;
  double_free_count = 0;
  bad_ref_count = 0;
  oom_force = false;
  memory = λ a. 7;
}

small-IsValid : IsValid small
small-IsValid = record {
  counted = refl;
  bounded = omega arith;
  hint = omega arith;
  free_unref = λ i f. ground arith;
  refs_u16 = λ i. ground arith;
}

shared-IsAllocated : IsAllocated 0x1000 small
shared-IsAllocated = record { in_range = omega arith; used = refl }

-- The same with no other owner of page 1, and with as many as a count can hold.
abbrev single : Pmm
single = record small { refs = λ i. if i == 1 then 1 else 0 }

single-IsAllocated : IsAllocated 0x1000 single
single-IsAllocated = record { in_range = omega arith; used = refl }

abbrev saturated : Pmm
saturated = record small { refs = λ i. if i == 1 then 0xffff else 0 }

saturated-IsAllocated : IsAllocated 0x1000 saturated
saturated-IsAllocated = record { in_range = omega arith; used = refl }

finds_from_the_hint : (find_free_locked small).0 ≡ 0x3000
unfolding find_free_locked find_idx scan
finds_from_the_hint = refl

finds_a_run : (alloc_pages_below 3 0x5000 small).0 ≡ 0x2000
unfolding alloc_pages_below find_run
finds_a_run = refl

finds_no_run : (alloc_pages_below 4 0x5000 small).0 ≡ 0
unfolding alloc_pages_below find_run
finds_no_run = refl

frees_what_is_shared_once : (unref_page 0x1000 (unref_page 0x1000 small)).used 1 ≡ false
unfolding unref_page
frees_what_is_shared_once = refl

found_ne_zero : (find_free_locked small).0 ≢ 0
unfolding find_free_locked find_idx scan
found_ne_zero = omega arith

find_free_locked-Fresh_example : Fresh small (find_free_locked small).0 (find_free_locked small).1
find_free_locked-Fresh_example = find_free_locked-Fresh small-IsValid found_ne_zero

refcount_at_1 : refcount 0x1000 single ≡ 1
unfolding refcount
refcount_at_1 = refl

refcount_at_2 : refcount 0x1000 small ≡ 2
unfolding refcount
refcount_at_2 = refl

refcount_full : refcount 0x1000 saturated ≡ 0xffff
unfolding refcount
refcount_full = refl

unref_times-all_example :
    let t = unref_times 2 0x1000 small in
    (t.used 1 ≡ false)
    × (t.used_pages + 1 ≡ 2)
    × ((a : ℕ) → 0x1000 ≤ a → a < 0x2000 → t.memory a ≡ 0)
unref_times-all_example =
    unref_times-all 1 0x1000 small small-IsValid shared-IsAllocated (omega (arith, refcount_at_2))

below_ne_zero : (alloc_pages_below 3 0x5000 small).0 ≢ 0
unfolding alloc_pages_below find_run
below_ne_zero = omega arith

alloc_pages_below-Taken_example :
    let (p, t) = alloc_pages_below 3 0x5000 small in
    (p ≡ p / page_size * page_size)
    × (p + 3 * page_size ≤ 0x5000)
    × AllFree small.used (p / page_size) 3
    × Taken small (p / page_size) 3 t
alloc_pages_below-Taken_example =
    alloc_pages_below-Taken 3 0x5000 small small-IsValid (omega arith) below_ne_zero

-- Eviction that drops a reference of page 1, and a killer that finds nothing.
abbrev gentle : Reclaim
gentle = record { evict_some = λ n s. unref_page 0x1000 s; oom_kill_one = λ s. (nothing, s) }

gentle-IsLawful : IsLawful gentle
gentle-IsLawful = record { evict = λ n s v. unref_page-IsValid 0x1000 v; kill = λ s v. v }
