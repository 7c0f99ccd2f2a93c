-- ===== src/Mm/Pmm.antt =====
-- kernel/mm/pmm.c: the physical page allocator, a bitmap with a reference count for each page.
--
-- The bitmap is the function that BIT_TST computes: bit `i % 64` of word `i / 64` is `used i`, and
-- BIT_SET and BIT_CLR write that bit. `refs` is the array of u16 counts. Physical memory is a
-- function from an address to its byte. Each function that takes pmm_lock is one step.
pub mod Inv
pub mod Alloc
pub mod Refs
pub mod Search
pub mod Runs
pub mod Oom
pub mod Init
mod Tests
use yart_os.Prelude.{
  ℕ, zero, suc, ◌+◌, ◌-◌, ◌*◌, ◌/◌, ◌%◌, Bool, true, false, ◌&&◌, ◌||◌, Option, none, some,
  if◌then◌else◌, ltb, leb, ◌==◌, update, u64_mod, add64,
}

abbrev pub page_size : ℕ
page_size = 0x1000

pub record Pmm : Type 0 where
  pub used : ℕ → Bool
  pub refs : ℕ → ℕ
  pub total_pages : ℕ
  pub used_pages : ℕ
  pub last_idx : ℕ
  pub double_free_count : ℕ
  pub bad_ref_count : ℕ
  pub oom_force : Bool
  pub memory : ℕ → ℕ

-- memset(phys_to_virt(p), 0, PAGE_SIZE)
abbrev pub zero_page : (ℕ → ℕ) → ℕ → ℕ → ℕ
zero_page memory p a = if leb p a && ltb a (p + page_size) then 0 else memory a

-- (paddr_t)i * PAGE_SIZE
abbrev pub address : ℕ → ℕ
address i = (i * page_size) % u64_mod

-- the state after alloc_idx(i), which returns `address i`
unfoldable pub alloc_idx : ℕ → Pmm → Pmm
alloc_idx i s = record s {
  used = update s.used i true;
  used_pages = add64 s.used_pages 1;
  last_idx = add64 i 1;
  refs = update s.refs i 1;
  memory = zero_page s.memory (address i);
}

-- for (i = start; i < start + rounds; i++) if (!BIT_TST(i)) ...
pub scan : (rounds i : ℕ) → (ℕ → Bool) → Option ℕ
scan zero i used = none
scan (suc n) i used = elim (used i) [ true ↦ scan n (i + 1) used | false ↦ some i ]

-- the index that the two passes over the bitmap settle on
pub find_idx : Pmm → Option ℕ
find_idx s = elim (scan (s.total_pages - s.last_idx) s.last_idx s.used) [
  | some i ↦ some i
  | none ↦ scan s.last_idx 0 s.used
]

pub find_free_locked : Pmm → ℕ × Pmm
find_free_locked s = elim (find_idx s) [ none ↦ (0, s) | some i ↦ (address i, alloc_idx i s) ]

-- The search for a run of `n` free pages: `run` of them end just before `i`.
unfoldable pub find_run : (rounds i run run_start n : ℕ) → (ℕ → Bool) → Option ℕ
find_run zero i run run_start n used = none
find_run (suc k) i run run_start n used = elim (used i) [
  | true ↦ find_run k (i + 1) 0 run_start n used
  | false ↦ elim (run + 1 == n) [
    | true ↦ some (if run == 0 then i else run_start)
    | false ↦ find_run k (i + 1) (run + 1) (if run == 0 then i else run_start) n used
  ]
]

-- for (k = 0; k < n; k++) alloc_idx(run_start + k)
pub take_run : (n run_start : ℕ) → Pmm → Pmm
take_run zero i s = s
take_run (suc n) i s = take_run n (i + 1) (alloc_idx i s)

-- `panic` stands for kpanic, which does not return.
pub data Outcome : Type 0 where
  page : ℕ → Outcome
  panic : Outcome

-- `n != 1`; the other case is pmm_alloc_page.
unfoldable pub alloc_run : ℕ → Pmm → Outcome × Pmm
alloc_run n s = elim (find_run s.total_pages 0 0 0 n s.used) [
  | none ↦ (panic, s)
  | some i ↦ (page (address i), take_run n i s)
]

-- A result of 0 is the failure that the caller sees.
pub alloc_pages_below : (n limit : ℕ) → Pmm → ℕ × Pmm
alloc_pages_below n limit s =
    let max_idx =
      if ltb s.total_pages (limit / page_size) then s.total_pages else limit / page_size in
    let found : ℕ × Pmm = elim (find_run max_idx 0 0 0 n s.used) [
      | none ↦ (0, s)
      | some i ↦ (address i, take_run n i s)
    ] in
    if n == 0 then (0, s) else if ltb max_idx n then (0, s) else found

pub ref_page : ℕ → Pmm → Pmm
ref_page p s =
    let i = p / page_size in
    if leb s.total_pages i
    then record s { bad_ref_count = add64 s.bad_ref_count 1 }
    else if s.used i
    then (if ltb (s.refs i) 0xffff then record s { refs = update s.refs i (s.refs i + 1) } else s)
    else record s { bad_ref_count = add64 s.bad_ref_count 1 }

pub refcount : ℕ → Pmm → ℕ
refcount p s = if leb s.total_pages (p / page_size) then 0 else s.refs (p / page_size)

-- the last reference is dropped
release : (p i : ℕ) → Pmm → Pmm
release p i s = record s {
  refs = update s.refs i 0;
  memory = zero_page s.memory p;
  used = update s.used i false;
  used_pages = (s.used_pages + u64_mod - 1) % u64_mod;
  last_idx = if ltb i s.last_idx then i else s.last_idx;
}

pub unref_page : ℕ → Pmm → Pmm
unfolding release
unref_page p s =
    let i = p / page_size in
    let bad = record s { double_free_count = add64 s.double_free_count 1 } in
    if leb s.total_pages i
    then bad
    else if s.used i
    then (if s.refs i == 0
        then bad
        else if s.refs i - 1 == 0
        then release p i s
        else record s { refs = update s.refs i (s.refs i - 1) })
    else bad

-- The addresses p, p + PAGE_SIZE, ... : `k` is the round.
free_loop : (rounds k p : ℕ) → Pmm → Pmm
free_loop zero k p s = s
free_loop (suc n) k p s = free_loop n (k + 1) p (unref_page (add64 p (k * page_size)) s)

pub free_pages : (p n : ℕ) → Pmm → Pmm
unfolding free_loop
free_pages p n s = free_loop n 0 p s

pub mark_page_used : ℕ → Pmm → Pmm
mark_page_used p s =
    let i = p / page_size in
    if leb s.total_pages i || s.used i then s else record s {
      used = update s.used i true;
      used_pages = add64 s.used_pages 1;
      refs = update s.refs i 1;
    }

mark_loop : (rounds k base : ℕ) → Pmm → Pmm
mark_loop zero k base s = s
mark_loop (suc n) k base s =
    mark_loop n (k + 1) base (mark_page_used (add64 base (k * page_size)) s)

pub mark_range_used : (base npages : ℕ) → Pmm → Pmm
unfolding mark_loop
mark_range_used base npages s = mark_loop npages 0 base s

pub page_used : ℕ → Pmm → Bool
page_used p s = if leb s.total_pages (p / page_size) then true else s.used (p / page_size)
