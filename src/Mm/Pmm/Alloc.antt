-- ===== src/Mm/Pmm/Alloc.antt =====
-- find_free_locked of kernel/mm/pmm.c: which page it hands out, and when it hands out none.
use yart_os.Prelude.{
  ℕ, zero, suc, ◌+◌, ◌-◌, ◌*◌, ◌/◌, ◌≤◌, ◌<◌, ◌≡◌, ◌≢◌, ◌⊎◌, refl, Bool, true, false, some, none,
  inl, inr, arith, Bool-cases, count_below-le, ◌↔◌, Option-cases,
}
use yart_os.Mm.Pmm.{
  Pmm, page_size, address, alloc_idx, scan, find_idx, find_free_locked, unref_page,
}
use yart_os.Mm.Pmm.Inv.{IsValid, alloc_idx-IsValid}

-- What a scan finds is in its range, is free, and is the first such index.
pub scan-some :
    (n i r : ℕ) (used : ℕ → Bool)
    → scan n i used ≡ some r
    → (i ≤ r) × (r < i + n) × (used r ≡ false)
unfolding scan
scan-some zero i r used e = absurd (grind arith)
scan-some (suc n) i r used e = elim (Bool-cases (used i)) [
  | inl u ↦ ground (arith, scan-some n (i + 1) r used)
  | inr f ↦ ground arith
]

-- A scan that finds nothing has met only used pages.
pub scan-none :
    (n i j : ℕ) (used : ℕ → Bool) → scan n i used ≡ none → i ≤ j → j < i + n → used j ≡ true
unfolding scan
scan-none zero i j used e lo hi = absurd (omega arith)
scan-none (suc n) i j used e lo hi = elim (Bool-cases (used i)) [
  | inl u ↦ ground (arith, scan-none n (i + 1) j used)
  | inr f ↦ ground arith
]

pub find_idx-some :
    {s : Pmm} {i : ℕ} → IsValid s → find_idx s ≡ some i → (i < s.total_pages) × (s.used i ≡ false)
unfolding find_idx
find_idx-some {s} {i} v e =
    elim (Option-cases (scan (s.total_pages - s.last_idx) s.last_idx s.used)) [
      | inl n ↦ ground (arith, scan-some s.last_idx 0 i s.used, v.hint)
      | inr (j, y) ↦
          ground (arith, scan-some (s.total_pages - s.last_idx) s.last_idx i s.used, v.hint)
    ]

pub find_idx-none :
    {s : Pmm} → IsValid s → find_idx s ≡ none → (i : ℕ) → i < s.total_pages → s.used i ≡ true
unfolding find_idx
find_idx-none {s} v e i h = ground (
  arith,
  scan-none (s.total_pages - s.last_idx) s.last_idx i s.used,
  scan-none s.last_idx 0 i s.used,
  v.hint,
)

-- `s'` is `s` with the page at `p` handed out: it was free, now has one owner and reads as zeros,
-- and no other page changed.
pub record Fresh (s : Pmm) (p : ℕ) (s' : Pmm) : Type 0 where
  pub aligned : p ≡ (p / page_size) * page_size
  pub in_range : p / page_size < s.total_pages
  pub was_free : s.used (p / page_size) ≡ false
  pub taken : s'.used (p / page_size) ≡ true
  pub owned : s'.refs (p / page_size) ≡ 1
  pub zeroed : (a : ℕ) → p ≤ a → a < p + page_size → s'.memory a ≡ 0
  pub counted : s'.used_pages ≡ s.used_pages + 1
  pub same_used : (j : ℕ) → j ≢ p / page_size → s'.used j ≡ s.used j
  pub same_refs : (j : ℕ) → j ≢ p / page_size → s'.refs j ≡ s.refs j
  pub same_memory : (a : ℕ) → (a < p) ⊎ (p + page_size ≤ a) → s'.memory a ≡ s.memory a

pub address-index :
    {s : Pmm} (i : ℕ)
    → IsValid s
    → i < s.total_pages
    → (address i ≡ i * page_size) × (address i / page_size ≡ i)
address-index i v h = omega (arith, v.bounded)

pub alloc_idx-Fresh :
    {s : Pmm} (i : ℕ)
    → IsValid s
    → i < s.total_pages
    → s.used i ≡ false
    → Fresh s (address i) (alloc_idx i s)
unfolding alloc_idx
alloc_idx-Fresh {s} i v h f =
    let e : address i / page_size ≡ i = (address-index i v h).1 in
    record {
      aligned = omega (arith, v.bounded);
      in_range = rw e h;
      was_free = rw e f;
      taken = ground (arith, e);
      owned = ground (arith, e);
      zeroed = λ a lo hi. ground arith;
      counted = omega (arith, v.bounded, v.counted, count_below-le s.total_pages s.used);
      same_used = λ j ne. ground (arith, e);
      same_refs = λ j ne. ground (arith, e);
      same_memory = λ a out. ground arith;
    }

pub find_free_locked-none : (s : Pmm) → find_idx s ≡ none → find_free_locked s ≡ (0, s)
unfolding find_free_locked
find_free_locked-none s e = ground arith

pub find_free_locked-some :
    (s : Pmm) (i : ℕ) → find_idx s ≡ some i → find_free_locked s ≡ (address i, alloc_idx i s)
unfolding find_free_locked
find_free_locked-some s i e = ground arith

-- In a valid state, an address other than 0 that the search returns is the start of a page in range
-- that was free; the page now has its bit set, one owner and only zeros in it, one used page more is
-- counted, and the bits, counts and contents of the other pages are as before.
pub find_free_locked-Fresh :
    {s : Pmm}
    → IsValid s
    → (find_free_locked s).0 ≢ 0
    → Fresh s (find_free_locked s).0 (find_free_locked s).1
find_free_locked-Fresh {s} v ne = elim (Option-cases (find_idx s)) [
  | inl e ↦ absurd (ne (rw (find_free_locked-none s e)))
  | inr (i, e) ↦
      let (h, f) = find_idx-some v e in rw (find_free_locked-some s i e) (alloc_idx-Fresh i v h f)
]

-- In a valid state with page 0 in use, the search returns 0 exactly when every page is used.
pub find_free_locked-zero :
    {s : Pmm}
    → IsValid s
    → s.used 0 ≡ true
    → ((find_free_locked s).0 ≡ 0) ↔ ((i : ℕ) → i < s.total_pages → s.used i ≡ true)
find_free_locked-zero {s} v low = elim (Option-cases (find_idx s)) [
  | inl e ↦ rw (find_free_locked-none s e) ((λ _. find_idx-none v e), (λ _. refl))
  | inr (i, e) ↦
      let (h, f) = find_idx-some v e in
      rw (find_free_locked-some s i e)
        ((λ z. absurd (ground (arith, address-index i v h))), λ all. ground (arith, all i h))
]

pub find_free_locked-IsValid : {s : Pmm} → IsValid s → IsValid (find_free_locked s).1
find_free_locked-IsValid {s} v = elim (Option-cases (find_idx s)) [
  | inl e ↦ rw (find_free_locked-none s e) v
  | inr (i, e) ↦
      let (h, f) = find_idx-some v e in rw (find_free_locked-some s i e) (alloc_idx-IsValid i v h f)
]

-- `t` has the bitmap, the counts and the number of used pages of `s`, and the page at `p` wiped.
pub record Restored (s : Pmm) (p : ℕ) (t : Pmm) : Type 0 where
  pub used : (j : ℕ) → t.used j ≡ s.used j
  pub refs : (j : ℕ) → t.refs j ≡ s.refs j
  pub used_pages : t.used_pages ≡ s.used_pages
  pub wiped : (a : ℕ) → p ≤ a → a < p + page_size → t.memory a ≡ 0
  pub legal : t.double_free_count ≡ s.double_free_count

unref_page-alloc_idx :
    {s : Pmm} (i : ℕ)
    → IsValid s
    → i < s.total_pages
    → s.used i ≡ false
    → Restored s (address i) (unref_page (address i) (alloc_idx i s))
unfolding unref_page alloc_idx
unref_page-alloc_idx {s} i v h f =
    let e : address i / page_size ≡ i = (address-index i v h).1 in
    record {
      used = λ j. ground (arith, e);
      refs = λ j. ground (arith, e, v.free_unref j);
      used_pages = ground (arith, e, v.bounded, v.counted, count_below-le s.total_pages s.used);
      wiped = λ a lo hi. ground (arith, e);
      legal = ground (arith, e);
    }

-- In a valid state, freeing the page other than 0 that was just handed out gives back every bit of the bitmap, every count and
-- the number of used pages, and wipes the page.
pub unref_page-find_free_locked :
    {s : Pmm}
    → IsValid s
    → (find_free_locked s).0 ≢ 0
    → let (p, s') = find_free_locked s in Restored s p (unref_page p s')
unref_page-find_free_locked {s} v ne = elim (Option-cases (find_idx s)) [
  | inl e ↦ absurd (ne (rw (find_free_locked-none s e)))
  | inr (i, e) ↦
      let (h, f) = find_idx-some v e in
      rw (find_free_locked-some s i e) (unref_page-alloc_idx i v h f)
]
