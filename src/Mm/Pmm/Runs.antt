-- ===== src/Mm/Pmm/Runs.antt =====
-- Contiguous allocation in kernel/mm/pmm.c: pmm_alloc_pages and pmm_alloc_pages_below.
use yart_os.Prelude.{
  ℕ, zero, suc, ◌+◌, ◌*◌, ◌/◌, ◌≤◌, ◌<◌, ◌≡◌, ◌≢◌, ◌⊎◌, refl, true, false, some, none, inl, inr,
  arith, ltb, if◌then◌else◌, count_below-le, Option-cases, ◌∙◌, ◌↔◌,
}
use yart_os.Mm.Pmm.Search.{AllFree, find_run-some, find_run-none, IsRun-start}
use native.Mathlib.Decide.{dec_lt}
use yart_os.Mm.Pmm.{
  Pmm, page, panic, page_size, address, alloc_idx, find_run, take_run, alloc_run, alloc_pages_below,
}
use yart_os.Mm.Pmm.Alloc.{address-index}
use yart_os.Mm.Pmm.Inv.{IsValid, alloc_idx-IsValid}

-- `t` is `s` with the `n` pages from page `i` handed out, and nothing else changed.
pub record Taken (s : Pmm) (i n : ℕ) (t : Pmm) : Type 0 where
  pub taken : (j : ℕ) → i ≤ j → j < i + n → (t.used j ≡ true) × (t.refs j ≡ 1)
  pub others : (j : ℕ) → (j < i) ⊎ (i + n ≤ j) → (t.used j ≡ s.used j) × (t.refs j ≡ s.refs j)
  pub total : t.total_pages ≡ s.total_pages
  pub counted : t.used_pages ≡ s.used_pages + n
  pub valid : IsValid t

alloc_idx-Taken :
    {s : Pmm} (i : ℕ)
    → IsValid s
    → i < s.total_pages
    → s.used i ≡ false
    → Taken s i 1 (alloc_idx i s)
unfolding alloc_idx
alloc_idx-Taken {s} i v h f = record {
  taken = λ j lo hi. ground arith;
  others = λ j out. ground arith;
  total = refl;
  counted = omega (arith, v.counted, v.bounded, count_below-le s.total_pages s.used);
  valid = unfold alloc_idx in alloc_idx-IsValid i v h f;
}

take_run-Taken :
    (n i : ℕ) (s : Pmm)
    → IsValid s
    → i + n ≤ s.total_pages
    → AllFree s.used i n
    → Taken s i n (take_run n i s)
unfolding take_run
take_run-Taken zero i s v h free = record {
  taken = λ j lo hi. absurd (omega arith);
  others = λ j out. (refl, refl);
  total = refl;
  counted = omega arith;
  valid = v;
}
take_run-Taken (suc n) i s v h free =
    let one = alloc_idx-Taken i v (omega arith) (free i (omega arith) (omega arith)) in
    let rest =
      take_run-Taken n (i + 1) (alloc_idx i s) one.valid (omega (arith, one.total))
        (λ j lo hi. (one.others j (inr (omega arith))).0 ∙ free j (omega arith) (omega arith)) in
    record {
      taken = λ j lo hi. elim (dec_lt i j) [
        | yes later ↦ rest.taken j (omega arith) (omega arith)
        | no here ↦
            let a = rest.others j (inl (omega arith)) in
            let b = one.taken j (omega arith) (omega arith) in (a.0 ∙ b.0, a.1 ∙ b.1)
      ];
      others = λ j out.
          let a = rest.others j (omega arith) in
          let b = one.others j (omega arith) in (a.0 ∙ b.0, a.1 ∙ b.1);
      total = rest.total ∙ one.total;
      counted = omega (arith, one.counted, rest.counted);
      valid = rest.valid;
    }

max_index : ℕ → Pmm → ℕ
max_index limit s =
    if ltb s.total_pages (limit / page_size) then s.total_pages else limit / page_size

below-some :
    (n limit i : ℕ) (s : Pmm)
    → 0 < n
    → n ≤ max_index limit s
    → find_run (max_index limit s) 0 0 0 n s.used ≡ some i
    → alloc_pages_below n limit s ≡ (address i, take_run n i s)
unfolding alloc_pages_below max_index
below-some n limit i s lo fits e = ground arith

below-none :
    (n limit : ℕ) (s : Pmm)
    → find_run (max_index limit s) 0 0 0 n s.used ≡ none
    → alloc_pages_below n limit s ≡ (0, s)
unfolding alloc_pages_below max_index
below-none n limit s e = ground arith

below-short : (n limit : ℕ) (s : Pmm) → max_index limit s < n → alloc_pages_below n limit s ≡ (0, s)
unfolding alloc_pages_below max_index
below-short n limit s h = ground arith

max_index_bounds :
    (limit : ℕ) (s : Pmm)
    → (max_index limit s ≤ s.total_pages) × (max_index limit s * page_size ≤ limit)
unfolding max_index
max_index_bounds limit s = ground arith

le-max_index :
    (limit e : ℕ) (s : Pmm) → e ≤ s.total_pages → e * page_size ≤ limit → e ≤ max_index limit s
unfolding max_index
le-max_index limit e s h k = ground arith

-- In a valid state, when pmm_alloc_pages_below, asked for at least one page, returns an address other than 0, the `n` pages from there on were free,
-- end at or below the limit, and each has one owner afterwards; the other pages keep
-- their bits and counts, the number of used pages grows by `n`, and the state is valid.
pub alloc_pages_below-Taken :
    (n limit : ℕ) (s : Pmm)
    → IsValid s
    → 0 < n
    → (alloc_pages_below n limit s).0 ≢ 0
    → let (p, t) = alloc_pages_below n limit s in
      (p ≡ p / page_size * page_size)
      × (p + n * page_size ≤ limit)
      × AllFree s.used (p / page_size) n
      × Taken s (p / page_size) n t
alloc_pages_below-Taken n limit s v lo ne = elim (dec_lt (max_index limit s) n) [
  | yes short ↦ absurd (ne (rw (below-short n limit s short)))
  | no fits ↦ elim (Option-cases (find_run (max_index limit s) 0 0 0 n s.used)) [
    | inl e ↦ absurd (ne (rw (below-none n limit s e)))
    | inr (i, e) ↦
        let (r, free) = find_run-some (max_index limit s) 0 0 0 n i s.used (IsRun-start n lo) e in
        let (m, l) = max_index_bounds limit s in
        let h : i + n ≤ s.total_pages = omega arith in
        let (a, b) = address-index {s = s} i v (omega arith) in
        rw (below-some n limit i s lo (omega arith) e, b)
          (a, omega arith, free, take_run-Taken n i s v h free)
  ]
]

-- In a valid state with page 0 in use, pmm_alloc_pages_below returns 0 for a positive number of pages exactly when
-- no run of that many free pages ends at or below the limit.
pub alloc_pages_below-zero :
    (n limit : ℕ) (s : Pmm)
    → IsValid s
    → s.used 0 ≡ true
    → 0 < n
    → ((alloc_pages_below n limit s).0 ≡ 0)
      ↔ ((j : ℕ) → j + n ≤ s.total_pages → (j + n) * page_size ≤ limit → ¬ (AllFree s.used j n))
alloc_pages_below-zero n limit s v low lo = elim (dec_lt (max_index limit s) n) [
  | yes short ↦
      rw (below-short n limit s short)
        ((λ z j h k free. absurd (omega (arith, le-max_index limit (j + n) s h k))), λ none. refl)
  | no fits ↦ elim (Option-cases (find_run (max_index limit s) 0 0 0 n s.used)) [
    | inl e ↦ rw (below-none n limit s e) (
      (λ z j h k.
          find_run-none (max_index limit s) 0 0 0 n j s.used (IsRun-start n lo) e (omega arith)
            (omega (arith, le-max_index limit (j + n) s h k))),
      λ none. refl,
    )
    | inr (i, e) ↦
        let (r, free) = find_run-some (max_index limit s) 0 0 0 n i s.used (IsRun-start n lo) e in
        let (m, l) = max_index_bounds limit s in
        let (a, b) = address-index {s = s} i v (omega arith) in
        rw (below-some n limit i s lo (omega arith) e) (
          (λ z. absurd (ground (arith, free 0, low, a))),
          λ none. absurd (none i (omega arith) (omega arith) free),
        )
  ]
]

-- In a valid state and for at least one page, pmm_alloc_pages hands out a free run of `n` pages whenever there is one, and panics otherwise with
-- the state as it was.
pub alloc_run_cases :
    (n : ℕ) (s : Pmm)
    → IsValid s
    → 0 < n
    → ((i : ℕ) × (alloc_run n s ≡ (page (i * page_size), take_run n i s))
        × (i + n ≤ s.total_pages)
        × AllFree s.used i n
        × Taken s i n (take_run n i s))
      ⊎ ((alloc_run n s ≡ (panic, s)) × ((j : ℕ) → j + n ≤ s.total_pages → ¬ (AllFree s.used j n)))
unfolding alloc_run
alloc_run_cases n s v lo = elim (Option-cases (find_run s.total_pages 0 0 0 n s.used)) [
  | inl e ↦ inr (
    ground (arith, e),
    λ j h.
        find_run-none s.total_pages 0 0 0 n j s.used (IsRun-start n lo) e (omega arith)
          (omega arith),
  )
  | inr (i, e) ↦
      let (r, free) = find_run-some s.total_pages 0 0 0 n i s.used (IsRun-start n lo) e in
      let (a, b) = address-index {s = s} i v (omega arith) in
      inl (i, ground (arith, e, a), omega arith, free, take_run-Taken n i s v (omega arith) free)
]
