-- ===== src/Mm/Pmm/Search.antt =====
-- The search for a run of free pages in kernel/mm/pmm.c.
use yart_os.Prelude.{
  ℕ, zero, suc, ◌+◌, ◌≤◌, ◌<◌, ◌≡◌, ◌≢◌, refl, Bool, true, false, some, none, inl, inr, arith, ◌==◌,
  if◌then◌else◌, Bool-cases, sym, ◌∙◌,
}
use native.Mathlib.Decide.{dec_lt}
use yart_os.Mm.Pmm.{find_run}

-- The `n` pages from `i` on are free.
abbrev pub AllFree : (ℕ → Bool) → ℕ → ℕ → Type 0
AllFree used i n = (j : ℕ) → i ≤ j → j < i + n → used j ≡ false

-- The `run` pages before `i` are free, and the run starts where `run_start` says.
pub record IsRun (used : ℕ → Bool) (i run run_start n : ℕ) : Type 0 where
  short : run < n
  free : (j : ℕ) → i ≤ j + run → j < i → used j ≡ false
  start : run ≢ 0 → run_start + run ≡ i
  fits : run ≤ i

IsRun-skip :
    {used : ℕ → Bool} (i run run_start n : ℕ)
    → IsRun used i run run_start n
    → IsRun used (i + 1) 0 run_start n
IsRun-skip i run run_start n r = record {
  short = omega (arith, r.short);
  free = λ j a b. absurd (omega arith);
  start = λ ne. absurd (ne refl);
  fits = omega arith;
}

IsRun-more :
    {used : ℕ → Bool} (i run run_start n : ℕ)
    → IsRun used i run run_start n
    → used i ≡ false
    → (run + 1 == n) ≡ false
    → IsRun used (i + 1) (run + 1) (if run == 0 then i else run_start) n
IsRun-more {used} i run run_start n r f ne = record {
  short = ground (arith, r.short);
  free = λ j a b. ground (arith, r.free j);
  start = λ z. ground (arith, r.start);
  fits = omega (arith, r.fits);
}

module _ (k i run run_start n : ℕ) (used : ℕ → Bool) where
  find_run_used :
      used i ≡ true
      → find_run (suc k) i run run_start n used ≡ find_run k (i + 1) 0 run_start n used
  unfolding find_run
  find_run_used u = ground arith

  find_run_full :
      used i ≡ false
      → (run + 1 == n) ≡ true
      → find_run (suc k) i run run_start n used ≡ some (if run == 0 then i else run_start)
  unfolding find_run
  find_run_full f full = ground arith

  find_run_more :
      used i ≡ false
      → (run + 1 == n) ≡ false
      → find_run (suc k) i run run_start n used
        ≡ find_run k (i + 1) (run + 1) (if run == 0 then i else run_start) n used
  unfolding find_run
  find_run_more f more = ground arith

-- A run that is found lies in the range and is free.
pub find_run-some :
    (k i run run_start n r : ℕ) (used : ℕ → Bool)
    → IsRun used i run run_start n
    → find_run k i run run_start n used ≡ some r
    → (r + n ≤ i + k) × AllFree used r n
unfolding find_run
find_run-some zero i run run_start n r used inv e = absurd (grind arith)
find_run-some (suc k) i run run_start n r used inv e = elim (Bool-cases (used i)) [
  | inl u ↦
      let (a, b) =
        find_run-some k (i + 1) 0 run_start n r used (IsRun-skip i run run_start n inv)
          (sym (find_run_used k i run run_start n used u) ∙ e) in
      (omega (arith, a), b)
  | inr f ↦ elim (Bool-cases (run + 1 == n)) [
    | inl full ↦
        let here : some (if run == 0 then i else run_start) ≡ some r =
          sym (find_run_full k i run run_start n used f full) ∙ e in
        let end : r + n ≡ i + 1 = ground (arith, inv.start) in
        (omega (arith, end), λ j lo hi. ground (arith, inv.free j, f, end))
    | inr more ↦
        let (a, b) =
          find_run-some k (i + 1) (run + 1) (if run == 0 then i else run_start) n r used
            (IsRun-more i run run_start n inv f more)
            (sym (find_run_more k i run run_start n used f more) ∙ e) in
        (omega (arith, a), b)
  ]
]

-- Where no run is found, every window of `n` pages in the range has a used page.
pub find_run-none :
    (k i run run_start n j : ℕ) (used : ℕ → Bool)
    → IsRun used i run run_start n
    → find_run k i run run_start n used ≡ none
    → i ≤ j + run
    → j + n ≤ i + k
    → ¬ (AllFree used j n)
unfolding find_run
find_run-none zero i run run_start n j used inv e lo hi all = absurd (omega (arith, inv.short))
find_run-none (suc k) i run run_start n j used inv e lo hi all = elim (Bool-cases (used i)) [
  | inl u ↦ elim (dec_lt i j) [
    | yes later ↦
        find_run-none k (i + 1) 0 run_start n j used (IsRun-skip i run run_start n inv)
          (sym (find_run_used k i run run_start n used u) ∙ e) (omega arith) (omega arith) all
    | no here ↦ ground (arith, all i, inv.short)
  ]
  | inr f ↦ elim (Bool-cases (run + 1 == n)) [
    | inl full ↦ ground (arith, find_run_full k i run run_start n used f full)
    | inr more ↦
        find_run-none k (i + 1) (run + 1) (if run == 0 then i else run_start) n j used
          (IsRun-more i run run_start n inv f more)
          (sym (find_run_more k i run run_start n used f more) ∙ e) (omega arith) (omega arith) all
  ]
]

-- The first search finds nothing before page 0.
pub IsRun-start : {used : ℕ → Bool} (n : ℕ) → 0 < n → IsRun used 0 0 0 n
IsRun-start n h = record {
  short = h;
  free = λ j a b. absurd (omega arith);
  start = λ ne. absurd (ne refl);
  fits = omega arith;
}
