-- ===== src/Mm/Pmm/Oom.antt =====
-- pmm_alloc_page of kernel/mm/pmm.c: allocation with eviction and the out-of-memory killer.
use yart_os.Prelude.{
  ℕ, zero, suc, ◌+◌, ◌≡◌, ◌≢◌, ◌⊎◌, refl, Bool, true, false, Option, some, none, inl, inr, arith,
  ◌==◌, if◌then◌else◌, Bool-cases, Option-cases, subst, sym, ◌∙◌,
}
use yart_os.Mm.Pmm.{Pmm, Outcome, page, panic, find_free_locked, alloc_run}
use yart_os.Mm.Pmm.Alloc.{Fresh, find_free_locked-Fresh, find_free_locked-IsValid}
use yart_os.Mm.Pmm.Inv.{IsValid}

-- What sched_oom_kill_one reports: 0, a negative number, or a positive one.
pub data Kill : Type 0 where
  nothing current other : Kill

-- The parts of the kernel that the allocator calls to get pages back: vmm_evict_some of
-- kernel/mm/vmm.c and sched_oom_kill_one of kernel/sched/sched.c. They change the allocator's state
-- through its own functions.
pub record Reclaim : Type 0 where
  pub evict_some : ℕ → Pmm → Pmm
  pub oom_kill_one : Pmm → Kill × Pmm

-- They keep the allocator's state well formed.
pub record IsLawful (r : Reclaim) : Type 0 where
  pub evict : (n : ℕ) (s : Pmm) → IsValid s → IsValid (r.evict_some n s)
  pub kill : (s : Pmm) → IsValid s → IsValid (r.oom_kill_one s).1

pub oom_test_force : Bool → Pmm → Pmm
oom_test_force on s = record s { oom_force = on }

module _ (r : Reclaim) where
  -- The two attempts; `attempt` is the loop's variable.
  pub attempts : (rounds attempt : ℕ) → Pmm → Option ℕ × Pmm
  attempts zero attempt s = (none, s)
  attempts (suc n) attempt s = elim s.oom_force [
    | true ↦ (none, s)
    | false ↦ elim ((find_free_locked s).0 == 0) [
      | false ↦ (some (find_free_locked s).0, (find_free_locked s).1)
      | true ↦
          attempts n (attempt + 1) (
            if attempt == 0 then r.evict_some 16 (find_free_locked s).1 else (find_free_locked s).1)
    ]
  ]

  -- At most OOM_MAX_KILLS rounds of killing and trying again.
  pub kill_loop : (rounds : ℕ) → Pmm → Outcome × Pmm
  kill_loop zero s = (panic, record s { oom_force = false })
  kill_loop (suc n) s = elim (r.oom_kill_one s).0 [
    | nothing ↦ (panic, record (r.oom_kill_one s).1 { oom_force = false })
    | current ↦ (page 0, (r.oom_kill_one s).1)
    | other ↦ elim ((find_free_locked (r.oom_kill_one s).1).0 == 0) [
      | false ↦ (
        page (find_free_locked (r.oom_kill_one s).1).0,
        (find_free_locked (r.oom_kill_one s).1).1,
      )
      | true ↦ kill_loop n (find_free_locked (r.oom_kill_one s).1).1
    ]
  ]

  pub alloc_page : Pmm → Outcome × Pmm
  alloc_page s = elim (attempts 2 0 s).0 [
    | some p ↦ (page p, (attempts 2 0 s).1)
    | none ↦ kill_loop 16 (attempts 2 0 s).1
  ]

  pub alloc_pages : ℕ → Pmm → Outcome × Pmm
  alloc_pages n s = if n == 1 then alloc_page s else alloc_run n s

-- The state is valid, and a page other than 0 was handed out of a valid state.
pub record IsServed (o : Outcome) (t : Pmm) : Type 0 where
  pub valid : IsValid t
  pub fresh : (p : ℕ) → o ≡ page p → p ≢ 0 → (u : Pmm) × IsValid u × Fresh u p t

IsServed-free :
    {s : Pmm} → IsValid s → IsServed (page (find_free_locked s).0) (find_free_locked s).1
IsServed-free {s} v = record {
  valid = find_free_locked-IsValid v;
  fresh = λ p e ne.
      let q : (find_free_locked s).0 ≡ p = cc e in
      (
        s,
        v,
        subst (λ k. Fresh s k (find_free_locked s).1) q
            (find_free_locked-Fresh v (λ z. ne (sym q ∙ z))),
      );
}

unforced-IsValid : {s : Pmm} → IsValid s → IsValid (record s { oom_force = false })
unforced-IsValid v = record {
  counted = v.counted;
  bounded = v.bounded;
  hint = v.hint;
  free_unref = v.free_unref;
  refs_u16 = v.refs_u16;
}

-- As `IsServed`, for the two attempts.
record IsTried (o : Option ℕ) (t : Pmm) : Type 0 where
  valid : IsValid t
  fresh : (p : ℕ) → o ≡ some p → (u : Pmm) × IsValid u × Fresh u p t

IsTried-free :
    {s : Pmm}
    → IsValid s
    → ((find_free_locked s).0 == 0) ≡ false
    → IsTried (some (find_free_locked s).0) (find_free_locked s).1
IsTried-free {s} v z = record {
  valid = find_free_locked-IsValid v;
  fresh = λ p e.
      let q : (find_free_locked s).0 ≡ p = cc e in
      (
        s,
        v,
        subst (λ k. Fresh s k (find_free_locked s).1) q (find_free_locked-Fresh v (ground arith)),
      );
}

module _ (r : Reclaim) (s : Pmm) where
  alloc_page-none :
      (attempts r 2 0 s).0 ≡ none → alloc_page r s ≡ kill_loop r 16 (attempts r 2 0 s).1
  unfolding alloc_page
  alloc_page-none e = rw (e, alloc_page)

  alloc_page-some :
      (p : ℕ) → (attempts r 2 0 s).0 ≡ some p → alloc_page r s ≡ (page p, (attempts r 2 0 s).1)
  unfolding alloc_page
  alloc_page-some p e = rw (e, alloc_page)

  -- While the self-test's hook is off and a page is free, it is handed out with no eviction and no
  -- kill.
  pub alloc_page-prefers :
      s.oom_force ≡ false
      → (find_free_locked s).0 ≢ 0
      → alloc_page r s ≡ (page (find_free_locked s).0, (find_free_locked s).1)
  unfolding alloc_page attempts
  alloc_page-prefers f ne = ground arith

  -- While the self-test's hook is off and no page is free, eviction runs once, with 16 pages; if it
  -- leaves the hook off and a page free, then the page is handed out with no kill.
  pub alloc_page-evicts :
      s.oom_force ≡ false
      → (find_free_locked s).0 ≡ 0
      → (r.evict_some 16 (find_free_locked s).1).oom_force ≡ false
      → (find_free_locked (r.evict_some 16 (find_free_locked s).1)).0 ≢ 0
      → let (p, t) = find_free_locked (r.evict_some 16 (find_free_locked s).1) in
        alloc_page r s ≡ (page p, t)
  unfolding alloc_page attempts
  alloc_page-evicts f z g ne = ground arith

Kill-cases : (k : Kill) → (k ≡ nothing) ⊎ ((k ≡ current) ⊎ (k ≡ other))
Kill-cases nothing = inl refl
Kill-cases current = inr (inl refl)
Kill-cases other = inr (inr refl)

module _ (r : Reclaim) (law : IsLawful r) where
  kill_loop-IsServed :
      (n : ℕ) (s : Pmm) → IsValid s → IsServed (kill_loop r n s).0 (kill_loop r n s).1
  unfolding kill_loop
  kill_loop-IsServed zero s v = record { valid = unforced-IsValid v; fresh = λ p e ne. cc }
  kill_loop-IsServed (suc n) s v =
      let s' = (r.oom_kill_one s).1 in
      let v' : IsValid s' = law.kill s v in
      elim (Kill-cases (r.oom_kill_one s).0) [
        | inl e ↦ rw (e, kill_loop) (record { valid = unforced-IsValid v'; fresh = λ p q ne. cc })
        | inr (inl e) ↦
            rw (e, kill_loop) (record { valid = v'; fresh = λ p q ne. absurd (ne (cc q)) })
        | inr (inr e) ↦ elim (Bool-cases ((find_free_locked s').0 == 0)) [
          | inl z ↦
              rw (e, z, kill_loop)
                (kill_loop-IsServed n (find_free_locked s').1 (find_free_locked-IsValid v'))
          | inr z ↦ rw (e, z, kill_loop) (IsServed-free v')
        ]
      ]

  attempts-IsTried :
      (n a : ℕ) (s : Pmm) → IsValid s → IsTried (attempts r n a s).0 (attempts r n a s).1
  unfolding attempts
  attempts-IsTried zero a s v = record { valid = v; fresh = λ p q. cc }
  attempts-IsTried (suc n) a s v =
      let t = (find_free_locked s).1 in
      let w : IsValid t = find_free_locked-IsValid v in
      elim (Bool-cases s.oom_force) [
        | inl e ↦ rw (e, attempts) (record { valid = v; fresh = λ p q. cc })
        | inr e ↦ elim (Bool-cases ((find_free_locked s).0 == 0)) [
          | inr z ↦ rw (e, z, attempts) (IsTried-free v z)
          | inl z ↦ elim (Bool-cases (a == 0)) [
            | inl b ↦ rw (e, z, attempts, b) (attempts-IsTried n (a + 1) _ (law.evict 16 t w))
            | inr b ↦ rw (e, z, attempts, b) (attempts-IsTried n (a + 1) t w)
          ]
        ]
      ]

  -- Whatever eviction and the killer do within their laws, the state stays valid, and an address
  -- other than 0 that pmm_alloc_page returns is that of a page which was free in a valid state just
  -- before and is now handed out.
  pub alloc_page-IsServed : (s : Pmm) → IsValid s → IsServed (alloc_page r s).0 (alloc_page r s).1
  alloc_page-IsServed s v =
      let a = attempts-IsTried 2 0 s v in
      elim (Option-cases (attempts r 2 0 s).0) [
        | inl e ↦ rw (alloc_page-none r s e) (kill_loop-IsServed 16 (attempts r 2 0 s).1 a.valid)
        | inr (p, e) ↦
            rw (alloc_page-some r s p e)
              (record { valid = a.valid; fresh = λ q f ne. a.fresh q (e ∙ cc f) })
      ]
