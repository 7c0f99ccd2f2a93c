-- ===== src/Mm/Pmm/Init.antt =====
-- pmm_init of kernel/mm/pmm.c: the allocator's state from the bootloader's memory map.
mod Tests
use yart_os.Prelude.{
  ℕ, zero, suc, ◌+◌, ◌-◌, ◌*◌, ◌/◌, ◌%◌, ◌^◌, ◌≤◌, ◌<◌, ◌≡◌, ◌≢◌, ◌⊎◌, refl, Bool, true, false,
  Option, some, none, inl, inr, arith, ltb, leb, ◌==◌, ◌&&◌, if◌then◌else◌, Bool-cases,
  Option-cases, update, List, [], ◌∷◌, count_below, count_below-le, add64, u64_mod, subst,
}
use yart_os.Mm.Pmm.{Pmm, page_size}
use yart_os.Mm.Pmm.Inv.{IsValid}

-- One entry of the memory map: struct limine_memmap_entry, whose type matters only as being
-- LIMINE_MEMMAP_USABLE or not.
pub record Entry : Type 0 where
  pub base : ℕ
  pub len : ℕ
  pub usable : Bool

abbrev page_align_up : ℕ → ℕ
page_align_up x = (x + 0xfff) % u64_mod / page_size * page_size

-- The address of the bytes that are carved out, and the map without them.
pub carve_region : List Entry → ℕ → Option (ℕ × List Entry)
carve_region [] need = none
carve_region (e ∷ mm) need = elim (e.usable && leb need e.len) [
  | true ↦ some (e.base, record e { base = add64 e.base need; len = e.len - need } ∷ mm)
  | false ↦ elim (carve_region mm need) [ none ↦ none | some (p, rest) ↦ some (p, e ∷ rest) ]
]

-- the highest address of a usable entry, or `hi`
highest : List Entry → ℕ → ℕ
highest [] hi = hi
highest (e ∷ mm) hi =
    highest mm (if e.usable && ltb hi (add64 e.base e.len) then add64 e.base e.len else hi)

-- for (a = base; a + PAGE_SIZE <= end; a += PAGE_SIZE) BIT_CLR(a / PAGE_SIZE)
clear_pages : (fuel a end : ℕ) → (ℕ → Bool) → ℕ → Bool
clear_pages zero a end used = used
clear_pages (suc n) a end used = elim (leb (a + page_size) end) [
  | true ↦ clear_pages n (a + page_size) end (update used (a / page_size) false)
  | false ↦ used
]

-- An entry's loop runs `len / PAGE_SIZE` times.
free_entries : List Entry → (ℕ → Bool) → ℕ → Bool
free_entries [] used = used
free_entries (e ∷ mm) used =
    free_entries mm
      (if e.usable then clear_pages (e.len / page_size) e.base (e.base + e.len) used else used)

-- The first 1 MiB is held back: for (i = 0; i < 0x100; i++) if (!BIT_TST(i)) ...
reserve_low : (rounds i : ℕ) → (ℕ → Bool) × (ℕ → ℕ) → (ℕ → Bool) × (ℕ → ℕ)
reserve_low zero i (used, refs) = (used, refs)
reserve_low (suc n) i (used, refs) =
    reserve_low n (i + 1) (if used i then (used, refs) else (update used i true, update refs i 1))

-- the state with every page of the carved map `mm` free but the low ones
built : ℕ → List Entry → (ℕ → ℕ) → Pmm
unfolding free_entries clear_pages reserve_low
built total mm memory =
    let low = reserve_low 0x100 0 (free_entries mm (λ i. true), λ i. 0) in
    record {
      used = low.0;
      refs = low.1;
      total_pages = total;
      used_pages = count_below total low.0;
      last_idx = 0;
      double_free_count = 0;
      bad_ref_count = 0;
      oom_force = false;
      memory = memory;
    }

-- `none` stands for kpanic. The memory is what the machine holds; the two tables are outside the
-- pages that are handed out.
pub init : List Entry → (ℕ → ℕ) → Option Pmm
unfolding highest built
init mm memory =
    let total = highest mm 0 / page_size in
    elim (carve_region mm (page_align_up ((total + 7) / 8))) [
      | none ↦ none
      | some (bitmap, mm₁) ↦ elim (carve_region mm₁ (page_align_up (total * 2))) [
        | none ↦ none
        | some (table, mm₂) ↦ some (built total mm₂ memory)
      ]
    ]

-- The page `i` lies whole in a usable entry.
abbrev pub Covered : List Entry → ℕ → Type 0
Covered [] i = ⊥
Covered (e ∷ mm) i =
    ((e.usable ≡ true) × (e.base ≤ i * page_size) × (i * page_size + page_size ≤ e.base + e.len))
    ⊎ Covered mm i

-- What the bootloader promises: usable entries start on a page, and no entry wraps round.
abbrev pub IsMap : List Entry → Type 0
IsMap [] = Unit {0}
IsMap (e ∷ mm) = (e.base % page_size ≡ 0) × (e.base + e.len < u64_mod) × IsMap mm

-- What is left of a map after a carve is a map, and covers no new page.
abbrev Within : List Entry → Option (ℕ × List Entry) → Type 0
Within mm none = Unit
Within mm (some (p, rest)) = IsMap rest × ((i : ℕ) → Covered rest i → Covered mm i)

Within-cons :
    (x : Entry) (mm : List Entry) (o : Option (ℕ × List Entry))
    → IsMap (x ∷ mm)
    → Within mm o
    → Within (x ∷ mm) (elim o [ none ↦ none | some (p, rest) ↦ some (p, x ∷ rest) ])
Within-cons x mm none m w = tt
Within-cons x mm (some (p, rest)) (a, b, m) (w, c) =
    ((a, b, w), λ i. elim [ inl h ↦ inl h | inr h ↦ inr (c i h) ])

carve_region-Within :
    (mm : List Entry) (need : ℕ)
    → need % page_size ≡ 0
    → IsMap mm
    → Within mm (carve_region mm need)
unfolding carve_region
carve_region-Within [] need a m = tt
carve_region-Within (x ∷ mm) need a m = elim (Bool-cases (x.usable && leb need x.len)) [
  | inl t ↦
      rw (t, carve_region)
        (
          (ground (arith, t), ground (arith, t), m.2),
          λ i. elim [ inl h ↦ inl (h.0, ground (arith, t), ground (arith, t)) | inr h ↦ inr h ],
        )
  | inr f ↦
      rw (f, carve_region)
        (Within-cons x mm (carve_region mm need) m (carve_region-Within mm need a m.2))
]

clear_pages-free :
    (n a end i : ℕ) (used : ℕ → Bool)
    → a % page_size ≡ 0
    → clear_pages n a end used i ≡ false
    → (used i ≡ false) ⊎ ((a ≤ i * page_size) × (i * page_size + page_size ≤ end))
unfolding clear_pages
clear_pages-free zero a end i used m e = inl e
clear_pages-free (suc n) a end i used m e = elim (Bool-cases (leb (a + page_size) end)) [
  | inl t ↦
      ground (arith, clear_pages-free n (a + page_size) end i (update used (a / page_size) false))
  | inr f ↦ inl (ground arith)
]

free_entries-free :
    (mm : List Entry) (i : ℕ) (used : ℕ → Bool)
    → IsMap mm
    → free_entries mm used i ≡ false
    → (used i ≡ false) ⊎ Covered mm i
unfolding free_entries
free_entries-free [] i used m e = inl e
free_entries-free (x ∷ mm) i used m e = elim (Bool-cases x.usable) [
  | inl t ↦ elim (free_entries-free mm i _ m.2 (rw (t, free_entries) at e)) [
    | inl h ↦ elim (clear_pages-free (x.len / page_size) x.base (x.base + x.len) i used m.0 h) [
      | inl u ↦ inl u
      | inr c ↦ inr (inl (t, c.0, c.1))
    ]
    | inr c ↦ inr (inr c)
  ]
  | inr f ↦ elim (free_entries-free mm i used m.2 (rw (f, free_entries) at e)) [
    | inl h ↦ inl h
    | inr c ↦ inr (inr c)
  ]
]

reserve_low-used :
    (n i j : ℕ) (used : ℕ → Bool) (refs : ℕ → ℕ)
    → let low = reserve_low n i (used, refs) in
      ((low.0 j ≡ false) → used j ≡ false) × (i ≤ j → j < i + n → low.0 j ≡ true)
unfolding reserve_low
reserve_low-used zero i j used refs = ((λ h. h), λ lo hi. absurd (omega arith))
reserve_low-used (suc n) i j used refs = elim (Bool-cases (used i)) [
  | inl u ↦
      let (a, b) = reserve_low-used n (i + 1) j used refs in
      rw (u, reserve_low) (a, λ lo hi. ground (arith, a, b))
  | inr f ↦
      let (a, b) = reserve_low-used n (i + 1) j (update used i true) (update refs i 1) in
      rw (f, reserve_low) ((λ h. ground (arith, a h)), λ lo hi. ground (arith, a, b))
]

reserve_low-refs :
    (n i j : ℕ) (used : ℕ → Bool) (refs : ℕ → ℕ)
    → (used j ≡ false → refs j ≡ 0)
    → refs j ≤ 1
    → let low = reserve_low n i (used, refs) in (low.0 j ≡ false → low.1 j ≡ 0) × (low.1 j ≤ 1)
unfolding reserve_low
reserve_low-refs zero i j used refs z le = (z, le)
reserve_low-refs (suc n) i j used refs z le = elim (Bool-cases (used i)) [
  | inl u ↦ rw (u, reserve_low) (reserve_low-refs n (i + 1) j used refs z le)
  | inr f ↦
      rw (f, reserve_low)
        (reserve_low-refs n (i + 1) j (update used i true) (update refs i 1) (ground arith)
          (ground arith))
]

highest-lt : (mm : List Entry) (hi : ℕ) → hi < u64_mod → highest mm hi < u64_mod
unfolding highest
highest-lt [] hi h = h
highest-lt (x ∷ mm) hi h = highest-lt mm _ (ground arith)

-- What pmm_init promises of the state that it builds from the map `mm`.
pub record IsBuilt (mm : List Entry) (s : Pmm) : Type 0 where
  pub valid : IsValid s
  pub low : (i : ℕ) → i < 0x100 → s.used i ≡ true
  pub covered : (i : ℕ) → s.used i ≡ false → Covered mm i

built-IsBuilt :
    (total : ℕ) (mm : List Entry) (memory : ℕ → ℕ)
    → total ≤ 2 ^ 52
    → IsMap mm
    → IsBuilt mm (built total mm memory)
unfolding built
built-IsBuilt total mm memory h m =
    let freed = free_entries mm (λ i. true) in
    let used = λ (j : ℕ). reserve_low-used 0x100 0 j freed (λ i. 0) in
    let refs = λ (j : ℕ). reserve_low-refs 0x100 0 j freed (λ i. 0) (λ z. refl) (omega arith) in
    record {
      valid = record {
        counted = refl;
        bounded = h;
        hint = omega arith;
        free_unref = λ j. (refs j).0;
        refs_u16 = λ j. omega (arith, (refs j).1);
      };
      low = λ i lt. (used i).1 (omega arith) (omega arith);
      covered = λ i f. elim (free_entries-free mm i (λ k. true) m ((used i).0 f)) [
        | inl z ↦ cc
        | inr c ↦ c
      ];
    }

IsBuilt-weaken :
    {mm rest : List Entry} {s : Pmm}
    → ((i : ℕ) → Covered rest i → Covered mm i)
    → IsBuilt rest s
    → IsBuilt mm s
IsBuilt-weaken w b = record { valid = b.valid; low = b.low; covered = λ i f. w i (b.covered i f) }

abbrev Ok : List Entry → Option Pmm → Type 0
Ok mm none = Unit
Ok mm (some s) = IsBuilt mm s

init-Ok : (mm : List Entry) (memory : ℕ → ℕ) → IsMap mm → Ok mm (init mm memory)
unfolding init
init-Ok mm memory m =
    let total = highest mm 0 / page_size in
    let bits = page_align_up ((total + 7) / 8) in
    let counts = page_align_up (total * 2) in
    elim (Option-cases (carve_region mm bits)) [
      | inl e ↦ rw (e, init) tt
      | inr ((p, mm₁), e) ↦
          let (m₁, c₁) = subst (Within mm) e (carve_region-Within mm bits (omega arith) m) in
          elim (Option-cases (carve_region mm₁ counts)) [
            | inl f ↦ rw (e, f, init) tt
            | inr ((q, mm₂), f) ↦
                let (m₂, c₂) =
                  subst (Within mm₁) f (carve_region-Within mm₁ counts (omega arith) m₁) in
                rw (e, f, init)
                  (IsBuilt-weaken (λ i c. c₁ i (c₂ i c))
                    (built-IsBuilt total mm₂ memory (omega (arith, highest-lt mm 0 (omega arith)))
                      m₂))
          ]
    ]

-- A state that pmm_init builds from a memory map is valid, where each entry of the map
-- starts at a page boundary and ends below 2 ^ 64; the first 1 MiB is used; and each free page lies whole in
-- a usable entry of the memory map.
pub init-IsBuilt :
    (mm : List Entry) (memory : ℕ → ℕ) (s : Pmm) → IsMap mm → init mm memory ≡ some s → IsBuilt mm s
init-IsBuilt mm memory s m e = subst (Ok mm) e (init-Ok mm memory m)
