-- ===== src/CString/Memory/Move.antt =====
-- memmove of kernel/lib/string.c copies what stood there before, also where the ranges overlap.
use yart_os.Prelude.{
  ℕ, zero, suc, ◌+◌, ◌-◌, ◌<◌, ◌≤◌, ◌≡◌, ◌≢◌, ◌⊎◌, inl, inr, refl, ◌&&◌, ltb, leb, update, arith,
  ap, ◌∙◌, sym, Bool-cases,
}
use yart_os.CString.{memcpy}
use yart_os.CString.Memory.{copy_up, copy_down, memmove}

inside_cases : (d n i : ℕ) → (i < d) ⊎ (i ≡ d) ⊎ ((d < i) × (i < d + suc n)) ⊎ (d + suc n ≤ i)
inside_cases d n i = ground arith

copy_up-memcpy : (n d s : ℕ) (f : ℕ → ℕ) (i : ℕ) → d < s → copy_up n d s f i ≡ memcpy f d f s n i
unfolding copy_up
copy_up-memcpy zero d s f i lt = ground arith
copy_up-memcpy (suc n) d s f i lt =
    let ih = copy_up-memcpy n (d + 1) (s + 1) (update f d (f s)) i (omega arith) in
    ih ∙ elim (inside_cases d n i) [
      | inl a ↦ ground arith
      | inr (inl e) ↦ let k : s + (i - d) ≡ s = omega (arith, e) in ground (arith, e, ap f k)
      | inr (inr (inl (a, b))) ↦
          let k : s + 1 + (i - (d + 1)) ≡ s + (i - d) = omega (arith, a) in
          let z : s + 1 + (i - (d + 1)) ≢ d = omega (arith, a, lt) in
          ground (arith, a, b, z, ap f k)
      | inr (inr (inr a)) ↦ ground arith
    ]

last_cases : (d n i : ℕ) → (i < d) ⊎ (i ≡ d + n) ⊎ ((d ≤ i) × (i < d + n)) ⊎ (d + suc n ≤ i)
last_cases d n i = ground arith

copy_down-memcpy :
    (n d s : ℕ) (f : ℕ → ℕ) (i : ℕ) → s < d → copy_down n d s f i ≡ memcpy f d f s n i
unfolding copy_down
copy_down-memcpy zero d s f i lt = ground arith
copy_down-memcpy (suc n) d s f i lt =
    let ih = copy_down-memcpy n d s (update f (d + n) (f (s + n))) i lt in
    ih ∙ elim (last_cases d n i) [
      | inl a ↦ ground arith
      | inr (inl e) ↦ let k : s + (i - d) ≡ s + n = omega (arith, e) in ground (arith, e, ap f k)
      | inr (inr (inl (a, b))) ↦
          let z : s + (i - d) ≢ d + n = omega (arith, a, b, lt) in ground (arith, a, b, z)
      | inr (inr (inr a)) ↦ ground arith
    ]

self_copy : (d n : ℕ) (f : ℕ → ℕ) (i : ℕ) → f i ≡ memcpy f d f d n i
self_copy d n f i = elim (Bool-cases (leb d i && ltb i (d + n))) [
  | inl e ↦ let k : d + (i - d) ≡ i = ground (arith, e) in rw e (ap f (sym k))
  | inr e ↦ rw e refl
]

-- Whether and however its two ranges overlap: memmove leaves at each address the byte that a copy from
-- another memory with the same contents would leave there.
pub memmove-memcpy : (d s n : ℕ) (f : ℕ → ℕ) (i : ℕ) → memmove d s n f i ≡ memcpy f d f s n i
unfolding memmove
memmove-memcpy d s zero f i = ground arith
memmove-memcpy d s (suc n) f i = elim (apart d s) [
  | inl lt ↦ let q = copy_up-memcpy (suc n) d s f i lt in ground (arith, lt, q)
  | inr (inl e) ↦ rw e (ground arith ∙ self_copy s (suc n) f i)
  | inr (inr gt) ↦ let q = copy_down-memcpy (suc n) d s f i gt in ground (arith, gt, q)
]
  where
    apart : (a b : ℕ) → (a < b) ⊎ (a ≡ b) ⊎ (b < a)
    apart a b = ground arith
