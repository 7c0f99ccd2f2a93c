-- ===== src/CString/Strings.antt =====
-- strncmp, strncpy and strchr of kernel/lib/string.c, on buffers as functions from an offset to a byte.
use yart_os.Prelude.{
  ℕ, zero, suc, ◌+◌, ◌%◌, ◌≤◌, ◌<◌, ◌≡◌, ◌≢◌, ◌⊎◌, inl, inr, refl, true, false, not, Option, some,
  none, if◌then◌else◌, ◌==◌, update, arith,
}
use yart_os.CString.Memory.{Sign, equal, sign_of}
use native.Mathlib.Decide.{ℕ_discrete}

-- the sign of strncmp's result
unfoldable pub strncmp : (n : ℕ) → (x y : ℕ → ℕ) → (i : ℕ) → Sign
strncmp zero x y i = equal
strncmp (suc n) x y i =
    let rest = strncmp n x y (i + 1) in
    if not (x i == y i) then sign_of (x i) (y i) else if x i == 0 then equal else rest

-- for (; i < n; i++) d[i] = 0, with `n` the bytes that are left
unfoldable pub fill_zeros : (n i : ℕ) → (ℕ → ℕ) → ℕ → ℕ
fill_zeros zero i d = d
fill_zeros (suc n) i d = fill_zeros n (i + 1) (update d i 0)

-- strncpy from the `i`-th byte on, with `n` the bytes that are left
unfoldable pub strncpy : (n i : ℕ) → (s d : ℕ → ℕ) → ℕ → ℕ
strncpy zero i s d = d
strncpy (suc n) i s d = elim (s i == 0) [
  | true ↦ fill_zeros (suc n) i d
  | false ↦ strncpy n (i + 1) s (update d i (s i))
]

-- the offset that strchr finds from the `i`-th byte on, in a string that ends within the rounds
unfoldable pub strchr : (rounds i c : ℕ) → (ℕ → ℕ) → Option ℕ
strchr zero i c s = none
strchr (suc k) i c s = elim (s i == 0) [
  | true ↦ if c == 0 then some i else none
  | false ↦ elim (s i == c % 256) [ true ↦ some i | false ↦ strchr k (i + 1) c s ]
]

fill_zeros-outside : (n i j : ℕ) (d : ℕ → ℕ) → (j < i) ⊎ (i + n ≤ j) → fill_zeros n i d j ≡ d j
unfolding fill_zeros
fill_zeros-outside zero i j d out = refl
fill_zeros-outside (suc n) i j d out = ground (arith, fill_zeros-outside n (i + 1) j (update d i 0))

fill_zeros-inside : (n i j : ℕ) (d : ℕ → ℕ) → i ≤ j → j < i + n → fill_zeros n i d j ≡ 0
unfolding fill_zeros
fill_zeros-inside zero i j d lo hi = absurd (omega arith)
fill_zeros-inside (suc n) i j d lo hi = elim (ℕ_discrete j i) [
  | yes e ↦ ground (arith, e, fill_zeros-outside n (i + 1) j (update d i 0))
  | no m ↦ fill_zeros-inside n (i + 1) j (update d i 0) (omega arith) (omega arith)
]

pub strncpy-outside : (n i j : ℕ) (s d : ℕ → ℕ) → (j < i) ⊎ (i + n ≤ j) → strncpy n i s d j ≡ d j
unfolding strncpy
strncpy-outside zero i j s d out = refl
strncpy-outside (suc n) i j s d out =
    ground (
      arith,
      strncpy-outside n (i + 1) j s (update d i (s i)),
      fill_zeros-outside (suc n) i j d out,
    )

-- strncpy writes the bytes of the string up to its end or to the limit.
pub strncpy-copied :
    (n i j : ℕ) (s d : ℕ → ℕ)
    → i ≤ j
    → j < i + n
    → ((k : ℕ) → i ≤ k → k ≤ j → s k ≢ 0)
    → strncpy n i s d j ≡ s j
unfolding strncpy
strncpy-copied zero i j s d lo hi text = absurd (omega arith)
strncpy-copied (suc n) i j s d lo hi text =
    let here = text i (omega arith) lo in
    elim (ℕ_discrete j i) [
      | yes e ↦ ground (arith, e, here, strncpy-outside n (i + 1) j s (update d i (s i)))
      | no m ↦ ground (
        arith,
        here,
        strncpy-copied n (i + 1) j s (update d i (s i)) (omega arith) (omega arith)
            (λ k a b. text k (omega arith) b),
      )
    ]

-- From the end of the string on, strncpy writes zeros up to the limit.
pub strncpy-zeros :
    (n i e j : ℕ) (s d : ℕ → ℕ)
    → i ≤ e
    → e ≤ j
    → j < i + n
    → ((k : ℕ) → i ≤ k → k < e → s k ≢ 0)
    → s e ≡ 0
    → strncpy n i s d j ≡ 0
unfolding strncpy
strncpy-zeros zero i e j s d lo mid hi text nul = absurd (omega arith)
strncpy-zeros (suc n) i e j s d lo mid hi text nul = elim (ℕ_discrete i e) [
  | yes q ↦ ground (arith, q, nul, fill_zeros-inside (suc n) i j d (omega arith) hi)
  | no m ↦
      let here = text i (omega arith) (omega arith) in
      ground (
        arith,
        here,
        strncpy-zeros n (i + 1) e j s (update d i (s i)) (omega arith) mid (omega arith)
            (λ k a b. text k (omega arith) b) nul,
      )
]

-- What strchr finds is the byte that was looked for, with no other and no end of the string before it.
pub strchr-first :
    (rounds i c r : ℕ) (s : ℕ → ℕ)
    → strchr rounds i c s ≡ some r
    → (i ≤ r) × (s r ≡ c % 256) × ((k : ℕ) → i ≤ k → k < r → (s k ≢ 0) × (s k ≢ c % 256))
unfolding strchr
strchr-first zero i c r s e = absurd (ground (arith, e))
strchr-first (suc n) i c r s e = elim (ℕ_discrete (s i) 0) [
  | yes z ↦ (ground (arith, e, z), ground (arith, e, z), λ k a b. absurd (ground (arith, e, z)))
  | no m ↦ elim (ℕ_discrete (s i) (c % 256)) [
    | yes q ↦ (
      ground (arith, e, m, q),
      ground (arith, e, m, q),
      λ k a b. absurd (ground (arith, e, m, q)),
    )
    | no o ↦
        let (lo, at, before) = strchr-first n (i + 1) c r s (ground (arith, e, m, o)) in
        (
          omega (arith, lo),
          at,
          λ k a b. elim (ℕ_discrete k i) [ yes q ↦ rw q (m, o) | no w ↦ before k (omega arith) b ],
        )
  ]
]

-- What the result of strncmp says: the strings agree up to the limit or to their common end, or the sign is that of a difference.
pub strncmp-cases :
    (n : ℕ) (x y : ℕ → ℕ) (i : ℕ)
    → (((k : ℕ) → i ≤ k → k < i + n → ((j : ℕ) → i ≤ j → j < k → x j ≢ 0) → x k ≡ y k)
        × (strncmp n x y i ≡ equal))
      ⊎ ((k : ℕ) × (i ≤ k) × (k < i + n) × (x k ≢ y k) × (strncmp n x y i ≡ sign_of (x k) (y k)))
unfolding strncmp
strncmp-cases zero x y i = inl (λ k a b. absurd (omega arith), refl)
strncmp-cases (suc n) x y i = elim (ℕ_discrete (x i) (y i)) [
  | no m ↦ inr (i, omega arith, omega arith, m, ground (arith, m))
  | yes q ↦ elim (ℕ_discrete (x i) 0) [
    | yes z ↦ inl (
      λ k a b text. elim (ℕ_discrete k i) [
        | yes e ↦ rw e q
        | no w ↦ absurd (text i (omega arith) (omega arith) z)
      ],
      ground (arith, q, z),
    )
    | no m ↦ elim (strncmp-cases n x y (i + 1)) [
      | inl (agree, e) ↦ inl (
        λ k a b text. elim (ℕ_discrete k i) [
          | yes w ↦ rw w q
          | no w ↦ agree k (omega arith) (omega arith) (λ j lo hi. text j (omega arith) hi)
        ],
        ground (arith, q, m, e),
      )
      | inr (k, lo, hi, ne, e) ↦ inr (k, omega arith, omega arith, ne, ground (arith, q, m, e))
    ]
  ]
]
