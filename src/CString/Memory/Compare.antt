-- ===== src/CString/Memory/Compare.antt =====
-- memcmp of kernel/lib/string.c finds the first difference.
use yart_os.Prelude.{ℕ, zero, suc, ◌+◌, ◌<◌, ◌≡◌, ◌≢◌, ◌⊎◌, inl, inr, refl, arith}
use yart_os.CString.Memory.{Sign, equal, sign_of, memcmp}

-- The first place, counted from `i`, where the buffers differ, and the result there.
pub record FirstDifference (n i : ℕ) (x y : ℕ → ℕ) (r : Sign) : Type 0 where
  pub place : ℕ
  pub inside : place < n
  pub before : (k : ℕ) → k < place → x (i + k) ≡ y (i + k)
  pub differ : x (i + place) ≢ y (i + place)
  pub sign : r ≡ sign_of (x (i + place)) (y (i + place))

equal_cases : (a b : ℕ) → (a ≡ b) ⊎ (a ≢ b)
equal_cases a b = ground arith

after :
    (i : ℕ) (x y : ℕ → ℕ) (p : ℕ)
    → x i ≡ y i
    → ((k : ℕ) → k < p → x (i + 1 + k) ≡ y (i + 1 + k))
    → (k : ℕ) → k < suc p
    → x (i + k) ≡ y (i + k)
after i x y p e h zero lt = let q : i + 0 ≡ i = omega arith in rw q e
after i x y p e h (suc k) lt =
    let q : i + suc k ≡ i + 1 + k = omega arith in rw q (h k (omega arith))

-- For two buffers and a length: either they are equal that far, and memcmp returns 0, or its result has
-- the sign of the first difference.
pub memcmp-FirstDifference :
    (n : ℕ) (x y : ℕ → ℕ) (i : ℕ)
    → (((k : ℕ) → k < n → x (i + k) ≡ y (i + k)) × (memcmp n x y i ≡ equal))
      ⊎ FirstDifference n i x y (memcmp n x y i)
unfolding memcmp
memcmp-FirstDifference zero x y i = inl (λ k lt. absurd (omega arith), refl)
memcmp-FirstDifference (suc n) x y i = elim (equal_cases (x i) (y i)) [
  | inl e ↦ elim (memcmp-FirstDifference n x y (i + 1)) [
    | inl (h, q) ↦ inl (after i x y n e h, ground (arith, e, q))
    | inr d ↦
        let step : i + suc d.place ≡ i + 1 + d.place = omega arith in
        let s = d.sign in
        inr (record {
          place = suc d.place;
          inside = omega (arith, d.inside);
          before = after i x y d.place e d.before;
          differ = rw step d.differ;
          sign = rw step (ground (arith, e, s));
        })
  ]
  | inr z ↦
      let here : i + 0 ≡ i = omega arith in
      inr (record {
        place = 0;
        inside = omega arith;
        before = λ k lt. absurd (omega arith);
        differ = rw here z;
        sign = rw here (ground (arith, z));
      })
]
