-- ===== src/Fs/Vfs/Path/Split.antt =====
-- How the loops over a path in kernel/fs/vfs.c cut it into components.
use yart_os.Prelude.{
  ℕ, zero, suc, ◌-◌, ◌<◌, ◌≤◌, ◌≡◌, ◌≢◌, refl, List, [], ◌∷◌, ◌++◌, arith, length, length-append,
  ◌∙◌, ap, fun_ext, Option, some,
}
use yart_os.Fs.Vfs.Tree.{Tree, max_name}
use yart_os.Fs.Vfs.Path.{
  slash, part, after_part, skip_slashes, first_part, rest_of, turn, walk, unless_null,
}

abbrev pub NoSlash : List ℕ → Type 0
NoSlash [] = Unit {0}
NoSlash (c ∷ s) = (c ≢ slash) × NoSlash s

-- A component: not empty, without a slash, and of less than VFS_MAX_NAME bytes.
pub record IsPart (s : List ℕ) : Type 0 where
  pub some_byte : 0 < length s
  pub no_slash : NoSlash s
  pub short : length s < max_name

abbrev pub AllParts : List (List ℕ) → Type 0
AllParts [] = Unit {0}
AllParts (c ∷ cs) = IsPart c × AllParts cs

-- the absolute path with the components
abbrev pub spell : List (List ℕ) → List ℕ
spell [] = []
spell (c ∷ cs) = slash ∷ c ++ spell cs

-- the same path without the first slash
abbrev pub spell_rest : List (List ℕ) → List ℕ
spell_rest [] = []
spell_rest (c ∷ cs) = c ++ spell cs

part-spell :
    (n : ℕ) (c : List ℕ) (cs : List (List ℕ))
    → NoSlash c
    → length c ≤ n
    → part n (c ++ spell cs) ≡ c
part-spell zero [] cs h lt = refl
part-spell zero (x ∷ c) cs h lt = absurd (omega arith)
part-spell (suc n) [] [] h lt = refl
part-spell (suc n) [] (d ∷ cs) h lt = refl
part-spell (suc n) (x ∷ c) cs (z, h) lt = ground (arith, z, part-spell n c cs h (omega arith))

after_part-spell :
    (n : ℕ) (c : List ℕ) (cs : List (List ℕ))
    → NoSlash c
    → length c ≤ n
    → after_part n (c ++ spell cs) ≡ spell cs
after_part-spell zero [] cs h lt = refl
after_part-spell zero (x ∷ c) cs h lt = absurd (omega arith)
after_part-spell (suc n) [] [] h lt = refl
after_part-spell (suc n) [] (d ∷ cs) h lt = refl
after_part-spell (suc n) (x ∷ c) cs (z, h) lt =
    ground (arith, z, after_part-spell n c cs h (omega arith))

skip_slashes-part : (c s : List ℕ) → NoSlash c → 0 < length c → skip_slashes (c ++ s) ≡ c ++ s
skip_slashes-part [] s h lt = absurd (omega arith)
skip_slashes-part (x ∷ c) s (z, h) lt = ground (arith, z)

skip_slashes-spell : (cs : List (List ℕ)) → AllParts cs → skip_slashes (spell cs) ≡ spell_rest cs
skip_slashes-spell [] h = refl
skip_slashes-spell (c ∷ cs) (h, hs) = skip_slashes-part c (spell cs) h.no_slash h.some_byte

pub first_part-spell : (c : List ℕ) (cs : List (List ℕ)) → IsPart c → first_part (c ++ spell cs) ≡ c
first_part-spell c cs h = part-spell (max_name - 1) c cs h.no_slash (less (length c) h.short)
  where
    less : (n : ℕ) → n < max_name → n ≤ max_name - 1
    less n e = omega arith

pub rest_of-spell :
    (c : List ℕ) (cs : List (List ℕ))
    → IsPart c
    → AllParts cs
    → rest_of (c ++ spell cs) ≡ spell_rest cs
rest_of-spell c cs h hs =
    ap skip_slashes (after_part-spell (max_name - 1) c cs h.no_slash (less (length c) h.short))
    ∙ skip_slashes-spell cs hs
  where
    less : (n : ℕ) → n < max_name → n ≤ max_name - 1
    less n e = omega arith

-- the turns, one for each component
abbrev pub turns : (resolve : ℕ → Option ℕ) → (cur : ℕ) → List (List ℕ) → Tree → Option ℕ
turns resolve cur [] t = some cur
turns resolve cur (c ∷ cs) t = unless_null (turn resolve cur c t) (λ v. turns resolve v cs t)

walk-end :
    (n : ℕ) (resolve : ℕ → Option ℕ) (cur : ℕ) (t : Tree) → walk n resolve cur [] t ≡ some cur
unfolding walk
walk-end zero resolve cur t = refl
walk-end (suc n) resolve cur t = refl

fewer_left :
    (x n : ℕ) (c : List ℕ) (cs : List (List ℕ))
    → length (x ∷ c ++ spell cs) ≤ suc n
    → length (spell_rest cs) ≤ n
fewer_left x n c [] h = omega arith
fewer_left x n c (d ∷ cs) h = omega (arith, length-append c (slash ∷ d ++ spell cs))

-- The walk along a path takes one turn for each component of it.
pub walk-turns :
    (n : ℕ) (resolve : ℕ → Option ℕ) (cur : ℕ) (cs : List (List ℕ)) (t : Tree)
    → AllParts cs
    → length (spell_rest cs) ≤ n
    → walk n resolve cur (spell_rest cs) t ≡ turns resolve cur cs t
unfolding walk
walk-turns n resolve cur [] t h lt = walk-end n resolve cur t
walk-turns n resolve cur ([] ∷ cs) t (h, hs) lt = absurd (omega (arith, h.some_byte))
walk-turns zero resolve cur ((x ∷ c) ∷ cs) t (h, hs) lt = absurd (omega arith)
walk-turns (suc n) resolve cur ((x ∷ c) ∷ cs) t (h, hs) lt =
    let name = first_part-spell (x ∷ c) cs h in
    let rest = rest_of-spell (x ∷ c) cs h hs in
    ap
      (λ l.
        unless_null (turn resolve cur l t) (λ v. walk n resolve v (rest_of (x ∷ c ++ spell cs)) t))
      name
    ∙ ap (λ l. unless_null (turn resolve cur (x ∷ c) t) (λ v. walk n resolve v l t)) rest
    ∙ ap (unless_null (turn resolve cur (x ∷ c) t))
        (fun_ext (λ v. walk-turns n resolve v cs t hs (fewer_left x n c cs lt)))
