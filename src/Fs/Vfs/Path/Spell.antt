-- ===== src/Fs/Vfs/Path/Spell.antt =====
-- vfs_path_of of kernel/fs/vfs.c, and the lookup of the path that it spells.
use yart_os.Prelude.{
  ℕ, zero, suc, ◌+◌, ◌-◌, ◌<◌, ◌≤◌, ◌≡◌, ◌≢◌, ◌⊎◌, inl, inr, refl, false, List, [], ◌∷◌, ◌++◌,
  arith, if◌then◌else◌, ltb, ◌==◌, length, length-append, sym, ◌∙◌, ap, subst, min, Option, some,
  none, Bool-cases,
}
use yart_os.Fs.Vfs.Tree.{Tree, find_child, same_name}
use yart_os.Fs.Vfs.Path.{
  slash, dot, dot_dot, is_symlink, turn, walk, unless_null, resolve_link, lookup_at, spell_loop,
  path_of, max_path,
}
use yart_os.Fs.Vfs.Path.Split.{IsPart, AllParts, spell, spell_rest, turns, walk-turns}
use yart_os.Fs.Vfs.Path.Walk.{lookup_at-rooted, resolve_link-plain}

-- `v` is the child that its parent has under its name, no symbolic link, and its name can be written in
-- a path.
pub record IsChild (t : Tree) (v : ℕ) : Type 0 where
  pub node : v ≢ 0
  pub below_root : v ≢ t.root
  pub found : find_child (t.node v).parent (t.node v).name t ≡ v
  pub plain : is_symlink (t.node v).kind ≡ false
  pub part : IsPart (t.node v).name
  pub not_dot : same_name (t.node v).name dot ≡ false
  pub not_dot_dot : same_name (t.node v).name dot_dot ≡ false

-- The nodes `us` lead from `v`, by the parent pointers, to the root, which is not among them.
abbrev pub Ascends : Tree → ℕ → List ℕ → Type 0
Ascends t v [] = v ≡ t.root
Ascends t v (u ∷ us) = (v ≡ u) × IsChild t u × Ascends t (t.node u).parent us

-- the names on the way down
abbrev pub names : Tree → List ℕ → List (List ℕ)
names t [] = []
names t (u ∷ us) = names t us ++ (t.node u).name ∷ []

append_assoc : (xs ys zs : List ℕ) → (xs ++ ys) ++ zs ≡ xs ++ (ys ++ zs)
append_assoc [] ys zs = refl
append_assoc (x ∷ xs) ys zs = ap (λ ws. x ∷ ws) (append_assoc xs ys zs)

spell-snoc :
    (cs : List (List ℕ)) (c acc : List ℕ)
    → spell (cs ++ c ∷ []) ++ acc ≡ spell cs ++ (slash ∷ c ++ acc)
spell-snoc [] c acc = ap (λ ws. slash ∷ ws) (append_assoc c [] acc)
spell-snoc (d ∷ cs) c acc =
    ap (λ ws. slash ∷ ws)
      (append_assoc d (spell (cs ++ c ∷ [])) acc
        ∙ ap (λ ws. d ++ ws) (spell-snoc cs c acc)
        ∙ sym (append_assoc d (spell cs) (slash ∷ c ++ acc)))

length-spell-snoc :
    (cs : List (List ℕ)) (c : List ℕ)
    → length (spell (cs ++ c ∷ [])) ≡ length (spell cs) + (length c + 1)
length-spell-snoc [] c = omega (arith, length-append c [])
length-spell-snoc (d ∷ cs) c = omega (
  arith,
  length-append d (spell (cs ++ c ∷ [])),
  length-append d (spell cs),
  length-spell-snoc cs c,
)

spell_loop-names :
    (n pos v : ℕ) (us acc : List ℕ) (t : Tree)
    → Ascends t v us
    → length us < n
    → length (spell (names t us)) ≤ pos
    → spell_loop n pos v acc t ≡ some (spell (names t us) ++ acc)
unfolding spell_loop
spell_loop-names zero pos v us acc t h lt le = absurd (omega arith)
spell_loop-names (suc n) pos v [] acc t h lt le = ground (arith, h)
spell_loop-names (suc n) pos v (u ∷ us) acc t (e, c, h) lt le =
    let z = c.node in
    let r = c.below_root in
    let name = (t.node u).name in
    let long = length-spell-snoc (names t us) name in
    let room : length name + 1 ≤ pos = omega (arith, long, le) in
    let ih =
      spell_loop-names n (pos - length name - 1) (t.node u).parent us (slash ∷ name ++ acc) t h
        (omega arith) (omega (arith, long, le)) in
    subst (λ w. spell_loop (suc n) pos w acc t ≡ some (spell (names t (u ∷ us)) ++ acc)) (sym e)
      (unfold spell_loop in
        ground (arith, z, r, room, ih ∙ ap some (sym (spell-snoc (names t us) name acc))))

lt_or_le : (a b : ℕ) → (a < b) ⊎ (b ≤ a)
lt_or_le a b = ground arith

spell_loop-long :
    (n pos v : ℕ) (us acc : List ℕ) (t : Tree)
    → Ascends t v us
    → pos < length (spell (names t us))
    → spell_loop n pos v acc t ≡ none
unfolding spell_loop
spell_loop-long zero pos v us acc t h lt = refl
spell_loop-long (suc n) pos v [] acc t h lt = absurd (omega arith)
spell_loop-long (suc n) pos v (u ∷ us) acc t (e, c, h) lt =
    let z = c.node in
    let r = c.below_root in
    let name = (t.node u).name in
    let long = length-spell-snoc (names t us) name in
    let ih : length name + 1 ≤ pos
        → spell_loop n (pos - length name - 1) (t.node u).parent (slash ∷ name ++ acc) t ≡ none =
      λ room.
        spell_loop-long n (pos - length name - 1) (t.node u).parent us (slash ∷ name ++ acc) t h
          (omega (arith, long, lt, room)) in
    subst (λ w. spell_loop (suc n) pos w acc t ≡ none) (sym e)
      (elim (lt_or_le pos (length name + 1)) [
        | inl few ↦ unfold spell_loop in ground (arith, z, r, few)
        | inr room ↦ unfold spell_loop in ground (arith, z, r, room, ih room)
      ])

-- A result other than NULL comes from the rest of the walk.
unless_null-then :
    (o : Option ℕ) (k l : ℕ → Option ℕ) (p v : ℕ)
    → unless_null o k ≡ some p
    → p ≢ 0
    → ((m : ℕ) → k m ≡ some p → l m ≡ some v)
    → unless_null o l ≡ some v
unless_null-then none k l p v h z f = absurd (ground (arith, h))
unless_null-then (some m) k l p v h z f = elim (Bool-cases (m == 0)) [
  | inl e ↦ absurd (ground (arith, e, h, z))
  | inr e ↦ let g : k m ≡ some p = ground (arith, e, h) in let r = f m g in ground (arith, e, r)
]

turns-snoc :
    (resolve : ℕ → Option ℕ) (cur p v : ℕ) (cs : List (List ℕ)) (c : List ℕ) (t : Tree)
    → turns resolve cur cs t ≡ some p
    → p ≢ 0
    → v ≢ 0
    → turn resolve p c t ≡ some v
    → turns resolve cur (cs ++ c ∷ []) t ≡ some v
turns-snoc resolve cur p v [] c t h z w e =
    let q : cur ≡ p = ground (arith, h) in
    let r : turn resolve cur c t ≡ some v = ap (λ x. turn resolve x c t) q ∙ e in
    ap (λ o. unless_null o some) r ∙ ground (arith, w)
turns-snoc resolve cur p v (d ∷ cs) c t h z w e =
    unless_null-then (turn resolve cur d t) (λ m. turns resolve m cs t)
      (λ m. turns resolve m (cs ++ c ∷ []) t) p v h z
      (λ m g. turns-snoc resolve m p v cs c t g z w e)

turn-child :
    (resolve : ℕ → Option ℕ) (p v : ℕ) (name : List ℕ) (t : Tree)
    → find_child p name t ≡ v
    → v ≢ 0
    → resolve v ≡ some v
    → 0 < length name
    → same_name name dot ≡ false
    → same_name name dot_dot ≡ false
    → turn resolve p name t ≡ some v
unfolding turn
turn-child resolve p v [] t e z r s a b = absurd (omega arith)
turn-child resolve p v (x ∷ c) t e z r s a b = ground (arith, a, b, e, z, r)

module _ (look : ℕ → List ℕ → Option ℕ) (t : Tree) (root : t.root ≢ 0) where
  resolve : ℕ → Option ℕ
  resolve v = resolve_link look 8 v t

  reached-node : (v : ℕ) (us : List ℕ) → Ascends t v us → v ≢ 0
  reached-node v [] h e = root (sym h ∙ e)
  reached-node v (u ∷ us) (q, c, h) e = c.node (sym q ∙ e)

  turns-names :
      (v : ℕ) (us : List ℕ) → Ascends t v us → turns resolve t.root (names t us) t ≡ some v
  unfolding resolve
  turns-names v [] h = ap some (sym h)
  turns-names v (u ∷ us) (e, c, h) =
      let p = (t.node u).parent in
      let name = (t.node u).name in
      turns-snoc resolve t.root p u (names t us) name t (turns-names p us h) (reached-node p us h)
        c.node
        (turn-child resolve p u name t c.found c.node (resolve_link-plain look 7 u t c.plain)
          c.part.some_byte c.not_dot c.not_dot_dot)
      ∙ ap some (sym e)

  turns-resolve :
      (v : ℕ) (us : List ℕ)
      → Ascends t v us
      → turns (λ w. resolve_link look 8 w t) t.root (names t us) t ≡ some v
  unfolding resolve
  turns-resolve v us h = turns-names v us h

  AllParts-snoc :
      (cs : List (List ℕ)) (c : List ℕ) → AllParts cs → IsPart c → AllParts (cs ++ c ∷ [])
  AllParts-snoc [] c h g = (g, tt)
  AllParts-snoc (d ∷ cs) c (a, h) g = (a, AllParts-snoc cs c h g)

  names-AllParts : (v : ℕ) (us : List ℕ) → Ascends t v us → AllParts (names t us)
  names-AllParts v [] h = tt
  names-AllParts v (u ∷ us) (e, c, h) =
      AllParts-snoc (names t us) (t.node u).name (names-AllParts (t.node u).parent us h) c.part

  some_name : (u : ℕ) (us : List ℕ) → 0 < length (names t (u ∷ us))
  some_name u us = omega (arith, length-append (names t us) ((t.node u).name ∷ []))

append_nil : (xs : List ℕ) → xs ++ [] ≡ xs
append_nil [] = refl
append_nil (x ∷ xs) = ap (λ ys. x ∷ ys) (append_nil xs)

path_of-names :
    (n v cap u : ℕ) (us : List ℕ) (t : Tree)
    → Ascends t v (u ∷ us)
    → length (u ∷ us) < n
    → path_of n v cap t ≡ (
        if ltb (length (spell (names t (u ∷ us)))) (min cap max_path)
        then some (spell (names t (u ∷ us)))
        else none)
unfolding path_of
path_of-names n v cap u us t (e, c, h) lt =
    let path = spell (names t (u ∷ us)) in
    let z : v ≢ 0 = λ k. c.node (sym e ∙ k) in
    let r : v ≢ t.root = λ k. c.below_root (sym e ∙ k) in
    elim (lt_or_le (max_path - 1) (length path)) [
      | inl long ↦
          let q = spell_loop-long n (max_path - 1) v (u ∷ us) [] t (e, c, h) long in
          ground (arith, z, r, q, long)
      | inr fits ↦
          let q =
            spell_loop-names n (max_path - 1) v (u ∷ us) [] t (e, c, h) lt fits
            ∙ ap some (append_nil path) in
          ground (arith, z, r, q, fits)
    ]

lookup_at-spell :
    (n cwd : ℕ) (cs : List (List ℕ)) (t : Tree)
    → 0 < length cs
    → lookup_at (suc n) cwd (spell cs) t
      ≡ walk
          (length (spell cs))
          (λ v. resolve_link (λ base target. lookup_at n base target t) 8 v t)
          t.root
          (spell_rest cs)
          t
lookup_at-spell n cwd [] t h = absurd (omega arith)
lookup_at-spell n cwd (c ∷ cs) t h = lookup_at-rooted n cwd c cs t

shorter_rest : (cs : List (List ℕ)) → length (spell_rest cs) ≤ length (spell cs)
shorter_rest [] = omega arith
shorter_rest (c ∷ cs) = omega arith

-- For a node other than the root that the parent pointers lead from to the root, over children that are
-- found under their names, no symbolic links, and with names that can be written in a path: vfs_path_of
-- spells the names on the way down, or fails if these bytes with the NUL are more than the buffer or
-- VFS_MAX_PATH; and vfs_lookup_at of the path that it spells, from any directory, returns the node.
pub path_of-lookup_at :
    (n k v cap cwd u : ℕ) (us : List ℕ) (t : Tree)
    → t.root ≢ 0
    → Ascends t v (u ∷ us)
    → length (u ∷ us) < n
    → (path_of n v cap t ≡ (
        if ltb (length (spell (names t (u ∷ us)))) (min cap max_path)
        then some (spell (names t (u ∷ us)))
        else none))
      × (lookup_at (suc k) cwd (spell (names t (u ∷ us))) t ≡ some v)
path_of-lookup_at n k v cap cwd u us t root h lt =
    let look : ℕ → List ℕ → Option ℕ = λ base target. lookup_at k base target t in
    let path = names t (u ∷ us) in
    (
      path_of-names n v cap u us t h lt,
      lookup_at-spell k cwd path t (some_name look t root u us)
          ∙ walk-turns (length (spell path)) (λ w. resolve_link look 8 w t) t.root path t
              (names-AllParts look t root v (u ∷ us) h) (shorter_rest path)
          ∙ turns-resolve look t root v (u ∷ us) h,
    )
