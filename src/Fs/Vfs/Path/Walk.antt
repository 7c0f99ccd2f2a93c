-- ===== src/Fs/Vfs/Path/Walk.antt =====
-- vfs_lookup_at of kernel/fs/vfs.c against the descent along the components of a path.
use yart_os.Prelude.{
  ℕ, suc, ◌≤◌, ◌≡◌, ◌≢◌, refl, false, List, [], ◌∷◌, ◌++◌, arith, if◌then◌else◌, ◌==◌, length, ◌∙◌,
  ap, Option, some,
}
use yart_os.Fs.Vfs.Tree.{Tree, find_child, same_name}
use yart_os.Fs.Vfs.Path.{
  dot, dot_dot, is_symlink, up, turn, walk, unless_null, resolve_link, lookup_at,
}
use yart_os.Fs.Vfs.Path.Split.{IsPart, AllParts, spell, spell_rest, turns, walk-turns}

-- The node that one component leads to, or 0: `.` stays, `..` goes to the parent, and the root is its
-- own parent.
abbrev pub move : (cur : ℕ) → (name : List ℕ) → Tree → ℕ
move cur c t =
    if same_name c dot then cur else if same_name c dot_dot then up cur t else find_child cur c t

-- The node that the components lead to, or 0.
abbrev pub descend : (cur : ℕ) → List (List ℕ) → Tree → ℕ
descend cur [] t = cur
descend cur (c ∷ cs) t =
    let rest = descend (move cur c t) cs t in if move cur c t == 0 then 0 else rest

abbrev pub HasNoLinks : Tree → Type 0
HasNoLinks t = (v : ℕ) → is_symlink (t.node v).kind ≡ false

pub resolve_link-plain :
    (look : ℕ → List ℕ → Option ℕ) (d v : ℕ) (t : Tree)
    → is_symlink (t.node v).kind ≡ false
    → resolve_link look (suc d) v t ≡ some v
unfolding resolve_link
resolve_link-plain look d v t h = ground (arith, h)

turn-move :
    (resolve : ℕ → Option ℕ) (cur x : ℕ) (c : List ℕ) (t : Tree)
    → ((v : ℕ) → resolve v ≡ some v)
    → turn resolve cur (x ∷ c) t ≡ some (move cur (x ∷ c) t)
unfolding turn
turn-move resolve cur x c t r = let q = r (find_child cur (x ∷ c) t) in ground (arith, q)

settle :
    (m k : ℕ) (o : Option ℕ)
    → o ≡ some k
    → (if m == 0 then some 0 else o) ≡ some (if m == 0 then 0 else k)
settle m k o e = ground (arith, e)

pub turns-descend :
    (resolve : ℕ → Option ℕ) (cur : ℕ) (cs : List (List ℕ)) (t : Tree)
    → ((v : ℕ) → resolve v ≡ some v)
    → AllParts cs
    → turns resolve cur cs t ≡ some (descend cur cs t)
turns-descend resolve cur [] t r h = refl
turns-descend resolve cur ([] ∷ cs) t r (h, hs) = absurd (omega (arith, h.some_byte))
turns-descend resolve cur ((x ∷ c) ∷ cs) t r (h, hs) =
    let m = move cur (x ∷ c) t in
    ap (λ o. unless_null o (λ v. turns resolve v cs t)) (turn-move resolve cur x c t r)
    ∙ settle m (descend m cs t) (turns resolve m cs t) (turns-descend resolve m cs t r hs)

-- The walk of a lookup, for an absolute path and for a relative one.
pub lookup_at-rooted :
    (n cwd : ℕ) (c : List ℕ) (cs : List (List ℕ)) (t : Tree)
    → lookup_at (suc n) cwd (spell (c ∷ cs)) t
      ≡ walk
          (length (spell (c ∷ cs)))
          (λ v. resolve_link (λ base target. lookup_at n base target t) 8 v t)
          t.root
          (spell_rest (c ∷ cs))
          t
unfolding lookup_at
lookup_at-rooted n cwd c cs t = refl

lookup_at-relative :
    (n cwd : ℕ) (c : List ℕ) (cs : List (List ℕ)) (t : Tree)
    → IsPart c
    → cwd ≢ 0
    → lookup_at (suc n) cwd (c ++ spell cs) t
      ≡ walk
          (length (c ++ spell cs))
          (λ v. resolve_link (λ base target. lookup_at n base target t) 8 v t)
          cwd
          (c ++ spell cs)
          t
unfolding lookup_at
lookup_at-relative n cwd [] cs t h z = absurd (omega (arith, h.some_byte))
lookup_at-relative n cwd (x ∷ c) cs t h z = let (q, s) = h.no_slash in ground (arith, q, z)

-- In a tree without symbolic links: the lookup of a path, whose components are not empty and have
-- less than VFS_MAX_NAME bytes each, returns the node that the components lead to, and NULL where they
-- lead to none; from the root for a path that starts with a slash, whatever the current directory is,
-- and else from the current directory.
pub lookup_at-descend :
    (n cwd : ℕ) (c : List ℕ) (cs : List (List ℕ)) (t : Tree)
    → HasNoLinks t
    → AllParts (c ∷ cs)
    → cwd ≢ 0
    → (lookup_at (suc n) cwd (spell (c ∷ cs)) t ≡ some (descend t.root (c ∷ cs) t))
      × (lookup_at (suc n) cwd (c ++ spell cs) t ≡ some (descend cwd (c ∷ cs) t))
lookup_at-descend n cwd c cs t plain (h, hs) z = (
  lookup_at-rooted n cwd c cs t ∙ walked (length (spell (c ∷ cs))) t.root (omega arith),
  lookup_at-relative n cwd c cs t h z ∙ walked (length (c ++ spell cs)) cwd (omega arith),
)
  where
    resolve : ℕ → Option ℕ
    resolve v = resolve_link (λ base target. lookup_at n base target t) 8 v t

    walked :
        (k cur : ℕ)
        → length (c ++ spell cs) ≤ k
        → walk k resolve cur (c ++ spell cs) t ≡ some (descend cur (c ∷ cs) t)
    walked k cur lt =
        walk-turns k resolve cur (c ∷ cs) t (h, hs) lt
        ∙ turns-descend resolve cur (c ∷ cs) t
            (λ v. resolve_link-plain (λ base target. lookup_at n base target t) 7 v t (plain v))
            (h, hs)
