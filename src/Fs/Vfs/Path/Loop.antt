-- ===== src/Fs/Vfs/Path/Loop.antt =====
-- vfs_lookup_at and resolve_link of kernel/fs/vfs.c on a symbolic link to itself.
use yart_os.Prelude.{
  ℕ, zero, suc, ◌≤◌, ◌≡◌, ◌≢◌, refl, true, false, List, [], ◌∷◌, ◌++◌, arith, length, sym, ◌∙◌, ap,
  Option, some, none,
}
use yart_os.Fs.Vfs.Tree.{Tree, find_child, same_name}
use yart_os.Fs.Vfs.Path.{dot, dot_dot, is_symlink, turn, walk, unless_null, resolve_link, lookup_at}
use yart_os.Fs.Vfs.Path.Split.{IsPart, walk-turns}

-- `v` is a symbolic link in the directory `d` with its own name as its target.
pub record IsSelfLink (t : Tree) (d v : ℕ) (name : List ℕ) : Type 0 where
  pub found : find_child d name t ≡ v
  pub node : v ≢ 0
  pub directory : d ≢ 0
  pub link : is_symlink (t.node v).kind ≡ true
  pub parent : (t.node v).parent ≡ d
  pub target : (t.node v).target ≡ name
  pub part : IsPart name
  pub not_dot : same_name name dot ≡ false
  pub not_dot_dot : same_name name dot_dot ≡ false

append_nil : (xs : List ℕ) → xs ++ [] ≡ xs
append_nil [] = refl
append_nil (x ∷ xs) = ap (λ ys. x ∷ ys) (append_nil xs)

turn-resolve :
    (resolve : ℕ → Option ℕ) (d v : ℕ) (name : List ℕ) (t : Tree)
    → IsSelfLink t d v name
    → turn resolve d name t ≡ resolve v
unfolding turn
turn-resolve resolve d v [] t h = absurd (omega (arith, h.part.some_byte))
turn-resolve resolve d v (x ∷ c) t h =
    let a = h.not_dot in
    let b = h.not_dot_dot in let e = h.found in let z = h.node in ground (arith, a, b, e, z)

resolve_link-target :
    (look : ℕ → List ℕ → Option ℕ) (k d v x : ℕ) (c : List ℕ) (t : Tree)
    → IsSelfLink t d v (x ∷ c)
    → look d (x ∷ c) ≡ none
    → resolve_link look (suc k) v t ≡ none
unfolding resolve_link
resolve_link-target look k d v x c t h e =
    let z = h.node in
    let l = h.link in
    let g = h.target in
    let p = h.parent in let (q, s) = h.part.no_slash in ground (arith, z, l, g, p, q, e)

walk-turn :
    (n : ℕ) (resolve : ℕ → Option ℕ) (d v : ℕ) (name : List ℕ) (t : Tree)
    → IsSelfLink t d v name
    → resolve v ≡ none
    → length name ≤ n
    → walk n resolve d name t ≡ none
walk-turn n resolve d v name t h e lt =
    ap (λ s. walk n resolve d s t) (sym (append_nil name))
    ∙ walk-turns n resolve d (name ∷ []) t (h.part, tt) (rw (append_nil name) lt)
    ∙ ap (λ o. unless_null o some) (turn-resolve resolve d v name t h ∙ e)

-- A lookup of a symbolic link whose target is its own name does not return: vfs_lookup_at and
-- resolve_link call each other, and however many calls fit on the stack, one more is made.
pub lookup_at-hangs :
    (calls d v : ℕ) (name : List ℕ) (t : Tree)
    → IsSelfLink t d v name
    → lookup_at calls d name t ≡ none
unfolding lookup_at
lookup_at-hangs zero d v name t h = refl
lookup_at-hangs (suc n) d v [] t h = absurd (omega (arith, h.part.some_byte))
lookup_at-hangs (suc n) d v (x ∷ c) t h =
    let z = h.directory in
    let (q, s) = h.part.no_slash in
    let look : ℕ → List ℕ → Option ℕ = λ base target. lookup_at n base target t in
    let ih = lookup_at-hangs n d v (x ∷ c) t h in
    let body =
      walk-turn (length (x ∷ c)) (λ w. resolve_link look 8 w t) d v (x ∷ c) t h
        (resolve_link-target look 7 d v x c t h ih) (omega arith) in
    ground (arith, z, q, body)
