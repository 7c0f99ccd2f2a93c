-- ===== src/Fs/Vfs/Path.antt =====
-- The paths of kernel/fs/vfs.c: the walk from the root or the current directory to a node, through
-- symbolic links, the path of a node, and vfs_mkdir_p.
--
-- vfs_lookup_at and resolve_link call each other, without a bound on how deep. The model has the
-- number of calls that fit on the stack, and `none` for a call that does not fit.
pub mod Split
pub mod Walk
pub mod Loop
pub mod Spell
mod Tests
use yart_os.Prelude.{
  ℕ, zero, suc, ◌+◌, ◌-◌, Bool, true, false, ◌&&◌, ◌||◌, not, List, [], ◌∷◌, ◌++◌, Option, some,
  none, if◌then◌else◌, ltb, leb, ◌==◌, length, take,
}
use yart_os.Fs.Vfs.File.{Kind, file, dir, symlink}
use yart_os.Fs.Vfs.Tree.{Tree, Vnode, Creator, find_child, same_name, max_name, is_dir, create}

abbrev pub slash : ℕ
slash = 47

abbrev pub dot : List ℕ
dot = 46 ∷ []

abbrev pub dot_dot : List ℕ
dot_dot = 46 ∷ 46 ∷ []

abbrev pub is_symlink : Kind → Bool
is_symlink symlink = true
is_symlink file = false
is_symlink dir = false

-- while (*s && *s != '/' && i < n) part[i++] = *s++;
abbrev pub part : (n : ℕ) → List ℕ → List ℕ
part zero s = []
part (suc n) [] = []
part (suc n) (c ∷ s) = if c == slash then [] else c ∷ part n s

-- where `s` points after that
abbrev pub after_part : (n : ℕ) → List ℕ → List ℕ
after_part zero s = s
after_part (suc n) [] = []
after_part (suc n) (c ∷ s) = if c == slash then c ∷ s else after_part n s

-- while (*s == '/') s++;
abbrev pub skip_slashes : List ℕ → List ℕ
skip_slashes [] = []
skip_slashes (c ∷ s) = if c == slash then skip_slashes s else c ∷ s

-- if (*s == '/') s++;
abbrev pub skip_slash : List ℕ → List ℕ
skip_slash [] = []
skip_slash (c ∷ s) = if c == slash then s else c ∷ s

abbrev pub first_part : List ℕ → List ℕ
first_part s = part (max_name - 1) s

abbrev pub rest_of : List ℕ → List ℕ
rest_of s = skip_slashes (after_part (max_name - 1) s)

abbrev pub is_rooted : List ℕ → Bool
is_rooted [] = false
is_rooted (c ∷ s) = c == slash

-- cur = (path[0] == '/') ? root_node : (cwd ? cwd : root_node)
abbrev pub start : (cwd : ℕ) → (path : List ℕ) → Tree → ℕ
start cwd path t = if is_rooted path || cwd == 0 then t.root else cwd

-- if (cur->parent) cur = cur->parent;
abbrev pub up : ℕ → Tree → ℕ
up cur t = if (t.node cur).parent == 0 then cur else (t.node cur).parent

-- whether the component only turns the loop: it is empty or `.`
abbrev pub is_idle : List ℕ → Bool
is_idle [] = true
is_idle (c ∷ cs) = same_name (c ∷ cs) dot

-- resolve_link, with `depth` turns left, where `look` is vfs_lookup_at; `none` is a call that does not
-- return
pub resolve_link : (look : ℕ → List ℕ → Option ℕ) → (depth v : ℕ) → Tree → Option ℕ
resolve_link look zero v t = some v
resolve_link look (suc d) v t = elim (v == 0 || not (is_symlink (t.node v).kind)) [
  | true ↦ some v
  | false ↦ elim (t.node v).target [
    | [] ↦ some 0
    | c ∷ s ↦ elim (look (if c == slash then t.root else (t.node v).parent) (c ∷ s)) [
      | none ↦ none
      | some w ↦ resolve_link look d w t
    ]
  ]
]

-- what the turn of a loop makes of the component: the next node, with 0 for NULL, where `resolve` is
-- resolve_link or, for a last component that is not followed, the identity
pub turn : (resolve : ℕ → Option ℕ) → (cur : ℕ) → (name : List ℕ) → Tree → Option ℕ
turn resolve cur name t = elim (is_idle name) [
  | true ↦ some cur
  | false ↦ elim (same_name name dot_dot) [
    | true ↦ some (up cur t)
    | false ↦ elim (find_child cur name t == 0) [
      | true ↦ some 0
      | false ↦ resolve (find_child cur name t)
    ]
  ]
]

-- if (!next) return NULL;
abbrev pub unless_null : Option ℕ → (ℕ → Option ℕ) → Option ℕ
unless_null none k = none
unless_null (some v) k = if v == 0 then some 0 else k v

-- the loop of vfs_lookup_at: the node, or 0 for NULL
pub walk : (rounds : ℕ) → (resolve : ℕ → Option ℕ) → (cur : ℕ) → (s : List ℕ) → Tree → Option ℕ
walk zero resolve cur s t = some cur
walk (suc n) resolve cur [] t = some cur
walk (suc n) resolve cur (c ∷ s) t =
    unless_null (turn resolve cur (first_part (c ∷ s)) t)
      (λ v. walk n resolve v (rest_of (c ∷ s)) t)

-- vfs_lookup_at, with at most `calls` calls of it inside each other. One turn for each byte of the
-- path is enough.
pub lookup_at : (calls cwd : ℕ) → (path : List ℕ) → Tree → Option ℕ
lookup_at zero cwd path t = none
lookup_at (suc n) cwd path t =
    walk (length path) (λ v. resolve_link (λ base target. lookup_at n base target t) 8 v t)
      (start cwd path t) (skip_slash path) t

-- the loop of vfs_lookup_at_nofollow
pub walk_nofollow :
    (rounds : ℕ) → (resolve : ℕ → Option ℕ) → (cur : ℕ) → (s : List ℕ) → Tree → Option ℕ
walk_nofollow zero resolve cur s t = some cur
walk_nofollow (suc n) resolve cur [] t = some cur
walk_nofollow (suc n) resolve cur (c ∷ s) t = elim (rest_of (c ∷ s)) [
  | [] ↦ turn some cur (first_part (c ∷ s)) t
  | d ∷ r ↦
      unless_null (turn resolve cur (first_part (c ∷ s)) t)
        (λ v. walk_nofollow n resolve v (d ∷ r) t)
]

-- vfs_lookup_at_nofollow
pub lookup_at_nofollow : (calls cwd : ℕ) → (path : List ℕ) → Tree → Option ℕ
lookup_at_nofollow n cwd path t =
    walk_nofollow (length path) (λ v. resolve_link (λ base target. lookup_at n base target t) 8 v t)
      (start cwd path t) (skip_slash path) t

-- the loop of vfs_path_of, where `acc` are the bytes of `tmp` from `pos` on
pub spell_loop : (rounds pos c : ℕ) → (acc : List ℕ) → Tree → Option (List ℕ)
spell_loop zero pos c acc t = none
spell_loop (suc n) pos c acc t = elim (c == 0 || c == t.root) [
  | true ↦ some acc
  | false ↦ elim (ltb pos (length (t.node c).name + 1)) [
    | true ↦ none
    | false ↦
        spell_loop n (pos - length (t.node c).name - 1) (t.node c).parent
          (slash ∷ (t.node c).name ++ acc) t
  ]
]

-- VFS_MAX_PATH
abbrev pub max_path : ℕ
max_path = 256

-- vfs_path_of: the bytes before the NUL, or `none` where it returns -1
pub path_of : (rounds v cap : ℕ) → Tree → Option (List ℕ)
path_of n v cap t = elim (v == 0) [
  | true ↦ none
  | false ↦ elim (v == t.root) [
    | true ↦ some (take cap (slash ∷ []))
    | false ↦ elim (spell_loop n (max_path - 1) v [] t) [
      | none ↦ none
      | some s ↦ if leb (length s + 1) cap then some s else none
    ]
  ]
]

-- the loop of vfs_mkdir_p: whether it returns 0, and the tree
pub mkdir_loop : (rounds : ℕ) → Creator → (cur : ℕ) → (s : List ℕ) → Tree → Bool × Tree
mkdir_loop zero who cur s t = (true, t)
mkdir_loop (suc n) who cur [] t = (true, t)
mkdir_loop (suc n) who cur (c ∷ s) t = elim (first_part (c ∷ s)) [
  | [] ↦ mkdir_loop n who cur (rest_of (c ∷ s)) t
  | d ∷ ds ↦ elim (find_child cur (d ∷ ds) t == 0) [
    | true ↦
        let made = create who cur (d ∷ ds) dir t in mkdir_loop n who made.0 (rest_of (c ∷ s)) made.1
    | false ↦ elim (is_dir (t.node (find_child cur (d ∷ ds) t)).kind) [
      | true ↦ mkdir_loop n who (find_child cur (d ∷ ds) t) (rest_of (c ∷ s)) t
      | false ↦ (false, t)
    ]
  ]
]

pub mkdir_p : Creator → (path : List ℕ) → Tree → Bool × Tree
mkdir_p who path t = mkdir_loop (length path) who t.root (skip_slash path) t
