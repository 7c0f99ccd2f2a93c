-- ===== src/Fs/Vfs/Tree.antt =====
-- The tree of kernel/fs/vfs.c: its nodes, and the operations that link and unlink them.
--
-- A pointer is a number, with 0 for NULL, and the heap is the function from a pointer to its node.
-- A name or a path is the list of its bytes, without the NUL. A walk along a list of siblings runs on
-- as many rounds as there are nodes. The mutex is not there: each call is a step.
pub mod Chain
pub mod Attach
pub mod Create
pub mod Detach
pub mod Unlink
pub mod Sample
mod Tests
use yart_os.Prelude.{
  ℕ, zero, suc, ◌+◌, ◌-◌, Bool, true, false, ◌&&◌, ◌||◌, not, List, [], ◌∷◌, if◌then◌else◌, ltb,
  leb, ◌==◌, update, take, u32_mod, ◌%◌,
}
use yart_os.Fs.Vfs.File.{Kind, file, dir, symlink}
use Prim.Native.Nat.{bit_and}

-- the fields of vnode_t that make the tree; `target` is the string of a symbolic link
pub record Vnode : Type 0 where
  pub name : List ℕ
  pub kind : Kind
  pub ino : ℕ
  pub refs : ℕ
  pub uid : ℕ
  pub gid : ℕ
  pub mode : ℕ
  pub dirty : Bool
  pub target : List ℕ
  pub parent : ℕ
  pub child : ℕ
  pub sibling : ℕ

-- `next` is the pointer that kzalloc returns next. `deleted` is what blkfs_note_delete was told, and
-- `freed` what was given back to the heap.
pub record Tree : Type 0 where
  pub node : ℕ → Vnode
  pub next : ℕ
  pub root : ℕ
  pub deleted : List ℕ
  pub freed : List ℕ

-- sched_current_euid(), sched_current_egid() and sched_current_umask()
pub record Creator : Type 0 where
  pub euid : ℕ
  pub egid : ℕ
  pub umask : ℕ

abbrev pub is_dir : Kind → Bool
is_dir dir = true
is_dir file = false
is_dir symlink = false

-- strcmp(a, b) == 0
abbrev pub same_name : List ℕ → List ℕ → Bool
same_name [] [] = true
same_name [] (y ∷ ys) = false
same_name (x ∷ xs) [] = false
same_name (x ∷ xs) (y ∷ ys) = x == y && same_name xs ys

abbrev pub set_node : ℕ → Vnode → Tree → Tree
set_node p v t = record t { node = update t.node p v }

-- VFS_MAX_NAME
abbrev pub max_name : ℕ
max_name = 96

-- the node that mknode fills in: the name is cut, and the umask strips bits
abbrev pub new_node : Creator → List ℕ → Kind → Vnode
new_node who name kind = record {
  name = take (max_name - 1) name;
  kind = kind;
  ino = 0;
  refs = 1;
  uid = who.euid;
  gid = who.egid;
  mode = bit_and (if is_dir kind then 0x1ed else 0x1a4) (0xffff - who.umask);
  dirty = false;
  target = [];
  parent = 0;
  child = 0;
  sibling = 0;
}

-- mknode: the tree, whose node `t.next` is the new one
pub mknode : Creator → List ℕ → Kind → Tree → Tree
mknode who name kind t = record (set_node t.next (new_node who name kind) t) { next = t.next + 1 }

-- while (t->sibling) t = t->sibling;
pub last_loop : (rounds c : ℕ) → Tree → ℕ
last_loop zero c t = c
last_loop (suc n) c t = elim ((t.node c).sibling == 0) [
  | true ↦ c
  | false ↦ last_loop n (t.node c).sibling t
]

-- attach
pub attach : (parent child : ℕ) → Tree → Tree
attach p c t =
    let u = set_node c (record (t.node c) { parent = p }) t in
    let l = last_loop u.next (u.node p).child u in
    if (u.node p).child == 0
    then set_node p (record (u.node p) { child = c }) u
    else set_node l (record (u.node l) { sibling = c }) u

-- for (c = p->child; c; c = c->sibling) if (strcmp(c->name, name) == 0) return c;
unfoldable pub find_loop : (rounds c : ℕ) → (name : List ℕ) → Tree → ℕ
find_loop zero c name t = 0
find_loop (suc n) c name t = elim (c == 0 || same_name (t.node c).name name) [
  | true ↦ c
  | false ↦ find_loop n (t.node c).sibling name t
]

-- find_child
unfoldable pub find_child : (p : ℕ) → (name : List ℕ) → Tree → ℕ
find_child p name t =
    if p == 0 || not (is_dir (t.node p).kind) then 0 else find_loop t.next (t.node p).child name t

-- find_or_make_dir: the directory, and the tree
pub find_or_make_dir : Creator → (p : ℕ) → (name : List ℕ) → Tree → ℕ × Tree
find_or_make_dir who p name t =
    let e = find_child p name t in
    if not (e == 0) && is_dir (t.node e).kind
    then (e, t)
    else (t.next, attach p t.next (mknode who name dir t))

abbrev pub mark_dirty : ℕ → Tree → Tree
mark_dirty p t = set_node p (record (t.node p) { dirty = true }) t

-- vfs_create from mknode on
pub add_child : Creator → (p : ℕ) → (name : List ℕ) → Kind → Tree → Tree
add_child who p name kind t =
    mark_dirty p (attach p t.next (mark_dirty t.next (mknode who name kind t)))

-- vfs_create: the new node or 0, and the tree
pub create : Creator → (p : ℕ) → (name : List ℕ) → Kind → Tree → ℕ × Tree
create who p name kind t =
    if p == 0 || not (is_dir (t.node p).kind)
    then (0, t)
    else if find_child p name t == 0
    then (t.next, add_child who p name kind t)
    else (0, t)

-- vfs_symlink, on a name and a target that are not NULL
pub make_symlink : Creator → (p : ℕ) → (name target : List ℕ) → Tree → ℕ × Tree
make_symlink who p name target t =
    let u = mknode who name symlink t in
    let link = record (u.node t.next) { target = target; mode = 0x1ff; dirty = true } in
    if p == 0 || not (is_dir (t.node p).kind)
    then (0, t)
    else if find_child p name t == 0
    then (t.next, mark_dirty p (attach p t.next (set_node t.next link u)))
    else (0, t)

-- vnode_ref
pub vnode_ref : ℕ → Tree → Tree
vnode_ref v t =
    if v == 0
    then t
    else set_node v (record (t.node v) { refs = ((t.node v).refs + 1) % u32_mod }) t

-- vnode_unref
pub vnode_unref : ℕ → Tree → Tree
vnode_unref v t =
    let u = set_node v (record (t.node v) { refs = (t.node v).refs - 1 }) t in
    if v == 0 || (t.node v).refs == 0
    then t
    else if (t.node v).refs == 1
    then record u { freed = v ∷ t.freed }
    else u

-- for (c = p->child; c; c = c->sibling) if (c->sibling == v) { c->sibling = v->sibling; break; }
pub skip_loop : (rounds c v : ℕ) → Tree → Tree
skip_loop zero c v t = t
skip_loop (suc n) c v t = elim (c == 0) [
  | true ↦ t
  | false ↦ elim ((t.node c).sibling == v) [
    | true ↦ set_node c (record (t.node c) { sibling = (t.node v).sibling }) t
    | false ↦ skip_loop n (t.node c).sibling v t
  ]
]

-- the unlinking of `v` from the children of `p`
pub detach : (p v : ℕ) → Tree → Tree
detach p v t =
    if (t.node p).child == v
    then set_node p (record (t.node p) { child = (t.node v).sibling }) t
    else skip_loop t.next (t.node p).child v t

-- vfs_unlink from blkfs_note_delete on
pub remove : ℕ → Tree → Tree
remove v t =
    let t₁ = if (t.node v).ino == 0 then t else record t { deleted = (t.node v).ino ∷ t.deleted } in
    let p = (t.node v).parent in
    let t₂ = detach p v t₁ in
    let t₃ = set_node v (record (t₂.node v) { sibling = 0; parent = 0 }) t₂ in
    vnode_unref v (mark_dirty p t₃)

-- vfs_unlink: whether it returns 0, and the tree
pub unlink : ℕ → Tree → Bool × Tree
unlink v t =
    if v == 0 || (t.node v).parent == 0
    then (false, t)
    else if is_dir (t.node v).kind && not ((t.node v).child == 0)
    then (false, t)
    else (true, remove v t)

-- for (c = dir->child; c; c = c->sibling) n++;
pub count_loop : (rounds c n : ℕ) → Tree → ℕ
count_loop zero c n t = n
count_loop (suc r) c n t = elim (c == 0) [
  | true ↦ n
  | false ↦ count_loop r (t.node c).sibling (n + 1) t
]

pub count_children : ℕ → Tree → ℕ
unfolding count_loop
count_children p t =
    if p == 0 || not (is_dir (t.node p).kind) then 0 else count_loop t.next (t.node p).child 0 t
