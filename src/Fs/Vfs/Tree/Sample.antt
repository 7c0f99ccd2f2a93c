-- ===== src/Fs/Vfs/Tree/Sample.antt =====
-- A directory with the files `a` and `b` and the directory `c`, for the tests of kernel/fs/vfs.c.
use yart_os.Prelude.{ℕ, false, List, [], ◌∷◌, if◌then◌else◌, ◌==◌}
use yart_os.Fs.Vfs.File.{Kind, file, dir}
use yart_os.Fs.Vfs.Tree.{Vnode, Tree, Creator}

abbrev pub entry : (name : List ℕ) → Kind → (parent child sibling : ℕ) → Vnode
entry name kind p c s = record {
  name = name;
  kind = kind;
  ino = 0;
  refs = 1;
  uid = 0;
  gid = 0;
  mode = 0x1ed;
  dirty = false;
  target = [];
  parent = p;
  child = c;
  sibling = s;
}

abbrev pub nodes : ℕ → Vnode
nodes i =
    if i == 1
    then entry (47 ∷ []) dir 0 2 0
    else if i == 2
    then entry (97 ∷ []) file 1 0 3
    else if i == 3
    then entry (98 ∷ []) file 1 0 4
    else entry (99 ∷ []) dir 1 0 0

abbrev pub sample : Tree
sample = record { node = nodes; next = 5; root = 1; deleted = []; freed = [] }

abbrev pub user : Creator
user = record { euid = 1000; egid = 1000; umask = 0x12 }
