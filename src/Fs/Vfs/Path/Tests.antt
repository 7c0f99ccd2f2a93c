-- ===== src/Fs/Vfs/Path/Tests.antt =====
-- The theorems on the paths of kernel/fs/vfs.c, on a tree with a file in a directory and a link to
-- itself.
use yart_os.Prelude.{
  ℕ, ◌≡◌, refl, List, [], ◌∷◌, ◌++◌, some, none, arith, if◌then◌else◌, ◌==◌, ltb, length, min,
}
use yart_os.Fs.Vfs.File.{file, dir, symlink}
use yart_os.Fs.Vfs.Tree.{Vnode, Tree, find_child, find_loop}
use yart_os.Fs.Vfs.Tree.Sample.{entry, sample}
use yart_os.Fs.Vfs.Path.{lookup_at, path_of, max_path, dot_dot}
use yart_os.Fs.Vfs.Path.Split.{IsPart, spell}
use yart_os.Fs.Vfs.Path.Walk.{HasNoLinks, descend, lookup_at-descend}
use yart_os.Fs.Vfs.Path.Loop.{IsSelfLink, lookup_at-hangs}
use yart_os.Fs.Vfs.Path.Spell.{names, IsChild, path_of-lookup_at}

-- /etc, /etc/rc and the link /l to l
abbrev etc : List ℕ
etc = 101 ∷ 116 ∷ 99 ∷ []

abbrev rc : List ℕ
rc = 114 ∷ 99 ∷ []

abbrev l : List ℕ
l = 108 ∷ []

abbrev nodes : ℕ → Vnode
nodes i =
    if i == 1
    then entry (47 ∷ []) dir 0 2 0
    else if i == 2
    then entry etc dir 1 4 3
    else if i == 3
    then record (entry l symlink 1 0 0) { target = l }
    else entry rc file 2 0 0

abbrev linked : Tree
linked = record { node = nodes; next = 5; root = 1; deleted = []; freed = [] }

l-IsPart : IsPart l
l-IsPart = record { some_byte = omega arith; no_slash = ground arith; short = omega arith }

l-IsSelfLink : IsSelfLink linked 1 3 l
unfolding find_child find_loop
l-IsSelfLink = record {
  found = refl;
  node = omega arith;
  directory = omega arith;
  link = refl;
  parent = refl;
  target = refl;
  part = l-IsPart;
  not_dot = refl;
  not_dot_dot = refl;
}

lookup_at-hangs_example : lookup_at 1000 1 l linked ≡ none
lookup_at-hangs_example = lookup_at-hangs 1000 1 3 l linked l-IsSelfLink

etc-IsPart : IsPart etc
etc-IsPart = record { some_byte = omega arith; no_slash = ground arith; short = omega arith }

rc-IsPart : IsPart rc
rc-IsPart = record { some_byte = omega arith; no_slash = ground arith; short = omega arith }

etc-IsChild : IsChild linked 2
unfolding find_child find_loop
etc-IsChild = record {
  node = omega arith;
  below_root = omega arith;
  found = refl;
  plain = refl;
  part = etc-IsPart;
  not_dot = refl;
  not_dot_dot = refl;
}

rc-IsChild : IsChild linked 4
unfolding find_child find_loop
rc-IsChild = record {
  node = omega arith;
  below_root = omega arith;
  found = refl;
  plain = refl;
  part = rc-IsPart;
  not_dot = refl;
  not_dot_dot = refl;
}

path_of-lookup_at_example :
    (path_of 5 4 16 linked ≡ (
      if ltb (length (spell (names linked (4 ∷ 2 ∷ [])))) (min 16 max_path)
      then some (spell (names linked (4 ∷ 2 ∷ [])))
      else none))
    × (lookup_at 1 2 (spell (names linked (4 ∷ 2 ∷ []))) linked ≡ some 4)
path_of-lookup_at_example =
    path_of-lookup_at 5 0 4 16 2 4 (2 ∷ []) linked (omega arith)
      (refl, rc-IsChild, (refl, etc-IsChild, refl)) (omega arith)

sample-HasNoLinks : HasNoLinks sample
sample-HasNoLinks v = ground arith

abbrev c : List ℕ
c = 99 ∷ []

c-IsPart : IsPart c
c-IsPart = record { some_byte = omega arith; no_slash = ground arith; short = omega arith }

up-IsPart : IsPart dot_dot
up-IsPart = record { some_byte = omega arith; no_slash = ground arith; short = omega arith }

lookup_at-descend_example :
    (lookup_at 1 4 (spell (c ∷ dot_dot ∷ c ∷ [])) sample
      ≡ some (descend 1 (c ∷ dot_dot ∷ c ∷ []) sample))
    × (lookup_at 1 4 (c ++ spell (dot_dot ∷ c ∷ [])) sample
        ≡ some (descend 4 (c ∷ dot_dot ∷ c ∷ []) sample))
lookup_at-descend_example =
    lookup_at-descend 0 4 c (dot_dot ∷ c ∷ []) sample sample-HasNoLinks
      (c-IsPart, (up-IsPart, (c-IsPart, tt))) (omega arith)
