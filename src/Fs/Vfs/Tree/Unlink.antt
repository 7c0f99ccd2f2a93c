-- ===== src/Fs/Vfs/Tree/Unlink.antt =====
-- vfs_unlink of kernel/fs/vfs.c on the children of a directory.
use yart_os.Prelude.{
  ℕ, ◌-◌, ◌<◌, ◌≡◌, ◌≢◌, ◌⊎◌, inl, inr, true, false, List, [], ◌∷◌, ◌++◌, arith, if◌then◌else◌,
  ◌==◌, update, length, length-append, sym, ◌∙◌, ap, subst, Bool-cases,
}
use yart_os.Fs.Vfs.Tree.{
  Tree, set_node, is_dir, mark_dirty, detach, remove, unlink, vnode_unref, find_child, same_name,
}
use yart_os.Fs.Vfs.Tree.Chain.{
  NotIn, Chain, sibling_of, name_of, find_name, Chain-update, find_name-ext, Chain-NotIn,
}
use yart_os.Fs.Vfs.Tree.Attach.{IsDirectory, chain_like}
use yart_os.Fs.Vfs.Tree.Detach.{Detached, detach-Detached, NotIn-rest, Nodup-without}
use yart_os.Fs.Vfs.Tree.Create.{find_child-eq, same_name_sound}

-- the tree of vfs_unlink before the node is unlinked, and what happens after that
noted : ℕ → Tree → Tree
noted v t = if (t.node v).ino == 0 then t else record t { deleted = (t.node v).ino ∷ t.deleted }

finished : (p v : ℕ) → Tree → Tree
finished p v t =
    vnode_unref v (mark_dirty p (set_node v (record (t.node v) { sibling = 0; parent = 0 }) t))

module _ (p v : ℕ) (t : Tree) where
  noted-node : (i : ℕ) → (noted v t).node i ≡ t.node i
  unfolding noted
  noted-node i = ground arith

  noted-next : (noted v t).next ≡ t.next
  unfolding noted
  noted-next = ground arith

  remove-eq : (t.node v).parent ≡ p → remove v t ≡ finished p v (detach p v (noted v t))
  unfolding remove noted finished
  remove-eq e = ap (λ k. finished k v (detach k v (noted v t))) e

  finished-sibling : (i : ℕ) → sibling_of (finished p v t) i ≡ update (sibling_of t) v 0 i
  unfolding finished vnode_unref
  finished-sibling i = ground arith

  finished-name : (i : ℕ) → name_of (finished p v t) i ≡ name_of t i
  unfolding finished vnode_unref
  finished-name i = ground arith

  finished-kind : (i : ℕ) → ((finished p v t).node i).kind ≡ (t.node i).kind
  unfolding finished vnode_unref
  finished-kind i = ground arith

  finished-child : ((finished p v t).node p).child ≡ (t.node p).child
  unfolding finished vnode_unref
  finished-child = ground arith

  finished-next : (finished p v t).next ≡ t.next
  unfolding finished vnode_unref
  finished-next = ground arith

  noted-freed : (noted v t).freed ≡ t.freed
  unfolding noted
  noted-freed = ground arith

  finished-refs : v ≢ 0 → ((finished p v t).node v).refs ≡ (t.node v).refs - 1
  unfolding finished vnode_unref
  finished-refs z = ground (arith, z)

  finished-parent : v ≢ p → ((finished p v t).node v).parent ≡ 0
  unfolding finished vnode_unref
  finished-parent z = ground (arith, z)

  finished-freed :
      v ≢ 0 → (finished p v t).freed ≡ (if (t.node v).refs == 1 then v ∷ t.freed else t.freed)
  unfolding finished vnode_unref
  finished-freed z = ground (arith, z)

find_name-absent :
    (names : ℕ → List ℕ) (v : ℕ) (ys zs other : List ℕ)
    → same_name (names v) other ≡ false
    → find_name names (ys ++ zs) other ≡ find_name names (ys ++ v ∷ zs) other
find_name-absent names v [] zs other h = ground (arith, h)
find_name-absent names v (y ∷ ys) zs other h =
    ground (arith, find_name-absent names v ys zs other h)

-- The lookup in the list without `v`, whose name no other node has.
find_name-without :
    (names : ℕ → List ℕ) (v : ℕ) (ys zs other : List ℕ)
    → find_name names (ys ++ zs) (names v) ≡ 0
    → NotIn 0 (ys ++ v ∷ zs)
    → find_name names (ys ++ zs) other
      ≡ (if same_name (names v) other then 0 else find_name names (ys ++ v ∷ zs) other)
find_name-without names v ys zs other e n = elim (Bool-cases (same_name (names v) other)) [
  | inl h ↦ ground (
    arith,
    h,
    ap (λ l. find_name names (ys ++ zs) l) (sym (same_name_sound (names v) other h)) ∙ e,
  )
  | inr h ↦ ground (arith, h, find_name-absent names v ys zs other h)
]

module _ (p v : ℕ) (ys zs : List ℕ) (t : Tree) (d : IsDirectory t p (ys ++ v ∷ zs))
    (e : (t.node v).parent ≡ p) where
  noted-IsDirectory : IsDirectory (noted v t) p (ys ++ v ∷ zs)
  noted-IsDirectory = record {
    node = d.node;
    dir = ap (λ n. is_dir n.kind) (noted-node p v t p) ∙ d.dir;
    chain =
        chain_like (sibling_of (noted v t)) (sibling_of t) ((noted v t).node p).child (ys ++ v ∷ zs)
          (λ i. ap (λ n. n.sibling) (noted-node p v t i))
          (subst (λ c. Chain (sibling_of t) c (ys ++ v ∷ zs))
            (sym (ap (λ n. n.child) (noted-node p v t p))) d.chain);
    distinct = d.distinct;
    few = subst (λ k. length (ys ++ v ∷ zs) < k) (sym (noted-next p v t)) d.few;
  }

  -- the tree in between
  apart : Tree
  apart = detach p v (noted v t)

  apart-Detached : Detached (noted v t) apart p (ys ++ zs)
  unfolding apart
  apart-Detached = detach-Detached p v zs (noted v t) ys noted-IsDirectory

  remove-finished : remove v t ≡ finished p v apart
  unfolding apart
  remove-finished = remove-eq p v t e

  remove-names : (i : ℕ) → name_of (remove v t) i ≡ name_of t i
  remove-names i =
      ap (λ u. name_of u i) remove-finished
      ∙ finished-name p v apart i
      ∙ apart-Detached.names i
      ∙ ap (λ n. n.name) (noted-node p v t i)

  remove-IsDirectory : IsDirectory (remove v t) p (ys ++ zs)
  remove-IsDirectory =
      subst (λ u. IsDirectory u p (ys ++ zs)) (sym remove-finished)
        (record {
          node = d.node;
          dir =
              ap is_dir (finished-kind p v apart p ∙ apart-Detached.kinds p)
              ∙ noted-IsDirectory.dir;
          chain =
              chain_like (sibling_of (finished p v apart)) (update (sibling_of apart) v 0)
                ((finished p v apart).node p).child (ys ++ zs) (finished-sibling p v apart)
                (subst (λ c. Chain (update (sibling_of apart) v 0) c (ys ++ zs))
                  (sym (finished-child p v apart))
                  (Chain-update (sibling_of apart) v 0 (apart.node p).child (ys ++ zs)
                    (NotIn-rest v ys zs d.distinct) apart-Detached.chain));
          distinct = Nodup-without v ys zs d.distinct;
          few =
              subst (λ k. length (ys ++ zs) < k)
                (sym (finished-next p v apart ∙ apart-Detached.next ∙ noted-next p v t))
                (fewer t.next d.few);
        })
    where
      fewer : (n : ℕ) → length (ys ++ v ∷ zs) < n → length (ys ++ zs) < n
      fewer n h = omega (arith, length-append ys (v ∷ zs), length-append ys zs)

  remove-refs : v ≢ 0 → ((remove v t).node v).refs ≡ (t.node v).refs - 1
  remove-refs z =
      ap (λ u. (u.node v).refs) remove-finished
      ∙ finished-refs p v apart z
      ∙ ap (λ k. k - 1) (apart-Detached.refs v ∙ ap (λ n. n.refs) (noted-node p v t v))

  remove-freed :
      v ≢ 0 → (remove v t).freed ≡ (if (t.node v).refs == 1 then v ∷ t.freed else t.freed)
  remove-freed z =
      ap (λ u. u.freed) remove-finished
      ∙ finished-freed p v apart z
      ∙ ap (λ k. if k == 1 then v ∷ apart.freed else apart.freed)
          (apart-Detached.refs v ∙ ap (λ n. n.refs) (noted-node p v t v))
      ∙ ap (λ l. if (t.node v).refs == 1 then v ∷ l else l)
          (apart-Detached.freed ∙ noted-freed p v t)

  in_list : (xs ws : List ℕ) → NotIn 0 (ws ++ v ∷ xs) → v ≢ 0
  in_list xs [] (a, h) = a
  in_list xs (y ∷ ws) (a, h) = in_list xs ws h

  member : NotIn 0 (ys ++ v ∷ zs)
  member = Chain-NotIn (sibling_of t) (t.node p).child (ys ++ v ∷ zs) d.chain

  -- What vfs_unlink makes of a directory, seen as the map from names to nodes, and of the node itself.
  pub record Unlinks (other : List ℕ) : Type 0 where
    pub directory : IsDirectory (unlink v t).1 p (ys ++ zs)
    pub lookup :
        find_child p other (unlink v t).1
        ≡ (if same_name (name_of t v) other then 0 else find_child p other t)
    pub refs : ((unlink v t).1.node v).refs ≡ (t.node v).refs - 1
    pub freed : (unlink v t).1.freed ≡ (if (t.node v).refs == 1 then v ∷ t.freed else t.freed)

  removed-Unlinks :
      (other : List ℕ)
      → unlink v t ≡ (true, remove v t)
      → find_name (name_of t) (ys ++ zs) (name_of t v) ≡ 0
      → Unlinks other
  removed-Unlinks other q u = record {
    directory = subst (λ w. IsDirectory w p (ys ++ zs)) (sym (ap (λ r. r.1) q)) remove-IsDirectory;
    lookup =
        ap (λ r. find_child p other r.1) q
        ∙ find_child-eq p other (ys ++ zs) (remove v t) remove-IsDirectory
        ∙ find_name-ext (name_of (remove v t)) (name_of t) (ys ++ zs) other remove-names
        ∙ find_name-without (name_of t) v ys zs other u member
        ∙ ap (λ k. if same_name (name_of t v) other then 0 else k)
            (sym (find_child-eq p other (ys ++ v ∷ zs) t d));
    refs = ap (λ r. (r.1.node v).refs) q ∙ remove-refs (in_list zs ys member);
    freed = ap (λ r. r.1.freed) q ∙ remove-freed (in_list zs ys member);
  }

  unlink-cases :
      ((is_dir (t.node v).kind ≡ true) × ((t.node v).child ≢ 0) × (unlink v t ≡ (false, t)))
      ⊎ (unlink v t ≡ (true, remove v t))
  unfolding unlink
  unlink-cases =
      let z = in_list zs ys member in
      let w : (t.node v).parent ≢ 0 = λ k. d.node (sym e ∙ k) in ground (arith, z, w)

  -- For a child `v` of a directory (its parent pointer says so), none of whose other children has its name: either `v` is a
  -- directory that is not empty, and vfs_unlink fails and changes nothing, or it succeeds, the other
  -- children stay in their order, find_child finds nothing under the name of `v` and under every other
  -- name what it found before, and the node has one reference less and is freed exactly if that was
  -- the last one.
  pub unlink-Unlinks :
      (other : List ℕ)
      → find_name (name_of t) (ys ++ zs) (name_of t v) ≡ 0
      → ((is_dir (t.node v).kind ≡ true) × ((t.node v).child ≢ 0) × (unlink v t ≡ (false, t)))
        ⊎ (((unlink v t).0 ≡ true) × Unlinks other)
  unlink-Unlinks other u = elim unlink-cases [
    | inl h ↦ inl h
    | inr q ↦ inr (ap (λ r. r.0) q, removed-Unlinks other q u)
  ]
