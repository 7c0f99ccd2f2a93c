-- ===== src/Fs/Vfs/Tree/Create.antt =====
-- vfs_create of kernel/fs/vfs.c, against a directory as a finite map from names to nodes.
use yart_os.Prelude.{
  ℕ, zero, suc, ◌+◌, ◌-◌, ◌<◌, ◌≤◌, ◌≡◌, ◌≢◌, ◌⊎◌, inl, inr, refl, true, List, [], ◌∷◌, ◌++◌, arith,
  if◌then◌else◌, ◌==◌, update, length, length-append, take, sym, ◌∙◌, ap, subst, Bool-cases,
}
use yart_os.Fs.Vfs.File.{Kind}
use yart_os.Fs.Vfs.Tree.{
  Tree, Creator, attach, is_dir, mknode, mark_dirty, add_child, create, find_child, same_name,
  max_name,
}
use yart_os.Fs.Vfs.Tree.Chain.{
  NotIn, Chain, sibling_of, name_of, find_name, find_loop-eq, Chain-update, find_name-append,
  find_name-ext, Chain-NotIn, Nodup-append,
}
use yart_os.Fs.Vfs.Tree.Attach.{
  IsDirectory, IsLoose, attach-Chain, attach-names, attach-kinds, attach-next, chain_like,
}

pub take-all : (n : ℕ) (xs : List ℕ) → length xs ≤ n → take n xs ≡ xs
take-all zero [] h = refl
take-all zero (x ∷ xs) h = absurd (omega arith)
take-all (suc n) [] h = refl
take-all (suc n) (x ∷ xs) h = ap (λ ys. x ∷ ys) (take-all n xs (omega arith))

pub same_name_sound : (a b : List ℕ) → same_name a b ≡ true → a ≡ b
same_name_sound [] [] h = refl
same_name_sound [] (y ∷ ys) h = absurd (ground (arith, h))
same_name_sound (x ∷ xs) [] h = absurd (ground (arith, h))
same_name_sound (x ∷ xs) (y ∷ ys) h =
    let e : x ≡ y = ground (arith, h) in
    let q : same_name xs ys ≡ true = ground (arith, h) in
    rw e (ap (λ zs. y ∷ zs) (same_name_sound xs ys q))

pub find_child-eq :
    (p : ℕ) (name xs : List ℕ) (t : Tree)
    → IsDirectory t p xs
    → find_child p name t ≡ find_name (name_of t) xs name
unfolding find_child
find_child-eq p name xs t d =
    let e = find_loop-eq t.next (t.node p).child xs name t d.chain d.few in
    let z = d.node in let k = d.dir in ground (arith, e, z, k)

pub find_name-update :
    (names : ℕ → List ℕ) (c : ℕ) (v xs name : List ℕ)
    → NotIn c xs
    → find_name (update names c v) xs name ≡ find_name names xs name
find_name-update names c v [] name n = refl
find_name-update names c v (x ∷ xs) name (n, m) =
    ground (arith, n, find_name-update names c v xs name m)

-- the pointer that kzalloc returns next is no node of the directory
pub record IsNew (t : Tree) (p : ℕ) (xs : List ℕ) : Type 0 where
  pub node : t.next ≢ 0
  pub other : t.next ≢ p
  pub new : NotIn t.next xs

zero_or_not : (n : ℕ) → (n ≡ 0) ⊎ (n ≢ 0)
zero_or_not n = ground arith

at_self : (f : ℕ → List ℕ) (n : ℕ) (v : List ℕ) → update f n v n ≡ v
at_self f n v = ground arith

module _ (who : Creator) (p : ℕ) (name : List ℕ) (kind : Kind) (t : Tree) where
  -- the tree of vfs_create before attach
  made : Tree
  made = mark_dirty t.next (mknode who name kind t)

  made-sibling : (i : ℕ) → sibling_of made i ≡ update (sibling_of t) t.next 0 i
  unfolding made mknode
  made-sibling i = ground arith

  made-name : (i : ℕ) → name_of made i ≡ update (name_of t) t.next (take (max_name - 1) name) i
  unfolding made mknode
  made-name i = ground arith

  made-at : (i : ℕ) → t.next ≢ i → made.node i ≡ t.node i
  unfolding made mknode
  made-at i z = ground (arith, z)

  made-next : made.next ≡ t.next + 1
  unfolding made mknode
  made-next = refl

  made-kind : (made.node t.next).kind ≡ kind
  unfolding made mknode
  made-kind = ground arith

module _ (who : Creator) (p : ℕ) (name : List ℕ) (kind : Kind) (t : Tree) (xs : List ℕ)
    (d : IsDirectory t p xs) (f : IsNew t p xs) where
  longer : (k n : ℕ) → k < n → k < n + 1
  longer k n h = omega arith

  made-IsDirectory : IsDirectory (made who p name kind t) p xs
  made-IsDirectory = record {
    node = d.node;
    dir = ap (λ v. is_dir v.kind) (made-at who p name kind t p f.other) ∙ d.dir;
    chain =
        chain_like (sibling_of (made who p name kind t)) (update (sibling_of t) t.next 0)
          ((made who p name kind t).node p).child xs (made-sibling who p name kind t)
          (subst (λ c. Chain (update (sibling_of t) t.next 0) c xs)
            (sym (ap (λ v. v.child) (made-at who p name kind t p f.other)))
            (Chain-update (sibling_of t) t.next 0 (t.node p).child xs f.new d.chain));
    distinct = d.distinct;
    few =
        subst (λ k. length xs < k) (sym (made-next who p name kind t))
          (longer (length xs) t.next d.few);
  }

  made-IsLoose : IsLoose (made who p name kind t) p t.next xs
  made-IsLoose = record {
    node = f.node;
    other = f.other;
    new = f.new;
    sibling = made-sibling who p name kind t t.next ∙ ground arith;
  }

  -- the tree of vfs_create after attach
  linked : Tree
  linked = attach p t.next (made who p name kind t)

  dirtied-sibling : (i : ℕ) → sibling_of (add_child who p name kind t) i ≡ sibling_of linked i
  unfolding linked made add_child
  dirtied-sibling i = ground arith

  dirtied-child : ((add_child who p name kind t).node p).child ≡ (linked.node p).child
  unfolding linked made add_child
  dirtied-child = ground arith

  add_child-next : (add_child who p name kind t).next ≡ t.next + 1
  unfolding made add_child attach
  add_child-next = attach-next p t.next (made who p name kind t) ∙ made-next who p name kind t

  dirtied-name : (i : ℕ) → name_of (add_child who p name kind t) i ≡ name_of linked i
  unfolding linked made add_child
  dirtied-name i = ground arith

  dirtied-kind : (i : ℕ) → ((add_child who p name kind t).node i).kind ≡ (linked.node i).kind
  unfolding linked made add_child
  dirtied-kind i = ground arith

  linked-Chain : Chain (sibling_of linked) (linked.node p).child (xs ++ t.next ∷ [])
  unfolding linked
  linked-Chain = attach-Chain p t.next (made who p name kind t) xs made-IsDirectory made-IsLoose

  add_child-names :
      (i : ℕ)
      → name_of (add_child who p name kind t) i
        ≡ update (name_of t) t.next (take (max_name - 1) name) i
  unfolding linked
  add_child-names i =
      dirtied-name i
      ∙ attach-names p t.next (made who p name kind t) i
      ∙ made-name who p name kind t i

  add_child-kinds :
      (i : ℕ) → t.next ≢ i → ((add_child who p name kind t).node i).kind ≡ (t.node i).kind
  unfolding linked
  add_child-kinds i z =
      dirtied-kind i
      ∙ attach-kinds p t.next (made who p name kind t) i
      ∙ ap (λ v. v.kind) (made-at who p name kind t i z)

  pub add_child-IsDirectory : IsDirectory (add_child who p name kind t) p (xs ++ t.next ∷ [])
  add_child-IsDirectory = record {
    node = d.node;
    dir = ap is_dir (add_child-kinds p f.other) ∙ d.dir;
    chain =
        chain_like (sibling_of (add_child who p name kind t)) (sibling_of linked)
          ((add_child who p name kind t).node p).child (xs ++ t.next ∷ []) dirtied-sibling
          (subst (λ c. Chain (sibling_of linked) c (xs ++ t.next ∷ [])) (sym dirtied-child)
            linked-Chain);
    distinct = Nodup-append t.next xs d.distinct f.new;
    few = subst (λ n. length (xs ++ t.next ∷ []) < n) (sym add_child-next) (one_more t.next d.few);
  }
    where
      one_more : (n : ℕ) → length xs < n → length (xs ++ t.next ∷ []) < n + 1
      one_more n h = omega (arith, length-append xs (t.next ∷ []))

  add_child-find_name :
      (other : List ℕ)
      → length name < max_name
      → find_name (name_of t) xs name ≡ 0
      → find_name (name_of (add_child who p name kind t)) (xs ++ t.next ∷ []) other
        ≡ (if same_name name other then t.next else find_name (name_of t) xs other)
  add_child-find_name other short e =
      let names = update (name_of t) t.next (take (max_name - 1) name) in
      find_name-ext (name_of (add_child who p name kind t)) names (xs ++ t.next ∷ []) other
        add_child-names
      ∙ find_name-append names xs other t.next
          (Chain-NotIn (sibling_of t) (t.node p).child xs d.chain)
      ∙ ap (λ k. if k == 0 then (if same_name (names t.next) other then t.next else 0) else k)
          (find_name-update (name_of t) t.next (take (max_name - 1) name) xs other f.new)
      ∙ ap
          (λ l.
            if find_name (name_of t) xs other == 0
            then (if same_name l other then t.next else 0)
            else find_name (name_of t) xs other)
          (new_name t.next)
      ∙ settle
    where
      new_name : (n : ℕ) → update (name_of t) n (take (max_name - 1) name) n ≡ name
      new_name n =
          at_self (name_of t) n (take (max_name - 1) name)
          ∙ take-all (max_name - 1) name (omega arith)

      settle :
          (if find_name (name_of t) xs other == 0
            then (if same_name name other then t.next else 0)
            else find_name (name_of t) xs other)
          ≡ (if same_name name other then t.next else find_name (name_of t) xs other)
      settle = elim (Bool-cases (same_name name other)) [
        | inl h ↦
            let k : find_name (name_of t) xs other ≡ 0 =
              ap (λ l. find_name (name_of t) xs l) (sym (same_name_sound name other h)) ∙ e in
            ground (arith, h, k)
        | inr h ↦ ground (arith, h)
      ]

  -- What vfs_create makes of a directory, seen as the map from names to nodes: no node where the name
  -- is taken, and else the map with the new name and no other change.
  pub record Creates (other : List ℕ) : Type 0 where
    pub fresh : find_child p name t ≡ 0
    pub result : (create who p name kind t).0 ≡ t.next
    pub directory : IsDirectory (create who p name kind t).1 p (xs ++ t.next ∷ [])
    pub lookup :
        find_child p other (create who p name kind t).1
        ≡ (if same_name name other then t.next else find_child p other t)

  created :
      find_child p name t ≡ 0 → create who p name kind t ≡ (t.next, add_child who p name kind t)
  unfolding create
  created e = let z = d.node in let k = d.dir in ground (arith, z, k, e)

  refused : find_child p name t ≢ 0 → create who p name kind t ≡ (0, t)
  unfolding create
  refused e = let z = d.node in let k = d.dir in ground (arith, z, k, e)

  -- On a directory with the children `xs`, where kzalloc returns a node that is not among them, and for
  -- a name of less than VFS_MAX_NAME bytes: either a child has the name, and vfs_create returns NULL
  -- and changes nothing, or none has it, and then vfs_create returns the new node, which stands behind
  -- `xs`, and find_child afterwards finds the new node under its name and under every other name what it
  -- found before.
  pub create-Creates :
      (other : List ℕ)
      → length name < max_name
      → ((find_child p name t ≢ 0) × (create who p name kind t ≡ (0, t))) ⊎ Creates other
  create-Creates other short = elim (zero_or_not (find_child p name t)) [
    | inl e ↦ inr (record {
      fresh = e;
      result = ap (λ r. r.0) (created e);
      directory =
          subst (λ u. IsDirectory u p (xs ++ t.next ∷ [])) (sym (ap (λ r. r.1) (created e)))
            add_child-IsDirectory;
      lookup =
          ap (λ r. find_child p other r.1) (created e)
          ∙ find_child-eq p other (xs ++ t.next ∷ []) (add_child who p name kind t)
              add_child-IsDirectory
          ∙ add_child-find_name other short (sym (find_child-eq p name xs t d) ∙ e)
          ∙ ap (λ k. if same_name name other then t.next else k)
              (sym (find_child-eq p other xs t d));
    })
    | inr z ↦ inl (z, refused z)
  ]
