-- ===== src/Fs/Vfs/Tree/Detach.antt =====
-- How vfs_unlink of kernel/fs/vfs.c takes a node out of the list of its siblings.
use yart_os.Prelude.{
  ℕ, zero, suc, ◌<◌, ◌≡◌, ◌≢◌, refl, List, [], ◌∷◌, ◌++◌, arith, update, length, length-append, sym,
  ◌∙◌, ap, subst,
}
use yart_os.Fs.Vfs.Tree.{Tree, set_node, skip_loop, detach}
use yart_os.Fs.Vfs.Tree.Chain.{
  NotIn, Nodup, Chain, sibling_of, name_of, last_of, Chain-update, NotIn-last,
}
use yart_os.Fs.Vfs.Tree.Attach.{IsDirectory, chain_like}

-- `a`, with the pointer behind `v` in place of the pointer to `v`
abbrev pub skipped : ℕ → ℕ → Tree → Tree
skipped a v t = set_node a (record (t.node a) { sibling = (t.node v).sibling }) t

NotIn-right : (x : ℕ) (ys zs : List ℕ) → NotIn x (ys ++ zs) → NotIn x zs
NotIn-right x [] zs h = h
NotIn-right x (y ∷ ys) zs (a, h) = NotIn-right x ys zs h

NotIn-left : (x : ℕ) (ys zs : List ℕ) → NotIn x (ys ++ zs) → NotIn x ys
NotIn-left x [] zs h = tt
NotIn-left x (y ∷ ys) zs (a, h) = (a, NotIn-left x ys zs h)

at_self : (f : ℕ → ℕ) (n v : ℕ) → update f n v n ≡ v
at_self f n v = ground arith

NotIn-middle : (x v : ℕ) (ys zs : List ℕ) → NotIn x (ys ++ v ∷ zs) → x ≢ v
NotIn-middle x v ys zs h e = let (a, b) = NotIn-right x ys (v ∷ zs) h in a (sym e)

-- The loop finds the node before `v`.
skip_loop-eq :
    (n x v : ℕ) (ys zs : List ℕ) (t : Tree)
    → Chain (sibling_of t) x (x ∷ ys ++ v ∷ zs)
    → Nodup (x ∷ ys ++ v ∷ zs)
    → length ys < n
    → skip_loop n x v t ≡ skipped (last_of x ys) v t
unfolding skip_loop
skip_loop-eq zero x v ys zs t h u lt = absurd (omega arith)
skip_loop-eq (suc n) x v [] zs t (e, z, (a, b, h)) u lt = ground (arith, z, a)
skip_loop-eq (suc n) x v (y ∷ ys) zs t (e, z, (a, b, h)) (m, (w, u)) lt =
    let ih = skip_loop-eq n y v ys zs t (refl, b, h) (w, u) (omega arith) in
    let q : skip_loop n (sibling_of t x) v t ≡ skipped (last_of y ys) v t =
      ap (λ d. skip_loop n d v t) a ∙ ih in
    let k : (sibling_of t x) ≢ v = λ p. NotIn-middle y v ys zs w (sym a ∙ p) in
    ground (arith, z, k, q)

NotIn-without : (x v : ℕ) (ys zs : List ℕ) → NotIn x (ys ++ v ∷ zs) → NotIn x (ys ++ zs)
NotIn-without x v [] zs (a, h) = h
NotIn-without x v (y ∷ ys) zs (a, h) = (a, NotIn-without x v ys zs h)

pub Nodup-without : (v : ℕ) (ys zs : List ℕ) → Nodup (ys ++ v ∷ zs) → Nodup (ys ++ zs)
Nodup-without v [] zs (a, h) = h
Nodup-without v (y ∷ ys) zs (a, h) = (NotIn-without y v ys zs a, Nodup-without v ys zs h)

-- The node itself is nowhere else in the list.
pub NotIn-rest : (v : ℕ) (ys zs : List ℕ) → Nodup (ys ++ v ∷ zs) → NotIn v (ys ++ zs)
NotIn-rest v [] zs (a, h) = a
NotIn-rest v (y ∷ ys) zs (a, h) = (NotIn-middle y v ys zs a, NotIn-rest v ys zs h)

-- The chain without `v`.
Chain-skip :
    (f : ℕ → ℕ) (c x v : ℕ) (ys zs : List ℕ)
    → Chain f c (x ∷ ys ++ v ∷ zs)
    → Nodup (x ∷ ys ++ v ∷ zs)
    → Chain (update f (last_of x ys) (f v)) c (x ∷ ys ++ zs)
Chain-skip f c x v [] zs (e, z, (a, b, h)) ((m, n), u) = (
  e,
  z,
  subst (λ k. Chain (update f x (f v)) k zs) (sym (at_self f x (f v)))
      (Chain-update f x (f v) (f v) zs n h),
)
Chain-skip f c x v (y ∷ ys) zs (e, z, h) (m, u) =
    let l : last_of y ys ≢ x = NotIn-last x y ys (NotIn-left x (y ∷ ys) (v ∷ zs) m) in
    let q : f x ≡ update f (last_of y ys) (f v) x = ground (arith, l) in
    (
      e,
      z,
      subst (λ k. Chain (update f (last_of y ys) (f v)) k (y ∷ ys ++ zs)) q
          (Chain-skip f (f x) y v ys zs h u),
    )

before : (ys zs : List ℕ) (x v n : ℕ) → length (x ∷ ys ++ v ∷ zs) < n → length ys < n
before ys zs x v n h = omega (arith, length-append ys (v ∷ zs))

abbrev pub headless : ℕ → ℕ → Tree → Tree
headless p v t = set_node p (record (t.node p) { child = (t.node v).sibling }) t

-- What taking `v` out of the children of `p` leaves.
pub record Detached (t u : Tree) (p : ℕ) (xs : List ℕ) : Type 0 where
  pub chain : Chain (sibling_of u) (u.node p).child xs
  pub names : (i : ℕ) → name_of u i ≡ name_of t i
  pub kinds : (i : ℕ) → (u.node i).kind ≡ (t.node i).kind
  pub next : u.next ≡ t.next
  pub refs : (i : ℕ) → (u.node i).refs ≡ (t.node i).refs
  pub freed : u.freed ≡ t.freed

module _ (p v : ℕ) (zs : List ℕ) (t : Tree) where
  headless-Detached : Chain (sibling_of t) (sibling_of t v) zs → Detached t (headless p v t) p zs
  headless-Detached h = record {
    chain =
        subst (λ c. Chain (sibling_of (headless p v t)) c zs) (sym first)
          (chain_like (sibling_of (headless p v t)) (sibling_of t) (sibling_of t v) zs
            (λ i. ground arith) h);
    names = λ i. ground arith;
    kinds = λ i. ground arith;
    next = refl;
    refs = λ i. ground arith;
    freed = refl;
  }
    where
      first : ((headless p v t).node p).child ≡ sibling_of t v
      first = ground arith

  skipped-Detached :
      (x : ℕ) (ys : List ℕ)
      → IsDirectory t p (x ∷ ys ++ v ∷ zs)
      → Detached t (skipped (last_of x ys) v t) p (x ∷ ys ++ zs)
  skipped-Detached x ys d = record {
    chain =
        subst (λ c. Chain (sibling_of u) c (x ∷ ys ++ zs)) (sym first)
          (chain_like (sibling_of u) (update (sibling_of t) l (sibling_of t v)) (t.node p).child
            (x ∷ ys ++ zs) (λ i. ground arith)
            (Chain-skip (sibling_of t) (t.node p).child x v ys zs d.chain d.distinct));
    names = λ i. ground arith;
    kinds = λ i. ground arith;
    next = refl;
    refs = λ i. ground arith;
    freed = refl;
  }
    where
      l : ℕ
      l = last_of x ys

      u : Tree
      u = skipped l v t

      first : (u.node p).child ≡ (t.node p).child
      first = ground arith

  pub detach-Detached :
      (ys : List ℕ) → IsDirectory t p (ys ++ v ∷ zs) → Detached t (detach p v t) p (ys ++ zs)
  unfolding detach
  detach-Detached [] d =
      let (e, z, h) = d.chain in
      let q : detach p v t ≡ headless p v t = ground (arith, e) in
      subst (λ u. Detached t u p zs) (sym q) (headless-Detached h)
  detach-Detached (x ∷ ys) d =
      let (e, z, h) = d.chain in
      let (m, w) = d.distinct in
      let k : (t.node p).child ≢ v = λ s. NotIn-middle x v ys zs m (sym e ∙ s) in
      let own : Chain (sibling_of t) x (x ∷ ys ++ v ∷ zs) = (refl, z, h) in
      let found = skip_loop-eq t.next x v ys zs t own (m, w) (before ys zs x v t.next d.few) in
      let q : detach p v t ≡ skipped (last_of x ys) v t =
        ground (arith, k) ∙ ap (λ c. skip_loop t.next c v t) e ∙ found in
      subst (λ u. Detached t u p (x ∷ ys ++ zs)) (sym q) (skipped-Detached x ys d)
