-- ===== src/Fs/Vfs/Tree/Attach.antt =====
-- What attach of kernel/fs/vfs.c does to the children of a directory.
use yart_os.Prelude.{
  ℕ, ◌<◌, ◌≡◌, ◌≢◌, refl, true, List, [], ◌∷◌, ◌++◌, arith, update, length, sym, ◌∙◌, ap, subst,
  fun_ext,
}
use yart_os.Fs.Vfs.Tree.{Tree, set_node, attach, last_loop, is_dir}
use yart_os.Fs.Vfs.Tree.Chain.{
  NotIn, Nodup, Chain, sibling_of, name_of, last_of, last_loop-eq, Chain-snoc,
}

-- `p` is a directory with the children `xs`, in this order.
pub record IsDirectory (t : Tree) (p : ℕ) (xs : List ℕ) : Type 0 where
  pub node : p ≢ 0
  pub dir : is_dir (t.node p).kind ≡ true
  pub chain : Chain (sibling_of t) (t.node p).child xs
  pub distinct : Nodup xs
  pub few : length xs < t.next

-- `c` is a node that is nobody's child.
pub record IsLoose (t : Tree) (p c : ℕ) (xs : List ℕ) : Type 0 where
  pub node : c ≢ 0
  pub other : c ≢ p
  pub new : NotIn c xs
  pub sibling : (t.node c).sibling ≡ 0

module _ (p c : ℕ) (t : Tree) where
  -- the tree with the new parent
  adopted : Tree
  adopted = set_node c (record (t.node c) { parent = p }) t

  attach-first :
      c ≢ p → (t.node p).child ≡ 0 → (i : ℕ) → sibling_of (attach p c t) i ≡ sibling_of t i
  unfolding attach
  attach-first z e i = ground (arith, e)

  attach-first_child : c ≢ p → (t.node p).child ≡ 0 → ((attach p c t).node p).child ≡ c
  unfolding attach
  attach-first_child z e = ground (arith, e, z)

  pub attach-names : (i : ℕ) → name_of (attach p c t) i ≡ name_of t i
  unfolding attach
  attach-names i = ground arith

  pub attach-kinds : (i : ℕ) → ((attach p c t).node i).kind ≡ (t.node i).kind
  unfolding attach
  attach-kinds i = ground arith

  pub attach-next : (attach p c t).next ≡ t.next
  unfolding attach
  attach-next = ground arith

  module _ (l : ℕ) (z : c ≢ p) (e : (t.node p).child ≢ 0)
      (h : last_loop adopted.next (adopted.node p).child adopted ≡ l) where
    attach-later : (i : ℕ) → sibling_of (attach p c t) i ≡ update (sibling_of t) l c i
    unfolding attach adopted
    attach-later i = ground (arith, e, h)

    attach-later_child : ((attach p c t).node p).child ≡ (t.node p).child
    unfolding attach adopted
    attach-later_child = ground (arith, e, h)

shorter : (x : ℕ) (ys : List ℕ) (n : ℕ) → length (x ∷ ys) < n → length ys < n
shorter x ys n h = omega arith

module _ (p c : ℕ) (t : Tree) where
  adopted-sibling : (i : ℕ) → sibling_of (adopted p c t) i ≡ sibling_of t i
  unfolding adopted
  adopted-sibling i = ground arith

  adopted-child : c ≢ p → ((adopted p c t).node p).child ≡ (t.node p).child
  unfolding adopted
  adopted-child z = ground arith

  few_adopted : (k : ℕ) → k < t.next → k < (adopted p c t).next
  unfolding adopted
  few_adopted k h = h

-- The chain depends on the pointers that it passes only.
abbrev pub chain_like :
    (f g : ℕ → ℕ) (c : ℕ) (xs : List ℕ) → ((i : ℕ) → f i ≡ g i) → Chain g c xs → Chain f c xs
chain_like f g c xs e h = subst (λ k. Chain k c xs) (sym (fun_ext e)) h

module _ (p c : ℕ) (t : Tree) where
  -- attach adds the child behind the others.
  attach-Chain_first :
      (xs : List ℕ)
      → IsDirectory t p xs
      → IsLoose t p c xs
      → xs ≡ []
      → Chain (sibling_of (attach p c t)) ((attach p c t).node p).child (c ∷ [])
  attach-Chain_first xs d l e =
      let z : (t.node p).child ≡ 0 =
        subst (λ ys. Chain (sibling_of t) (t.node p).child ys) e d.chain in
      let s : sibling_of (attach p c t) c ≡ 0 = attach-first p c t l.other z c ∙ l.sibling in
      (attach-first_child p c t l.other z, l.node, s)

  attach-Chain_later :
      (x : ℕ) (ys : List ℕ)
      → IsDirectory t p (x ∷ ys)
      → IsLoose t p c (x ∷ ys)
      → Chain (sibling_of (attach p c t)) ((attach p c t).node p).child ((x ∷ ys) ++ c ∷ [])
  attach-Chain_later x ys d l =
      let (a, b, h) = d.chain in
      let same : Chain (sibling_of (adopted p c t)) (sibling_of t x) ys =
        chain_like (sibling_of (adopted p c t)) (sibling_of t) (sibling_of t x) ys
          (adopted-sibling p c t) h in
      let own : Chain (sibling_of (adopted p c t)) (sibling_of (adopted p c t) x) ys =
        subst (λ k. Chain (sibling_of (adopted p c t)) k ys) (sym (adopted-sibling p c t x)) same in
      let few : length ys < t.next = shorter x ys t.next d.few in
      let last : last_loop (adopted p c t).next ((adopted p c t).node p).child (adopted p c t)
          ≡ last_of x ys =
        ap (λ k. last_loop (adopted p c t).next k (adopted p c t)) (adopted-child p c t l.other ∙ a)
        ∙ last_loop-eq (adopted p c t).next x ys (adopted p c t) own
            (few_adopted p c t (length ys) few) in
      let e : (t.node p).child ≢ 0 = λ k. b (sym a ∙ k) in
      let grown =
        Chain-snoc (sibling_of t) (t.node p).child c x ys (a, b, h) l.new d.distinct l.node
          l.sibling in
      subst (λ k. Chain (sibling_of (attach p c t)) k ((x ∷ ys) ++ c ∷ []))
        (sym (attach-later_child p c t (last_of x ys) l.other e last))
        (chain_like (sibling_of (attach p c t)) (update (sibling_of t) (last_of x ys) c)
          (t.node p).child ((x ∷ ys) ++ c ∷ []) (attach-later p c t (last_of x ys) l.other e last)
          grown)

  pub attach-Chain :
      (xs : List ℕ)
      → IsDirectory t p xs
      → IsLoose t p c xs
      → Chain (sibling_of (attach p c t)) ((attach p c t).node p).child (xs ++ c ∷ [])
  attach-Chain [] d l = attach-Chain_first [] d l refl
  attach-Chain (x ∷ ys) d l = attach-Chain_later x ys d l
