-- ===== src/Mm/Heap/Chain.antt =====
-- The free lists of kernel/mm/heap.c as chains through `req`, and the inner loop of bucket_remove.
use yart_os.Prelude.{
  ℕ, zero, suc, ◌≤◌, ◌≡◌, ◌≢◌, refl, sym, ◌∙◌, Bool, true, false, ◌||◌, List, [], ◌∷◌,
  if◌then◌else◌, ◌==◌, update, arith, length, subst,
}
use native.Mathlib.Decide.{ℕ_discrete}
use yart_os.Mm.Heap.{Heap, Block, link_to}

abbrev pub elem : ℕ → List ℕ → Bool
elem a [] = false
elem a (x ∷ xs) = a == x || elem a xs

abbrev pub erase : ℕ → List ℕ → List ℕ
erase a [] = []
erase a (x ∷ xs) = if a == x then xs else x ∷ erase a xs

-- Following `req` from `a` meets the blocks `xs`, each once, and then NULL.
abbrev pub Chain : (ℕ → Block) → ℕ → List ℕ → Type 0
Chain f a [] = a ≡ 0
Chain f a (x ∷ xs) = (a ≡ x) × (x ≢ 0) × (elem x xs ≡ false) × Chain f (f x).req xs

-- Two stores that agree on the links of the list's blocks have the same list.
pub Chain-same :
    (f g : ℕ → Block) (a : ℕ) (xs : List ℕ)
    → Chain f a xs
    → ((x : ℕ) → elem x xs ≡ true → (g x).req ≡ (f x).req)
    → Chain g a xs
Chain-same f g a [] c e = c
Chain-same f g a (x ∷ xs) (i, n, d, c) e =
    let rest = Chain-same f g (f x).req xs c (λ y h. e y (ground arith)) in
    (i, n, d, subst (λ r. Chain g r xs) (sym (e x (ground arith))) rest)

pub Chain-write :
    (f : ℕ → Block) (b : ℕ) (v : Block) (a : ℕ) (xs : List ℕ)
    → elem b xs ≡ false
    → Chain f a xs
    → Chain (update f b v) a xs
Chain-write f b v a xs out c = Chain-same f (update f b v) a xs c (λ x e. ground (arith, out))

pub Chain-push :
    (f : ℕ → Block) (b : ℕ) (v : Block) (a : ℕ) (xs : List ℕ)
    → v.req ≡ a
    → b ≢ 0
    → elem b xs ≡ false
    → Chain f a xs
    → Chain (update f b v) b (b ∷ xs)
Chain-push f b v a xs q n out c =
    let r : (update f b v b).req ≡ a = ground (arith, q) in
    (refl, n, out, rw r (Chain-write f b v a xs out c))

pub elem-erase : (b x : ℕ) (xs : List ℕ) → elem x (erase b xs) ≡ true → elem x xs ≡ true
elem-erase b x [] e = absurd (cc e)
elem-erase b x (y ∷ ys) e = ground (arith, elem-erase b x ys)

pub erase-same : (b : ℕ) (xs : List ℕ) → elem b xs ≡ false → erase b xs ≡ xs
erase-same b [] e = refl
erase-same b (y ∷ ys) e = ground (arith, erase-same b ys)

pub elem-erased :
    (f : ℕ → Block) (a b : ℕ) (xs : List ℕ) → Chain f a xs → elem b (erase b xs) ≡ false
elem-erased f a b [] c = refl
elem-erased f a b (x ∷ xs) (i, n, d, c) = ground (arith, elem-erased f (f x).req b xs c)

link_to-here : (k a b : ℕ) (h : Heap) → a ≢ 0 → (h.blocks a).req ≡ b → link_to (suc k) a b h ≡ a
unfolding link_to
link_to-here k a b h n e = ground (arith, n, e)

link_to-next :
    (k a b : ℕ) (h : Heap)
    → a ≢ 0
    → (h.blocks a).req ≢ b
    → link_to (suc k) a b h ≡ link_to k (h.blocks a).req b h
unfolding link_to
link_to-next k a b h n e = ground (arith, n, e)

link_to-null : (k b : ℕ) (h : Heap) → link_to k 0 b h ≡ 0
unfolding link_to
link_to-null zero b h = refl
link_to-null (suc k) b h = refl

-- The links of a list lead to its blocks and to NULL.
pub Chain-head :
    (f : ℕ → Block) (a b : ℕ) (xs : List ℕ) → Chain f a xs → b ≢ 0 → elem b xs ≡ false → a ≢ b
Chain-head f a b [] c n e = λ q. n (sym q ∙ c)
Chain-head f a b (x ∷ xs) (i, m, d, c) n e = λ q. absurd (ground (arith, i, q))

-- A list that does not hold `b` has no link to `b`.
pub link_to-absent :
    (fuel a b : ℕ) (h : Heap) (xs : List ℕ)
    → b ≢ 0
    → Chain h.blocks a xs
    → elem b xs ≡ false
    → link_to fuel a b h ≡ 0
link_to-absent zero a b h xs n c e = unfold link_to in refl
link_to-absent (suc k) a b h [] n c e = rw c (link_to-null (suc k) b h)
link_to-absent (suc k) a b h (x ∷ xs) n (i, m, d, c) e =
    let out : elem b xs ≡ false = ground arith in
    rw (i, link_to-next k x b h m (Chain-head h.blocks (h.blocks x).req b xs c n out))
      (link_to-absent k (h.blocks x).req b h xs n c out)

-- `t` is the block of `xs` before `b`, and linking it to the block behind `b` takes `b` out.
abbrev pub Bypass : (f : ℕ → Block) (a b t : ℕ) → List ℕ → Type 0
Bypass f a b t xs =
    (t ≢ 0)
    × (elem t xs ≡ true)
    × Chain (update f t (record (f t) { req = (f b).req })) a (erase b xs)

pub Bypass-here :
    (f : ℕ → Block) (b x : ℕ) (xs : List ℕ)
    → Chain f x (x ∷ xs)
    → (f x).req ≡ b
    → x ≢ b
    → elem b xs ≡ true
    → Bypass f x b x (x ∷ xs)
Bypass-here f b x [] c q xb e = absurd (cc e)
Bypass-here f b x (y ∷ ys) (i, m, d, (j, o, p, c)) q xb e =
    let by : y ≡ b = sym j ∙ q in
    let rest : erase b (x ∷ y ∷ ys) ≡ x ∷ ys = ground (arith, by, xb) in
    let out : elem x ys ≡ false = ground arith in
    (
      m,
      ground arith,
      rw rest (Chain-push f x _ (f b).req ys refl m out (subst (λ z. Chain f (f z).req ys) by c)),
    )

pub Bypass-later :
    (f : ℕ → Block) (a b x t : ℕ) (ys : List ℕ)
    → Chain f a (x ∷ ys)
    → x ≢ b
    → Bypass f (f x).req b t ys
    → Bypass f a b t (x ∷ ys)
Bypass-later f a b x t ys (i, m, d, c) xb (tn, te, tc) =
    let xt : x ≢ t = λ q. absurd (ground (arith, q)) in
    let rest : erase b (x ∷ ys) ≡ x ∷ erase b ys = ground (arith, xb) in
    let out : elem x (erase b ys) ≡ false = ground (arith, elem-erase b x ys) in
    let link : (update f t (record (f t) { req = (f b).req }) x).req ≡ (f x).req =
      ground (arith, xt) in
    (tn, ground arith, rw rest (i, m, out, rw link tc))

pub link_to-Bypass :
    (fuel a b : ℕ) (h : Heap) (xs : List ℕ)
    → length xs ≤ fuel
    → a ≢ b
    → Chain h.blocks a xs
    → elem b xs ≡ true
    → Bypass h.blocks a b (link_to fuel a b h) xs
link_to-Bypass fuel a b h [] le ab c e = absurd (cc e)
link_to-Bypass zero a b h (x ∷ xs) le ab c e = absurd (omega arith)
link_to-Bypass (suc k) a b h (x ∷ xs) le ab (i, m, d, c) e =
    let xb : x ≢ b = λ q. ab (i ∙ q) in
    let inside : elem b xs ≡ true = ground (arith, xb) in
    subst (λ z. Bypass h.blocks z b (link_to (suc k) z b h) (x ∷ xs)) (sym i)
      (elim (ℕ_discrete (h.blocks x).req b) [
        | yes q ↦
            subst (λ t. Bypass h.blocks x b t (x ∷ xs)) (sym (link_to-here k x b h m q))
              (Bypass-here h.blocks b x xs (refl, m, d, c) q xb inside)
        | no q ↦
            subst (λ t. Bypass h.blocks x b t (x ∷ xs)) (sym (link_to-next k x b h m q))
              (Bypass-later h.blocks x b x _ xs (refl, m, d, c) xb
                (link_to-Bypass k (h.blocks x).req b h xs (omega arith) q c inside))
      ])

erase-at_here : (b : ℕ) (ys : List ℕ) → erase b (b ∷ ys) ≡ ys
erase-at_here b ys = ground arith

-- The list of a bucket that starts with `b`.
pub Chain-first :
    (f : ℕ → Block) (b : ℕ) (xs : List ℕ) → b ≢ 0 → Chain f b xs → Chain f (f b).req (erase b xs)
Chain-first f b [] n c = absurd (n c)
Chain-first f b (x ∷ xs) n (i, m, d, c) =
    rw (sym i, erase-at_here b xs) (subst (λ z. Chain f (f z).req xs) (sym i) c)

pub Chain-elem : (f : ℕ → Block) (b : ℕ) (xs : List ℕ) → b ≢ 0 → Chain f b xs → elem b xs ≡ true
Chain-elem f b [] n c = absurd (n c)
Chain-elem f b (x ∷ xs) n (i, m, d, c) = ground (arith, i)
