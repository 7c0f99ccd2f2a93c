-- ===== src/Mm/Heap/Lists.antt =====
-- The free lists of kernel/mm/heap.c: bucket_push, bucket_pop and bucket_remove against lists of blocks.
use yart_os.Prelude.{
  ℕ, zero, suc, ◌+◌, ◌≤◌, ◌<◌, ◌≡◌, ◌≢◌, inl, inr, refl, true, false, List, ◌∷◌, update, arith,
  Bool-cases, length, subst,
}
use yart_os.Mm.Heap.Chain.{
  elem, erase, Chain, Chain-write, Chain-push, elem-erase, erase-same, elem-erased, link_to-absent,
  link_to-Bypass, Chain-first, Chain-elem,
}
use native.Mathlib.Decide.{ℕ_discrete}
use yart_os.Mm.Heap.{
  Heap, Block, bfree_set_next, bucket_push, link_to, remove_from, bucket_remove, num_buckets,
}

-- The bucket lists of the heap are `L`, and no block is in two of them.
pub record Lists (h : Heap) (L : ℕ → List ℕ) : Type 0 where
  pub chain : (i : ℕ) → i < num_buckets → Chain h.blocks (h.buckets i) (L i)
  pub apart :
      (i j x : ℕ)
      → i < num_buckets
      → j < num_buckets
      → elem x (L i) ≡ true
      → elem x (L j) ≡ true
      → i ≡ j

abbrev pub Absent : (ℕ → List ℕ) → ℕ → Type 0
Absent L x = (i : ℕ) → i < num_buckets → elem x (L i) ≡ false

pub at_here {ℓ} : {A : Type ℓ} (f : ℕ → A) (i j : ℕ) (v : A) → j ≡ i → update f i v j ≡ v
at_here f i j v e = ground (arith, e)

pub at_there {ℓ} : {A : Type ℓ} (f : ℕ → A) (i j : ℕ) (v : A) → j ≢ i → update f i v j ≡ f j
at_there f i j v n = ground (arith, n)

-- Pushing a block that is in no bucket onto a bucket puts it in front of that bucket's list, and leaves the other lists as they are.
pub bucket_push-Lists :
    {h : Heap} {L : ℕ → List ℕ} (b ci : ℕ)
    → Lists h L
    → b ≢ 0
    → Absent L b
    → Lists (bucket_push b ci h) (update L ci (b ∷ L ci))
unfolding bucket_push
bucket_push-Lists {h} {L} b ci l n out = record {
  chain = λ i lt. elim (ℕ_discrete i ci) [
    | yes q ↦
        let at = l.chain ci (omega arith) in
        rw (at_here L ci i (b ∷ L ci) q, at_here h.buckets ci i b q)
          (Chain-push h.blocks b _ (h.buckets ci) (L ci) refl n (out ci (omega arith)) at)
    | no q ↦
        rw (at_there L ci i (b ∷ L ci) q, at_there h.buckets ci i b q)
          (Chain-write h.blocks b _ (h.buckets i) (L i) (out i lt) (l.chain i lt))
  ];
  apart = λ i j x hi hj a c. ground (arith, l.apart i j x, out i, out j);
}

-- Taking a block that only one list holds out of that list takes it out of all.
pub erase_all :
    {h : Heap} {L : ℕ → List ℕ} (i j b : ℕ)
    → Lists h L
    → i < num_buckets
    → j < num_buckets
    → elem b (L i) ≡ true
    → j ≢ i
    → erase b (L j) ≡ L j
erase_all {h} {L} i j b l hi hj e n = erase-same b (L j) (ground (arith, l.apart i j b hi hj e, n))

pub erase_one :
    {h : Heap} {L : ℕ → List ℕ} (i b : ℕ)
    → Lists h L
    → i < num_buckets
    → elem b (L i) ≡ true
    → (blocks : ℕ → Block) → (buckets : ℕ → ℕ)
    → ((j : ℕ) → j < num_buckets → j ≢ i → Chain blocks (buckets j) (L j))
    → Chain blocks (buckets i) (erase b (L i))
    → Lists (record h { blocks = blocks; buckets = buckets }) (λ j. erase b (L j))
erase_one {h} {L} i b l hi e blocks buckets other here = record {
  chain = λ j hj. elim (ℕ_discrete j i) [
    | yes q ↦ rw q here
    | no q ↦ rw (erase_all i j b l hi hj e q) (other j hj q)
  ];
  apart = λ j k x hj hk p q. l.apart j k x hj hk (elem-erase b x (L j) p) (elem-erase b x (L k) q);
}

pub erase_none :
    {h : Heap} {L : ℕ → List ℕ} (b : ℕ) → Lists h L → Absent L b → Lists h (λ j. erase b (L j))
erase_none {h} {L} b l out = record {
  chain = λ j hj. rw (erase-same b (L j) (out j hj)) (l.chain j hj);
  apart = λ j k x hj hk p q. l.apart j k x hj hk (elem-erase b x (L j) p) (elem-erase b x (L k) q);
}

-- The first block of a bucket is taken off it.
pub erase_first :
    {h : Heap} {L : ℕ → List ℕ} (i b : ℕ)
    → Lists h L
    → i < num_buckets
    → b ≢ 0
    → h.buckets i ≡ b
    → Lists (record h { buckets = update h.buckets i (h.blocks b).req }) (λ j. erase b (L j))
erase_first {h} {L} i b l hi n q =
    let at_b = subst (λ a. Chain h.blocks a (L i)) q (l.chain i hi) in
    erase_one i b l hi (Chain-elem h.blocks b (L i) n at_b) h.blocks _
      (λ j hj ne. rw (at_there h.buckets i j (h.blocks b).req ne) (l.chain j hj))
      (rw (at_here h.buckets i i (h.blocks b).req refl) (Chain-first h.blocks b (L i) n at_b))

pub remove_from-first :
    (fuel k i b : ℕ) (h : Heap)
    → h.buckets i ≡ b
    → remove_from fuel (suc k) i b h ≡ record h { buckets = update h.buckets i (h.blocks b).req }
unfolding remove_from
remove_from-first fuel k i b h e = ground (arith, e)

pub remove_from-link :
    (fuel k i b : ℕ) (h : Heap)
    → h.buckets i ≢ b
    → link_to fuel (h.buckets i) b h ≢ 0
    → remove_from fuel (suc k) i b h
      ≡ bfree_set_next (link_to fuel (h.buckets i) b h) (h.blocks b).req h
unfolding remove_from
remove_from-link fuel k i b h n m = ground (arith, n, m)

pub remove_from-next :
    (fuel k i b : ℕ) (h : Heap)
    → h.buckets i ≢ b
    → link_to fuel (h.buckets i) b h ≡ 0
    → remove_from fuel (suc k) i b h ≡ remove_from fuel k (i + 1) b h
unfolding remove_from
remove_from-next fuel k i b h n e = ground (arith, n, e)

remove_from-Lists :
    {h : Heap} {L : ℕ → List ℕ} (fuel k i b : ℕ)
    → Lists h L
    → b ≢ 0
    → ((j : ℕ) → j < num_buckets → length (L j) ≤ fuel)
    → i + k ≡ num_buckets
    → ((j : ℕ) → j < i → elem b (L j) ≡ false)
    → Lists (remove_from fuel k i b h) (λ j. erase b (L j))
remove_from-Lists fuel zero i b l n short e out =
    unfold remove_from in erase_none b l (λ j hj. out j (omega arith))
remove_from-Lists {h} {L} fuel (suc k) i b l n short e out =
    let hi : i < num_buckets = omega arith in
    let at = l.chain i hi in
    elim (ℕ_discrete (h.buckets i) b) [
      | yes q ↦ rw (remove_from-first fuel k i b h q) (erase_first i b l hi n q)
      | no q ↦ elim (Bool-cases (elem b (L i))) [
        | inl inside ↦
            let (tn, te, tc) =
              link_to-Bypass fuel (h.buckets i) b h (L i) (short i hi) q at inside in
            rw (remove_from-link fuel k i b h q tn) (
              erase_one i b l hi inside _ h.buckets
                (λ j hj ne.
                  Chain-write h.blocks _ _ (h.buckets j) (L j)
                    (ground (arith, l.apart i j _ hi hj te, ne)) (l.chain j hj))
                tc)
        | inr outside ↦
            rw
              (remove_from-next fuel k i b h q
                (link_to-absent fuel (h.buckets i) b h (L i) n at outside))
              (remove_from-Lists fuel k (i + 1) b l n short (omega arith) (λ j lt.
                elim (ℕ_discrete j i) [ yes r ↦ rw r outside | no r ↦ out j (omega arith) ]))
      ]
    ]

-- When the bucket lists are `L` and the fuel is at least the length of each, removing a block that is not NULL takes it out of the list that it is in,
-- wherever it stands there, and leaves the other lists as they are.
pub bucket_remove-Lists :
    {h : Heap} {L : ℕ → List ℕ} (fuel b : ℕ)
    → Lists h L
    → b ≢ 0
    → ((j : ℕ) → j < num_buckets → length (L j) ≤ fuel)
    → Lists (bucket_remove fuel b h) (λ j. erase b (L j)) × Absent (λ j. erase b (L j)) b
unfolding bucket_remove
bucket_remove-Lists {h} {L} fuel b l n short = (
  remove_from-Lists fuel num_buckets 0 b l n short refl (λ j lt. absurd (omega arith)),
  λ j hj. elem-erased h.blocks (h.buckets j) b (L j) (l.chain j hj),
)
