-- ===== src/Mm/Heap/Found.antt =====
-- alloc_from_class of kernel/mm/heap.c: the block that it finds, and the free lists that it leaves.
use yart_os.Prelude.{
  ℕ, ◌+◌, ◌≤◌, ◌<◌, ◌≡◌, ◌≢◌, ◌↔◌, refl, true, false, List, [], ◌∷◌, arith, length,
}
use yart_os.Mm.Heap.{Heap, Block, class_from, class_for, classes, num_buckets}
use yart_os.Mm.Heap.Chain.{elem, erase, Chain, elem-erase, elem-erased}
use yart_os.Mm.Heap.Lists.{Lists, Absent}

pub class_from-le : (cs : List ℕ) (i n : ℕ) → i + length cs ≤ 20 → class_from cs i n ≤ 20
unfolding class_from
class_from-le [] i n h = omega arith
class_from-le (c ∷ cs) i n h = ground (arith, class_from-le cs (i + 1) n)

pub class_for-le : (n : ℕ) → class_for n < num_buckets
unfolding class_for
class_for-le n = omega (arith, class_from-le classes 0 n (omega arith))

-- The headers of `f` and `g` differ in their links only.
abbrev pub SameHeaders : (ℕ → Block) → (ℕ → Block) → Type 0
SameHeaders f g =
    (x : ℕ)
    → ((g x).magic ≡ (f x).magic)
      × ((g x).size ≡ (f x).size)
      × ((g x).free ≡ (f x).free)
      × ((g x).next ≡ (f x).next)
      × ((g x).prev ≡ (f x).prev)

-- some bucket has `x`
abbrev pub Held : (ℕ → List ℕ) → ℕ → Type 0
Held L x = (i : ℕ) × (i < num_buckets) × (elem x (L i) ≡ true)

-- From the free lists `L` of `h`, the block `b` of at least `n` bytes was taken, or none when it is 0; `h'` has the other blocks in
-- its free lists, and no header changed but for its link.
pub record Found (h : Heap) (L : ℕ → List ℕ) (n b : ℕ) (h' : Heap) : Type 0 where
  pub lists : ℕ → List ℕ
  pub holds : Lists h' lists
  pub taken : Absent lists b
  pub kept : (x : ℕ) → x ≢ b → Held lists x ↔ Held L x
  pub enough : b ≢ 0 → n ≤ (h.blocks b).size
  pub was_free : b ≢ 0 → Held L b
  pub same : SameHeaders h.blocks h'.blocks

pub Chain-nonzero : (f : ℕ → Block) (a : ℕ) (xs : List ℕ) → Chain f a xs → elem 0 xs ≡ false
Chain-nonzero f a [] c = refl
Chain-nonzero f a (x ∷ xs) (i, m, d, c) = ground (arith, Chain-nonzero f (f x).req xs c)

pub nothing-Found : {h : Heap} {L : ℕ → List ℕ} (n : ℕ) → Lists h L → Found h L n 0 h
nothing-Found {h} {L} n l = record {
  lists = L;
  holds = l;
  taken = λ i hi. Chain-nonzero h.blocks (h.buckets i) (L i) (l.chain i hi);
  kept = λ x ne. ((λ a. a), (λ a. a));
  enough = λ ne. absurd (ne refl);
  was_free = λ ne. absurd (ne refl);
  same = λ x. (refl, refl, refl, refl, refl);
}

pub elem-erase_other :
    (b x : ℕ) (xs : List ℕ) → x ≢ b → elem x xs ≡ true → elem x (erase b xs) ≡ true
elem-erase_other b x [] n e = e
elem-erase_other b x (y ∷ ys) n e = ground (arith, elem-erase_other b x ys, n)

-- Taking out one block of the lists.
pub erase-Found :
    {h h' : Heap} {L : ℕ → List ℕ} (n i b : ℕ)
    → Lists h L
    → Lists h' (λ j. erase b (L j))
    → i < num_buckets
    → elem b (L i) ≡ true
    → n ≤ (h.blocks b).size
    → SameHeaders h.blocks h'.blocks
    → Found h L n b h'
erase-Found {h} {h'} {L} n i b l l' hi inside le same = record {
  lists = λ j. erase b (L j);
  holds = l';
  taken = λ j hj. elem-erased h.blocks (h.buckets j) b (L j) (l.chain j hj);
  kept = λ x ne. (
    (λ (j, hj, e). (j, hj, elem-erase b x (L j) e)),
    λ (j, hj, e). (j, hj, elem-erase_other b x (L j) ne e),
  );
  enough = λ ne. le;
  was_free = λ ne. (i, hi, inside);
  same = same;
}
