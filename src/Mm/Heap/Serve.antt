-- ===== src/Mm/Heap/Serve.antt =====
-- alloc_from_class of kernel/mm/heap.c: the block that it finds, and the free lists that it leaves.
use yart_os.Prelude.{
  ℕ, zero, suc, ◌+◌, ◌-◌, ◌≤◌, ◌<◌, ◌≡◌, ◌≢◌, ◌↔◌, refl, ◌∙◌, true, List, ◌∷◌, update, arith, subst,
}
use yart_os.Mm.Heap.{
  Heap, Block, bucket_push, bucket_pop, class_for, num_buckets, num_classes, huge_class,
}
use yart_os.Mm.Heap.Alloc.{class_pass, huge_scan, alloc_from_class}
use yart_os.Mm.Heap.Chain.{elem, erase, elem-erase, elem-erased, Chain-elem}
use yart_os.Mm.Heap.Lists.{Lists, Absent, erase_first, bucket_push-Lists}
use yart_os.Mm.Heap.Found.{
  Found, SameHeaders, nothing-Found, erase-Found, elem-erase_other, Held, class_for-le,
  Chain-nonzero,
}
use yart_os.Mm.Heap.Scan.{huge_scan-Found, same_all, same_link}
use native.Mathlib.Decide.{ℕ_discrete, dec_le}

pass-empty :
    (k i n : ℕ) (h : Heap) → h.buckets i ≡ 0 → class_pass (suc k) i n h ≡ class_pass k (i + 1) n h
unfolding class_pass
pass-empty k i n h e = ground (arith, e)

abbrev popped : ℕ → Heap → Heap
popped i h = record h { buckets = update h.buckets i (h.blocks (h.buckets i)).req }

pass-fits :
    (k i n : ℕ) (h : Heap)
    → h.buckets i ≢ 0
    → n ≤ (h.blocks (h.buckets i)).size
    → class_pass (suc k) i n h ≡ (h.buckets i, popped i h)
unfolding class_pass bucket_pop
pass-fits k i n h m le = ground (arith, m, le)

pass-small :
    (k i n : ℕ) (h : Heap)
    → h.buckets i ≢ 0
    → (h.blocks (h.buckets i)).size < n
    → class_pass (suc k) i n h
      ≡ class_pass k
          (i + 1)
          n
          (bucket_push (h.buckets i) (class_for (h.blocks (h.buckets i)).size) (popped i h))
unfolding class_pass bucket_pop
pass-small k i n h m lt = ground (arith, m, lt)

pub SameHeaders-trans : (f g k : ℕ → Block) → SameHeaders f g → SameHeaders g k → SameHeaders f k
SameHeaders-trans f g k p q x =
    let (a, b, c, d, e) = p x in
    let (a', b', c', d', e') = q x in (a' ∙ a, b' ∙ b, c' ∙ c, d' ∙ d, e' ∙ e)

-- The lists with `b` moved from wherever it is to the front of the list `ci`.
abbrev moved : (ci b : ℕ) (L : ℕ → List ℕ) → ℕ → List ℕ
moved ci b L = update (λ j. erase b (L j)) ci (b ∷ erase b (L ci))

elem-moved :
    (ci b j x : ℕ) (L : ℕ → List ℕ)
    → x ≢ b
    → (elem x (moved ci b L j) ≡ true) ↔ (elem x (L j) ≡ true)
elem-moved ci b j x L n = elim (ℕ_discrete j ci) [
  | yes r ↦ (
    (λ e. elem-erase b x (L j) (ground (arith, r, n, e))),
    λ e. ground (arith, r, n, elem-erase_other b x (L j) n e),
  )
  | no r ↦ (
    (λ e. elem-erase b x (L j) (ground (arith, r, n, e))),
    λ e. ground (arith, r, n, elem-erase_other b x (L j) n e),
  )
]

moved-front : (ci b : ℕ) (L : ℕ → List ℕ) → elem b (moved ci b L ci) ≡ true
moved-front ci b L = ground arith

moved-Held :
    (ci b x : ℕ) (L : ℕ → List ℕ) → ci < num_buckets → Held L b → Held (moved ci b L) x ↔ Held L x
moved-Held ci b x L hc held = elim (ℕ_discrete x b) [
  | yes q ↦ ((λ a. rw q held), λ a. rw q (ci, hc, moved-front ci b L))
  | no q ↦ (
    (λ (j, hj, e). (j, hj, (elem-moved ci b j x L q).0 e)),
    λ (j, hj, e). (j, hj, (elem-moved ci b j x L q).1 e),
  )
]

-- What was taken when the lists held the same blocks was taken before.
Found-before :
    {h h1 h' : Heap} {L L1 : ℕ → List ℕ} (n r : ℕ)
    → ((x : ℕ) → Held L1 x ↔ Held L x)
    → SameHeaders h.blocks h1.blocks
    → Found h1 L1 n r h'
    → Found h L n r h'
Found-before {h} {h1} {h'} {L} {L1} n r both same found = record {
  lists = found.lists;
  holds = found.holds;
  taken = found.taken;
  kept =
      λ x ne. ((λ a. (both x).0 ((found.kept x ne).0 a)), λ a. (found.kept x ne).1 ((both x).1 a));
  enough = λ ne. omega (arith, found.enough ne, (same r).1);
  was_free = λ ne. (both r).0 (found.was_free ne);
  same = SameHeaders-trans h.blocks h1.blocks h'.blocks same found.same;
}

pub push-SameHeaders : (b ci : ℕ) (h : Heap) → SameHeaders h.blocks (bucket_push b ci h).blocks
unfolding bucket_push
push-SameHeaders b ci h = same_link h.blocks b (h.buckets ci)

class_pass-Found :
    (k : ℕ) {h : Heap} {L : ℕ → List ℕ} (i n : ℕ)
    → Lists h L
    → i + k ≤ num_classes
    → let (b, h') = class_pass k i n h in Found h L n b h'
class_pass-Found zero {h} {L} i n l le = unfold class_pass in nothing-Found n l
class_pass-Found (suc k) {h} {L} i n l le =
    let b = h.buckets i in
    let hi : i < num_buckets = omega arith in
    elim (ℕ_discrete b 0) [
      | yes q ↦ rw (pass-empty k i n h q) (class_pass-Found k (i + 1) n l (omega arith))
      | no q ↦
          let l1 = erase_first i b l hi q refl in
          let inside = Chain-elem h.blocks b (L i) q (l.chain i hi) in
          elim (dec_le n (h.blocks b).size) [
            | yes fits ↦
                rw (pass-fits k i n h q fits)
                  (erase-Found n i b l l1 hi inside fits (same_all h.blocks))
            | no small ↦
                let ci = class_for (h.blocks b).size in
                let hc = class_for-le (h.blocks b).size in
                let gone : Absent (λ j. erase b (L j)) b =
                  λ j hj. elem-erased h.blocks (h.buckets j) b (L j) (l.chain j hj) in
                let l2 = bucket_push-Lists b ci l1 q gone in
                rw (pass-small k i n h q (omega arith)) (
                  Found-before n _ (λ x. moved-Held ci b x L hc (i, hi, inside))
                    (push-SameHeaders b ci (popped i h))
                    (class_pass-Found k (i + 1) n l2 (omega arith)))
          ]
    ]

null-Held : {h : Heap} {L : ℕ → List ℕ} → Lists h L → ¬ Held L 0
null-Held {h} {L} l (i, hi, e) =
    absurd (ground (arith, Chain-nonzero h.blocks (h.buckets i) (L i) (l.chain i hi), e))

-- The second search goes on from the lists that the first left.
Found-after :
    {h h1 h' : Heap} {L : ℕ → List ℕ} (n r : ℕ)
    → Lists h L
    → (first : Found h L n 0 h1) → Found h1 first.lists n r h'
    → Found h L n r h'
Found-after {h} {h1} {h'} {L} n r l first second =
    Found-before n r
      (λ x. elim (ℕ_discrete x 0) [
        | yes q ↦ (
          (λ a. absurd (null-Held first.holds (subst (Held first.lists) q a))),
          λ a. absurd (null-Held l (subst (Held L) q a)),
        )
        | no q ↦ first.kept x q
      ])
      first.same second

first_search : (n : ℕ) (h : Heap) → ℕ × Heap
first_search n h = class_pass (num_classes - class_for n) (class_for n) n h

search-first :
    (fuel n : ℕ) (h : Heap)
    → (first_search n h).0 ≢ 0
    → alloc_from_class fuel n h ≡ first_search n h
unfolding alloc_from_class first_search
search-first fuel n h m = ground (arith, m)

search-huge :
    (fuel n : ℕ) (h : Heap)
    → (first_search n h).0 ≡ 0
    → let (b, h1) = first_search n h in
      alloc_from_class fuel n h ≡ huge_scan fuel (h1.buckets huge_class) 0 n h1
unfolding alloc_from_class first_search
search-huge fuel n h e = ground (arith, e)

-- When the bucket lists are `L`, alloc_from_class returns NULL or a block of at least `n` bytes that was in one of them; that block is then in none,
-- every other block is in some list exactly when it was before, and the headers are as before but for the links.
pub alloc_from_class-Found :
    {h : Heap} {L : ℕ → List ℕ} (fuel n : ℕ)
    → Lists h L
    → let (b, h') = alloc_from_class fuel n h in Found h L n b h'
alloc_from_class-Found {h} {L} fuel n l =
    let r = first_search n h in
    let first : Found h L n r.0 r.1 =
      unfold first_search in
      class_pass-Found (num_classes - class_for n) (class_for n) n l
        (omega (arith, class_for-le n)) in
    elim (ℕ_discrete r.0 0) [
      | yes q ↦
          let none_yet : Found h L n 0 r.1 = subst (λ b. Found h L n b r.1) q first in
          rw (search-huge fuel n h q)
            (Found-after n _ l none_yet (huge_scan-Found fuel n none_yet.holds))
      | no q ↦ rw (search-first fuel n h q) first
    ]
