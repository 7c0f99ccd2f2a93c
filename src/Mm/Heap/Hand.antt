-- ===== src/Mm/Heap/Hand.antt =====
-- The end of kmalloc in kernel/mm/heap.c: the block that is cut and handed out.
use yart_os.Prelude.{
  ℕ, ◌+◌, ◌≤◌, ◌<◌, ◌≡◌, ◌≢◌, ◌⊎◌, inl, inr, refl, update, arith, u64_mod, List, ◌∷◌, ap, ◌∙◌,
}
use yart_os.Mm.Heap.{Heap, bucket_push, class_for, payload}
use yart_os.Mm.Heap.Alloc.{split, mark_used, hand_out}
use yart_os.Mm.Heap.Found.{Held, class_for-le}
use yart_os.Mm.Heap.Serve.{push-SameHeaders}
use yart_os.Mm.Heap.Split.{SameBody, end_of, IsCut, split-IsCut}
use yart_os.Mm.Heap.Space.{
  FreeSpace, FreeSpace-same, Clear, Clear-Held, push-FreeSpace, Held-push, mark_used-FreeSpace,
  mark_used-InUse, InUse,
}
use native.Mathlib.Decide.{dec_lt}

-- `p` is the payload of the block `b`, in use for `want` bytes. The free blocks are clear of it and of each other;
-- they are those of `L` and at most one more, from the end of what `b` was.
pub record Handed (h : Heap) (L : ℕ → List ℕ) (b want p : ℕ) (h' : Heap) : Type 0 where
  pub lists : ℕ → List ℕ
  pub space : FreeSpace h' lists
  pub in_use : InUse b want p h'
  pub clear : Clear h' lists b
  pub kept : (x : ℕ) → Held L x → Held lists x
  pub origin :
      (x : ℕ)
      → Held lists x
      → Held L x ⊎ ((b + 64 + want ≤ x) × (end_of h'.blocks x ≤ end_of h.blocks b))

pub split-whole :
    (b want : ℕ) (h : Heap)
    → (h.blocks b).size < want + 96
    → want + 96 < u64_mod
    → split b want h ≡ (0, h)
unfolding split
split-whole b want h small lt = ground (arith, small, lt)

payload-add : (b : ℕ) → b + 48 < u64_mod → payload b ≡ b + 48
payload-add b lt = omega (arith, lt)

pub hand_out-whole :
    (b want : ℕ) (h : Heap)
    → b + 48 < u64_mod
    → split b want h ≡ (0, h)
    → hand_out b want h ≡ (b + 48, mark_used b want h)
unfolding hand_out
hand_out-whole b want h lt e = rw (e, payload-add b lt) refl

hand_out-cut :
    (b want n : ℕ) (h h1 : Heap)
    → b + 48 < u64_mod
    → n ≢ 0
    → split b want h ≡ (n, h1)
    → hand_out b want h
      ≡ (b + 48, mark_used b want (bucket_push n (class_for (h1.blocks n).size) h1))
unfolding hand_out
hand_out-cut b want n h h1 lt m e = rw (e, payload-add b lt) (ground (arith, m))

mark_used-size : (b n x : ℕ) (h : Heap) → ((mark_used b n h).blocks x).size ≡ (h.blocks x).size
unfolding mark_used
mark_used-size b n x h = ground arith

Held-grow : (L : ℕ → List ℕ) (n ci x : ℕ) → Held L x → Held (update L ci (n ∷ L ci)) x
Held-grow L n ci x (i, hi, e) = (i, hi, ground (arith, e))

whole-Handed :
    {h : Heap} {L : ℕ → List ℕ} (b want : ℕ)
    → FreeSpace h L
    → Clear h L b
    → end_of h.blocks b + 32 < u64_mod
    → want ≤ (h.blocks b).size
    → Handed h L b want (b + 48) (mark_used b want h)
unfolding mark_used
whole-Handed {h} {L} b want s clear lt le = record {
  lists = L;
  space = unfold mark_used in mark_used-FreeSpace b want s clear;
  in_use = unfold mark_used in mark_used-InUse b want h (omega arith) le;
  clear = λ x p. ground (arith, clear x p, Clear-Held h L b x clear p);
  kept = λ x p. p;
  origin = λ x p. inl p;
}

cut-Handed :
    {h h1 : Heap} {L : ℕ → List ℕ} (b want n : ℕ)
    → FreeSpace h L
    → Clear h L b
    → end_of h.blocks b + 32 < u64_mod
    → ((h.blocks b).next ≤ b) ⊎ (end_of h.blocks b ≤ (h.blocks b).next)
    → IsCut h b want n h1
    → Handed h L b want
        (b + 48)
        (mark_used b want (bucket_push n (class_for (h1.blocks n).size) h1))
cut-Handed {h} {h1} {L} b want n s clear lt nx cut =
    let ci = class_for (h1.blocks n).size in
    let hc = class_for-le (h1.blocks n).size in
    let other : (x : ℕ) → Held L x → SameBody h.blocks h1.blocks x = λ x p.
      cut.others x (Clear-Held h L b x clear p)
        (omega (arith, clear x p, cut.place, cut.right, cut.room)) in
    let s1 : FreeSpace h1 L = FreeSpace-same s cut.buckets other in
    let clear_n : Clear h1 L n =
      λ x p. omega (arith, clear x p, cut.place, cut.right, (other x p).1) in
    let h2 = bucket_push n ci h1 in
    let L2 = update L ci (n ∷ L ci) in
    let same = push-SameHeaders n ci h1 in
    let s2 : FreeSpace h2 L2 =
      push-FreeSpace n ci s1 hc (omega (arith, cut.place)) clear_n cut.magic cut.marked_free
        (omega (arith, cut.right, lt)) (omega (arith, cut.linked.1, nx, cut.place, cut.right)) in
    let size_b : (h2.blocks b).size ≡ want = (same b).1 ∙ cut.left in
    let after : (x : ℕ) → Held L2 x → b + 64 + want ≤ x ⊎ end_of h2.blocks x ≤ b = λ x p.
      elim (Held-push L n ci x p) [
        | inl e ↦ inl (omega (arith, e, cut.place))
        | inr q ↦ omega (arith, clear x q, (other x q).1, (same x).1, cut.right, cut.place)
      ] in
    let clear_b : Clear h2 L2 b = λ x p. omega (arith, after x p, size_b) in
    record {
      lists = L2;
      space = mark_used-FreeSpace b want s2 clear_b;
      in_use =
          mark_used-InUse b want h2 (omega (arith, size_b, cut.place, cut.right, lt))
            (omega (arith, size_b));
      clear =
          λ x p. omega (arith, clear_b x p, mark_used-size b want x h2, mark_used-size b want b h2);
      kept = λ x p. Held-grow L n ci x p;
      origin = λ x p. elim (Held-push L n ci x p) [
        | inl e ↦ inr (
          omega (arith, e, cut.place),
          omega (
            arith,
            mark_used-size b want x h2,
            (same x).1,
            cut.right,
            ap (λ z. (h1.blocks z).size) e,
            e,
          ),
        )
        | inr q ↦ inl q
      ];
    }

-- When the free blocks are clear of each other and of a block that has room for the request and ends more than 32 bytes below 2^64, handing it out gives its payload, with the canary behind
-- the request; then the free blocks are clear of it and of each other, and they are those from before and at most one more, from the end of the block.
pub hand_out-Handed :
    {h : Heap} {L : ℕ → List ℕ} (b want : ℕ)
    → FreeSpace h L
    → Clear h L b
    → end_of h.blocks b + 32 < u64_mod
    → ((h.blocks b).next ≤ b) ⊎ (end_of h.blocks b ≤ (h.blocks b).next)
    → want ≤ (h.blocks b).size
    → Handed h L b want (hand_out b want h).0 (hand_out b want h).1
hand_out-Handed {h} {L} b want s clear lt nx le = elim (dec_lt (h.blocks b).size (want + 96)) [
  | yes small ↦
      rw (hand_out-whole b want h (omega arith) (split-whole b want h small (omega arith)))
        (whole-Handed b want s clear lt le)
  | no room ↦
      let cut = split-IsCut b want h (omega arith) (omega arith) (omega (arith, nx)) in
      rw (hand_out-cut b want _ h _ (omega arith) (omega (arith, cut.place)) refl)
        (cut-Handed b want _ s clear lt nx cut)
]
