-- ===== src/Mm/Heap/Space.antt =====
-- The space of the free blocks of kernel/mm/heap.c, an invariant of its allocation.
use yart_os.Prelude.{
  ℕ, ◌+◌, ◌≤◌, ◌<◌, ◌≡◌, ◌≢◌, ◌⊎◌, inl, inr, refl, sym, true, false, update, arith, u64_mod, ap,
  ◌∙◌, Bool-cases, List, ◌∷◌,
}
use yart_os.Mm.Heap.{Heap, heap_magic, heap_canary, bucket_push, num_buckets}
use yart_os.Mm.Heap.Alloc.{mark_used}
use yart_os.Mm.Heap.Chain.{elem, Chain-same}
use yart_os.Mm.Heap.Lists.{Lists, Absent, bucket_push-Lists}
use yart_os.Mm.Heap.Found.{Held}
use yart_os.Mm.Heap.Serve.{push-SameHeaders}
use yart_os.Mm.Heap.Split.{SameBody, end_of}
use native.Mathlib.Decide.{ℕ_discrete}

-- The blocks that the bucket lists `L` hold do not overlap; each has the magic number and the mark of a free block, ends more than 32 bytes
-- below 2^64, and its successor in the list of all blocks does not start inside it.
pub record FreeSpace (h : Heap) (L : ℕ → List ℕ) : Type 0 where
  pub lists : Lists h L
  pub apart :
      (x y : ℕ) → Held L x → Held L y → x ≢ y → (end_of h.blocks x ≤ y) ⊎ (end_of h.blocks y ≤ x)
  pub marked : (x : ℕ) → Held L x → ((h.blocks x).magic ≡ heap_magic) × ((h.blocks x).free ≡ true)
  pub bounded : (x : ℕ) → Held L x → end_of h.blocks x + 32 < u64_mod
  pub next_out :
      (x : ℕ) → Held L x → ((h.blocks x).next ≤ x) ⊎ (end_of h.blocks x ≤ (h.blocks x).next)

pub FreeSpace-same :
    {h h1 : Heap} {L : ℕ → List ℕ}
    → FreeSpace h L
    → h1.buckets ≡ h.buckets
    → ((x : ℕ) → Held L x → SameBody h.blocks h1.blocks x)
    → FreeSpace h1 L
FreeSpace-same {h} {h1} {L} s e same = record {
  lists = record {
    chain = λ i hi. rw e (
        Chain-same h.blocks h1.blocks (h.buckets i) (L i) (s.lists.chain i hi)
          (λ x m. (same x (i, hi, m)).2));
    apart = s.lists.apart;
  };
  apart = λ x y p q n. omega (arith, s.apart x y p q n, (same x p).1, (same y q).1);
  marked = λ x p. ground (arith, s.marked x p, same x p);
  bounded = λ x p. omega (arith, s.bounded x p, (same x p).1);
  next_out = λ x p. omega (arith, s.next_out x p, (same x p).1, (same x p).4);
}

-- `b` is clear of the free blocks.
abbrev pub Clear : Heap → (ℕ → List ℕ) → ℕ → Type 0
Clear h L b = (x : ℕ) → Held L x → (end_of h.blocks x ≤ b) ⊎ (end_of h.blocks b ≤ x)

pub Clear-Held : (h : Heap) (L : ℕ → List ℕ) (b x : ℕ) → Clear h L b → Held L x → x ≢ b
Clear-Held h L b x c p q = absurd (omega (arith, c x p, q))

pub Held-push : (L : ℕ → List ℕ) (b ci x : ℕ) → Held (update L ci (b ∷ L ci)) x → (x ≡ b) ⊎ Held L x
Held-push L b ci x (i, hi, e) = elim (ℕ_discrete x b) [
  | yes q ↦ inl q
  | no q ↦ inr (i, hi, ground (arith, q))
]

pub push-FreeSpace :
    {h : Heap} {L : ℕ → List ℕ} (b ci : ℕ)
    → FreeSpace h L
    → ci < num_buckets
    → b ≢ 0
    → Clear h L b
    → (h.blocks b).magic ≡ heap_magic
    → (h.blocks b).free ≡ true
    → end_of h.blocks b + 32 < u64_mod
    → ((h.blocks b).next ≤ b) ⊎ (end_of h.blocks b ≤ (h.blocks b).next)
    → FreeSpace (bucket_push b ci h) (update L ci (b ∷ L ci))
push-FreeSpace {h} {L} b ci s hc n clear m f lt nx =
    let out : Absent L b = λ i hi. elim (Bool-cases (elem b (L i))) [
      | inl e ↦ absurd (Clear-Held h L b b clear (i, hi, e) refl)
      | inr e ↦ e
    ] in
    let h1 = bucket_push b ci h in
    let same = push-SameHeaders b ci h in
    record {
      lists = bucket_push-Lists b ci s.lists n out;
      apart = λ x y p q ne. elim (Held-push L b ci x p) [
        | inl xb ↦ elim (Held-push L b ci y q) [
          | inl yb ↦ absurd (ne (xb ∙ sym yb))
          | inr q' ↦
              omega (arith, clear y q', xb, (same x).1, (same y).1, ap (λ z. (h.blocks z).size) xb)
        ]
        | inr p' ↦ elim (Held-push L b ci y q) [
          | inl yb ↦
              omega (arith, clear x p', yb, (same x).1, (same y).1, ap (λ z. (h.blocks z).size) yb)
          | inr q' ↦ omega (arith, s.apart x y p' q' ne, (same x).1, (same y).1)
        ]
      ];
      marked = λ x p. elim (Held-push L b ci x p) [
        | inl xb ↦ ground (arith, m, f, same b, xb)
        | inr p' ↦ ground (arith, s.marked x p', same x)
      ];
      bounded = λ x p. elim (Held-push L b ci x p) [
        | inl xb ↦ rw xb (omega (arith, lt, (same b).1))
        | inr p' ↦ omega (arith, s.bounded x p', (same x).1)
      ];
      next_out = λ x p. elim (Held-push L b ci x p) [
        | inl xb ↦ rw xb (omega (arith, nx, (same b).1, (same b).3))
        | inr p' ↦ omega (arith, s.next_out x p', (same x).1, (same x).3)
      ];
    }

pub mark_used-Same : (b n x : ℕ) (h : Heap) → x ≢ b → SameBody h.blocks (mark_used b n h).blocks x
unfolding mark_used
mark_used-Same b n x h m = ground (arith, m)

pub mark_used-FreeSpace :
    {h : Heap} {L : ℕ → List ℕ} (b n : ℕ)
    → FreeSpace h L
    → Clear h L b
    → FreeSpace (mark_used b n h) L
mark_used-FreeSpace {h} {L} b n s clear =
    FreeSpace-same s (unfold mark_used in refl)
      (λ x p. mark_used-Same b n x h (Clear-Held h L b x clear p))

-- The block `b` of `h'` is in use for `want` bytes, and `p` is its payload.
pub record InUse (b want p : ℕ) (h' : Heap) : Type 0 where
  pub placed : p ≡ b + 48
  pub enough : want ≤ (h'.blocks b).size
  pub taken : (h'.blocks b).free ≡ false
  pub req : (h'.blocks b).req ≡ want
  pub canary : h'.words (p + want) ≡ heap_canary

pub mark_used-InUse :
    (b want : ℕ) (h : Heap)
    → end_of h.blocks b < u64_mod
    → want ≤ (h.blocks b).size
    → InUse b want (b + 48) (mark_used b want h)
unfolding mark_used
mark_used-InUse b want h lt le = record {
  placed = refl;
  enough = ground (arith, le);
  taken = ground arith;
  req = ground arith;
  canary = ground (arith, lt, le);
}
