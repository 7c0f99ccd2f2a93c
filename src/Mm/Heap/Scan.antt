-- ===== src/Mm/Heap/Scan.antt =====
-- The two searches of alloc_from_class in kernel/mm/heap.c, and what they leave in the free lists.
use yart_os.Prelude.{
  ℕ, zero, suc, ◌≤◌, ◌<◌, ◌≡◌, ◌≢◌, refl, sym, ◌∙◌, true, List, [], ◌∷◌, update, arith, subst,
}
use yart_os.Mm.Heap.{Heap, Block, bfree_set_next, num_buckets, huge_class}
use yart_os.Mm.Heap.Alloc.{huge_scan}
use yart_os.Mm.Heap.Chain.{elem, erase, Chain, Bypass, Bypass-here, Bypass-later, Chain-write}
use yart_os.Mm.Heap.Lists.{Lists, erase_one, erase_first}
use yart_os.Mm.Heap.Found.{Found, SameHeaders, nothing-Found, erase-Found}
use native.Mathlib.Decide.{ℕ_discrete, dec_le}

scan-null : (k pr n : ℕ) (h : Heap) → huge_scan k 0 pr n h ≡ (0, h)
unfolding huge_scan
scan-null zero pr n h = refl
scan-null (suc k) pr n h = refl

scan-small :
    (k a pr n : ℕ) (h : Heap)
    → a ≢ 0
    → (h.blocks a).size < n
    → huge_scan (suc k) a pr n h ≡ huge_scan k (h.blocks a).req a n h
unfolding huge_scan
scan-small k a pr n h m lt = ground (arith, m, lt)

scan-fits :
    (k a pr n : ℕ) (h : Heap)
    → a ≢ 0
    → pr ≢ 0
    → n ≤ (h.blocks a).size
    → huge_scan (suc k) a pr n h ≡ (a, bfree_set_next pr (h.blocks a).req h)
unfolding huge_scan
scan-fits k a pr n h m p le = ground (arith, m, p, le)

scan-first :
    (k a n : ℕ) (h : Heap)
    → a ≢ 0
    → n ≤ (h.blocks a).size
    → huge_scan (suc k) a 0 n h
      ≡ (a, record h { buckets = update h.buckets huge_class (h.blocks a).req })
unfolding huge_scan
scan-first k a n h m le = ground (arith, m, le)

-- What the scan behind `pr` comes to: nothing, or the block `b`, which is unlinked.
data After (h : Heap) (n pr : ℕ) (xs : List ℕ) : ℕ × Heap → Type 0 where
  missed : After h n pr xs (0, h)
  unlinked :
      (b t : ℕ)
      → b ≢ 0
      → n ≤ (h.blocks b).size
      → elem b xs ≡ true
      → Bypass h.blocks pr b t (pr ∷ xs)
      → After h n pr xs (b, bfree_set_next t (h.blocks b).req h)

huge_scan-After :
    (k a pr n : ℕ) (h : Heap) (xs : List ℕ)
    → Chain h.blocks pr (pr ∷ xs)
    → (h.blocks pr).req ≡ a
    → After h n pr xs (huge_scan k a pr n h)
huge_scan-After zero a pr n h xs c q = unfold huge_scan in missed
huge_scan-After (suc k) a pr n h [] (i, m, d, c) q = rw (sym q ∙ c, scan-null (suc k) pr n h) missed
huge_scan-After (suc k) a pr n h (x ∷ ys) (i, m, d, (j, o, p, c)) q =
    let ax : a ≡ x = sym q ∙ j in
    let px : pr ≢ x = λ r. absurd (ground (arith, r)) in
    elim (dec_le n (h.blocks x).size) [
      | yes le ↦
          rw (ax, scan-fits k x pr n h o m le)
            (unlinked x pr o le (ground arith)
              (Bypass-here h.blocks x pr (x ∷ ys) (i, m, d, (j, o, p, c)) j px (ground arith)))
      | no big ↦
          rw (ax, scan-small k x pr n h o (omega arith))
            (further (huge_scan-After k (h.blocks x).req x n h ys (refl, o, p, c) refl))
    ]
  where
    further : {r : ℕ × Heap} → After h n x ys r → After h n pr (x ∷ ys) r
    further missed = missed
    further (unlinked b t n0 le inside by) = unlinked b t n0 le (ground arith) (
        Bypass-later h.blocks pr b pr t (x ∷ ys) (i, m, d, (j, o, p, c))
          (λ r. absurd (ground (arith, r)))
          (subst (λ z. Bypass h.blocks z b t (x ∷ ys)) (sym j) by))

pub same_link : (f : ℕ → Block) (t r : ℕ) → SameHeaders f (update f t (record (f t) { req = r }))
same_link f t r x = elim (ℕ_discrete x t) [ yes q ↦ ground (arith, q) | no q ↦ ground (arith, q) ]

pub same_all : (f : ℕ → Block) → SameHeaders f f
same_all f x = (refl, refl, refl, refl, refl)

-- The unlinked block is out of the list of huge blocks, which starts with `pr`.
After-Found :
    {h : Heap} {L : ℕ → List ℕ} (n pr : ℕ) (xs : List ℕ)
    → Lists h L
    → h.buckets huge_class ≡ pr
    → L huge_class ≡ pr ∷ xs
    → (r : ℕ × Heap) → After h n pr xs r
    → Found h L n r.0 r.1
After-Found {h} {L} n pr xs l p q _ missed = nothing-Found n l
After-Found {h} {L} n pr xs l p q _ (unlinked b t n0 le inside (tn, te, tc)) =
    let hi : huge_class < num_buckets = omega arith in
    let in_huge : elem b (L huge_class) ≡ true = rw q (ground arith) in
    let t_huge : elem t (L huge_class) ≡ true = rw q te in
    let new = update h.blocks t (record (h.blocks t) { req = (h.blocks b).req }) in
    let here : Chain new (h.buckets huge_class) (erase b (L huge_class)) = rw (p, q) tc in
    let l' =
      erase_one huge_class b l hi in_huge new h.buckets
        (λ j hj ne.
          Chain-write h.blocks t _ (h.buckets j) (L j)
            (ground (arith, l.apart huge_class j t hi hj t_huge, ne)) (l.chain j hj))
        here in
    erase-Found n huge_class b l l' hi in_huge le (same_link h.blocks t (h.blocks b).req)

pub huge_scan-Found :
    {h : Heap} {L : ℕ → List ℕ} (fuel n : ℕ)
    → Lists h L
    → let (b, h') = huge_scan fuel (h.buckets huge_class) 0 n h in Found h L n b h'
huge_scan-Found {h} {L} zero n l = unfold huge_scan in nothing-Found n l
huge_scan-Found {h} {L} (suc k) n l = go (L huge_class) refl (l.chain huge_class (omega arith))
  where
    go :
        (xs : List ℕ)
        → L huge_class ≡ xs
        → Chain h.blocks (h.buckets huge_class) xs
        → let (b, h') = huge_scan (suc k) (h.buckets huge_class) 0 n h in Found h L n b h'
    go [] q c = rw (c, scan-null (suc k) 0 n h) (nothing-Found n l)
    go (x ∷ xs) q (i, m, d, c) =
        let hi : huge_class < num_buckets = omega arith in
        elim (dec_le n (h.blocks x).size) [
          | yes le ↦
              rw (i, scan-first k x n h m le)
                (erase-Found n huge_class x l (erase_first huge_class x l hi m i) hi
                  (rw q (ground arith)) le (same_all h.blocks))
          | no big ↦
              rw (i, scan-small k x 0 n h m (omega arith))
                (After-Found n x xs l i q _ (huge_scan-After k _ x n h xs (refl, m, d, c) refl))
        ]
