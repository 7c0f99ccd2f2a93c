-- ===== src/Mm/Heap/Kmalloc.antt =====
-- kmalloc of kernel/mm/heap.c: the block that it hands out, and the free blocks that stay.
use yart_os.Prelude.{ℕ, ◌+◌, ◌*◌, ◌/◌, ◌<◌, ◌≡◌, ◌≢◌, arith, List, some, u64_mod, subst}
use yart_os.Mm.Heap.{Heap}
use yart_os.Mm.Heap.Alloc.{hand_out, alloc_from_class, obtain_block, kmalloc, round16}
use yart_os.Mm.Heap.Found.{Held, Found}
use yart_os.Mm.Heap.Serve.{alloc_from_class-Found}
use yart_os.Mm.Heap.Space.{FreeSpace, Clear, InUse}
use yart_os.Mm.Heap.Hand.{Handed, hand_out-Handed}

-- the block that a search of the free lists found
Found-Handed :
    {h h1 : Heap} {L : ℕ → List ℕ} (want b : ℕ)
    → FreeSpace h L
    → (found : Found h L want b h1) → b ≢ 0
    → Handed h1 found.lists b want (hand_out b want h1).0 (hand_out b want h1).1
Found-Handed {h} {h1} {L} want b s found n =
    let held = found.was_free n in
    let other : (x : ℕ) → Held found.lists x → x ≢ b =
      λ x (i, hi, e) q. absurd (ground (arith, found.taken i hi, e, q)) in
    let before : (x : ℕ) → Held found.lists x → Held L x = λ x p. (found.kept x (other x p)).0 p in
    let same = found.same in
    let s1 : FreeSpace h1 found.lists = record {
      lists = found.holds;
      apart = λ x y p q ne.
          omega (arith, s.apart x y (before x p) (before y q) ne, (same x).1, (same y).1);
      marked = λ x p. ground (arith, s.marked x (before x p), same x);
      bounded = λ x p. omega (arith, s.bounded x (before x p), (same x).1);
      next_out = λ x p. omega (arith, s.next_out x (before x p), (same x).1, (same x).3);
    } in
    hand_out-Handed b want s1
      (λ x p. omega (arith, s.apart x b (before x p) held (other x p), (same x).1, (same b).1))
      (omega (arith, s.bounded b held, (same b).1))
      (omega (arith, s.next_out b held, (same b).1, (same b).3))
      (omega (arith, found.enough n, (same b).1))

-- What kmalloc promises of a request of `n` bytes that a free block could serve: in `h'` the payload `p` belongs to a block
-- in use that was free, with room for the request rounded up to 16, and clear of the blocks that are free then, which are clear of each other.
pub record Served (h : Heap) (L : ℕ → List ℕ) (n p : ℕ) (h' : Heap) : Type 0 where
  pub block : ℕ
  pub lists : ℕ → List ℕ
  pub was_free : Held L block
  pub space : FreeSpace h' lists
  pub in_use : InUse block ((n + 15) / 16 * 16) p h'
  pub clear : Clear h' lists block
  pub kept : (x : ℕ) → Held L x → x ≢ block → Held lists x

kmalloc-found :
    (fuel n : ℕ) (h : Heap)
    → n ≢ 0
    → (alloc_from_class fuel (round16 n) h).0 ≢ 0
    → let (b, h1) = alloc_from_class fuel (round16 n) h in
      kmalloc fuel n h ≡ some (hand_out b (round16 n) h1)
unfolding kmalloc obtain_block
kmalloc-found fuel n h m k = ground (arith, m, k)

round16-eq : (n : ℕ) → n + 15 < u64_mod → round16 n ≡ (n + 15) / 16 * 16
round16-eq n lt = omega (arith, lt)

-- When the free blocks are clear of each other and the search of the free lists finds a block, kmalloc of a positive number of bytes below 2^64 - 15 returns the payload of a block that was free, with room for the request rounded up to 16
-- and the canary behind it; the free blocks are then clear of that block and of each other, and no other free block is lost.
pub kmalloc-Served :
    {h : Heap} {L : ℕ → List ℕ} (fuel n : ℕ)
    → FreeSpace h L
    → n ≢ 0
    → n + 15 < u64_mod
    → (alloc_from_class fuel (round16 n) h).0 ≢ 0
    → (p : ℕ) × (h' : Heap) × (kmalloc fuel n h ≡ some (p, h')) × Served h L n p h'
kmalloc-Served {h} {L} fuel n s m lt k =
    let (b, h1) = alloc_from_class fuel (round16 n) h in
    let found = alloc_from_class-Found fuel (round16 n) s.lists in
    let handed = Found-Handed (round16 n) _ s found k in
    (
      _,
      _,
      kmalloc-found fuel n h m k,
      record {
        block = b;
        lists = handed.lists;
        was_free = found.was_free k;
        space = handed.space;
        in_use =
            subst (λ r. InUse b r (hand_out b (round16 n) h1).0 (hand_out b (round16 n) h1).1)
              (round16-eq n lt) handed.in_use;
        clear = handed.clear;
        kept = λ x p ne. handed.kept x ((found.kept x ne).1 p);
      },
    )
