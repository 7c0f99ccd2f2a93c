-- ===== src/Fs/Vfs/File/Grow.antt =====
-- The capacity loop of ensure_cap in kernel/fs/vfs.c: where it ends, and where it never does.
use yart_os.Prelude.{
  ℕ, zero, suc, ◌+◌, ◌-◌, ◌*◌, ◌%◌, ◌^◌, ◌<◌, ◌≤◌, ◌≡◌, refl, Option, none, some, arith, u64_mod,
  sym, ◌∙◌, ap, subst, ◌⊎◌, inl, inr, Option-cases,
}
use native.Mathlib.Decide.{dec_lt}
use yart_os.CString.{memcpy}
use yart_os.Fs.Vfs.File.{
  Node, Outcome, done, failed, grow_loop, grow_rounds, first_cap, with_cap, ensure_cap,
}

-- `c` doubled `r` times
abbrev pub twice : ℕ → ℕ → ℕ
twice zero c = c
twice (suc r) c = twice r (c * 2)

grow_loop-some :
    (r need c : ℕ)
    → need ≤ 2 ^ 63
    → need ≤ twice r c
    → (k : ℕ) × (grow_loop (suc r) need c ≡ some k) × (need ≤ k)
unfolding grow_loop
grow_loop-some zero need c h t = (c, ground arith, t)
grow_loop-some (suc r) need c h t = elim (dec_lt c need) [
  | yes x ↦
      let e : c * 2 % u64_mod ≡ c * 2 = omega arith in
      let (k, q, w) = grow_loop-some r need (c * 2) h t in
      (k, unfold grow_loop in ground (arith, e, q), w)
  | no x ↦ (c, ground arith, omega arith)
]

twice-pos : (c : ℕ) → 0 < c → 2 ^ 63 ≤ twice 64 c
twice-pos c h = omega arith

pub grow_loop-ends :
    (need c : ℕ)
    → need ≤ 2 ^ 63
    → 0 < c
    → (k : ℕ) × (grow_loop grow_rounds need c ≡ some k) × (need ≤ k)
grow_loop-ends need c h p = let t = twice-pos c p in grow_loop-some 64 need c h (omega (arith, t))

-- Once the capacity has wrapped to 0 it stays there.
grow_loop-zero : (r need : ℕ) → 0 < need → grow_loop r need 0 ≡ none
unfolding grow_loop
grow_loop-zero zero need h = refl
grow_loop-zero (suc r) need h = ground (arith, grow_loop-zero r need h)

le-twice : (k c : ℕ) → c ≤ twice k c
le-twice zero c = omega arith
le-twice (suc k) c = let h = le-twice k (c * 2) in omega (arith, h)

-- Where doubling `c` leads to 2 ^ 64, the loop wraps before it reaches a `need` beyond 2 ^ 63.
grow_loop-wraps :
    (r k need c : ℕ) → 2 ^ 63 < need → twice (suc k) c ≡ u64_mod → grow_loop r need c ≡ none
unfolding grow_loop
grow_loop-wraps zero k need c h e = refl
grow_loop-wraps (suc r) zero need c h e =
    let w : c * 2 % u64_mod ≡ 0 = omega (arith, e) in
    ground (arith, w, e, grow_loop-zero r need (omega arith))
grow_loop-wraps (suc r) (suc k) need c h e =
    let l = le-twice k (c * 2 * 2) in
    let w : c * 2 % u64_mod ≡ c * 2 = omega (arith, e, l) in
    let q : c < need = omega (arith, e, l) in
    ground (arith, w, q, grow_loop-wraps r k need (c * 2) h e)

-- The capacity loop of an empty file never ends for a size beyond 2 ^ 63: no number of rounds is
-- enough.
pub grow_loop-hangs :
    (r need : ℕ) (v : Node) → 2 ^ 63 < need → v.cap ≡ 0 → grow_loop r need (first_cap v) ≡ none
grow_loop-hangs r need v h e =
    let w = grow_loop-wraps r 57 need 64 h (omega arith) in
    let q : first_cap v ≡ 64 = ground (arith, e) in subst (λ c. grow_loop r need c ≡ none) (sym q) w

-- The bytes of the file in `u` are those in `v`, and there is room for `need`.
pub record Grown (need : ℕ) (v u : Node) : Type 0 where
  pub kind : u.kind ≡ v.kind
  pub size : u.size ≡ v.size
  pub room : need ≤ u.cap
  pub bigger : v.cap ≤ u.cap
  pub bytes : (i : ℕ) → i < v.size → u.bytes i ≡ v.bytes i
  pub dirty_b0 : u.dirty_b0 ≡ v.dirty_b0
  pub dirty_b1 : u.dirty_b1 ≡ v.dirty_b1

abbrev pub Served : ℕ → Node → Outcome × Node → Type 0
Served need v r = (r.0 ≡ done 0) × Grown need v r.1

with_cap-Grown :
    (need k : ℕ) (v : Node) (fresh : ℕ → ℕ)
    → need ≤ k
    → v.cap ≤ k
    → Grown need v (record v { bytes = memcpy fresh 0 v.bytes 0 v.size; cap = k })
with_cap-Grown need k v fresh h c = record {
  kind = refl;
  size = refl;
  room = h;
  bigger = c;
  bytes = λ i lt. let q : 0 + (i - 0) ≡ i = omega arith in ground (arith, ap v.bytes q);
  dirty_b0 = refl;
  dirty_b1 = refl;
}

module _ (kmalloc : ℕ → Option (ℕ → ℕ)) (need : ℕ) where
  pub ensure_cap-fits : (v : Node) → need ≤ v.cap → ensure_cap kmalloc need v ≡ (done 0, v)
  unfolding ensure_cap
  ensure_cap-fits v h = ground arith

  ensure_cap-grows :
      (k : ℕ) (v : Node)
      → v.cap < need
      → grow_loop grow_rounds need (first_cap v) ≡ some k
      → ensure_cap kmalloc need v ≡ with_cap kmalloc k v
  unfolding ensure_cap
  ensure_cap-grows k v h e = rw (e, ensure_cap) (ground arith)

  with_cap-some :
      (k : ℕ) (v : Node) (fresh : ℕ → ℕ)
      → kmalloc k ≡ some fresh
      → with_cap kmalloc k v
        ≡ (done 0, record v { bytes = memcpy fresh 0 v.bytes 0 v.size; cap = k })
  with_cap-some k v fresh z = ground (arith, z)

module _ (kmalloc : ℕ → Option (ℕ → ℕ)) where
  -- For a size up to 2 ^ 63 ensure_cap ends: it makes room and keeps the file's bytes, or it fails,
  -- where the heap does, and changes nothing.
  pub ensure_cap-Grown :
      (need : ℕ) (v : Node)
      → need ≤ 2 ^ 63
      → Served need v (ensure_cap kmalloc need v) ⊎ (ensure_cap kmalloc need v ≡ (failed, v))
  ensure_cap-Grown need v h = elim (dec_lt v.cap need) [
    | no fits ↦ inl (
        subst (Served need v) (sym (ensure_cap-fits kmalloc need v (omega arith))) (
          refl,
          record {
            kind = refl;
            size = refl;
            room = omega arith;
            bigger = omega arith;
            bytes = λ i lt. refl;
            dirty_b0 = refl;
            dirty_b1 = refl;
          },
        ))
    | yes short ↦
        let (k, g, w) = grow_loop-ends need (first_cap v) h (ground arith) in
        let e = ensure_cap-grows kmalloc need k v short g in
        elim (Option-cases (kmalloc k)) [
          | inl z ↦ inr (e ∙ ground (arith, z))
          | inr (fresh, z) ↦ inl (
              subst (Served need v) (sym (e ∙ with_cap-some kmalloc need k v fresh z))
                (refl, with_cap-Grown need k v fresh w (omega arith)))
        ]
  ]
