-- ===== src/Fs/Vfs/File/Write.antt =====
-- What vfs_write of kernel/fs/vfs.c records for the disk, and what becomes of ends beyond 2 ^ 64.
use yart_os.Prelude.{
  ℕ, ◌+◌, ◌-◌, ◌*◌, ◌^◌, ◌<◌, ◌≤◌, ◌≡◌, inl, inr, refl, true, false, not, Option, arith, u64_mod,
  add64, sym, ◌∙◌, ap, subst,
}
use yart_os.Fs.Vfs.File.{
  Node, done, overrun, is_file, ensure_cap, put_bytes, written, if_room, read, read_count, write,
}
use yart_os.Fs.Vfs.File.Grow.{Grown, ensure_cap-Grown, ensure_cap-fits}
use yart_os.Fs.Vfs.File.Refine.{Fits, if_room-done, write-eq, put_bytes-eq}

-- The blocks that `u` marks hold the written bytes and every block that `v` marks.
pub record Marks (off n : ℕ) (v u : Node) : Type 0 where
  pub first : u.dirty_b0 * 512 ≤ off
  pub last : off + n ≤ u.dirty_b1 * 512
  pub old_first : u.dirty_b0 ≤ v.dirty_b0
  pub old_last : v.dirty_b1 ≤ u.dirty_b1
  pub dirty : u.dirty ≡ true

written-Marks :
    (now : ℕ) (buf : ℕ → ℕ) (off n : ℕ) (v u : Node)
    → off + n + 511 < 2 ^ 41
    → Grown (off + n) v u
    → Marks off n v (written now buf off n u)
written-Marks now buf off n v u h g = record {
  first = ground arith;
  last = ground arith;
  old_first = ground (arith, g.dirty_b0);
  old_last = ground (arith, g.dirty_b1);
  dirty = refl;
}

module _ (kmalloc : ℕ → Option (ℕ → ℕ)) (now : ℕ) (buf : ℕ → ℕ) (off n : ℕ) (v : Node)
    (file : is_file v ≡ true) where
  -- For fewer than 2 ^ 31 bytes and an end below 2 ^ 41 - 511 a vfs_write that succeeds leaves the node dirty, with a range of
  -- 512-byte blocks that holds every byte written and every block marked before.
  pub write-Marks :
      Fits v
      → n < 2 ^ 31
      → off + n + 511 < 2 ^ 41
      → (write kmalloc now buf off n v).0 ≡ done n
      → Marks off n v (write kmalloc now buf off n v).1
  write-Marks h small le e =
      let r = ensure_cap kmalloc (off + n) v in
      let q = write-eq kmalloc now n v file h buf off (omega arith) in
      elim (ensure_cap-Grown kmalloc (off + n) v (omega arith)) [
        | inl (d, g) ↦
            let w : put_bytes now buf off n r.1 ≡ (done n, written now buf off n r.1) =
              put_bytes-eq now buf off n r.1 small g.room in
            subst (λ x. Marks off n v x.1)
              (sym (q ∙ if_room-done r (put_bytes now buf off n) d ∙ w))
              (written-Marks now buf off n v r.1 le g)
        | inr z ↦
            absurd (
              ground
                (arith, e, ap (λ x. x.0) (q ∙ ap (λ x. if_room x (put_bytes now buf off n)) z)))
      ]

  -- Where the offset and the count add up to 2 ^ 64 or more and what is left fits into the block,
  -- vfs_write makes no room, and copies the bytes outside the file's block.
  pub write-overruns :
      u64_mod ≤ off + n
      → off + n - u64_mod ≤ v.cap
      → v.cap < u64_mod
      → off < u64_mod
      → n < u64_mod
      → write kmalloc now buf off n v ≡ (overrun, v)
  unfolding write
  write-overruns big room cap o m =
      let need : add64 off n ≤ v.cap = omega arith in
      let f : not (is_file v) ≡ false = ground (arith, file) in
      rw (f, ensure_cap-fits kmalloc (add64 off n) v need) (ground arith)

  -- Where the offset lies in the file and the offset and the count add up to 2 ^ 64 or more, with no
  -- more than the file's size left, vfs_read copies `n` bytes, beyond the file's end.
  pub read-overruns :
      off < v.size
      → u64_mod ≤ off + n
      → off + n - u64_mod ≤ v.size
      → v.size < u64_mod
      → n < u64_mod
      → read buf off n v ≡ (overrun, buf)
  unfolding read read_count
  read-overruns o big room s m =
      let e : read_count off n v ≡ overrun = ground (arith, file) in rw (e, read) refl
