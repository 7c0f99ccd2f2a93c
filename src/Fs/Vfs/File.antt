-- ===== src/Fs/Vfs/File.antt =====
-- The contents of one file in kernel/fs/vfs.c: vfs_read, vfs_write, vfs_truncate and ensure_cap.
--
-- The heap is a parameter: `kmalloc n` is `none` where it fails, and else the bytes that the new
-- block happens to hold.
pub mod Grow
pub mod Write
pub mod Refine
mod Tests
use yart_os.Prelude.{
  ℕ, zero, suc, ◌+◌, ◌-◌, ◌*◌, ◌/◌, ◌%◌, Bool, true, false, ◌&&◌, ◌||◌, not, Option, none, some,
  if◌then◌else◌, ◌^◌, ltb, leb, ◌==◌, u32_mod, u64_mod, add64,
}
use yart_os.CString.{memset, memcpy}

-- vnode_type_t
pub data Kind : Type 0 where
  file : Kind
  dir : Kind
  symlink : Kind

-- the fields of vnode_t that the operations on contents read and write; `bytes` is *data
pub record Node : Type 0 where
  pub kind : Kind
  pub bytes : ℕ → ℕ
  pub size : ℕ
  pub cap : ℕ
  pub mtime : ℕ
  pub dirty : Bool
  pub dirty_b0 : ℕ
  pub dirty_b1 : ℕ

abbrev pub is_file : Node → Bool
is_file v = elim v.kind [ file ↦ true | dir ↦ false | symlink ↦ false ]

-- What an operation comes to: an int that is not negative, -1, another negative int, as its amount, an
-- access outside the file's block, or a loop that has not ended within its rounds.
pub data Outcome : Type 0 where
  done : ℕ → Outcome
  failed : Outcome
  negative : ℕ → Outcome
  overrun : Outcome
  running : Outcome

-- return (int)n;
pub int_result : ℕ → Outcome
int_result n =
    let w = n % u32_mod in
    if ltb w (2 ^ 31) then done w else if w == u32_mod - 1 then failed else negative (u32_mod - w)

-- The bytes that vfs_read copies to the user's buffer.
pub read_count : (off n : ℕ) → Node → Outcome
read_count off n v =
    let m = if ltb v.size (add64 off n) then v.size - off else n in
    if not (is_file v)
    then failed
    else if leb v.size off
    then done 0
    else if ltb v.size (off + m)
    then overrun
    else done m

-- vfs_read: the outcome, and the user's buffer
pub read : (buf : ℕ → ℕ) → (off n : ℕ) → Node → Outcome × (ℕ → ℕ)
read buf off n v = elim (read_count off n v) [
  | done m ↦ (int_result m, memcpy buf 0 v.bytes off m)
  | other ↦ (other, buf)
]

-- while (newcap < need) newcap *= 2; `none` is running out of rounds.
pub grow_loop : (rounds need newcap : ℕ) → Option ℕ
grow_loop zero need newcap = none
grow_loop (suc r) need newcap = elim (ltb newcap need) [
  | true ↦ grow_loop r need (newcap * 2 % u64_mod)
  | false ↦ some newcap
]

-- The rounds that are enough for a size up to 2 ^ 63.
abbrev pub grow_rounds : ℕ
grow_rounds = 65

abbrev pub first_cap : Node → ℕ
first_cap v = if v.cap == 0 then 64 else v.cap

-- the fields that vfs_write sets last; BLK_SECTOR_SIZE is 512
abbrev pub touched : (now off n : ℕ) → Node → Node
touched now off n v =
    let b0 = off / 512 % u32_mod in
    let b1 = (off + n + 511) % u64_mod / 512 % u32_mod in
    record v {
      size = if ltb v.size (off + n) then off + n else v.size;
      mtime = now;
      dirty = true;
      dirty_b0 = if ltb b0 v.dirty_b0 then b0 else v.dirty_b0;
      dirty_b1 = if ltb v.dirty_b1 b1 then b1 else v.dirty_b1;
    }

-- the bytes after the memset of vfs_write, which fills a gap
abbrev pub filled : (off : ℕ) → Node → ℕ → ℕ
filled off v = if ltb v.size off then memset v.bytes v.size 0 (off - v.size) else v.bytes

-- the file once vfs_write has made room
abbrev pub written : (now : ℕ) → (buf : ℕ → ℕ) → (off n : ℕ) → Node → Node
written now buf off n v = touched now off n (record v { bytes = memcpy (filled off v) off buf 0 n })

-- vfs_write from the memset on
abbrev pub put_bytes : (now : ℕ) → (buf : ℕ → ℕ) → (off n : ℕ) → Node → Outcome × Node
put_bytes now buf off n v =
    if ltb v.cap (off + n) then (overrun, v) else (int_result n, written now buf off n v)

abbrev pub cut : (now n : ℕ) → Node → Node
cut now n v = record v { size = n; mtime = now; dirty = true; dirty_b0 = 0; dirty_b1 = 0xffff_ffff }

-- the file after the memset of vfs_truncate
abbrev pub cleared : (n : ℕ) → Node → Node
cleared n u = record u { bytes = memset u.bytes u.size 0 (n - u.size) }

-- `if (ensure_cap(...) < 0) return -1;` and what follows
abbrev pub if_room : Outcome × Node → (Node → Outcome × Node) → Outcome × Node
if_room (done m, u) next = next u
if_room (failed, u) next = (failed, u)
if_room (negative m, u) next = (negative m, u)
if_room (overrun, u) next = (overrun, u)
if_room (running, u) next = (running, u)

module _ (kmalloc : ℕ → Option (ℕ → ℕ)) where
  -- ensure_cap once the new capacity is known
  abbrev pub with_cap : (newcap : ℕ) → Node → Outcome × Node
  with_cap newcap v = elim (kmalloc newcap) [
    | none ↦ (failed, v)
    | some fresh ↦ (done 0, record v { bytes = memcpy fresh 0 v.bytes 0 v.size; cap = newcap })
  ]

  pub ensure_cap : (need : ℕ) → Node → Outcome × Node
  unfolding grow_loop
  ensure_cap need v =
      let grown : Outcome × Node = elim (grow_loop grow_rounds need (first_cap v)) [
        | none ↦ (running, v)
        | some newcap ↦ with_cap newcap v
      ] in
      if leb need v.cap then (done 0, v) else grown

  -- vfs_write; `now` is now_epoch()
  pub write : (now : ℕ) → (buf : ℕ → ℕ) → (off n : ℕ) → Node → Outcome × Node
  write now buf off n v =
      if not (is_file v)
      then (failed, v)
      else if_room (ensure_cap (add64 off n) v) (put_bytes now buf off n)

  pub truncate : (now n : ℕ) → Node → Outcome × Node
  truncate now n v =
      if not (is_file v)
      then (failed, v)
      else if ltb v.size n
      then if_room (ensure_cap n v) (λ u. (done 0, cut now n (cleared n u)))
      else (done 0, cut now n v)
