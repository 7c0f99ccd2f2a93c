-- ===== src/Fs/Vfs/Perm.antt =====
-- The permission check of kernel/fs/vfs.c.
pub mod Rules
mod Tests
use yart_os.Prelude.{
  ℕ, zero, suc, ◌+◌, ◌*◌, ◌/◌, ◌%◌, Bool, true, false, ◌&&◌, ◌||◌, List, [], ◌∷◌, Option, some,
  none, if◌then◌else◌, ◌==◌, take,
}
use Prim.Native.Nat.{bit_and}

-- vfs_acl_entry_t
pub record AclEntry : Type 0 where
  pub uid : ℕ
  pub mask : ℕ

-- the fields of vnode_t that the check reads; `acl` are the first acl_count entries
pub record Rights : Type 0 where
  pub owner : ℕ
  pub group : ℕ
  pub mode : ℕ
  pub acl : List AclEntry

-- VFS_ACL_MAX
abbrev pub acl_max : ℕ
acl_max = 8

-- for (i...) if (v->acl[i].uid == euid) return (v->acl[i].mask & want) == want;
pub acl_loop : List AclEntry → (euid : ℕ) → Option ℕ
acl_loop [] euid = none
acl_loop (e ∷ es) euid = if e.uid == euid then some e.mask else acl_loop es euid

-- for (g...) if (v->gid == groups[g]) { in_group = true; break; }
pub in_group : (gid : ℕ) → List ℕ → Bool
in_group gid [] = false
in_group gid (g ∷ gs) = gid == g || in_group gid gs

-- (mode >> 6) & PERM_RWX, (mode >> 3) & PERM_RWX or mode & PERM_RWX
abbrev pub class_bits : Rights → (euid : ℕ) → (groups : List ℕ) → ℕ
class_bits v euid groups =
    if v.owner == euid
    then v.mode / 64 % 8
    else if in_group v.group groups
    then v.mode / 8 % 8
    else v.mode % 8

-- (bits & want) == want
abbrev pub grants : (bits want : ℕ) → Bool
grants bits want = bit_and bits want == want

-- vfs_check_perm, on a node that is not NULL
pub check_perm : Rights → (euid : ℕ) → (groups : List ℕ) → (want : ℕ) → Bool
check_perm v euid groups want =
    if euid == 0 then true else elim (acl_loop (take acl_max v.acl) euid) [
      | some mask ↦ grants mask want
      | none ↦ grants (class_bits v euid groups) want
    ]
