-- ===== src/Fs/Vfs/Perm/Tests.antt =====
-- The permission check of kernel/fs/vfs.c on a file with an entry for one user.
use yart_os.Prelude.{◌≡◌, ◌⊎◌, true, false, [], ◌∷◌}
use yart_os.Fs.Vfs.Perm.{Rights, check_perm}
use yart_os.Fs.Vfs.Perm.Rules.{Allowed, check_perm-Allowed}

-- -rw-r----- 1000:100, and user 1001 may write
abbrev report : Rights
report = record {
  owner = 1000;
  group = 100;
  mode = 0x1a0;
  acl = record { uid = 1001; mask = 2 } ∷ [];
}

check_perm-Allowed_example :
    ((check_perm report 1001 (100 ∷ []) 4 ≡ true) × Allowed report 1001 (100 ∷ []) 4)
    ⊎ ((check_perm report 1001 (100 ∷ []) 4 ≡ false) × (Allowed report 1001 (100 ∷ []) 4 → ⊥))
check_perm-Allowed_example = check_perm-Allowed report 1001 (100 ∷ []) 4
