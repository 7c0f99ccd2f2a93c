-- ===== src/Fs/Vfs/Tree/Tests.antt =====
-- The theorems on the tree of kernel/fs/vfs.c, on the sample directory.
use yart_os.Prelude.{◌≡◌, ◌≢◌, ◌⊎◌, refl, true, false, [], ◌∷◌, arith}
use yart_os.Fs.Vfs.File.{file}
use yart_os.Fs.Vfs.Tree.{create, unlink, find_child, is_dir}
use yart_os.Fs.Vfs.Tree.Attach.{IsDirectory}
use yart_os.Fs.Vfs.Tree.Create.{IsNew, Creates, create-Creates}
use yart_os.Fs.Vfs.Tree.Unlink.{Unlinks, unlink-Unlinks}
use yart_os.Fs.Vfs.Tree.Sample.{sample, user}

sample-IsDirectory : IsDirectory sample 1 (2 ∷ 3 ∷ 4 ∷ [])
sample-IsDirectory = record {
  node = omega arith;
  dir = refl;
  chain = ground arith;
  distinct = ground arith;
  few = omega arith;
}

sample-IsNew : IsNew sample 1 (2 ∷ 3 ∷ 4 ∷ [])
sample-IsNew = record { node = omega arith; other = omega arith; new = ground arith }

create-Creates_example :
    ((find_child 1 (100 ∷ []) sample ≢ 0) × (create user 1 (100 ∷ []) file sample ≡ (0, sample)))
    ⊎ Creates user 1
        (100 ∷ [])
        file
        sample
        (2 ∷ 3 ∷ 4 ∷ [])
        sample-IsDirectory
        sample-IsNew
        (97 ∷ [])
create-Creates_example =
    create-Creates user 1 (100 ∷ []) file sample (2 ∷ 3 ∷ 4 ∷ []) sample-IsDirectory sample-IsNew
      (97 ∷ []) (omega arith)

unlink-Unlinks_example :
    ((is_dir (sample.node 3).kind ≡ true)
      × ((sample.node 3).child ≢ 0)
      × (unlink 3 sample ≡ (false, sample)))
    ⊎ (((unlink 3 sample).0 ≡ true)
        × Unlinks 1 3 (2 ∷ []) (4 ∷ []) sample sample-IsDirectory refl (97 ∷ []))
unlink-Unlinks_example =
    unlink-Unlinks 1 3 (2 ∷ []) (4 ∷ []) sample sample-IsDirectory refl (97 ∷ []) refl
