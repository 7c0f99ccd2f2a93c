-- ===== src/Fs/Blkfs/Layout/Tests.antt =====
-- The layout of a disk of 16 MiB, and of one that is just too small for its second group.
use yart_os.Prelude.{ℕ, ◌≡◌, refl, arith}
use yart_os.Fs.Blkfs.Layout.Sample.{disk_16m, layout_16m}
use yart_os.Fs.Blkfs.Layout.Regions.{RegionsApart, compute_layout-RegionsApart}
use yart_os.Fs.Blkfs.Layout.CrcIndex.{InGroup, crc_block-injective}

first_block : InGroup disk_16m 0 36
first_block = record { group = omega arith; lower = omega arith; upper = omega arith }

compute_layout-RegionsApart_example : RegionsApart 4000 disk_16m
compute_layout-RegionsApart_example =
    compute_layout-RegionsApart 4000 disk_16m (omega arith) layout_16m (omega arith)

crc_block-injective_example : ◌≡◌ {A = ℕ} 36 36
crc_block-injective_example =
    crc_block-injective 4000 disk_16m (omega arith) layout_16m (omega arith) 0 36 0 36 first_block
      first_block refl refl
