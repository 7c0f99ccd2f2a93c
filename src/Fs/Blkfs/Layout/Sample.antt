-- ===== src/Fs/Blkfs/Layout/Sample.antt =====
-- The layout of a disk of 16 MiB, for the tests of kernel/fs/blkfs.c.
use yart_os.Prelude.{◌≡◌, refl, some, update}
use yart_os.Fs.Blkfs.Layout.{
  Layout, compute_layout, fill, place, finish, sum_data, no_desc, group_desc, clamp,
}

-- 4000 blocks make one group, whose descriptor is the first.
abbrev pub disk_16m : Layout
disk_16m = record {
  total_blocks = 4000;
  total_groups = 1;
  journal_start = 3936;
  crc_start = 3932;
  desc = clamp 1 3932 (update no_desc 0 (group_desc 3936 0));
}

pub layout_16m : compute_layout 4000 ≡ some disk_16m
unfolding compute_layout fill finish place sum_data
layout_16m = refl
