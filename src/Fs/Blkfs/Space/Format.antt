-- ===== src/Fs/Blkfs/Space/Format.antt =====
-- The volume that format of kernel/fs/blkfs.c makes of a computed layout.
use yart_os.Prelude.{ℕ, ◌<◌, ◌≡◌, some, u32_mod, arith}
use yart_os.Fs.Blkfs.Layout.{Layout, compute_layout}
use yart_os.Fs.Blkfs.Layout.Closed.{compute_layout-IsLaidOut}
use yart_os.Fs.Blkfs.Layout.Regions.{desc-IsDesc, compute_layout-RegionsApart}
use yart_os.Fs.Blkfs.Layout.CrcIndex.{HasTail}
use yart_os.Fs.Blkfs.Space.{format}
use yart_os.Fs.Blkfs.Space.DataBlocks.{IsSound}

-- A volume that is formatted with a layout whose last group has room is sound: its groups have data,
-- and no block is in the data of two groups.
pub format-IsSound :
    (total : ℕ) (l : Layout)
    → total < u32_mod
    → compute_layout total ≡ some l
    → HasTail total l
    → IsSound (format l)
unfolding format
format-IsSound total l h e room =
    let (v, _) = compute_layout-IsLaidOut total l h e in
    let r = compute_layout-RegionsApart total l h e room in
    let d = λ (k : ℕ) (x : k < l.total_groups). desc-IsDesc total l k v (omega (arith, v.groups)) in
    record {
      some_group = omega (arith, v.groups, v.few);
      few = omega (arith, v.groups, v.few);
      starts = λ g x. omega (arith, d g x);
      ends = λ g x. omega (arith, r.blocks g x);
      width = λ g x. omega (arith, d g x, v.few, v.large);
      apart = λ g g' blk a b. omega (arith, a, b, d g a.group, d g' b.group);
    }
