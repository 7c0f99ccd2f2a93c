-- ===== src/Mm/Pmm/Init/Tests.antt =====
-- pmm_init of kernel/mm/pmm.c on a machine with 2 MiB from address 0.
use yart_os.Prelude.{◌≡◌, refl, true, some, List, [], ◌∷◌}
use yart_os.Mm.Pmm.{Pmm}
use yart_os.Mm.Pmm.Init.{Entry, init, carve_region, built}

abbrev map_2m : List Entry
map_2m = record { base = 0; len = 0x200000; usable = true } ∷ []

-- A page for the bitmap and a page for the counts are carved out.
abbrev carved : List Entry
carved = record { base = 0x2000; len = 0x1fe000; usable = true } ∷ []

abbrev started : Pmm
started = built 512 carved (λ a. 0)

init_2m : init map_2m (λ a. 0) ≡ some started
unfolding init carve_region
init_2m = refl
