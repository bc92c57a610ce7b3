-- ===== src/Boot/Tests.antt =====
-- The loader on an image that begins with a 1.
use cat_os_micro_kernel.Common.{◌<◌, ◌≡◌, ◌↔◌, ◌==◌, if◌then◌else◌, []}
use cat_os_micro_kernel.Boot.{Machine}
use cat_os_micro_kernel.Boot.Disk.{
  sector_number, cylinder_of, head_of, sector_of, cylinder_of-sector_number,
}
use cat_os_micro_kernel.Boot.Loader.{stage2_c_main}
use cat_os_micro_kernel.Boot.Loader.Loaded.{IsStarted, stage2_c_main-IsStarted}

abbrev image : Machine
image = record { memory = λ q. if q == 0x20000 then 1 else 0; serial = [] }

stage2_c_main-IsStarted_example : IsStarted image (stage2_c_main image)
stage2_c_main-IsStarted_example = stage2_c_main-IsStarted image

cylinder_of-sector_number_example :
    (sector_number (cylinder_of 40) (head_of 40) (sector_of 40) ≡ 40) ↔ (40 < 36)
cylinder_of-sector_number_example = cylinder_of-sector_number 40
