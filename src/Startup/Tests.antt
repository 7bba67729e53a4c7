-- ===== src/Startup/Tests.antt =====
-- A start with 7168 MiB of VRAM of which 6000 MiB can be had.
use nbd_vram.Prelude.{ℕ, ◌*◌, ◌^◌, arith, Bool, some, leb}
use nbd_vram.Codec.{plain}
use nbd_vram.Startup.{choose_disk_size, allocate}
use nbd_vram.Startup.Sizes.{IsDisk, choose_disk_size-IsDisk, Backed, allocate-Backed}

abbrev grants : ℕ → Bool
grants size = leb size (6000 * 2 ^ 20)

allocate-Backed_example : Backed grants 7168 (allocate 7168 grants 7168)
allocate-Backed_example = allocate-Backed 7168 grants 7168 (omega arith) (omega arith)

choose_disk_size-IsDisk_example :
    IsDisk plain
      (6000 * 2 ^ 20)
      (5632 * 2 ^ 20)
      (choose_disk_size plain (some 6000) (5632 * 2 ^ 20))
choose_disk_size-IsDisk_example =
    choose_disk_size-IsDisk plain (some 6000) (5632 * 2 ^ 20) (omega arith)
