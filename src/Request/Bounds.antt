-- ===== src/Request/Bounds.antt =====
-- `oob` against the sum that it avoids.
use nbd_vram.Prelude.{ℕ, ◌+◌, ◌≡◌, arith, leb, not}
use nbd_vram.Request.{oob}

-- `oob` is false for exactly the ranges that end on the disk, their end taken as a true sum: no range
-- passes by a sum that wraps.
pub oob_lem :
    (disk_size offset length : ℕ)
    → oob disk_size offset length ≡ not (leb (offset + length) disk_size)
unfolding oob
oob_lem disk_size offset length = ground arith
