-- ===== src/Request.antt =====
-- Requests of a connection (nbd-vram.c, "Request handling"): the bounds check and the windows in which
-- `handle_one` streams a request.
pub mod Bounds
pub mod Windows
pub mod Single
use nbd_vram.Prelude.{
  ℕ, zero, suc, ◌+◌, ◌-◌, ◌*◌, ◌/◌, ◌%◌, ◌^◌, Bool, true, false, ◌||◌, List, [], ◌∷◌, ltb, ◌==◌,
  if◌then◌else◌,
}
use nbd_vram.Heap.{cblk_size, u32}

-- `IO_BUF_SIZE`: 64 blocks
abbrev pub io_buf_size : ℕ
io_buf_size = 64 * cblk_size

-- Whether a range reaches outside the disk.
unfoldable pub oob : (disk_size offset length : ℕ) → Bool
oob disk_size offset length = ltb disk_size offset || ltb (disk_size - offset) length

-- The size of the next window of `handle_one`.
unfoldable pub chunk_at : (voff remaining : ℕ) → ℕ
chunk_at voff remaining =
    let chunk = if ltb io_buf_size remaining then io_buf_size else remaining in
    let end = (voff + chunk) % 2 ^ 64 / cblk_size * cblk_size in
    if ltb chunk remaining then (if ltb voff end then u32 (end - voff) else chunk) else chunk

-- The windows of a request as offset and size, by the loops of `handle_one`. `fuel` bounds the rounds.
unfoldable pub windows : (fuel voff remaining : ℕ) → List (ℕ × ℕ)
windows zero voff remaining = []
windows (suc fuel) voff remaining =
    let chunk = chunk_at voff remaining in
    let rest = windows fuel ((voff + chunk) % 2 ^ 64) (remaining - chunk) in
    if remaining == 0 then [] else (voff, chunk) ∷ rest
