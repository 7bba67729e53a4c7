-- ===== src/Request/Windows.antt =====
-- The windows of `handle_one` tile the request.
use nbd_vram.Prelude.{
  ℕ, zero, suc, ◌+◌, ◌-◌, ◌%◌, ◌^◌, ◌≤◌, ◌<◌, ◌≡◌, inl, inr, arith, false, List, [], ◌∷◌, ◌==◌,
  eq_cases, ==_ne,
}
use nbd_vram.Heap.{cblk_size}
use nbd_vram.Request.{io_buf_size, chunk_at, windows}

-- Windows that follow one another from `voff` on and add up to `remaining`. Each fits the buffer, and
-- each but the last ends where a block ends.
pub data Tiles : (voff remaining : ℕ) → List (ℕ × ℕ) → Type 0 where
  finished : (voff : ℕ) → Tiles voff 0 []
  window :
      (voff remaining chunk : ℕ) (ws : List (ℕ × ℕ))
      → 0 < chunk
      → chunk ≤ remaining
      → chunk ≤ io_buf_size
      → (chunk < remaining → (voff + chunk) % cblk_size ≡ 0)
      → Tiles (voff + chunk) (remaining - chunk) ws
      → Tiles voff remaining ((voff, chunk) ∷ ws)

-- What one round takes.
pub record IsChunk (voff remaining chunk : ℕ) : Type 0 where
  pub pos : 0 < chunk
  pub le : chunk ≤ remaining
  pub fits : chunk ≤ io_buf_size
  pub ends : chunk < remaining → (voff + chunk) % cblk_size ≡ 0

pub chunk_at-IsChunk :
    (voff remaining : ℕ)
    → 0 < remaining
    → voff + remaining < 2 ^ 64
    → remaining < 2 ^ 32
    → IsChunk voff remaining (chunk_at voff remaining)
unfolding chunk_at
chunk_at-IsChunk voff remaining pos inside word = record {
  pos = ground arith;
  le = ground arith;
  fits = ground arith;
  ends = λ more. ground arith;
}

-- For a request inside the range of offsets the loop of `handle_one` ends after at most `length`
-- rounds, and its windows follow one another, add up to the request, fit the 256 KiB buffer, and each
-- but the last ends where a block ends.
pub windows-Tiles :
    (fuel voff remaining : ℕ)
    → remaining ≤ fuel
    → voff + remaining < 2 ^ 64
    → remaining < 2 ^ 32
    → Tiles voff remaining (windows fuel voff remaining)
unfolding windows
windows-Tiles zero voff remaining enough inside word =
    let none_left : remaining ≡ 0 = omega arith in rw none_left (finished voff)
windows-Tiles (suc fuel) voff remaining enough inside word = elim (eq_cases remaining 0) [
  | inl over ↦ rw (over) (finished voff)
  | inr more ↦
      let test : (remaining == 0) ≡ false = ==_ne remaining 0 more in
      let chunk : ℕ = chunk_at voff remaining in
      let is = chunk_at-IsChunk voff remaining (omega arith) inside word in
      let no_wrap : (voff + chunk) % 2 ^ 64 ≡ voff + chunk = omega (arith, is.le) in
      rw (test, no_wrap)
        (window voff remaining chunk (windows fuel (voff + chunk) (remaining - chunk)) is.pos is.le
          is.fits is.ends
          (windows-Tiles fuel (voff + chunk) (remaining - chunk) (omega (arith, is.pos))
            (omega (arith, is.le)) (omega arith)))
]
