-- ===== src/Codec.antt =====
-- Compression of one block (nbd-vram.c, `comp_block`, `decomp_block`, `comp_selftest`). The
-- compression libraries are a parameter: what their functions return for a block.
pub mod RoundTrip
pub mod SelfTest
use nbd_vram.Prelude.{
  ℕ, zero, suc, ◌+◌, ◌*◌, ◌%◌, ◌^◌, ◌≤◌, ◌<◌, ◌≡◌, Bool, true, false, not, ◌&&◌, ◌||◌, List, [],
  ◌∷◌, Option, none, some, ltb, ◌==◌, if◌then◌else◌, length, take,
}
use nbd_vram.Heap.{cblk_size}

abbrev pub Bytes : Type 0
Bytes = List ℕ

-- `CODEC_NONE`, `CODEC_ZSTD` and `CODEC_LZ4`
pub data CodecKind : Type 0 where
  plain zstd lz4 : CodecKind

-- The calls of libzstd and liblz4. A compressor gives its result code and what it leaves in the
-- output buffer of `CSLOT_SIZE` bytes; a decompressor gives its code and the output of `CBLK_SIZE`
-- bytes. The codes of LZ4 are `int`s, with 0 for any that is not positive.
pub record Library : Type 0 where
  pub zstd_compress : Bytes → ℕ × Bytes
  pub zstd_is_error : ℕ → Bool
  pub zstd_decompress : Bytes → ℕ × Bytes
  pub lz4_compress : Bytes → ℕ × Bytes
  pub lz4_decompress : Bytes → ℕ × Bytes

module _ (lib : Library) (codec : CodecKind) where
  -- The `n` of `comp_block` and the output buffer before the test for 0.
  try_compress : Bytes → ℕ × Bytes
  try_compress src = elim codec [
    | zstd ↦
        let (r, dst) = lib.zstd_compress src in
        if not (lib.zstd_is_error r) && (ltb 0 r && ltb r cblk_size) then (r, dst) else (0, dst)
    | lz4 ↦
        let (r, dst) = lib.lz4_compress src in
        if ltb 0 r && ltb r cblk_size then (r, dst) else (0, dst)
    | plain ↦ (0, [])
  ]

  -- The length to store, and the first bytes of the output buffer, of that number.
  unfoldable pub comp_block : Bytes → ℕ × Bytes
  unfolding try_compress
  comp_block src =
      let (n, dst) = try_compress src in
      if n == 0 then (cblk_size, take cblk_size src) else (n, take n dst)

  -- `none` is the return value -1.
  unfoldable pub decomp_block : (clen : ℕ) → Bytes → Option Bytes
  decomp_block clen src = if clen == cblk_size then some (take cblk_size src) else elim codec [
    | zstd ↦
        let (r, dst) = lib.zstd_decompress src in
        if lib.zstd_is_error r || not (r == cblk_size) then none else some dst
    | lz4 ↦ let (r, dst) = lib.lz4_decompress src in if not (r == cblk_size) then none else some dst
    | plain ↦ none
  ]

-- What the daemon relies on: a block that a library reports compressed to `r` bytes is in the first
-- `r` bytes of the output, and the library decompresses those to the block.
pub record IsLossless (lib : Library) : Type 0 where
  pub zstd_output :
      (page : Bytes)
      → length page ≡ cblk_size
      → lib.zstd_is_error (lib.zstd_compress page).0 ≡ false
      → (lib.zstd_compress page).0 ≤ length (lib.zstd_compress page).1
  pub zstd_back :
      (page : Bytes)
      → length page ≡ cblk_size
      → lib.zstd_is_error (lib.zstd_compress page).0 ≡ false
      → lib.zstd_decompress (take (lib.zstd_compress page).0 (lib.zstd_compress page).1)
        ≡ (cblk_size, page)
  pub zstd_size_ok : lib.zstd_is_error cblk_size ≡ false
  pub lz4_output :
      (page : Bytes)
      → length page ≡ cblk_size
      → 0 < (lib.lz4_compress page).0
      → (lib.lz4_compress page).0 ≤ length (lib.lz4_compress page).1
  pub lz4_back :
      (page : Bytes)
      → length page ≡ cblk_size
      → 0 < (lib.lz4_compress page).0
      → lib.lz4_decompress (take (lib.lz4_compress page).0 (lib.lz4_compress page).1)
        ≡ (cblk_size, page)
