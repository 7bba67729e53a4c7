-- ===== src/Codec/RoundTrip.antt =====
-- A block comes back as it was stored.
use nbd_vram.Prelude.{
  ℕ, ◌≤◌, ◌<◌, ◌≡◌, refl, arith, false, some, inl, inr, take, length, length-take, take-length,
  Bool-cases, ltb, not, ◌&&◌, ◌==◌,
}
use nbd_vram.Heap.{cblk_size}
use nbd_vram.Codec.{
  Bytes, CodecKind, plain, zstd, lz4, Library, IsLossless, comp_block, decomp_block,
}

-- What `comp_block` promises of a block: a length of 1 to `CBLK_SIZE`, as many bytes, and bytes that
-- decompress to the block.
pub record IsStored (lib : Library) (codec : CodecKind) (page : Bytes) (r : ℕ × Bytes)
    : Type 0 where
  pub pos : 0 < r.0
  pub le : r.0 ≤ cblk_size
  pub bytes : length r.1 ≡ r.0
  pub back : decomp_block lib codec r.0 r.1 ≡ some page

module _ {lib : Library} (lossless : IsLossless lib) (page : Bytes)
    (whole : length page ≡ cblk_size) where
  verbatim : (codec : CodecKind) → IsStored lib codec page (cblk_size, take cblk_size page)
  unfolding decomp_block
  verbatim codec =
      let all : take cblk_size page ≡ page = rw (← whole) (take-length page) in
      record {
        pos = omega arith;
        le = omega arith;
        bytes = rw all whole;
        back = rw (all, all) refl;
      }

  -- With lossless libraries a block stored by `comp_block`, compressed or verbatim, has a length of 1
  -- to 4096 and `decomp_block` gives it back, whatever the codec.
  pub comp_block-IsStored :
      (codec : CodecKind) → IsStored lib codec page (comp_block lib codec page)
  unfolding comp_block decomp_block
  comp_block-IsStored plain = verbatim plain
  comp_block-IsStored zstd =
      let r : ℕ = (lib.zstd_compress page).0 in
      elim (Bool-cases (not (lib.zstd_is_error r) && (ltb 0 r && ltb r cblk_size))) [
        | inr lost ↦ rw lost (verbatim zstd)
        | inl won ↦
            let pos : 0 < r = ground arith in
            let lt : r < cblk_size = ground arith in
            let fine : lib.zstd_is_error r ≡ false = ground arith in
            let some_bytes : (r == 0) ≡ false = ground arith in
            let short : (r == cblk_size) ≡ false = ground arith in
            rw (won, some_bytes)
              (record {
                pos = pos;
                le = omega arith;
                bytes = omega (
                  arith,
                  length-take r (lib.zstd_compress page).1,
                  lossless.zstd_output page whole fine,
                );
                back = rw (short, lossless.zstd_back page whole fine, lossless.zstd_size_ok) refl;
              })
      ]
  comp_block-IsStored lz4 =
      let r : ℕ = (lib.lz4_compress page).0 in
      elim (Bool-cases (ltb 0 r && ltb r cblk_size)) [
        | inr lost ↦ rw lost (verbatim lz4)
        | inl won ↦
            let pos : 0 < r = ground arith in
            let lt : r < cblk_size = ground arith in
            let some_bytes : (r == 0) ≡ false = ground arith in
            let short : (r == cblk_size) ≡ false = ground arith in
            rw (won, some_bytes)
              (record {
                pos = pos;
                le = omega arith;
                bytes = omega (
                  arith,
                  length-take r (lib.lz4_compress page).1,
                  lossless.lz4_output page whole pos,
                );
                back = rw (short, lossless.lz4_back page whole pos) refl;
              })
      ]
