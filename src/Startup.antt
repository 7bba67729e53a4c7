-- ===== src/Startup.antt =====
-- Choices at the start of the daemon (nbd-vram.c, `load_libcompress` and `main`): the codec, the VRAM
-- to ask for and the size of the disk. The environment and the driver are parameters.
pub mod Sizes
mod Tests
use nbd_vram.Prelude.{
  ℕ, zero, suc, ◌+◌, ◌-◌, ◌*◌, ◌/◌, ◌%◌, ◌^◌, Bool, true, false, ◌&&◌, ◌||◌, Option, none, some,
  ltb, leb, if◌then◌else◌,
}
use nbd_vram.Heap.{cblk_size}
use nbd_vram.Codec.{CodecKind, plain, zstd, lz4}

-- `VRAM_COMPRESS`: unset, one of none, 0 and off, a library's name, or another value.
pub data Wish : Type 0 where
  unset off want_zstd want_lz4 other : Wish

-- The codec that `load_libcompress` sets, by whether each library can be used.
unfoldable pub choose_codec : Wish → (zstd_ok lz4_ok : Bool) → CodecKind
choose_codec off zstd_ok lz4_ok = plain
choose_codec want_lz4 zstd_ok lz4_ok = if lz4_ok then lz4 else if zstd_ok then zstd else plain
choose_codec other zstd_ok lz4_ok = if lz4_ok then lz4 else plain
choose_codec unset zstd_ok lz4_ok = if zstd_ok then zstd else if lz4_ok then lz4 else plain
choose_codec want_zstd zstd_ok lz4_ok = if zstd_ok then zstd else if lz4_ok then lz4 else plain

abbrev pub size_align : ℕ
size_align = 64 * 1024

-- The size in bytes that `main` asks for.
abbrev pub vram_bytes : (mb : ℕ) → ℕ
vram_bytes mb = mb * 1024 * 1024 % 2 ^ 64 / size_align * size_align

-- The loop that backs off; the driver says which sizes it allocates. `fuel` bounds the rounds.
unfoldable pub allocate : (fuel : ℕ) → (ℕ → Bool) → (mb : ℕ) → Option ℕ
allocate zero grants mb = none
allocate (suc fuel) grants mb =
    let rest = allocate fuel grants (mb - 512) in
    if ltb mb 1024 then none else (if grants (vram_bytes mb) then some (vram_bytes mb) else rest)

-- `g_disk_size`, with `none` where it is too small. The setting is `VRAM_DISK_SIZE_MB`.
unfoldable pub choose_disk_size : CodecKind → (setting : Option ℕ) → (vram_size : ℕ) → Option ℕ
choose_disk_size codec setting vram_size =
    let asked : ℕ = elim setting [
      | none ↦ vram_size * 2 % 2 ^ 64
      | some mb ↦ mb * 1024 * 1024 % 2 ^ 64
    ] in
    let capped : ℕ = elim codec [
      | plain ↦ if ltb vram_size asked then vram_size else asked
      | zstd ↦ asked
      | lz4 ↦ asked
    ] in
    let size = capped / cblk_size * cblk_size in if ltb size cblk_size then none else some size
