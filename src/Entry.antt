-- ===== src/Entry.antt =====
-- An entry of the block index (nbd-vram.c, "Block index"): a device offset, a stored length and a
-- generation packed in one `uint64_t`.
pub mod Bits
pub mod Fields
mod Tests
use Prim.Native.Nat.{bit_and, bit_or}
use nbd_vram.Prelude.{ℕ, ◌+◌, ◌-◌, ◌*◌, ◌/◌, ◌%◌, ◌^◌}

-- `ENT_GRAIN_BITS`, `ENT_CLEN_BITS` and `ENT_GEN_MASK`
abbrev pub ent_grain_bits : ℕ
ent_grain_bits = 30

abbrev pub ent_clen_bits : ℕ
ent_clen_bits = 13

abbrev pub ent_gen_mask : ℕ
ent_gen_mask = 0x1F_FFFF

unfoldable pub ent_grain : ℕ → ℕ
ent_grain e = bit_and e (2 ^ ent_grain_bits - 1) % 2 ^ 32

unfoldable pub ent_clen : ℕ → ℕ
ent_clen e = bit_and (e / 2 ^ ent_grain_bits) (2 ^ ent_clen_bits - 1) % 2 ^ 32

unfoldable pub ent_gen : ℕ → ℕ
ent_gen e = bit_and (e / 2 ^ (ent_grain_bits + ent_clen_bits) % 2 ^ 32) ent_gen_mask

unfoldable pub ent_make : (grain clen gen : ℕ) → ℕ
ent_make grain clen gen =
    bit_or (bit_or grain (clen * 2 ^ ent_grain_bits % 2 ^ 64))
      (bit_and gen ent_gen_mask * 2 ^ (ent_grain_bits + ent_clen_bits) % 2 ^ 64)

-- `ent_gen(old) + 1`, a `uint32_t`
abbrev pub next_gen : ℕ → ℕ
next_gen old = (ent_gen old + 1) % 2 ^ 32
