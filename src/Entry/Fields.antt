-- ===== src/Entry/Fields.antt =====
-- Packing and unpacking an index entry.
use Prim.Native.Nat.{bit_and}
use nbd_vram.Prelude.{ℕ, ◌+◌, ◌*◌, ◌/◌, ◌%◌, ◌^◌, ◌<◌, ◌≡◌, arith}
use nbd_vram.Entry.{ent_grain, ent_clen, ent_gen, ent_make, ent_gen_mask}
use nbd_vram.Entry.Bits.{and_mask, or_field}

-- The entry as a sum of its fields.
pub ent_make-sum :
    (grain clen gen : ℕ)
    → grain < 2 ^ 30
    → clen < 2 ^ 13
    → ent_make grain clen gen ≡ grain + clen * 2 ^ 30 + gen % 2 ^ 21 * 2 ^ 43
unfolding ent_make
ent_make-sum grain clen gen lg lc =
    let g : ℕ = gen % 2 ^ 21 in
    let mask : bit_and gen ent_gen_mask ≡ g = and_mask 21 gen in
    let c_fits : clen * 2 ^ 30 % 2 ^ 64 ≡ clen * 2 ^ 30 = omega arith in
    let g_fits : g * 2 ^ 43 % 2 ^ 64 ≡ g * 2 ^ 43 = omega arith in
    rw (mask, c_fits, g_fits, or_field 30 grain clen lg)
      (or_field 43 (grain + clen * 2 ^ 30) g (omega arith))

module _ (e : ℕ) where
  pub ent_grain_lem : ent_grain e ≡ e % 2 ^ 30
  unfolding ent_grain
  ent_grain_lem = omega (arith, and_mask 30 e)

  pub ent_clen_lem : ent_clen e ≡ e / 2 ^ 30 % 2 ^ 13
  unfolding ent_clen
  ent_clen_lem = omega (arith, and_mask 13 (e / 2 ^ 30))

  pub ent_gen_lem : ent_gen e ≡ e / 2 ^ 43 % 2 ^ 21
  unfolding ent_gen
  ent_gen_lem = omega (arith, and_mask 21 (e / 2 ^ 43 % 2 ^ 32))

-- What a packed entry of fields in range unpacks to.
pub record Unpacked (grain clen gen e : ℕ) : Type 0 where
  pub word : e < 2 ^ 64
  pub grain_back : ent_grain e ≡ grain
  pub clen_back : ent_clen e ≡ clen
  pub gen_back : ent_gen e ≡ gen % 2 ^ 21

-- An entry of a grain below 2^30 and a length below 2^13 fits a `uint64_t` and unpacks to the grain,
-- the length and the generation modulo 2^21.
pub ent_make-Unpacked :
    (grain clen gen : ℕ)
    → grain < 2 ^ 30
    → clen < 2 ^ 13
    → Unpacked grain clen gen (ent_make grain clen gen)
ent_make-Unpacked grain clen gen lg lc =
    let e = ent_make grain clen gen in
    let sum = ent_make-sum grain clen gen lg lc in
    record {
      word = omega (arith, sum);
      grain_back = omega (arith, sum, ent_grain_lem e);
      clen_back = omega (arith, sum, ent_clen_lem e);
      gen_back = omega (arith, sum, ent_gen_lem e);
    }

-- An entry that never was written has length 0.
pub ent_clen-zero : ent_clen 0 ≡ 0
ent_clen-zero = omega (arith, ent_clen_lem 0)
