-- ===== src/Heap/Bitmap.antt =====
-- The slot bitmap of an extent (nbd-vram.c, `g_extbm` and the bit operations of `ext_init`,
-- `ext_take` and `slot_free`). A `uint64_t` word is its 64 bits, as a function of the position,
-- and a bitmap is `EXT_BMWORDS` words.
pub mod Laws
use nbd_vram.Prelude.{
  ℕ, zero, suc, ◌+◌, ◌-◌, ◌*◌, ◌/◌, ◌%◌, Bool, true, false, ◌&&◌, Option, none, some, ltb, leb,
  ◌==◌, if◌then◌else◌, update,
}

-- `EXT_BMWORDS`
abbrev pub ext_bmwords : ℕ
ext_bmwords = 256

-- `EXT_GRAINS`, and the bits of a bitmap
abbrev pub ext_grains : ℕ
ext_grains = 16384

abbrev pub Word : Type 0
Word = ℕ → Bool

abbrev pub SlotMap : Type 0
SlotMap = ℕ → Word

-- the bit of a slot
abbrev pub bit : SlotMap → ℕ → Bool
bit bm slot = bm (slot / 64) (slot % 64)

-- `bm[w] |= 1ULL << b`
unfoldable pub set_bit : SlotMap → (w b : ℕ) → SlotMap
set_bit bm w b = update bm w (update (bm w) b true)

-- `bm[w] &= ~(1ULL << b)`
unfoldable pub clear_bit : SlotMap → (w b : ℕ) → SlotMap
clear_bit bm w b = update bm w (update (bm w) b false)

-- `~0ULL << rem`
unfoldable pub ones_from : ℕ → Word
ones_from rem b = leb rem b

all_set : ℕ → Word → Bool
all_set zero w = true
all_set (suc n) w = w n && all_set n w

-- `bm[w] == ~0ULL`
unfoldable pub is_full : Word → Bool
unfolding all_set
is_full w = all_set 64 w

lowest_clear : (n b : ℕ) → Word → ℕ
lowest_clear zero b w = b
lowest_clear (suc n) b w = let rest = lowest_clear n (b + 1) w in if w b then rest else b

-- `__builtin_ctzll(~bm[w])`, for a word that is not full
unfoldable pub ctz_not : Word → ℕ
unfolding lowest_clear
ctz_not w = lowest_clear 64 0 w

-- The bitmap that `ext_init` writes for `nslots` slots: zeros, then the rest of the first word that
-- has slots in part, then whole words, all ones.
unfoldable pub fresh_bitmap : ℕ → SlotMap
unfolding ones_from
fresh_bitmap nslots w =
    let full = nslots / 64 in
    let rem = nslots % 64 in
    if leb (full + (if rem == 0 then 0 else 1)) w
    then (λ b. true)
    else (if rem == 0 then (λ b. false) else if w == full then ones_from rem else (λ b. false))

-- The scan of `ext_take`: the first word that is not full, from the hint on, going round. `n` is the
-- number of rounds left, `i` the loop's counter.
unfoldable pub find_word : (n i hint : ℕ) → SlotMap → Option ℕ
unfolding is_full
find_word zero i hint bm = none
find_word (suc n) i hint bm =
    let rest = find_word n (i + 1) hint bm in
    let w = if leb ext_bmwords (hint + i) then hint + i - ext_bmwords else hint + i in
    if is_full (bm w) then rest else some w
