-- ===== src/Startup/Sizes.antt =====
-- The sizes that the daemon starts with.
use nbd_vram.Prelude.{
  ℕ, zero, suc, ◌+◌, ◌-◌, ◌*◌, ◌/◌, ◌%◌, ◌^◌, ◌≤◌, ◌<◌, ◌≡◌, inl, inr, refl, arith, Bool, true,
  false, Option, none, some, ltb, if◌then◌else◌, Bool-cases,
}
use nbd_vram.Heap.{cblk_size}
use nbd_vram.Codec.{CodecKind, plain, zstd, lz4}
use nbd_vram.Startup.{choose_disk_size, allocate, vram_bytes}

-- The bytes that are wished for: those of `VRAM_DISK_SIZE_MB`, or twice the VRAM if it is not set.
abbrev pub bytes_wished : (setting : Option ℕ) → (vram_size : ℕ) → ℕ
bytes_wished none vram_size = 2 * vram_size
bytes_wished (some mb) vram_size = mb * 2 ^ 20

-- A size that is not larger than what is wished for, nor, without a codec, than the VRAM.
abbrev pub May : (codec : CodecKind) → (wished vram_size : ℕ) → (n : ℕ) → Type 0
May codec wished vram_size n = (n ≤ wished) × (codec ≡ plain → n ≤ vram_size)

-- The disk is the largest size of whole blocks that may be, of one block at least; if there is none, the result
-- is nothing.
pub data IsDisk (codec : CodecKind) (wished vram_size : ℕ) : Option ℕ → Type 0 where
  too_small :
      ((n : ℕ) → May codec wished vram_size n → n < cblk_size) → IsDisk codec wished vram_size none
  sized :
      (size : ℕ)
      → cblk_size ≤ size
      → size / cblk_size * cblk_size ≡ size
      → May codec wished vram_size size
      → ((n : ℕ) → May codec wished vram_size n → n / cblk_size * cblk_size ≤ size)
      → IsDisk codec wished vram_size (some size)

-- The largest size that may be, rounded down.
rounded :
    (codec : CodecKind) (wished vram_size top : ℕ)
    → May codec wished vram_size top
    → ((n : ℕ) → May codec wished vram_size n → n ≤ top)
    → IsDisk codec wished vram_size (
        if ltb (top / cblk_size * cblk_size) cblk_size
        then none
        else some (top / cblk_size * cblk_size))
rounded codec wished vram_size top may most =
    elim (Bool-cases (ltb (top / cblk_size * cblk_size) cblk_size)) [
      | inl small ↦ rw small (too_small (λ n allowed. ground (arith, small, most n allowed)))
      | inr large ↦ rw large (
          sized (top / cblk_size * cblk_size) (ground (arith, large)) (omega arith)
            (omega (arith, may.0), λ e. omega (arith, may.1 e))
            (λ n allowed. omega (arith, most n allowed)))
    ]

-- What the loop of `main` that backs off comes to: a size that the driver granted, of whole MiB, 1 GiB
-- or more, below the first one asked by a multiple of 512 MiB; or nothing, when each of those was refused.
pub data Backed (grants : ℕ → Bool) (mb : ℕ) : Option ℕ → Type 0 where
  granted :
      (k m : ℕ)
      → m + 512 * k ≡ mb
      → 1024 ≤ m
      → grants (vram_bytes m) ≡ true
      → vram_bytes m ≡ m * 2 ^ 20
      → Backed grants mb (some (vram_bytes m))
  refused :
      ((k m : ℕ) → m + 512 * k ≡ mb → 1024 ≤ m → grants (vram_bytes m) ≡ false)
      → Backed grants mb none

asked_bytes :
    (setting : Option ℕ) (vram_size : ℕ)
    → bytes_wished setting vram_size < 2 ^ 64
    → elim setting [ none ↦ vram_size * 2 % 2 ^ 64 | some mb ↦ mb * 1024 * 1024 % 2 ^ 64 ]
      ≡ bytes_wished setting vram_size
asked_bytes none vram_size word = omega (arith, word)
asked_bytes (some mb) vram_size word = omega (arith, word)

-- With a wish below 2^64 bytes, `VRAM_DISK_SIZE_MB` or twice the VRAM: the disk is the largest number of whole
-- blocks, of one at least, that is not larger than the wish, nor, without a codec, than the VRAM; and the daemon
-- stops exactly if there is none.
pub choose_disk_size-IsDisk :
    (codec : CodecKind) (setting : Option ℕ) (vram_size : ℕ)
    → bytes_wished setting vram_size < 2 ^ 64
    → IsDisk codec
        (bytes_wished setting vram_size)
        vram_size
        (choose_disk_size codec setting vram_size)
unfolding choose_disk_size
choose_disk_size-IsDisk plain setting vram_size word =
    let w = bytes_wished setting vram_size in
    rw (asked_bytes setting vram_size word) (
      rounded plain w vram_size (if ltb vram_size w then vram_size else w)
        (ground arith, λ e. ground arith)
        (λ n allowed.
          let below : n ≤ vram_size = allowed.1 refl in ground (arith, allowed.0, below)))
choose_disk_size-IsDisk zstd setting vram_size word =
    let w = bytes_wished setting vram_size in
    rw (asked_bytes setting vram_size word)
      (rounded zstd w vram_size w (omega arith, λ e. absurd cc) (λ n allowed. allowed.0))
choose_disk_size-IsDisk lz4 setting vram_size word =
    let w = bytes_wished setting vram_size in
    rw (asked_bytes setting vram_size word)
      (rounded lz4 w vram_size w (omega arith, λ e. absurd cc) (λ n allowed. allowed.0))

Backed-later :
    {grants : ℕ → Bool} {mb : ℕ} {r : Option ℕ}
    → 1024 ≤ mb
    → grants (vram_bytes mb) ≡ false
    → Backed grants (mb - 512) r
    → Backed grants mb r
Backed-later big no_first (granted k m at enough said whole) =
    granted (k + 1) m (omega arith) enough said whole
Backed-later {grants} {mb} big no_first (refused none_granted) = refused later
  where
    later : (k m : ℕ) → m + 512 * k ≡ mb → 1024 ≤ m → grants (vram_bytes m) ≡ false
    later zero m at enough = let same : m ≡ mb = omega arith in rw same no_first
    later (suc k) m at enough = none_granted k m (omega arith) enough

-- The loop that backs off ends after at most `mb` rounds, with one of the sizes `mb`,
-- `mb` - 512 and so on, down to 1024 MiB, that the driver grants, or with nothing if it grants none
-- of them.
pub allocate-Backed :
    (fuel : ℕ) (grants : ℕ → Bool) (mb : ℕ)
    → mb ≤ fuel
    → mb * 2 ^ 20 < 2 ^ 64
    → Backed grants mb (allocate fuel grants mb)
unfolding allocate
allocate-Backed zero grants mb enough word = refused (λ k m at large. absurd (omega arith))
allocate-Backed (suc fuel) grants mb enough word = elim (Bool-cases (ltb mb 1024)) [
  | inl small ↦ rw small (refused (λ k m at large. absurd (ground arith)))
  | inr large ↦ elim (Bool-cases (grants (vram_bytes mb))) [
    | inl said ↦ rw (large, said) (granted 0 mb (omega arith) (ground arith) said (omega arith))
    | inr no_first ↦
        rw (large, no_first)
          (Backed-later (ground arith) no_first
            (allocate-Backed fuel grants (mb - 512) (ground arith) (omega arith)))
  ]
]
