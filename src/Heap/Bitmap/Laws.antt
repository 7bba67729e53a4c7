-- ===== src/Heap/Bitmap/Laws.antt =====
-- What the bitmap operations do to single slots, and how many slots are clear.
use nbd_vram.Prelude.{
  ℕ, zero, suc, ◌+◌, ◌-◌, ◌*◌, ◌/◌, ◌%◌, ◌≤◌, ◌<◌, ◌≡◌, ◌≢◌, inl, inr, refl, arith, Bool, true,
  false, none, some, leb, ◌==◌, if◌then◌else◌, Bool-cases, total, total-change, total-zero,
  total-le_one, le-total, eq_cases,
}
use mathlib.Core.Path.{subst₂, ap}
use mathlib.Core.Option.{some-injective}
use nbd_vram.Heap.Bitmap.{
  Word, SlotMap, bit, set_bit, clear_bit, all_set, is_full, lowest_clear, ctz_not, fresh_bitmap,
  find_word, ext_bmwords, ext_grains,
}

pub bit-set_bit :
    (bm : SlotMap) (w b slot : ℕ)
    → b < 64
    → bit (set_bit bm w b) slot ≡ (if w * 64 + b == slot then true else bit bm slot)
unfolding set_bit
bit-set_bit bm w b slot small = ground arith

pub bit-clear_bit :
    (bm : SlotMap) (freed slot : ℕ)
    → bit (clear_bit bm (freed / 64) (freed % 64)) slot
      ≡ (if freed == slot then false else bit bm slot)
unfolding clear_bit
bit-clear_bit bm freed slot = ground arith

-- `ext_init` leaves the slots below `nslots` clear and sets the bits behind them.
pub bit-fresh_bitmap : (nslots slot : ℕ) → bit (fresh_bitmap nslots) slot ≡ leb nslots slot
unfolding fresh_bitmap
bit-fresh_bitmap nslots slot = ground arith

all_set-false : (n : ℕ) (w : Word) → all_set n w ≡ false → (b : ℕ) × (b < n) × (w b ≡ false)
unfolding all_set
all_set-false zero w h = absurd (cc)
all_set-false (suc n) w h = elim (Bool-cases (w n)) [
  | inl on ↦ let (b, lt, off) = all_set-false n w (ground arith) in (b, omega arith, off)
  | inr off ↦ (n, omega arith, off)
]

all_set-true : (n : ℕ) (w : Word) (b : ℕ) → all_set n w ≡ true → b < n → w b ≡ true
unfolding all_set
all_set-true zero w b h lt = absurd (omega arith)
all_set-true (suc n) w b h lt = ground (arith, all_set-true n w b)

lowest_clear_lem :
    (n b c : ℕ) (w : Word)
    → b ≤ c
    → c < b + n
    → w c ≡ false
    → (lowest_clear n b w < b + n) × (w (lowest_clear n b w) ≡ false)
unfolding lowest_clear
lowest_clear_lem zero b c w le lt off = absurd (omega arith)
lowest_clear_lem (suc n) b c w le lt off = elim (Bool-cases (w b)) [
  | inl on ↦ let ne : b ≢ c = λ e. ground arith in ground (arith, lowest_clear_lem n (b + 1) c w)
  | inr here ↦ ground arith
]

-- In a word that is not full `__builtin_ctzll` of the complement finds a clear bit.
pub ctz_not_lem : (w : Word) → is_full w ≡ false → (ctz_not w < 64) × (w (ctz_not w) ≡ false)
unfolding is_full ctz_not
ctz_not_lem w h =
    let (b, lt, off) = all_set-false 64 w h in
    lowest_clear_lem 64 0 b w (omega arith) (omega arith) off

abbrev wrapped : ℕ → ℕ
wrapped i = if leb ext_bmwords i then i - ext_bmwords else i

pub find_word-some :
    (n i hint w : ℕ) (bm : SlotMap)
    → find_word n i hint bm ≡ some w
    → hint < ext_bmwords
    → i + n ≤ ext_bmwords
    → (w < ext_bmwords) × (is_full (bm w) ≡ false)
unfolding find_word
find_word-some zero i hint w bm found small bound = absurd (cc)
find_word-some (suc n) i hint w bm found small bound =
    elim (Bool-cases (is_full (bm (wrapped (hint + i))))) [
      | inl full ↦ find_word-some n (i + 1) hint w bm (rw full at found) small (omega arith)
      | inr free ↦
          let here : wrapped (hint + i) ≡ w = some-injective _ _ (rw free at found) in
          (rw (← here) (ground arith), rw (← here) free)
    ]

find_word-none :
    (n i hint j : ℕ) (bm : SlotMap)
    → find_word n i hint bm ≡ none
    → i ≤ j
    → j < i + n
    → is_full (bm (wrapped (hint + j))) ≡ true
unfolding find_word
find_word-none zero i hint j bm missed le lt = absurd (omega arith)
find_word-none (suc n) i hint j bm missed le lt = elim (eq_cases i j) [
  | inl e ↦ rw (← e) (ground arith)
  | inr ne ↦ find_word-none n (i + 1) hint j bm (ground arith) (omega arith) (omega arith)
]

-- weight of a slot in the count of free ones
abbrev pub clear_weight : Bool → ℕ
clear_weight b = if b then 0 else 1

-- The number of clear bits: the free slots.
pub clear_count : SlotMap → ℕ
clear_count bm = total clear_weight ext_grains (bit bm)

-- The scan of `ext_take` goes over every word: it fails only when no slot is free.
pub find_word-clear_count :
    (hint : ℕ) (bm : SlotMap)
    → hint < ext_bmwords
    → find_word ext_bmwords 0 hint bm ≡ none
    → clear_count bm ≡ 0
unfolding clear_count is_full
find_word-clear_count hint bm small missed = total-zero clear_weight ext_grains (bit bm) λ slot lt.
    let w : ℕ = slot / 64 in
    let j : ℕ = if leb hint w then w - hint else w + ext_bmwords - hint in
    let in_range : j < ext_bmwords = ground arith in
    let here : wrapped (hint + j) ≡ w = ground arith in
    let full : is_full (bm (wrapped (hint + j))) ≡ true =
      find_word-none ext_bmwords 0 hint j bm missed (omega arith) in_range in
    let on : bit bm slot ≡ true =
      all_set-true 64 (bm w) (slot % 64) (rw here at full) (omega arith) in
    rw on refl

pub clear_count-set_bit :
    (bm : SlotMap) (w b : ℕ)
    → w < ext_bmwords
    → b < 64
    → bm w b ≡ false
    → clear_count (set_bit bm w b) + 1 ≡ clear_count bm
unfolding clear_count
clear_count-set_bit bm w b lw lb off =
    let slot : ℕ = w * 64 + b in
    let there : bit bm slot ≡ false =
      subst₂ (λ x y. bm x y ≡ false) (omega arith) (omega arith) off in
    let on : bit (set_bit bm w b) slot ≡ true = ground (arith, bit-set_bit bm w b slot lb) in
    omega (
      arith,
      total-change clear_weight ext_grains (bit bm) (bit (set_bit bm w b)) slot
          (λ j ne. ground (arith, bit-set_bit bm w b j lb)) (omega arith),
      ap clear_weight there,
      ap clear_weight on,
    )

pub clear_count-clear_bit :
    (bm : SlotMap) (slot : ℕ)
    → slot < ext_grains
    → bit bm slot ≡ true
    → clear_count (clear_bit bm (slot / 64) (slot % 64)) ≡ clear_count bm + 1
unfolding clear_count
clear_count-clear_bit bm slot lt on =
    let bm' = clear_bit bm (slot / 64) (slot % 64) in
    let off : bit bm' slot ≡ false = ground (arith, bit-clear_bit bm slot slot) in
    omega (
      arith,
      total-change clear_weight ext_grains (bit bm) (bit bm') slot
          (λ j ne. ground (arith, bit-clear_bit bm slot j)) (omega arith),
      ap clear_weight on,
      ap clear_weight off,
    )

-- a bitmap with a clear slot has a free one
pub clear_count-pos :
    (bm : SlotMap) (slot : ℕ) → slot < ext_grains → bit bm slot ≡ false → 0 < clear_count bm
unfolding clear_count
clear_count-pos bm slot lt off =
    omega (arith, le-total clear_weight ext_grains (bit bm) slot lt, ap clear_weight off)

count_from :
    (n nslots : ℕ) (f : ℕ → Bool)
    → ((slot : ℕ) → f slot ≡ leb nslots slot)
    → nslots ≤ n
    → total clear_weight n f ≡ nslots
unfolding total
count_from zero nslots f h le = omega arith
count_from (suc n) nslots f h le = elim (eq_cases nslots (suc n)) [
  | inl e ↦ rw e (below (suc n) (λ slot lt. ground (arith, h slot)))
  | inr ne ↦ ground (arith, count_from n nslots f h, h n)
]
  where
    below : (m : ℕ) → ((slot : ℕ) → slot < m → f slot ≡ false) → total clear_weight m f ≡ m
    below zero off = refl
    below (suc m) off = ground (arith, below m (λ slot lt. off slot (omega arith)), off m)

-- A fresh extent has all its slots free.
pub clear_count-fresh_bitmap :
    (nslots : ℕ) → nslots ≤ ext_grains → clear_count (fresh_bitmap nslots) ≡ nslots
unfolding clear_count
clear_count-fresh_bitmap nslots le =
    count_from ext_grains nslots (bit (fresh_bitmap nslots)) (bit-fresh_bitmap nslots) le

pub clear_count-le : (bm : SlotMap) → clear_count bm ≤ ext_grains
unfolding clear_count
clear_count-le bm = total-le_one clear_weight (λ b. ground arith) ext_grains (bit bm)

count_le :
    (n m : ℕ) (f : ℕ → Bool)
    → ((slot : ℕ) → m ≤ slot → slot < n → f slot ≡ true)
    → total clear_weight n f ≤ m
unfolding total
count_le zero m f behind = omega arith
count_le (suc n) m f behind = elim (Bool-cases (leb m n)) [
  | inl over ↦ ground (arith, count_le n m f (λ slot le lt. behind slot le (omega arith)), behind n)
  | inr short ↦ ground (arith, total-le_one clear_weight (λ b. ground arith) n f)
]

-- Only the slots before the end of the extent can be free.
pub clear_count-le-nslots :
    (bm : SlotMap) (nslots : ℕ)
    → ((slot : ℕ) → nslots ≤ slot → slot < ext_grains → bit bm slot ≡ true)
    → clear_count bm ≤ nslots
unfolding clear_count
clear_count-le-nslots bm nslots = count_le ext_grains nslots (bit bm)

-- If the free slots are as many as the slots, every slot is free.
pub clear_of_clear_count :
    (bm : SlotMap) (nslots slot : ℕ)
    → nslots ≤ ext_grains
    → ((s : ℕ) → nslots ≤ s → s < ext_grains → bit bm s ≡ true)
    → clear_count bm ≡ nslots
    → slot < nslots
    → bit bm slot ≡ false
clear_of_clear_count bm nslots slot small behind count lt = elim (Bool-cases (bit bm slot)) [
  | inl on ↦
      let bm' = clear_bit bm (slot / 64) (slot % 64) in
      absurd (
        omega (
          arith,
          clear_count-clear_bit bm slot (omega arith) on,
          clear_count-le-nslots bm' nslots
              (λ s le below. ground (arith, bit-clear_bit bm slot s, behind s)),
          count,
        ))
  | inr off ↦ off
]
