-- ===== src/Heap/Regions.antt =====
-- The abstract view of the allocator: a map from grains to the size, in grains, of the slot that is
-- handed out there.
use native.Mathlib.Nat.{mul-le-mul_right}
use nbd_vram.Prelude.{
  ℕ, suc, ◌+◌, ◌*◌, ◌/◌, ◌%◌, ◌≤◌, ◌<◌, ◌≡◌, ◌≢◌, ◌⊎◌, inl, inr, refl, arith, true, false, ltb,
  ◌==◌, ◌&&◌, if◌then◌else◌, eq_cases, Bool-cases, ltb→lt, ap, sym, ◌∙◌,
}
use nbd_vram.Heap.{Heap}
use nbd_vram.Heap.Bitmap.{SlotMap, bit, ext_grains}
use nbd_vram.Heap.Slots.{slot_fits}
use nbd_vram.Heap.Links.{Extent}
use nbd_vram.Heap.Links.Same.{Same}
use nbd_vram.Heap.IsValid.{IsShaped}

-- The slot that starts at offset `off` of an extent and is in use: its grains, 0 if there is none.
abbrev pub size_in : Extent → SlotMap → (off : ℕ) → ℕ
size_in x bm off =
    if x.used
      && ((off % (x.cls + 1) == 0)
          && (ltb (off / (x.cls + 1)) x.nslots && bit bm (off / (x.cls + 1))))
    then x.cls + 1
    else 0

unfoldable pub size_at : Heap → (grain : ℕ) → ℕ
size_at h grain =
    if ltb (grain / ext_grains) h.n_extents
    then size_in (h.ext (grain / ext_grains)) (h.extbm (grain / ext_grains)) (grain % ext_grains)
    else 0

-- What a live slot is.
pub record IsLive (h : Heap) (grain : ℕ) : Type 0 where
  pub below : grain / ext_grains < h.n_extents
  pub used : (h.ext (grain / ext_grains)).used ≡ true
  pub aligned : grain % ext_grains % ((h.ext (grain / ext_grains)).cls + 1) ≡ 0
  pub inside :
      grain % ext_grains / ((h.ext (grain / ext_grains)).cls + 1)
      < (h.ext (grain / ext_grains)).nslots
  pub set :
      bit
        (h.extbm (grain / ext_grains))
        (grain % ext_grains / ((h.ext (grain / ext_grains)).cls + 1))
      ≡ true
  pub size : size_at h grain ≡ (h.ext (grain / ext_grains)).cls + 1

pub size_at-IsLive : (h : Heap) (grain : ℕ) → 0 < size_at h grain → IsLive h grain
unfolding size_at
size_at-IsLive h grain live = ground arith

module _ {h : Heap} (shaped : IsShaped h) where
  -- A live slot ends inside its extent.
  pub live_fits : (g : ℕ) → 0 < size_at h g → g % ext_grains + size_at h g ≤ ext_grains
  live_fits g live =
      let is = size_at-IsLive h g live in
      let ext = shaped.extents (g / ext_grains) is.below is.used in
      let cls = (h.ext (g / ext_grains)).cls in
      omega (
        arith,
        is.size,
        is.aligned,
        slot_fits cls ext.cls_in (g % ext_grains / (cls + 1)) (omega (arith, is.inside, ext.slots)),
      )

-- Two multiples of a step are equal or a step apart.
apart : (c m n : ℕ) → m ≢ n → (m * c + c ≤ n * c) ⊎ (n * c + c ≤ m * c)
apart c m n ne = elim (Bool-cases (ltb m n)) [
  | inl lt ↦
      let step : suc m * c ≤ n * c = mul-le-mul_right c (ltb→lt m n lt) in inl (omega (arith, step))
  | inr ge ↦
      let lt : n < m = ground arith in
      let step : suc n * c ≤ m * c = mul-le-mul_right c lt in inr (omega (arith, step))
]

-- No two live slots overlap: of two at different grains, one ends before the other begins.
pub live-disjoint :
    {h : Heap} (g k : ℕ)
    → IsShaped h
    → 0 < size_at h g
    → 0 < size_at h k
    → g ≢ k
    → (g + size_at h g ≤ k) ⊎ (k + size_at h k ≤ g)
live-disjoint {h} g k shaped live_g live_k ne =
    let is_g = size_at-IsLive h g live_g in
    let is_k = size_at-IsLive h k live_k in
    elim (eq_cases (g / ext_grains) (k / ext_grains)) [
      | inl same ↦
          let c = (h.ext (g / ext_grains)).cls + 1 in
          let aligned_k : k % ext_grains % c ≡ 0 = rw (← same) at (is_k.aligned) in
          let size_k : size_at h k ≡ c = is_k.size ∙ ap (λ e. (h.ext e).cls + 1) (sym same) in
          let m : ℕ = g % ext_grains / c in
          let n : ℕ = k % ext_grains / c in
          let at_g : g ≡ g / ext_grains * ext_grains + m * c = omega (arith, is_g.aligned) in
          let at_k : k ≡ g / ext_grains * ext_grains + n * c = omega (arith, aligned_k, same) in
          let ne' : m ≢ n =
            λ e. ne (at_g ∙ ap (λ t. g / ext_grains * ext_grains + t * c) e ∙ sym at_k) in
          elim (apart c m n ne') [
            | inl before ↦ inl (omega (arith, before, is_g.size, at_g, at_k))
            | inr after ↦ inr (omega (arith, after, size_k, at_g, at_k))
          ]
      | inr other ↦ omega (arith, live_fits shaped g live_g, live_fits shaped k live_k)
    ]

-- The slots in use depend on the counters and bitmaps of the extents only.
pub size_at_congr :
    (h k : Heap) (g : ℕ)
    → k.n_extents ≡ h.n_extents
    → Same (k.ext (g / ext_grains)) (h.ext (g / ext_grains))
    → k.extbm (g / ext_grains) ≡ h.extbm (g / ext_grains)
    → size_at k g ≡ size_at h g
unfolding size_at
size_at_congr h k g count same bits = rw (count, bits, same.used, same.cls, same.nslots)

-- an extent that is not in use holds no slot
pub size_at_unused : (h : Heap) (g : ℕ) → (h.ext (g / ext_grains)).used ≡ false → size_at h g ≡ 0
unfolding size_at
size_at_unused h g off = ground arith

-- nor does one whose slots are all free
pub size_at_clear :
    (h : Heap) (g : ℕ)
    → ((slot : ℕ)
        → slot < (h.ext (g / ext_grains)).nslots
        → bit (h.extbm (g / ext_grains)) slot ≡ false)
    → size_at h g ≡ 0
unfolding size_at
size_at_clear h g clear =
    let e = h.ext (g / ext_grains) in ground (arith, clear (g % ext_grains / (e.cls + 1)))

-- The byte counter does not matter.
pub size_at_counter : (h : Heap) (n g : ℕ) → size_at (record h { slot_bytes = n }) g ≡ size_at h g
unfolding size_at
size_at_counter h n g = refl
