-- ===== src/Heap/TakeSizes.antt =====
-- `ext_take` in the abstract view: which slots are in use after it.
use native.Mathlib.Nat.{mod-add-div', mul-div_cancel, mul-mod_left}
use nbd_vram.Prelude.{
  ℕ, ◌+◌, ◌*◌, ◌/◌, ◌%◌, ◌≤◌, ◌<◌, ◌≡◌, inl, inr, arith, true, ltb, ◌==◌, if◌then◌else◌, eq_cases,
  ap,
}
use nbd_vram.Heap.{Heap}
use nbd_vram.Heap.Bitmap.{ext_grains}
use nbd_vram.Heap.Slots.{slot_fits}
use nbd_vram.Heap.IsValid.{IsExtent}
use nbd_vram.Heap.Regions.{size_at}
use nbd_vram.Heap.Take.{Took}

-- A grain of the extent at a multiple of the slot size is that slot.
pub same_slot : (off slot c : ℕ) → off % c ≡ 0 → off / c ≡ slot → off ≡ slot * c
same_slot off slot c aligned quot = omega (arith, mod-add-div' off c, ap (λ t. t * c) quot)

pub slot_same : (off slot c : ℕ) → 0 < c → off ≡ slot * c → (off % c ≡ 0) × (off / c ≡ slot)
slot_same off slot c pos e = (rw e (mul-mod_left slot c), rw e (mul-div_cancel slot pos))

module _ {h h' : Heap} {ei slot : ℕ} (took : Took h ei slot h')
    (is : IsExtent (h.ext ei) (h.extbm ei)) (below : ei < h.n_extents)
    (in_use : (h.ext ei).used ≡ true) where
  abbrev c : ℕ
  c = (h.ext ei).cls + 1

  fits : slot * c + c ≤ ext_grains
  fits = slot_fits (h.ext ei).cls is.cls_in slot (omega (arith, took.inside, is.slots))

  -- After `ext_take` its slot is in use, and the others are as before.
  pub size_at-Took :
      (g : ℕ) → size_at h' g ≡ (if ei * ext_grains + slot * c == g then c else size_at h g)
  unfolding size_at
  size_at-Took g = elim (eq_cases ei (g / ext_grains)) [
    | inl here ↦
        let off : ℕ = g % ext_grains in
        let inside : ltb ei h.n_extents ≡ true = ground arith in
        rw
          (
            size_at,
            took.n_extents,
            ← here,
            inside,
            took.used ei,
            took.cls ei,
            took.nslots ei,
            in_use,
          )
          (ground (
            arith,
            fits,
            took.inside,
            took.was_clear,
            took.now_set ei (off / c),
            same_slot off slot c,
            slot_same off slot c,
          ))
    | inr other ↦ ground (
      arith,
      fits,
      took.n_extents,
      took.now_set (g / ext_grains) (g % ext_grains / ((h.ext (g / ext_grains)).cls + 1)),
      took.cls (g / ext_grains),
      took.used (g / ext_grains),
      took.nslots (g / ext_grains),
    )
  ]

  -- The slot was free.
  pub was_free-Took : size_at h (ei * ext_grains + slot * c) ≡ 0
  unfolding size_at
  was_free-Took =
      let g : ℕ = ei * ext_grains + slot * c in
      let at : g / ext_grains ≡ ei = omega (arith, fits) in
      let off : g % ext_grains ≡ slot * c = omega (arith, fits) in
      let quot : slot * c / c ≡ slot = mul-div_cancel slot (omega arith) in
      rw (size_at, at, off, quot, took.was_clear) (ground arith)
