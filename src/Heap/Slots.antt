-- ===== src/Heap/Slots.antt =====
-- How many slots of a class fit in an extent.
use nbd_vram.Prelude.{ℕ, suc, ◌+◌, ◌*◌, ◌/◌, ◌≤◌, ◌<◌, ◌≡◌, arith}
use native.Mathlib.Nat.{div-mul-le_self, mul-le-mul_right}
use nbd_vram.Heap.{slots_of, extent_size, alloc_grain}
use nbd_vram.Heap.Bitmap.{ext_grains}

module _ (cls : ℕ) (cls_in : cls < 64) where
  unwrapped : slots_of cls ≡ extent_size / ((cls + 1) * alloc_grain)
  unwrapped = omega arith

  pub slots_of-mul-le : slots_of cls * (cls + 1) ≤ ext_grains
  slots_of-mul-le =
      rw unwrapped (omega (arith, div-mul-le_self extent_size ((cls + 1) * alloc_grain)))

  pub slots_of-le : slots_of cls ≤ ext_grains
  slots_of-le = omega arith

  pub slots_of-pos : 0 < slots_of cls
  slots_of-pos = grind arith

  -- Every slot lies inside its extent.
  pub slot_fits : (slot : ℕ) → slot < slots_of cls → slot * (cls + 1) + (cls + 1) ≤ ext_grains
  slot_fits slot lt =
      let step : suc slot * (cls + 1) ≤ slots_of cls * (cls + 1) = mul-le-mul_right (cls + 1) lt in
      omega (arith, step, slots_of-mul-le)
