-- ===== src/Heap/History.antt =====
-- Any sequence of allocations and frees: a new slot overlaps none that is in use.
use nbd_vram.Prelude.{ℕ, ◌+◌, ◌*◌, ◌≤◌, ◌<◌, ◌⊎◌}
use nbd_vram.Heap.{Heap, heap_init, slot_alloc, slot_free, cblk_size, alloc_grain}
use nbd_vram.Heap.IsValid.{IsValid}
use nbd_vram.Heap.Regions.{size_at}

-- A heap that a start and any allocations and frees lead to. Only slots in use are freed.
pub data Used (vram_size : ℕ) : Heap → Type 0 where
  fresh : Used vram_size (heap_init vram_size)
  gave :
      {h : Heap}
      → Used vram_size h
      → (nbytes : ℕ) → 0 < nbytes
      → nbytes ≤ cblk_size
      → Used vram_size (slot_alloc h nbytes).2
  took :
      {h : Heap}
      → Used vram_size h
      → (grain : ℕ) → 0 < size_at h grain
      → Used vram_size (slot_free h grain).1

-- The addresses in the VRAM of a slot of `len` bytes at a grain, beside those of the slots in use.
pub record Apart (vram_size : ℕ) (h : Heap) (grain len : ℕ) : Type 0 where
  pub inside : grain * alloc_grain + len ≤ vram_size
  pub disjoint :
      (g : ℕ)
      → 0 < size_at h g
      → ((g + size_at h g) * alloc_grain ≤ grain * alloc_grain)
        ⊎ (grain * alloc_grain + len ≤ g * alloc_grain)
