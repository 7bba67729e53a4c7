-- ===== src/Heap/IsValid.antt =====
-- The invariant of the allocator.
use nbd_vram.Prelude.{
  ℕ, ◌+◌, ◌-◌, ◌*◌, ◌^◌, ◌≤◌, ◌<◌, ◌≡◌, true, arith, ap, ltb, ◌==◌, if◌then◌else◌, total,
}
use nbd_vram.Heap.{Heap, slots_of, alloc_grain}
use nbd_vram.Heap.Bitmap.{SlotMap, ext_bmwords, ext_grains, bit}
use nbd_vram.Heap.Bitmap.Laws.{clear_count, clear_count-le-nslots}
use nbd_vram.Heap.Links.{Extent}
use nbd_vram.Heap.Links.Same.{Same}
use nbd_vram.Heap.Links.Linked.{Linked, nowhere}

-- the number of the free list
abbrev pub free_list : ℕ
free_list = 64

-- The list that an extent belongs on: the free list, its class's partial list, or none if full.
abbrev pub home_of : Extent → ℕ
home_of x = if x.used then (if x.nfree == 0 then nowhere else x.cls) else free_list

abbrev pub home : Heap → ℕ → ℕ
home h e = if ltb e h.n_extents then home_of (h.ext e) else nowhere

abbrev pub heads : Heap → ℕ → ℕ
heads h k = if k == free_list then h.free_head else h.class_head k

-- The counters of an extent in use agree with its bitmap.
pub record IsExtent (x : Extent) (bm : SlotMap) : Type 0 where
  pub cls_in : x.cls < 64
  pub slots : x.nslots ≡ slots_of x.cls
  pub count : x.nfree ≡ clear_count bm
  pub behind : (slot : ℕ) → x.nslots ≤ slot → slot < ext_grains → bit bm slot ≡ true
  pub hint_in : x.hint < ext_bmwords

pub free-le-slots : {x : Extent} {bm : SlotMap} → IsExtent x bm → x.nfree ≤ x.nslots
free-le-slots {x} {bm} is = omega (arith, is.count, clear_count-le-nslots bm x.nslots is.behind)

pub IsExtent-congr : {x y : Extent} {bm : SlotMap} → Same x y → IsExtent y bm → IsExtent x bm
IsExtent-congr same is = record {
  cls_in = omega (arith, same.cls, is.cls_in);
  slots = omega (arith, same.nslots, is.slots, ap slots_of same.cls);
  count = omega (arith, same.nfree, is.count);
  behind = λ slot le lt. is.behind slot (omega (arith, same.nslots)) lt;
  hint_in = omega (arith, same.hint, is.hint_in);
}

abbrev pub used_weight : Extent → ℕ
used_weight x = if x.used then 1 else 0

-- the bytes of an extent's slots in use
abbrev pub bytes_weight : Extent → ℕ
bytes_weight x = if x.used then (x.nslots - x.nfree) * ((x.cls + 1) * alloc_grain) else 0

abbrev pub live_bytes : Heap → ℕ
live_bytes h = total bytes_weight h.n_extents h.ext

-- What holds also between the steps of an operation.
pub record IsShaped (h : Heap) : Type 0 where
  pub room : h.n_extents * ext_grains ≤ 2 ^ 30
  pub linked : Linked h.n_extents h.ext (heads h) (home h)
  pub extents : (e : ℕ) → e < h.n_extents → (h.ext e).used ≡ true → IsExtent (h.ext e) (h.extbm e)
  pub used_sum : h.extents_used ≡ total used_weight h.n_extents h.ext

-- What holds between operations: no extent in use is empty, and the byte counter is exact.
pub record IsValid (h : Heap) : Type 0 where
  pub shaped : IsShaped h
  pub busy : (e : ℕ) → e < h.n_extents → (h.ext e).used ≡ true → (h.ext e).nfree < (h.ext e).nslots
  pub bytes : h.slot_bytes ≡ live_bytes h
