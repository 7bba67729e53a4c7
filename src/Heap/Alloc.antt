-- ===== src/Heap/Alloc.antt =====
-- `slot_alloc` against the abstract view, a map of the slots in use.
use mathlib.Core.Path.{subst}
use nbd_vram.Prelude.{
  ℕ, ◌+◌, ◌*◌, ◌≤◌, ◌<◌, ◌≡◌, ◌≢◌, ◌⊎◌, inl, inr, refl, arith, true, false, ◌==◌, eq_cases,
  Bool-cases, sym, ◌∙◌,
}
use nbd_vram.Heap.{
  Heap, slot_alloc, choose_extent, ext_take, class_of, slot_none, alloc_grain, cblk_size,
}
use nbd_vram.Heap.Bitmap.{ext_grains}
use nbd_vram.Heap.Slots.{slot_fits}
use nbd_vram.Heap.Links.{ext_none}
use nbd_vram.Heap.Links.Linked.{head-ne-none}
use nbd_vram.Heap.IsValid.{IsValid, free-le-slots}
use nbd_vram.Heap.Regions.{size_at, size_at_counter}
use nbd_vram.Heap.Take.{ext_take_lem}
use nbd_vram.Heap.Choose.{HasRoom, Chosen, NoRoom, Choice, choose_extent_lem}
use nbd_vram.Heap.TakeSizes.{size_at-Took, was_free-Took}

-- A slot handed out: where, how large, and what of the heap changed.
pub record Allocated (h : Heap) (nbytes : ℕ) (r : ℕ × ℕ × Heap) : Type 0 where
  pub was_free : size_at h r.0 ≡ 0
  pub enough : nbytes ≤ r.1
  pub size : size_at r.2 r.0 * alloc_grain ≡ r.1
  pub others : (g : ℕ) → r.0 ≢ g → size_at r.2 g ≡ size_at h g
  pub inside : r.0 + size_at r.2 r.0 ≤ h.n_extents * ext_grains
  pub n_extents : r.2.n_extents ≡ h.n_extents
  pub bytes : r.2.slot_bytes ≡ h.slot_bytes + r.1

-- No slot: no extent is free, no extent of a class that would do has a free slot, and nothing is
-- changed.
pub record Refused (h : Heap) (nbytes : ℕ) (r : ℕ × ℕ × Heap) : Type 0 where
  pub result : r ≡ (slot_none, 0, h)
  pub all_used : (e : ℕ) → e < h.n_extents → (h.ext e).used ≡ true
  pub all_full :
      (e : ℕ) → e < h.n_extents → nbytes ≤ ((h.ext e).cls + 1) * alloc_grain → (h.ext e).nfree ≡ 0

-- the state after a take, with the byte counter brought up to date
settle : Heap → ℕ → Heap
settle h bytes = record h { slot_bytes = h.slot_bytes + bytes }

size_at-settle : (h : Heap) (bytes g : ℕ) → size_at (settle h bytes) g ≡ size_at h g
unfolding settle
size_at-settle h bytes g = size_at_counter h (h.slot_bytes + bytes) g

-- The class of a request is large enough for it, and no class below is.
class_of-enough :
    (nbytes : ℕ) → 0 < nbytes → nbytes ≤ cblk_size → nbytes ≤ (class_of nbytes + 1) * alloc_grain
class_of-enough nbytes pos le = omega arith

class_of-least :
    (nbytes cls : ℕ)
    → 0 < nbytes
    → nbytes ≤ cblk_size
    → nbytes ≤ (cls + 1) * alloc_grain
    → class_of nbytes ≤ cls
class_of-least nbytes cls pos le enough = omega arith

module _ {h h1 : Heap} {ei nbytes : ℕ} (valid : IsValid h) (pos : 0 < nbytes)
    (le : nbytes ≤ cblk_size) (room : HasRoom h1 (class_of nbytes) ei)
    (chosen : Chosen h ei h1) where
  abbrev taken : ℕ × Heap
  taken = ext_take h1 ei

  abbrev bytes : ℕ
  bytes = ((taken.1.ext ei).cls + 1) * alloc_grain

  settle-IsValid : IsValid (settle taken.1 bytes)
  unfolding settle
  settle-IsValid =
      let (slot, at, took, shaped, live) =
        ext_take_lem chosen.shaped ei room.below room.in_use room.some_free in
      record {
        shaped = record {
          room = shaped.room;
          linked = shaped.linked;
          extents = shaped.extents;
          used_sum = shaped.used_sum;
        };
        busy = λ e lt used. elim (eq_cases ei e) [
          | inl here ↦
              let is = chosen.shaped.extents ei room.below room.in_use in
              subst (λ x. (taken.1.ext x).nfree < (taken.1.ext x).nslots) here
                (omega (arith, took.fewer, took.nslots ei, free-le-slots is))
          | inr ne ↦
              let same = chosen.others e ne in
              omega (
                arith,
                valid.busy e (omega (arith, took.n_extents, chosen.n_extents))
                    (sym same.used ∙ sym (took.used e) ∙ used),
                same.nfree,
                same.nslots,
                took.others_free e ne,
                took.nslots e,
              )
        ];
        bytes = omega (
          arith,
          live,
          chosen.bytes,
          chosen.slot_bytes,
          took.slot_bytes,
          valid.bytes,
          took.cls ei,
        );
      }

  settle-Allocated : Allocated h nbytes (taken.0, bytes, settle taken.1 bytes)
  unfolding settle
  settle-Allocated =
      let (slot, at, took, shaped, live) =
        ext_take_lem chosen.shaped ei room.below room.in_use room.some_free in
      let is = chosen.shaped.extents ei room.below room.in_use in
      let now = size_at-Took took is room.below room.in_use in
      let c : ℕ = (h1.ext ei).cls + 1 in
      let here : size_at taken.1 taken.0 ≡ c = ground (arith, now taken.0, at) in
      record {
        was_free =
            sym (chosen.sizes taken.0) ∙ rw at (was_free-Took took is room.below room.in_use);
        enough = omega (arith, room.fits, took.cls ei, class_of-enough nbytes pos le);
        size = omega (arith, size_at-settle taken.1 bytes taken.0, here, took.cls ei);
        others = λ g ne. ground (arith, size_at-settle taken.1 bytes g, now g, at, chosen.sizes g);
        inside = omega (
          arith,
          size_at-settle taken.1 bytes taken.0,
          here,
          at,
          room.below,
          chosen.n_extents,
          slot_fits (h1.ext ei).cls is.cls_in slot (omega (arith, took.inside, is.slots)),
        );
        n_extents = took.n_extents ∙ chosen.n_extents;
        bytes = omega (arith, took.slot_bytes, chosen.slot_bytes);
      }

  grain-ne-none : (taken.0 == slot_none) ≡ false
  grain-ne-none =
      let all = settle-Allocated in ground (arith, all.inside, valid.shaped.room, here_pos)
    where
      here_pos : 0 < size_at (settle taken.1 bytes) taken.0
      here_pos = omega (arith, settle-Allocated.size)

-- When a request is refused, the heap has no slot for it.
NoRoom-Refused :
    {h : Heap} (nbytes : ℕ)
    → IsValid h
    → 0 < nbytes
    → nbytes ≤ cblk_size
    → NoRoom h (class_of nbytes)
    → Refused h nbytes (slot_none, 0, h)
NoRoom-Refused {h} nbytes valid pos le none_left =
    let linked = valid.shaped.linked in
    let small : h.n_extents ≤ ext_none = omega (arith, valid.shaped.room) in
    record {
      result = refl;
      all_used = λ e lt. elim (Bool-cases (h.ext e).used) [
        | inl on ↦ on
        | inr off ↦ absurd (ground (arith, head-ne-none linked small e, none_left.no_free))
      ];
      all_full = λ e lt enough. elim (Bool-cases (h.ext e).used) [
        | inl on ↦
            let is = valid.shaped.extents e lt on in
            ground (
              arith,
              head-ne-none linked small e,
              none_left.no_partial (h.ext e).cls
                  (class_of-least nbytes (h.ext e).cls pos le enough),
              is.cls_in,
            )
        | inr off ↦ absurd (ground (arith, head-ne-none linked small e, none_left.no_free))
      ];
    }

choice_lem :
    {h : Heap} (nbytes : ℕ) (p : ℕ × Heap)
    → choose_extent h (class_of nbytes) ≡ p
    → IsValid h
    → 0 < nbytes
    → nbytes ≤ cblk_size
    → Choice h (class_of nbytes) p
    → IsValid (slot_alloc h nbytes).2
      × (Allocated h nbytes (slot_alloc h nbytes) ⊎ Refused h nbytes (slot_alloc h nbytes))
unfolding slot_alloc settle
choice_lem nbytes (ei, h1) e valid pos le (inl (missed, same, none_left)) =
    let refused = NoRoom-Refused nbytes valid pos le none_left in
    rw (slot_alloc, e, missed, same) (valid, inr refused)
choice_lem nbytes (ei, h1) e valid pos le (inr (room, chosen)) =
    let none : (ei == ext_none) ≡ false = ground (arith, room.below, chosen.shaped.room) in
    let found = grain-ne-none valid pos le room chosen in
    rw (slot_alloc, e, none, found)
      (settle-IsValid valid pos le room chosen, inl (settle-Allocated valid pos le room chosen))

-- For a request of 1 to 4096 bytes `slot_alloc` keeps the invariant, and either hands out a slot
-- that was free, is large enough, lies in the heap and changes no other slot, or refuses and changes
-- nothing, and then every extent is in use and none whose class would do has a free slot.
pub slot_alloc_lem :
    (h : Heap) (nbytes : ℕ)
    → IsValid h
    → 0 < nbytes
    → nbytes ≤ cblk_size
    → IsValid (slot_alloc h nbytes).2
      × (Allocated h nbytes (slot_alloc h nbytes) ⊎ Refused h nbytes (slot_alloc h nbytes))
slot_alloc_lem h nbytes valid pos le =
    choice_lem nbytes (choose_extent h (class_of nbytes)) refl valid pos le
      (choose_extent_lem (class_of nbytes) valid.shaped (omega arith))
