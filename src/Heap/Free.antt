-- ===== src/Heap/Free.antt =====
-- `slot_free` against the abstract view, a map of the slots in use.
use mathlib.Core.Path.{subst}
use nbd_vram.Prelude.{
  ℕ, ◌+◌, ◌-◌, ◌*◌, ◌/◌, ◌%◌, ◌<◌, ◌≡◌, ◌≢◌, inl, inr, refl, arith, true, ltb, ◌==◌, if◌then◌else◌,
  eq_cases, Bool-cases, ap, sym, ◌∙◌,
}
use nbd_vram.Heap.{Heap, slot_free, return_slot, recycle_extent, alloc_grain}
use nbd_vram.Heap.Bitmap.{ext_grains}
use nbd_vram.Heap.IsValid.{IsShaped, IsValid, live_bytes, free-le-slots}
use nbd_vram.Heap.Regions.{size_at, IsLive, size_at-IsLive, size_at_counter}
use nbd_vram.Heap.TakeSizes.{same_slot}
use nbd_vram.Heap.Give.{Gave, give-Gave, give-IsShaped, give-bytes}
use nbd_vram.Heap.Recycle.{
  recycle-IsShaped, recycle-same, recycle-others, recycle-bytes, recycle-sizes, gone_now,
}

-- A slot given back.
pub record Freed (h : Heap) (grain : ℕ) (r : ℕ × Heap) : Type 0 where
  pub valid : IsValid r.1
  pub bytes : r.0 ≡ size_at h grain * alloc_grain
  pub gone : size_at r.1 grain ≡ 0
  pub others : (g : ℕ) → grain ≢ g → size_at r.1 g ≡ size_at h g
  pub n_extents : r.1.n_extents ≡ h.n_extents
  pub counted : r.1.slot_bytes + r.0 ≡ h.slot_bytes

module _ {h : Heap} (valid : IsValid h) (grain : ℕ) (live : 0 < size_at h grain) where
  abbrev ei : ℕ
  ei = grain / ext_grains

  abbrev c : ℕ
  c = (h.ext ei).cls + 1

  abbrev slot : ℕ
  slot = grain % ext_grains / c

  abbrev h1 : Heap
  h1 = return_slot h ei slot

  is : IsLive h grain
  is = size_at-IsLive h grain live

  gave : Gave h ei slot h1
  gave = give-Gave valid.shaped ei slot is.below is.used is.inside is.set

  shaped1 : IsShaped h1
  shaped1 = give-IsShaped valid.shaped ei slot is.below is.used is.inside is.set

  bytes1 : live_bytes h1 + c * alloc_grain ≡ live_bytes h
  bytes1 = give-bytes valid.shaped ei slot is.below is.used is.inside is.set

  -- the slot is gone after the first half, and the others are as before
  sizes1 : (g : ℕ) → size_at h1 g ≡ (if grain == g then 0 else size_at h g)
  unfolding size_at
  sizes1 g = elim (eq_cases ei (g / ext_grains)) [
    | inl here ↦
        let off : ℕ = g % ext_grains in
        let inside : ltb ei h.n_extents ≡ true = ground (arith, is.below) in
        rw (size_at, gave.n_extents, ← here, inside, gave.used ei, gave.cls ei, gave.nslots ei)
          (ground (
            arith,
            gave.now_set ei (off / c),
            same_slot off slot c,
            same_slot (grain % ext_grains) slot c,
            is.aligned,
            here,
          ))
    | inr other ↦
        let e : ℕ = g / ext_grains in
        ground (
          arith,
          gave.n_extents,
          gave.now_set e (g % ext_grains / ((h.ext e).cls + 1)),
          gave.cls e,
          gave.used e,
          gave.nslots e,
        )
  ]

  busy1 :
      (e : ℕ)
      → e < h.n_extents
      → (h1.ext e).used ≡ true
      → ei ≢ e
      → (h1.ext e).nfree < (h1.ext e).nslots
  busy1 e lt used ne =
      omega
        (arith, valid.busy e lt (sym (gave.used e) ∙ used), gave.others_free e ne, gave.nslots e)

  freed_from :
      (h2 : Heap)
      → IsShaped h2
      → ((e : ℕ) → e < h2.n_extents → (h2.ext e).used ≡ true → (h2.ext e).nfree < (h2.ext e).nslots)
      → live_bytes h2 ≡ live_bytes h1
      → h2.n_extents ≡ h1.n_extents
      → h2.slot_bytes ≡ h1.slot_bytes
      → ((g : ℕ) → size_at h2 g ≡ size_at h1 g)
      → Freed h grain (c * alloc_grain, record h2 { slot_bytes = h2.slot_bytes - c * alloc_grain })
  freed_from h2 shaped busy bytes count counter sizes = record {
    valid = record {
      shaped = record {
        room = shaped.room;
        linked = shaped.linked;
        extents = shaped.extents;
        used_sum = shaped.used_sum;
      };
      busy = busy;
      bytes = omega (arith, bytes, bytes1, counter, gave.slot_bytes, valid.bytes);
    };
    bytes = omega (arith, is.size);
    gone = unsettled grain ∙ sizes grain ∙ ground (arith, sizes1 grain);
    others = λ g ne. unsettled g ∙ sizes g ∙ ground (arith, sizes1 g);
    n_extents = count ∙ gave.n_extents;
    counted = omega (arith, bytes1, counter, gave.slot_bytes, valid.bytes);
  }
    where
      unsettled :
          (g : ℕ)
          → size_at (record h2 { slot_bytes = h2.slot_bytes - c * alloc_grain }) g ≡ size_at h2 g
      unsettled g = size_at_counter h2 (h2.slot_bytes - c * alloc_grain) g

  -- `slot_free` of a slot in use keeps the invariant, returns the slot's size in bytes and takes it
  -- off the byte counter, frees that slot and leaves every other slot as it was.
  pub slot_free_lem : Freed h grain (slot_free h grain)
  unfolding slot_free
  slot_free_lem = elim (Bool-cases ((h1.ext ei).nfree == (h1.ext ei).nslots)) [
    | inl empty ↦
        let below1 : ei < h1.n_extents = omega (arith, is.below, gave.n_extents) in
        let used1 : (h1.ext ei).used ≡ true = gave.used ei ∙ is.used in
        let all : (h1.ext ei).nfree ≡ (h1.ext ei).nslots = ground arith in
        let (count, counter, bits) = recycle-same shaped1 ei below1 used1 all in
        let others = recycle-others shaped1 ei below1 used1 all in
        let gone = gone_now shaped1 ei below1 used1 all in
        rw empty (
          freed_from (recycle_extent h1 ei) (recycle-IsShaped shaped1 ei below1 used1 all)
            (λ e lt used. elim (eq_cases ei e) [
              | inl here ↦ absurd (
                  let on = ap (λ x. ((recycle_extent h1 ei).ext x).used) here ∙ used in
                  ground (arith, gone, on))
              | inr ne ↦
                  let same = others e ne in
                  omega (
                    arith,
                    busy1 e (omega (arith, count, gave.n_extents)) (sym same.used ∙ used) ne,
                    same.nfree,
                    same.nslots,
                  )
            ])
            (recycle-bytes shaped1 ei below1 used1 all) count counter
            (recycle-sizes shaped1 ei below1 used1 all))
    | inr partial ↦ rw partial (
        freed_from h1 shaped1
          (λ e lt used. elim (eq_cases ei e) [
            | inl here ↦
                subst (λ x. (h1.ext x).nfree < (h1.ext x).nslots) here
                  (ground (
                    arith,
                    free-le-slots (
                        shaped1.extents ei (omega (arith, is.below, gave.n_extents))
                          (gave.used ei ∙ is.used)),
                  ))
            | inr ne ↦ busy1 e (omega (arith, gave.n_extents)) used ne
          ])
          refl refl refl (λ g. refl))
  ]
