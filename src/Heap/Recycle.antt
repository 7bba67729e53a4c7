-- ===== src/Heap/Recycle.antt =====
-- The second half of `slot_free`: an extent with no slot in use goes back to the free list.
use mathlib.Core.Path.{subst}
use nbd_vram.Prelude.{
  ℕ, ◌+◌, ◌-◌, ◌*◌, ◌/◌, ◌≤◌, ◌<◌, ◌≡◌, ◌≢◌, inl, inr, refl, arith, true, false, if◌then◌else◌,
  update, total, total-change, total_congr, eq_cases, ap, sym, ◌∙◌,
}
use nbd_vram.Heap.{Heap, recycle_extent}
use nbd_vram.Heap.Bitmap.{bit, ext_grains}
use nbd_vram.Heap.Bitmap.Laws.{clear_of_clear_count}
use nbd_vram.Heap.Slots.{slots_of-le, slots_of-pos}
use nbd_vram.Heap.Links.{ext_none, lst_remove}
use nbd_vram.Heap.Links.Linked.{Linked, Linked-congr, nowhere}
use nbd_vram.Heap.Links.Push.{push_step}
use nbd_vram.Heap.Links.Remove.{remove_step}
use nbd_vram.Heap.Links.Same.{Same, push-Same, remove-Same}
use nbd_vram.Heap.IsValid.{
  home, heads, free_list, IsExtent, IsExtent-congr, IsShaped, live_bytes, bytes_weight, used_weight,
}
use nbd_vram.Heap.Regions.{size_at, size_at_congr, size_at_unused, size_at_clear}

module _ {h : Heap} (shaped : IsShaped h) (ei : ℕ) (below : ei < h.n_extents)
    (in_use : (h.ext ei).used ≡ true) (empty : (h.ext ei).nfree ≡ (h.ext ei).nslots) where
  this : IsExtent (h.ext ei) (h.extbm ei)
  this = shaped.extents ei below in_use

  some_free : 0 < (h.ext ei).nfree
  some_free = omega (arith, empty, this.slots, slots_of-pos (h.ext ei).cls this.cls_in)

  pub gone_now : ((recycle_extent h ei).ext ei).used ≡ false
  unfolding recycle_extent
  gone_now =
      let gone = (lst_remove h.ext (h.class_head (h.ext ei).cls) ei).0 in
      let pushed = push-Same (update gone ei (record (gone ei) { used = false })) h.free_head ei in
      ground (arith, pushed ei)

  pub recycle-others : (e : ℕ) → ei ≢ e → Same ((recycle_extent h ei).ext e) (h.ext e)
  unfolding recycle_extent
  recycle-others e ne =
      let gone = (lst_remove h.ext (h.class_head (h.ext ei).cls) ei).0 in
      let kept = remove-Same h.ext (h.class_head (h.ext ei).cls) ei in
      let pushed = push-Same (update gone ei (record (gone ei) { used = false })) h.free_head ei in
      ground (arith, pushed e, kept e)

  pub recycle-same :
      ((recycle_extent h ei).n_extents ≡ h.n_extents)
      × ((recycle_extent h ei).slot_bytes ≡ h.slot_bytes)
      × ((e : ℕ) → (recycle_extent h ei).extbm e ≡ h.extbm e)
  unfolding recycle_extent
  recycle-same = (refl, refl, λ e. refl)

  recycle-Linked : let h' = recycle_extent h ei in Linked h'.n_extents h'.ext (heads h') (home h')
  unfolding recycle_extent
  recycle-Linked =
      let cls = (h.ext ei).cls in
      let gone = lst_remove h.ext (h.class_head cls) ei in
      let kept = remove-Same h.ext (h.class_head cls) ei in
      let ext1 = update gone.0 ei (record (gone.0 ei) { used = false }) in
      let pushed = push-Same ext1 h.free_head ei in
      let small : h.n_extents ≤ ext_none = omega (arith, shaped.room) in
      let off : Linked h.n_extents gone.0 (update (heads h) cls gone.1)
          (update (home h) ei nowhere) =
        remove_step cls ei (h.class_head cls) shaped.linked small (omega (arith, this.cls_in))
          (ground (arith, some_free)) (ground (arith, this.cls_in)) (λ j is. refl) (λ x. refl) in
      let marked : Linked h.n_extents ext1 (update (heads h) cls gone.1)
          (update (home h) ei nowhere) =
        Linked-congr (λ x. ground arith) (λ x. ground arith) (λ j is. refl) (λ x. refl) off in
      push_step free_list ei h.free_head marked small (omega arith) below (ground arith)
        (ground (arith, this.cls_in)) (λ j is. ground (arith, this.cls_in))
        (λ x. ground (arith, pushed x, kept x))

  pub recycle-bytes : live_bytes (recycle_extent h ei) ≡ live_bytes h
  recycle-bytes =
      let h' = recycle_extent h ei in
      rw recycle-same.0 (
        sym (
          total_congr bytes_weight h.n_extents h.ext h'.ext λ e lt. elim (eq_cases ei e) [
            | inl here ↦
                subst (λ y. bytes_weight (h.ext y) ≡ bytes_weight (h'.ext y)) here
                  (ground (arith, gone_now))
            | inr ne ↦ ground (arith, recycle-others e ne)
          ]))

  recycle-used : total used_weight h.n_extents (recycle_extent h ei).ext + 1 ≡ h.extents_used
  recycle-used = omega (
    arith,
    total-change used_weight h.n_extents h.ext (recycle_extent h ei).ext ei
        (λ e ne. ground (arith, recycle-others e ne)) below,
    ap {B = ℕ} (λ b. if b then 1 else 0) gone_now,
    ap {B = ℕ} (λ b. if b then 1 else 0) in_use,
    shaped.used_sum,
  )

  extents_used-recycle : (recycle_extent h ei).extents_used ≡ h.extents_used - 1
  unfolding recycle_extent
  extents_used-recycle = refl

  pub recycle-IsShaped : IsShaped (recycle_extent h ei)
  recycle-IsShaped =
      let h' = recycle_extent h ei in
      record {
        room = omega (arith, shaped.room, ap (λ n. n * ext_grains) recycle-same.0);
        linked = recycle-Linked;
        extents = λ e lt used. elim (eq_cases ei e) [
          | inl here ↦
              absurd
                (let on = ap (λ x. (h'.ext x).used) here ∙ used in ground (arith, gone_now, on))
          | inr ne ↦ rw (recycle-same.2 e) (
              IsExtent-congr (recycle-others e ne) (
                shaped.extents e (omega (arith, recycle-same.0))
                  (sym (recycle-others e ne).used ∙ used)))
        ];
        used_sum = rw recycle-same.0 (omega (arith, extents_used-recycle, recycle-used));
      }

  -- No slot in use is lost: the extent held none.
  pub recycle-sizes : (g : ℕ) → size_at (recycle_extent h ei) g ≡ size_at h g
  recycle-sizes g =
      let h' = recycle_extent h ei in
      elim (eq_cases ei (g / ext_grains)) [
        | inl here ↦
            size_at_unused h' g (subst (λ e. (h'.ext e).used ≡ false) here gone_now)
            ∙ sym (
                size_at_clear h g (λ slot lt.
                  subst (λ e. bit (h.extbm e) slot ≡ false) here
                    (clear_of_clear_count (h.extbm ei) (h.ext ei).nslots slot
                      (omega (arith, this.slots, slots_of-le (h.ext ei).cls this.cls_in))
                      this.behind (omega (arith, empty, this.count))
                      (omega (arith, ap (λ e. (h.ext e).nslots) here)))))
        | inr ne ↦
            size_at_congr h h' g recycle-same.0 (recycle-others (g / ext_grains) ne)
              (recycle-same.2 (g / ext_grains))
      ]
