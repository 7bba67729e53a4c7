-- ===== src/Heap/Commit.antt =====
-- The extent that `slot_alloc` chooses, and the fresh one that it commits to a class.
use mathlib.Core.Path.{subst}
use nbd_vram.Prelude.{
  ℕ, ◌+◌, ◌*◌, ◌≤◌, ◌<◌, ◌≡◌, ◌≢◌, inl, inr, refl, arith, true, false, sym, ◌∙◌, ap, if◌then◌else◌,
  update, total, total-change, total_congr, eq_cases, Bool-cases,
}
use nbd_vram.Heap.{Heap, ext_init, commit_extent, slots_of}
use nbd_vram.Heap.Bitmap.{ext_grains, fresh_bitmap}
use nbd_vram.Heap.Bitmap.Laws.{bit-fresh_bitmap, clear_count-fresh_bitmap}
use nbd_vram.Heap.Slots.{slots_of-le, slots_of-pos}
use nbd_vram.Heap.Links.{ext_none, lst_remove}
use nbd_vram.Heap.Links.Linked.{Linked, Linked-congr, nowhere}
use nbd_vram.Heap.Links.Remove.{remove_step}
use nbd_vram.Heap.Links.Push.{push_step}
use nbd_vram.Heap.Links.Same.{Same, remove-Same, push-Same}
use nbd_vram.Heap.IsValid.{
  home, heads, IsExtent, IsExtent-congr, IsShaped, live_bytes, bytes_weight, used_weight, free_list,
}

-- What a commit does: the head of the free list becomes an extent of the class with all its slots
-- free, and the others keep all but their links.
pub record Committed (h : Heap) (cls : ℕ) (h' : Heap) : Type 0 where
  pub below : h.free_head < h.n_extents
  pub was_free : (h.ext h.free_head).used ≡ false
  pub in_use : (h'.ext h.free_head).used ≡ true
  pub cls_now : (h'.ext h.free_head).cls ≡ cls
  pub nslots_now : (h'.ext h.free_head).nslots ≡ slots_of cls
  pub nfree_now : (h'.ext h.free_head).nfree ≡ slots_of cls
  pub hint_now : (h'.ext h.free_head).hint ≡ 0
  pub bits_now : h'.extbm h.free_head ≡ fresh_bitmap (slots_of cls)
  pub others : (e : ℕ) → h.free_head ≢ e → Same (h'.ext e) (h.ext e)
  pub others_bits : (e : ℕ) → h.free_head ≢ e → h'.extbm e ≡ h.extbm e
  pub n_extents : h'.n_extents ≡ h.n_extents
  pub slot_bytes : h'.slot_bytes ≡ h.slot_bytes

module _ {h : Heap} (shaped : IsShaped h) (cls : ℕ) (cls_in : cls < 64)
    (some_free : h.free_head ≢ ext_none) where
  abbrev ei : ℕ
  ei = h.free_head

  homed : home h ei ≡ free_list
  homed = shaped.linked.head_home free_list (omega arith) some_free

  below : ei < h.n_extents
  below = shaped.linked.inside ei (omega (arith, homed))

  was_free : (h.ext ei).used ≡ false
  was_free = elim (Bool-cases (h.ext ei).used) [
    | inl on ↦ absurd (ground (arith, homed, below, (shaped.extents ei below on).cls_in))
    | inr off ↦ off
  ]

  pub commit-Committed : Committed h cls (commit_extent h cls)
  unfolding commit_extent ext_init
  commit-Committed =
      let taken = lst_remove h.ext h.free_head ei in
      let ext1 = (ext_init (record h { ext = taken.0; free_head = taken.1 }) ei cls).ext in
      let pushed = push-Same ext1 (h.class_head cls) ei in
      let kept = remove-Same h.ext h.free_head ei in
      record {
        below = below;
        was_free = was_free;
        in_use = ground (arith, pushed ei);
        cls_now = ground (arith, pushed ei);
        nslots_now = ground (arith, pushed ei);
        nfree_now = ground (arith, pushed ei);
        hint_now = ground (arith, pushed ei);
        bits_now = ground arith;
        others = λ e ne. ground (arith, pushed e, kept e);
        others_bits = λ e ne. ground arith;
        n_extents = refl;
        slot_bytes = refl;
      }

  commit-Linked : let h' = commit_extent h cls in Linked h'.n_extents h'.ext (heads h') (home h')
  unfolding commit_extent ext_init
  commit-Linked =
      let taken = lst_remove h.ext h.free_head ei in
      let kept = remove-Same h.ext h.free_head ei in
      let fresh = ext_init (record h { ext = taken.0; free_head = taken.1 }) ei cls in
      let pushed = push-Same fresh.ext (h.class_head cls) ei in
      let small : h.n_extents ≤ ext_none = omega (arith, shaped.room) in
      let off : Linked h.n_extents taken.0 (update (heads h) free_list taken.1)
          (update (home h) ei nowhere) =
        remove_step free_list ei ei shaped.linked small (omega arith) homed refl (λ j is. refl)
          (λ x. refl) in
      let init : Linked h.n_extents fresh.ext (update (heads h) free_list taken.1)
          (update (home h) ei nowhere) =
        Linked-congr (λ x. ground arith) (λ x. ground arith) (λ j is. refl) (λ x. refl) off in
      push_step cls ei (h.class_head cls) init small (omega arith) below (ground arith)
        (ground arith) (λ j is. ground arith)
        (λ x. ground (arith, pushed x, kept x, slots_of-pos cls cls_in, below))

  pub commit-bytes : live_bytes (commit_extent h cls) ≡ live_bytes h
  commit-bytes =
      let done = commit-Committed in
      let h' = commit_extent h cls in
      rw done.n_extents (
        sym (
          total_congr bytes_weight h.n_extents h.ext h'.ext λ e lt. elim (eq_cases ei e) [
            | inl here ↦
                subst (λ y. bytes_weight (h.ext y) ≡ bytes_weight (h'.ext y)) here
                  (ground (arith, done.was_free, done.in_use, done.nslots_now, done.nfree_now))
            | inr ne ↦ ground (arith, done.others e ne)
          ]))

  commit-used : total used_weight h.n_extents (commit_extent h cls).ext ≡ h.extents_used + 1
  commit-used =
      let done = commit-Committed in
      omega (
        arith,
        total-change used_weight h.n_extents h.ext (commit_extent h cls).ext ei
            (λ e ne. ground (arith, done.others e ne)) below,
        ap {B = ℕ} (λ b. if b then 1 else 0) done.was_free,
        ap {B = ℕ} (λ b. if b then 1 else 0) done.in_use,
        shaped.used_sum,
      )

  extents_used-commit : (commit_extent h cls).extents_used ≡ h.extents_used + 1
  unfolding commit_extent
  extents_used-commit = refl

  -- the new extent's counters
  fresh-IsExtent : IsExtent ((commit_extent h cls).ext ei) (fresh_bitmap (slots_of cls))
  fresh-IsExtent =
      let done = commit-Committed in
      record {
        cls_in = omega (arith, done.cls_now);
        slots = omega (arith, done.nslots_now, ap slots_of done.cls_now);
        count = omega (
          arith,
          done.nfree_now,
          clear_count-fresh_bitmap (slots_of cls) (slots_of-le cls cls_in),
        );
        behind = λ s le lt. ground (arith, bit-fresh_bitmap (slots_of cls) s, done.nslots_now);
        hint_in = omega (arith, done.hint_now);
      }

  pub commit-IsShaped : IsShaped (commit_extent h cls)
  commit-IsShaped =
      let done = commit-Committed in
      record {
        room = omega (arith, shaped.room, ap (λ n. n * ext_grains) done.n_extents);
        linked = commit-Linked;
        extents = λ e lt used. elim (eq_cases ei e) [
          | inl here ↦
              subst (λ y. IsExtent ((commit_extent h cls).ext y) ((commit_extent h cls).extbm y))
                here (rw done.bits_now fresh-IsExtent)
          | inr ne ↦ rw (done.others_bits e ne) (
              IsExtent-congr (done.others e ne) (
                shaped.extents e (omega (arith, done.n_extents))
                  (sym (done.others e ne).used ∙ used)))
        ];
        used_sum = rw done.n_extents (extents_used-commit ∙ sym commit-used);
      }
