-- ===== src/Heap/Give.antt =====
-- The first half of `slot_free`: the bit is cleared and the slot counted free.
use mathlib.Core.Path.{subst}
use nbd_vram.Prelude.{
  ℕ, ◌+◌, ◌-◌, ◌*◌, ◌/◌, ◌%◌, ◌≤◌, ◌<◌, ◌≡◌, ◌≢◌, inl, inr, refl, arith, true, false, ltb, ◌==◌,
  if◌then◌else◌, update, total, total-change, total_congr, eq_cases, Bool-cases, ap, sym, ◌∙◌,
  ==_refl,
}
use nbd_vram.Heap.{Heap, return_slot, u16, alloc_grain}
use nbd_vram.Heap.Bitmap.{bit, ext_grains, ext_bmwords, clear_bit}
use nbd_vram.Heap.Bitmap.Laws.{
  clear_count, bit-clear_bit, clear_count-clear_bit, clear_count-le-nslots,
}
use nbd_vram.Heap.Slots.{slots_of-le}
use nbd_vram.Heap.Links.{ext_none, lst_push}
use nbd_vram.Heap.Links.Linked.{Linked, Linked-congr}
use nbd_vram.Heap.Links.Push.{push_step}
use nbd_vram.Heap.Links.Same.{Same, push-Same}
use nbd_vram.Heap.IsValid.{
  home, heads, IsExtent, IsExtent-congr, IsShaped, live_bytes, bytes_weight, used_weight,
}

-- What it does to the heap: a set bit of extent `ei` is cleared, its count of free slots rises by
-- one, and nothing else changes but links and hints.
pub record Gave (h : Heap) (ei slot : ℕ) (h' : Heap) : Type 0 where
  pub now_set :
      (e s : ℕ)
      → bit (h'.extbm e) s
        ≡ (if ei == e then (if slot == s then false else bit (h.extbm e) s) else bit (h.extbm e) s)
  pub more : (h'.ext ei).nfree ≡ (h.ext ei).nfree + 1
  pub others_free : (e : ℕ) → ei ≢ e → (h'.ext e).nfree ≡ (h.ext e).nfree
  pub nslots : (e : ℕ) → (h'.ext e).nslots ≡ (h.ext e).nslots
  pub cls : (e : ℕ) → (h'.ext e).cls ≡ (h.ext e).cls
  pub used : (e : ℕ) → (h'.ext e).used ≡ (h.ext e).used
  pub n_extents : h'.n_extents ≡ h.n_extents
  pub slot_bytes : h'.slot_bytes ≡ h.slot_bytes

more_bytes :
    (n f c : ℕ)
    → f + 1 ≤ n
    → (n - f) * (c * alloc_grain) ≡ (n - (f + 1)) * (c * alloc_grain) + c * alloc_grain
more_bytes n f c le = let e : n - f ≡ (n - (f + 1)) + 1 = omega arith in rw e (omega arith)

module _ {h : Heap} (shaped : IsShaped h) (ei slot : ℕ) (below : ei < h.n_extents)
    (in_use : (h.ext ei).used ≡ true) (inside : slot < (h.ext ei).nslots)
    (set : bit (h.extbm ei) slot ≡ true) where
  this : IsExtent (h.ext ei) (h.extbm ei)
  this = shaped.extents ei below in_use

  in_range : slot < ext_grains
  in_range = omega (arith, inside, this.slots, slots_of-le (h.ext ei).cls this.cls_in)

  behind_after :
      (s : ℕ)
      → (h.ext ei).nslots ≤ s
      → s < ext_grains
      → bit (clear_bit (h.extbm ei) (slot / 64) (slot % 64)) s ≡ true
  behind_after s le lt = ground (arith, bit-clear_bit (h.extbm ei) slot s, this.behind s, inside)

  count_after : clear_count (clear_bit (h.extbm ei) (slot / 64) (slot % 64)) ≡ (h.ext ei).nfree + 1
  count_after = omega (arith, clear_count-clear_bit (h.extbm ei) slot in_range set, this.count)

  -- The slot in use was one that the counter did not count.
  pub free_lt : (h.ext ei).nfree < (h.ext ei).nslots
  free_lt = omega (
    arith,
    count_after,
    clear_count-le-nslots (clear_bit (h.extbm ei) (slot / 64) (slot % 64)) (h.ext ei).nslots
        behind_after,
  )

  free_small : (h.ext ei).nfree < ext_grains
  free_small = omega (arith, free_lt, this.slots, slots_of-le (h.ext ei).cls this.cls_in)

  pub give-Gave : Gave h ei slot (return_slot h ei slot)
  unfolding return_slot
  give-Gave =
      let kept = push-Same h.ext (h.class_head (h.ext ei).cls) ei in
      record {
        now_set = λ e s. ground (arith, bit-clear_bit (h.extbm ei) slot s);
        more = ground (arith, kept ei, free_small);
        others_free = λ e ne. ground (arith, kept e);
        nslots = λ e. ground (arith, kept e);
        cls = λ e. ground (arith, kept e);
        used = λ e. ground (arith, kept e);
        n_extents = refl;
        slot_bytes = refl;
      }

  give-Linked : let h' = return_slot h ei slot in Linked h'.n_extents h'.ext (heads h') (home h')
  unfolding return_slot
  give-Linked =
      let e = h.ext ei in
      let kept = push-Same h.ext (h.class_head e.cls) ei in
      let small : h.n_extents ≤ ext_none = omega (arith, shaped.room) in
      elim (Bool-cases (e.nfree == 0)) [
        | inl full ↦
            let pushed : Linked h.n_extents (lst_push h.ext (h.class_head e.cls) ei).0
                (update (heads h) e.cls (lst_push h.ext (h.class_head e.cls) ei).1)
                (update (home h) ei e.cls) =
              push_step e.cls ei (h.class_head e.cls) shaped.linked small
                (omega (arith, this.cls_in)) below (ground arith) (ground (arith, this.cls_in))
                (λ j is. refl) (λ x. refl) in
            rw full (
              Linked-congr (λ x. ground arith) (λ x. ground arith)
                (λ j is. ground (arith, this.cls_in))
                (λ x. ground (arith, kept x, kept ei, free_small)) pushed)
        | inr some_free ↦ rw some_free (
            Linked-congr (λ x. ground arith) (λ x. ground arith) (λ j is. refl)
              (λ x. ground (arith, free_small)) shaped.linked)
      ]

  pub give-bytes :
      live_bytes (return_slot h ei slot) + ((h.ext ei).cls + 1) * alloc_grain ≡ live_bytes h
  give-bytes =
      let gave = give-Gave in
      let h' = return_slot h ei slot in
      let change : bytes_weight (h'.ext ei) + ((h.ext ei).cls + 1) * alloc_grain
          ≡ bytes_weight (h.ext ei) =
        ground (
          arith,
          gave.more,
          gave.nslots ei,
          gave.cls ei,
          gave.used ei,
          free_lt,
          more_bytes (h.ext ei).nslots (h.ext ei).nfree ((h.ext ei).cls + 1),
        ) in
      rw gave.n_extents (
        omega (
          arith,
          change,
          total-change bytes_weight h.n_extents h.ext h'.ext ei
              (λ j ne. ground (arith, gave.others_free j, gave.nslots j, gave.cls j, gave.used j))
              below,
        ))

  give-used_sum :
      let h' = return_slot h ei slot in h'.extents_used ≡ total used_weight h'.n_extents h'.ext
  unfolding return_slot
  give-used_sum =
      let gave = give-Gave in
      shaped.used_sum
      ∙ total_congr used_weight h.n_extents _ _ (λ j lt. ground (arith, gave.used j))

  given-IsExtent :
      (hint : ℕ)
      → hint < ext_bmwords
      → IsExtent
          (record (h.ext ei) { nfree = u16 ((h.ext ei).nfree + 1); hint = hint })
          (clear_bit (h.extbm ei) (slot / 64) (slot % 64))
  given-IsExtent hint lt = record {
    cls_in = this.cls_in;
    slots = this.slots;
    count = omega (arith, count_after, free_small);
    behind = behind_after;
    hint_in = lt;
  }

  give-IsExtent :
      let h' = return_slot h ei slot in
      (e : ℕ) → e < h'.n_extents → (h'.ext e).used ≡ true → IsExtent (h'.ext e) (h'.extbm e)
  unfolding return_slot
  give-IsExtent x lt used =
      let e = h.ext ei in
      let h' = return_slot h ei slot in
      let kept = push-Same h.ext (h.class_head e.cls) ei in
      let hint : ℕ = if ltb (slot / 64) e.hint then u16 (slot / 64) else e.hint in
      elim (eq_cases ei x) [
        | inl here ↦
            subst (λ y. IsExtent (h'.ext y) (h'.extbm y)) here
              (rw (==_refl ei) (
                IsExtent-congr (ground (arith, kept ei))
                  (given-IsExtent hint (ground (arith, this.hint_in, in_range)))))
        | inr ne ↦
            let same : Same (h'.ext x) (h.ext x) = ground (arith, kept x) in
            let bits : h.extbm x ≡ h'.extbm x = ground arith in
            subst (λ bm. IsExtent (h'.ext x) bm) bits
              (IsExtent-congr same (shaped.extents x lt (sym same.used ∙ used)))
      ]

  pub give-IsShaped : IsShaped (return_slot h ei slot)
  give-IsShaped =
      let gave = give-Gave in
      record {
        room = omega (arith, shaped.room, ap (λ n. n * ext_grains) gave.n_extents);
        linked = give-Linked;
        extents = give-IsExtent;
        used_sum = give-used_sum;
      }
