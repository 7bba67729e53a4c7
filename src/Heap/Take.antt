-- ===== src/Heap/Take.antt =====
-- `ext_take` on an extent with a free slot.
use nbd_vram.Prelude.{
  ℕ, ◌+◌, ◌-◌, ◌*◌, ◌^◌, ◌≤◌, ◌<◌, ◌≡◌, ◌≢◌, inl, inr, refl, arith, true, false, ◌==◌,
  if◌then◌else◌, update, total, total-change, total_congr, eq_cases, Option-cases, ap, sym, ◌∙◌,
  Bool-cases, leb, ==_ne, ==_refl,
}
use mathlib.Core.Path.{subst, subst₂}
use nbd_vram.Heap.{Heap, take_in_word, ext_take, u16, alloc_grain}
use nbd_vram.Heap.Bitmap.{bit, ext_bmwords, ext_grains, set_bit, ctz_not, is_full, find_word}
use nbd_vram.Heap.Bitmap.Laws.{
  bit-set_bit, ctz_not_lem, find_word-some, find_word-clear_count, clear_count-set_bit,
  clear_count-le,
}
use nbd_vram.Heap.Slots.{slot_fits}
use nbd_vram.Heap.Links.Linked.{Linked, Linked-congr}
use nbd_vram.Heap.Links.Remove.{remove_step}
use nbd_vram.Heap.Links.Same.{Same, remove-Same}
use nbd_vram.Heap.IsValid.{
  IsExtent-congr, home, heads, IsExtent, IsShaped, live_bytes, bytes_weight, used_weight,
  free-le-slots,
}

-- What `ext_take` does to the heap: a clear bit of extent `ei` is set, the extent's count of free
-- slots falls by one, and nothing else changes but links and hints.
pub record Took (h : Heap) (ei slot : ℕ) (h' : Heap) : Type 0 where
  pub inside : slot < (h.ext ei).nslots
  pub was_clear : bit (h.extbm ei) slot ≡ false
  pub now_set :
      (e s : ℕ)
      → bit (h'.extbm e) s
        ≡ (if e == ei then (if s == slot then true else bit (h.extbm e) s) else bit (h.extbm e) s)
  pub fewer : (h'.ext ei).nfree + 1 ≡ (h.ext ei).nfree
  pub others_free : (e : ℕ) → ei ≢ e → (h'.ext e).nfree ≡ (h.ext e).nfree
  pub nslots : (e : ℕ) → (h'.ext e).nslots ≡ (h.ext e).nslots
  pub cls : (e : ℕ) → (h'.ext e).cls ≡ (h.ext e).cls
  pub used : (e : ℕ) → (h'.ext e).used ≡ (h.ext e).used
  pub n_extents : h'.n_extents ≡ h.n_extents
  pub slot_bytes : h'.slot_bytes ≡ h.slot_bytes

more_bytes :
    (n f c : ℕ)
    → f + 1 ≤ n
    → (n - f) * (c * alloc_grain) ≡ (n - (f + 1)) * (c * alloc_grain) + c * alloc_grain
more_bytes n f c le = let e : n - f ≡ (n - (f + 1)) + 1 = omega arith in rw e (omega arith)

module _ {h : Heap} (shaped : IsShaped h) (ei : ℕ) (below : ei < h.n_extents)
    (in_use : (h.ext ei).used ≡ true) (some_free : 0 < (h.ext ei).nfree) where
  this : IsExtent (h.ext ei) (h.extbm ei)
  this = shaped.extents ei below in_use

  module _ (w : ℕ) (lw : w < ext_bmwords) (space : is_full (h.extbm ei w) ≡ false) where
    abbrev slot : ℕ
    slot = w * 64 + ctz_not (h.extbm ei w)

    off : bit (h.extbm ei) slot ≡ false
    off =
        let (lt, clear) = ctz_not_lem (h.extbm ei w) space in
        subst₂ (λ x y. h.extbm ei x y ≡ false) (omega arith) (omega arith) clear

    off_inside : slot < (h.ext ei).nslots
    off_inside = elim (Bool-cases (leb (h.ext ei).nslots slot)) [
      | inl over ↦ absurd (
          let (lt, clear) = ctz_not_lem (h.extbm ei w) space in
          ground (arith, off, this.behind slot, lt))
      | inr fits ↦ ground arith
    ]

    free_le : (h.ext ei).nfree ≤ ext_grains
    free_le = omega (arith, this.count, clear_count-le (h.extbm ei))

    take-Took : Took h ei slot (take_in_word h ei w).1
    unfolding take_in_word
    take-Took =
        let (lt, clear) = ctz_not_lem (h.extbm ei w) space in
        let e = h.ext ei in
        let ext1 =
          update h.ext ei (record e { hint = u16 w; nfree = u16 (e.nfree + (2 ^ 16 - 1)) }) in
        let kept = remove-Same ext1 (h.class_head e.cls) ei in
        record {
          inside = off_inside;
          was_clear = off;
          now_set = λ x s. ground (arith, bit-set_bit (h.extbm ei) w (ctz_not (h.extbm ei w)) s lt);
          fewer = ground (arith, kept ei, free_le);
          others_free = λ x ne. ground (arith, kept x);
          nslots = λ x. ground (arith, kept x);
          cls = λ x. ground (arith, kept x);
          used = λ x. ground (arith, kept x);
          n_extents = refl;
          slot_bytes = refl;
        }

    take-Linked :
        let h' = (take_in_word h ei w).1 in Linked h'.n_extents h'.ext (heads h') (home h')
    unfolding take_in_word
    take-Linked =
        let e = h.ext ei in
        let nfree = u16 (e.nfree + (2 ^ 16 - 1)) in
        let ext1 = update h.ext ei (record e { hint = u16 w; nfree = nfree }) in
        let kept = remove-Same ext1 (h.class_head e.cls) ei in
        let start : Linked h.n_extents ext1 (heads h) (home h) =
          Linked-congr (λ x. ground arith) (λ x. ground arith) (λ k is. refl) (λ x. refl)
            shaped.linked in
        let homed : home h ei ≡ e.cls = ground arith in
        elim (Bool-cases (nfree == 0)) [
          | inl last ↦ rw last (
              remove_step e.cls ei (h.class_head e.cls) start (omega (arith, shaped.room))
                (omega (arith, this.cls_in)) homed (ground (arith, this))
                (λ j is. ground (arith, this)) (λ x. ground (arith, kept x)))
          | inr more ↦
              rw more
                (Linked-congr (λ x. refl) (λ x. refl) (λ k is. refl) (λ x. ground arith) start)
        ]

    take-bytes :
        live_bytes (take_in_word h ei w).1 ≡ live_bytes h + ((h.ext ei).cls + 1) * alloc_grain
    unfolding take_in_word
    take-bytes =
        let took = take-Took in
        let h' = (take_in_word h ei w).1 in
        let change : bytes_weight (h'.ext ei)
            ≡ bytes_weight (h.ext ei) + ((h.ext ei).cls + 1) * alloc_grain =
          ground (
            arith,
            took.fewer,
            took.nslots ei,
            took.cls ei,
            took.used ei,
            free-le-slots this,
            more_bytes (h.ext ei).nslots (h'.ext ei).nfree ((h.ext ei).cls + 1),
          ) in
        omega (
          arith,
          change,
          total-change bytes_weight h.n_extents h.ext h'.ext ei
              (λ j ne. ground (arith, took.others_free j, took.nslots j, took.cls j, took.used j))
              below,
        )

    take-used :
        total used_weight h.n_extents (take_in_word h ei w).1.ext
        ≡ total used_weight h.n_extents h.ext
    take-used =
        let took = take-Took in
        total_congr used_weight h.n_extents _ _ (λ j lt. ground (arith, took.used j))

    taken-IsExtent :
        IsExtent
          (record (h.ext ei) { hint = u16 w; nfree = u16 ((h.ext ei).nfree + (2 ^ 16 - 1)) })
          (set_bit (h.extbm ei) w (ctz_not (h.extbm ei w)))
    taken-IsExtent =
        let (lt, clear) = ctz_not_lem (h.extbm ei w) space in
        record {
          cls_in = this.cls_in;
          slots = this.slots;
          count = omega (
            arith,
            clear_count-set_bit (h.extbm ei) w (ctz_not (h.extbm ei w)) lw lt clear,
            this.count,
            free_le,
          );
          behind = λ s le lt_s.
              ground
                (arith, this.behind s, bit-set_bit (h.extbm ei) w (ctz_not (h.extbm ei w)) s lt);
          hint_in = omega arith;
        }

    take-IsExtent :
        let h' = (take_in_word h ei w).1 in
        (e : ℕ) → e < h'.n_extents → (h'.ext e).used ≡ true → IsExtent (h'.ext e) (h'.extbm e)
    unfolding take_in_word
    take-IsExtent x lt used =
        let e = h.ext ei in
        let ext1 =
          update h.ext ei (record e { hint = u16 w; nfree = u16 (e.nfree + (2 ^ 16 - 1)) }) in
        let kept = remove-Same ext1 (h.class_head e.cls) ei in
        elim (eq_cases ei x) [
          | inl e ↦
              subst
                (λ y. IsExtent ((take_in_word h ei w).1.ext y) ((take_in_word h ei w).1.extbm y)) e
                (rw (==_refl ei) (IsExtent-congr (ground (arith, kept ei)) taken-IsExtent))
          | inr ne ↦
              let same : Same ((take_in_word h ei w).1.ext x) (h.ext x) = ground (arith, kept x) in
              rw (==_ne ei x ne)
                (IsExtent-congr same (shaped.extents x lt (ground (arith, kept x))))
        ]

    take-used_sum :
        let h' = (take_in_word h ei w).1 in h'.extents_used ≡ total used_weight h'.n_extents h'.ext
    unfolding take_in_word
    take-used_sum = shaped.used_sum ∙ sym take-used

    take-IsShaped : IsShaped (take_in_word h ei w).1
    take-IsShaped =
        let took = take-Took in
        record {
          room = omega (arith, shaped.room, ap (λ n. n * ext_grains) took.n_extents);
          linked = take-Linked;
          extents = take-IsExtent;
          used_sum = take-used_sum;
        }

    take-grain : (take_in_word h ei w).0 ≡ ei * ext_grains + slot * ((h.ext ei).cls + 1)
    unfolding take_in_word
    take-grain =
        let cls = (h.ext ei).cls in
        let fits : slot * (cls + 1) + (cls + 1) ≤ ext_grains =
          slot_fits cls this.cls_in slot (omega (arith, off_inside, this.slots)) in
        omega (arith, fits, shaped.room, below)

  -- `ext_take` on an extent with a free slot finds one, and keeps the invariant.
  pub ext_take_lem :
      (slot : ℕ) × ((ext_take h ei).0 ≡ ei * ext_grains + slot * ((h.ext ei).cls + 1))
      × Took h ei slot (ext_take h ei).1
      × IsShaped (ext_take h ei).1
      × (live_bytes (ext_take h ei).1 ≡ live_bytes h + ((h.ext ei).cls + 1) * alloc_grain)
  unfolding ext_take
  ext_take_lem = elim (Option-cases (find_word ext_bmwords 0 (h.ext ei).hint (h.extbm ei))) [
    | inl missed ↦ absurd (
        omega (
          arith,
          find_word-clear_count (h.ext ei).hint (h.extbm ei) this.hint_in missed,
          this.count,
          some_free,
        ))
    | inr (w, found) ↦
        let (lw, space) =
          find_word-some ext_bmwords 0 (h.ext ei).hint w (h.extbm ei) found this.hint_in
            (omega arith) in
        rw (found, ext_take)
          (
            slot w lw space,
            take-grain w lw space,
            take-Took w lw space,
            take-IsShaped w lw space,
            take-bytes w lw space,
          )
  ]
