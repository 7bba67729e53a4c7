-- ===== src/Heap/Choose.antt =====
-- The extent that `slot_alloc` takes a slot from.
use nbd_vram.Prelude.{
  ℕ, zero, suc, ◌+◌, ◌-◌, ◌/◌, ◌∙◌, ◌≤◌, ◌<◌, ◌≡◌, ◌≢◌, ◌⊎◌, inl, inr, refl, arith, true, false,
  ◌==◌, eq_cases, Bool-cases, sym, ap,
}
use nbd_vram.Heap.{Heap, choose_extent, commit_extent, first_partial, nclass, slots_of}
use nbd_vram.Heap.Links.{ext_none}
use nbd_vram.Heap.Links.Same.{Same}
use nbd_vram.Heap.Slots.{slots_of-pos}
use nbd_vram.Heap.IsValid.{home, IsShaped, live_bytes}
use mathlib.Core.Path.{subst}
use nbd_vram.Heap.Bitmap.{bit, ext_grains}
use nbd_vram.Heap.Bitmap.Laws.{bit-fresh_bitmap}
use nbd_vram.Heap.Regions.{size_at, size_at_clear, size_at_unused, size_at_congr}
use nbd_vram.Heap.Commit.{commit-Committed, commit-IsShaped, commit-bytes}

-- The first class from `c` on with a partial extent, or the news that there is none.
first_partial_lem :
    (n c : ℕ) (class_head : ℕ → ℕ)
    → ((first_partial n c class_head ≡ ext_none)
        × ((k : ℕ) → c ≤ k → k < c + n → class_head k ≡ ext_none))
      ⊎ ((k : ℕ) × (c ≤ k)
          × (k < c + n)
          × (first_partial n c class_head ≡ class_head k)
          × (class_head k ≢ ext_none))
unfolding first_partial
first_partial_lem zero c class_head = inl (refl, λ k le lt. absurd (omega arith))
first_partial_lem (suc n) c class_head = elim (eq_cases (class_head c) ext_none) [
  | inl empty ↦ elim (first_partial_lem n (c + 1) class_head) [
    | inl (missed, all) ↦ inl (
      ground arith,
      λ k le lt. elim (eq_cases c k) [
        | inl here ↦ ground arith
        | inr ne ↦ all k (omega arith) (omega arith)
      ],
    )
    | inr (k, le, lt, e, ne) ↦ inr (k, omega arith, omega arith, ground arith, ne)
  ]
  | inr found ↦ inr (c, omega arith, omega arith, ground arith, found)
]

-- An extent in use with a free slot, of a class that is large enough.
pub record HasRoom (h : Heap) (cls ei : ℕ) : Type 0 where
  pub below : ei < h.n_extents
  pub in_use : (h.ext ei).used ≡ true
  pub some_free : 0 < (h.ext ei).nfree
  pub fits : cls ≤ (h.ext ei).cls
  pub cls_in : (h.ext ei).cls < 64

pub head-HasRoom :
    {h : Heap} (cls k : ℕ)
    → IsShaped h
    → k < 64
    → cls ≤ k
    → h.class_head k ≢ ext_none
    → HasRoom h cls (h.class_head k)
head-HasRoom {h} cls k shaped lt le ne =
    let homed : home h (h.class_head k) ≡ k = ground (arith, shaped.linked.head_home k) in
    let below : h.class_head k < h.n_extents =
      shaped.linked.inside (h.class_head k) (omega (arith, homed)) in
    record {
      below = below;
      in_use = ground (arith, homed, below);
      some_free = ground (arith, homed, below);
      fits = ground (arith, homed, below);
      cls_in = ground (arith, homed, below);
    }

-- What `choose_extent` gives: an extent with room in a heap that holds the same slots, or none,
-- if no class from `cls` on has a free slot and no extent is free.
pub record Chosen (h : Heap) (ei : ℕ) (h1 : Heap) : Type 0 where
  pub shaped : IsShaped h1
  pub others : (e : ℕ) → ei ≢ e → Same (h1.ext e) (h.ext e)
  pub bytes : live_bytes h1 ≡ live_bytes h
  pub n_extents : h1.n_extents ≡ h.n_extents
  pub slot_bytes : h1.slot_bytes ≡ h.slot_bytes
  pub sizes : (g : ℕ) → size_at h1 g ≡ size_at h g

pub record NoRoom (h : Heap) (cls : ℕ) : Type 0 where
  pub no_free : h.free_head ≡ ext_none
  pub no_partial : (k : ℕ) → cls ≤ k → k < nclass → h.class_head k ≡ ext_none

abbrev pub Choice : Heap → (cls : ℕ) → ℕ × Heap → Type 0
Choice h cls (ei, h1) =
    ((ei ≡ ext_none) × (h1 ≡ h) × NoRoom h cls) ⊎ (HasRoom h1 cls ei × Chosen h ei h1)

same-Chosen : {h : Heap} (ei : ℕ) → IsShaped h → Chosen h ei h
same-Chosen ei shaped = record {
  shaped = shaped;
  others = λ e ne. ground arith;
  bytes = refl;
  n_extents = refl;
  slot_bytes = refl;
  sizes = λ g. refl;
}

commit-HasRoom :
    {h : Heap} (cls : ℕ)
    → IsShaped h
    → cls < 64
    → h.free_head ≢ ext_none
    → HasRoom (commit_extent h cls) cls h.free_head
commit-HasRoom cls shaped lt some_free =
    let done = commit-Committed shaped cls lt some_free in
    record {
      below = omega (arith, done.below, done.n_extents);
      in_use = done.in_use;
      some_free = omega (arith, done.nfree_now, slots_of-pos cls lt);
      fits = omega (arith, done.cls_now);
      cls_in = omega (arith, done.cls_now);
    }

commit-Chosen :
    {h : Heap} (cls : ℕ)
    → IsShaped h
    → cls < 64
    → h.free_head ≢ ext_none
    → Chosen h h.free_head (commit_extent h cls)
commit-Chosen {h} cls shaped lt some_free =
    let done = commit-Committed shaped cls lt some_free in
    let h1 = commit_extent h cls in
    record {
      shaped = commit-IsShaped shaped cls lt some_free;
      others = done.others;
      bytes = commit-bytes shaped cls lt some_free;
      n_extents = done.n_extents;
      slot_bytes = done.slot_bytes;
      sizes = λ g. elim (eq_cases h.free_head (g / ext_grains)) [
        | inl here ↦
            size_at_clear h1 g (λ slot inside.
              subst (λ e. bit (h1.extbm e) slot ≡ false) here
                (rw done.bits_now (
                  ground (
                    arith,
                    bit-fresh_bitmap (slots_of cls) slot,
                    done.nslots_now,
                    ap (λ e. (h1.ext e).nslots) here,
                  ))))
            ∙ sym (size_at_unused h g (subst (λ e. (h.ext e).used ≡ false) here done.was_free))
        | inr ne ↦
            size_at_congr h h1 g done.n_extents (done.others (g / ext_grains) ne)
              (done.others_bits (g / ext_grains) ne)
      ];
    }

pub choose_extent_lem :
    {h : Heap} (cls : ℕ) → IsShaped h → cls < 64 → Choice h cls (choose_extent h cls)
unfolding choose_extent
choose_extent_lem {h} cls shaped lt = elim (Bool-cases (h.class_head cls == ext_none)) [
  | inr own ↦ rw own (
      inr (
        head-HasRoom cls cls shaped lt (omega arith) (ground arith),
        same-Chosen (h.class_head cls) shaped,
      ))
  | inl empty ↦ elim (Bool-cases (h.free_head == ext_none)) [
    | inr fresh ↦
        let some_free : h.free_head ≢ ext_none = ground arith in
        rw (empty, fresh)
          (inr (commit-HasRoom cls shaped lt some_free, commit-Chosen cls shaped lt some_free))
    | inl full ↦ elim (first_partial_lem (nclass - (cls + 1)) (cls + 1) h.class_head) [
      | inl (missed, all) ↦
          rw (empty, full)
            (inl (
              missed,
              refl,
              record {
                no_free = ground arith;
                no_partial = λ k le below. elim (eq_cases cls k) [
                  | inl here ↦ ground arith
                  | inr ne ↦ all k (omega arith) (omega arith)
                ];
              },
            ))
      | inr (k, le, below, e, ne) ↦
          rw (empty, full, e)
            (inr (
              head-HasRoom cls k shaped (omega arith) (omega arith) ne,
              same-Chosen (h.class_head k) shaped,
            ))
    ]
  ]
]
