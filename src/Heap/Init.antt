-- ===== src/Heap/Init.antt =====
-- The state that `store_init` leaves the allocator in.
use nbd_vram.Prelude.{
  ℕ, zero, suc, ◌/◌, ◌^◌, ◌≤◌, ◌<◌, ◌≡◌, refl, arith, false, ltb, leb, ◌==◌, ◌&&◌, if◌then◌else◌,
  update, total-zero, sym,
}
use nbd_vram.Heap.{build_free_list, heap_init, zero_extent, extent_size, u32, alloc_grain}
use nbd_vram.Heap.Bitmap.{ext_grains}
use nbd_vram.Heap.Links.{Extents, ext_none, lst_push}
use nbd_vram.Heap.Links.Linked.{Linked, Linked-congr, Linked-off, nowhere}
use nbd_vram.Heap.Links.Push.{push_step}
use nbd_vram.Heap.Links.Same.{push-Same}
use nbd_vram.Heap.IsValid.{free_list, IsValid, used_weight, bytes_weight}
use nbd_vram.Heap.Regions.{size_at, size_at_unused}

abbrev heads_with : ℕ → ℕ → ℕ
heads_with head k = if k == free_list then head else ext_none

-- the homes when the extents from `i` on are on the free list
abbrev home_from : ℕ → ℕ → ℕ → ℕ
home_from n i e = if leb i e && ltb e n then free_list else nowhere

build-Linked :
    (n i : ℕ) (ext : Extents) (head : ℕ)
    → i ≤ n
    → n ≤ ext_none
    → Linked n ext (heads_with head) (home_from n i)
    → let built = build_free_list i ext head in
      Linked n built.0 (heads_with built.1) (home_from n 0)
unfolding build_free_list
build-Linked n zero ext head le small linked = linked
build-Linked n (suc i) ext head le small linked =
    let ext0 = update ext i (record (ext i) { next = ext_none; prev = ext_none }) in
    let pushed = lst_push ext0 head i in
    build-Linked n i pushed.0 pushed.1 (omega arith) small (
      push_step free_list i head
        (Linked-off i (ground arith) (λ e ne. ground arith) (λ e ne. ground arith) linked) small
        (omega arith) le (ground arith) refl (λ j is. ground arith) (λ x. ground arith))

build-unused :
    (i : ℕ) (ext : Extents) (head : ℕ)
    → ((e : ℕ) → (ext e).used ≡ false)
    → (e : ℕ) → ((build_free_list i ext head).0 e).used ≡ false
unfolding build_free_list
build-unused zero ext head off e = off e
build-unused (suc i) ext head off e =
    let ext0 = update ext i (record (ext i) { next = ext_none; prev = ext_none }) in
    build-unused i (lst_push ext0 head i).0 (lst_push ext0 head i).1
      (λ x. ground (arith, push-Same ext0 head i x, off x, off i)) e

start-Linked : (n : ℕ) → Linked n (λ e. zero_extent) (heads_with ext_none) (home_from n n)
start-Linked n = record {
  rank = λ e. 0;
  inside = λ e on. ground arith;
  next_home = λ e on ne. ground arith;
  next_prev = λ e on ne. ground arith;
  next_rank = λ e on ne. ground arith;
  prev_home = λ e on ne. ground arith;
  prev_next = λ e on ne. ground arith;
  front = λ e on at. ground arith;
  head_home = λ k is ne. ground arith;
  head_prev = λ k is ne. ground arith;
}

-- After `store_init` every extent is on the free list, no slot is in use, and the invariant holds,
-- for VRAM that the daemon accepts (`g_vram_size / ALLOC_GRAIN < 1 << ENT_GRAIN_BITS`).
pub heap_init-IsValid :
    (vram_size : ℕ)
    → vram_size / alloc_grain < 2 ^ 30
    → IsValid (heap_init vram_size) × ((g : ℕ) → size_at (heap_init vram_size) g ≡ 0)
unfolding heap_init
heap_init-IsValid vram_size small =
    let n : ℕ = u32 (vram_size / extent_size) in
    let h = heap_init vram_size in
    let off = build-unused n (λ e. zero_extent) ext_none (λ e. refl) in
    let linked =
      build-Linked n n (λ e. zero_extent) ext_none (omega arith) (omega arith) (start-Linked n) in
    let none_used : (e : ℕ) → (h.ext e).used ≡ false = off in
    (
      record {
        shaped = record {
          room = omega arith;
          linked =
              Linked-congr (λ e. refl) (λ e. refl) (λ k is. refl) (λ e. ground (arith, off e))
                linked;
          extents = λ e lt on. absurd (ground (arith, off e));
          used_sum = sym (total-zero used_weight n h.ext (λ e lt. ground (arith, off e)));
        };
        busy = λ e lt on. absurd (ground (arith, off e));
        bytes = sym (total-zero bytes_weight n h.ext (λ e lt. ground (arith, off e)));
      },
      λ g. size_at_unused h g (off (g / ext_grains)),
    )
