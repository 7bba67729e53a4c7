-- ===== src/Heap/Tests.antt =====
-- The allocator on a heap of three extents.
use nbd_vram.Prelude.{ℕ, ◌+◌, ◌*◌, ◌^◌, ◌≡◌, ◌≢◌, ◌⊎◌, refl, arith, true, none, update}
use nbd_vram.Heap.{
  Heap, heap_init, slot_alloc, slot_free, ext_init, ext_take, take_in_word, choose_extent,
  commit_extent, return_slot, recycle_extent, first_partial, build_free_list,
}
use nbd_vram.Heap.Bitmap.{
  SlotMap, ext_bmwords, is_full, set_bit, clear_bit, ctz_not, fresh_bitmap, find_word,
}
use nbd_vram.Heap.Bitmap.Laws.{clear_count, find_word-clear_count}
use nbd_vram.Heap.Links.{Extents, ext_none, lst_push, lst_remove}
use nbd_vram.Heap.Links.Linked.{Linked, nowhere, head-ne-none}
use nbd_vram.Heap.Links.Push.{push-Linked}
use nbd_vram.Heap.Links.Remove.{remove-Linked}
use nbd_vram.Heap.IsValid.{IsValid, heads, home, free_list}
use nbd_vram.Heap.Regions.{size_at}
use nbd_vram.Heap.Init.{heap_init-IsValid}
use nbd_vram.Heap.Alloc.{Allocated, Refused, slot_alloc_lem}
use nbd_vram.Heap.Free.{Freed, slot_free_lem}

abbrev start : Heap
start = heap_init (3 * 2 ^ 20 + 5)

abbrev one : ℕ × ℕ × Heap
one = slot_alloc start 100

abbrev two : ℕ × ℕ × Heap
two = slot_alloc one.2 4096

abbrev three : ℕ × ℕ × Heap
three = slot_alloc two.2 65

abbrev four : ℕ × Heap
four = slot_free three.2 0

abbrev five : ℕ × ℕ × Heap
five = slot_alloc four.1 128

abbrev runs : ℕ × ℕ × ℕ × ℕ × ℕ × ℕ × ℕ × ℕ × ℕ
runs = (
  one.0, one.1, two.0, two.1, three.0, five.0, five.2.slot_bytes, five.2.extents_used,
  five.2.free_head,
)

run : runs ≡ (0, 128, 16384, 4096, 2, 0, 4352, 2, 2)
unfolding heap_init slot_alloc slot_free ext_init ext_take take_in_word choose_extent commit_extent
    return_slot recycle_extent first_partial build_free_list set_bit clear_bit ctz_not fresh_bitmap
    find_word lst_push lst_remove
run = refl

one_size : size_at one.2 0 ≡ 2
unfolding heap_init slot_alloc slot_free ext_init ext_take take_in_word choose_extent commit_extent
    return_slot recycle_extent first_partial build_free_list set_bit clear_bit ctz_not fresh_bitmap
    find_word lst_push lst_remove size_at
one_size = refl

one_IsValid : IsValid one.2
one_IsValid =
    (slot_alloc_lem start 100 (heap_init-IsValid (3 * 2 ^ 20 + 5) (omega arith)).0 (omega arith)
      (omega arith)).0

slot_alloc_lem_example :
    IsValid (slot_alloc one.2 4096).2
    × (Allocated one.2 4096 (slot_alloc one.2 4096) ⊎ Refused one.2 4096 (slot_alloc one.2 4096))
slot_alloc_lem_example = slot_alloc_lem one.2 4096 one_IsValid (omega arith) (omega arith)

slot_free_lem_example : Freed one.2 0 (slot_free one.2 0)
slot_free_lem_example = slot_free_lem one_IsValid 0 (omega (arith, one_size))

start-Linked : Linked start.n_extents start.ext (heads start) (home start)
start-Linked = (heap_init-IsValid (3 * 2 ^ 20 + 5) (omega arith)).0.shaped.linked

start-home : home start 1 ≡ free_list
unfolding heap_init build_free_list lst_push
start-home = refl

start_n : start.n_extents ≡ 3
unfolding heap_init build_free_list lst_push
start_n = refl

remove-Linked_example :
    Linked start.n_extents
      (lst_remove start.ext (heads start 64) 1).0
      (update (heads start) 64 (lst_remove start.ext (heads start 64) 1).1)
      (update (home start) 1 nowhere)
remove-Linked_example =
    remove-Linked start-Linked (omega (arith, start_n)) 64 1 (omega arith) start-home

abbrev unlinked : Extents
unlinked = (lst_remove start.ext (heads start 64) 1).0

abbrev unlinked_heads : ℕ → ℕ
unlinked_heads = update (heads start) 64 (lst_remove start.ext (heads start 64) 1).1

abbrev unlinked_home : ℕ → ℕ
unlinked_home = update (home start) 1 nowhere

push-Linked_example :
    Linked start.n_extents
      (lst_push unlinked (unlinked_heads 5) 1).0
      (update unlinked_heads 5 (lst_push unlinked (unlinked_heads 5) 1).1)
      (update unlinked_home 1 5)
push-Linked_example =
    push-Linked (remove-Linked start-Linked (omega (arith, start_n)) 64 1 (omega arith) start-home)
      (omega (arith, start_n)) 5 1 (omega arith) (omega (arith, start_n)) refl

head-ne-none_example : heads start (home start 1) ≢ ext_none
head-ne-none_example =
    head-ne-none start-Linked (omega (arith, start_n)) 1 (omega (arith, start-home))

abbrev all_taken : SlotMap
all_taken = λ w b. true

nothing_free : find_word ext_bmwords 0 7 all_taken ≡ none
unfolding find_word is_full
nothing_free = refl

find_word-clear_count_example : clear_count all_taken ≡ 0
find_word-clear_count_example = find_word-clear_count 7 all_taken (omega arith) nothing_free
