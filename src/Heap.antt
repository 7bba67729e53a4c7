-- ===== src/Heap.antt =====
-- The extent allocator (nbd-vram.c, "Extent allocator"): `slot_alloc` and `slot_free` over an array
-- of extents, a bitmap for each, one list of partial extents for each size class and a free list.
-- Each of them holds `g_alloc_mu` from start to end, so each is one step here. `EXTENT_SHIFT` is its
-- default, 20.
pub mod Bitmap
pub mod Links
pub mod IsValid
pub mod Regions
pub mod Choose
pub mod Take
pub mod TakeSizes
pub mod Alloc
pub mod Init
pub mod Give
pub mod Free
pub mod History
pub mod Recycle
pub mod Commit
pub mod Slots
mod Tests
use nbd_vram.Prelude.{
  ℕ, zero, suc, ◌+◌, ◌-◌, ◌*◌, ◌/◌, ◌%◌, ◌^◌, Bool, true, false, not, none, some, ltb, leb, ◌==◌,
  if◌then◌else◌, update,
}
use nbd_vram.Heap.Bitmap.{
  SlotMap, ext_bmwords, ext_grains, set_bit, clear_bit, ctz_not, fresh_bitmap, find_word,
}
use nbd_vram.Heap.Links.{Extent, Extents, ext_none, lst_push, lst_remove}

-- `CBLK_SIZE`
abbrev pub cblk_size : ℕ
cblk_size = 4096

-- `SLOT_NONE`
abbrev pub slot_none : ℕ
slot_none = 0xFFFF_FFFF

abbrev pub alloc_grain : ℕ
alloc_grain = 64

-- `NCLASS`: class k holds slots of (k + 1) * 64 bytes
abbrev pub nclass : ℕ
nclass = 64

abbrev pub extent_size : ℕ
extent_size = 2 ^ 20

-- conversions to `uint8_t`, `uint16_t` and `uint32_t`
abbrev pub u8 : ℕ → ℕ
u8 x = x % 2 ^ 8

abbrev pub u16 : ℕ → ℕ
u16 x = x % 2 ^ 16

abbrev pub u32 : ℕ → ℕ
u32 x = x % 2 ^ 32

-- The globals that `g_alloc_mu` guards. `g_ext`, `g_extbm` and `g_class_head` are functions of the
-- index.
pub record Heap : Type 0 where
  pub ext : Extents
  pub extbm : ℕ → SlotMap
  pub n_extents : ℕ
  pub extents_used : ℕ
  pub extents_peak : ℕ
  pub class_head : ℕ → ℕ
  pub free_head : ℕ
  pub slot_bytes : ℕ

-- the number of slots of a class in one extent
abbrev pub slots_of : ℕ → ℕ
slots_of cls = u16 (extent_size / ((cls + 1) * alloc_grain))

unfoldable pub ext_init : Heap → (ei cls : ℕ) → Heap
ext_init h ei cls = record h {
  ext = update h.ext ei (record (h.ext ei) {
    cls = u8 cls;
    used = true;
    nslots = slots_of cls;
    nfree = slots_of cls;
    hint = 0;
  });
  extbm = update h.extbm ei (fresh_bitmap (slots_of cls));
}

-- The body of the loop of `ext_take`, at the word that it stops at.
unfoldable pub take_in_word : Heap → (ei w : ℕ) → ℕ × Heap
take_in_word h ei w =
    let b = ctz_not (h.extbm ei w) in
    let e = h.ext ei in
    let nfree = u16 (e.nfree + (2 ^ 16 - 1)) in
    let ext1 = update h.ext ei (record e { hint = u16 w; nfree = nfree }) in
    let unlinked = lst_remove ext1 (h.class_head e.cls) ei in
    let slot = w * 64 + b in
    (
      u32 (ei * ext_grains + slot * (e.cls + 1)),
      record h {
        extbm = update h.extbm ei (set_bit (h.extbm ei) w b);
        ext = if nfree == 0 then unlinked.0 else ext1;
        class_head = if nfree == 0 then update h.class_head e.cls unlinked.1 else h.class_head;
      },
    )

unfoldable pub ext_take : Heap → (ei : ℕ) → ℕ × Heap
ext_take h ei = elim (find_word ext_bmwords 0 (h.ext ei).hint (h.extbm ei)) [
  | none ↦ (slot_none, h)
  | some w ↦ take_in_word h ei w
]

-- the first class with a partial extent, of the `n` classes from `c` on
unfoldable pub first_partial : (n c : ℕ) → (ℕ → ℕ) → ℕ
first_partial zero c class_head = ext_none
first_partial (suc n) c class_head =
    let rest = first_partial n (c + 1) class_head in
    if class_head c == ext_none then rest else class_head c

-- The fresh extent that `slot_alloc` hands to a class that has no partial one.
unfoldable pub commit_extent : Heap → (cls : ℕ) → Heap
commit_extent h cls =
    let ei = h.free_head in
    let taken = lst_remove h.ext h.free_head ei in
    let h1 = ext_init (record h { ext = taken.0; free_head = taken.1 }) ei cls in
    let pushed = lst_push h1.ext (h1.class_head cls) ei in
    let used_now = h.extents_used + 1 in
    record h1 {
      ext = pushed.0;
      class_head = update h1.class_head cls pushed.1;
      extents_used = used_now;
      extents_peak = if ltb h.extents_peak used_now then used_now else h.extents_peak;
    }

-- The extent that `slot_alloc` takes from, `ext_none` if the heap is full, and the heap with it
-- committed.
unfoldable pub choose_extent : Heap → (cls : ℕ) → ℕ × Heap
choose_extent h cls =
    if not (h.class_head cls == ext_none)
    then (h.class_head cls, h)
    else (if not (h.free_head == ext_none)
        then (h.free_head, commit_extent h cls)
        else (first_partial (nclass - (cls + 1)) (cls + 1) h.class_head, h))

-- The size class of a request of 1 to `CBLK_SIZE` bytes.
abbrev pub class_of : ℕ → ℕ
class_of nbytes = u32 (nbytes + (2 ^ 32 - 1)) / alloc_grain

-- The grain, the bytes reserved (0 where the code leaves `*slot_bytes` alone), and the heap after.
unfoldable pub slot_alloc : Heap → (nbytes : ℕ) → ℕ × ℕ × Heap
slot_alloc h nbytes =
    let (ei, h1) = choose_extent h (class_of nbytes) in
    let (grain, h2) = ext_take h1 ei in
    let bytes = ((h2.ext ei).cls + 1) * alloc_grain in
    if ei == ext_none
    then (slot_none, 0, h1)
    else (if grain == slot_none
        then (slot_none, 0, h2)
        else (grain, bytes, record h2 { slot_bytes = h2.slot_bytes + bytes }))

-- The part of `slot_free` that recycles an extent with no slot in use.
unfoldable pub recycle_extent : Heap → (ei : ℕ) → Heap
recycle_extent h ei =
    let e = h.ext ei in
    let gone = lst_remove h.ext (h.class_head e.cls) ei in
    let ext1 = update gone.0 ei (record (gone.0 ei) { used = false }) in
    let pushed = lst_push ext1 h.free_head ei in
    record h {
      ext = pushed.0;
      class_head = update h.class_head e.cls gone.1;
      free_head = pushed.1;
      extents_used = h.extents_used - 1;
    }

-- The part of `slot_free` that clears the bit and counts the slot free.
unfoldable pub return_slot : Heap → (ei slot : ℕ) → Heap
return_slot h ei slot =
    let e = h.ext ei in
    let listed = lst_push h.ext (h.class_head e.cls) ei in
    let ext1 = if e.nfree == 0 then listed.0 else h.ext in
    let e1 = ext1 ei in
    let hint = if ltb (slot / 64) e.hint then u16 (slot / 64) else e.hint in
    record h {
      extbm = update h.extbm ei (clear_bit (h.extbm ei) (slot / 64) (slot % 64));
      ext = update ext1 ei (record e1 { nfree = u16 (e.nfree + 1); hint = hint });
      class_head = if e.nfree == 0 then update h.class_head e.cls listed.1 else h.class_head;
    }

-- The bytes released and the heap after. The two counters are above zero here
-- (`Heap.Free`), so their atomic subtractions do not wrap.
unfoldable pub slot_free : Heap → (grain : ℕ) → ℕ × Heap
slot_free h grain =
    let ei = grain / ext_grains in
    let e = h.ext ei in
    let slot = grain % ext_grains / (e.cls + 1) in
    let sz = (e.cls + 1) * alloc_grain in
    let h1 = return_slot h ei slot in
    let h2 = if (h1.ext ei).nfree == (h1.ext ei).nslots then recycle_extent h1 ei else h1 in
    (sz, record h2 { slot_bytes = h2.slot_bytes - sz })

unfoldable pub heap_committed : Heap → ℕ
heap_committed h = h.extents_used * extent_size

-- The loop of `store_init` that builds the free list, `i` extents before its end.
unfoldable pub build_free_list : (i : ℕ) → Extents → (head : ℕ) → Extents × ℕ
build_free_list zero ext head = (ext, head)
build_free_list (suc i) ext head =
    let unlinked = update ext i (record (ext i) { next = ext_none; prev = ext_none }) in
    let (ext1, head1) = lst_push unlinked head i in build_free_list i ext1 head1

-- `calloc`
abbrev pub zero_extent : Extent
zero_extent = record { next = 0; prev = 0; nfree = 0; nslots = 0; cls = 0; used = false; hint = 0 }

-- The allocator's part of `store_init`, for VRAM of `vram_size` bytes.
unfoldable pub heap_init : (vram_size : ℕ) → Heap
heap_init vram_size =
    let n = u32 (vram_size / extent_size) in
    let (ext, head) = build_free_list n (λ e. zero_extent) ext_none in
    record {
      ext = ext;
      extbm = λ e w b. false;
      n_extents = n;
      extents_used = 0;
      extents_peak = 0;
      class_head = λ c. ext_none;
      free_head = head;
      slot_bytes = 0;
    }
