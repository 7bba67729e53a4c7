-- ===== src/Store/Init.antt =====
-- The store that the daemon starts with (`store_init`, nbd-vram.c).
use nbd_vram.Prelude.{ℕ, ◌/◌, ◌^◌, ◌<◌, ◌≡◌, refl, Bool, some}
use nbd_vram.Heap.{alloc_grain}
use nbd_vram.Heap.Init.{heap_init-IsValid}
use nbd_vram.Entry.Fields.{ent_clen-zero}
use nbd_vram.Codec.{CodecKind, Library}
use nbd_vram.Store.{zeros, store_init}
use nbd_vram.Store.Device.{Memory}
use nbd_vram.Store.IsStore.{page_at, IsStore}

-- After `store_init` the store's invariant holds and every block reads as zeros, for VRAM that the
-- daemon accepts, whatever the memory holds and whichever copies will fail.
pub store_init_lem :
    (lib : Library) (codec : CodecKind) (vram_size disk_size vram_ptr : ℕ) (vram : Memory)
    (copies : ℕ → Bool)
    → vram_size / alloc_grain < 2 ^ 30
    → IsStore lib codec (store_init vram_size disk_size vram_ptr vram copies)
      × ((b : ℕ)
          → page_at lib codec (store_init vram_size disk_size vram_ptr vram copies) b ≡ some zeros)
unfolding store_init page_at
store_init_lem lib codec vram_size disk_size vram_ptr vram copies small = (
  record {
    heap = (heap_init-IsValid vram_size small).0;
    held = λ b written. absurd (written ent_clen-zero);
    apart = λ b c ne written. absurd (written ent_clen-zero);
  },
  λ b. rw (page_at, ent_clen-zero) refl,
)
