-- ===== src/Store/IsStore.antt =====
-- The invariant of the store and what it holds: one page for each block.
use nbd_vram.Prelude.{ℕ, ◌*◌, ◌≤◌, ◌≡◌, ◌≢◌, Option, some, ◌==◌, if◌then◌else◌, length}
use nbd_vram.Heap.{alloc_grain, cblk_size}
use nbd_vram.Heap.IsValid.{IsValid}
use nbd_vram.Heap.Regions.{size_at}
use nbd_vram.Entry.{ent_grain, ent_clen}
use nbd_vram.Codec.{Bytes, CodecKind, Library, decomp_block}
use nbd_vram.Store.{Store, dev_at, zeros}
use nbd_vram.Store.Device.{dev_read}

-- the stored bytes that an entry points at
abbrev pub stored : Store → (ent : ℕ) → Bytes
stored st ent = dev_read st.vram (dev_at st (ent_grain ent)) (ent_clen ent)

module _ (lib : Library) (codec : CodecKind) where
  -- The page that a block reads as.
  unfoldable pub page_at : Store → (blk : ℕ) → Option Bytes
  page_at st blk =
      let ent = st.index blk in
      if ent_clen ent == 0
      then some zeros
      else decomp_block lib codec (ent_clen ent) (stored st ent)

  -- A written block has a slot that is large enough, and its bytes there decompress to a page.
  pub record IsHeld (st : Store) (blk : ℕ) : Type 0 where
    pub le : ent_clen (st.index blk) ≤ cblk_size
    pub room : ent_clen (st.index blk) ≤ size_at st.heap (ent_grain (st.index blk)) * alloc_grain
    pub page : Bytes
    pub whole : length page ≡ cblk_size
    pub back :
        decomp_block lib codec (ent_clen (st.index blk)) (stored st (st.index blk)) ≡ some page

  -- The allocator is valid, every written block is held, and no two share a slot.
  pub record IsStore (st : Store) : Type 0 where
    pub heap : IsValid st.heap
    pub held : (blk : ℕ) → ent_clen (st.index blk) ≢ 0 → IsHeld st blk
    pub apart :
        (b c : ℕ)
        → b ≢ c
        → ent_clen (st.index b) ≢ 0
        → ent_clen (st.index c) ≢ 0
        → ent_grain (st.index b) ≢ ent_grain (st.index c)
