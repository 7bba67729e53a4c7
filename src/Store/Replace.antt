-- ===== src/Store/Replace.antt =====
-- A slot is taken and filled, and then published.
use nbd_vram.Prelude.{ℕ, ◌+◌, ◌*◌, ◌≤◌, ◌<◌, ◌≡◌, ◌≢◌, inl, inr, refl, arith, length, sym, ◌∙◌, ap}
use nbd_vram.Heap.{Heap, alloc_grain, cblk_size}
use nbd_vram.Heap.IsValid.{IsValid}
use nbd_vram.Heap.Regions.{size_at, live-disjoint}
use nbd_vram.Heap.Alloc.{Allocated}
use nbd_vram.Entry.{ent_grain}
use nbd_vram.Codec.{Bytes, CodecKind, Library}
use nbd_vram.Codec.RoundTrip.{IsStored}
use nbd_vram.Store.{Store, dev_at, publish_entry, account}
use nbd_vram.Store.Device.{dev_read, dev_write, dev_read-dev_write, dev_read-frame}
use nbd_vram.Store.IsStore.{IsStore}
use nbd_vram.Store.Keeps.{Keeps, keeps-Unchanged, IsReserved}
use nbd_vram.Store.Publish.{Replaced, publish_lem}

-- The state with the slot taken and the bytes copied to it.
abbrev pub landed : Store → Heap → (grain : ℕ) → Bytes → (copies_done : ℕ) → Store
landed st heap grain bytes k = record st {
  heap = heap;
  vram = dev_write st.vram (dev_at st grain) bytes;
  copies_done = k;
}

-- Bytes written to one slot leave those of another as they were.
pub slot_frame :
    {h : Heap} (valid : IsValid h) (m : ℕ → ℕ) (base g k n : ℕ) (bytes : Bytes)
    → 0 < size_at h g
    → 0 < size_at h k
    → k ≢ g
    → n ≤ size_at h g * alloc_grain
    → length bytes ≤ size_at h k * alloc_grain
    → dev_read (dev_write m (base + k * alloc_grain) bytes) (base + g * alloc_grain) n
      ≡ dev_read m (base + g * alloc_grain) n
slot_frame {h} valid m base g k n bytes live_g live_k ne le fits =
    dev_read-frame m (base + k * alloc_grain) bytes (base + g * alloc_grain) n
      (elim (live-disjoint {h = h} g k valid.shaped live_g live_k (λ e. ne (sym e))) [
        | inl before ↦ inl (omega (arith, before, le))
        | inr after ↦ inr (omega (arith, after, fits))
      ])

module _ {lib : Library} {codec : CodecKind} {st : Store} (is : IsStore lib codec st)
    (blk k clen : ℕ) (page bytes : Bytes) (whole : length page ≡ cblk_size)
    (packed : IsStored lib codec page (clen, bytes)) (r : ℕ × ℕ × Heap) (valid : IsValid r.2)
    (got : Allocated st.heap clen r) where
  abbrev mid : Store
  mid = landed st r.2 r.0 bytes k

  fresh_size : clen ≤ size_at r.2 r.0 * alloc_grain
  fresh_size = omega (arith, got.size, got.enough)

  -- A slot in use before is another one than the new slot.
  other_grain : (g : ℕ) → 0 < size_at st.heap g → r.0 ≢ g
  other_grain g live e = omega (arith, live, got.was_free, ap (λ g. size_at st.heap g) e)

  pub landed-Keeps : Keeps st mid
  landed-Keeps = record {
    index = λ b. refl;
    sizes = λ g live. got.others g (other_grain g live);
    bytes = λ g n live le.
        let same = got.others g (other_grain g live) in
        slot_frame valid st.vram st.vram_ptr g r.0 n bytes (omega (arith, same, live))
          (omega (arith, fresh_size, packed.pos)) (other_grain g live) (omega (arith, same, le))
          (omega (arith, fresh_size, packed.bytes));
  }

  landed-IsReserved : IsReserved lib codec mid r.0 clen page
  landed-IsReserved = record {
    pos = packed.pos;
    le = packed.le;
    room = fresh_size;
    whole = whole;
    back =
        let same : dev_read mid.vram (dev_at st r.0) clen ≡ bytes =
          rw (← packed.bytes) (dev_read-dev_write st.vram (dev_at st r.0) bytes) in
        rw same packed.back;
    apart =
        λ b written. other_grain (ent_grain (st.index b)) (omega (arith, (is.held b written).room));
  }

  -- Storing a block anew keeps the store's invariant, makes the block read as the new page, and
  -- changes no other block.
  pub replace_lem :
      Replaced lib codec st blk page (account (publish_entry mid blk r.0 clen) (st.index blk) clen)
  replace_lem =
      let kept = keeps-Unchanged landed-Keeps is valid in
      let new = publish_lem kept.store blk r.0 clen page landed-IsReserved in
      record { store = new.store; here = new.here; others = λ b ne. new.others b ne ∙ kept.pages b }
