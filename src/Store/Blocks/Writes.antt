-- ===== src/Store/Blocks/Writes.antt =====
-- A whole block written by `wr_prepare` and `do_blocks`.
use nbd_vram.Prelude.{
  ℕ, ◌+◌, ◌<◌, ◌≡◌, inl, inr, refl, arith, true, false, List, [], ◌∷◌, ◌==◌, length, Bool-cases, ap,
}
use nbd_vram.Heap.{Heap, slot_alloc, slot_none, cblk_size}
use nbd_vram.Heap.IsValid.{IsValid}
use nbd_vram.Heap.Regions.{size_at}
use nbd_vram.Heap.Alloc.{Allocated, Refused, slot_alloc_lem}
use nbd_vram.Codec.{Bytes, CodecKind, Library, IsLossless, comp_block}
use nbd_vram.Codec.RoundTrip.{IsStored, comp_block-IsStored}
use nbd_vram.Store.{
  Store, BlkOp, eio, enospc, cmd_read, cmd_write, wr_prepare, wr_publish, copy_to_device,
  note_enospc, account, publish_entry,
}
use nbd_vram.Store.IsStore.{IsStore}
use nbd_vram.Store.Publish.{Replaced}
use nbd_vram.Store.Replace.{landed, replace_lem}
use nbd_vram.Store.Keeps.{Keeps, Unchanged, IsStore-Unchanged}
use nbd_vram.Store.Rmw.{Full}
use nbd_vram.Store.Blocks.{
  each, issue, send, pending, publish, validate, validate_all, rounds, read_locked, do_blocks,
}

module _ (lib : Library) (codec : CodecKind) (st : Store) (bo : BlkOp)
    (no_read : (bo.cmd == cmd_read) ≡ false) where
  -- The retries are for reads.
  rounds_lem : rounds lib codec 4 (bo ∷ []) st ≡ (bo ∷ [], st)
  unfolding rounds validate_all validate pending
  rounds_lem = rw (rounds, validate_all, validate, no_read) refl

  locked_lem : read_locked lib codec st bo ≡ (bo, st)
  unfolding read_locked pending
  locked_lem = rw no_read refl

do_blocks_lem :
    (lib : Library) (codec : CodecKind) (st st1 : Store) (bo bo1 : BlkOp)
    → issue st bo ≡ (bo1, st1)
    → (bo1.cmd == cmd_read) ≡ false
    → do_blocks lib codec (bo ∷ []) st ≡ ((publish st1 bo1).0 ∷ [], (publish st1 bo1).1)
unfolding do_blocks each
do_blocks_lem lib codec st st1 bo bo1 issued no_read =
    rw
      (
        do_blocks,
        issued,
        rounds_lem lib codec st1 bo1 no_read,
        locked_lem lib codec st1 bo1 no_read,
      )
      refl

-- The op and the state after a write of one block.
abbrev pub write_block : (lib : Library) → CodecKind → Store → BlkOp → List BlkOp × Store
write_block lib codec st bo =
    let (bo1, st1) = wr_prepare lib codec st bo in do_blocks lib codec (bo1 ∷ []) st1

-- What it comes to.
pub data WriteOutcome (lib : Library) (codec : CodecKind) (st : Store) (bo : BlkOp)
    : List BlkOp × Store → Type 0 where
  published :
      (bo' : BlkOp) (st' : Store)
      → bo'.err ≡ 0
      → Replaced lib codec st bo.blk bo.page st'
      → WriteOutcome lib codec st bo (bo' ∷ [], st')
  heap_full :
      (bo' : BlkOp) (st' : Store)
      → bo'.err ≡ enospc
      → Full st.heap (comp_block lib codec bo.page).0
      → Unchanged lib codec st st'
      → WriteOutcome lib codec st bo (bo' ∷ [], st')
  copy_failed :
      (bo' : BlkOp) (st' : Store)
      → bo'.err ≡ eio
      → st.copies st.copies_done ≡ false
      → Unchanged lib codec st st'
      → 0 < size_at st'.heap bo'.grain
      → size_at st.heap bo'.grain ≡ 0
      → WriteOutcome lib codec st bo (bo' ∷ [], st')

module _ {lib : Library} {codec : CodecKind} (lossless : IsLossless lib) {st : Store}
    (is : IsStore lib codec st) (bo : BlkOp) (cmd : bo.cmd ≡ cmd_write) (no_err : bo.err ≡ 0)
    (whole : length bo.page ≡ cblk_size) where
  is_write : (bo.cmd == cmd_write) ≡ true
  is_write = ground (arith, cmd)

  is_read : (bo.cmd == cmd_read) ≡ false
  is_read = ground (arith, cmd)

  fine : (bo.err == 0) ≡ true
  fine = ground (arith, no_err)

  issue-sent :
      (grain n : ℕ) (bytes : Bytes) (heap : Heap)
      → st.copies st.copies_done ≡ true
      → issue
          (record st { heap = heap })
          (record bo { clen = n; cslot = bytes; grain = grain; dma = 1 })
        ≡ (
          record bo { clen = n; cslot = bytes; grain = grain; dma = 1 },
          landed st heap grain bytes (st.copies_done + 1),
        )
  unfolding issue send copy_to_device
  issue-sent grain n bytes heap sent = rw (fine, is_read, copy_to_device, sent) refl

  issue-lost :
      (grain n : ℕ) (bytes : Bytes) (heap : Heap)
      → st.copies st.copies_done ≡ false
      → issue
          (record st { heap = heap })
          (record bo { clen = n; cslot = bytes; grain = grain; dma = 1 })
        ≡ (
          record bo { clen = n; cslot = bytes; grain = grain; dma = 0; err = eio },
          record st { heap = heap; copies_done = st.copies_done + 1 },
        )
  unfolding issue send copy_to_device
  issue-lost grain n bytes heap lost = rw (fine, is_read, copy_to_device, lost) refl

  others_kept :
      (n : ℕ) (r : ℕ × ℕ × Heap)
      → Allocated st.heap n r
      → Keeps st (record st { heap = r.2; copies_done = st.copies_done + 1 })
  others_kept n r got = record {
    index = λ b. refl;
    bytes = λ g n live le. refl;
    sizes = λ g live. got.others g (λ e. omega (arith, live, got.was_free, ap (size_at st.heap) e));
  }

  taken_lem :
      (p : ℕ × Bytes) (r : ℕ × ℕ × Heap)
      → comp_block lib codec bo.page ≡ p
      → slot_alloc st.heap p.0 ≡ r
      → IsStored lib codec bo.page p
      → IsValid r.2
      → Allocated st.heap p.0 r
      → WriteOutcome lib codec st bo (write_block lib codec st bo)
  unfolding wr_prepare publish wr_publish
  taken_lem (n, bytes) (grain, size, heap) ep er packed valid got =
      let found : (grain == slot_none) ≡ false =
        ground (arith, got.inside, is.heap.shaped.room, got.size, got.enough, packed.pos) in
      let bo1 = record bo { clen = n; cslot = bytes; grain = grain; dma = 1 } in
      let st1 = record st { heap = heap } in
      elim (Bool-cases (st.copies st.copies_done)) [
        | inl sent ↦
            rw
              (
                wr_prepare,
                ep,
                er,
                found,
                do_blocks_lem lib codec st1 (landed st heap grain bytes (st.copies_done + 1)) bo1
                    bo1 (issue-sent grain n bytes heap sent) is_read,
                is_write,
                fine,
                found,
              )
              (published bo1
                (account
                  (publish_entry (landed st heap grain bytes (st.copies_done + 1)) bo.blk grain n)
                  (st.index bo.blk) n)
                no_err
                (replace_lem is bo.blk (st.copies_done + 1) n bo.page bytes whole packed
                  (grain, size, heap) valid got))
        | inr lost ↦
            rw
              (
                wr_prepare,
                ep,
                er,
                found,
                do_blocks_lem lib codec st1
                    (record st { heap = heap; copies_done = st.copies_done + 1 }) bo1
                    (record bo1 { dma = 0; err = eio }) (issue-lost grain n bytes heap lost)
                    is_read,
                is_write,
              )
              (copy_failed (record bo1 { dma = 0; err = eio })
                (record st { heap = heap; copies_done = st.copies_done + 1 }) refl lost
                (IsStore-Unchanged is valid (others_kept n (grain, size, heap) got))
                (omega (arith, got.size, got.enough, packed.pos)) got.was_free)
      ]

  refused_lem :
      (p : ℕ × Bytes)
      → comp_block lib codec bo.page ≡ p
      → Refused st.heap p.0 (slot_alloc st.heap p.0)
      → WriteOutcome lib codec st bo (write_block lib codec st bo)
  unfolding wr_prepare issue publish
  refused_lem (n, bytes) ep miss =
      let bo1 = record bo { clen = n; cslot = bytes; grain = slot_none; err = enospc; dma = 0 } in
      rw
        (
          wr_prepare,
          ep,
          miss.result,
          do_blocks_lem lib codec (note_enospc st) (note_enospc st) bo1 bo1 refl is_read,
          is_write,
        )
        (heap_full bo1 (note_enospc st) refl
          (rw ep (record { all_used = miss.all_used; all_full = miss.all_full }))
          (IsStore-Unchanged is is.heap
            (record { index = λ b. refl; bytes = λ g n live le. refl; sizes = λ g live. refl })))

  -- A write of one whole block by `wr_prepare` and `do_blocks` keeps the store's invariant and leaves
  -- every other block as it was. It ends without an error and the block reads as the new page, or
  -- with `ENOSPC` when the heap has no slot for it, or with `EIO` when its copy failed; with an error
  -- the block too is as it was. After `EIO` the slot that was reserved for the op is in use still.
  pub write_block_lem : WriteOutcome lib codec st bo (write_block lib codec st bo)
  write_block_lem =
      let packed = comp_block-IsStored lossless bo.page whole codec in
      let n : ℕ = (comp_block lib codec bo.page).0 in
      let (valid, cases) = slot_alloc_lem st.heap n is.heap packed.pos packed.le in
      elim cases [
        | inl got ↦
            taken_lem (comp_block lib codec bo.page) (slot_alloc st.heap n) refl refl packed valid
              got
        | inr miss ↦ refused_lem (comp_block lib codec bo.page) refl miss
      ]
