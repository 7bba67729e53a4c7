-- ===== src/Store/Blocks/Sets.antt =====
-- A set of reads and writes, from their preparation to the end of `do_blocks`.
use nbd_vram.Prelude.{ℕ, ◌≡◌, ◌≢◌, refl, arith, Bool, true, List, some, ◌∙◌, ap, false}
use nbd_vram.Heap.{slot_none}
use nbd_vram.Heap.Regions.{size_at}
use nbd_vram.Entry.{ent_grain, ent_clen}
use nbd_vram.Codec.{CodecKind, Library}
use nbd_vram.Store.{Store, BlkOp, eio, dev_at, cmd_read, cmd_write}
use nbd_vram.Store.Device.{dev_read}
use nbd_vram.Store.IsStore.{page_at, IsStore}
use nbd_vram.Store.Keeps.{Keeps, IsStore-Unchanged, IsReserved}
use nbd_vram.Store.Blocks.{each, issue, validate_all, do_blocks}
use nbd_vram.Store.Blocks.Ready.{IsWaiting, Avoid, Distinct, Both, Both-map, nil, cons, IsPrepared}
use nbd_vram.Store.Blocks.Issue.{SomeLost, at_mem, KeepsOld, issue_all}
use nbd_vram.Store.Blocks.Execute.{
  Ended, got, put, lost_copy, no_slot, validate_each, locked_each, do_blocks-each,
}
use nbd_vram.Store.Blocks.Errors.{errs_of, copy_errors, errs_of-issue, errs_of-validate}
use nbd_vram.Store.Blocks.Commit.{puts, written, Spares, AllReserved, publish_all}

-- How an op ended: a read holds the page that its block had, a write is done, a copy failed, or there was
-- no slot for the write.
pub data Outcome (lib : Library) (codec : CodecKind) (lot : ℕ → Bool → ℕ → Type 0) (st : Store)
    (inp bo : BlkOp) : Type 0 where
  read_done :
      inp.cmd ≡ cmd_read
      → bo.cmd ≡ cmd_read
      → bo.err ≡ 0
      → page_at lib codec st inp.blk ≡ some bo.page
      → Outcome lib codec lot st inp bo
  write_done :
      inp.cmd ≡ cmd_write
      → puts bo ≡ true
      → bo.err ≡ 0
      → bo.blk ≡ inp.blk
      → bo.page ≡ inp.page
      → lot inp.req true 0
      → Outcome lib codec lot st inp bo
  copy_lost : bo.cmd ≡ inp.cmd → bo.err ≡ eio → SomeLost st → Outcome lib codec lot st inp bo
  no_room :
      inp.cmd ≡ cmd_write
      → bo.cmd ≡ cmd_write
      → bo.grain ≡ slot_none
      → lot inp.req false bo.err
      → Outcome lib codec lot st inp bo

-- What a set of ops comes to: each ended, the invariant kept, and the blocks written in order.
pub record Executed (lib : Library) (codec : CodecKind) (lot : ℕ → Bool → ℕ → Type 0) (st : Store)
    (inps : List BlkOp) (r : List BlkOp × Store) : Type 0 where
  pub store : IsStore lib codec r.1
  pub ended : Both (Outcome lib codec lot st) inps r.0
  pub pages : (b : ℕ) → page_at lib codec r.1 b ≡ written r.0 b (page_at lib codec st b)

module _ {lib : Library} {codec : CodecKind} (lot : ℕ → Bool → ℕ → Type 0) {st : Store}
    (is : IsStore lib codec st) where
  outcome :
      {st1 : Store} {m : ℕ → ℕ} (inp bo : BlkOp)
      → Ended lib codec lot st st1 m inp bo
      → Outcome lib codec lot st inp bo
  outcome inp bo (got now was) = read_done was now.cmd now.err now.page
  outcome inp bo (put w was may bytes) =
      write_done was (ground (arith, w.cmd, w.err, w.slot)) w.err w.blk w.page may
  outcome inp bo (lost_copy blk cmd err dma why) = copy_lost cmd err why
  outcome inp bo (no_slot was cmd dma slot left) = no_room was cmd slot left

  -- A slot that was free before is no block's.
  reserved :
      {st1 : Store} (m : ℕ → ℕ) (k : ℕ) (inp bo : BlkOp)
      → ((b : ℕ) → st1.index b ≡ st.index b)
      → IsWaiting lib codec st st1 inp bo
      → dev_read m (dev_at st1 bo.grain) bo.clen ≡ bo.cslot
      → IsReserved lib codec (at_mem st1 m k) bo.grain bo.clen bo.page
  reserved m k inp bo same w bytes = record {
    pos = w.packed.pos;
    le = w.packed.le;
    room = w.room;
    whole = rw w.page w.whole;
    back = rw (bytes, w.page) w.packed.back;
    apart = λ b written e.
        let before : ent_clen (st.index b) ≢ 0 = rw (← same b) written in
        let here : bo.grain ≡ ent_grain (st.index b) = e ∙ ap ent_grain (same b) in
        omega (arith, (is.held b before).room, before, w.was_free, ap (size_at st.heap) here);
  }

  puts_waits :
      {st1 : Store} {m : ℕ → ℕ} (inp bo : BlkOp)
      → Ended lib codec lot st st1 m inp bo
      → puts bo ≡ true
      → (bo.cmd ≡ cmd_write) × (bo.dma ≡ 1)
  puts_waits inp bo (got now was) goes = absurd (ground (arith, now.cmd, goes))
  puts_waits inp bo (put w was may bytes) goes = (w.cmd, w.dma)
  puts_waits inp bo (lost_copy blk cmd err dma why) goes = absurd (ground (arith, err, goes))
  puts_waits inp bo (no_slot was cmd dma slot left) goes = absurd (ground (arith, slot, goes))

  spares :
      {st1 : Store} {m : ℕ → ℕ} (g : ℕ) {inps ops : List BlkOp}
      → Both (Ended lib codec lot st st1 m) inps ops
      → Avoid g ops
      → Spares g ops
  spares g nil avoid = tt
  spares g (cons inp bo inps ops ended more) avoid = (
    (λ goes. let (cmd, dma) = puts_waits inp bo ended goes in avoid.0 cmd dma),
    spares g more avoid.1,
  )

  own :
      {st1 : Store} (m : ℕ → ℕ) (k : ℕ) (inp bo : BlkOp)
      → ((b : ℕ) → st1.index b ≡ st.index b)
      → Ended lib codec lot st st1 m inp bo
      → puts bo ≡ true
      → IsReserved lib codec (at_mem st1 m k) bo.grain bo.clen bo.page
  own m k inp bo same (got now was) goes = absurd (ground (arith, now.cmd, goes))
  own m k inp bo same (put w was may bytes) goes = reserved m k inp bo same w bytes
  own m k inp bo same (lost_copy blk cmd err dma why) goes = absurd (ground (arith, err, goes))
  own m k inp bo same (no_slot was cmd dma slot left) goes = absurd (ground (arith, slot, goes))

  all_reserved :
      {st1 : Store} (m : ℕ → ℕ) (k : ℕ)
      → ((b : ℕ) → st1.index b ≡ st.index b)
      → {inps ops : List BlkOp} → Both (Ended lib codec lot st st1 m) inps ops
      → Distinct ops
      → AllReserved lib codec (at_mem st1 m k) ops
  all_reserved m k same nil distinct = tt
  all_reserved m k same (cons inp bo inps ops ended more) distinct = (
    (λ goes.
        let (cmd, dma) = puts_waits inp bo ended goes in
        (own m k inp bo same ended goes, spares bo.grain more (distinct.0 cmd dma))),
    all_reserved m k same more distinct.1,
  )

  -- `do_blocks` on prepared ops, with no other worker running, in a store in which the invariant holds: every
  -- op ends as `Outcome` says, a read with the page that its block had before the set or a write that is done,
  -- if neither its copy failed nor it had no slot. The error of each op is that of its own copy: the copies are
  -- made in the order of the ops that want one, each ends with EIO exactly if its copy fails, and the ops that
  -- want none keep the error from before. The invariant is kept, and every block reads as the last write to it
  -- that is done, or as before if there is none.
  pub do_blocks_lem :
      {inps ops : List BlkOp} {st1 : Store}
      → IsPrepared lib codec lot st inps ops st1
      → Executed lib codec lot st inps (do_blocks lib codec ops st1)
        × (errs_of (do_blocks lib codec ops st1).0 ≡ copy_errors st1.copies st1.copies_done ops)
  do_blocks_lem {inps} {ops} {st1} prepared =
      let old : KeepsOld st st1.vram = λ g n live le. rw prepared.vram refl in
      let issued =
        issue_all lot is prepared.valid prepared.keeps prepared.vram_ptr prepared.copies
          prepared.ready prepared.distinct st1.vram st1.copies_done old in
      let m = issued.after_mem in
      let k : ℕ = issued.after_done in
      let s : Store = at_mem st1 m k in
      let ops1 = (each issue ops st1).0 in
      let (ended, zero_lost, apart, avoid) =
        validate_each is m s prepared.keeps.index issued.copied issued.distinct in
      let locked = locked_each is m s prepared.keeps.index ended in
      let steps =
        do_blocks-each lib codec ops ops1 st1 s (λ i. (ops1, issued.state i)) zero_lost locked in
      let keeps : Keeps st s = record {
        index = prepared.keeps.index;
        sizes = prepared.keeps.sizes;
        bytes = λ g n live le. rw prepared.vram_ptr (issued.old g n live le);
      } in
      let kept = IsStore-Unchanged is prepared.valid keeps in
      let all =
        publish_all (validate_all lib codec s ops1).0 kept.store
          (all_reserved m k prepared.keeps.index ended apart) in
      let errors =
        errs_of-validate is m s prepared.keeps.index issued.copied ∙ errs_of-issue ops st1 in
      rw steps (
        record {
          store = all.store;
          ended = rw all.ops_same (Both-map outcome ended);
          pages = λ b.
              rw all.ops_same
                (all.pages b ∙ ap (written (validate_all lib codec s ops1).0 b) (kept.pages b));
        },
        rw all.ops_same errors,
      )
