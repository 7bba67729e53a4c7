-- ===== src/Batch/Flush/Settle.antt =====
-- The part of `flush_batch` before the replies, on any set of requests.
use nbd_vram.Prelude.{
  ℕ, ◌≡◌, ◌≢◌, ◌⊎◌, inl, inr, refl, arith, sym, ap, ◌∙◌, true, false, Bool-cases, not, ◌&&◌, List,
  [], ◌∷◌, some, ◌==◌, length,
}
use nbd_vram.Codec.{CodecKind, Library, IsLossless}
use nbd_vram.Store.{Store, BlkOp, eio, enospc, cmd_read, cmd_write, wr_abort}
use nbd_vram.Store.IsStore.{page_at, IsStore}
use nbd_vram.Store.Blocks.{each, prepare, do_blocks}
use nbd_vram.Store.Blocks.Ready.{Plain, Ready, read, write, idle, AllSet, Both, Both-map, nil, cons}
use nbd_vram.Store.Blocks.Reqs.{
  reqs_of, Both-reqs, reqs_of-each, reqs_of-prepare, reqs_of-do_blocks,
}
use nbd_vram.Store.Blocks.Issue.{SomeLost}
use nbd_vram.Store.Blocks.Commit.{puts, written}
use nbd_vram.Store.Blocks.Prepare.{prepare-IsPrepared}
use nbd_vram.Store.Blocks.Sets.{Outcome, read_done, write_done, copy_lost, no_room, do_blocks_lem}
use nbd_vram.Batch.{Bop}
use nbd_vram.Batch.Flush.{error_at, note_errors, abort_op, merge_errors, settle}
use nbd_vram.Batch.Flush.Errors.{
  AllOps, AllOps-map, IsIn, length-note_errors, note_keeps, note_op, merge_keeps, merge_stays,
  merge_op, strip, strip-note_errors, strip-merge_errors,
}
use nbd_vram.Batch.Flush.Abort.{Settled, abort-IsPrepared}

-- What becomes of a block of a request, by the errors replied: a read with the page that the block had, a
-- write that is done, where the heap was not full for any block of its request, or a block left alone in a
-- request with an error.
pub data Fate (lib : Library) (codec : CodecKind) (errs : ℕ → ℕ) (st : Store) (inp bo : BlkOp)
    : Type 0 where
  read_ok :
      inp.cmd ≡ cmd_read
      → puts bo ≡ false
      → page_at lib codec st inp.blk ≡ some bo.page
      → Fate lib codec errs st inp bo
  write_ok :
      inp.cmd ≡ cmd_write
      → puts bo ≡ true
      → bo.blk ≡ inp.blk
      → bo.page ≡ inp.page
      → errs inp.req ≢ enospc
      → Fate lib codec errs st inp bo
  failed : puts bo ≡ false → errs inp.req ≢ 0 → Fate lib codec errs st inp bo

-- An error that a request of a batch may end with, if it came with `old`.
abbrev pub MayEnd : Store → (old err : ℕ) → Type 0
MayEnd st old err = (err ≡ old) ⊎ ((err ≡ enospc) ⊎ ((err ≡ eio) × SomeLost st))

-- What a batch comes to before the replies.
pub record Flushed (lib : Library) (codec : CodecKind) (st : Store) (reqs : List Bop)
    (inps : List BlkOp) (r : List Bop × (List BlkOp × Store)) : Type 0 where
  pub store : IsStore lib codec r.1.1
  pub pages : (b : ℕ) → page_at lib codec r.1.1 b ≡ written r.1.0 b (page_at lib codec st b)
  pub fates : Both (Fate lib codec (error_at r.0) st) inps r.1.0
  pub errors : (i : ℕ) → MayEnd st (error_at reqs i) (error_at r.0 i)
  pub same : strip r.0 ≡ strip reqs

Both-AllOps :
    {P : BlkOp → BlkOp → Type 0} {Q : BlkOp → Type 0} {inps ops : List BlkOp}
    → Both P inps ops
    → AllOps Q ops
    → Both (λ inp bo. P inp bo × Q bo) inps ops
Both-AllOps nil all = nil
Both-AllOps (cons inp bo inps ops p rest) all =
    cons inp bo inps ops (p, all.0) (Both-AllOps rest all.1)

AllOps-Both :
    {P : BlkOp → BlkOp → Type 0} {Q : BlkOp → Type 0} {inps ops : List BlkOp}
    → ((inp bo : BlkOp) → P inp bo → Q bo)
    → Both P inps ops
    → AllOps Q ops
AllOps-Both f nil = tt
AllOps-Both f (cons inp bo inps ops p rest) = (f inp bo p, AllOps-Both f rest)

AllOps-reqs :
    (n : ℕ) (inps ops : List BlkOp)
    → reqs_of ops ≡ reqs_of inps
    → AllOps (IsIn n) inps
    → AllOps (IsIn n) ops
AllOps-reqs n [] [] same all = tt
AllOps-reqs n [] (bo ∷ ops) same all = absurd (ground (arith, same))
AllOps-reqs n (inp ∷ inps) [] same all = absurd (ground (arith, same))
AllOps-reqs n (inp ∷ inps) (bo ∷ ops) same all =
    let here : bo.req ≡ inp.req = ground (arith, same) in
    let rest : reqs_of ops ≡ reqs_of inps = ground (arith, same) in
    (omega (arith, here, all.0), AllOps-reqs n inps ops rest all.1)

abort_op-req : (reqs : List Bop) (st : Store) (bo : BlkOp) → (abort_op reqs st bo).0.req ≡ bo.req
unfolding abort_op wr_abort
abort_op-req reqs st bo =
    elim (Bool-cases (bo.cmd == cmd_write && (bo.err == 0 && not (error_at reqs bo.req == 0)))) [
      | inl test ↦ rw test refl
      | inr test ↦ rw test refl
    ]

module _ {lib : Library} {codec : CodecKind} {st : Store} where
  -- The error of a prepared op.
  early_error :
      {st1 : Store} (inp bo : BlkOp)
      → Ready lib codec Plain st st1 inp bo
      → bo.err ≢ 0
      → bo.err ≡ enospc
  early_error inp bo (read snap was) ne = absurd (ne snap.err)
  early_error inp bo (write w was may) ne = absurd (ne w.err)
  early_error inp bo (idle was cmd dma slot (inl goes)) ne = absurd (ground (arith, goes))
  early_error inp bo (idle was cmd dma slot (inr full)) ne = full

  -- The error of an op behind `do_blocks`.
  late_error :
      (errs : ℕ → ℕ) (inp bo : BlkOp)
      → Outcome lib codec (Settled errs) st inp bo
      → bo.err ≢ 0
      → ((errs inp.req ≢ 0) × (bo.err ≡ enospc)) ⊎ ((bo.err ≡ eio) × SomeLost st)
  late_error errs inp bo (read_done was cmd err page) ne = absurd (ne err)
  late_error errs inp bo (write_done was goes err blk page may) ne = absurd (ne err)
  late_error errs inp bo (copy_lost cmd err lost) ne = inr (err, lost)
  late_error errs inp bo (no_room was cmd slot (gone, inl none_yet)) ne = absurd (ne none_yet)
  late_error errs inp bo (no_room was cmd slot (gone, inr full)) ne = inl (gone, full)

  -- What an outcome is by the errors replied, `errs2`, where `errs` are those before the copies.
  fate :
      (errs errs2 : ℕ → ℕ)
      → ((j : ℕ) → errs j ≢ 0 → errs2 j ≢ 0)
      → ((j : ℕ) → errs j ≡ 0 → errs2 j ≢ enospc)
      → (inp bo : BlkOp)
      → (Outcome lib codec (Settled errs) st inp bo × (bo.req ≡ inp.req))
        × (bo.err ≢ 0 → errs2 bo.req ≢ 0)
      → Fate lib codec errs2 st inp bo
  fate errs errs2 stays room inp bo ((read_done was cmd err page, same), told) =
      read_ok was (ground (arith, cmd)) page
  fate errs errs2 stays room inp bo ((write_done was goes err blk page may, same), told) =
      write_ok was goes blk page (room inp.req may)
  fate errs errs2 stays room inp bo ((copy_lost cmd err lost, same), told) =
      failed (ground (arith, err)) (λ z. told (omega (arith, err)) (ap errs2 same ∙ z))
  fate errs errs2 stays room inp bo ((no_room was cmd slot left, same), told) =
      failed (ground (arith, slot)) (stays inp.req left.0)

module _ {lib : Library} {codec : CodecKind} {st : Store} (lossless : IsLossless lib)
    (is : IsStore lib codec st) where
  -- Any ops set for requests of the batch, on a store in which the invariant holds, with a lossless codec: the
  -- invariant holds after; each page is the last one written by an op of the set, or as before; each block is
  -- read, written or left alone as `Fate` says, so that nothing is written for a request that ends with ENOSPC
  -- and all is done for one that ends without an error; a new error is ENOSPC, or EIO if some copy ever fails;
  -- and nothing else of a request changes.
  pub settle_lem :
      (reqs : List Bop) (inps : List BlkOp)
      → AllSet inps
      → AllOps (IsIn (length reqs)) inps
      → Flushed lib codec st reqs inps (settle lib codec reqs inps st)
  unfolding settle
  settle_lem reqs inps sets inside =
      let r1 = each (prepare lib codec) inps st in
      let ops1 = r1.0 in
      let prepared = prepare-IsPrepared lossless inps sets is.heap in
      let same1 = reqs_of-prepare lib codec inps st in
      let inside1 = AllOps-reqs (length reqs) inps ops1 same1 inside in
      let reqs1 = note_errors ops1 reqs in
      let count : length reqs1 ≡ length reqs = length-note_errors ops1 reqs in
      let noted = Both-AllOps (Both-reqs prepared.ready same1) (note_op ops1 reqs inside1) in
      let r2 = each (abort_op reqs1) ops1 r1.1 in
      let aborted = abort-IsPrepared reqs1 prepared noted in
      let same2 = reqs_of-each (abort_op reqs1) (abort_op-req reqs1) ops1 r1.1 ∙ same1 in
      let all = (do_blocks_lem (Settled (error_at reqs1)) is aborted).0 in
      let ops3 = (do_blocks lib codec r2.0 r2.1).0 in
      let same3 = reqs_of-do_blocks lib codec r2.0 r2.1 ∙ same2 in
      let inside3 =
        AllOps-reqs (length reqs1) inps ops3 same3
          (AllOps-map (λ b lt. omega (arith, lt, count)) inps inside) in
      let ended = Both-reqs all.ended same3 in
      let stays : (j : ℕ) → error_at reqs1 j ≢ 0 → error_at (merge_errors ops3 reqs1) j ≢ 0 =
        λ j. merge_stays ops3 reqs1 j inside3 in
      let room : (j : ℕ) → error_at reqs1 j ≡ 0 → error_at (merge_errors ops3 reqs1) j ≢ enospc =
        λ j fine.
          merge_keeps (λ e. e ≢ enospc) ops3 reqs1 j inside3
            (AllOps-Both
              (λ inp bo both at ne z. elim (late_error (error_at reqs1) inp bo both.0 ne) [
                | inl (gone, full) ↦ gone (ap (error_at reqs1) (sym both.1 ∙ at) ∙ fine)
                | inr (io, lost) ↦ omega (arith, io, z)
              ])
              ended)
            (omega (arith, fine)) in
      record {
        store = all.store;
        pages = all.pages;
        fates =
            Both-map (fate (error_at reqs1) (error_at (merge_errors ops3 reqs1)) stays room)
              (Both-AllOps ended (merge_op ops3 reqs1 inside3));
        errors = λ i.
            merge_keeps (MayEnd st (error_at reqs i)) ops3 reqs1 i inside3
              (AllOps-Both
                (λ inp bo both at ne. elim (late_error (error_at reqs1) inp bo both.0 ne) [
                  | inl (gone, full) ↦ inr (inl full)
                  | inr (io, lost) ↦ inr (inr (io, lost))
                ])
                ended)
              (note_keeps (MayEnd st (error_at reqs i)) ops1 reqs i inside1
                (AllOps-Both (λ inp bo ready at ne. inr (inl (early_error inp bo ready ne)))
                  prepared.ready)
                (inl refl));
        same = strip-merge_errors ops3 reqs1 ∙ strip-note_errors ops1 reqs;
      }
