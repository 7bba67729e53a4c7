-- ===== src/Batch/Flush.antt =====
-- `flush_batch` (nbd-vram.c): the requests of a batch run as one set of block ops, and their replies. The
-- buffer of each request is the list of its bytes, by the request's number.
pub mod Errors
pub mod Abort
pub mod Settle
pub mod Laid
pub mod Replies
mod Tests
use nbd_vram.Prelude.{
  ℕ, zero, suc, ◌+◌, ◌/◌, Bool, true, false, not, ◌&&◌, ◌||◌, List, [], ◌∷◌, ◌++◌, ◌==◌,
  if◌then◌else◌, take, drop,
}
use nbd_vram.Heap.{cblk_size}
use nbd_vram.Codec.{Bytes, CodecKind, Library}
use nbd_vram.Store.{Store, BlkOp, eio, cmd_read, cmd_write, wr_abort}
use nbd_vram.Store.Blocks.{each, prepare, do_blocks}
use nbd_vram.Store.Ranges.{blkop_set, worse}
use nbd_vram.Socket.{Socket, send_all}
use nbd_vram.Handshake.{be64, and_go}
use nbd_vram.Request.Single.{response}
use nbd_vram.Batch.{Bop}

-- The ops that `batch_admit` sets for a request, over its buffer.
unfoldable pub block_ops : (n blk cmd : ℕ) → Bytes → (ri : ℕ) → List BlkOp
block_ops zero blk cmd slot ri = []
block_ops (suc n) blk cmd slot ri =
    blkop_set blk cmd (take cblk_size slot) ri ∷ block_ops n (blk + 1) cmd (drop cblk_size slot) ri

abbrev pub ops_of : (slots : ℕ → Bytes) → Bop → List BlkOp
ops_of slots req = block_ops req.nops (req.offset / cblk_size) req.cmd (slots req.ri) req.ri

-- `w->ops` once the batch is assembled.
unfoldable pub batch_ops : (slots : ℕ → Bytes) → List Bop → List BlkOp
batch_ops slots [] = []
batch_ops slots (req ∷ reqs) = ops_of slots req ++ batch_ops slots reqs

-- `w->reqs[i].error`
unfoldable pub error_at : List Bop → (i : ℕ) → ℕ
error_at [] i = 0
error_at (req ∷ reqs) zero = req.error
error_at (req ∷ reqs) (suc i) = error_at reqs i

unfoldable pub set_error : (i e : ℕ) → List Bop → List Bop
set_error i e [] = []
set_error zero e (req ∷ reqs) = record req { error = e } ∷ reqs
set_error (suc i) e (req ∷ reqs) = req ∷ set_error i e reqs

-- A request fails with the last of its blocks that could not be prepared.
unfoldable pub note_errors : List BlkOp → List Bop → List Bop
note_errors [] reqs = reqs
note_errors (bo ∷ ops) reqs =
    note_errors ops (if bo.err == 0 then reqs else set_error bo.req bo.err reqs)

-- The reservation of a block whose request failed goes back.
unfoldable pub abort_op : List Bop → Store → BlkOp → BlkOp × Store
abort_op reqs st bo =
    if bo.cmd == cmd_write && (bo.err == 0 && not (error_at reqs bo.req == 0))
    then wr_abort st bo
    else (bo, st)

-- What `do_blocks` found out is added to the errors.
unfoldable pub merge_errors : List BlkOp → List Bop → List Bop
merge_errors [] reqs = reqs
merge_errors (bo ∷ ops) reqs =
    merge_errors ops (set_error bo.req (worse (error_at reqs bo.req) bo.err) reqs)

-- The part of `flush_batch` before the replies.
module _ (lib : Library) (codec : CodecKind) where
  unfoldable pub settle : List Bop → List BlkOp → Store → List Bop × (List BlkOp × Store)
  settle reqs ops st =
      let (ops1, st1) = each (prepare lib codec) ops st in
      let reqs1 = note_errors ops1 reqs in
      let (ops2, st2) = each (abort_op reqs1) ops1 st1 in
      let (ops3, st3) = do_blocks lib codec ops2 st2 in (merge_errors ops3 reqs1, (ops3, st3))

unfoldable pub pages : List BlkOp → Bytes
pages [] = []
pages (bo ∷ ops) = bo.page ++ pages ops

-- The bytes in the buffer of a request, once the set has run.
abbrev pub slot_after : List BlkOp → Bop → Bytes
slot_after ops req = pages (take req.nops (drop req.op0 ops))

unfoldable pub any_eio : List Bop → Bool
any_eio [] = false
any_eio (req ∷ reqs) = req.error == eio || any_eio reqs

module _ {S : Type 0} (sock : Socket S) where
  unfoldable pub send_reply : List BlkOp → Bop → S → Bool × S
  send_reply ops req s = and_go (send_all sock (response req.error (be64 req.handle)) s) (λ s1.
      if req.cmd == cmd_read && req.error == 0
      then send_all sock (slot_after ops req) s1
      else (true, s1))

  unfoldable pub send_replies : List BlkOp → List Bop → S → Bool × S
  send_replies ops [] s = (true, s)
  send_replies ops (req ∷ reqs) s = and_go (send_reply ops req s) (λ s1. send_replies ops reqs s1)

  -- Whether the connection is kept.
  unfoldable pub flush_batch :
      (lib : Library) → CodecKind → List Bop → List BlkOp → S → Store → Bool × (S × Store)
  flush_batch lib codec reqs ops s st =
      let (reqs1, (ops1, st1)) = settle lib codec reqs ops st in
      let (ok, s1) = send_replies ops1 reqs1 s in (ok && not (any_eio reqs1), (s1, st1))
