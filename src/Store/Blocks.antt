-- ===== src/Store/Blocks.antt =====
-- `do_blocks` (nbd-vram.c): the copies of a set of block ops, the reads with their retries, and the
-- publishing of the writes. One worker runs, so the synchronize calls, which wait for its own copies,
-- have no step here.
pub mod Reads
pub mod Writes
pub mod Ready
pub mod Reqs
pub mod Prepare
pub mod Issue
pub mod Errors
pub mod Execute
pub mod Commit
pub mod Sets
use nbd_vram.Prelude.{
  ℕ, zero, suc, ◌+◌, Bool, true, false, not, ◌&&◌, ◌||◌, List, [], ◌∷◌, Option, none, some, ◌==◌,
  if◌then◌else◌,
}
use nbd_vram.Heap.{slot_none}
use nbd_vram.Codec.{CodecKind, Library}
use nbd_vram.Store.{
  Store, BlkOp, Finish, done, retry, corrupt, eio, add64, cmd_read, cmd_write, copy_to_device,
  copy_from_device, rd_prepare, rd_finish, rd_block_locked, wr_prepare, wr_publish,
}

-- A loop over the ops.
unfoldable pub each : (Store → BlkOp → BlkOp × Store) → List BlkOp → Store → List BlkOp × Store
each f [] st = ([], st)
each f (bo ∷ ops) st =
    let (bo1, st1) = f st bo in let (ops1, st2) = each f ops st1 in (bo1 ∷ ops1, st2)

-- what the copy of a read comes to
unfoldable pub fetch : Store → BlkOp → BlkOp × Store
fetch st bo =
    let (bytes, st1) = copy_from_device st bo.grain bo.clen in
    (
      elim bytes [
        | none ↦ record bo { err = eio; dma = 0 }
        | some cslot ↦ record bo { cslot = cslot }
      ],
      st1,
    )

unfoldable pub send : Store → BlkOp → BlkOp × Store
send st bo =
    let (sent, st1) = copy_to_device st bo.grain bo.cslot in
    (if sent then bo else record bo { err = eio; dma = 0 }, st1)

unfoldable pub issue : Store → BlkOp → BlkOp × Store
issue st bo =
    if bo.dma == 0 || not (bo.err == 0)
    then (bo, st)
    else (if bo.cmd == cmd_read then fetch st bo else send st bo)

-- the reads that are not finished yet
unfoldable pub pending : BlkOp → Bool
pending bo = bo.cmd == cmd_read && (bo.err == 0 && not (bo.dma == 2))

unfoldable pub resnap : Store → BlkOp → BlkOp × Store
resnap st bo =
    let bo1 = rd_prepare st bo in
    if not (pending bo) then (bo, st) else (if bo1.dma == 0 then (bo1, st) else fetch st bo1)

unfoldable pub publish : Store → BlkOp → BlkOp × Store
publish st bo = (
  bo,
  (if not (bo.cmd == cmd_write) || (not (bo.err == 0) || bo.grain == slot_none)
      then st
      else wr_publish st bo),
)

module _ (lib : Library) (codec : CodecKind) where
  -- Phase A of `flush_batch`, `load_blocks` and `store_blocks`.
  unfoldable pub prepare : Store → BlkOp → BlkOp × Store
  prepare st bo = if bo.cmd == cmd_write then wr_prepare lib codec st bo else (rd_prepare st bo, st)

  -- The op, and 1 if it lost its race.
  unfoldable pub validate : Store → BlkOp → BlkOp × ℕ
  validate st bo = if not (pending bo) then (bo, 0) else elim (rd_finish lib codec st bo) [
    | done page ↦ (record bo { page = page; dma = 2 }, 0)
    | corrupt ↦ (record bo { err = eio }, 0)
    | retry ↦ (bo, 1)
  ]

  unfoldable pub validate_all : Store → List BlkOp → List BlkOp × ℕ
  validate_all st [] = ([], 0)
  validate_all st (bo ∷ ops) =
      let (bo1, lost) = validate st bo in
      let (ops1, again) = validate_all st ops in (bo1 ∷ ops1, lost + again)

  -- `n` is the number of rounds left.
  unfoldable pub rounds : (n : ℕ) → List BlkOp → Store → List BlkOp × Store
  rounds zero ops st = (ops, st)
  rounds (suc n) ops st =
      let (ops1, again) = validate_all st ops in
      let (ops2, st2) = each resnap ops1 (record st { read_retry = add64 st.read_retry again }) in
      let rest = rounds n ops2 st2 in if again == 0 then (ops1, st) else rest

  unfoldable pub read_locked : Store → BlkOp → BlkOp × Store
  read_locked st bo =
      let (page, st1) = rd_block_locked lib codec st bo.blk in
      if not (pending bo) then (bo, st) else (
        elim page [
          | none ↦ record bo { err = eio; dma = 2 }
          | some bytes ↦ record bo { page = bytes; dma = 2 }
        ],
        st1,
      )

  unfoldable pub do_blocks : List BlkOp → Store → List BlkOp × Store
  do_blocks ops st =
      let (ops1, st1) = each issue ops st in
      let (ops2, st2) = rounds 4 ops1 st1 in
      let (ops3, st3) = each read_locked ops2 st2 in each publish ops3 st3
