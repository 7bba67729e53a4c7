-- ===== src/Batch.antt =====
-- Assembling a batch (nbd-vram.c, `batch_admit` and the loop of `handle_client` that calls it). What
-- the socket delivers is the sequence of its non-blocking reads.
pub mod Gathered
pub mod Flush
pub mod Client
mod Tests
use nbd_vram.Prelude.{
  ℕ, zero, suc, ◌+◌, ◌-◌, ◌*◌, ◌/◌, ◌%◌, ◌^◌, Bool, true, false, not, ◌&&◌, ◌||◌, List, [], ◌∷◌,
  ◌++◌, ltb, leb, ◌==◌, if◌then◌else◌, length,
}
use nbd_vram.Heap.{cblk_size}
use nbd_vram.Store.{einval, cmd_read, cmd_write}
use nbd_vram.Request.{oob}

abbrev pub request_magic : ℕ
request_magic = 0x25609513

abbrev pub cmd_disc : ℕ
cmd_disc = 2

-- `BATCH_BLOCKS`, `BATCH_SLOT`, `LEGACY_WINDOW_BLOCKS` and `MAX_BATCH_COPIES`
abbrev pub batch_blocks : ℕ
batch_blocks = 16

abbrev pub batch_slot : ℕ
batch_slot = batch_blocks * cblk_size

abbrev pub legacy_window_blocks : ℕ
legacy_window_blocks = 64

abbrev pub max_batch_copies : ℕ
max_batch_copies = 64

-- `struct nbd_req_hdr` in the host's order, and whether the payload of a write can be received.
pub record Header : Type 0 where
  pub magic : ℕ
  pub cmd : ℕ
  pub handle : ℕ
  pub from : ℕ
  pub len : ℕ
  pub payload : Bool

-- `struct bop`. Its slot is the `ri`-th of the batch buffer.
pub record Bop : Type 0 where
  pub handle : ℕ
  pub offset : ℕ
  pub len : ℕ
  pub cmd : ℕ
  pub error : ℕ
  pub ri : ℕ
  pub op0 : ℕ
  pub nops : ℕ

-- The results 1, 0 and -1 of `batch_admit`.
pub data Admission : Type 0 where
  batched : Bop → Admission
  unsuited failed : Admission

-- The entry that `batch_admit` fills in. The block ops that it sets stand at `op0` and behind it.
unfoldable pub bop_of : (disk_size : ℕ) → Header → (ri nops : ℕ) → Bop
bop_of disk_size h ri nops = record {
  handle = h.handle;
  offset = h.from;
  len = h.len;
  cmd = h.cmd;
  error = if oob disk_size h.from h.len then einval else 0;
  ri = ri;
  op0 = nops;
  nops = if oob disk_size h.from h.len then 0 else h.len / cblk_size;
}

unfoldable pub batch_admit : (disk_size : ℕ) → Header → (ri nops : ℕ) → Admission
batch_admit disk_size h ri nops =
    if not (h.magic == request_magic)
    then failed
    else (if not (h.cmd == cmd_read || h.cmd == cmd_write) || (h.len == 0 || ltb batch_slot h.len)
        then unsuited
        else (if not (h.from % cblk_size == 0 && h.len % cblk_size == 0)
            then unsuited
            else (if h.cmd == cmd_write && not h.payload
                then failed
                else batched (bop_of disk_size h ri nops))))

-- `w->maxops`, by `worker_init`
unfoldable pub maxops : (depth : ℕ) → ℕ
maxops depth =
    let n = depth * batch_blocks in if ltb n legacy_window_blocks then legacy_window_blocks else n

unfoldable pub copy_cap : (depth : ℕ) → ℕ
copy_cap depth =
    let cap = maxops depth - batch_blocks in
    if ltb max_batch_copies cap then max_batch_copies else cap

-- What `recv_hdr_nb` gives: a header, nothing queued, or an error.
pub data Incoming : Type 0 where
  header : Header → Incoming
  idle broken : Incoming

-- The requests of the batch and its number of block ops, with what is left to do after the flush, or
-- the end of the connection.
pub data Trailer : Type 0 where
  none_left disconnect : Trailer
  single : Header → Trailer

pub data Batch : Type 0 where
  flush : List Bop → (nops : ℕ) → Trailer → Batch
  drop_connection : Batch

module _ (disk_size depth : ℕ) where
  -- The loop of `handle_client`. The list has what the next reads of the socket give; behind it
  -- nothing is queued.
  unfoldable pub gather : List Incoming → List Bop → (nops : ℕ) → Batch
  gather [] reqs nops = flush reqs nops none_left
  gather (i ∷ queue) reqs nops =
      if ltb (length reqs) depth && ltb nops (copy_cap depth)
      then elim i [
        | idle ↦ flush reqs nops none_left
        | broken ↦ drop_connection
        | header h ↦
            if not (h.magic == request_magic)
            then drop_connection
            else (if h.cmd == cmd_disc
                then flush reqs nops disconnect
                else elim (batch_admit disk_size h (length reqs) nops) [
                  | failed ↦ drop_connection
                  | unsuited ↦ flush reqs nops (single h)
                  | batched req ↦ gather queue (reqs ++ req ∷ []) (nops + req.nops)
                ])
      ]
      else flush reqs nops none_left

  -- From the first request of a batch on, whose magic number `handle_client` has looked at. An empty
  -- batch with a single request is one that goes to `handle_one`.
  unfoldable pub assemble : Header → List Incoming → Batch
  assemble h queue = elim (batch_admit disk_size h 0 0) [
    | failed ↦ drop_connection
    | unsuited ↦ flush [] 0 (single h)
    | batched req ↦ gather queue (req ∷ []) req.nops
  ]
