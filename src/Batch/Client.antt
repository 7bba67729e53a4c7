-- ===== src/Batch/Client.antt =====
-- `handle_client` and `recv_hdr_nb` (nbd-vram.c): one connection, from the handshake to its end.
pub mod Any
pub mod Collect
pub mod Kept
pub mod Frames
pub mod Taken
pub mod Gather
pub mod Answers
pub mod Session
pub mod Whole
mod Tests
use nbd_vram.Prelude.{
  ℕ, zero, suc, ◌+◌, ◌-◌, Bool, true, false, not, ◌&&◌, List, [], ◌∷◌, ◌++◌, Option, none, some,
  ltb, ◌==◌, if◌then◌else◌, length, take, drop, update,
}
use nbd_vram.Codec.{Bytes, CodecKind, Library}
use nbd_vram.Store.{Store, cmd_write}
use nbd_vram.Socket.{Socket, recv_all}
use nbd_vram.Handshake.{be64, of_be, nbd_handshake}
use nbd_vram.Request.Single.{handle_one}
use nbd_vram.Batch.{
  Header, Bop, Admission, batched, unsuited, failed, batch_admit, request_magic, cmd_disc, maxops,
  copy_cap, Trailer, none_left, disconnect, single, Batch, flush, drop_connection,
}
use nbd_vram.Batch.Flush.{batch_ops, flush_batch}

-- The fields of `struct nbd_req_hdr`. The payload of a write is tried for as it comes.
unfoldable pub header_of : Bytes → Header
header_of hdr = record {
  magic = of_be 0 (take 4 hdr);
  cmd = of_be 0 (take 2 (drop 6 hdr));
  handle = of_be 0 (take 8 (drop 8 hdr));
  from = of_be 0 (take 8 (drop 16 hdr));
  len = of_be 0 (take 4 (drop 24 hdr));
  payload = true;
}

-- The results 1, 0 and -1 of `recv_hdr_nb`.
pub data Peek : Type 0 where
  queued : Bytes → Peek
  not_yet closed : Peek

-- What a connection comes to: `turns` turns of the loop were not enough, the return value -1, or 0.
pub data End : Type 0 where
  unfinished dropped left : End

-- `w->ubuf`, by the request's number
abbrev pub Buffers : Type 0
Buffers = ℕ → Bytes

-- `recv_now` is `recv` with `MSG_DONTWAIT`: none where nothing is there yet, no bytes for an error or the end.
module _ {S : Type 0} (sock : Socket S) (recv_now : S → (len : ℕ) → Option Bytes × S) where
  abbrev pub finish_hdr : (front : Bytes) → Option Bytes × S → Peek × S
  finish_hdr front (none, s) = (closed, s)
  finish_hdr front (some back, s) = (queued (front ++ back), s)

  unfoldable pub look_at : Option Bytes × S → Peek × S
  look_at (none, s) = (not_yet, s)
  look_at (some front, s) =
      if length front == 0
      then (closed, s)
      else (if length front == 28
          then (queued front, s)
          else finish_hdr front (recv_all sock (28 - length front) s))

  unfoldable pub recv_hdr_nb : S → Peek × S
  recv_hdr_nb s = look_at (recv_now s 28)

  -- The payload goes into the request's buffer.
  unfoldable pub fill : Bop → Buffers → Option Bytes × S → Admission × (Buffers × S)
  fill req ubuf (none, s) = (failed, (ubuf, s))
  fill req ubuf (some bytes, s) =
      (batched req, (update ubuf req.ri (bytes ++ drop (length bytes) (ubuf req.ri)), s))

  unfoldable pub payload_of : Buffers → S → Admission → Admission × (Buffers × S)
  payload_of ubuf s (batched req) =
      if req.cmd == cmd_write
      then fill req ubuf (recv_all sock req.len s)
      else (batched req, (ubuf, s))
  payload_of ubuf s unsuited = (unsuited, (ubuf, s))
  payload_of ubuf s failed = (failed, (ubuf, s))

  -- `batch_admit` with its receiving.
  abbrev pub admit :
      (disk_size : ℕ) → Header → (ri nops : ℕ) → Buffers → S → Admission × (Buffers × S)
  admit disk_size h ri nops ubuf s = payload_of ubuf s (batch_admit disk_size h ri nops)

  module _ (disk_size depth : ℕ) where
    -- The rest of the loop that fills the batch.
    abbrev pub More : Type 0
    More = List Bop → (nops : ℕ) → Buffers → S → Batch × (Buffers × S)

    unfoldable pub admitted :
        More → List Bop → (nops : ℕ) → Header → Admission × (Buffers × S) → Batch × (Buffers × S)
    admitted more reqs nops h (failed, after) = (drop_connection, after)
    admitted more reqs nops h (unsuited, after) = (flush reqs nops (single h), after)
    admitted more reqs nops h (batched req, (ubuf, s)) =
        more (reqs ++ req ∷ []) (nops + req.nops) ubuf s

    unfoldable pub peeked :
        More → List Bop → (nops : ℕ) → Buffers → Peek × S → Batch × (Buffers × S)
    peeked more reqs nops ubuf (not_yet, s) = (flush reqs nops none_left, (ubuf, s))
    peeked more reqs nops ubuf (closed, s) = (drop_connection, (ubuf, s))
    peeked more reqs nops ubuf (queued hdr, s) =
        let h = header_of hdr in
        if not (h.magic == request_magic)
        then (drop_connection, (ubuf, s))
        else (if h.cmd == cmd_disc
            then (flush reqs nops disconnect, (ubuf, s))
            else admitted more reqs nops h (admit disk_size h (length reqs) nops ubuf s))

    -- Every turn adds a request, so `depth` turns are enough.
    unfoldable pub collect :
        (turns : ℕ) → List Bop → (nops : ℕ) → Buffers → S → Batch × (Buffers × S)
    collect zero reqs nops ubuf s = (flush reqs nops none_left, (ubuf, s))
    collect (suc turns) reqs nops ubuf s =
        if ltb (length reqs) depth && ltb nops (copy_cap depth)
        then peeked (collect turns) reqs nops ubuf (recv_hdr_nb s)
        else (flush reqs nops none_left, (ubuf, s))

    -- The batch that a header begins. A request that suits no batch makes an empty one, which does nothing.
    abbrev pub begin : Header → Buffers → S → Batch × (Buffers × S)
    begin h ubuf s = admitted (collect depth) [] 0 h (admit disk_size h 0 0 ubuf s)

  -- `batching` is `g_batch_enabled`, `running` what `g_running` is when `turns` turns are left, and `stale` what
  -- the buffers hold then.
  module _ (lib : Library) (codec : CodecKind) (depth : ℕ) (batching : Bool)
      (running : (turns : ℕ) → Bool) (stale : (turns : ℕ) → Buffers) where
    abbrev pub Onward : Type 0
    Onward = S → Store → End × (S × Store)

    abbrev pub go_on : Onward → Bool × (S × Store) → End × (S × Store)
    go_on more (false, after) = (dropped, after)
    go_on more (true, (s, st)) = more s st

    abbrev pub one_request : Onward → Header → S → Store → End × (S × Store)
    one_request more h s st =
        go_on more
          (handle_one sock lib codec (maxops depth) h.cmd (be64 h.handle) h.from h.len s st)

    unfoldable pub trailing : Onward → Trailer → S → Store → End × (S × Store)
    trailing more none_left s st = more s st
    trailing more disconnect s st = (left, (s, st))
    trailing more (single h) s st = one_request more h s st

    unfoldable pub run_batch : Onward → Batch × (Buffers × S) → Store → End × (S × Store)
    run_batch more (drop_connection, (ubuf, s)) st = (dropped, (s, st))
    run_batch more (flush reqs nops t, (ubuf, s)) st =
        go_on (trailing more t) (flush_batch sock lib codec reqs (batch_ops ubuf reqs) s st)

    unfoldable pub first_header : Onward → Buffers → Option Bytes × S → Store → End × (S × Store)
    first_header more ubuf (none, s) st = (dropped, (s, st))
    first_header more ubuf (some hdr, s) st =
        let h = header_of hdr in
        if not (h.magic == request_magic)
        then (dropped, (s, st))
        else (if h.cmd == cmd_disc
            then (left, (s, st))
            else (if batching
                then run_batch more (begin st.disk_size depth h ubuf s) st
                else one_request more h s st))

    unfoldable pub transmit : (turns : ℕ) → S → Store → End × (S × Store)
    transmit zero s st = (unfinished, (s, st))
    transmit (suc turns) s st =
        if running turns
        then first_header (transmit turns) (stale turns) (recv_all sock 28 s) st
        else (left, (s, st))

    abbrev pub greeted : (turns : ℕ) → Option Bool × S → Store → End × (S × Store)
    greeted turns (none, s) st = (unfinished, (s, st))
    greeted turns (some false, s) st = (dropped, (s, st))
    greeted turns (some true, s) st = transmit turns s st

    unfoldable pub handle_client : (turns : ℕ) → S → Store → End × (S × Store)
    handle_client turns s st = greeted turns (nbd_handshake sock turns st.disk_size s) st
