-- ===== src/Batch/Client/Kept.antt =====
-- The whole of a connection keeps the invariant of the store, whatever the client sends.
use nbd_vram.Prelude.{
  ℕ, zero, suc, ◌≤◌, arith, Bool, true, false, not, Option, none, some, ◌==◌, length,
}
use nbd_vram.Codec.{Bytes, CodecKind, Library, IsLossless}
use nbd_vram.Store.{Store}
use nbd_vram.Store.IsStore.{IsStore}
use nbd_vram.Socket.{Socket, recv_all}
use nbd_vram.Handshake.{nbd_handshake}
use nbd_vram.Batch.{
  Header, request_magic, cmd_disc, maxops, Trailer, none_left, disconnect, single, Batch,
}
use nbd_vram.Batch.Flush.{batch_ops, flush_batch}
use nbd_vram.Batch.Flush.Settle.{settle_lem}
use nbd_vram.Batch.Flush.Laid.{Placed-Laid, batch_ops-AllSet, batch_ops-IsIn}
use nbd_vram.Batch.Client.{
  header_of, End, Buffers, trailing, run_batch, first_header, transmit, handle_client, go_on,
  one_request, greeted,
}
use nbd_vram.Batch.Client.Any.{if_keeps, handle_one-IsStore}
use nbd_vram.Batch.Client.Collect.{Wide, Fits, Gotten, fit, gone, begin-Gotten}

module _ {S : Type 0} (sock : Socket S) (recv_now : S → (len : ℕ) → Option Bytes × S)
    (fits : Fits sock) (lib : Library) (codec : CodecKind) (lossless : IsLossless lib) (depth : ℕ)
    (batching : Bool) (running : (turns : ℕ) → Bool) (stale : (turns : ℕ) → Buffers)
    (wide : (turns : ℕ) → Wide (stale turns)) where
  maxops_pos : 1 ≤ maxops depth
  unfolding maxops
  maxops_pos = ground arith

  abbrev Holds : {A : Type 0} → A × (S × Store) → Type 0
  Holds r = IsStore lib codec r.1.1

  -- What is asked of the rest of the connection.
  abbrev Onwards : (S → Store → End × (S × Store)) → Type 0
  Onwards more = (s : S) (st : Store) → IsStore lib codec st → Holds (more s st)

  go_on-IsStore :
      (more : S → Store → End × (S × Store)) (r : Bool × (S × Store))
      → Onwards more
      → Holds r
      → Holds (go_on sock recv_now lib codec depth batching running stale more r)
  go_on-IsStore more (false, after) on is = is
  go_on-IsStore more (true, (s, st)) on is = on s st is

  one_request-IsStore :
      (more : S → Store → End × (S × Store)) (h : Header)
      → Onwards more
      → Onwards (one_request sock recv_now lib codec depth batching running stale more h)
  one_request-IsStore more h on s st is = go_on-IsStore more _ on (
      handle_one-IsStore sock lib codec lossless (maxops depth) maxops_pos h.cmd _ h.from h.len s st
        is)

  trailing-IsStore :
      (more : S → Store → End × (S × Store)) (t : Trailer)
      → Onwards more
      → Onwards (trailing sock recv_now lib codec depth batching running stale more t)
  unfolding trailing
  trailing-IsStore more none_left on s st is = on s st is
  trailing-IsStore more disconnect on s st is = is
  trailing-IsStore more (single h) on s st is = one_request-IsStore more h on s st is

  run_batch-IsStore :
      (more : S → Store → End × (S × Store)) (disk_size : ℕ) (b : Batch × (Buffers × S))
      (st : Store)
      → Onwards more
      → IsStore lib codec st
      → Gotten disk_size b
      → Holds (run_batch sock recv_now lib codec depth batching running stale more b st)
  unfolding run_batch flush_batch
  run_batch-IsStore more disk_size _ st on is (gone (ubuf, s)) = is
  run_batch-IsStore more disk_size _ st on is (fit reqs nops t ubuf s placed whole) =
      let laid = Placed-Laid placed in
      go_on-IsStore _ _ (trailing-IsStore more t on)
        (settle_lem lossless is reqs (batch_ops ubuf reqs)
          (batch_ops-AllSet ubuf whole disk_size 0 0 reqs laid)
          (batch_ops-IsIn ubuf whole disk_size (length reqs) 0 0 reqs laid (omega arith))).store

  first_header-IsStore :
      (more : S → Store → End × (S × Store)) (ubuf : Buffers) (r : Option Bytes × S) (st : Store)
      → Onwards more
      → Wide ubuf
      → IsStore lib codec st
      → Holds (first_header sock recv_now lib codec depth batching running stale more ubuf r st)
  unfolding first_header
  first_header-IsStore more ubuf (none, s) st on whole is = is
  first_header-IsStore more ubuf (some hdr, s) st on whole is =
      let h = header_of hdr in
      if_keeps Holds (not (h.magic == request_magic)) _ _ is (
        if_keeps Holds (h.cmd == cmd_disc) _ _ is (
          if_keeps Holds batching _ _
            (run_batch-IsStore more st.disk_size _ st on is
              (begin-Gotten sock recv_now fits st.disk_size depth h ubuf s whole))
            (one_request-IsStore more h on s st is)))

  transmit-IsStore :
      (turns : ℕ) → Onwards (transmit sock recv_now lib codec depth batching running stale turns)
  unfolding transmit
  transmit-IsStore zero s st is = is
  transmit-IsStore (suc turns) s st is =
      if_keeps Holds (running turns) _ _
        (first_header-IsStore (transmit sock recv_now lib codec depth batching running stale turns)
          (stale turns) (recv_all sock 28 s) st (transmit-IsStore turns) (wide turns) is)
        is

  greeted-IsStore :
      (turns : ℕ) (r : Option Bool × S) (st : Store)
      → IsStore lib codec st
      → Holds (greeted sock recv_now lib codec depth batching running stale turns r st)
  greeted-IsStore turns (none, s) st is = is
  greeted-IsStore turns (some false, s) st is = is
  greeted-IsStore turns (some true, s) st is = transmit-IsStore turns s st is

  -- The client may send what it wants, and its bytes may come when they want, with any copies failing: if
  -- `recv` gives no more than it is asked for, the buffers of the requests have their whole size and the codec
  -- is lossless, then a connection, cut off after any number of turns, leaves the invariant of the store as it
  -- is.
  pub handle_client-IsStore :
      (turns : ℕ) (s : S) (st : Store)
      → IsStore lib codec st
      → IsStore lib codec
          (handle_client sock recv_now lib codec depth batching running stale turns s st).1.1
  unfolding handle_client
  handle_client-IsStore turns s st is =
      greeted-IsStore turns (nbd_handshake sock turns st.disk_size s) st is
