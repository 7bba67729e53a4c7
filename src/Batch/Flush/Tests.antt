-- ===== src/Batch/Flush/Tests.antt =====
-- A batch of a write and a read on a store with one block written, over a socket that moves three bytes a call.
use nbd_vram.Prelude.{
  ℕ, ◌*◌, ◌^◌, ◌≡◌, inl, inr, refl, arith, List, [], ◌∷◌, length, length-replicate, replicate,
}
use nbd_vram.Heap.{cblk_size}
use nbd_vram.Codec.{Bytes, zstd}
use nbd_vram.Store.{einval, cmd_read, cmd_write}
use nbd_vram.Store.Tests.{library, library-IsLossless, one, one-IsStore}
use nbd_vram.Handshake.Tests.{Chan, chan, chan-IsStream}
use nbd_vram.Batch.{Bop, batch_slot}
use nbd_vram.Batch.Gathered.{IsRequest, Placed, empty, add}
use nbd_vram.Batch.Flush.{batch_ops, settle, flush_batch}
use nbd_vram.Batch.Flush.Settle.{Flushed, settle_lem}
use nbd_vram.Batch.Flush.Laid.{Placed-Laid, batch_ops-AllSet, batch_ops-IsIn}
use nbd_vram.Batch.Flush.Replies.{Answered, flush_batch_lem}

abbrev slots : ℕ → Bytes
slots i = replicate batch_slot i

wide : (i : ℕ) → length (slots i) ≡ batch_slot
wide i = length-replicate batch_slot i

abbrev first : Bop
first = record {
  handle = 7;
  offset = 3 * cblk_size;
  len = cblk_size;
  cmd = cmd_write;
  error = 0;
  ri = 0;
  op0 = 0;
  nops = 1;
}

abbrev second : Bop
second = record {
  handle = 8;
  offset = 2 * cblk_size;
  len = 2 * cblk_size;
  cmd = cmd_read;
  error = 0;
  ri = 1;
  op0 = 1;
  nops = 2;
}

abbrev third : Bop
third = record {
  handle = 9;
  offset = 2 ^ 20;
  len = cblk_size;
  cmd = cmd_write;
  error = einval;
  ri = 2;
  op0 = 3;
  nops = 0;
}

first-IsRequest : IsRequest (2 ^ 20) first
first-IsRequest = record {
  some_bytes = omega arith;
  fits = omega arith;
  cmd = inr refl;
  aligned = refl;
  ops = inl (refl, refl, omega arith);
}

second-IsRequest : IsRequest (2 ^ 20) second
second-IsRequest = record {
  some_bytes = omega arith;
  fits = omega arith;
  cmd = inl refl;
  aligned = refl;
  ops = inl (refl, refl, omega arith);
}

third-IsRequest : IsRequest (2 ^ 20) third
third-IsRequest = record {
  some_bytes = omega arith;
  fits = omega arith;
  cmd = inr refl;
  aligned = refl;
  ops = inr (refl, refl, omega arith);
}

abbrev both : List Bop
both = first ∷ second ∷ third ∷ []

both-Placed : Placed (2 ^ 20) both 3
both-Placed =
    add (first ∷ second ∷ []) 3 third
      (add (first ∷ []) 1 second (add [] 0 first empty refl refl first-IsRequest) refl refl
        second-IsRequest)
      refl refl third-IsRequest

abbrev peer : Chan
peer = record { arrives = 6 ∷ []; written = [] }

settle_lem_example :
    Flushed library zstd one both
      (batch_ops slots both)
      (settle library zstd both (batch_ops slots both) one)
settle_lem_example =
    settle_lem library-IsLossless one-IsStore both (batch_ops slots both)
      (batch_ops-AllSet slots wide (2 ^ 20) 0 0 both (Placed-Laid both-Placed))
      (batch_ops-IsIn slots wide (2 ^ 20) 3 0 0 both (Placed-Laid both-Placed) (omega arith))

flush_batch_lem_example :
    Answered library zstd
      (λ s. s.arrives)
      (λ s. s.written)
      one
      both
      (batch_ops slots both)
      peer
      (flush_batch chan library zstd both (batch_ops slots both) peer one)
flush_batch_lem_example =
    flush_batch_lem chan-IsStream library-IsLossless one-IsStore slots both both-Placed wide peer
