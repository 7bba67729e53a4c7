-- ===== src/Store/Blocks/Execute.antt =====
-- `do_blocks` on a prepared set of reads and writes.
use nbd_vram.Prelude.{ℕ, ◌≡◌, refl, arith, Bool, false, List, true}
use nbd_vram.Heap.{slot_none}
use nbd_vram.Codec.{CodecKind, Library}
use nbd_vram.Store.{Store, BlkOp, eio, dev_at, cmd_read, cmd_write}
use nbd_vram.Store.Device.{Memory, dev_read}
use nbd_vram.Store.IsStore.{IsStore}
use nbd_vram.Store.Blocks.{
  each, issue, pending, publish, validate, validate_all, rounds, read_locked, do_blocks,
}
use nbd_vram.Store.Blocks.Reads.{IsRead, validate-IsRead}
use nbd_vram.Store.Blocks.Ready.{IsWaiting, Avoid, Distinct, Both, nil, cons}
use nbd_vram.Store.Blocks.Issue.{SomeLost, Copied, fetched, sent, lost, kept}

-- An op behind the reads: a read with its page, a write whose bytes are in its slot, an op whose copy
-- failed, or a write that had no slot.
pub data Ended (lib : Library) (codec : CodecKind) (lot : ℕ → Bool → ℕ → Type 0) (st st1 : Store)
    (vram : Memory) (inp bo : BlkOp) : Type 0 where
  got : IsRead lib codec st inp.blk bo → inp.cmd ≡ cmd_read → Ended lib codec lot st st1 vram inp bo
  put :
      IsWaiting lib codec st st1 inp bo
      → inp.cmd ≡ cmd_write
      → lot inp.req true 0
      → dev_read vram (dev_at st1 bo.grain) bo.clen ≡ bo.cslot
      → Ended lib codec lot st st1 vram inp bo
  lost_copy :
      bo.blk ≡ inp.blk
      → bo.cmd ≡ inp.cmd
      → bo.err ≡ eio
      → bo.dma ≡ 0
      → SomeLost st
      → Ended lib codec lot st st1 vram inp bo
  no_slot :
      inp.cmd ≡ cmd_write
      → bo.cmd ≡ cmd_write
      → bo.dma ≡ 0
      → bo.grain ≡ slot_none
      → lot inp.req false bo.err
      → Ended lib codec lot st st1 vram inp bo

-- The waiting write that an op still is.
abbrev SameSlot : (bo bo' : BlkOp) → Type 0
SameSlot bo bo' =
    bo'.cmd ≡ cmd_write → bo'.dma ≡ 1 → (bo.cmd ≡ cmd_write) × (bo.dma ≡ 1) × (bo'.grain ≡ bo.grain)

record Validated (P : BlkOp → Type 0) (bo : BlkOp) (r : BlkOp × ℕ) : Type 0 where
  ended : P r.0
  none_lost : r.1 ≡ 0
  slot : SameSlot bo r.0

module _ {lib : Library} {codec : CodecKind} {lot : ℕ → Bool → ℕ → Type 0} {st st1 : Store}
    (is : IsStore lib codec st) (m : Memory) (s : Store)
    (same_index : (b : ℕ) → s.index b ≡ st.index b) where
  -- What `validate` leaves alone, since it is no read that waits.
  still :
      (inp bo : BlkOp)
      → pending bo ≡ false
      → Ended lib codec lot st st1 m inp bo
      → Validated (Ended lib codec lot st st1 m inp) bo (validate lib codec s bo)
  unfolding validate
  still inp bo idle ended =
      rw idle (record { ended = ended; none_lost = refl; slot = λ cmd dma. (cmd, dma, refl) })

  validate_one :
      (inp bo : BlkOp)
      → Copied lib codec lot st st1 m inp bo
      → Validated (Ended lib codec lot st st1 m inp) bo (validate lib codec s bo)
  unfolding pending
  validate_one inp bo (fetched snap was bytes) =
      let (now, zero_lost) =
        validate-IsRead is s same_index inp.blk bo (record { snapshot = snap; bytes = bytes }) in
      record {
        ended = got now was;
        none_lost = zero_lost;
        slot = λ cmd dma. absurd (ground (arith, now.cmd, cmd));
      }
  validate_one inp bo (sent w was may bytes) =
      still inp bo (ground (arith, w.cmd)) (put w was may bytes)
  validate_one inp bo (lost blk cmd err dma why) =
      still inp bo (ground (arith, err)) (lost_copy blk cmd err dma why)
  validate_one inp bo (kept was cmd dma slot left) =
      still inp bo (ground (arith, cmd)) (no_slot was cmd dma slot left)

  pub validate_each :
      {inps ops : List BlkOp}
      → Both (Copied lib codec lot st st1 m) inps ops
      → Distinct ops
      → Both (Ended lib codec lot st st1 m) inps (validate_all lib codec s ops).0
        × ((validate_all lib codec s ops).1 ≡ 0)
        × Distinct (validate_all lib codec s ops).0
        × ((g : ℕ) → Avoid g ops → Avoid g (validate_all lib codec s ops).0)
  unfolding validate_all
  validate_each nil distinct = (nil, refl, tt, λ g avoid. tt)
  validate_each (cons inp bo inps ops copied more) distinct =
      let one = validate_one inp bo copied in
      let bo' = (validate lib codec s bo).0 in
      let (ended, zero_lost, apart, avoid) = validate_each more distinct.1 in
      (
        cons inp bo' inps (validate_all lib codec s ops).0 one.ended ended,
        omega (arith, one.none_lost, zero_lost),
        (
          (λ cmd dma. let (c, d, g) = one.slot cmd dma in rw g (avoid bo.grain (distinct.0 c d))),
          apart,
        ),
        λ g av. ((λ cmd dma. let (c, d, e) = one.slot cmd dma in rw e (av.0 c d)), avoid g av.1),
      )

  -- No read is left for the locked path.
  pub locked_each :
      {inps ops : List BlkOp}
      → Both (Ended lib codec lot st st1 m) inps ops
      → each (read_locked lib codec) ops s ≡ (ops, s)
  unfolding each read_locked pending
  locked_each nil = refl
  locked_each (cons inp bo inps ops ended more) =
      let idle : pending bo ≡ false = settled inp bo ended in rw (idle, locked_each more) refl
    where
      settled : (inp bo : BlkOp) → Ended lib codec lot st st1 m inp bo → pending bo ≡ false
      settled inp bo (got now was) = ground (arith, now.dma)
      settled inp bo (put w was may bytes) = ground (arith, w.cmd)
      settled inp bo (lost_copy blk cmd err dma why) = ground (arith, err)
      settled inp bo (no_slot was cmd dma slot left) = ground (arith, cmd)

-- With no read that lost its race the rounds end at once, and nothing is read under the lock.
pub do_blocks-each :
    (lib : Library) (codec : CodecKind) (ops ops1 : List BlkOp) (st1 s : Store)
    → each issue ops st1 ≡ (ops1, s)
    → (validate_all lib codec s ops1).1 ≡ 0
    → each (read_locked lib codec) (validate_all lib codec s ops1).0 s
      ≡ ((validate_all lib codec s ops1).0, s)
    → do_blocks lib codec ops st1 ≡ each publish (validate_all lib codec s ops1).0 s
unfolding do_blocks rounds
do_blocks-each lib codec ops ops1 st1 s issued zero_lost locked =
    rw (do_blocks, issued, rounds, zero_lost, locked) refl
