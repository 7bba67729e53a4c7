-- ===== src/Batch/Client/Answers.antt =====
-- The answers to a batch, by the requests on the wire.
use nbd_vram.Prelude.{
  ℕ, zero, suc, ◌+◌, ◌≤◌, ◌<◌, ◌≡◌, ◌≢◌, ◌⊎◌, inl, inr, refl, arith, sym, ap, ◌∙◌, true, false,
  Bool-cases, ==_ne, not, ◌&&◌, List, [], ◌∷◌, ◌++◌, ◌==◌, if◌then◌else◌, length,
}
use mathlib.Core.Path.{subst}
use nbd_vram.Heap.{slot_none}
use nbd_vram.Codec.{Bytes, CodecKind, Library}
use nbd_vram.Store.{Store, BlkOp, eio, enospc, einval, cmd_read, cmd_write, wr_abort}
use nbd_vram.Store.Blocks.{each, prepare}
use nbd_vram.Store.Ranges.Fixed.{fixed, Keeping, each-fixed, prepare-fixed, do_blocks-fixed}
use nbd_vram.Handshake.{be64}
use nbd_vram.Request.Single.{response}
use nbd_vram.Socket.Exact.{append_assoc}
use nbd_vram.Batch.{Bop}
use nbd_vram.Batch.Gathered.{IsRequest}
use nbd_vram.Batch.Flush.{error_at, abort_op, note_errors, settle, any_eio}
use nbd_vram.Batch.Flush.Errors.{strip}
use nbd_vram.Batch.Flush.Settle.{MayEnd}
use nbd_vram.Batch.Flush.Laid.{Laid}
use nbd_vram.Batch.Flush.Replies.{Data, data_sent, no_data, Replies, none_sent, replied}
use nbd_vram.Batch.Client.Frames.{Frame}
use nbd_vram.Batch.Client.Taken.{Meant}

-- The error that a request is answered with where no copy fails: none inside the disk, EINVAL outside, or ENOSPC.
abbrev pub Reports : (disk_size : ℕ) → Frame → (err : ℕ) → Type 0
Reports disk_size f err =
    ((err ≡ 0) × (f.from + f.len ≤ disk_size))
    ⊎ (((err ≡ einval) × (disk_size < f.from + f.len)) ⊎ (err ≡ enospc))

-- The requests are answered in their order, each with its handle, and with the bytes asked for behind a read
-- without an error.
pub data Answers (disk_size : ℕ) : List Frame → Bytes → Type 0 where
  none_asked : Answers disk_size [] []
  answered :
      (f : Frame) (fs : List Frame) (err : ℕ) (bytes out : Bytes)
      → Reports disk_size f err
      → length bytes ≡ (if f.cmd == cmd_read && err == 0 then f.len else 0)
      → Answers disk_size fs out
      → Answers disk_size (f ∷ fs) ((response err (be64 f.handle) ++ bytes) ++ out)

pub Answers-append :
    {disk_size : ℕ} {fs gs : List Frame} {a b : Bytes}
    → Answers disk_size fs a
    → Answers disk_size gs b
    → Answers disk_size (fs ++ gs) (a ++ b)
Answers-append none_asked more = more
Answers-append {disk_size} {b = b} (answered f fs err bytes out why size rest) more =
    subst (Answers disk_size _) (sym (append_assoc (response err (be64 f.handle) ++ bytes) out b))
      (answered f _ err bytes (out ++ b) why size (Answers-append rest more))

abort_op-fixed : (reqs : List Bop) → Keeping (abort_op reqs)
unfolding abort_op wr_abort
abort_op-fixed reqs st bo =
    elim (Bool-cases (bo.cmd == cmd_write && (bo.err == 0 && not (error_at reqs bo.req == 0)))) [
      | inr fine ↦ rw fine refl
      | inl back ↦ elim (Bool-cases (bo.grain == slot_none)) [
        | inl nothing ↦ rw (back, nothing) refl
        | inr slot ↦ rw (back, slot) refl
      ]
    ]

pub settle-fixed :
    (lib : Library) (codec : CodecKind) (reqs : List Bop) (inps : List BlkOp) (st : Store)
    → fixed (settle lib codec reqs inps st).1.1 ≡ fixed st
unfolding settle
settle-fixed lib codec reqs inps st =
    let r1 = each (prepare lib codec) inps st in
    do_blocks-fixed lib codec _ _
    ∙ each-fixed (abort_op (note_errors r1.0 reqs)) (abort_op-fixed (note_errors r1.0 reqs)) r1.0
        r1.1
    ∙ each-fixed (prepare lib codec) (prepare-fixed lib codec) inps st

-- Every copy succeeds.
abbrev pub AllCopied : Store → Type 0
AllCopied st = (k : ℕ) → st.copies k ≡ true

-- A request that comes in has no error but EINVAL.
pub Laid-error :
    (disk_size k from : ℕ) (reqs : List Bop)
    → Laid disk_size k from reqs
    → (i : ℕ) → error_at reqs i ≢ eio
unfolding error_at
Laid-error disk_size k from [] laid i e = absurd (omega (arith, e))
Laid-error disk_size k from (req ∷ reqs) laid zero e = elim (laid.0.1.1.ops) [
  | inl (fine, whole, inside) ↦ omega (arith, e, fine)
  | inr (bad, nothing, outside) ↦ omega (arith, e, bad)
]
Laid-error disk_size k from (req ∷ reqs) laid (suc i) e =
    Laid-error disk_size (k + 1) (from + req.nops) reqs laid.1 i e

pub MayEnd-eio :
    (st : Store) → AllCopied st → (old err : ℕ) → MayEnd st old err → old ≢ eio → err ≢ eio
MayEnd-eio st all old err (inl same) ne e = ne (sym same ∙ e)
MayEnd-eio st all old err (inr (inl full)) ne e = omega (arith, full, e)
MayEnd-eio st all old err (inr (inr (io, (k, gone)))) ne e = ground (arith, all k, gone)

pub any_eio-false : (fin : List Bop) → ((i : ℕ) → error_at fin i ≢ eio) → any_eio fin ≡ false
unfolding any_eio error_at
any_eio-false [] fine = refl
any_eio-false (req ∷ reqs) fine =
    rw (==_ne req.error eio (fine 0)) (any_eio-false reqs (λ i. fine (suc i)))

reported :
    (disk_size : ℕ) (st : Store) (req : Bop) (f : Frame) (err : ℕ)
    → AllCopied st
    → IsRequest disk_size req
    → req.len ≡ f.len
    → req.offset ≡ f.from
    → MayEnd st req.error err
    → Reports disk_size f err
reported disk_size st req f err all is len at (inr (inl full)) = inr (inr full)
reported disk_size st req f err all is len at (inr (inr (io, (k, gone)))) =
    absurd (ground (arith, all k, gone))
reported disk_size st req f err all is len at (inl same) = elim (is.ops) [
  | inl (fine, whole, inside) ↦ inl (omega (arith, same, fine), omega (arith, inside, len, at))
  | inr (bad, nothing, outside) ↦
      inr (inl (omega (arith, same, bad), omega (arith, outside, len, at)))
]

length_sent :
    {lib : Library} {codec : CodecKind} {st : Store} (req : Bop) (f : Frame) (bytes : Bytes)
    → req.cmd ≡ f.cmd
    → req.len ≡ f.len
    → Data lib codec st req bytes
    → length bytes ≡ (if f.cmd == cmd_read && req.error == 0 then f.len else 0)
length_sent req f bytes cmd len (data_sent reads fine size at) =
    let test : (f.cmd == cmd_read && req.error == 0) ≡ true = ground (arith, cmd, reads, fine) in
    rw test (size ∙ len)
length_sent req f bytes cmd len (no_data why nothing) =
    let test : (f.cmd == cmd_read && req.error == 0) ≡ false = ground (arith, cmd, why) in
    rw (test, nothing) refl

-- The replies to a batch are the answers to its requests.
pub Replies-Answers :
    {lib : Library} {codec : CodecKind} {st : Store} (disk_size k from : ℕ) (reqs fin : List Bop)
    (fs : List Frame) (out : Bytes)
    → AllCopied st
    → Laid disk_size k from reqs
    → Meant reqs fs
    → strip fin ≡ strip reqs
    → ((i : ℕ) → MayEnd st (error_at reqs i) (error_at fin i))
    → Replies lib codec st fin out
    → Answers disk_size fs out
unfolding error_at
Replies-Answers disk_size k from [] [] [] out all laid meant same may none_sent = none_asked
Replies-Answers disk_size k from [] [] (f ∷ fs) out all laid meant same may replies = absurd meant
Replies-Answers disk_size k from [] (q ∷ fin) fs out all laid meant same may replies =
    absurd (ground (arith, same))
Replies-Answers disk_size k from (req ∷ reqs) [] fs out all laid meant same may replies =
    absurd (ground (arith, same))
Replies-Answers disk_size k from (req ∷ reqs) (q ∷ fin) [] out all laid meant same may replies =
    absurd meant
Replies-Answers {st = st} disk_size k from (req ∷ reqs) (q ∷ fin) (f ∷ fs) _ all laid meant same may
      (replied q1 fin1 bytes out behind more) =
    let head : record q { error = 0 } ≡ record req { error = 0 } = ground (arith, same) in
    let tail : strip fin ≡ strip reqs = ground (arith, same) in
    let (handle, (cmd, (len, at))) = meant.0 in
    let mine : q.handle ≡ f.handle = ap (λ (b : Bop). b.handle) head ∙ handle in
    rw mine (
      answered f fs q.error bytes out
        (reported disk_size st req f q.error all laid.0.1.1 len at (may 0))
        (length_sent q f bytes (ap (λ (b : Bop). b.cmd) head ∙ cmd)
          (ap (λ (b : Bop). b.len) head ∙ len) behind)
        (Replies-Answers disk_size (k + 1) (from + req.nops) reqs fin fs out all laid.1 meant.1 tail
          (λ i. may (suc i)) more))
