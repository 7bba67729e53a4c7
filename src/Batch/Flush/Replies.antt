-- ===== src/Batch/Flush/Replies.antt =====
-- The replies to a batch: each request's own error, and the bytes of the disk behind that of a read.
use nbd_vram.Prelude.{
  ℕ, zero, suc, ◌+◌, ◌*◌, ◌/◌, ◌<◌, ◌≡◌, ◌≢◌, ◌⊎◌, inl, inr, refl, arith, sym, ap, ◌∙◌, Bool, true,
  Bool-cases, not, ◌&&◌, List, [], ◌∷◌, ◌++◌, some, ◌==◌, if◌then◌else◌, length, take, drop,
  get_elem?,
}
use mathlib.Core.Path.{subst}
use nbd_vram.Heap.{cblk_size}
use nbd_vram.Codec.{Bytes, CodecKind, Library, IsLossless}
use nbd_vram.Store.{Store, BlkOp, cmd_read}
use nbd_vram.Store.IsStore.{IsStore}
use nbd_vram.Store.Blocks.Ready.{Both, nil, cons}
use nbd_vram.Store.Ranges.Disk.{disk}
use nbd_vram.Store.Ranges.Load.{Got, lost, got, Got-nothing, Got-append, block_bytes}
use nbd_vram.Socket.{Socket, send_all}
use nbd_vram.Socket.Exact.{IsStream, append_nil}
use nbd_vram.Handshake.{be64}
use nbd_vram.Handshake.Dialogue.{Does, did, and_go_lem, sends}
use nbd_vram.Request.Single.{response}
use nbd_vram.Batch.{Bop, batch_slot}
use nbd_vram.Batch.Gathered.{IsRequest, Placed}
use nbd_vram.Batch.Flush.{
  block_ops, ops_of, batch_ops, error_at, settle, pages, slot_after, any_eio, send_reply,
  send_replies, flush_batch,
}
use nbd_vram.Batch.Flush.Errors.{strip}
use nbd_vram.Batch.Flush.Settle.{Fate, read_ok, write_ok, failed, MayEnd, Flushed, settle_lem}
use nbd_vram.Batch.Flush.Laid.{
  Laid, Placed-Laid, length-block_ops, batch_ops-AllSet, batch_ops-IsIn, Both-split, drop-drop,
}

-- What stands behind the header of a reply: the bytes of the disk for a read without an error, else nothing.
pub data Data (lib : Library) (codec : CodecKind) (st : Store) (req : Bop) (bytes : Bytes)
    : Type 0 where
  data_sent :
      req.cmd ≡ cmd_read
      → req.error ≡ 0
      → length bytes ≡ req.len
      → ((i : ℕ) → i < req.len → get_elem? bytes i ≡ disk lib codec st (req.offset + i))
      → Data lib codec st req bytes
  no_data : (req.cmd ≢ cmd_read) ⊎ (req.error ≢ 0) → bytes ≡ [] → Data lib codec st req bytes

-- The replies to the requests, one behind the other.
pub data Replies (lib : Library) (codec : CodecKind) (st : Store) : List Bop → Bytes → Type 0 where
  none_sent : Replies lib codec st [] []
  replied :
      (req : Bop) (reqs : List Bop) (bytes out : Bytes)
      → Data lib codec st req bytes
      → Replies lib codec st reqs out
      → Replies lib codec st (req ∷ reqs) ((response req.error (be64 req.handle) ++ bytes) ++ out)

abbrev data_of : List BlkOp → Bop → Bytes
data_of ops req = if req.cmd == cmd_read && req.error == 0 then slot_after ops req else []

abbrev all_sent : List BlkOp → List Bop → Bytes
all_sent ops [] = []
all_sent ops (req ∷ reqs) =
    (response req.error (be64 req.handle) ++ data_of ops req) ++ all_sent ops reqs

module _ {S : Type 0} {sock : Socket S} {incoming sent : S → Bytes}
    (stream : IsStream sock incoming sent) where
  send_reply_lem :
      (ops : List BlkOp) (req : Bop) (rest : Bytes) (s : S)
      → incoming s ≡ rest
      → Does incoming sent
          (send_reply sock ops req s)
          s
          rest
          (response req.error (be64 req.handle) ++ data_of ops req)
  unfolding send_reply
  send_reply_lem ops req rest s left =
      and_go_lem stream (send_all sock (response req.error (be64 req.handle)) s)
        (λ s1.
          if req.cmd == cmd_read && req.error == 0
          then send_all sock (slot_after ops req) s1
          else (true, s1))
        (sends stream (response req.error (be64 req.handle)) rest s left)
        (λ s1 left1. elim (Bool-cases (req.cmd == cmd_read && req.error == 0)) [
          | inl test ↦ rw test (sends stream (slot_after ops req) rest s1 left1)
          | inr test ↦ rw test (did s1 refl left1 (sym (append_nil (sent s1))))
        ])

  send_replies_lem :
      (ops : List BlkOp) (reqs : List Bop) (rest : Bytes) (s : S)
      → incoming s ≡ rest
      → Does incoming sent (send_replies sock ops reqs s) s rest (all_sent ops reqs)
  unfolding send_replies
  send_replies_lem ops [] rest s left = did s refl left (sym (append_nil (sent s)))
  send_replies_lem ops (req ∷ reqs) rest s left =
      and_go_lem stream _ (λ s1. send_replies sock ops reqs s1) (send_reply_lem ops req rest s left)
        (λ s1 left1. send_replies_lem ops reqs rest s1 left1)

module _ {lib : Library} {codec : CodecKind} {st : Store} (is : IsStore lib codec st)
    (errs : ℕ → ℕ) where
  -- The pages of a read without an error.
  read_pages :
      (n blk : ℕ) (slot : Bytes) (ri : ℕ) (ops : List BlkOp)
      → errs ri ≡ 0
      → Both (Fate lib codec errs st) (block_ops n blk cmd_read slot ri) ops
      → Got lib codec st (blk * cblk_size) (n * cblk_size) (some (pages ops))
  unfolding block_ops pages
  read_pages zero blk slot ri ops fine nil = Got-nothing (blk * cblk_size)
  read_pages (suc n) blk slot ri ops fine (cons inp bo inps ops1 (failed kept bad) more) =
      absurd (bad fine)
  read_pages (suc n) blk slot ri ops fine
        (cons inp bo inps ops1 (write_ok w goes at page room) more) =
      absurd (omega (arith, w))
  read_pages (suc n) blk slot ri ops fine (cons inp bo inps ops1 (read_ok r kept page) more) =
      elim (read_pages n (blk + 1) (drop cblk_size slot) ri ops1 fine more) [
        | lost e why ↦ absurd (ground (arith, e))
        | got bytes e size at ↦
            let (whole, here) = block_bytes is blk bo.page page in
            let next : (blk + 1) * cblk_size ≡ blk * cblk_size + cblk_size = omega arith in
            let all : cblk_size + n * cblk_size ≡ suc n * cblk_size = omega arith in
            let same : bytes ≡ pages ops1 = ground (arith, e) in
            rw (← all) (
              Got-append bo.page (pages ops1) whole here (ap length (sym same) ∙ size)
                (λ i lt. rw (← next) (ap (λ l. get_elem? l i) (sym same) ∙ at i lt)))
      ]

  -- No error at the end is none at the start.
  had_none : (old : ℕ) → MayEnd st old 0 → old ≡ 0
  had_none old (inl same) = sym same
  had_none old (inr (inl full)) = absurd (omega (arith, full))
  had_none old (inr (inr (io, gone))) = absurd (omega (arith, io))

  Got-Data :
      (req : Bop) (off n : ℕ) (bytes : Bytes)
      → req.cmd ≡ cmd_read
      → req.error ≡ 0
      → off ≡ req.offset
      → n ≡ req.len
      → Got lib codec st off n (some bytes)
      → Data lib codec st req bytes
  Got-Data req off n bytes cmd fine at whole (lost e why) = absurd (ground (arith, e))
  Got-Data req off n bytes cmd fine at whole (got bytes1 e size same) =
      let eq : bytes1 ≡ bytes = ground (arith, e) in
      data_sent cmd fine (ap length (sym eq) ∙ size ∙ whole)
        (λ i lt. rw (← at) (ap (λ l. get_elem? l i) (sym eq) ∙ same i (omega (arith, lt, whole))))

  one_reply :
      (slots : ℕ → Bytes) (disk_size : ℕ) (req fin : Bop) (ops : List BlkOp)
      → IsRequest disk_size req
      → record fin { error = 0 } ≡ record req { error = 0 }
      → errs req.ri ≡ fin.error
      → MayEnd st req.error fin.error
      → Both (Fate lib codec errs st) (ops_of slots req) (take req.nops (drop req.op0 ops))
      → Data lib codec st fin (data_of ops fin)
  one_reply slots disk_size req fin ops asked same err may both =
      elim (Bool-cases (fin.cmd == cmd_read && fin.error == 0)) [
        | inr test ↦ rw test (no_data (ground (arith, test)) refl)
        | inl test ↦
            let fine : fin.error ≡ 0 = ground (arith, test) in
            let reads : fin.cmd ≡ cmd_read = ground (arith, test) in
            let cmd : req.cmd ≡ cmd_read = sym (ap (λ (b : Bop). b.cmd) same) ∙ reads in
            let began : req.error ≡ 0 = had_none req.error (subst (MayEnd st req.error) fine may) in
            let n : req.nops * cblk_size ≡ fin.len = elim (asked.ops) [
              | inl (ok, whole, inside) ↦ whole ∙ sym (ap (λ (b : Bop). b.len) same)
              | inr (bad, nothing, out) ↦ absurd (omega (arith, bad, began))
            ] in
            let at : (req.offset / cblk_size) * cblk_size ≡ fin.offset =
              omega (arith, asked.aligned, ap (λ (b : Bop). b.offset) same) in
            let mine : pages (take req.nops (drop req.op0 ops)) ≡ slot_after ops fin =
              ap (λ (b : Bop). slot_after ops b) (sym same) in
            rw (test, ← mine)
              (Got-Data fin ((req.offset / cblk_size) * cblk_size) (req.nops * cblk_size) _ reads
                fine at n
                (read_pages req.nops (req.offset / cblk_size) (slots req.ri) req.ri _ (err ∙ fine) (
                  subst
                    (λ c.
                      Both (Fate lib codec errs st)
                        (block_ops req.nops (req.offset / cblk_size) c (slots req.ri) req.ri)
                        (take req.nops (drop req.op0 ops)))
                    cmd both)))
      ]

  replies_lem :
      (slots : ℕ → Bytes) (disk_size k from : ℕ) (reqs fin : List Bop) (ops : List BlkOp)
      → Laid disk_size k from reqs
      → strip fin ≡ strip reqs
      → ((i : ℕ) → errs (k + i) ≡ error_at fin i)
      → ((i : ℕ) → MayEnd st (error_at reqs i) (error_at fin i))
      → Both (Fate lib codec errs st) (batch_ops slots reqs) (drop from ops)
      → Replies lib codec st fin (all_sent ops fin)
  unfolding batch_ops error_at
  replies_lem slots disk_size k from [] [] ops laid same err may both = none_sent
  replies_lem slots disk_size k from [] (f ∷ fin) ops laid same err may both =
      absurd (ground (arith, same))
  replies_lem slots disk_size k from (req ∷ reqs) [] ops laid same err may both =
      absurd (ground (arith, same))
  replies_lem slots disk_size k from (req ∷ reqs) (f ∷ fin) ops laid same err may both =
      let ((ri, (op0, asked)), later) = laid in
      let head : record f { error = 0 } ≡ record req { error = 0 } = ground (arith, same) in
      let tail : strip fin ≡ strip reqs = ground (arith, same) in
      let (front, back) =
        Both-split req.nops (ops_of slots req) (batch_ops slots reqs) (drop from ops)
          (length-block_ops req.nops (req.offset / cblk_size) req.cmd (slots req.ri) req.ri) both in
      let at : k + 0 ≡ req.ri = omega (arith, ri) in
      replied f fin (data_of ops f) (all_sent ops fin)
        (one_reply slots disk_size req f ops asked head (ap errs (sym at) ∙ err 0) (may 0)
          (rw op0 front))
        (replies_lem slots disk_size (k + 1) (from + req.nops) reqs fin ops later tail
          (λ i. let next : k + suc i ≡ k + 1 + i = omega arith in ap errs (sym next) ∙ err (suc i))
          (λ i. may (suc i))
          (subst (Both (Fate lib codec errs st) (batch_ops slots reqs))
            (drop-drop from req.nops ops) back))

-- What `flush_batch` comes to: `batch` before the replies, which are all sent, and the connection kept unless a
-- request ends with EIO.
pub record Answered (lib : Library) (codec : CodecKind) {S : Type 0} (incoming sent : S → Bytes)
    (st : Store) (reqs : List Bop) (inps : List BlkOp) (s : S) (r : Bool × (S × Store))
    : Type 0 where
  pub fin : List Bop
  pub ops : List BlkOp
  pub out : Bytes
  pub batch : Flushed lib codec st reqs inps (fin, (ops, r.1.1))
  pub replies : Replies lib codec st fin out
  pub left : incoming r.1.0 ≡ incoming s
  pub written : sent r.1.0 ≡ sent s ++ out
  pub kept : r.0 ≡ not (any_eio fin)

module _ {S : Type 0} {sock : Socket S} {incoming sent : S → Bytes}
    (stream : IsStream sock incoming sent) {lib : Library} {codec : CodecKind} {st : Store}
    (lossless : IsLossless lib) (is : IsStore lib codec st) where
  -- A batch of requests placed as `batch_admit` places them, with a full buffer for each, on a stream that sends
  -- all that it is given, a store in which the invariant holds and a lossless codec: the set runs as `Flushed`
  -- says; each request is answered in order with its handle and its own error, and behind a read that ends
  -- without one stand the bytes of its range as they were on the disk when the batch began; nothing is
  -- received; and the connection is kept exactly if no request ends with EIO.
  pub flush_batch_lem :
      {disk_size nops : ℕ} (slots : ℕ → Bytes) (reqs : List Bop)
      → Placed disk_size reqs nops
      → ((i : ℕ) → length (slots i) ≡ batch_slot)
      → (s : S)
      → Answered lib codec incoming sent st reqs
          (batch_ops slots reqs)
          s
          (flush_batch sock lib codec reqs (batch_ops slots reqs) s st)
  unfolding flush_batch drop settle
  flush_batch_lem {disk_size} slots reqs placed wide s =
      let laid = Placed-Laid placed in
      let inps = batch_ops slots reqs in
      let all =
        settle_lem lossless is reqs inps (batch_ops-AllSet slots wide disk_size 0 0 reqs laid)
          (batch_ops-IsIn slots wide disk_size (length reqs) 0 0 reqs laid (omega arith)) in
      let r = settle lib codec reqs inps st in
      elim (send_replies_lem stream r.1.0 r.0 (incoming s) s refl) [
        | did s1 e left out ↦ rw e record {
          fin = r.0;
          ops = r.1.0;
          out = all_sent r.1.0 r.0;
          batch = all;
          replies =
              replies_lem is (error_at r.0) slots disk_size 0 0 reqs r.0 r.1.0 laid all.same
                (λ i. let z : 0 + i ≡ i = omega arith in ap (error_at r.0) z) all.errors all.fates;
          left = left;
          written = out;
          kept = refl;
        }
      ]
