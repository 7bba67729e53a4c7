-- ===== src/Batch/Client/Gather.antt =====
-- The batch that is collected from requests on the wire.
use nbd_vram.Prelude.{
  ℕ, zero, suc, ◌+◌, ◌≤◌, ◌≡◌, refl, arith, sym, ap, ◌∙◌, true, false, ◌&&◌, List, [], ◌∷◌, ◌++◌,
  Option, ltb, ◌==◌, length,
}
use mathlib.Core.Path.{subst}
use nbd_vram.Codec.{Bytes}
use nbd_vram.Socket.{Socket}
use nbd_vram.Socket.Exact.{IsStream, append_assoc}
use nbd_vram.Batch.{Bop, Admission, bop_of, cmd_disc, copy_cap, none_left, disconnect, Batch, flush}
use nbd_vram.Batch.Gathered.{IsRequest, Placed, empty, add, bop_of-IsRequest}
use nbd_vram.Batch.Client.{Peek, Buffers, admitted, peeked, collect, begin, recv_hdr_nb}
use nbd_vram.Batch.Client.Any.{if_keeps}
use nbd_vram.Batch.Client.Collect.{Wide}
use nbd_vram.Batch.Client.Frames.{
  Frame, head, wire, script, header_in, Fielded, length-head, header_of-head, IsNow, Looked, later,
  now, recv_hdr_nb_lem,
}
use nbd_vram.Batch.Client.Taken.{
  Suits, AllSuit, read_or_write, batched_frame, Let, let_in, Meant, Meant-snoc, bop_of-Meant,
  snoc_assoc, payload_of-Let,
}

-- The request that ends the session.
pub record Ends (f : Frame) : Type 0 where
  pub fields : Fielded f
  pub cmd : f.cmd ≡ cmd_disc

-- A batch of the first of the frames, which are one at least, and what is left to receive behind them.
pub data Filled {S : Type 0} (incoming sent : S → Bytes) (disk_size : ℕ) (all : List Frame)
    (final : Frame) (rest : Bytes) (s : S) : Batch × (Buffers × S) → Type 0 where
  part :
      (reqs : List Bop) (nops : ℕ) (done fs : List Frame) (ubuf : Buffers) (s1 : S)
      → Placed disk_size reqs nops
      → Wide ubuf
      → Meant reqs done
      → 1 ≤ length done
      → done ++ fs ≡ all
      → AllSuit fs
      → incoming s1 ≡ script fs ++ (head final ++ rest)
      → sent s1 ≡ sent s
      → Filled incoming sent disk_size all final rest s (flush reqs nops none_left, (ubuf, s1))
  last :
      (reqs : List Bop) (nops : ℕ) (ubuf : Buffers) (s1 : S)
      → Placed disk_size reqs nops
      → Wide ubuf
      → Meant reqs all
      → incoming s1 ≡ rest
      → sent s1 ≡ sent s
      → Filled incoming sent disk_size all final rest s (flush reqs nops disconnect, (ubuf, s1))

pub next_frame :
    (f : Frame) (fs : List Frame) (rest : Bytes)
    → script (f ∷ fs) ++ rest ≡ head f ++ (f.bytes ++ (script fs ++ rest))
next_frame f fs rest =
    append_assoc (wire f) (script fs) rest ∙ append_assoc (head f) f.bytes (script fs ++ rest)

rebase :
    {S : Type 0} {incoming sent : S → Bytes} {disk_size : ℕ} {all : List Frame} {final : Frame}
    {rest : Bytes} {s s2 : S} {r : Batch × (Buffers × S)}
    → sent s2 ≡ sent s
    → Filled incoming sent disk_size all final rest s2 r
    → Filled incoming sent disk_size all final rest s r
rebase same (part reqs nops done fs ubuf s1 placed wide meant pos e suit left out) =
    part reqs nops done fs ubuf s1 placed wide meant pos e suit left (out ∙ same)
rebase same (last reqs nops ubuf s1 placed wide meant left out) =
    last reqs nops ubuf s1 placed wide meant left (out ∙ same)

frames_nil : (fs : List Frame) → fs ++ [] ≡ fs
frames_nil [] = refl
frames_nil (f ∷ fs) = ap (λ l. f ∷ l) (frames_nil fs)

length-snoc : (fs : List Frame) (f : Frame) → 1 ≤ length (fs ++ f ∷ [])
length-snoc [] f = omega arith
length-snoc (g ∷ fs) f = omega arith

module _ {S : Type 0} {sock : Socket S} {incoming sent : S → Bytes}
    (stream : IsStream sock incoming sent) {recv_now : S → (len : ℕ) → Option Bytes × S}
    (is_now : IsNow recv_now incoming sent) (disk_size depth : ℕ) (final : Frame)
    (ends : Ends final) (rest : Bytes) where
  -- What is asked of the rest of the loop.
  abbrev Collects : (List Bop → (nops : ℕ) → Buffers → S → Batch × (Buffers × S)) → Type 0
  Collects more =
      (fs : List Frame) (reqs : List Bop) (nops : ℕ) (done : List Frame) (ubuf : Buffers) (s : S)
      → Placed disk_size reqs nops
      → Wide ubuf
      → Meant reqs done
      → 1 ≤ length done
      → AllSuit fs
      → incoming s ≡ script fs ++ (head final ++ rest)
      → Filled incoming sent disk_size (done ++ fs) final rest s (more reqs nops ubuf s)

  module _ (more : List Bop → (nops : ℕ) → Buffers → S → Batch × (Buffers × S))
      (goes : Collects more) (reqs : List Bop) (nops : ℕ) (done : List Frame) (ubuf : Buffers)
      (placed : Placed disk_size reqs nops) (wide : Wide ubuf) (meant : Meant reqs done)
      (some_done : 1 ≤ length done) where
    peeked_end :
        (s : S) (r : Peek × S)
        → Looked incoming sent (head final) rest s r
        → Filled incoming sent disk_size
            (done ++ [])
            final
            rest
            s
            (peeked sock recv_now disk_size depth more reqs nops ubuf r)
    unfolding peeked
    peeked_end s _ (later s1 left out) =
        part reqs nops done [] ubuf s1 placed wide meant some_done refl tt left out
    peeked_end s _ (now s1 left out) =
        let is_disc : (final.cmd == cmd_disc) ≡ true = ground (arith, ends.cmd) in
        rw (header_of-head final ends.fields, is_disc)
          (last reqs nops ubuf s1 placed wide (subst (Meant reqs) (sym (frames_nil done)) meant)
            left out)

    admitted_frame :
        (f : Frame) (fs : List Frame) (s : S) (r : Admission × (Buffers × S))
        → Suits f
        → AllSuit fs
        → Let incoming sent
            (bop_of disk_size (header_in f) (length reqs) nops)
            (script fs ++ (head final ++ rest))
            s
            r
        → Filled incoming sent disk_size
            (done ++ (f ∷ fs))
            final
            rest
            s
            (admitted sock recv_now disk_size depth more reqs nops (header_in f) r)
    unfolding admitted bop_of
    admitted_frame f fs s _ suits all (let_in ubuf1 s1 left out whole) =
        let req = bop_of disk_size (header_in f) (length reqs) nops in
        let is : IsRequest disk_size req =
          bop_of-IsRequest disk_size (header_in f) (length reqs) nops (read_or_write f suits)
            suits.some_bytes suits.fits suits.aligned suits.whole in
        subst
          (λ l.
            Filled incoming sent disk_size l final rest s
              (more (reqs ++ req ∷ []) (nops + req.nops) ubuf1 s1))
          (snoc_assoc done fs f)
          (rebase out (
            goes fs (reqs ++ req ∷ []) (nops + req.nops) (done ++ f ∷ []) ubuf1 s1
              (add reqs nops req placed refl refl is) whole
              (Meant-snoc reqs done req f meant (bop_of-Meant disk_size (length reqs) nops f))
              (length-snoc done f) all left))

    peeked_frame :
        (f : Frame) (fs : List Frame) (s : S) (r : Peek × S)
        → Suits f
        → AllSuit fs
        → Looked incoming sent (head f) (f.bytes ++ (script fs ++ (head final ++ rest))) s r
        → Filled incoming sent disk_size
            (done ++ (f ∷ fs))
            final
            rest
            s
            (peeked sock recv_now disk_size depth more reqs nops ubuf r)
    unfolding peeked
    peeked_frame f fs s _ suits all (later s1 left out) =
        part reqs nops done (f ∷ fs) ubuf s1 placed wide meant some_done refl (suits, all)
          (left ∙ sym (next_frame f fs (head final ++ rest))) out
    peeked_frame f fs s _ suits all (now s1 left out) =
        let kept : (f.cmd == cmd_disc) ≡ false = ground (arith, read_or_write f suits) in
        rw (header_of-head f suits.fields, kept, batched_frame disk_size (length reqs) nops f suits)
          (rebase out (
            admitted_frame f fs s1 _ suits all (
              payload_of-Let stream is_now disk_size (length reqs) nops f
                (script fs ++ (head final ++ rest)) ubuf s1 suits wide left)))

    collect_more :
        (fs : List Frame) (s : S)
        → AllSuit fs
        → incoming s ≡ script fs ++ (head final ++ rest)
        → Filled incoming sent disk_size
            (done ++ fs)
            final
            rest
            s
            (peeked sock recv_now disk_size depth more reqs nops ubuf (recv_hdr_nb sock recv_now s))
    collect_more [] s suit left =
        peeked_end s _ (recv_hdr_nb_lem stream is_now (head final) rest s (length-head final) left)
    collect_more (f ∷ fs) s suit left = peeked_frame f fs s _ suit.0 suit.1 (
        recv_hdr_nb_lem stream is_now (head f) (f.bytes ++ (script fs ++ (head final ++ rest))) s
          (length-head f) (left ∙ next_frame f fs (head final ++ rest)))

  collect_lem : (turns : ℕ) → Collects (collect sock recv_now disk_size depth turns)
  unfolding collect
  collect_lem zero fs reqs nops done ubuf s placed wide meant pos suit left =
      part reqs nops done fs ubuf s placed wide meant pos refl suit left refl
  collect_lem (suc turns) fs reqs nops done ubuf s placed wide meant pos suit left =
      if_keeps (Filled incoming sent disk_size (done ++ fs) final rest s)
        (ltb (length reqs) depth && ltb nops (copy_cap depth)) _ _
        (collect_more (collect sock recv_now disk_size depth turns) (collect_lem turns) reqs nops
          done ubuf placed wide meant pos fs s suit left)
        (part reqs nops done fs ubuf s placed wide meant pos refl suit left refl)

  begun :
      (f : Frame) (fs : List Frame) (s : S) (r : Admission × (Buffers × S))
      → Suits f
      → AllSuit fs
      → Let incoming sent
          (bop_of disk_size (header_in f) 0 0)
          (script fs ++ (head final ++ rest))
          s
          r
      → Filled incoming sent disk_size (f ∷ fs) final rest s (
          admitted sock recv_now disk_size depth
            (collect sock recv_now disk_size depth depth)
            []
            0
            (header_in f)
            r)
  unfolding admitted bop_of
  begun f fs s _ suits all (let_in ubuf1 s1 left out whole) =
      let req = bop_of disk_size (header_in f) 0 0 in
      let is : IsRequest disk_size req =
        bop_of-IsRequest disk_size (header_in f) 0 0 (read_or_write f suits) suits.some_bytes
          suits.fits suits.aligned suits.whole in
      rebase out (
        collect_lem depth fs (req ∷ []) (0 + req.nops) (f ∷ []) ubuf1 s1
          (add [] 0 req empty refl refl is) whole (bop_of-Meant disk_size 0 0 f) (omega arith) all
          left)

  -- The batch that a request on the wire begins.
  pub begin_lem :
      (f : Frame) (fs : List Frame) (ubuf : Buffers) (s : S)
      → Suits f
      → AllSuit fs
      → Wide ubuf
      → incoming s ≡ f.bytes ++ (script fs ++ (head final ++ rest))
      → Filled incoming sent disk_size
          (f ∷ fs)
          final
          rest
          s
          (begin sock recv_now disk_size depth (header_in f) ubuf s)
  begin_lem f fs ubuf s suits all wide left = rw (batched_frame disk_size 0 0 f suits) (
      begun f fs s _ suits all (
        payload_of-Let stream is_now disk_size 0 0 f (script fs ++ (head final ++ rest)) ubuf s
          suits wide left))
