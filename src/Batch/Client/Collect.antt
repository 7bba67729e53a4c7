-- ===== src/Batch/Client/Collect.antt =====
-- A batch that is collected from the socket stands in its places, with whole buffers.
use nbd_vram.Prelude.{
  ℕ, zero, suc, ◌+◌, ◌-◌, ◌≤◌, ◌≡◌, inl, inr, arith, Bool-cases, eq_cases, not, ◌&&◌, List, [], ◌∷◌,
  ◌++◌, Option, none, some, ltb, ◌==◌, length, length-append, length-drop, drop, update,
  update_self, update_ne,
}
use nbd_vram.Codec.{Bytes}
use nbd_vram.Store.{cmd_write}
use nbd_vram.Socket.{Socket, recv_loop, recv_all}
use nbd_vram.Batch.{
  Header, Bop, Admission, batched, unsuited, failed, request_magic, cmd_disc, batch_slot, copy_cap,
  Trailer, none_left, disconnect, single, Batch, flush, drop_connection,
}
use nbd_vram.Batch.Gathered.{
  IsRequest, Placed, empty, add, Admitted, taken, passed, bad, batch_admit_lem,
}
use nbd_vram.Batch.Client.{
  header_of, Peek, queued, not_yet, closed, Buffers, recv_hdr_nb, fill, payload_of, admitted,
  peeked, collect, begin,
}
use nbd_vram.Batch.Client.Any.{if_keeps}

abbrev Sized : (len : ℕ) → Option Bytes → Type 0
Sized len none = Unit
Sized len (some bytes) = length bytes ≡ len

-- Every buffer of a request has its whole size.
abbrev pub Wide : Buffers → Type 0
Wide ubuf = (i : ℕ) → length (ubuf i) ≡ batch_slot

joined :
    (len : ℕ) (got : Bytes) (o : Option Bytes)
    → length got ≤ len
    → Sized (len - length got) o
    → Sized len (elim o [ none ↦ none | some more ↦ some (got ++ more) ])
joined len got none le size = tt
joined len got (some more) le size = omega (arith, le, size, length-append got more)

-- A batch whose requests stand in their places, with whole buffers, or none.
pub data Gotten {S : Type 0} (disk_size : ℕ) : Batch × (Buffers × S) → Type 0 where
  fit :
      (reqs : List Bop) (nops : ℕ) (t : Trailer) (ubuf : Buffers) (s : S)
      → Placed disk_size reqs nops
      → Wide ubuf
      → Gotten disk_size (flush reqs nops t, (ubuf, s))
  gone : (after : Buffers × S) → Gotten disk_size (drop_connection, after)

-- `recv` gives no more bytes than it is asked for.
abbrev pub Fits : {S : Type 0} → Socket S → Type 0
Fits {S} sock = (s : S) (len : ℕ) → length (sock.recv s len).0 ≤ len

module _ {S : Type 0} (sock : Socket S) (fits : Fits sock) where
  recv_loop-Sized : (turns len : ℕ) (s : S) → len ≤ turns → Sized len (recv_loop sock turns len s).0
  unfolding recv_loop
  recv_loop-Sized zero len s le = omega (arith, le)
  recv_loop-Sized (suc turns) len s le =
      let got = (sock.recv s len).0 in
      let rest = recv_loop sock turns (len - length got) (sock.recv s len).1 in
      elim (Bool-cases (len == 0)) [
        | inl nothing ↦ rw nothing (ground (arith, nothing))
        | inr some_left ↦ elim (Bool-cases (length got == 0)) [
          | inl over ↦ rw (some_left, over) tt
          | inr more ↦
              rw (some_left, more)
                (joined len got rest.0 (fits s len) (
                  recv_loop-Sized turns (len - length got) (sock.recv s len).1
                    (ground (arith, le, more))))
        ]
      ]

  pub filled :
      (req : Bop) (ubuf : Buffers) (bytes : Bytes)
      → length bytes ≤ batch_slot
      → Wide ubuf
      → Wide (update ubuf req.ri (bytes ++ drop (length bytes) (ubuf req.ri)))
  filled req ubuf bytes le wide i = elim (eq_cases req.ri i) [
    | inl e ↦
        rw (← e, update_self ubuf req.ri (bytes ++ drop (length bytes) (ubuf req.ri)))
          (omega (
            arith,
            length-append bytes (drop (length bytes) (ubuf req.ri)),
            length-drop (length bytes) (ubuf req.ri),
            wide req.ri,
            le,
          ))
    | inr ne ↦ rw (update_ne ubuf req.ri (bytes ++ drop (length bytes) (ubuf req.ri)) i ne) (wide i)
  ]

-- What an admission with its payload comes to.
data Entered {S : Type 0} (disk_size ri nops : ℕ) : Admission × (Buffers × S) → Type 0 where
  entered :
      (req : Bop) (ubuf : Buffers) (s : S)
      → req.ri ≡ ri
      → req.op0 ≡ nops
      → IsRequest disk_size req
      → Wide ubuf
      → Entered disk_size ri nops (batched req, (ubuf, s))
  not_entered :
      (ubuf : Buffers) (s : S) → Wide ubuf → Entered disk_size ri nops (unsuited, (ubuf, s))
  lost : (after : Buffers × S) → Entered disk_size ri nops (failed, after)

module _ {S : Type 0} (sock : Socket S) (recv_now : S → (len : ℕ) → Option Bytes × S)
    (fits : Fits sock) where
  fill-Entered :
      (disk_size ri nops : ℕ) (req : Bop) (ubuf : Buffers) (r : Option Bytes × S)
      → req.ri ≡ ri
      → req.op0 ≡ nops
      → IsRequest disk_size req
      → Wide ubuf
      → Sized req.len r.0
      → Entered disk_size ri nops (fill sock recv_now req ubuf r)
  unfolding fill
  fill-Entered disk_size ri nops req ubuf (none, s) at op0 is wide size = lost (ubuf, s)
  fill-Entered disk_size ri nops req ubuf (some bytes, s) at op0 is wide size =
      entered req _ s at op0 is
        (filled sock fits req ubuf bytes (omega (arith, size, is.fits)) wide)

  payload_of-Entered :
      (disk_size ri nops : ℕ) (h : Header) (ubuf : Buffers) (s : S) (a : Admission)
      → Wide ubuf
      → Admitted disk_size h ri nops a
      → Entered disk_size ri nops (payload_of sock recv_now ubuf s a)
  unfolding payload_of
  payload_of-Entered disk_size ri nops h ubuf s _ wide (taken req at op0 is) =
      if_keeps (Entered disk_size ri nops) (req.cmd == cmd_write) _ _
        (fill-Entered disk_size ri nops req ubuf (recv_all sock req.len s) at op0 is wide
          (recv_loop-Sized sock fits req.len req.len s (omega arith)))
        (entered req ubuf s at op0 is wide)
  payload_of-Entered disk_size ri nops h ubuf s _ wide passed = not_entered ubuf s wide
  payload_of-Entered disk_size ri nops h ubuf s _ wide (bad why) = lost (ubuf, s)

  module _ (disk_size depth : ℕ) where
    -- What is asked of the rest of the loop.
    abbrev Goes : (List Bop → (nops : ℕ) → Buffers → S → Batch × (Buffers × S)) → Type 0
    Goes more =
        (reqs : List Bop) (nops : ℕ) (ubuf : Buffers) (s : S)
        → Placed disk_size reqs nops
        → Wide ubuf
        → Gotten disk_size (more reqs nops ubuf s)

    admitted-Gotten :
        (more : List Bop → (nops : ℕ) → Buffers → S → Batch × (Buffers × S)) (reqs : List Bop)
        (nops : ℕ) (h : Header) (r : Admission × (Buffers × S))
        → Goes more
        → Placed disk_size reqs nops
        → Entered disk_size (length reqs) nops r
        → Gotten disk_size (admitted sock recv_now disk_size depth more reqs nops h r)
    unfolding admitted
    admitted-Gotten more reqs nops h _ goes placed (entered req ubuf s at op0 is whole) =
        goes (reqs ++ req ∷ []) (nops + req.nops) ubuf s (add reqs nops req placed at op0 is) whole
    admitted-Gotten more reqs nops h _ goes placed (not_entered ubuf s wide) =
        fit reqs nops (single h) ubuf s placed wide
    admitted-Gotten more reqs nops h _ goes placed (lost after) = gone after

    peeked-Gotten :
        (more : List Bop → (nops : ℕ) → Buffers → S → Batch × (Buffers × S)) (reqs : List Bop)
        (nops : ℕ) (ubuf : Buffers) (r : Peek × S)
        → Goes more
        → Placed disk_size reqs nops
        → Wide ubuf
        → Gotten disk_size (peeked sock recv_now disk_size depth more reqs nops ubuf r)
    unfolding peeked
    peeked-Gotten more reqs nops ubuf (not_yet, s) goes placed wide =
        fit reqs nops none_left ubuf s placed wide
    peeked-Gotten more reqs nops ubuf (closed, s) goes placed wide = gone (ubuf, s)
    peeked-Gotten more reqs nops ubuf (queued hdr, s) goes placed wide =
        let h = header_of hdr in
        if_keeps (Gotten disk_size) (not (h.magic == request_magic)) _ _ (gone (ubuf, s)) (
          if_keeps (Gotten disk_size) (h.cmd == cmd_disc) _ _
            (fit reqs nops disconnect ubuf s placed wide)
            (admitted-Gotten more reqs nops h _ goes placed (
              payload_of-Entered disk_size (length reqs) nops h ubuf s _ wide
                (batch_admit_lem disk_size h (length reqs) nops))))

    collect-Gotten : (turns : ℕ) → Goes (collect sock recv_now disk_size depth turns)
    unfolding collect
    collect-Gotten zero reqs nops ubuf s placed wide = fit reqs nops none_left ubuf s placed wide
    collect-Gotten (suc turns) reqs nops ubuf s placed wide =
        if_keeps (Gotten disk_size) (ltb (length reqs) depth && ltb nops (copy_cap depth)) _ _
          (peeked-Gotten (collect sock recv_now disk_size depth turns) reqs nops ubuf
            (recv_hdr_nb sock recv_now s) (collect-Gotten turns) placed wide)
          (fit reqs nops none_left ubuf s placed wide)

    pub begin-Gotten :
        (h : Header) (ubuf : Buffers) (s : S)
        → Wide ubuf
        → Gotten disk_size (begin sock recv_now disk_size depth h ubuf s)
    begin-Gotten h ubuf s wide =
        admitted-Gotten (collect sock recv_now disk_size depth depth) [] 0 h _
          (collect-Gotten depth) empty
          (payload_of-Entered disk_size 0 0 h ubuf s _ wide (batch_admit_lem disk_size h 0 0))
