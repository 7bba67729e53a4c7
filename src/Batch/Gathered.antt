-- ===== src/Batch/Gathered.antt =====
-- A batch stays inside the worker's arrays, and its requests share out the block ops.
use mathlib.Core.Path.{subst}
use nbd_vram.Prelude.{
  ℕ, ◌+◌, ◌*◌, ◌%◌, ◌≤◌, ◌<◌, ◌≡◌, ◌⊎◌, inl, inr, arith, refl, Bool, true, false, not, ◌&&◌, ◌||◌,
  List, [], ◌∷◌, ◌++◌, ltb, ◌==◌, length, length-append, Bool-cases,
}
use nbd_vram.Heap.{cblk_size}
use nbd_vram.Store.{einval, cmd_read, cmd_write}
use nbd_vram.Request.{oob}
use nbd_vram.Request.Bounds.{oob_lem}
use nbd_vram.Batch.{
  Header, Bop, Admission, batched, unsuited, failed, batch_admit, bop_of, request_magic, cmd_disc,
  batch_slot, batch_blocks, Incoming, header, idle, broken, Batch, flush, drop_connection, gather,
  assemble, maxops, copy_cap, Trailer, none_left, disconnect, single,
}

-- A request of the batch: whole blocks of the disk, one op for each, or a range outside it, with no op
-- and its error.
pub record IsRequest (disk_size : ℕ) (req : Bop) : Type 0 where
  pub some_bytes : 0 < req.len
  pub fits : req.len ≤ batch_slot
  pub cmd : (req.cmd ≡ cmd_read) ⊎ (req.cmd ≡ cmd_write)
  pub aligned : req.offset % cblk_size ≡ 0
  pub ops :
      ((req.error ≡ 0) × (req.nops * cblk_size ≡ req.len) × (req.offset + req.len ≤ disk_size))
      ⊎ ((req.error ≡ einval) × (req.nops ≡ 0) × (disk_size < req.offset + req.len))

-- The requests stand in the order of their slots, and each has the ops that follow those before it.
pub data Placed (disk_size : ℕ) : List Bop → (nops : ℕ) → Type 0 where
  empty : Placed disk_size [] 0
  add :
      (reqs : List Bop) (nops : ℕ) (req : Bop)
      → Placed disk_size reqs nops
      → req.ri ≡ length reqs
      → req.op0 ≡ nops
      → IsRequest disk_size req
      → Placed disk_size (reqs ++ req ∷ []) (nops + req.nops)

-- A read error, a header that is none, or a payload that cannot be received.
abbrev pub is_bad : Incoming → Bool
is_bad idle = false
is_bad broken = true
is_bad (header h) = not (h.magic == request_magic) || (h.cmd == cmd_write && not h.payload)

abbrev pub any_bad : List Incoming → Bool
any_bad [] = false
any_bad (i ∷ queue) = is_bad i || any_bad queue

-- What assembling comes to: a batch that fits, or a connection dropped for bad input.
pub data Assembled (disk_size depth : ℕ) (queue : List Incoming) : Batch → Type 0 where
  fitting :
      (reqs : List Bop) (nops : ℕ) (t : Trailer)
      → Placed disk_size reqs nops
      → length reqs ≤ depth
      → nops ≤ maxops depth
      → Assembled disk_size depth queue (flush reqs nops t)
  bad_input : any_bad queue ≡ true → Assembled disk_size depth queue drop_connection

-- What one admission comes to.
pub data Admitted (disk_size : ℕ) (h : Header) (ri nops : ℕ) : Admission → Type 0 where
  taken :
      (req : Bop)
      → req.ri ≡ ri
      → req.op0 ≡ nops
      → IsRequest disk_size req
      → Admitted disk_size h ri nops (batched req)
  passed : Admitted disk_size h ri nops unsuited
  bad : is_bad (header h) ≡ true → Admitted disk_size h ri nops failed

pub bop_of-IsRequest :
    (disk_size : ℕ) (h : Header) (ri nops : ℕ)
    → (h.cmd ≡ cmd_read) ⊎ (h.cmd ≡ cmd_write)
    → 0 < h.len
    → h.len ≤ batch_slot
    → h.from % cblk_size ≡ 0
    → h.len % cblk_size ≡ 0
    → IsRequest disk_size (bop_of disk_size h ri nops)
unfolding bop_of
bop_of-IsRequest disk_size h ri nops cmd pos fits aligned whole = record {
  some_bytes = pos;
  fits = fits;
  cmd = cmd;
  aligned = aligned;
  ops = elim (Bool-cases (oob disk_size h.from h.len)) [
    | inl out ↦ rw out (inr (refl, refl, ground (arith, oob_lem disk_size h.from h.len)))
    | inr inside ↦
        rw inside (inl (refl, omega (arith, whole), ground (arith, oob_lem disk_size h.from h.len)))
  ];
}

pub batch_admit_lem :
    (disk_size : ℕ) (h : Header) (ri nops : ℕ)
    → Admitted disk_size h ri nops (batch_admit disk_size h ri nops)
unfolding batch_admit bop_of
batch_admit_lem disk_size h ri nops = elim (Bool-cases (h.magic == request_magic)) [
  | inr wrong ↦ rw wrong (bad (ground (arith, wrong)))
  | inl right ↦
      elim (Bool-cases
        (not (h.cmd == cmd_read || h.cmd == cmd_write) || (h.len == 0 || ltb batch_slot h.len))) [
          | inl other ↦ rw (right, other) passed
          | inr ours ↦ elim (Bool-cases (h.from % cblk_size == 0 && h.len % cblk_size == 0)) [
            | inr ragged ↦ rw (right, ours, ragged) passed
            | inl whole ↦ elim (Bool-cases (h.cmd == cmd_write && not h.payload)) [
              | inl lost ↦ rw (right, ours, whole, lost) (bad (ground (arith, lost)))
              | inr got ↦
                  rw (right, ours, whole, got)
                    (taken (bop_of disk_size h ri nops) refl refl (
                      bop_of-IsRequest disk_size h ri nops (ground (arith, ours)) (ground arith)
                        (ground arith) (ground arith) (ground arith)))
            ]
          ]
        ]
]

weaken :
    {disk_size depth : ℕ} {queue : List Incoming} {b : Batch} (i : Incoming)
    → Assembled disk_size depth queue b
    → Assembled disk_size depth (i ∷ queue) b
weaken i (fitting reqs nops t placed short small) = fitting reqs nops t placed short small
weaken i (bad_input some_bad) = bad_input (ground (arith, some_bad))

-- A request has at most as many ops as a slot has blocks.
nops-le : {disk_size : ℕ} {req : Bop} → IsRequest disk_size req → req.nops ≤ batch_blocks
nops-le is = elim (is.ops) [
  | inl (ok, count, inside) ↦ omega (arith, count, is.fits)
  | inr (wrong, nothing, out) ↦ omega (arith, nothing)
]

module _ (disk_size depth : ℕ) where
  -- there is room for one more
  room_left : (nops : ℕ) → nops < copy_cap depth → nops + batch_blocks ≤ maxops depth
  unfolding copy_cap maxops
  room_left nops lt = ground arith

  -- What the loop comes to on the rest of the queue, from any batch that fits.
  abbrev Rest : List Incoming → Type 0
  Rest queue =
      (reqs : List Bop) (nops : ℕ)
      → Placed disk_size reqs nops
      → length reqs ≤ depth
      → nops ≤ maxops depth
      → Assembled disk_size depth queue (gather disk_size depth queue reqs nops)

  module _ (reqs : List Bop) (nops : ℕ) (placed : Placed disk_size reqs nops)
      (short : length reqs < depth) (small : nops < copy_cap depth) where
    room : (ltb (length reqs) depth && ltb nops (copy_cap depth)) ≡ true
    room = ground arith

    here :
        (queue : List Incoming) (t : Trailer) → Assembled disk_size depth queue (flush reqs nops t)
    here queue t = fitting reqs nops t placed (omega arith) (omega (arith, room_left nops small))

    gather_admitted :
        (h : Header) (queue : List Incoming) (a : Admission)
        → Rest queue
        → batch_admit disk_size h (length reqs) nops ≡ a
        → Admitted disk_size h (length reqs) nops a
        → (h.magic == request_magic) ≡ true
        → (h.cmd == cmd_disc) ≡ false
        → Assembled disk_size depth
            (header h ∷ queue)
            (gather disk_size depth (header h ∷ queue) reqs nops)
    unfolding gather
    gather_admitted h queue _ rest e (taken req ri op0 is) right kept =
        rw (room, right, kept, e)
          (weaken (header h) (
            rest (reqs ++ req ∷ []) (nops + req.nops) (add reqs nops req placed ri op0 is)
              (omega (arith, length-append reqs (req ∷ [])))
              (omega (arith, nops-le is, room_left nops small))))
    gather_admitted h queue _ rest e passed right kept =
        rw (room, right, kept, e) (here (header h ∷ queue) (single h))
    gather_admitted h queue _ rest e (bad why) right kept =
        rw (room, right, kept, e) (bad_input (ground (arith, why)))

    gather_header :
        (h : Header) (queue : List Incoming)
        → Rest queue
        → Assembled disk_size depth
            (header h ∷ queue)
            (gather disk_size depth (header h ∷ queue) reqs nops)
    unfolding gather
    gather_header h queue rest = elim (Bool-cases (h.magic == request_magic)) [
      | inr wrong ↦ rw (room, wrong) (bad_input (ground (arith, wrong)))
      | inl right ↦ elim (Bool-cases (h.cmd == cmd_disc)) [
        | inl over ↦ rw (room, right, over) (here (header h ∷ queue) disconnect)
        | inr kept ↦
            gather_admitted h queue (batch_admit disk_size h (length reqs) nops) rest refl
              (batch_admit_lem disk_size h (length reqs) nops) right kept
      ]
    ]

    gather_next :
        (i : Incoming) (queue : List Incoming)
        → Rest queue
        → Assembled disk_size depth (i ∷ queue) (gather disk_size depth (i ∷ queue) reqs nops)
    unfolding gather
    gather_next idle queue rest = rw room (here (idle ∷ queue) none_left)
    gather_next broken queue rest = rw room (bad_input refl)
    gather_next (header h) queue rest = gather_header h queue rest

  gather_lem : (queue : List Incoming) → Rest queue
  unfolding gather
  gather_lem [] reqs nops placed short small = fitting reqs nops none_left placed short small
  gather_lem (i ∷ queue) reqs nops placed short small =
      elim (Bool-cases (ltb (length reqs) depth && ltb nops (copy_cap depth))) [
        | inl room ↦
            gather_next reqs nops placed (ground arith) (ground arith) i queue (gather_lem queue)
        | inr full ↦ rw full (fitting reqs nops none_left placed short small)
      ]

  first_admitted :
      (h : Header) (queue : List Incoming) (a : Admission)
      → 0 < depth
      → batch_admit disk_size h 0 0 ≡ a
      → Admitted disk_size h 0 0 a
      → Assembled disk_size depth (header h ∷ queue) (assemble disk_size depth h queue)
  unfolding assemble maxops
  first_admitted h queue _ pos e (taken req ri op0 is) =
      rw (assemble, e)
        (weaken (header h) (
          gather_lem queue (req ∷ []) req.nops
            (subst (Placed disk_size (req ∷ [])) (omega arith) (add [] 0 req empty ri op0 is))
            (omega arith) (ground (arith, nops-le is))))
  first_admitted h queue _ pos e passed =
      rw (assemble, e) (fitting [] 0 (single h) empty (omega arith) (omega arith))
  first_admitted h queue _ pos e (bad why) = rw (assemble, e) (bad_input (ground (arith, why)))

  -- With a depth of at least 1 `handle_client` assembles from any input a batch of at most `depth`
  -- requests and at most `maxops` block ops, so that neither array overflows, or drops the connection,
  -- and then because of a read error, a bad magic number or a lost payload. The requests stand in
  -- slots 0, 1 and so on; each has whole blocks inside the disk, with one op for each block behind the
  -- ops of the requests before it, or lies partly outside the disk, with `EINVAL` and no op.
  pub assemble_lem :
      (h : Header) (queue : List Incoming)
      → 0 < depth
      → Assembled disk_size depth (header h ∷ queue) (assemble disk_size depth h queue)
  assemble_lem h queue pos =
      first_admitted h queue (batch_admit disk_size h 0 0) pos refl
        (batch_admit_lem disk_size h 0 0)
