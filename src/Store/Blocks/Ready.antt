-- ===== src/Store/Blocks/Ready.antt =====
-- What holds of a set of block ops between the phases.
use nbd_vram.Prelude.{ℕ, ◌*◌, ◌≤◌, ◌≡◌, ◌≢◌, ◌⊎◌, Bool, true, false, List, [], ◌∷◌, length}
use nbd_vram.Heap.{slot_none, alloc_grain, cblk_size}
use nbd_vram.Heap.IsValid.{IsValid}
use nbd_vram.Heap.Regions.{size_at}
use nbd_vram.Codec.{CodecKind, Library}
use nbd_vram.Codec.RoundTrip.{IsStored}
use nbd_vram.Store.{Store, BlkOp, enospc, cmd_read, cmd_write}
use nbd_vram.Store.Keeps.{Keeps}
use nbd_vram.Store.Blocks.Reads.{IsSnapshot}

-- An op as `blkop_set` leaves it.
pub record IsFresh (bo : BlkOp) : Type 0 where
  pub cmd : (bo.cmd ≡ cmd_read) ⊎ (bo.cmd ≡ cmd_write)
  pub err : bo.err ≡ 0
  pub whole : bo.cmd ≡ cmd_write → length bo.page ≡ cblk_size

abbrev pub AllSet : List BlkOp → Type 0
AllSet [] = Unit
AllSet (inp ∷ inps) = IsFresh inp × AllSet inps

-- A write with a slot that was free in `st` and is its own in `st1`.
pub record IsWaiting (lib : Library) (codec : CodecKind) (st st1 : Store) (inp bo : BlkOp)
    : Type 0 where
  pub blk : bo.blk ≡ inp.blk
  pub page : bo.page ≡ inp.page
  pub cmd : bo.cmd ≡ cmd_write
  pub err : bo.err ≡ 0
  pub dma : bo.dma ≡ 1
  pub slot : bo.grain ≢ slot_none
  pub was_free : size_at st.heap bo.grain ≡ 0
  pub room : bo.clen ≤ size_at st1.heap bo.grain * alloc_grain
  pub packed : IsStored lib codec inp.page (bo.clen, bo.cslot)
  pub whole : length inp.page ≡ cblk_size

-- Which ops may go on: `lot r true e` is what holds of a write of the request `r` with a slot, and
-- `lot r false e` of one without, where `e` is its error. Phase A leaves a write without a slot only
-- where the heap is full.
abbrev pub Plain : (req : ℕ) → (goes : Bool) → (err : ℕ) → Type 0
Plain req goes err = (goes ≡ true) ⊎ (err ≡ enospc)

-- A prepared op: a read with its snapshot, a write with its slot, or a write with none.
pub data Ready (lib : Library) (codec : CodecKind) (lot : ℕ → Bool → ℕ → Type 0) (st st1 : Store)
    (inp bo : BlkOp) : Type 0 where
  read : IsSnapshot st inp.blk bo → inp.cmd ≡ cmd_read → Ready lib codec lot st st1 inp bo
  write :
      IsWaiting lib codec st st1 inp bo
      → inp.cmd ≡ cmd_write
      → lot inp.req true 0
      → Ready lib codec lot st st1 inp bo
  idle :
      inp.cmd ≡ cmd_write
      → bo.cmd ≡ cmd_write
      → bo.dma ≡ 0
      → bo.grain ≡ slot_none
      → lot inp.req false bo.err
      → Ready lib codec lot st st1 inp bo

-- No waiting write has the slot.
abbrev pub Avoid : (grain : ℕ) → List BlkOp → Type 0
Avoid g [] = Unit
Avoid g (bo ∷ ops) = (bo.cmd ≡ cmd_write → bo.dma ≡ 1 → bo.grain ≢ g) × Avoid g ops

-- No two waiting writes share a slot.
abbrev pub Distinct : List BlkOp → Type 0
Distinct [] = Unit
Distinct (bo ∷ ops) = (bo.cmd ≡ cmd_write → bo.dma ≡ 1 → Avoid bo.grain ops) × Distinct ops

-- A relation between the ops at two times.
pub data Both (P : BlkOp → BlkOp → Type 0) : List BlkOp → List BlkOp → Type 0 where
  nil : Both P [] []
  cons :
      (inp bo : BlkOp) (inps ops : List BlkOp)
      → P inp bo
      → Both P inps ops
      → Both P (inp ∷ inps) (bo ∷ ops)

pub Both-map :
    {P Q : BlkOp → BlkOp → Type 0} {inps ops : List BlkOp}
    → ((inp bo : BlkOp) → P inp bo → Q inp bo)
    → Both P inps ops
    → Both Q inps ops
Both-map f nil = nil
Both-map f (cons inp bo inps ops p rest) = cons inp bo inps ops (f inp bo p) (Both-map f rest)

-- The state after phase A: memory untouched, slots added.
pub record IsPrepared (lib : Library) (codec : CodecKind) (lot : ℕ → Bool → ℕ → Type 0) (st : Store)
    (inps ops : List BlkOp) (st1 : Store) : Type 0 where
  pub valid : IsValid st1.heap
  pub keeps : Keeps st st1
  pub vram : st1.vram ≡ st.vram
  pub vram_ptr : st1.vram_ptr ≡ st.vram_ptr
  pub copies : st1.copies ≡ st.copies
  pub ready : Both (Ready lib codec lot st st1) inps ops
  pub distinct : Distinct ops
