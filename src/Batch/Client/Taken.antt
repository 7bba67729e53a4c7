-- ===== src/Batch/Client/Taken.antt =====
-- One request on the wire taken into a batch.
use nbd_vram.Prelude.{
  ℕ, ◌%◌, ◌≤◌, ◌<◌, ◌≡◌, ◌⊎◌, inl, inr, refl, arith, ap, ◌∙◌, true, false, not, ◌&&◌, ◌||◌, List,
  [], ◌∷◌, ◌++◌, Option, ltb, ◌==◌, length,
}
use nbd_vram.Heap.{cblk_size}
use nbd_vram.Codec.{Bytes}
use nbd_vram.Store.{cmd_read, cmd_write}
use nbd_vram.Socket.{Socket}
use nbd_vram.Socket.Exact.{IsStream, recv_all_lem}
use nbd_vram.Batch.{Bop, Admission, batched, batch_admit, bop_of, batch_slot}
use nbd_vram.Batch.Client.{Buffers, fill, payload_of}
use nbd_vram.Batch.Client.Collect.{Wide, filled}
use nbd_vram.Batch.Client.Frames.{Frame, header_in, Fielded, IsNow}

-- A request that a batch takes: whole blocks, as many as a buffer holds, and the payload that it announces.
pub record Suits (f : Frame) : Type 0 where
  pub fields : Fielded f
  pub payload :
      ((f.cmd ≡ cmd_read) × (f.bytes ≡ [])) ⊎ ((f.cmd ≡ cmd_write) × (length f.bytes ≡ f.len))
  pub some_bytes : 0 < f.len
  pub fits : f.len ≤ batch_slot
  pub aligned : f.from % cblk_size ≡ 0
  pub whole : f.len % cblk_size ≡ 0

abbrev pub AllSuit : List Frame → Type 0
AllSuit [] = Unit
AllSuit (f ∷ fs) = Suits f × AllSuit fs

pub read_or_write : (f : Frame) → Suits f → (f.cmd ≡ cmd_read) ⊎ (f.cmd ≡ cmd_write)
read_or_write f suits = elim (suits.payload) [
  | inl (cmd, nothing) ↦ inl cmd
  | inr (cmd, size) ↦ inr cmd
]

pub batched_frame :
    (disk_size ri nops : ℕ) (f : Frame)
    → Suits f
    → batch_admit disk_size (header_in f) ri nops ≡ batched (bop_of disk_size (header_in f) ri nops)
unfolding batch_admit
batched_frame disk_size ri nops f suits =
    let known : (not (f.cmd == cmd_read || f.cmd == cmd_write)
          || (f.len == 0 || ltb batch_slot f.len))
        ≡ false =
      ground (arith, read_or_write f suits, suits.some_bytes, suits.fits) in
    let blocks : (f.from % cblk_size == 0 && f.len % cblk_size == 0) ≡ true =
      ground (arith, suits.aligned, suits.whole) in
    let got : (f.cmd == cmd_write && false) ≡ false = ground arith in rw (known, blocks, got) refl

-- An admission that takes the payload, and fills the buffer of the request with it.
pub data Let {S : Type 0} (incoming sent : S → Bytes) (req : Bop) (rest : Bytes) (s : S)
    : Admission × (Buffers × S) → Type 0 where
  let_in :
      (ubuf : Buffers) (s1 : S)
      → incoming s1 ≡ rest
      → sent s1 ≡ sent s
      → Wide ubuf
      → Let incoming sent req rest s (batched req, (ubuf, s1))

-- The requests of a batch are those of the frames.
abbrev pub Meant : List Bop → List Frame → Type 0
Meant [] [] = Unit
Meant [] (f ∷ fs) = ⊥
Meant (req ∷ reqs) [] = ⊥
Meant (req ∷ reqs) (f ∷ fs) =
    ((req.handle ≡ f.handle) × ((req.cmd ≡ f.cmd) × ((req.len ≡ f.len) × (req.offset ≡ f.from))))
    × Meant reqs fs

pub Meant-snoc :
    (reqs : List Bop) (fs : List Frame) (req : Bop) (f : Frame)
    → Meant reqs fs
    → Meant (req ∷ []) (f ∷ [])
    → Meant (reqs ++ req ∷ []) (fs ++ f ∷ [])
Meant-snoc [] [] req f meant this = this
Meant-snoc [] (g ∷ fs) req f meant this = absurd meant
Meant-snoc (r ∷ reqs) [] req f meant this = absurd meant
Meant-snoc (r ∷ reqs) (g ∷ fs) req f meant this = (meant.0, Meant-snoc reqs fs req f meant.1 this)

pub bop_of-Meant :
    (disk_size ri nops : ℕ) (f : Frame)
    → Meant (bop_of disk_size (header_in f) ri nops ∷ []) (f ∷ [])
unfolding bop_of
bop_of-Meant disk_size ri nops f = ((refl, (refl, (refl, refl))), tt)

pub snoc_assoc : (xs ys : List Frame) (f : Frame) → (xs ++ f ∷ []) ++ ys ≡ xs ++ (f ∷ ys)
snoc_assoc [] ys f = refl
snoc_assoc (x ∷ xs) ys f = ap (λ l. x ∷ l) (snoc_assoc xs ys f)

module _ {S : Type 0} {sock : Socket S} {incoming sent : S → Bytes}
    (stream : IsStream sock incoming sent) {recv_now : S → (len : ℕ) → Option Bytes × S}
    (is_now : IsNow recv_now incoming sent) (disk_size : ℕ) where
  pub payload_of-Let :
      (ri nops : ℕ) (f : Frame) (rest : Bytes) (ubuf : Buffers) (s : S)
      → Suits f
      → Wide ubuf
      → incoming s ≡ f.bytes ++ rest
      → Let incoming sent
          (bop_of disk_size (header_in f) ri nops)
          rest
          s
          (payload_of sock recv_now ubuf s (batched (bop_of disk_size (header_in f) ri nops)))
  unfolding payload_of fill bop_of
  payload_of-Let ri nops f rest ubuf s suits wide arrives = elim (suits.payload) [
    | inl (cmd, nothing) ↦
        let test : (f.cmd == cmd_write) ≡ false = ground (arith, cmd) in
        rw test (let_in ubuf s (arrives ∙ ap (λ l. l ++ rest) nothing) refl wide)
    | inr (cmd, size) ↦
        let test : (f.cmd == cmd_write) ≡ true = ground (arith, cmd) in
        let (s1, (e, (left, out))) = recv_all_lem stream f.bytes rest s arrives in
        rw (test, ← size, e)
          (let_in _ s1 left out (
            filled sock stream.recv_le (bop_of disk_size (header_in f) ri nops) ubuf f.bytes
              (omega (arith, size, suits.fits)) wide))
  ]
