-- ===== src/Store/Blocks/Reads.antt =====
-- A set of reads gets the pages of its blocks.
use nbd_vram.Prelude.{
  ℕ, ◌+◌, ◌≡◌, ◌≢◌, inl, inr, refl, arith, true, false, not, ◌&&◌, ◌||◌, List, [], ◌∷◌, some, ◌==◌,
  if◌then◌else◌, eq_cases, ==_ne, ==_refl,
}
use nbd_vram.Entry.{ent_grain, ent_clen}
use nbd_vram.Codec.{CodecKind, Library, decomp_block}
use nbd_vram.Store.{Store, BlkOp, cmd_read, cmd_write, copy_from_device, rd_prepare, rd_finish}
use nbd_vram.Store.IsStore.{stored, page_at, IsStore}
use nbd_vram.Store.Blocks.{
  each, fetch, issue, pending, publish, validate, validate_all, rounds, read_locked, do_blocks,
}

-- Each op has the property for its block.
pub data Ops (P : ℕ → BlkOp → Type 0) : List ℕ → List BlkOp → Type 0 where
  end : Ops P [] []
  op :
      (b : ℕ) (bo : BlkOp) (bs : List ℕ) (ops : List BlkOp)
      → P b bo
      → Ops P bs ops
      → Ops P (b ∷ bs) (bo ∷ ops)

abbrev pub at_count : Store → ℕ → Store
at_count st k = record st { copies_done = k }

each_lem :
    (f : Store → BlkOp → BlkOp × Store) (P Q : ℕ → BlkOp → Type 0) (st : Store)
    → ((k b : ℕ) (bo : BlkOp)
        → P b bo
        → Q b (f (at_count st k) bo).0 × ((j : ℕ) × ((f (at_count st k) bo).1 ≡ at_count st j)))
    → {bs : List ℕ} {ops : List BlkOp} → Ops P bs ops
    → (k : ℕ)
    → Ops Q bs (each f ops (at_count st k)).0
      × ((j : ℕ) × ((each f ops (at_count st k)).1 ≡ at_count st j))
unfolding each
each_lem f P Q st step end k = (end, (k, refl))
each_lem f P Q st step (op b bo bs ops p rest) k =
    let (q, (j, same)) = step k b bo p in
    let (qs, (i, same')) = each_lem f P Q st step rest j in
    (
      op b (f (at_count st k) bo).0 bs (each f ops (f (at_count st k) bo).1).0 q (rw same qs),
      (i, rw same same'),
    )

-- A read whose entry was looked up.
pub record IsSnapshot (st : Store) (b : ℕ) (bo : BlkOp) : Type 0 where
  pub blk : bo.blk ≡ b
  pub cmd : bo.cmd ≡ cmd_read
  pub err : bo.err ≡ 0
  pub ent : bo.ent ≡ st.index b
  pub clen : bo.clen ≡ ent_clen (st.index b)
  pub grain : bo.grain ≡ ent_grain (st.index b)
  pub dma : bo.dma ≡ (if ent_clen (st.index b) == 0 then 0 else 1)

-- `rd_prepare` takes the snapshot.
pub rd_prepare-IsSnapshot :
    (st : Store) (bo : BlkOp)
    → bo.cmd ≡ cmd_read
    → bo.err ≡ 0
    → IsSnapshot st bo.blk (rd_prepare st bo)
unfolding rd_prepare
rd_prepare-IsSnapshot st bo cmd err = record {
  blk = refl;
  cmd = cmd;
  err = err;
  ent = refl;
  clen = refl;
  grain = refl;
  dma = refl;
}

-- One whose bytes are there.
pub record IsFetched (st : Store) (b : ℕ) (bo : BlkOp) : Type 0 where
  pub snapshot : IsSnapshot st b bo
  pub bytes : ent_clen (st.index b) ≢ 0 → bo.cslot ≡ stored st (st.index b)

-- One that has its page.
pub record IsRead (lib : Library) (codec : CodecKind) (st : Store) (b : ℕ) (bo : BlkOp)
    : Type 0 where
  pub blk : bo.blk ≡ b
  pub cmd : bo.cmd ≡ cmd_read
  pub err : bo.err ≡ 0
  pub dma : bo.dma ≡ 2
  pub page : page_at lib codec st b ≡ some bo.page

module _ {st : Store} (all_copies : (k : ℕ) → st.copies k ≡ true) where
  issue-IsFetched :
      (k b : ℕ) (bo : BlkOp)
      → IsSnapshot st b bo
      → IsFetched st b (issue (at_count st k) bo).0
        × ((j : ℕ) × ((issue (at_count st k) bo).1 ≡ at_count st j))
  unfolding issue fetch copy_from_device
  issue-IsFetched k b bo snap = elim (eq_cases (ent_clen (st.index b)) 0) [
    | inl fresh ↦
        let idle : (bo.dma == 0 || not (bo.err == 0)) ≡ true = ground (arith, snap.dma, fresh) in
        rw idle (record { snapshot = snap; bytes = λ written. absurd (written fresh) }, (k, refl))
    | inr live ↦
        let busy : (bo.dma == 0 || not (bo.err == 0)) ≡ false =
          ground (arith, snap.dma, snap.err, live) in
        let reads : (bo.cmd == cmd_read) ≡ true = ground (arith, snap.cmd) in
        rw (busy, reads, fetch, copy_from_device, all_copies k)
          (
            record {
              snapshot = record {
                blk = snap.blk;
                cmd = snap.cmd;
                err = snap.err;
                ent = snap.ent;
                clen = snap.clen;
                grain = snap.grain;
                dma = snap.dma;
              };
              bytes = λ written. rw (snap.grain, snap.clen) refl;
            },
            (k + 1, refl),
          )
  ]

module _ {lib : Library} {codec : CodecKind} {st : Store} (is : IsStore lib codec st) where
  pub validate-IsRead :
      (s : Store)
      → ((b : ℕ) → s.index b ≡ st.index b)
      → (b : ℕ) (bo : BlkOp) → IsFetched st b bo
      → IsRead lib codec st b (validate lib codec s bo).0 × ((validate lib codec s bo).1 ≡ 0)
  unfolding validate pending rd_finish page_at
  validate-IsRead s same b bo got =
      let snap = got.snapshot in
      let waits : (bo.cmd == cmd_read && (bo.err == 0 && not (bo.dma == 2))) ≡ true =
        ground (arith, snap.cmd, snap.err, snap.dma) in
      elim (eq_cases (ent_clen (st.index b)) 0) [
        | inl fresh ↦
            let empty : (bo.clen == 0) ≡ true = ground (arith, snap.clen, fresh) in
            rw (waits, empty)
              (
                record {
                  blk = snap.blk;
                  cmd = snap.cmd;
                  err = snap.err;
                  dma = refl;
                  page = rw (page_at, fresh) refl;
                },
                refl,
              )
        | inr live ↦
            let was = is.held b live in
            let some_bytes : (bo.clen == 0) ≡ false = ground (arith, snap.clen, live) in
            let current : (s.index bo.blk == bo.ent) ≡ true =
              rw (snap.blk, snap.ent, same b) (==_refl (st.index b)) in
            let test : (ent_clen (st.index b) == 0) ≡ false =
              ==_ne (ent_clen (st.index b)) 0 live in
            let back : decomp_block lib codec bo.clen bo.cslot ≡ some was.page =
              rw (snap.clen, got.bytes live) was.back in
            rw (waits, some_bytes, current, back)
              (
                record {
                  blk = snap.blk;
                  cmd = snap.cmd;
                  err = snap.err;
                  dma = refl;
                  page = rw (page_at, test) was.back;
                },
                refl,
              )
      ]

  validate_all_lem :
      (k : ℕ) {bs : List ℕ} {ops : List BlkOp}
      → Ops (IsFetched st) bs ops
      → Ops (IsRead lib codec st) bs (validate_all lib codec (at_count st k) ops).0
        × ((validate_all lib codec (at_count st k) ops).1 ≡ 0)
  unfolding validate_all
  validate_all_lem k end = (end, refl)
  validate_all_lem k (op b bo bs ops got rest) =
      let (now, none_lost) = validate-IsRead (at_count st k) (λ b. refl) b bo got in
      let (others, no_more) = validate_all_lem k rest in
      (
        op b (validate lib codec (at_count st k) bo).0 bs
            (validate_all lib codec (at_count st k) ops).0 now others,
        omega (arith, none_lost, no_more),
      )

  locked-IsRead :
      (k b : ℕ) (bo : BlkOp)
      → IsRead lib codec st b bo
      → IsRead lib codec st b (read_locked lib codec (at_count st k) bo).0
        × ((j : ℕ) × ((read_locked lib codec (at_count st k) bo).1 ≡ at_count st j))
  unfolding read_locked pending
  locked-IsRead k b bo read =
      let over : (bo.cmd == cmd_read && (bo.err == 0 && not (bo.dma == 2))) ≡ false =
        ground (arith, read.dma) in
      rw over (read, (k, refl))

  publish-IsRead :
      (k b : ℕ) (bo : BlkOp)
      → IsRead lib codec st b bo
      → IsRead lib codec st b (publish (at_count st k) bo).0
        × ((j : ℕ) × ((publish (at_count st k) bo).1 ≡ at_count st j))
  unfolding publish
  publish-IsRead k b bo read =
      let no_write : (bo.cmd == cmd_write) ≡ false = ground (arith, read.cmd) in
      rw no_write (read, (k, refl))

  -- A set of reads that were looked up together, while no other worker runs and all copies succeed:
  -- `do_blocks` ends with every read done, without an error, and holding the page that its block
  -- reads as, and with the state as it was but for the count of copies.
  pub do_blocks-IsRead :
      (all_copies : (k : ℕ) → st.copies k ≡ true) {bs : List ℕ} {ops : List BlkOp}
      → Ops (IsSnapshot st) bs ops
      → Ops (IsRead lib codec st) bs (do_blocks lib codec ops st).0
        × ((j : ℕ) × ((do_blocks lib codec ops st).1 ≡ at_count st j))
  unfolding do_blocks rounds
  do_blocks-IsRead all_copies {ops = ops} snaps =
      let (fetched, (i, same1)) =
        each_lem issue (IsSnapshot st) (IsFetched st) st (issue-IsFetched all_copies) snaps
          st.copies_done in
      let (read, no_more) = validate_all_lem i fetched in
      let (kept, (j, same2)) =
        each_lem (read_locked lib codec) (IsRead lib codec st) (IsRead lib codec st) st
          locked-IsRead read i in
      let (last, (n, same3)) =
        each_lem publish (IsRead lib codec st) (IsRead lib codec st) st publish-IsRead kept j in
      rw (same1, no_more, same2) (last, (n, same3))
