-- ===== src/Store/Ranges/Fixed.antt =====
-- What no operation of the store changes: the size of the disk, and which copies fail.
use nbd_vram.Prelude.{
  ℕ, zero, suc, ◌≡◌, refl, ◌∙◌, Bool, true, false, not, ◌||◌, List, [], ◌∷◌, Option, none, some,
  ◌==◌, if◌then◌else◌,
}
use nbd_vram.Heap.{slot_none, slot_alloc}
use nbd_vram.Entry.{ent_clen}
use nbd_vram.Codec.{Bytes, CodecKind, Library, comp_block}
use nbd_vram.Store.{
  Store, BlkOp, cmd_read, cmd_write, copy_to_device, copy_from_device, account, publish_entry,
  wr_publish, wr_prepare, rd_prepare, rd_block_locked, rmw_store, rmw_with, rmw_block,
}
use nbd_vram.Store.Blocks.{
  each, fetch, send, issue, pending, resnap, publish, prepare, validate_all, rounds, read_locked,
  do_blocks,
}
use nbd_vram.Store.Ranges.{run}

abbrev pub fixed : Store → (ℕ → Bool) × (ℕ × ℕ)
fixed st = (st.copies, (st.disk_size, st.nblocks))

-- `f` keeps them.
abbrev pub Keeping : (Store → BlkOp → BlkOp × Store) → Type 0
Keeping f = (st : Store) (bo : BlkOp) → fixed (f st bo).1 ≡ fixed st

pick_pair {ℓ} :
    {A : Type ℓ} (st : Store) (b : Bool) (x y : A × Store)
    → fixed x.1 ≡ fixed st
    → fixed y.1 ≡ fixed st
    → fixed (if b then x else y).1 ≡ fixed st
pick_pair st true x y p q = p
pick_pair st false x y p q = q

pick :
    (st : Store) (b : Bool) (x y : Store)
    → fixed x ≡ fixed st
    → fixed y ≡ fixed st
    → fixed (if b then x else y) ≡ fixed st
pick st true x y p q = p
pick st false x y p q = q

pub each-fixed :
    (f : Store → BlkOp → BlkOp × Store)
    → Keeping f
    → (ops : List BlkOp) (st : Store) → fixed (each f ops st).1 ≡ fixed st
unfolding each
each-fixed f keeps [] st = refl
each-fixed f keeps (bo ∷ ops) st = each-fixed f keeps ops (f st bo).1 ∙ keeps st bo

copy_to_device-fixed :
    (st : Store) (grain : ℕ) (bytes : Bytes) → fixed (copy_to_device st grain bytes).1 ≡ fixed st
unfolding copy_to_device
copy_to_device-fixed st grain bytes = pick_pair st (st.copies st.copies_done) _ _ refl refl

account-fixed : (st : Store) (old clen : ℕ) → fixed (account st old clen) ≡ fixed st
unfolding account
account-fixed st old clen = pick st (ent_clen old == 0) _ _ refl refl

fetch-fixed : Keeping fetch
unfolding fetch copy_from_device
fetch-fixed st bo = refl

issue-fixed : Keeping issue
unfolding issue send
issue-fixed st bo = pick_pair st (bo.dma == 0 || not (bo.err == 0)) _ _ refl (
    pick_pair st (bo.cmd == cmd_read) _ _ (fetch-fixed st bo)
      (copy_to_device-fixed st bo.grain bo.cslot))

resnap-fixed : Keeping resnap
unfolding resnap
resnap-fixed st bo =
    pick_pair st (not (pending bo)) _ _ refl
      (pick_pair st ((rd_prepare st bo).dma == 0) _ _ refl (fetch-fixed st (rd_prepare st bo)))

publish-fixed : Keeping publish
unfolding publish wr_publish publish_entry
publish-fixed st bo =
    pick st (not (bo.cmd == cmd_write) || (not (bo.err == 0) || bo.grain == slot_none)) _ _ refl
      (account-fixed (publish_entry st bo.blk bo.grain bo.clen) (st.index bo.blk) bo.clen)

module _ (lib : Library) (codec : CodecKind) where
  rd_block_locked-fixed :
      (st : Store) (blk : ℕ) → fixed (rd_block_locked lib codec st blk).1 ≡ fixed st
  unfolding rd_block_locked copy_from_device
  rd_block_locked-fixed st blk = pick_pair st (ent_clen (st.index blk) == 0) _ _ refl refl

  read_locked-fixed : Keeping (read_locked lib codec)
  unfolding read_locked
  read_locked-fixed st bo =
      pick_pair st (not (pending bo)) _ _ refl (rd_block_locked-fixed st bo.blk)

  pub prepare-fixed : Keeping (prepare lib codec)
  unfolding prepare wr_prepare
  prepare-fixed st bo =
      pick_pair st (bo.cmd == cmd_write) _ _
        (pick_pair st ((slot_alloc st.heap (comp_block lib codec bo.page).0).0 == slot_none) _ _
          refl refl)
        refl

  rounds-fixed :
      (n : ℕ) (ops : List BlkOp) (st : Store) → fixed (rounds lib codec n ops st).1 ≡ fixed st
  unfolding rounds
  rounds-fixed zero ops st = refl
  rounds-fixed (suc n) ops st =
      pick_pair st ((validate_all lib codec st ops).1 == 0) _ _ refl
        (rounds-fixed n _ _ ∙ each-fixed resnap resnap-fixed (validate_all lib codec st ops).0 _)

  pub do_blocks-fixed :
      (ops : List BlkOp) (st : Store) → fixed (do_blocks lib codec ops st).1 ≡ fixed st
  unfolding do_blocks
  do_blocks-fixed ops st =
      each-fixed publish publish-fixed _ _
      ∙ each-fixed (read_locked lib codec) read_locked-fixed _ _
      ∙ rounds-fixed 4 _ _
      ∙ each-fixed issue issue-fixed ops st

  pub run-fixed : (ops : List BlkOp) (st : Store) → fixed (run lib codec ops st).1 ≡ fixed st
  run-fixed ops st = do_blocks-fixed _ _ ∙ each-fixed (prepare lib codec) prepare-fixed ops st

  rmw_store-fixed :
      (st : Store) (blk : ℕ) (page : Bytes) → fixed (rmw_store lib codec st blk page).1 ≡ fixed st
  unfolding rmw_store publish_entry
  rmw_store-fixed st blk page =
      let packed = comp_block lib codec page in
      let grain = (slot_alloc st.heap packed.0).0 in
      let st1 = record st { heap = (slot_alloc st.heap packed.0).2 } in
      let sent = copy_to_device-fixed st1 grain packed.1 in
      pick_pair st (grain == slot_none) _ _ refl (
        pick_pair st (not (copy_to_device st1 grain packed.1).0) _ _ sent
          (account-fixed _ _ _ ∙ sent))

  rmw_with-fixed :
      (st : Store) (blk boff : ℕ) (src : Bytes) (r : Option Bytes × Store)
      → fixed r.1 ≡ fixed st
      → fixed (rmw_with lib codec blk boff src r).1 ≡ fixed st
  unfolding rmw_with
  rmw_with-fixed st blk boff src (none, st1) e = e
  rmw_with-fixed st blk boff src (some got, st1) e = rmw_store-fixed st1 blk _ ∙ e

  pub rmw_block-fixed :
      (st : Store) (blk boff : ℕ) (src : Bytes)
      → fixed (rmw_block lib codec st blk boff src).1 ≡ fixed st
  unfolding rmw_block
  rmw_block-fixed st blk boff src =
      rmw_with-fixed st blk boff src (rd_block_locked lib codec st blk)
        (rd_block_locked-fixed st blk)
