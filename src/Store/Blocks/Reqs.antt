-- ===== src/Store/Blocks/Reqs.antt =====
-- No phase of a set of ops changes the request that an op belongs to.
use nbd_vram.Prelude.{
  ℕ, zero, suc, ◌≡◌, refl, arith, ◌∙◌, Bool, true, false, not, ◌||◌, List, [], ◌∷◌, Option, none,
  some, ◌==◌, if◌then◌else◌,
}
use nbd_vram.Heap.{slot_none, slot_alloc}
use nbd_vram.Codec.{Bytes, CodecKind, Library, comp_block}
use nbd_vram.Store.{
  Store, BlkOp, Finish, done, retry, corrupt, cmd_read, cmd_write, wr_prepare, rd_prepare,
  rd_finish, rd_block_locked, copy_to_device, copy_from_device,
}
use nbd_vram.Store.Blocks.{
  each, fetch, send, issue, pending, resnap, publish, prepare, validate, validate_all, rounds,
  read_locked, do_blocks,
}
use nbd_vram.Store.Blocks.Ready.{Both, nil, cons}

abbrev pub reqs_of : List BlkOp → List ℕ
reqs_of [] = []
reqs_of (bo ∷ ops) = bo.req ∷ reqs_of ops

-- What is related and of one request.
pub Both-reqs :
    {P : BlkOp → BlkOp → Type 0} {inps ops : List BlkOp}
    → Both P inps ops
    → reqs_of ops ≡ reqs_of inps
    → Both (λ inp bo. P inp bo × (bo.req ≡ inp.req)) inps ops
Both-reqs nil same = nil
Both-reqs (cons inp bo inps ops p rest) same =
    cons inp bo inps ops (p, ground (arith, same)) (Both-reqs rest (ground (arith, same)))

abbrev Keeping : (Store → BlkOp → BlkOp × Store) → Type 0
Keeping f = (st : Store) (bo : BlkOp) → (f st bo).0.req ≡ bo.req

pick {ℓ} :
    {A : Type ℓ} (r : ℕ) (b : Bool) (x y : BlkOp × A)
    → x.0.req ≡ r
    → y.0.req ≡ r
    → (if b then x else y).0.req ≡ r
pick r true x y p q = p
pick r false x y p q = q

pick_op : (r : ℕ) (b : Bool) (x y : BlkOp) → x.req ≡ r → y.req ≡ r → (if b then x else y).req ≡ r
pick_op r true x y p q = p
pick_op r false x y p q = q

pick_reqs :
    (rs : List ℕ) (b : Bool) (x y : List BlkOp × Store)
    → reqs_of x.0 ≡ rs
    → reqs_of y.0 ≡ rs
    → reqs_of (if b then x else y).0 ≡ rs
pick_reqs rs true x y p q = p
pick_reqs rs false x y p q = q

pub reqs_of-each :
    (f : Store → BlkOp → BlkOp × Store)
    → Keeping f
    → (ops : List BlkOp) (st : Store) → reqs_of (each f ops st).0 ≡ reqs_of ops
unfolding each
reqs_of-each f keeps [] st = refl
reqs_of-each f keeps (bo ∷ ops) st = rw (keeps st bo, reqs_of-each f keeps ops (f st bo).1) refl

pick_option :
    (r : ℕ) (o : Option Bytes) (x : BlkOp) (y : Bytes → BlkOp)
    → x.req ≡ r
    → ((c : Bytes) → (y c).req ≡ r)
    → (let z : BlkOp = elim o [ none ↦ x | some c ↦ y c ] in z.req) ≡ r
pick_option r none x y p q = p
pick_option r (some c) x y p q = q c

pick_finish :
    (lib : Library) (codec : CodecKind) (r : ℕ) (o : Finish lib codec) (x : Bytes → BlkOp × ℕ)
    (y z : BlkOp × ℕ)
    → ((c : Bytes) → (x c).0.req ≡ r)
    → y.0.req ≡ r
    → z.0.req ≡ r
    → (let w : BlkOp × ℕ = elim o [ done c ↦ x c | corrupt ↦ y | retry ↦ z ] in w.0.req) ≡ r
pick_finish lib codec r (done c) x y z p q t = p c
pick_finish lib codec r corrupt x y z p q t = q
pick_finish lib codec r retry x y z p q t = t

fetch-req : Keeping fetch
unfolding fetch
fetch-req st bo =
    pick_option bo.req (copy_from_device st bo.grain bo.clen).0 _ (λ c. record bo { cslot = c })
      refl (λ c. refl)

issue-req : Keeping issue
unfolding issue send
issue-req st bo =
    pick bo.req (bo.dma == 0 || not (bo.err == 0)) (bo, st) _ refl
      (pick bo.req (bo.cmd == cmd_read) (fetch st bo) (send st bo) (fetch-req st bo)
        (pick_op bo.req (copy_to_device st bo.grain bo.cslot).0 bo _ refl refl))

resnap-req : Keeping resnap
unfolding resnap rd_prepare
resnap-req st bo =
    pick bo.req (not (pending bo)) (bo, st) _ refl
      (pick bo.req ((rd_prepare st bo).dma == 0) (rd_prepare st bo, st)
        (fetch st (rd_prepare st bo)) refl (fetch-req st (rd_prepare st bo)))

publish-req : Keeping publish
unfolding publish
publish-req st bo = refl

module _ (lib : Library) (codec : CodecKind) where
  prepare-req : Keeping (prepare lib codec)
  unfolding prepare wr_prepare rd_prepare
  prepare-req st bo =
      pick bo.req (bo.cmd == cmd_write) (wr_prepare lib codec st bo) (rd_prepare st bo, st)
        (pick bo.req ((slot_alloc st.heap (comp_block lib codec bo.page).0).0 == slot_none) _ _ refl
          refl)
        refl

  read_locked-req : Keeping (read_locked lib codec)
  unfolding read_locked
  read_locked-req st bo =
      pick bo.req (not (pending bo)) (bo, st) _ refl
        (pick_option bo.req (rd_block_locked lib codec st bo.blk).0 _
          (λ c. record bo { page = c; dma = 2 }) refl (λ c. refl))

  validate-req : (st : Store) (bo : BlkOp) → (validate lib codec st bo).0.req ≡ bo.req
  unfolding validate
  validate-req st bo =
      pick bo.req (not (pending bo)) (bo, 0) _ refl
        (pick_finish lib codec bo.req (rd_finish lib codec st bo)
          (λ c. (record bo { page = c; dma = 2 }, 0)) _ _ (λ c. refl) refl refl)

  reqs_of-validate_all :
      (st : Store) (ops : List BlkOp) → reqs_of (validate_all lib codec st ops).0 ≡ reqs_of ops
  unfolding validate_all
  reqs_of-validate_all st [] = refl
  reqs_of-validate_all st (bo ∷ ops) = rw (validate-req st bo, reqs_of-validate_all st ops) refl

  reqs_of-rounds :
      (n : ℕ) (ops : List BlkOp) (st : Store) → reqs_of (rounds lib codec n ops st).0 ≡ reqs_of ops
  unfolding rounds
  reqs_of-rounds zero ops st = refl
  reqs_of-rounds (suc n) ops st =
      let one = reqs_of-validate_all st ops in
      pick_reqs (reqs_of ops) ((validate_all lib codec st ops).1 == 0) _ _ one (
        reqs_of-rounds n _ _
        ∙ reqs_of-each resnap resnap-req (validate_all lib codec st ops).0 _
        ∙ one)

  pub reqs_of-prepare :
      (ops : List BlkOp) (st : Store) → reqs_of (each (prepare lib codec) ops st).0 ≡ reqs_of ops
  reqs_of-prepare ops st = reqs_of-each (prepare lib codec) prepare-req ops st

  pub reqs_of-do_blocks :
      (ops : List BlkOp) (st : Store) → reqs_of (do_blocks lib codec ops st).0 ≡ reqs_of ops
  unfolding do_blocks
  reqs_of-do_blocks ops st =
      reqs_of-each publish publish-req _ _
      ∙ reqs_of-each (read_locked lib codec) read_locked-req _ _
      ∙ reqs_of-rounds 4 _ _
      ∙ reqs_of-each issue issue-req ops st
