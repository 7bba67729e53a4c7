-- ===== src/Store/Blocks/Commit.antt =====
-- Phase C of a set of block ops: the writes are published, in the order of the ops.
use nbd_vram.Prelude.{
  ℕ, ◌≡◌, ◌≢◌, inl, inr, refl, arith, Bool, true, false, not, ◌&&◌, ◌||◌, List, [], ◌∷◌, Option,
  some, ◌==◌, if◌then◌else◌, sym, ap, eq_cases, Bool-cases, ==_ne, ==_refl,
}
use nbd_vram.Heap.{slot_none}
use nbd_vram.Codec.{Bytes, CodecKind, Library}
use nbd_vram.Store.{Store, BlkOp, cmd_write, wr_publish}
use nbd_vram.Store.IsStore.{page_at, IsStore}
use nbd_vram.Store.Keeps.{IsReserved}
use nbd_vram.Store.Publish.{Replaced, publish_lem, others-IsReserved}
use nbd_vram.Store.Blocks.{each, publish}

-- A write that succeeded.
abbrev pub puts : BlkOp → Bool
puts bo = bo.cmd == cmd_write && (bo.err == 0 && not (bo.grain == slot_none))

-- What block `b` reads as after the writes among the ops, if it read as `old` before.
abbrev pub written : List BlkOp → (b : ℕ) → (old : Option Bytes) → Option Bytes
written [] b old = old
written (bo ∷ ops) b old = written ops b (if puts bo && bo.blk == b then some bo.page else old)

abbrev pub Spares : (grain : ℕ) → List BlkOp → Type 0
Spares g [] = Unit
Spares g (bo ∷ ops) = (puts bo ≡ true → bo.grain ≢ g) × Spares g ops

-- Every write that succeeded has a reservation of its own.
abbrev pub AllReserved : (lib : Library) → CodecKind → Store → List BlkOp → Type 0
AllReserved lib codec st [] = Unit
AllReserved lib codec st (bo ∷ ops) =
    (puts bo ≡ true → IsReserved lib codec st bo.grain bo.clen bo.page × Spares bo.grain ops)
    × AllReserved lib codec st ops

-- What publishing the ops comes to.
pub record Committed (lib : Library) (codec : CodecKind) (st : Store) (ops : List BlkOp)
    (r : List BlkOp × Store) : Type 0 where
  pub ops_same : r.0 ≡ ops
  pub store : IsStore lib codec r.1
  pub pages : (b : ℕ) → page_at lib codec r.1 b ≡ written ops b (page_at lib codec st b)

publish_skip : (st : Store) (bo : BlkOp) → puts bo ≡ false → publish st bo ≡ (bo, st)
unfolding publish
publish_skip st bo test =
    let skips : (not (bo.cmd == cmd_write) || (not (bo.err == 0) || bo.grain == slot_none)) ≡ true =
      ground (arith, test) in
    rw skips refl

publish_put : (st : Store) (bo : BlkOp) → puts bo ≡ true → publish st bo ≡ (bo, wr_publish st bo)
unfolding publish
publish_put st bo test =
    let goes : (not (bo.cmd == cmd_write) || (not (bo.err == 0) || bo.grain == slot_none)) ≡ false =
      ground (arith, test) in
    rw goes refl

module _ {lib : Library} {codec : CodecKind} where
  still_reserved :
      {st : Store} (is : IsStore lib codec st) (bo : BlkOp)
      (res : IsReserved lib codec st bo.grain bo.clen bo.page) (ops : List BlkOp)
      → Spares bo.grain ops
      → AllReserved lib codec st ops
      → AllReserved lib codec (wr_publish st bo) ops
  unfolding wr_publish
  still_reserved is bo res [] spares all = tt
  still_reserved is bo res (op ∷ ops) spares all = (
    (λ goes.
        let (own, apart) = all.0 goes in
        (
          others-IsReserved is bo.blk bo.grain bo.clen bo.page res own (λ e. spares.0 goes (sym e)),
          apart,
        )),
    still_reserved is bo res ops spares.1 all.1,
  )

  Replaced-page :
      {st : Store} (bo : BlkOp) {st' : Store}
      → Replaced lib codec st bo.blk bo.page st'
      → (b : ℕ)
      → page_at lib codec st' b ≡ (if bo.blk == b then some bo.page else page_at lib codec st b)
  Replaced-page bo new b = elim (eq_cases bo.blk b) [
    | inl e ↦ rw (← e, ==_refl bo.blk) new.here
    | inr ne ↦ rw (==_ne bo.blk b ne) (new.others b ne)
  ]

  pub publish_all :
      (ops : List BlkOp) {st : Store}
      → IsStore lib codec st
      → AllReserved lib codec st ops
      → Committed lib codec st ops (each publish ops st)
  unfolding each wr_publish
  publish_all [] is all = record { ops_same = refl; store = is; pages = λ b. refl }
  publish_all (bo ∷ ops) {st} is all = elim (Bool-cases (puts bo)) [
    | inr skips ↦
        let rest = publish_all ops is all.1 in
        rw (publish_skip st bo skips) (record {
          ops_same = ap (λ l. bo ∷ l) rest.ops_same;
          store = rest.store;
          pages = λ b. rw skips (rest.pages b);
        })
    | inl goes ↦
        let (res, spares) = all.0 goes in
        let new = publish_lem is bo.blk bo.grain bo.clen bo.page res in
        let rest = publish_all ops new.store (still_reserved is bo res ops spares all.1) in
        rw (publish_put st bo goes) (record {
          ops_same = ap (λ l. bo ∷ l) rest.ops_same;
          store = rest.store;
          pages = λ b. rw goes (rw (← Replaced-page bo new b) (rest.pages b));
        })
  ]
