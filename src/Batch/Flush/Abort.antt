-- ===== src/Batch/Flush/Abort.antt =====
-- The aborts of `flush_batch`: the reservations of the requests that failed go back.
use nbd_vram.Prelude.{
  ℕ, ◌<◌, ◌≡◌, ◌≢◌, ◌⊎◌, inl, inr, refl, arith, sym, ap, ◌∙◌, Bool, true, false, not, ◌&&◌, List,
  [], ◌∷◌, ◌==◌, ==_ne, eq_cases,
}
use nbd_vram.Heap.{slot_none}
use nbd_vram.Heap.IsValid.{IsValid}
use nbd_vram.Heap.Regions.{size_at}
use nbd_vram.Heap.Free.{slot_free_lem}
use nbd_vram.Codec.{CodecKind, Library}
use nbd_vram.Store.{Store, BlkOp, enospc, cmd_write, wr_abort}
use nbd_vram.Store.Keeps.{Keeps}
use nbd_vram.Store.Blocks.{each}
use nbd_vram.Store.Blocks.Ready.{
  Plain, IsWaiting, Ready, read, write, idle, Avoid, Distinct, Both, nil, cons, IsPrepared,
}
use nbd_vram.Batch.{Bop}
use nbd_vram.Batch.Flush.{error_at, abort_op}

-- A write goes on exactly if its request has no error.
abbrev pub Settled : (errs : ℕ → ℕ) → (req : ℕ) → (goes : Bool) → (err : ℕ) → Type 0
Settled errs req true err = errs req ≡ 0
Settled errs req false err = (errs req ≢ 0) × ((err ≡ 0) ⊎ (err ≡ enospc))

-- A prepared op of the request it was set for, whose error its request has.
abbrev pub IsNoted :
    (lib : Library) (codec : CodecKind) (errs : ℕ → ℕ) (st st1 : Store) (inp bo : BlkOp) → Type 0
IsNoted lib codec errs st st1 inp bo =
    (Ready lib codec Plain st st1 inp bo × (bo.req ≡ inp.req)) × (bo.err ≢ 0 → errs bo.req ≢ 0)

-- What is left alone between two states.
record Same (s s' : Store) : Type 0 where
  vram : s'.vram ≡ s.vram
  vram_ptr : s'.vram_ptr ≡ s.vram_ptr
  copies : s'.copies ≡ s.copies

record Aborted (lib : Library) (codec : CodecKind) (errs : ℕ → ℕ) (st s : Store) (inp bo : BlkOp)
    (r : BlkOp × Store) : Type 0 where
  valid : IsValid r.1.heap
  keeps : Keeps st r.1
  same : Same s r.1
  ready : Ready lib codec (Settled errs) st r.1 inp r.0
  frame :
      (g : ℕ)
      → (bo.cmd ≡ cmd_write → bo.dma ≡ 1 → bo.grain ≢ g)
      → size_at r.1.heap g ≡ size_at s.heap g
  slot : r.0.dma ≡ 1 → (bo.dma ≡ 1) × (r.0.grain ≡ bo.grain)
  cmd : r.0.cmd ≡ bo.cmd

record AllAborted (lib : Library) (codec : CodecKind) (errs : ℕ → ℕ) (st s : Store)
    (inps ops : List BlkOp) (r : List BlkOp × Store) : Type 0 where
  valid : IsValid r.1.heap
  keeps : Keeps st r.1
  same : Same s r.1
  ready : Both (Ready lib codec (Settled errs) st r.1) inps r.0
  distinct : Distinct r.0
  frame : (g : ℕ) → Avoid g ops → size_at r.1.heap g ≡ size_at s.heap g
  avoid : (g : ℕ) → Avoid g ops → Avoid g r.0

module _ {lib : Library} {codec : CodecKind} (reqs : List Bop) {st : Store} where
  -- An op that is not aborted.
  passed :
      (s : Store) (inp bo : BlkOp)
      → IsValid s.heap
      → Keeps st s
      → (bo.cmd == cmd_write && (bo.err == 0 && not (error_at reqs bo.req == 0))) ≡ false
      → Ready lib codec (Settled (error_at reqs)) st s inp bo
      → Aborted lib codec (error_at reqs) st s inp bo (abort_op reqs s bo)
  unfolding abort_op
  passed s inp bo valid keeps test ready = rw test (record {
    valid = valid;
    keeps = keeps;
    same = record { vram = refl; vram_ptr = refl; copies = refl };
    ready = ready;
    frame = λ g avoid. refl;
    slot = λ d. (d, refl);
    cmd = refl;
  })

  given_back :
      (s : Store) (inp bo : BlkOp)
      → IsValid s.heap
      → Keeps st s
      → IsWaiting lib codec st s inp bo
      → inp.cmd ≡ cmd_write
      → error_at reqs bo.req ≢ 0
      → bo.req ≡ inp.req
      → Aborted lib codec (error_at reqs) st s inp bo (abort_op reqs s bo)
  unfolding abort_op wr_abort
  given_back s inp bo valid keeps w was bad same_req =
      let live : 0 < size_at s.heap bo.grain = omega (arith, w.room, w.packed.pos) in
      let freed = slot_free_lem valid bo.grain live in
      let test : (bo.cmd == cmd_write && (bo.err == 0 && not (error_at reqs bo.req == 0))) ≡ true =
        ground (arith, w.cmd, w.err, bad) in
      let taken : (bo.grain == slot_none) ≡ false = ==_ne bo.grain slot_none w.slot in
      rw (test, taken)
        (record {
          valid = freed.valid;
          keeps = record {
            index = keeps.index;
            sizes = λ g old.
                let other : bo.grain ≢ g =
                  λ e. omega (arith, old, w.was_free, ap (size_at st.heap) e) in
                freed.others g other ∙ keeps.sizes g old;
            bytes = keeps.bytes;
          };
          same = record { vram = refl; vram_ptr = refl; copies = refl };
          ready =
              idle was w.cmd refl refl ((λ z. bad (ap (error_at reqs) same_req ∙ z)), inl w.err);
          frame = λ g avoid. freed.others g (avoid w.cmd w.dma);
          slot = λ d. absurd (omega (arith, d));
          cmd = refl;
        })

  abort_one :
      (s : Store) (inp bo : BlkOp)
      → IsValid s.heap
      → Keeps st s
      → IsNoted lib codec (error_at reqs) st s inp bo
      → Aborted lib codec (error_at reqs) st s inp bo (abort_op reqs s bo)
  abort_one s inp bo valid keeps ((read snap is_read, same_req), noted) =
      passed s inp bo valid keeps (ground (arith, snap.cmd)) (read snap is_read)
  abort_one s inp bo valid keeps ((idle was cmd dma slot (inl goes), same_req), noted) =
      absurd (ground (arith, goes))
  abort_one s inp bo valid keeps ((idle was cmd dma slot (inr full), same_req), noted) =
      passed s inp bo valid keeps (ground (arith, full)) (
        idle was cmd dma slot
          ((λ z. noted (omega (arith, full)) (ap (error_at reqs) same_req ∙ z)), inr full))
  abort_one s inp bo valid keeps ((write w was may, same_req), noted) =
      elim (eq_cases (error_at reqs bo.req) 0) [
        | inl fine ↦
            passed s inp bo valid keeps (ground (arith, fine))
              (write w was (sym (ap (error_at reqs) same_req) ∙ fine))
        | inr bad ↦ given_back s inp bo valid keeps w was bad same_req
      ]

  -- Slots of its own size make an op as ready in another state.
  resized :
      {lot : ℕ → Bool → ℕ → Type 0} (s s' : Store) (inp bo : BlkOp)
      → (bo.cmd ≡ cmd_write → bo.dma ≡ 1 → size_at s'.heap bo.grain ≡ size_at s.heap bo.grain)
      → Ready lib codec lot st s inp bo
      → Ready lib codec lot st s' inp bo
  resized s s' inp bo same (read snap is_read) = read snap is_read
  resized s s' inp bo same (idle was cmd dma slot left) = idle was cmd dma slot left
  resized s s' inp bo same (write w was may) =
      write
        (record {
          blk = w.blk;
          page = w.page;
          cmd = w.cmd;
          err = w.err;
          dma = w.dma;
          slot = w.slot;
          was_free = w.was_free;
          room = rw (same w.cmd w.dma) w.room;
          packed = w.packed;
          whole = w.whole;
        })
        was may

  -- The ops behind one that is aborted.
  behind :
      (s s' : Store) (bo : BlkOp) {inps ops : List BlkOp}
      → ((g : ℕ)
          → (bo.cmd ≡ cmd_write → bo.dma ≡ 1 → bo.grain ≢ g)
          → size_at s'.heap g ≡ size_at s.heap g)
      → (bo.cmd ≡ cmd_write → bo.dma ≡ 1 → Avoid bo.grain ops)
      → Both (IsNoted lib codec (error_at reqs) st s) inps ops
      → Both (IsNoted lib codec (error_at reqs) st s') inps ops
  behind s s' bo frame apart nil = nil
  behind s s' bo frame apart (cons inp op inps ops noted more) =
      cons inp op inps ops
        (
          (
            resized s s' inp op (λ c d. frame op.grain (λ bc bd e. (apart bc bd).0 c d (sym e)))
                noted.0.0,
            noted.0.1,
          ),
          noted.1,
        )
        (behind s s' bo frame (λ bc bd. (apart bc bd).1) more)

  abort_all :
      (s : Store) (ops : List BlkOp) {inps : List BlkOp}
      → Both (IsNoted lib codec (error_at reqs) st s) inps ops
      → Distinct ops
      → IsValid s.heap
      → Keeps st s
      → AllAborted lib codec (error_at reqs) st s inps ops (each (abort_op reqs) ops s)
  unfolding each
  abort_all s [] nil distinct valid keeps = record {
    valid = valid;
    keeps = keeps;
    same = record { vram = refl; vram_ptr = refl; copies = refl };
    ready = nil;
    distinct = tt;
    frame = λ g avoid. refl;
    avoid = λ g avoid. tt;
  }
  abort_all s (bo ∷ ops) (cons inp _ inps _ noted more) distinct valid keeps =
      let one = abort_one s inp bo valid keeps noted in
      let r = abort_op reqs s bo in
      let rest =
        abort_all r.1 ops (behind s r.1 bo one.frame distinct.0 more) distinct.1 one.valid
          one.keeps in
      let own : r.0.cmd ≡ cmd_write → r.0.dma ≡ 1 → Avoid r.0.grain ops =
        λ c d. let (dma, grain) = one.slot d in rw grain (distinct.0 (sym one.cmd ∙ c) dma) in
      record {
        valid = rest.valid;
        keeps = rest.keeps;
        same = record {
          vram = rest.same.vram ∙ one.same.vram;
          vram_ptr = rest.same.vram_ptr ∙ one.same.vram_ptr;
          copies = rest.same.copies ∙ one.same.copies;
        };
        ready =
            cons inp r.0 inps (each (abort_op reqs) ops r.1).0
              (resized r.1 (each (abort_op reqs) ops r.1).1 inp r.0
                (λ c d. rest.frame r.0.grain (own c d)) one.ready)
              rest.ready;
        distinct = ((λ c d. rest.avoid r.0.grain (own c d)), rest.distinct);
        frame = λ g avoid. rest.frame g avoid.1 ∙ one.frame g avoid.0;
        avoid = λ g avoid. (
          (λ c d. let (dma, grain) = one.slot d in rw grain (avoid.0 (sym one.cmd ∙ c) dma)),
          rest.avoid g avoid.1,
        );
      }

  -- A prepared set whose errors are noted is a prepared set of the requests without an error.
  pub abort-IsPrepared :
      {inps ops : List BlkOp} {st1 : Store}
      → IsPrepared lib codec Plain st inps ops st1
      → Both (IsNoted lib codec (error_at reqs) st st1) inps ops
      → IsPrepared lib codec
          (Settled (error_at reqs))
          st
          inps
          (each (abort_op reqs) ops st1).0
          (each (abort_op reqs) ops st1).1
  abort-IsPrepared {ops = ops} {st1 = st1} prepared noted =
      let all = abort_all st1 ops noted prepared.distinct prepared.valid prepared.keeps in
      record {
        valid = all.valid;
        keeps = all.keeps;
        vram = all.same.vram ∙ prepared.vram;
        vram_ptr = all.same.vram_ptr ∙ prepared.vram_ptr;
        copies = all.same.copies ∙ prepared.copies;
        ready = all.ready;
        distinct = all.distinct;
      }
