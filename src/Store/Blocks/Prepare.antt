-- ===== src/Store/Blocks/Prepare.antt =====
-- Phase A of a set of block ops: slots for the writes, snapshots for the reads.
use nbd_vram.Prelude.{
  ℕ, ◌<◌, ◌≡◌, inl, inr, refl, arith, Bool, true, false, List, [], ◌∷◌, ◌==◌, ◌∙◌, ap, eq_cases,
}
use nbd_vram.Heap.{Heap, slot_alloc, slot_none}
use nbd_vram.Heap.IsValid.{IsValid}
use nbd_vram.Heap.Regions.{size_at}
use nbd_vram.Heap.Alloc.{Allocated, Refused, slot_alloc_lem}
use nbd_vram.Codec.{Bytes, CodecKind, Library, IsLossless, comp_block}
use nbd_vram.Codec.RoundTrip.{IsStored, comp_block-IsStored}
use nbd_vram.Store.{Store, BlkOp, cmd_write, wr_prepare}
use nbd_vram.Store.Keeps.{Keeps, Keeps-refl, Keeps-trans}
use nbd_vram.Store.Blocks.{each, prepare}
use nbd_vram.Store.Blocks.Reads.{rd_prepare-IsSnapshot}
use nbd_vram.Store.Blocks.Ready.{
  Plain, IsFresh, AllSet, Ready, read, write, idle, Avoid, Both, Both-map, nil, cons, IsPrepared,
}

-- What one op's preparation comes to.
record Prepared (lib : Library) (codec : CodecKind) (st : Store) (inp : BlkOp) (r : BlkOp × Store)
    : Type 0 where
  valid : IsValid r.1.heap
  keeps : Keeps st r.1
  vram : r.1.vram ≡ st.vram
  vram_ptr : r.1.vram_ptr ≡ st.vram_ptr
  copies : r.1.copies ≡ st.copies
  ready : Ready lib codec Plain st r.1 inp r.0

module _ {lib : Library} {codec : CodecKind} (lossless : IsLossless lib) {st : Store}
    (valid : IsValid st.heap) (inp : BlkOp) (set : IsFresh inp) where
  taken_lem :
      (p : ℕ × Bytes) (r : ℕ × ℕ × Heap)
      → comp_block lib codec inp.page ≡ p
      → slot_alloc st.heap p.0 ≡ r
      → inp.cmd ≡ cmd_write
      → IsStored lib codec inp.page p
      → IsValid r.2
      → Allocated st.heap p.0 r
      → Prepared lib codec st inp (wr_prepare lib codec st inp)
  unfolding wr_prepare
  taken_lem (n, bytes) (grain, size, heap) ep er cmd packed valid1 got =
      let found : (grain == slot_none) ≡ false =
        ground (arith, got.inside, valid.shaped.room, got.size, got.enough, packed.pos) in
      rw (wr_prepare, ep, er, found)
        (record {
          valid = valid1;
          keeps = record {
            index = λ b. refl;
            sizes = λ g live.
                got.others g (λ e. omega (arith, live, got.was_free, ap (size_at st.heap) e));
            bytes = λ g n live le. refl;
          };
          vram = refl;
          vram_ptr = refl;
          copies = refl;
          ready =
              write
                (record {
                  blk = refl;
                  page = refl;
                  cmd = cmd;
                  err = set.err;
                  dma = refl;
                  slot = λ e. ground (arith, found);
                  was_free = got.was_free;
                  room = omega (arith, got.size, got.enough);
                  packed = packed;
                  whole = set.whole cmd;
                })
                cmd (inl refl);
        })

  refused_lem :
      (p : ℕ × Bytes)
      → comp_block lib codec inp.page ≡ p
      → inp.cmd ≡ cmd_write
      → Refused st.heap p.0 (slot_alloc st.heap p.0)
      → Prepared lib codec st inp (wr_prepare lib codec st inp)
  unfolding wr_prepare
  refused_lem (n, bytes) ep cmd miss =
      rw (wr_prepare, ep, miss.result)
        (record {
          valid = valid;
          keeps = record { index = λ b. refl; sizes = λ g live. refl; bytes = λ g n live le. refl };
          vram = refl;
          vram_ptr = refl;
          copies = refl;
          ready = idle cmd cmd refl refl (inr refl);
        })

  prepare_one : Prepared lib codec st inp (prepare lib codec st inp)
  unfolding prepare
  prepare_one = elim set.cmd [
    | inl is_read ↦
        let test : (inp.cmd == cmd_write) ≡ false = ground (arith, is_read) in
        rw test (record {
          valid = valid;
          keeps = Keeps-refl st;
          vram = refl;
          vram_ptr = refl;
          copies = refl;
          ready = read (rd_prepare-IsSnapshot st inp is_read set.err) is_read;
        })
    | inr is_write ↦
        let test : (inp.cmd == cmd_write) ≡ true = ground (arith, is_write) in
        let packed = comp_block-IsStored lossless inp.page (set.whole is_write) codec in
        let n : ℕ = (comp_block lib codec inp.page).0 in
        let (valid1, cases) = slot_alloc_lem st.heap n valid packed.pos packed.le in
        rw test (elim cases [
          | inl got ↦
              taken_lem (comp_block lib codec inp.page) (slot_alloc st.heap n) refl refl is_write
                packed valid1 got
          | inr miss ↦ refused_lem (comp_block lib codec inp.page) refl is_write miss
        ])
  ]

module _ {lib : Library} {codec : CodecKind} {lot : ℕ → Bool → ℕ → Type 0} where
  -- The slots of other ops do not matter to an op that is prepared.
  pub Ready-later :
      {st st1 st2 : Store}
      → Keeps st1 st2
      → (inp bo : BlkOp) → Ready lib codec lot st st1 inp bo
      → Ready lib codec lot st st2 inp bo
  Ready-later keeps inp bo (read snap is_read) = read snap is_read
  Ready-later keeps inp bo (idle was cmd dma slot left) = idle was cmd dma slot left
  Ready-later {st1 = st1} keeps inp bo (write w was may) =
      let live : 0 < size_at st1.heap bo.grain = omega (arith, w.room, w.packed.pos) in
      write
        (record {
          blk = w.blk;
          page = w.page;
          cmd = w.cmd;
          err = w.err;
          dma = w.dma;
          slot = w.slot;
          was_free = w.was_free;
          room = rw (keeps.sizes bo.grain live) w.room;
          packed = w.packed;
          whole = w.whole;
        })
        was may

  Ready-earlier :
      {st st1 st2 : Store}
      → Keeps st st1
      → (inp bo : BlkOp) → Ready lib codec lot st1 st2 inp bo
      → Ready lib codec lot st st2 inp bo
  Ready-earlier {st} {st1} keeps inp bo (read snap is_read) =
      let same = keeps.index inp.blk in
      read
        (record {
          blk = snap.blk;
          cmd = snap.cmd;
          err = snap.err;
          ent = rw (← same) snap.ent;
          clen = rw (← same) snap.clen;
          grain = rw (← same) snap.grain;
          dma = rw (← same) snap.dma;
        })
        is_read
  Ready-earlier keeps inp bo (idle was cmd dma slot left) = idle was cmd dma slot left
  Ready-earlier {st} {st1} keeps inp bo (write w was may) =
      write
        (record {
          blk = w.blk;
          page = w.page;
          cmd = w.cmd;
          err = w.err;
          dma = w.dma;
          slot = w.slot;
          was_free = elim (eq_cases (size_at st.heap bo.grain) 0) [
            | inl free ↦ free
            | inr live ↦
                absurd (omega (arith, live, keeps.sizes bo.grain (omega arith), w.was_free))
          ];
          room = w.room;
          packed = w.packed;
          whole = w.whole;
        })
        was may

  -- Ops prepared later have other slots than one in use.
  pub Ready-Avoid :
      {st st1 : Store} (g : ℕ)
      → 0 < size_at st.heap g
      → {inps ops : List BlkOp} → Both (Ready lib codec lot st st1) inps ops
      → Avoid g ops
  Ready-Avoid g live nil = tt
  Ready-Avoid {st} g live (cons inp bo inps ops (read snap is_read) rest) =
      ((λ cmd dma e. ground (arith, cmd, snap.cmd)), Ready-Avoid g live rest)
  Ready-Avoid {st} g live (cons inp bo inps ops (idle was cmd dma slot left) rest) =
      ((λ c d e. omega (arith, dma, d)), Ready-Avoid g live rest)
  Ready-Avoid {st} g live (cons inp bo inps ops (write w was may) rest) = (
    (λ cmd dma e. omega (arith, live, w.was_free, ap (size_at st.heap) e)),
    Ready-Avoid g live rest,
  )

  own_slot :
      {st st1 : Store} (inp bo : BlkOp)
      → Ready lib codec lot st st1 inp bo
      → bo.cmd ≡ cmd_write
      → bo.dma ≡ 1
      → 0 < size_at st1.heap bo.grain
  own_slot inp bo (read snap is_read) cmd dma = absurd (ground (arith, cmd, snap.cmd))
  own_slot inp bo (idle was c d slot left) cmd dma = absurd (omega (arith, dma, d))
  own_slot inp bo (write w was may) cmd dma = omega (arith, w.room, w.packed.pos)

module _ {lib : Library} {codec : CodecKind} where
  -- Preparing a set of ops keeps every slot, entry and byte that there was, gives each write a free slot
  -- of its own or none, and takes a snapshot for each read.
  pub prepare-IsPrepared :
      IsLossless lib
      → (inps : List BlkOp) → AllSet inps
      → {st : Store} → IsValid st.heap
      → IsPrepared lib codec Plain st inps
          (each (prepare lib codec) inps st).0
          (each (prepare lib codec) inps st).1
  unfolding each
  prepare-IsPrepared lossless [] sets {st} valid = record {
    valid = valid;
    keeps = Keeps-refl st;
    vram = refl;
    vram_ptr = refl;
    copies = refl;
    ready = nil;
    distinct = tt;
  }
  prepare-IsPrepared lossless (inp ∷ inps) sets {st} valid =
      let one = prepare_one lossless valid inp sets.0 in
      let r = prepare lib codec st inp in
      let rest = prepare-IsPrepared lossless inps sets.1 one.valid in
      record {
        valid = rest.valid;
        keeps = Keeps-trans one.keeps rest.keeps;
        vram = rest.vram ∙ one.vram;
        vram_ptr = rest.vram_ptr ∙ one.vram_ptr;
        copies = rest.copies ∙ one.copies;
        ready =
            cons inp r.0 inps (each (prepare lib codec) inps r.1).0
              (Ready-later rest.keeps inp r.0 one.ready)
              (Both-map (Ready-earlier one.keeps) rest.ready);
        distinct = (
          (λ cmd dma. Ready-Avoid r.0.grain (own_slot inp r.0 one.ready cmd dma) rest.ready),
          rest.distinct,
        );
      }
