-- ===== src/Store/Blocks/Issue.antt =====
-- Phase B of a set of block ops: the copies.
use nbd_vram.Prelude.{
  ℕ, ◌+◌, ◌*◌, ◌≤◌, ◌<◌, ◌≡◌, ◌≢◌, inl, inr, refl, arith, Bool, true, false, not, ◌||◌, List, ◌==◌,
  sym, ◌∙◌, ap, eq_cases, Bool-cases,
}
use nbd_vram.Heap.{slot_none, alloc_grain}
use nbd_vram.Heap.IsValid.{IsValid}
use nbd_vram.Heap.Regions.{size_at}
use nbd_vram.Entry.{ent_grain, ent_clen}
use nbd_vram.Codec.{CodecKind, Library}
use nbd_vram.Store.{
  Store, BlkOp, eio, dev_at, cmd_read, cmd_write, copy_to_device, copy_from_device,
}
use nbd_vram.Store.Device.{Memory, dev_read, dev_write, dev_read-dev_write}
use nbd_vram.Store.IsStore.{stored, IsStore}
use nbd_vram.Store.Keeps.{Keeps}
use nbd_vram.Store.Replace.{slot_frame}
use nbd_vram.Store.Blocks.{each, issue, send, fetch}
use nbd_vram.Store.Blocks.Reads.{IsSnapshot}
use nbd_vram.Store.Blocks.Ready.{
  IsWaiting, Ready, read, write, idle, Avoid, Distinct, Both, nil, cons,
}

-- Some copy fails, of all that are ever made.
abbrev pub SomeLost : Store → Type 0
SomeLost st = (k : ℕ) × (st.copies k ≡ false)

-- An op behind its copy: a read with the bytes of its block, a write whose bytes are in its slot, one
-- whose copy failed, or a write that had no slot.
pub data Copied (lib : Library) (codec : CodecKind) (lot : ℕ → Bool → ℕ → Type 0) (st st1 : Store)
    (vram : Memory) (inp bo : BlkOp) : Type 0 where
  fetched :
      IsSnapshot st inp.blk bo
      → inp.cmd ≡ cmd_read
      → (ent_clen (st.index inp.blk) ≢ 0 → bo.cslot ≡ stored st (st.index inp.blk))
      → Copied lib codec lot st st1 vram inp bo
  sent :
      IsWaiting lib codec st st1 inp bo
      → inp.cmd ≡ cmd_write
      → lot inp.req true 0
      → dev_read vram (dev_at st1 bo.grain) bo.clen ≡ bo.cslot
      → Copied lib codec lot st st1 vram inp bo
  lost :
      bo.blk ≡ inp.blk
      → bo.cmd ≡ inp.cmd
      → bo.err ≡ eio
      → bo.dma ≡ 0
      → SomeLost st
      → Copied lib codec lot st st1 vram inp bo
  kept :
      inp.cmd ≡ cmd_write
      → bo.cmd ≡ cmd_write
      → bo.dma ≡ 0
      → bo.grain ≡ slot_none
      → lot inp.req false bo.err
      → Copied lib codec lot st st1 vram inp bo

-- The state of phase B.
abbrev pub at_mem : Store → Memory → (copies_done : ℕ) → Store
at_mem st m k = record st { vram = m; copies_done = k }

-- The bytes of the slots that were in use before phase A are there.
abbrev pub KeepsOld : Store → Memory → Type 0
KeepsOld st m =
    (g n : ℕ)
    → 0 < size_at st.heap g
    → n ≤ size_at st.heap g * alloc_grain
    → dev_read m (dev_at st g) n ≡ dev_read st.vram (dev_at st g) n

module _ {lib : Library} {codec : CodecKind} (lot : ℕ → Bool → ℕ → Type 0) {st st1 : Store}
    (is : IsStore lib codec st) (valid : IsValid st1.heap) (keeps : Keeps st st1)
    (same_ptr : st1.vram_ptr ≡ st.vram_ptr) (same_copies : st1.copies ≡ st.copies) where
  -- One op issued, on memory `m`.
  record Issued (m : Memory) (inp bo : BlkOp) (r : BlkOp × Store) : Type 0 where
    after_mem : Memory
    after_done : ℕ
    state : r.1 ≡ at_mem st1 after_mem after_done
    old : KeepsOld st after_mem
    copied : Copied lib codec lot st st1 after_mem inp r.0
    frame :
        (g n : ℕ)
        → 0 < size_at st1.heap g
        → n ≤ size_at st1.heap g * alloc_grain
        → (bo.cmd ≡ cmd_write → bo.dma ≡ 1 → bo.grain ≢ g)
        → dev_read after_mem (dev_at st1 g) n ≡ dev_read m (dev_at st1 g) n
    grain : r.0.grain ≡ bo.grain
    cmd : r.0.cmd ≡ bo.cmd
    dma : r.0.dma ≡ 1 → bo.dma ≡ 1

  -- what is common to all ops that write nothing
  no_write :
      (m : Memory) (k : ℕ) (inp bo bo' : BlkOp)
      → KeepsOld st m
      → Copied lib codec lot st st1 m inp bo'
      → bo'.grain ≡ bo.grain
      → bo'.cmd ≡ bo.cmd
      → (bo'.dma ≡ 1 → bo.dma ≡ 1)
      → Issued m inp bo (bo', at_mem st1 m k)
  no_write m k inp bo bo' old copied grain cmd dma = record {
    after_mem = m;
    after_done = k;
    state = refl;
    old = old;
    copied = copied;
    frame = λ g n live le avoid. refl;
    grain = grain;
    cmd = cmd;
    dma = dma;
  }

  issue_idle :
      (m : Memory) (k : ℕ) (inp bo : BlkOp)
      → KeepsOld st m
      → bo.dma ≡ 0
      → Copied lib codec lot st st1 m inp bo
      → Issued m inp bo (issue (at_mem st1 m k) bo)
  unfolding issue
  issue_idle m k inp bo old dma copied =
      let test : (bo.dma == 0 || not (bo.err == 0)) ≡ true = ground (arith, dma) in
      rw test (no_write m k inp bo bo old copied refl refl (λ d. d))

  issue_read :
      (m : Memory) (k : ℕ) (inp bo : BlkOp)
      → KeepsOld st m
      → IsSnapshot st inp.blk bo
      → inp.cmd ≡ cmd_read
      → ent_clen (st.index inp.blk) ≢ 0
      → Issued m inp bo (issue (at_mem st1 m k) bo)
  unfolding issue fetch copy_from_device
  issue_read m k inp bo old snap is_read live =
      let busy : (bo.dma == 0 || not (bo.err == 0)) ≡ false =
        ground (arith, snap.dma, snap.err, live) in
      let reads : (bo.cmd == cmd_read) ≡ true = ground (arith, snap.cmd) in
      let room = (is.held inp.blk live).room in
      let bytes : dev_read m (st1.vram_ptr + bo.grain * alloc_grain) bo.clen
          ≡ stored st (st.index inp.blk) =
        rw (same_ptr, snap.grain, snap.clen)
          (old (ent_grain (st.index inp.blk)) (ent_clen (st.index inp.blk)) (omega (arith, room))
            room) in
      elim (Bool-cases (st1.copies k)) [
        | inl ok ↦
            rw (busy, reads, fetch, copy_from_device, ok)
              (no_write m (k + 1) inp bo
                (record bo { cslot = dev_read m (st1.vram_ptr + bo.grain * alloc_grain) bo.clen })
                old
                (fetched
                  (record {
                    blk = snap.blk;
                    cmd = snap.cmd;
                    err = snap.err;
                    ent = snap.ent;
                    clen = snap.clen;
                    grain = snap.grain;
                    dma = snap.dma;
                  })
                  is_read (λ written. bytes))
                refl refl (λ d. d))
        | inr failed ↦
            let why : st.copies k ≡ false = rw (← same_copies) failed in
            rw (busy, reads, fetch, copy_from_device, failed)
              (no_write m (k + 1) inp bo (record bo { err = eio; dma = 0 }) old
                (lost snap.blk (snap.cmd ∙ sym is_read) refl refl (k, why)) refl refl
                (λ d. absurd (omega (arith, d))))
      ]

  module _ (m : Memory) (inp bo : BlkOp) (w : IsWaiting lib codec st st1 inp bo) where
    filled : Memory
    filled = dev_write m (st1.vram_ptr + bo.grain * alloc_grain) bo.cslot

    filled-frame :
        (g n : ℕ)
        → 0 < size_at st1.heap g
        → n ≤ size_at st1.heap g * alloc_grain
        → bo.grain ≢ g
        → dev_read filled (st1.vram_ptr + g * alloc_grain) n
          ≡ dev_read m (st1.vram_ptr + g * alloc_grain) n
    unfolding filled
    filled-frame g n live le ne =
        slot_frame valid m st1.vram_ptr g bo.grain n bo.cslot live
          (omega (arith, w.room, w.packed.pos)) ne le (omega (arith, w.room, w.packed.bytes))

    filled-KeepsOld : KeepsOld st m → KeepsOld st filled
    filled-KeepsOld old g n live le =
        let same = keeps.sizes g live in
        let other : bo.grain ≢ g = λ e. omega (arith, live, w.was_free, ap (size_at st.heap) e) in
        rw (← same_ptr)
          (filled-frame g n (omega (arith, same, live)) (omega (arith, same, le)) other)
        ∙ old g n live le

    filled-here : dev_read filled (st1.vram_ptr + bo.grain * alloc_grain) bo.clen ≡ bo.cslot
    unfolding filled
    filled-here =
        rw (← w.packed.bytes)
          (dev_read-dev_write m (st1.vram_ptr + bo.grain * alloc_grain) bo.cslot)

    issue_write :
        (k : ℕ)
        → KeepsOld st m
        → inp.cmd ≡ cmd_write
        → lot inp.req true 0
        → Issued m inp bo (issue (at_mem st1 m k) bo)
    unfolding issue send copy_to_device filled
    issue_write k old was may =
        let busy : (bo.dma == 0 || not (bo.err == 0)) ≡ false = ground (arith, w.dma, w.err) in
        let writes : (bo.cmd == cmd_read) ≡ false = ground (arith, w.cmd) in
        elim (Bool-cases (st1.copies k)) [
          | inl ok ↦
              rw (busy, writes, send, copy_to_device, ok)
                (record {
                  after_mem = filled;
                  after_done = k + 1;
                  state = refl;
                  old = filled-KeepsOld old;
                  copied = sent w was may filled-here;
                  frame = λ g n live le avoid. filled-frame g n live le (avoid w.cmd w.dma);
                  grain = refl;
                  cmd = refl;
                  dma = λ d. d;
                })
          | inr failed ↦
              let why : st.copies k ≡ false = rw (← same_copies) failed in
              rw (busy, writes, send, copy_to_device, failed)
                (no_write m (k + 1) inp bo (record bo { err = eio; dma = 0 }) old
                  (lost w.blk (w.cmd ∙ sym was) refl refl (k, why)) refl refl
                  (λ d. absurd (omega (arith, d))))
        ]

  issue_one :
      (m : Memory) (k : ℕ) (inp bo : BlkOp)
      → KeepsOld st m
      → Ready lib codec lot st st1 inp bo
      → Issued m inp bo (issue (at_mem st1 m k) bo)
  issue_one m k inp bo old (write w was may) = issue_write m inp bo w k old was may
  issue_one m k inp bo old (idle was cmd dma slot left) =
      issue_idle m k inp bo old dma (kept was cmd dma slot left)
  issue_one m k inp bo old (read snap is_read) = elim (eq_cases (ent_clen (st.index inp.blk)) 0) [
    | inl fresh ↦
        issue_idle m k inp bo old (ground (arith, snap.dma, fresh))
          (fetched snap is_read (λ written. absurd (written fresh)))
    | inr live ↦ issue_read m k inp bo old snap is_read live
  ]

  -- A set of ops issued.
  pub record IsIssued (m : Memory) (inps ops : List BlkOp) (r : List BlkOp × Store) : Type 0 where
    pub after_mem : Memory
    pub after_done : ℕ
    pub state : r.1 ≡ at_mem st1 after_mem after_done
    pub old : KeepsOld st after_mem
    pub copied : Both (Copied lib codec lot st st1 after_mem) inps r.0
    pub frame :
        (g n : ℕ)
        → 0 < size_at st1.heap g
        → n ≤ size_at st1.heap g * alloc_grain
        → Avoid g ops
        → dev_read after_mem (dev_at st1 g) n ≡ dev_read m (dev_at st1 g) n
    pub avoid : (g : ℕ) → Avoid g ops → Avoid g r.0
    pub distinct : Distinct r.0

  -- Bytes that a later copy leaves alone.
  Copied-frame :
      (m m' : Memory) (inp bo : BlkOp)
      → Copied lib codec lot st st1 m inp bo
      → ((n : ℕ)
          → bo.cmd ≡ cmd_write
          → bo.dma ≡ 1
          → 0 < size_at st1.heap bo.grain
          → n ≤ size_at st1.heap bo.grain * alloc_grain
          → dev_read m' (dev_at st1 bo.grain) n ≡ dev_read m (dev_at st1 bo.grain) n)
      → Copied lib codec lot st st1 m' inp bo
  Copied-frame m m' inp bo (fetched snap was bytes) same = fetched snap was bytes
  Copied-frame m m' inp bo (lost blk cmd err dma why) same = lost blk cmd err dma why
  Copied-frame m m' inp bo (kept was cmd dma slot left) same = kept was cmd dma slot left
  Copied-frame m m' inp bo (sent w was may bytes) same =
      sent w was may (same bo.clen w.cmd w.dma (omega (arith, w.room, w.packed.pos)) w.room ∙ bytes)

  pub issue_all :
      {inps ops : List BlkOp}
      → Both (Ready lib codec lot st st1) inps ops
      → Distinct ops
      → (m : Memory) (k : ℕ) → KeepsOld st m
      → IsIssued m inps ops (each issue ops (at_mem st1 m k))
  unfolding each
  issue_all nil distinct m k old = record {
    after_mem = m;
    after_done = k;
    state = refl;
    old = old;
    copied = nil;
    frame = λ g n live le avoid. refl;
    avoid = λ g avoid. tt;
    distinct = tt;
  }
  issue_all (cons inp bo inps ops ready more) distinct m k old =
      let one = issue_one m k inp bo old ready in
      let bo' = (issue (at_mem st1 m k) bo).0 in
      let rest = issue_all more distinct.1 one.after_mem one.after_done one.old in
      let own : bo'.cmd ≡ cmd_write → bo'.dma ≡ 1 → Avoid bo'.grain ops =
        λ cmd dma. rw one.grain (distinct.0 (sym one.cmd ∙ cmd) (one.dma dma)) in
      rw one.state (record {
        after_mem = rest.after_mem;
        after_done = rest.after_done;
        state = rest.state;
        old = rest.old;
        copied =
            cons inp bo' inps (each issue ops (at_mem st1 one.after_mem one.after_done)).0
              (Copied-frame one.after_mem rest.after_mem inp bo' one.copied
                (λ n cmd dma live le. rest.frame bo'.grain n live le (own cmd dma)))
              rest.copied;
        frame = λ g n live le avoid. rest.frame g n live le avoid.1 ∙ one.frame g n live le avoid.0;
        avoid = λ g avoid. (
          (λ cmd dma. rw one.grain (avoid.0 (sym one.cmd ∙ cmd) (one.dma dma))),
          rest.avoid g avoid.1,
        );
        distinct = ((λ cmd dma. rest.avoid bo'.grain (own cmd dma)), rest.distinct);
      })
