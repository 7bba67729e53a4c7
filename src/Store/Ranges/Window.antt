-- ===== src/Store/Ranges/Window.antt =====
-- One window of `store_blocks` and of `load_blocks`.
use nbd_vram.Prelude.{
  ℕ, zero, suc, ◌+◌, ◌-◌, ◌*◌, ◌/◌, ◌%◌, ◌≤◌, ◌<◌, ◌≡◌, ◌≢◌, ◌⊎◌, inl, inr, refl, arith, sym, ap,
  ◌∙◌, true, false, ◌&&◌, List, [], ◌∷◌, Option, some, ◌==◌, length, take, drop, length-take,
  length-drop, get_elem?, get_elem?-take, get_elem?-drop,
}
use nbd_vram.Heap.{cblk_size}
use nbd_vram.Codec.{Bytes, CodecKind, Library, IsLossless}
use nbd_vram.Store.{Store, BlkOp, cmd_write}
use nbd_vram.Store.IsStore.{page_at, IsStore}
use nbd_vram.Store.Blocks.Ready.{Plain, AllSet, Both, nil, cons}
use nbd_vram.Store.Blocks.Commit.{puts, written}
use nbd_vram.Store.Blocks.Prepare.{prepare-IsPrepared}
use nbd_vram.Store.Blocks.Sets.{
  Outcome, read_done, write_done, copy_lost, no_room, Executed, do_blocks_lem,
}
use nbd_vram.Store.Ranges.{read_ops, write_ops, worse, worst, run}
use nbd_vram.Store.Ranges.Fixed.{run-fixed}
use nbd_vram.Store.Ranges.Disk.{in_page, disk, Reported, Reported-worse, worse_ne, lt_or_le, Wrote}

pub run_lem :
    {lib : Library} {codec : CodecKind} {st : Store}
    → IsLossless lib
    → IsStore lib codec st
    → (inps : List BlkOp) → AllSet inps
    → Executed lib codec Plain st inps (run lib codec inps st)
run_lem lossless is inps sets =
    (do_blocks_lem Plain is (prepare-IsPrepared lossless inps sets is.heap)).0

pub write_ops-AllSet :
    (n blk : ℕ) (src : Bytes) → n * cblk_size ≤ length src → AllSet (write_ops blk src n)
unfolding write_ops
write_ops-AllSet zero blk src le = tt
write_ops-AllSet (suc n) blk src le = (
  record { cmd = inr refl; err = refl; whole = λ w. omega (arith, le, length-take cblk_size src) },
  write_ops-AllSet n (blk + 1) (drop cblk_size src) (omega (arith, le, length-drop cblk_size src)),
)

pub read_ops-AllSet : (n blk : ℕ) → AllSet (read_ops blk n)
unfolding read_ops
read_ops-AllSet zero blk = tt
read_ops-AllSet (suc n) blk = (
  record { cmd = inl refl; err = refl; whole = λ w. absurd (omega (arith, w)) },
  read_ops-AllSet n (blk + 1),
)

worst_ne : (ops : List BlkOp) (err : ℕ) → err ≢ 0 → worst err ops ≢ 0
unfolding worst
worst_ne [] err ne = ne
worst_ne (bo ∷ ops) err ne = worst_ne ops (worse err bo.err) (worse_ne err bo.err (inl ne))

-- A write that is done, or one with an error.
abbrev Ends : (inp bo : BlkOp) → Type 0
Ends inp bo =
    ((puts bo ≡ true) × ((bo.blk ≡ inp.blk) × (bo.page ≡ inp.page)))
    ⊎ ((puts bo ≡ false) × (bo.err ≢ 0))

away_block :
    (n blk a : ℕ)
    → (a < blk * cblk_size) ⊎ (blk * cblk_size + n * cblk_size ≤ a)
    → (a / cblk_size < blk) ⊎ (blk + n ≤ a / cblk_size)
away_block n blk a (inl out) = inl (omega (arith, out))
away_block n blk a (inr out) = inr (omega (arith, out))

module _ {lib : Library} {codec : CodecKind} {st : Store} where
  ends :
      (inp bo : BlkOp)
      → inp.cmd ≡ cmd_write
      → Outcome lib codec Plain st inp bo
      → Ends inp bo × Reported st bo.err
  ends inp bo w (read_done r cmd err page) = absurd (omega (arith, w, r))
  ends inp bo w (write_done r goes err blk page may) = (inl (goes, (blk, page)), inl err)
  ends inp bo w (copy_lost cmd err lost) =
      (inr (ground (arith, err), omega (arith, err)), inr (inr (err, lost)))
  ends inp bo w (no_room r cmd slot (inr full)) =
      (inr (ground (arith, full), omega (arith, full)), inr (inl full))
  ends inp bo w (no_room r cmd slot (inl goes)) = absurd (ground (arith, goes))

  -- Blocks outside the window are left alone.
  elsewhere :
      (n blk b : ℕ) (src : Bytes) (ops : List BlkOp) (old : Option Bytes)
      → (b < blk) ⊎ (blk + n ≤ b)
      → Both (Outcome lib codec Plain st) (write_ops blk src n) ops
      → written ops b old ≡ old
  unfolding write_ops
  elsewhere zero blk b src ops old out nil = refl
  elsewhere (suc n) blk b src ops old out (cons inp bo inps ops1 did more) =
      let rest : written ops1 b old ≡ old =
        elsewhere n (blk + 1) b (drop cblk_size src) ops1 old (ground (arith, out)) more in
      elim (ends inp bo refl did).0 [
        | inl (goes, (at, page)) ↦
            let test : (puts bo && bo.blk == b) ≡ false = ground (arith, at, out) in rw test rest
        | inr (stays, e) ↦ rw stays rest
      ]

  all-Reported :
      (n blk err : ℕ) (src : Bytes) (ops : List BlkOp)
      → Reported st err
      → Both (Outcome lib codec Plain st) (write_ops blk src n) ops
      → Reported st (worst err ops)
  unfolding write_ops worst
  all-Reported zero blk err src ops why nil = why
  all-Reported (suc n) blk err src ops why (cons inp bo inps ops1 did more) =
      all-Reported n (blk + 1) (worse err bo.err) (drop cblk_size src) ops1
        (Reported-worse st err bo.err why (ends inp bo refl did).1) more

  -- The byte at the address `a` of the window.
  within :
      (n blk err a i : ℕ) (src : Bytes) (ops : List BlkOp) (old : Option Bytes)
      → a ≡ blk * cblk_size + i
      → i < n * cblk_size
      → Both (Outcome lib codec Plain st) (write_ops blk src n) ops
      → (in_page (written ops (a / cblk_size) old) (a % cblk_size) ≡ get_elem? src i)
        ⊎ ((worst err ops ≢ 0) × (written ops (a / cblk_size) old ≡ old))
  unfolding write_ops worst
  within zero blk err a i src ops old at lt nil = absurd (omega (arith, lt))
  within (suc n) blk err a i src ops old at lt (cons inp bo inps ops1 did more) =
      elim (lt_or_le i cblk_size) [
        | inl near ↦
            let block : a / cblk_size ≡ blk = omega (arith, at, near) in
            let byte : a % cblk_size ≡ i = omega (arith, at, near) in
            let rest : (p : Option Bytes) → written ops1 blk p ≡ p =
              λ p. elsewhere n (blk + 1) blk (drop cblk_size src) ops1 p (inl (omega arith)) more in
            elim (ends inp bo refl did).0 [
              | inl (goes, (here, page)) ↦
                  let test : (puts bo && bo.blk == blk) ≡ true = ground (arith, here, goes) in
                  inl (
                    rw (block, byte, test, rest (some bo.page), page)
                      (get_elem?-take cblk_size src i near))
              | inr (stays, e) ↦ inr (
                worst_ne ops1 (worse err bo.err) (worse_ne err bo.err (inr e)),
                rw (block, stays, rest old) refl,
              )
            ]
        | inr far ↦
            let j = i - cblk_size in
            let byte : get_elem? (drop cblk_size src) j ≡ get_elem? src i =
              get_elem?-drop cblk_size src j
              ∙ ap (get_elem? src) {x = cblk_size + j} {y = i} (omega (arith, far)) in
            let past : blk ≢ a / cblk_size = omega (arith, at, far) in
            let skips : (puts bo && bo.blk == a / cblk_size) ≡ false =
              elim (ends inp bo refl did).0 [
                | inl (goes, (here, page)) ↦ ground (arith, here, past)
                | inr (stays, e) ↦ ground (arith, stays)
              ] in
            rw (skips, ← byte)
              (within n (blk + 1) (worse err bo.err) a j (drop cblk_size src) ops1 old
                (omega (arith, at, far)) (omega (arith, lt, far)) more)
      ]

  -- A window of writes is a write of its bytes.
  pub window-Wrote :
      IsLossless lib
      → IsStore lib codec st
      → (n blk err : ℕ) (src : Bytes) → n * cblk_size ≤ length src
      → Wrote lib codec st (blk * cblk_size) (take (n * cblk_size) src) err (
        worst err (run lib codec (write_ops blk src n) st).0,
        (run lib codec (write_ops blk src n) st).1,
      )
  unfolding disk
  window-Wrote lossless is n blk err src le =
      let inps = write_ops blk src n in
      let all = run_lem lossless is inps (write_ops-AllSet n blk src le) in
      let ops = (run lib codec inps st).0 in
      let size : length (take (n * cblk_size) src) ≡ n * cblk_size =
        omega (arith, length-take (n * cblk_size) src, le) in
      record {
        store = all.store;
        same = run-fixed lib codec inps st;
        outside = λ a out.
            let b = a / cblk_size in
            let away : (b < blk) ⊎ (blk + n ≤ b) = away_block n blk a (ground (arith, size, out)) in
            ap (λ p. in_page p (a % cblk_size))
              (all.pages b ∙ elsewhere n blk b src ops _ away all.ended);
        inside = λ i lt.
            let small : i < n * cblk_size = omega (arith, lt, size) in
            let a = blk * cblk_size + i in
            let page = all.pages (a / cblk_size) in
            elim (within n blk err a i src ops (page_at lib codec st (a / cblk_size)) refl small
              all.ended) [
                | inl new ↦ inl (
                    ap (λ p. in_page p (a % cblk_size)) page
                    ∙ new
                    ∙ sym (get_elem?-take (n * cblk_size) src i small))
                | inr (e, old) ↦ inr (e, ap (λ p. in_page p (a % cblk_size)) (page ∙ old))
              ];
        sticks = worst_ne ops err;
        why = λ p. all-Reported n blk err src ops p all.ended;
      }
