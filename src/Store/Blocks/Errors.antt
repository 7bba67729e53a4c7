-- ===== src/Store/Blocks/Errors.antt =====
-- The error of each op of a set is that of its own copy.
use nbd_vram.Prelude.{
  ℕ, ◌+◌, ◌≡◌, inl, inr, refl, arith, sym, ap, ◌∙◌, Bool, true, false, not, ◌||◌, List, [], ◌∷◌,
  ◌==◌, if◌then◌else◌, Bool-cases,
}
use nbd_vram.Codec.{CodecKind, Library}
use nbd_vram.Store.{Store, BlkOp, eio, cmd_read, copy_to_device, copy_from_device}
use nbd_vram.Store.Device.{Memory}
use nbd_vram.Store.IsStore.{IsStore}
use nbd_vram.Store.Blocks.{each, issue, fetch, send, pending, validate, validate_all}
use nbd_vram.Store.Blocks.Reads.{validate-IsRead}
use nbd_vram.Store.Blocks.Ready.{Both, nil, cons}
use nbd_vram.Store.Blocks.Issue.{Copied, fetched, sent, lost, kept}

abbrev pub errs_of : List BlkOp → List ℕ
errs_of [] = []
errs_of (bo ∷ ops) = bo.err ∷ errs_of ops

-- The errors behind the copies, the next of which is the `k`-th: an op that wants a copy has EIO if that one
-- fails and no error else, and any other op has the error from before.
abbrev pub copy_errors : (copies : ℕ → Bool) → (k : ℕ) → List BlkOp → List ℕ
copy_errors copies k [] = []
copy_errors copies k (bo ∷ ops) =
    if bo.dma == 0 || not (bo.err == 0)
    then bo.err ∷ copy_errors copies k ops
    else (if copies k then 0 else eio) ∷ copy_errors copies (k + 1) ops

-- What one op is issued to.
record Copies (st : Store) (bo : BlkOp) (r : BlkOp × Store) : Type 0 where
  err : r.0.err ≡ (if st.copies st.copies_done then 0 else eio)
  done : r.1.copies_done ≡ st.copies_done + 1
  same : r.1.copies ≡ st.copies

issue-Copies :
    (st : Store) (bo : BlkOp)
    → (bo.dma == 0 || not (bo.err == 0)) ≡ false
    → Copies st bo (issue st bo)
unfolding issue fetch send copy_to_device copy_from_device
issue-Copies st bo busy =
    let fine : bo.err ≡ 0 = ground (arith, busy) in
    elim (Bool-cases (bo.cmd == cmd_read)) [
      | inl reads ↦ elim (Bool-cases (st.copies st.copies_done)) [
        | inl ok ↦ rw (busy, reads, ok) (record { err = rw ok fine; done = refl; same = refl })
        | inr failed ↦
            rw (busy, reads, failed) (record { err = rw failed refl; done = refl; same = refl })
      ]
      | inr writes ↦ elim (Bool-cases (st.copies st.copies_done)) [
        | inl ok ↦ rw (busy, writes, ok) (record { err = rw ok fine; done = refl; same = refl })
        | inr failed ↦
            rw (busy, writes, failed) (record { err = rw failed refl; done = refl; same = refl })
      ]
    ]

issue_idle :
    (st : Store) (bo : BlkOp) → (bo.dma == 0 || not (bo.err == 0)) ≡ true → issue st bo ≡ (bo, st)
unfolding issue
issue_idle st bo idle = rw idle refl

pub errs_of-issue :
    (ops : List BlkOp) (st : Store)
    → errs_of (each issue ops st).0 ≡ copy_errors st.copies st.copies_done ops
unfolding each
errs_of-issue [] st = refl
errs_of-issue (bo ∷ ops) st = elim (Bool-cases (bo.dma == 0 || not (bo.err == 0))) [
  | inl idle ↦
      let same : issue st bo ≡ (bo, st) = issue_idle st bo idle in
      rw (same, idle) (ap (λ l. bo.err ∷ l) (errs_of-issue ops st))
  | inr busy ↦
      let one = issue-Copies st bo busy in
      rw (busy, one.err, errs_of-issue ops (issue st bo).1, one.done, one.same) refl
]

unchanged :
    (lib : Library) (codec : CodecKind) (s : Store) (bo : BlkOp)
    → pending bo ≡ false
    → (validate lib codec s bo).0.err ≡ bo.err
unfolding validate
unchanged lib codec s bo idle = rw idle refl

module _ {lib : Library} {codec : CodecKind} {lot : ℕ → Bool → ℕ → Type 0} {st st1 : Store}
    (is : IsStore lib codec st) (m : Memory) (s : Store)
    (same_index : (b : ℕ) → s.index b ≡ st.index b) where
  validate-err :
      (inp bo : BlkOp)
      → Copied lib codec lot st st1 m inp bo
      → (validate lib codec s bo).0.err ≡ bo.err
  unfolding pending
  validate-err inp bo (fetched snap was bytes) =
      (validate-IsRead is s same_index inp.blk bo (record { snapshot = snap; bytes = bytes })).0.err
      ∙ sym snap.err
  validate-err inp bo (sent w was may bytes) = unchanged lib codec s bo (ground (arith, w.cmd))
  validate-err inp bo (lost blk cmd err dma why) = unchanged lib codec s bo (ground (arith, err))
  validate-err inp bo (kept was cmd dma slot left) = unchanged lib codec s bo (ground (arith, cmd))

  pub errs_of-validate :
      {inps ops : List BlkOp}
      → Both (Copied lib codec lot st st1 m) inps ops
      → errs_of (validate_all lib codec s ops).0 ≡ errs_of ops
  unfolding validate_all
  errs_of-validate nil = refl
  errs_of-validate (cons inp bo inps ops copied more) =
      rw (validate-err inp bo copied, errs_of-validate more) refl
