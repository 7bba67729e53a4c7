-- ===== src/Batch/Flush/Errors.antt =====
-- The errors of the requests of a batch.
use nbd_vram.Prelude.{
  ℕ, zero, suc, ◌<◌, ◌≡◌, ◌≢◌, inl, inr, refl, arith, ap, ◌∙◌, sym, false, Bool-cases, eq_cases,
  ==_ne, ==_refl, not, ◌&&◌, ◌||◌, List, [], ◌∷◌, ◌==◌, if◌then◌else◌, length,
}
use mathlib.Core.Path.{subst}
use nbd_vram.Store.{BlkOp, eio}
use nbd_vram.Store.Ranges.{worse}
use nbd_vram.Store.Ranges.Disk.{worse_ne}
use nbd_vram.Batch.{Bop}
use nbd_vram.Batch.Flush.{error_at, set_error, note_errors, merge_errors}

-- What holds of every op.
abbrev pub AllOps : (BlkOp → Type 0) → List BlkOp → Type 0
AllOps P [] = Unit
AllOps P (bo ∷ ops) = P bo × AllOps P ops

pub AllOps-map :
    {P Q : BlkOp → Type 0}
    → ((bo : BlkOp) → P bo → Q bo)
    → (ops : List BlkOp) → AllOps P ops
    → AllOps Q ops
AllOps-map f [] all = tt
AllOps-map f (bo ∷ ops) all = (f bo all.0, AllOps-map f ops all.1)

-- The op belongs to one of `n` requests.
abbrev pub IsIn : (n : ℕ) → BlkOp → Type 0
IsIn n bo = bo.req < n

pub length-set_error : (i e : ℕ) (reqs : List Bop) → length (set_error i e reqs) ≡ length reqs
unfolding set_error
length-set_error i e [] = refl
length-set_error zero e (req ∷ reqs) = refl
length-set_error (suc i) e (req ∷ reqs) = ap suc (length-set_error i e reqs)

pub error_at-set_error :
    (reqs : List Bop) (i e j : ℕ)
    → i < length reqs
    → error_at (set_error i e reqs) j ≡ (if i == j then e else error_at reqs j)
unfolding error_at set_error
error_at-set_error [] i e j lt = absurd (omega (arith, lt))
error_at-set_error (req ∷ reqs) zero e zero lt = refl
error_at-set_error (req ∷ reqs) zero e (suc j) lt =
    let test : (0 == suc j) ≡ false = ground arith in rw test refl
error_at-set_error (req ∷ reqs) (suc i) e zero lt =
    let test : (suc i == 0) ≡ false = ground arith in rw test refl
error_at-set_error (req ∷ reqs) (suc i) e (suc j) lt =
    let same : (suc i == suc j) ≡ (i == j) = ground arith in
    rw same (error_at-set_error reqs i e j (omega (arith, lt)))

-- One op's error noted or merged, as `g` does with the error from before.
module _ (reqs : List Bop) (bo : BlkOp) (e : ℕ) (lt : bo.req < length reqs) where
  pub here : error_at (set_error bo.req e reqs) bo.req ≡ e
  here = error_at-set_error reqs bo.req e bo.req lt ∙ rw (==_refl bo.req) refl

  pub elsewhere : (j : ℕ) → bo.req ≢ j → error_at (set_error bo.req e reqs) j ≡ error_at reqs j
  elsewhere j ne = error_at-set_error reqs bo.req e j lt ∙ rw (==_ne bo.req j ne) refl

  -- What holds of the new error and of the old errors holds of all.
  pub set_keeps :
      (P : ℕ → Type 0) (j : ℕ)
      → (bo.req ≡ j → P e)
      → P (error_at reqs j)
      → P (error_at (set_error bo.req e reqs) j)
  set_keeps P j now old = elim (eq_cases bo.req j) [
    | inl same ↦
        subst P (sym (ap (error_at (set_error bo.req e reqs)) (sym same) ∙ here)) (now same)
    | inr other ↦ subst P (sym (elsewhere j other)) old
  ]

pub worse_keeps : (P : ℕ → Type 0) (err e : ℕ) → P err → (e ≢ 0 → P e) → P (worse err e)
worse_keeps P err e p q = elim (Bool-cases (not (e == 0) && (err == 0 || e == eio))) [
  | inl test ↦ rw test (q (ground (arith, test)))
  | inr test ↦ rw test p
]

slots_stay :
    (reqs : List Bop) (i e : ℕ) (ops : List BlkOp)
    → AllOps (IsIn (length reqs)) ops
    → AllOps (IsIn (length (set_error i e reqs))) ops
slots_stay reqs i e ops all =
    AllOps-map (λ bo lt. omega (arith, lt, length-set_error i e reqs)) ops all

pub length-note_errors :
    (ops : List BlkOp) (reqs : List Bop) → length (note_errors ops reqs) ≡ length reqs
unfolding note_errors
length-note_errors [] reqs = refl
length-note_errors (bo ∷ ops) reqs = elim (Bool-cases (bo.err == 0)) [
  | inl fine ↦ rw fine (length-note_errors ops reqs)
  | inr bad ↦
      rw bad (
        length-note_errors ops (set_error bo.req bo.err reqs) ∙ length-set_error bo.req bo.err reqs)
]

-- What holds of the errors of the ops of a request and of its own error holds of what they come to.
pub note_keeps :
    (P : ℕ → Type 0) (ops : List BlkOp) (reqs : List Bop) (j : ℕ)
    → AllOps (IsIn (length reqs)) ops
    → AllOps (λ bo. bo.req ≡ j → bo.err ≢ 0 → P bo.err) ops
    → P (error_at reqs j)
    → P (error_at (note_errors ops reqs) j)
unfolding note_errors
note_keeps P [] reqs j inside holds p = p
note_keeps P (bo ∷ ops) reqs j inside holds p = elim (Bool-cases (bo.err == 0)) [
  | inl fine ↦ rw fine (note_keeps P ops reqs j inside.1 holds.1 p)
  | inr bad ↦ rw bad (
      note_keeps P ops (set_error bo.req bo.err reqs) j (slots_stay reqs bo.req bo.err ops inside.1)
        holds.1
        (set_keeps reqs bo bo.err inside.0 P j (λ same. holds.0 same (ground (arith, bad))) p))
]

-- The request of an op with an error has one.
pub note_op :
    (ops : List BlkOp) (reqs : List Bop)
    → AllOps (IsIn (length reqs)) ops
    → AllOps (λ bo. bo.err ≢ 0 → error_at (note_errors ops reqs) bo.req ≢ 0) ops
unfolding note_errors
note_op [] reqs inside = tt
note_op (bo ∷ ops) reqs inside = elim (Bool-cases (bo.err == 0)) [
  | inl fine ↦ (
    (λ ne. absurd (ne (ground (arith, fine)))),
    AllOps-map (λ b has ne. rw fine (has ne)) ops (note_op ops reqs inside.1),
  )
  | inr bad ↦
      let reqs1 = set_error bo.req bo.err reqs in
      let inside1 = slots_stay reqs bo.req bo.err ops inside.1 in
      (
        (λ ne. rw bad (
            note_keeps (λ e. e ≢ 0) ops reqs1 bo.req inside1
              (AllOps-map (λ b lt same z. z) ops inside.1)
              (λ z. ne (sym (here reqs bo bo.err inside.0) ∙ z)))),
        AllOps-map (λ b has ne. rw bad (has ne)) ops (note_op ops reqs1 inside1),
      )
]

pub merge_keeps :
    (P : ℕ → Type 0) (ops : List BlkOp) (reqs : List Bop) (j : ℕ)
    → AllOps (IsIn (length reqs)) ops
    → AllOps (λ bo. bo.req ≡ j → bo.err ≢ 0 → P bo.err) ops
    → P (error_at reqs j)
    → P (error_at (merge_errors ops reqs) j)
unfolding merge_errors
merge_keeps P [] reqs j inside holds p = p
merge_keeps P (bo ∷ ops) reqs j inside holds p =
    let e = worse (error_at reqs bo.req) bo.err in
    merge_keeps P ops (set_error bo.req e reqs) j (slots_stay reqs bo.req e ops inside.1) holds.1 (
      set_keeps reqs bo e inside.0 P j
        (λ same.
          worse_keeps P (error_at reqs bo.req) bo.err
            (subst (λ i. P (error_at reqs i)) (sym same) p) (holds.0 same))
        p)

-- An error stays one.
pub merge_stays :
    (ops : List BlkOp) (reqs : List Bop) (j : ℕ)
    → AllOps (IsIn (length reqs)) ops
    → error_at reqs j ≢ 0
    → error_at (merge_errors ops reqs) j ≢ 0
unfolding merge_errors
merge_stays [] reqs j inside ne = ne
merge_stays (bo ∷ ops) reqs j inside ne =
    let e = worse (error_at reqs bo.req) bo.err in
    merge_stays ops (set_error bo.req e reqs) j (slots_stay reqs bo.req e ops inside.1) (
      set_keeps reqs bo e inside.0 (λ x. x ≢ 0) j
        (λ same.
          worse_ne (error_at reqs bo.req) bo.err
            (inl (λ z. ne (sym (ap (error_at reqs) same) ∙ z))))
        ne)

pub merge_op :
    (ops : List BlkOp) (reqs : List Bop)
    → AllOps (IsIn (length reqs)) ops
    → AllOps (λ bo. bo.err ≢ 0 → error_at (merge_errors ops reqs) bo.req ≢ 0) ops
unfolding merge_errors
merge_op [] reqs inside = tt
merge_op (bo ∷ ops) reqs inside =
    let e = worse (error_at reqs bo.req) bo.err in
    let reqs1 = set_error bo.req e reqs in
    let inside1 = slots_stay reqs bo.req e ops inside.1 in
    (
      (λ ne. merge_stays ops reqs1 bo.req inside1 (λ z.
          worse_ne (error_at reqs bo.req) bo.err (inr ne) (sym (here reqs bo e inside.0) ∙ z))),
      merge_op ops reqs1 inside1,
    )

-- The requests without their errors.
abbrev pub strip : List Bop → List Bop
strip [] = []
strip (req ∷ reqs) = record req { error = 0 } ∷ strip reqs

strip-set_error : (i e : ℕ) (reqs : List Bop) → strip (set_error i e reqs) ≡ strip reqs
unfolding set_error
strip-set_error i e [] = refl
strip-set_error zero e (req ∷ reqs) = refl
strip-set_error (suc i) e (req ∷ reqs) =
    ap (λ l. record req { error = 0 } ∷ l) (strip-set_error i e reqs)

pub strip-note_errors :
    (ops : List BlkOp) (reqs : List Bop) → strip (note_errors ops reqs) ≡ strip reqs
unfolding note_errors
strip-note_errors [] reqs = refl
strip-note_errors (bo ∷ ops) reqs = elim (Bool-cases (bo.err == 0)) [
  | inl fine ↦ rw fine (strip-note_errors ops reqs)
  | inr bad ↦
      rw bad
        (strip-note_errors ops (set_error bo.req bo.err reqs) ∙ strip-set_error bo.req bo.err reqs)
]

pub strip-merge_errors :
    (ops : List BlkOp) (reqs : List Bop) → strip (merge_errors ops reqs) ≡ strip reqs
unfolding merge_errors
strip-merge_errors [] reqs = refl
strip-merge_errors (bo ∷ ops) reqs =
    let e = worse (error_at reqs bo.req) bo.err in
    strip-merge_errors ops (set_error bo.req e reqs) ∙ strip-set_error bo.req e reqs
