-- ===== src/Batch/Flush/Laid.antt =====
-- The block ops of a batch, request by request.
use nbd_vram.Prelude.{
  ℕ, zero, suc, ◌+◌, ◌*◌, ◌/◌, ◌≤◌, ◌<◌, ◌≡◌, ◌⊎◌, inl, inr, refl, arith, ap, List, [], ◌∷◌, ◌++◌,
  length, take, drop, length-take, length-drop,
}
use nbd_vram.Heap.{cblk_size}
use nbd_vram.Codec.{Bytes}
use nbd_vram.Store.{BlkOp, cmd_read, cmd_write}
use nbd_vram.Store.Blocks.Ready.{AllSet, Both, nil, cons}
use nbd_vram.Batch.{Bop, batch_slot}
use nbd_vram.Batch.Gathered.{IsRequest, Placed, empty, add}
use nbd_vram.Batch.Flush.{block_ops, ops_of, batch_ops}
use nbd_vram.Batch.Flush.Errors.{AllOps, IsIn}

-- The requests from the `k`-th on, whose ops stand from `from` on.
abbrev pub Laid : (disk_size k from : ℕ) → List Bop → Type 0
Laid disk_size k from [] = Unit
Laid disk_size k from (req ∷ reqs) =
    ((req.ri ≡ k) × ((req.op0 ≡ from) × IsRequest disk_size req))
    × Laid disk_size (k + 1) (from + req.nops) reqs

abbrev all_nops : List Bop → ℕ
all_nops [] = 0
all_nops (req ∷ reqs) = req.nops + all_nops reqs

all_nops-snoc :
    (reqs : List Bop) (req : Bop) → all_nops (reqs ++ req ∷ []) ≡ all_nops reqs + req.nops
all_nops-snoc [] req = omega arith
all_nops-snoc (r ∷ reqs) req = omega (arith, all_nops-snoc reqs req)

Laid-snoc :
    (disk_size k from : ℕ) (reqs : List Bop) (req : Bop)
    → Laid disk_size k from reqs
    → req.ri ≡ k + length reqs
    → req.op0 ≡ from + all_nops reqs
    → IsRequest disk_size req
    → Laid disk_size k from (reqs ++ req ∷ [])
Laid-snoc disk_size k from [] req laid ri op0 is =
    ((omega (arith, ri), (omega (arith, op0), is)), tt)
Laid-snoc disk_size k from (r ∷ reqs) req laid ri op0 is = (
  laid.0,
  Laid-snoc disk_size (k + 1) (from + r.nops) reqs req laid.1 (omega (arith, ri))
      (omega (arith, op0)) is,
)

Placed-all_nops :
    {disk_size nops : ℕ} {reqs : List Bop} → Placed disk_size reqs nops → all_nops reqs ≡ nops
Placed-all_nops empty = refl
Placed-all_nops (add reqs nops req placed ri op0 is) =
    omega (arith, Placed-all_nops placed, all_nops-snoc reqs req)

pub Placed-Laid :
    {disk_size nops : ℕ} {reqs : List Bop} → Placed disk_size reqs nops → Laid disk_size 0 0 reqs
Placed-Laid empty = tt
Placed-Laid {disk_size} (add reqs nops req placed ri op0 is) =
    Laid-snoc disk_size 0 0 reqs req (Placed-Laid placed) (omega (arith, ri))
      (omega (arith, op0, Placed-all_nops placed)) is

pub length-block_ops :
    (n blk cmd : ℕ) (slot : Bytes) (ri : ℕ) → length (block_ops n blk cmd slot ri) ≡ n
unfolding block_ops
length-block_ops zero blk cmd slot ri = refl
length-block_ops (suc n) blk cmd slot ri =
    ap suc (length-block_ops n (blk + 1) cmd (drop cblk_size slot) ri)

block_ops-AllSet :
    (n blk cmd : ℕ) (slot : Bytes) (ri : ℕ)
    → (cmd ≡ cmd_read) ⊎ (cmd ≡ cmd_write)
    → n * cblk_size ≤ length slot
    → AllSet (block_ops n blk cmd slot ri)
unfolding block_ops
block_ops-AllSet zero blk cmd slot ri is le = tt
block_ops-AllSet (suc n) blk cmd slot ri is le = (
  record { cmd = is; err = refl; whole = λ w. omega (arith, le, length-take cblk_size slot) },
  block_ops-AllSet n (blk + 1) cmd (drop cblk_size slot) ri is
      (omega (arith, le, length-drop cblk_size slot)),
)

AllSet-append : (xs ys : List BlkOp) → AllSet xs → AllSet ys → AllSet (xs ++ ys)
AllSet-append [] ys a b = b
AllSet-append (x ∷ xs) ys a b = (a.0, AllSet-append xs ys a.1 b)

block_ops-IsIn :
    (m n blk cmd : ℕ) (slot : Bytes) (ri : ℕ)
    → ri < m
    → AllOps (IsIn m) (block_ops n blk cmd slot ri)
unfolding block_ops
block_ops-IsIn m zero blk cmd slot ri lt = tt
block_ops-IsIn m (suc n) blk cmd slot ri lt =
    (lt, block_ops-IsIn m n (blk + 1) cmd (drop cblk_size slot) ri lt)

AllOps-append :
    (P : BlkOp → Type 0) (xs ys : List BlkOp) → AllOps P xs → AllOps P ys → AllOps P (xs ++ ys)
AllOps-append P [] ys a b = b
AllOps-append P (x ∷ xs) ys a b = (a.0, AllOps-append P xs ys a.1 b)

-- The blocks of a request fit its buffer.
nops_fit : {disk_size : ℕ} {req : Bop} → IsRequest disk_size req → req.nops * cblk_size ≤ batch_slot
nops_fit is = elim is.ops [
  | inl (fine, whole, inside) ↦ omega (arith, whole, is.fits)
  | inr (bad, none_set, outside) ↦ omega (arith, none_set)
]

module _ (slots : ℕ → Bytes) (wide : (i : ℕ) → length (slots i) ≡ batch_slot) where
  pub batch_ops-AllSet :
      (disk_size k from : ℕ) (reqs : List Bop)
      → Laid disk_size k from reqs
      → AllSet (batch_ops slots reqs)
  unfolding batch_ops
  batch_ops-AllSet disk_size k from [] laid = tt
  batch_ops-AllSet disk_size k from (req ∷ reqs) laid =
      let is = laid.0.1.1 in
      AllSet-append (ops_of slots req) (batch_ops slots reqs)
        (block_ops-AllSet req.nops (req.offset / cblk_size) req.cmd (slots req.ri) req.ri is.cmd
          (omega (arith, nops_fit is, wide req.ri)))
        (batch_ops-AllSet disk_size (k + 1) (from + req.nops) reqs laid.1)

  pub batch_ops-IsIn :
      (disk_size m k from : ℕ) (reqs : List Bop)
      → Laid disk_size k from reqs
      → k + length reqs ≤ m
      → AllOps (IsIn m) (batch_ops slots reqs)
  unfolding batch_ops
  batch_ops-IsIn disk_size m k from [] laid le = tt
  batch_ops-IsIn disk_size m k from (req ∷ reqs) laid le =
      AllOps-append (IsIn m) (ops_of slots req) (batch_ops slots reqs)
        (block_ops-IsIn m req.nops (req.offset / cblk_size) req.cmd (slots req.ri) req.ri
          (omega (arith, laid.0.0, le)))
        (batch_ops-IsIn disk_size m (k + 1) (from + req.nops) reqs laid.1 (omega (arith, le)))

pub Both-split :
    {P : BlkOp → BlkOp → Type 0} (n : ℕ) (xs ys ops : List BlkOp)
    → length xs ≡ n
    → Both P (xs ++ ys) ops
    → Both P xs (take n ops) × Both P ys (drop n ops)
unfolding take drop
Both-split zero [] ys ops size both = (nil, both)
Both-split (suc n) [] ys ops size both = absurd (omega (arith, size))
Both-split zero (x ∷ xs) ys ops size both = absurd (omega (arith, size))
Both-split (suc n) (x ∷ xs) ys [] size both = elim both [ ]
Both-split (suc n) (x ∷ xs) ys (bo ∷ ops) size (cons _ _ _ _ p rest) =
    let (front, back) = Both-split n xs ys ops (omega (arith, size)) rest in
    (cons x bo xs (take n ops) p front, back)

pub drop-drop : (n m : ℕ) (ops : List BlkOp) → drop m (drop n ops) ≡ drop (n + m) ops
unfolding drop
drop-drop zero m ops = let e : 0 + m ≡ m = omega arith in rw e refl
drop-drop (suc n) zero [] = let e : suc n + 0 ≡ suc n = omega arith in rw e refl
drop-drop (suc n) (suc m) [] = let e : suc n + suc m ≡ suc (n + suc m) = omega arith in rw e refl
drop-drop (suc n) m (bo ∷ ops) =
    let e : suc n + m ≡ suc (n + m) = omega arith in rw e (drop-drop n m ops)
