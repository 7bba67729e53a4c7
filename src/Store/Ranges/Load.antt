-- ===== src/Store/Ranges/Load.antt =====
-- What a read of a range gives, and one window of `load_blocks`.
use nbd_vram.Prelude.{
  ℕ, zero, suc, ◌+◌, ◌-◌, ◌*◌, ◌/◌, ◌%◌, ◌<◌, ◌≡◌, inl, inr, refl, arith, sym, ap, ◌∙◌, List, [],
  ◌++◌, Option, none, some, length, length-append, get_elem?, get_elem?-append_left,
  get_elem?-append_right,
}
use nbd_vram.Heap.{cblk_size}
use nbd_vram.Codec.{Bytes, CodecKind, Library, IsLossless}
use nbd_vram.Store.{Store, BlkOp}
use nbd_vram.Store.IsStore.{page_at, IsStore}
use nbd_vram.Store.Rmw.{page_at-whole}
use nbd_vram.Store.Blocks.Ready.{Plain, Both, nil, cons}
use nbd_vram.Store.Blocks.Issue.{SomeLost}
use nbd_vram.Store.Blocks.Commit.{written}
use nbd_vram.Store.Blocks.Sets.{Outcome, read_done, write_done, copy_lost, no_room}
use nbd_vram.Store.Ranges.{read_ops, pages_of, run, and_then}
use nbd_vram.Store.Ranges.Fixed.{fixed, run-fixed}
use nbd_vram.Store.Ranges.Disk.{in_page, disk, SomeLost-fixed, lt_or_le}
use nbd_vram.Store.Ranges.Window.{run_lem, read_ops-AllSet}

-- What a read of `n` bytes at `off` gives: those bytes of the disk, or nothing if a copy fails.
pub data Got (lib : Library) (codec : CodecKind) (st : Store) (off n : ℕ) (o : Option Bytes)
    : Type 0 where
  lost : o ≡ none → SomeLost st → Got lib codec st off n o
  got :
      (bytes : Bytes)
      → o ≡ some bytes
      → length bytes ≡ n
      → ((i : ℕ) → i < n → get_elem? bytes i ≡ disk lib codec st (off + i))
      → Got lib codec st off n o

-- The same, and no byte of the disk changed.
pub record Loaded (lib : Library) (codec : CodecKind) (st : Store) (off n : ℕ)
    (r : Option Bytes × Store) : Type 0 where
  pub store : IsStore lib codec r.1
  pub same : fixed r.1 ≡ fixed st
  pub kept : (a : ℕ) → disk lib codec r.1 a ≡ disk lib codec st a
  pub result : Got lib codec st off n r.0

module _ {lib : Library} {codec : CodecKind} where
  pub Got-nothing : {st : Store} (off : ℕ) → Got lib codec st off 0 (some [])
  Got-nothing off = got [] refl refl (λ i lt. absurd (omega (arith, lt)))

  pub Loaded-nothing :
      {st : Store} (off : ℕ) → IsStore lib codec st → Loaded lib codec st off 0 (some [], st)
  Loaded-nothing off is = record {
    store = is;
    same = refl;
    kept = λ a. refl;
    result = Got-nothing off;
  }

  pub Got-append :
      {st : Store} {off n m : ℕ} (xs ys : Bytes)
      → length xs ≡ n
      → ((i : ℕ) → i < n → get_elem? xs i ≡ disk lib codec st (off + i))
      → length ys ≡ m
      → ((i : ℕ) → i < m → get_elem? ys i ≡ disk lib codec st (off + n + i))
      → Got lib codec st off (n + m) (some (xs ++ ys))
  Got-append {st} {off} {n} {m} xs ys size_x bytes_x size_y bytes_y =
      got (xs ++ ys) refl (omega (arith, size_x, size_y, length-append xs ys)) (λ i lt.
        elim (lt_or_le i n) [
          | inl near ↦ get_elem?-append_left xs ys i (omega (arith, near, size_x)) ∙ bytes_x i near
          | inr far ↦
              let j = i - n in
              let at : off + n + j ≡ off + i = omega (arith, far) in
              let here : length xs + j ≡ i = omega (arith, far, size_x) in
              ap (get_elem? (xs ++ ys)) (sym here)
              ∙ get_elem?-append_right xs ys j
              ∙ bytes_y j (omega (arith, lt, far))
              ∙ ap (disk lib codec st) at
        ])

  -- Two reads one behind the other.
  pub Loaded-append :
      {st : Store} {off n m : ℕ} (o : Option Bytes) (st1 : Store) (r : Option Bytes × Store)
      → Loaded lib codec st off n (o, st1)
      → Loaded lib codec st1 (off + n) m r
      → Loaded lib codec st off (n + m) (and_then o r st1)
  Loaded-append none st1 r a b = record {
    store = a.store;
    same = a.same;
    kept = a.kept;
    result = elim a.result [
      | lost e why ↦ lost refl why
      | got bytes e size at ↦ absurd (ground (arith, e))
    ];
  }
  Loaded-append {st} (some xs) st1 (none, st2) a b = record {
    store = b.store;
    same = b.same ∙ a.same;
    kept = λ x. b.kept x ∙ a.kept x;
    result = elim b.result [
      | lost e why ↦ lost refl (SomeLost-fixed st st1 a.same why)
      | got bytes e size at ↦ absurd (ground (arith, e))
    ];
  }
  Loaded-append {st} {off} {n} {m} (some xs) st1 (some ys, st2) a b = record {
    store = b.store;
    same = b.same ∙ a.same;
    kept = λ x. b.kept x ∙ a.kept x;
    result = elim a.result [
      | lost e why ↦ absurd (ground (arith, e))
      | got bytes e size at ↦ elim b.result [
        | lost e1 why ↦ absurd (ground (arith, e1))
        | got bytes1 e1 size1 at1 ↦
            let same_x : bytes ≡ xs = ground (arith, e) in
            let same_y : bytes1 ≡ ys = ground (arith, e1) in
            Got-append xs ys (ap length (sym same_x) ∙ size)
              (λ i lt. ap (λ l. get_elem? l i) (sym same_x) ∙ at i lt)
              (ap length (sym same_y) ∙ size1)
              (λ i lt. ap (λ l. get_elem? l i) (sym same_y) ∙ at1 i lt ∙ a.kept (off + n + i))
      ]
    ];
  }

  module _ {st : Store} (is : IsStore lib codec st) where
    -- Reads write nothing.
    reads_write :
        (n blk b : ℕ) (ops : List BlkOp) (old : Option Bytes)
        → Both (Outcome lib codec Plain st) (read_ops blk n) ops
        → written ops b old ≡ old
    unfolding read_ops
    reads_write zero blk b ops old nil = refl
    reads_write (suc n) blk b ops old (cons inp bo inps ops1 (read_done r cmd err page) more) =
        let rest = reads_write n (blk + 1) b ops1 old more in rw cmd rest
    reads_write (suc n) blk b ops old (cons inp bo inps ops1 (copy_lost cmd err why) more) =
        let rest = reads_write n (blk + 1) b ops1 old more in rw cmd rest
    reads_write (suc n) blk b ops old
          (cons inp bo inps ops1 (write_done w goes err blk1 page may) more) =
        absurd (omega (arith, w))
    reads_write (suc n) blk b ops old (cons inp bo inps ops1 (no_room w cmd slot left) more) =
        absurd (omega (arith, w))

    pub block_bytes :
        (blk : ℕ) (page : Bytes)
        → page_at lib codec st blk ≡ some page
        → (length page ≡ cblk_size)
          × ((i : ℕ) → i < cblk_size → get_elem? page i ≡ disk lib codec st (blk * cblk_size + i))
    unfolding disk
    block_bytes blk page at =
        let (page1, at1, whole) = page_at-whole is blk in
        let same : page1 ≡ page = ground (arith, at, at1) in
        (
          ap length (sym same) ∙ whole,
          λ i lt.
              let block : (blk * cblk_size + i) / cblk_size ≡ blk = omega (arith, lt) in
              let byte : (blk * cblk_size + i) % cblk_size ≡ i = omega (arith, lt) in
              rw (block, byte, at) refl,
        )

    pages-Got :
        (n blk : ℕ) (ops : List BlkOp)
        → Both (Outcome lib codec Plain st) (read_ops blk n) ops
        → Got lib codec st (blk * cblk_size) (n * cblk_size) (pages_of ops)
    unfolding read_ops pages_of
    pages-Got zero blk ops nil = Got-nothing (blk * cblk_size)
    pages-Got (suc n) blk ops (cons inp bo inps ops1 (copy_lost cmd err why) more) =
        lost (rw err refl) why
    pages-Got (suc n) blk ops (cons inp bo inps ops1 (write_done w goes err blk1 page may) more) =
        absurd (omega (arith, w))
    pages-Got (suc n) blk ops (cons inp bo inps ops1 (no_room w cmd slot left) more) =
        absurd (omega (arith, w))
    pages-Got (suc n) blk ops (cons inp bo inps ops1 (read_done r cmd err page) more) =
        elim (pages-Got n (blk + 1) ops1 more) [
          | lost e why ↦ lost (rw (err, e) refl) why
          | got bytes e size at ↦
              let (whole, here) = block_bytes blk bo.page page in
              let next : (blk + 1) * cblk_size ≡ blk * cblk_size + cblk_size = omega arith in
              let all : cblk_size + n * cblk_size ≡ suc n * cblk_size = omega arith in
              rw (err, e, ← all)
                (Got-append bo.page bytes whole here size (λ i lt. rw (← next) (at i lt)))
        ]

    pub window-Loaded :
        IsLossless lib
        → (n blk : ℕ)
        → Loaded lib codec st
            (blk * cblk_size)
            (n * cblk_size)
            (pages_of (run lib codec (read_ops blk n) st).0, (run lib codec (read_ops blk n) st).1)
    unfolding disk
    window-Loaded lossless n blk =
        let inps = read_ops blk n in
        let all = run_lem lossless is inps (read_ops-AllSet n blk) in
        let ops = (run lib codec inps st).0 in
        record {
          store = all.store;
          same = run-fixed lib codec inps st;
          kept = λ a.
              let b = a / cblk_size in
              ap (λ p. in_page p (a % cblk_size))
                (all.pages b ∙ reads_write n blk b ops _ all.ended);
          result = pages-Got n blk ops all.ended;
        }
