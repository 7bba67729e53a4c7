-- ===== src/Store/Rmw.antt =====
-- `rmw_block` (nbd-vram.c), on every outcome.
use mathlib.Core.Path.{subst}
use nbd_vram.Prelude.{
  ℕ, ◌+◌, ◌*◌, ◌≤◌, ◌<◌, ◌≡◌, ◌⊎◌, inl, inr, refl, arith, true, false, ◌++◌, Option, none, some,
  ◌==◌, length, take, drop, length-take, length-drop, length-append, length-replicate, eq_cases,
  Bool-cases, sym, ◌∙◌, ==_ne,
}
use nbd_vram.Heap.{Heap, slot_alloc, slot_free, slot_none, alloc_grain, cblk_size}
use nbd_vram.Heap.IsValid.{IsValid}
use nbd_vram.Heap.Regions.{size_at}
use nbd_vram.Heap.Alloc.{Allocated, Refused, slot_alloc_lem}
use nbd_vram.Heap.Free.{slot_free_lem}
use nbd_vram.Entry.{ent_clen}
use nbd_vram.Codec.{Bytes, CodecKind, Library, IsLossless, comp_block}
use nbd_vram.Codec.RoundTrip.{IsStored, comp_block-IsStored}
use nbd_vram.Store.{
  Store, eio, enospc, zeros, overlay, rd_block_locked, rmw_store, rmw_with, rmw_block,
  copy_to_device, copy_from_device,
}
use nbd_vram.Store.IsStore.{page_at, IsStore}
use nbd_vram.Store.Keeps.{Unchanged, IsStore-Unchanged}
use nbd_vram.Store.Publish.{Replaced}
use nbd_vram.Store.Replace.{replace_lem}

-- Why a write came to nothing: every extent is in use and none that would do has a free slot, or one
-- of the copies failed.
pub record Full (h : Heap) (nbytes : ℕ) : Type 0 where
  pub all_used : (e : ℕ) → e < h.n_extents → (h.ext e).used ≡ true
  pub all_full :
      (e : ℕ) → e < h.n_extents → nbytes ≤ ((h.ext e).cls + 1) * alloc_grain → (h.ext e).nfree ≡ 0

abbrev pub Reason : (lib : Library) → CodecKind → Store → Bytes → (err : ℕ) → Type 0
Reason lib codec st scratch err =
    ((err ≡ enospc) × Full st.heap (comp_block lib codec scratch).0)
    ⊎ ((err ≡ eio) × (st.copies st.copies_done ≡ false))

abbrev pub StoreOutcome :
    (lib : Library) → CodecKind → Store → (blk : ℕ) → Bytes → ℕ × Store → Type 0
StoreOutcome lib codec st blk scratch r =
    ((r.0 ≡ 0) × Replaced lib codec st blk scratch r.1)
    ⊎ (Reason lib codec st scratch r.0 × Unchanged lib codec st r.1)

module _ {lib : Library} {codec : CodecKind} (lossless : IsLossless lib) {st : Store}
    (is : IsStore lib codec st) (blk : ℕ) (scratch : Bytes)
    (whole : length scratch ≡ cblk_size) where
  -- The slot given back after a copy that failed leaves the slots as they were.
  given_back :
      (n : ℕ) (r : ℕ × ℕ × Heap)
      → 0 < n
      → IsValid r.2
      → Allocated st.heap n r
      → (g : ℕ) → size_at (slot_free r.2 r.0).1 g ≡ size_at st.heap g
  given_back n r pos valid got g =
      let freed = slot_free_lem valid r.0 (omega (arith, got.size, got.enough)) in
      elim (eq_cases r.0 g) [
        | inl e ↦ rw (← e) (freed.gone ∙ sym got.was_free)
        | inr ne ↦ freed.others g ne ∙ got.others g ne
      ]

  taken_lem :
      (p : ℕ × Bytes) (r : ℕ × ℕ × Heap)
      → comp_block lib codec scratch ≡ p
      → slot_alloc st.heap p.0 ≡ r
      → IsStored lib codec scratch p
      → IsValid r.2
      → Allocated st.heap p.0 r
      → StoreOutcome lib codec st blk scratch (rmw_store lib codec st blk scratch)
  unfolding rmw_store copy_to_device
  taken_lem (n, bytes) (grain, size, heap) ep er packed valid got =
      let found : (grain == slot_none) ≡ false =
        ground (arith, got.inside, is.heap.shaped.room, got.size, got.enough, packed.pos) in
      elim (Bool-cases (st.copies st.copies_done)) [
        | inl sent ↦
            rw (rmw_store, ep, er, found, sent)
              (inl (
                refl,
                replace_lem is blk (st.copies_done + 1) n scratch bytes whole packed
                    (grain, size, heap) valid got,
              ))
        | inr lost ↦
            rw (rmw_store, ep, er, found, lost)
              (inr (
                inr (refl, refl),
                IsStore-Unchanged is
                    (slot_free_lem valid grain
                      (omega (arith, got.size, got.enough, packed.pos))).valid
                    (record {
                      index = λ b. refl;
                      bytes = λ g n live le. refl;
                      sizes = λ g live. given_back n (grain, size, heap) packed.pos valid got g;
                    }),
              ))
      ]

  refused_lem :
      (p : ℕ × Bytes)
      → comp_block lib codec scratch ≡ p
      → Refused st.heap p.0 (slot_alloc st.heap p.0)
      → StoreOutcome lib codec st blk scratch (rmw_store lib codec st blk scratch)
  unfolding rmw_store
  refused_lem (n, bytes) ep miss =
      rw (rmw_store, ep, miss.result)
        (inr (
          inl (refl, record { all_used = miss.all_used; all_full = miss.all_full }),
          IsStore-Unchanged is is.heap
              (record { index = λ b. refl; bytes = λ g n live le. refl; sizes = λ g live. refl }),
        ))

  pub rmw_store_lem : StoreOutcome lib codec st blk scratch (rmw_store lib codec st blk scratch)
  rmw_store_lem =
      let packed = comp_block-IsStored lossless scratch whole codec in
      let n : ℕ = (comp_block lib codec scratch).0 in
      let (valid, cases) = slot_alloc_lem st.heap n is.heap packed.pos packed.le in
      elim cases [
        | inl got ↦
            taken_lem (comp_block lib codec scratch) (slot_alloc st.heap n) refl refl packed valid
              got
        | inr miss ↦ refused_lem (comp_block lib codec scratch) refl miss
      ]

-- The state after one more copy from the device.
abbrev copied : Store → Store
copied st = record st { copies_done = st.copies_done + 1 }

copied-Unchanged :
    {lib : Library} {codec : CodecKind} {st : Store}
    → IsStore lib codec st
    → Unchanged lib codec st (copied st)
copied-Unchanged is =
    IsStore-Unchanged is is.heap
      (record { index = λ b. refl; bytes = λ g n live le. refl; sizes = λ g live. refl })

-- What a partial write comes to: the block read with the new bytes laid over the page that it had, or
-- an error with every block as it was, where the error is `ENOSPC` or a copy that failed.
pub data RmwOutcome (lib : Library) (codec : CodecKind) (st : Store) (blk boff : ℕ) (src : Bytes)
    (r : ℕ × Store) : Type 0 where
  overlaid :
      (page : Bytes)
      → page_at lib codec st blk ≡ some page
      → r.0 ≡ 0
      → Replaced lib codec st blk (overlay page boff src) r.1
      → RmwOutcome lib codec st blk boff src r
  heap_full :
      (page : Bytes)
      → page_at lib codec st blk ≡ some page
      → r.0 ≡ enospc
      → Full st.heap (comp_block lib codec (overlay page boff src)).0
      → Unchanged lib codec st r.1
      → RmwOutcome lib codec st blk boff src r
  copy_failed :
      r.0 ≡ eio
      → (st.copies st.copies_done ≡ false) ⊎ (st.copies (st.copies_done + 1) ≡ false)
      → Unchanged lib codec st r.1
      → RmwOutcome lib codec st blk boff src r

-- Every block reads as a page.
pub page_at-whole :
    {lib : Library} {codec : CodecKind} {st : Store}
    → IsStore lib codec st
    → (blk : ℕ)
    → (page : Bytes) × (page_at lib codec st blk ≡ some page) × (length page ≡ cblk_size)
unfolding page_at
page_at-whole {st = st} is blk = elim (eq_cases (ent_clen (st.index blk)) 0) [
  | inl fresh ↦ rw fresh (zeros, refl, length-replicate cblk_size 0)
  | inr written ↦
      let was = is.held blk written in
      let test : (ent_clen (st.index blk) == 0) ≡ false =
        ==_ne (ent_clen (st.index blk)) 0 written in
      rw test (was.page, was.back, was.whole)
]

length-overlay :
    (page : Bytes) (boff : ℕ) (src : Bytes)
    → length page ≡ cblk_size
    → boff + length src ≤ cblk_size
    → length (overlay page boff src) ≡ cblk_size
length-overlay page boff src whole fits =
    length-append (take boff page ++ src) (drop (boff + length src) page)
    ∙ omega (
      arith,
      length-append (take boff page) src,
      length-take boff page,
      length-drop (boff + length src) page,
    )

-- What a read of one block under its lock comes to: the page that it has, or an error where the copy
-- failed. The blocks stay as they are.
abbrev pub ReadOutcome :
    (lib : Library) → CodecKind → Store → (blk : ℕ) → Option Bytes × Store → Type 0
ReadOutcome lib codec st blk r =
    (((page : Bytes) × (page_at lib codec st blk ≡ some page)
        × (length page ≡ cblk_size)
        × (r.0 ≡ some page))
      ⊎ ((r.0 ≡ none) × (st.copies st.copies_done ≡ false)))
    × ((r.1 ≡ st) ⊎ (r.1 ≡ copied st))

module _ {lib : Library} {codec : CodecKind} {st : Store} (is : IsStore lib codec st)
    (blk : ℕ) where
  -- `rd_block_locked` returns the page that the block has, of 4096 bytes, or an error if the copy from
  -- the device fails; the state stays the same but for the count of copies.
  pub rd_block_locked_lem : ReadOutcome lib codec st blk (rd_block_locked lib codec st blk)
  unfolding rd_block_locked copy_from_device page_at
  rd_block_locked_lem = elim (eq_cases (ent_clen (st.index blk)) 0) [
    | inl fresh ↦
        rw (rd_block_locked, page_at, fresh)
          (inl (zeros, refl, length-replicate cblk_size 0, refl), inl refl)
    | inr written ↦
        let was = is.held blk written in
        let test : (ent_clen (st.index blk) == 0) ≡ false =
          ==_ne (ent_clen (st.index blk)) 0 written in
        elim (Bool-cases (st.copies st.copies_done)) [
          | inl sent ↦
              rw (rd_block_locked, page_at, test, sent)
                (inl (was.page, was.back, was.whole, was.back), inr refl)
          | inr lost ↦ rw (rd_block_locked, page_at, test, lost) (inr (refl, refl), inr refl)
        ]
  ]

module _ {lib : Library} {codec : CodecKind} (lossless : IsLossless lib) {st : Store}
    (is : IsStore lib codec st) (blk boff : ℕ) (src : Bytes)
    (fits : boff + length src ≤ cblk_size) where
  Unchanged-trans :
      {s1 s2 : Store}
      → Unchanged lib codec st s1
      → Unchanged lib codec s1 s2
      → Unchanged lib codec st s2
  Unchanged-trans one two = record { store = two.store; pages = λ b. two.pages b ∙ one.pages b }

  then_store :
      (page : Bytes) (st1 : Store)
      → page_at lib codec st blk ≡ some page
      → length page ≡ cblk_size
      → Unchanged lib codec st st1
      → st1.heap ≡ st.heap
      → (st1.copies st1.copies_done ≡ false
          → (st.copies st.copies_done ≡ false) ⊎ (st.copies (st.copies_done + 1) ≡ false))
      → RmwOutcome lib codec st blk boff src (rmw_store lib codec st1 blk (overlay page boff src))
  then_store page st1 at whole kept same_heap why =
      let new : Bytes = overlay page boff src in
      elim (rmw_store_lem lossless kept.store blk new (length-overlay page boff src whole fits)) [
        | inl (ok, now) ↦ overlaid page at ok (record {
          store = now.store;
          here = now.here;
          others = λ b ne. now.others b ne ∙ kept.pages b;
        })
        | inr (inl (e, full), same) ↦
            heap_full page at e (subst (λ h. Full h (comp_block lib codec new).0) same_heap full)
              (Unchanged-trans kept same)
        | inr (inr (e, lost), same) ↦ copy_failed e (why lost) (Unchanged-trans kept same)
      ]

  then_rmw :
      (r : Option Bytes × Store)
      → ReadOutcome lib codec st blk r
      → RmwOutcome lib codec st blk boff src (rmw_with lib codec blk boff src r)
  unfolding rmw_with
  then_rmw (none, st1) (inl (page, at, whole, has), same) = absurd (ground (arith, has))
  then_rmw (none, st1) (inr (has, lost), inl same) =
      copy_failed refl (inl lost) (rw same (record { store = is; pages = λ b. refl }))
  then_rmw (none, st1) (inr (has, lost), inr same) =
      copy_failed refl (inl lost) (rw same (copied-Unchanged is))
  then_rmw (some got, st1) (inr (has, lost), same) = absurd (ground (arith, has))
  then_rmw (some got, st1) (inl (page, at, whole, has), inl same) =
      let has_page : got ≡ page = ground (arith, has) in
      rw (has_page, same)
        (then_store page st at whole (record { store = is; pages = λ b. refl }) refl
          (λ lost. inl lost))
  then_rmw (some got, st1) (inl (page, at, whole, has), inr same) =
      let has_page : got ≡ page = ground (arith, has) in
      rw (has_page, same)
        (then_store page (copied st) at whole (copied-Unchanged is) refl (λ lost. inr lost))

  -- For bytes inside one block `rmw_block` keeps the store's invariant and leaves every other block as
  -- it was. It returns 0 and the block reads as its old page with the bytes laid over it, or
  -- `ENOSPC` when the heap has no slot for the new page, or `EIO` when a copy failed; with an error
  -- the block too is as it was.
  pub rmw_block_lem : RmwOutcome lib codec st blk boff src (rmw_block lib codec st blk boff src)
  unfolding rmw_block
  rmw_block_lem = then_rmw (rd_block_locked lib codec st blk) (rd_block_locked_lem is blk)

-- Every outcome keeps the invariant.
pub rmw-IsStore :
    {lib : Library} {codec : CodecKind} {st : Store} {blk boff : ℕ} {src : Bytes} {r : ℕ × Store}
    → RmwOutcome lib codec st blk boff src r
    → IsStore lib codec r.1
rmw-IsStore (overlaid page at ok now) = now.store
rmw-IsStore (heap_full page at e full kept) = kept.store
rmw-IsStore (copy_failed e lost kept) = kept.store
