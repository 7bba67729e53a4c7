-- ===== src/Store/Ranges/SaveRange.antt =====
-- `store_range`, from its parts.
use nbd_vram.Prelude.{
  ℕ, ◌+◌, ◌-◌, ◌*◌, ◌/◌, ◌%◌, ◌≤◌, ◌<◌, ◌≡◌, ◌⊎◌, inl, inr, refl, arith, ap, ◌∙◌, false, Bool-cases,
  eq_cases, ==_ne, [], ◌∷◌, ◌++◌, ◌==◌, ltb, length, take, drop, take-append-drop, take-length,
  length-take, length-drop, length-append,
}
use mathlib.Core.Path.{subst}
use nbd_vram.Heap.{cblk_size}
use nbd_vram.Codec.{Bytes, CodecKind, Library, IsLossless}
use nbd_vram.Store.{Store, rmw_block}
use nbd_vram.Store.IsStore.{IsStore}
use nbd_vram.Store.Ranges.{
  head_count, store_blocks, store_head, store_middle, store_tail, store_range,
}
use nbd_vram.Store.Ranges.Disk.{Wrote, Wrote-nothing, Wrote-append}
use nbd_vram.Store.Ranges.LoadRange.{head_aligned}
use nbd_vram.Store.Ranges.Save.{rmw-Wrote, Wrote-worse, store_windows_lem}

head_fits :
    (off n : ℕ)
    → (off % cblk_size ≡ 0 → head_count off n ≡ 0)
      × (off % cblk_size + head_count off n ≤ cblk_size)
head_fits off n = elim (eq_cases (off % cblk_size) 0) [
  | inl e ↦ rw e ((λ z. refl), omega arith)
  | inr ne ↦
      let test : (off % cblk_size == 0) ≡ false = ==_ne (off % cblk_size) 0 ne in
      rw test ((λ z. absurd (ne z)), ground arith)
]

append_assoc : (xs ys zs : Bytes) → (xs ++ ys) ++ zs ≡ xs ++ (ys ++ zs)
append_assoc [] ys zs = refl
append_assoc (x ∷ xs) ys zs = ap (λ l. x ∷ l) (append_assoc xs ys zs)

empty : (xs : Bytes) → length xs ≡ 0 → xs ≡ []
empty [] e = refl
empty (x ∷ xs) e = absurd (omega (arith, e))

module _ {lib : Library} {codec : CodecKind} (lossless : IsLossless lib) where
  store_head-Wrote :
      {st : Store} (off : ℕ) (src : Bytes)
      → (off % cblk_size ≡ 0 → src ≡ [])
      → off % cblk_size + length src ≤ cblk_size
      → IsStore lib codec st
      → Wrote lib codec st off src 0 (store_head lib codec off src st)
  unfolding store_head
  store_head-Wrote {st} off src none_here fits is = elim (eq_cases (off % cblk_size) 0) [
    | inl e ↦ rw (e, none_here e) (Wrote-nothing off 0 is)
    | inr ne ↦
        let test : (off % cblk_size == 0) ≡ false = ==_ne (off % cblk_size) 0 ne in
        rw test (rmw-Wrote lossless is off src fits)
  ]

  store_tail-Wrote :
      {st : Store} (err off : ℕ) (src : Bytes)
      → (length src ≡ 0) ⊎ (off % cblk_size ≡ 0)
      → length src < cblk_size
      → IsStore lib codec st
      → Wrote lib codec st off src err (store_tail lib codec err off src st)
  unfolding store_tail
  store_tail-Wrote {st} err off src aligned lt is = elim (eq_cases (length src) 0) [
    | inl e ↦ rw (e, empty src e) (Wrote-nothing off err is)
    | inr ne ↦
        let test : (length src == 0) ≡ false = ==_ne (length src) 0 ne in
        let zero_off : off % cblk_size ≡ 0 = ground (arith, aligned, ne) in
        let wrote =
          subst (λ z. Wrote lib codec st off src 0 (rmw_block lib codec st (off / cblk_size) z src))
            zero_off (rmw-Wrote lossless is off src (omega (arith, zero_off, lt))) in
        rw test (Wrote-worse err (rmw_block lib codec st (off / cblk_size) 0 src) wrote)
  ]

  module _ (maxops : ℕ) (pos : 1 ≤ maxops) where
    store_middle-Wrote :
        {st : Store} (err off : ℕ) (src : Bytes)
        → (length src ≡ 0) ⊎ (off % cblk_size ≡ 0)
        → length src % cblk_size ≡ 0
        → IsStore lib codec st
        → Wrote lib codec st off src err (store_middle lib codec maxops err off src st)
    unfolding store_middle
    store_middle-Wrote {st} err off src aligned whole is =
        elim (Bool-cases (ltb (length src) cblk_size)) [
          | inl test ↦
              let none_here : src ≡ [] = empty src (ground (arith, test, whole)) in
              rw (test, none_here) (Wrote-nothing off err is)
          | inr test ↦
              let nb = length src / cblk_size in
              let blk = off / cblk_size in
              let size : nb * cblk_size ≡ length src = omega (arith, whole) in
              let zero_off : off % cblk_size ≡ 0 = ground (arith, aligned, test) in
              let at : blk * cblk_size ≡ off = omega (arith, zero_off) in
              let all : take (nb * cblk_size) src ≡ src =
                ap (λ m. take m src) size ∙ take-length src in
              let r = store_blocks lib codec maxops blk src nb st in
              let wrote =
                store_windows_lem lossless maxops pos nb 0 blk src nb (omega arith)
                  (omega (arith, size)) is in
              rw test (
                Wrote-worse err r (
                  subst (λ x. Wrote lib codec st x src 0 r) at
                    (subst (λ l. Wrote lib codec st (blk * cblk_size) l 0 r) all wrote)))
        ]

    -- With libraries that give back what they compress and room for one op or more, a write of a byte range
    -- keeps the invariant, it changes no byte outside the range, and without an error each byte inside is
    -- the new one. With an error, which is `ENOSPC` or `EIO` and `EIO` only if some copy ever
    -- fails, each byte inside is the new one or the old one.
    pub store_range_lem :
        {st : Store}
        → IsStore lib codec st
        → (off : ℕ) (src : Bytes)
        → Wrote lib codec st off src 0 (store_range lib codec maxops off src st)
    unfolding store_range
    store_range_lem {st} is off src =
        let n = length src in
        let cnt = head_count off n in
        let (fits, aligned) = head_aligned off n in
        let src1 = drop cnt src in
        let whole = length src1 / cblk_size * cblk_size in
        let size0 : length (take cnt src) ≡ cnt = omega (arith, length-take cnt src, fits) in
        let size1 : length src1 ≡ n - cnt = length-drop cnt src in
        let size2 : length (take whole src1) ≡ whole = omega (arith, length-take whole src1) in
        let size3 : length (drop whole src1) ≡ length src1 - whole = length-drop whole src1 in
        let (none_here, inside) = head_fits off n in
        let r1 = store_head lib codec off (take cnt src) st in
        let head =
          store_head-Wrote off (take cnt src) (λ e. empty (take cnt src) (size0 ∙ none_here e))
            (rw size0 inside) is in
        let r2 = store_middle lib codec maxops r1.0 (off + cnt) (take whole src1) r1.1 in
        let middle : Wrote lib codec r1.1 (off + length (take cnt src)) (take whole src1) r1.0 r2 =
          rw size0 (
            store_middle-Wrote r1.0 (off + cnt) (take whole src1)
              (ground (arith, aligned, size1, size2)) (omega (arith, size2)) head.store) in
        let tail : Wrote lib codec r2.1 (off + length (take cnt src ++ take whole src1))
            (drop whole src1) r2.0
            (store_tail lib codec r2.0 (off + cnt + whole) (drop whole src1) r2.1) =
          let at : off + length (take cnt src ++ take whole src1) ≡ off + cnt + whole =
            omega (arith, length-append (take cnt src) (take whole src1), size0, size2) in
          rw at (
            store_tail-Wrote r2.0 (off + cnt + whole) (drop whole src1)
              (ground (arith, aligned, size1, size3)) (omega (arith, size3)) middle.store) in
        let all : (take cnt src ++ take whole src1) ++ drop whole src1 ≡ src =
          append_assoc (take cnt src) (take whole src1) (drop whole src1)
          ∙ ap (λ l. take cnt src ++ l) (take-append-drop whole src1)
          ∙ take-append-drop cnt src in
        subst (λ l. Wrote lib codec st off l 0 (store_range lib codec maxops off src st)) all
          (Wrote-append (Wrote-append head middle) tail)
