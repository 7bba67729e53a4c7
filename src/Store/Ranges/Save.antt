-- ===== src/Store/Ranges/Save.antt =====
-- The parts of `store_range`: partial blocks and windows of whole ones.
use nbd_vram.Prelude.{
  ℕ, zero, suc, ◌+◌, ◌-◌, ◌*◌, ◌/◌, ◌%◌, ◌≤◌, ◌<◌, ◌≡◌, ◌≢◌, ◌⊎◌, inl, inr, refl, arith, sym, ap,
  ◌∙◌, false, eq_cases, ==_ne, List, [], ◌∷◌, ◌++◌, some, ◌==◌, length, take, drop, length-take,
  length-drop, length-append, get_elem?, get_elem?-take, get_elem?-drop, get_elem?-append_left,
  get_elem?-append_right,
}
use mathlib.Core.Path.{subst}
use nbd_vram.Heap.{cblk_size}
use nbd_vram.Codec.{Bytes, CodecKind, Library, IsLossless}
use nbd_vram.Store.{Store, overlay, rmw_block}
use nbd_vram.Store.IsStore.{page_at, IsStore}
use nbd_vram.Store.Publish.{Replaced}
use nbd_vram.Store.Keeps.{Unchanged}
use nbd_vram.Store.Rmw.{page_at-whole, overlaid, heap_full, copy_failed, rmw_block_lem}
use nbd_vram.Store.Ranges.{write_ops, run, window, worse, worst, store_windows}
use nbd_vram.Store.Ranges.Fixed.{fixed, rmw_block-fixed}
use nbd_vram.Store.Ranges.Disk.{
  in_page, disk, Reported, Reported-worse, worse_ne, Wrote, Wrote-nothing, Wrote-append,
}
use nbd_vram.Store.Ranges.Window.{window-Wrote}
use nbd_vram.Store.Ranges.LoadRange.{window_le}

take_add : {A : Type 0} (n m : ℕ) (xs : List A) → take n xs ++ take m (drop n xs) ≡ take (n + m) xs
unfolding take drop
take_add zero m xs = let e : 0 + m ≡ m = omega arith in rw e refl
take_add (suc n) zero [] = let e : suc n + 0 ≡ suc n = omega arith in rw e refl
take_add (suc n) (suc m) [] = let e : suc n + suc m ≡ suc (n + suc m) = omega arith in rw e refl
take_add (suc n) m (x ∷ xs) =
    let e : suc n + m ≡ suc (n + m) = omega arith in rw e (ap (λ l. x ∷ l) (take_add n m xs))

module _ (page src : Bytes) (boff : ℕ) (whole : length page ≡ cblk_size)
    (fits : boff + length src ≤ cblk_size) where
  abbrev front : Bytes
  front = take boff page

  front_size : length (take boff page) ≡ boff
  front_size = omega (arith, length-take boff page, whole, fits)

  both_size : length (take boff page ++ src) ≡ boff + length src
  both_size = omega (arith, length-append (take boff page) src, front_size)

  overlay_inside :
      (i : ℕ) → i < length src → get_elem? (overlay page boff src) (boff + i) ≡ get_elem? src i
  overlay_inside i lt =
      let here : length (take boff page) + i ≡ boff + i = omega (arith, front_size) in
      get_elem?-append_left (take boff page ++ src) (drop (boff + length src) page) (boff + i)
        (omega (arith, both_size, lt))
      ∙ ap (get_elem? (take boff page ++ src)) (sym here)
      ∙ get_elem?-append_right (take boff page) src i

  overlay_outside :
      (i : ℕ)
      → (i < boff) ⊎ (boff + length src ≤ i)
      → get_elem? (overlay page boff src) i ≡ get_elem? page i
  overlay_outside i (inl near) =
      get_elem?-append_left (take boff page ++ src) (drop (boff + length src) page) i
        (omega (arith, both_size, near))
      ∙ get_elem?-append_left (take boff page) src i (omega (arith, front_size, near))
      ∙ get_elem?-take boff page i near
  overlay_outside i (inr far) =
      let j = i - (boff + length src) in
      let here : length (take boff page ++ src) + j ≡ i = omega (arith, both_size, far) in
      let back : boff + length src + j ≡ i = omega (arith, far) in
      ap (get_elem? (overlay page boff src)) (sym here)
      ∙ get_elem?-append_right (take boff page ++ src) (drop (boff + length src) page) j
      ∙ get_elem?-drop (boff + length src) page j
      ∙ ap (get_elem? page) back

away_byte :
    (blk boff n a : ℕ)
    → blk ≡ a / cblk_size
    → (a < blk * cblk_size + boff) ⊎ (blk * cblk_size + boff + n ≤ a)
    → (a % cblk_size < boff) ⊎ (boff + n ≤ a % cblk_size)
away_byte blk boff n a e (inl out) = inl (omega (arith, e, out))
away_byte blk boff n a e (inr out) = inr (omega (arith, e, out))

module _ {lib : Library} {codec : CodecKind} where
  nothing :
      {st : Store} (err blk : ℕ) (src : Bytes)
      → IsStore lib codec st
      → Wrote lib codec st (blk * cblk_size) (take (0 * cblk_size) src) err (err, st)
  unfolding take
  nothing err blk src is = Wrote-nothing (blk * cblk_size) err is

  Unchanged-Wrote :
      {st : Store} (off : ℕ) (src : Bytes) (r : ℕ × Store)
      → fixed r.1 ≡ fixed st
      → Unchanged lib codec st r.1
      → r.0 ≢ 0
      → Reported st r.0
      → Wrote lib codec st off src 0 r
  unfolding disk
  Unchanged-Wrote off src r same kept ne why = record {
    store = kept.store;
    same = same;
    outside = λ a out. ap (λ p. in_page p (a % cblk_size)) (kept.pages (a / cblk_size));
    inside = λ i lt.
        inr (ne, ap (λ p. in_page p ((off + i) % cblk_size)) (kept.pages ((off + i) / cblk_size)));
    sticks = λ z. ne;
    why = λ p. why;
  }

  Replaced-Wrote :
      {st : Store} (is : IsStore lib codec st) (blk boff : ℕ) (src page : Bytes) (r : ℕ × Store)
      → boff + length src ≤ cblk_size
      → page_at lib codec st blk ≡ some page
      → fixed r.1 ≡ fixed st
      → r.0 ≡ 0
      → Replaced lib codec st blk (overlay page boff src) r.1
      → Wrote lib codec st (blk * cblk_size + boff) src 0 r
  unfolding disk
  Replaced-Wrote {st} is blk boff src page r fits at same ok now =
      let (page1, at1, size1) = page_at-whole is blk in
      let same_page : page1 ≡ page = ground (arith, at, at1) in
      let whole : length page ≡ cblk_size = ap length (sym same_page) ∙ size1 in
      record {
        store = now.store;
        same = same;
        outside = λ a out. elim (eq_cases blk (a / cblk_size)) [
          | inl e ↦
              let away : (a % cblk_size < boff) ⊎ (boff + length src ≤ a % cblk_size) =
                away_byte blk boff (length src) a e out in
              rw (← e, now.here, at) (overlay_outside page src boff whole fits (a % cblk_size) away)
          | inr ne ↦ ap (λ p. in_page p (a % cblk_size)) (now.others (a / cblk_size) ne)
        ];
        inside = λ i lt.
            let block : (blk * cblk_size + boff + i) / cblk_size ≡ blk = omega (arith, lt, fits) in
            let byte : (blk * cblk_size + boff + i) % cblk_size ≡ boff + i =
              omega (arith, lt, fits) in
            inl (rw (block, byte, now.here) (overlay_inside page src boff whole fits i lt));
        sticks = λ z. absurd (z refl);
        why = λ p. inl ok;
      }

  pub rmw-Wrote :
      {st : Store}
      → IsLossless lib
      → IsStore lib codec st
      → (off : ℕ) (src : Bytes) → off % cblk_size + length src ≤ cblk_size
      → Wrote lib codec st off src 0
          (rmw_block lib codec st (off / cblk_size) (off % cblk_size) src)
  rmw-Wrote {st} lossless is off src fits =
      let blk = off / cblk_size in
      let boff = off % cblk_size in
      let r = rmw_block lib codec st blk boff src in
      let at : blk * cblk_size + boff ≡ off = omega arith in
      let same = rmw_block-fixed lib codec st blk boff src in
      elim (rmw_block_lem lossless is blk boff src fits) [
        | overlaid page here ok now ↦
            subst (λ x. Wrote lib codec st x src 0 r) at
              (Replaced-Wrote is blk boff src page r fits here same ok now)
        | heap_full page here e full kept ↦
            Unchanged-Wrote off src r same kept (omega (arith, e)) (inr (inl e))
        | copy_failed e (inl l) kept ↦
            Unchanged-Wrote off src r same kept (omega (arith, e))
              (inr (inr (e, (st.copies_done, l))))
        | copy_failed e (inr l) kept ↦
            Unchanged-Wrote off src r same kept (omega (arith, e))
              (inr (inr (e, (st.copies_done + 1, l))))
      ]

  -- A write behind an error.
  pub Wrote-worse :
      {st : Store} {off : ℕ} {src : Bytes} (err : ℕ) (r : ℕ × Store)
      → Wrote lib codec st off src 0 r
      → Wrote lib codec st off src err (worse err r.0, r.1)
  Wrote-worse {st} err r w = record {
    store = w.store;
    same = w.same;
    outside = w.outside;
    inside = λ i lt. elim (w.inside i lt) [
      | inl new ↦ inl new
      | inr (e, old) ↦ inr (worse_ne err r.0 (inr e), old)
    ];
    sticks = λ ne. worse_ne err r.0 (inl ne);
    why = λ p. Reported-worse st err r.0 p (w.why (inl refl));
  }

  module _ (lossless : IsLossless lib) (maxops : ℕ) (pos : 1 ≤ maxops) where
    pub store_windows_lem :
        (windows err blk : ℕ) (src : Bytes) (n : ℕ) {st : Store}
        → n ≤ windows
        → n * cblk_size ≤ length src
        → IsStore lib codec st
        → Wrote lib codec st
            (blk * cblk_size)
            (take (n * cblk_size) src)
            err
            (store_windows lib codec maxops windows err blk src n st)
    unfolding store_windows
    store_windows_lem zero err blk src n {st} le size is =
        let none_left : n ≡ 0 = omega (arith, le) in
        subst (λ m. Wrote lib codec st (blk * cblk_size) (take (m * cblk_size) src) err (err, st))
          (sym none_left) (nothing err blk src is)
    store_windows_lem (suc windows) err blk src n {st} le size is = elim (eq_cases n 0) [
      | inl e ↦ rw e (nothing err blk src is)
      | inr ne ↦
          let test : (n == 0) ≡ false = ==_ne n 0 ne in
          let k = window maxops n in
          let (some_done, fits) = window_le maxops n pos ne in
          let first = window-Wrote lossless is k blk err src (omega (arith, fits, size)) in
          let src1 = drop (k * cblk_size) src in
          let at : (blk + k) * cblk_size ≡ blk * cblk_size + length (take (k * cblk_size) src) =
            omega (arith, length-take (k * cblk_size) src, fits, size) in
          let sum : k * cblk_size + (n - k) * cblk_size ≡ n * cblk_size = omega (arith, fits) in
          let all : take (k * cblk_size) src ++ take ((n - k) * cblk_size) src1
              ≡ take (n * cblk_size) src =
            take_add (k * cblk_size) ((n - k) * cblk_size) src ∙ ap (λ m. take m src) sum in
          let rest =
            store_windows_lem windows (worst err (run lib codec (write_ops blk src k) st).0)
              (blk + k) src1 (n - k) (omega (arith, le, some_done))
              (omega (arith, size, fits, length-drop (k * cblk_size) src)) first.store in
          rw (test, ← all) (Wrote-append first (rw (← at) rest))
    ]
