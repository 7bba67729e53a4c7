-- ===== src/Store/Ranges/LoadRange.antt =====
-- `load_blocks` and `load_range`, from their windows and parts.
use nbd_vram.Prelude.{
  ℕ, zero, suc, ◌+◌, ◌-◌, ◌*◌, ◌/◌, ◌%◌, ◌≤◌, ◌<◌, ◌≡◌, ◌≢◌, ◌⊎◌, inl, inr, refl, arith, sym, ap,
  ◌∙◌, false, Bool-cases, eq_cases, ==_ne, Option, none, some, ◌==◌, ltb, if◌then◌else◌, length,
  take, drop, length-take, length-drop, get_elem?, get_elem?-take, get_elem?-drop,
}
use mathlib.Core.Path.{subst}
use nbd_vram.Heap.{cblk_size}
use nbd_vram.Codec.{Bytes, CodecKind, Library, IsLossless}
use nbd_vram.Store.{Store}
use nbd_vram.Store.IsStore.{IsStore}
use nbd_vram.Store.Ranges.{
  window, head_count, and_then, part, load_windows, load_blocks, load_head, load_middle, load_tail,
  load_range,
}
use nbd_vram.Store.Ranges.Disk.{disk}
use nbd_vram.Store.Ranges.Load.{lost, got, Loaded, Loaded-nothing, Loaded-append, window-Loaded}

-- Behind the first block either nothing is left or a block begins.
pub head_aligned :
    (off n : ℕ)
    → (head_count off n ≤ n)
      × ((n - head_count off n ≡ 0) ⊎ ((off + head_count off n) % cblk_size ≡ 0))
head_aligned off n = elim (eq_cases (off % cblk_size) 0) [
  | inl e ↦ rw e (omega arith, inr (omega (arith, e)))
  | inr ne ↦
      let test : (off % cblk_size == 0) ≡ false = ==_ne (off % cblk_size) 0 ne in
      elim (Bool-cases (ltb n (cblk_size - off % cblk_size))) [
        | inl short ↦ rw (test, short) (omega arith, inl (omega arith))
        | inr long ↦ rw (test, long) (ground (arith, long), inr (omega (arith, ne)))
      ]
]

pub window_le : (maxops n : ℕ) → 1 ≤ maxops → n ≢ 0 → (1 ≤ window maxops n) × (window maxops n ≤ n)
window_le maxops n pos ne = (ground (arith, pos, ne), ground (arith, pos, ne))

module _ {lib : Library} {codec : CodecKind} (lossless : IsLossless lib) (maxops : ℕ)
    (pos : 1 ≤ maxops) where
  load_windows_lem :
      (windows blk n : ℕ) {st : Store}
      → n ≤ windows
      → IsStore lib codec st
      → Loaded lib codec st
          (blk * cblk_size)
          (n * cblk_size)
          (load_windows lib codec maxops windows blk n st)
  unfolding load_windows
  load_windows_lem zero blk n {st} le is =
      let none_left : n ≡ 0 = omega (arith, le) in
      rw none_left (Loaded-nothing (blk * cblk_size) is)
  load_windows_lem (suc windows) blk n {st} le is = elim (eq_cases n 0) [
    | inl e ↦ rw e (Loaded-nothing (blk * cblk_size) is)
    | inr ne ↦
        let test : (n == 0) ≡ false = ==_ne n 0 ne in
        let k = window maxops n in
        let (some_done, fits) = window_le maxops n pos ne in
        let first = window-Loaded is lossless k blk in
        let at : (blk + k) * cblk_size ≡ blk * cblk_size + k * cblk_size = omega arith in
        let all : k * cblk_size + (n - k) * cblk_size ≡ n * cblk_size = omega (arith, fits) in
        let rest =
          load_windows_lem windows (blk + k) (n - k) (omega (arith, le, some_done)) first.store in
        rw (test, ← all) (Loaded-append _ _ _ first (rw (← at) rest))
  ]

  part-Loaded :
      {st : Store} (blk boff cnt : ℕ) (r : Option Bytes × Store)
      → boff + cnt ≤ cblk_size
      → Loaded lib codec st (blk * cblk_size) (1 * cblk_size) r
      → Loaded lib codec st (blk * cblk_size + boff) cnt (part boff cnt r)
  part-Loaded blk boff cnt (none, st1) fits whole = record {
    store = whole.store;
    same = whole.same;
    kept = whole.kept;
    result = elim whole.result [
      | lost e why ↦ lost refl why
      | got bytes e size at ↦ absurd (ground (arith, e))
    ];
  }
  part-Loaded {st} blk boff cnt (some page, st1) fits whole = record {
    store = whole.store;
    same = whole.same;
    kept = whole.kept;
    result = elim whole.result [
      | lost e why ↦ absurd (ground (arith, e))
      | got bytes e size at ↦
          let same : bytes ≡ page = ground (arith, e) in
          let long : length page ≡ 1 * cblk_size = ap length (sym same) ∙ size in
          got (take cnt (drop boff page)) refl
            (omega (arith, length-take cnt (drop boff page), length-drop boff page, long, fits))
            (λ i lt.
              let here : blk * cblk_size + (boff + i) ≡ blk * cblk_size + boff + i = omega arith in
              get_elem?-take cnt (drop boff page) i lt
              ∙ get_elem?-drop boff page i
              ∙ ap (λ l. get_elem? l (boff + i)) (sym same)
              ∙ at (boff + i) (omega (arith, lt, fits))
              ∙ ap (disk lib codec st) here)
    ];
  }

  one_block :
      {st : Store} (off cnt : ℕ)
      → off % cblk_size + cnt ≤ cblk_size
      → IsStore lib codec st
      → Loaded lib codec st off cnt
          (part (off % cblk_size) cnt (load_blocks lib codec maxops (off / cblk_size) 1 st))
  one_block {st} off cnt fits is =
      let at : off / cblk_size * cblk_size + off % cblk_size ≡ off = omega arith in
      subst
        (λ x.
          Loaded lib codec st x cnt
            (part (off % cblk_size) cnt (load_blocks lib codec maxops (off / cblk_size) 1 st)))
        at
        (part-Loaded (off / cblk_size) (off % cblk_size) cnt
          (load_blocks lib codec maxops (off / cblk_size) 1 st) fits
          (load_windows_lem 1 (off / cblk_size) 1 (omega arith) is))

  load_head_lem :
      {st : Store} (off n : ℕ)
      → IsStore lib codec st
      → Loaded lib codec st off
          (head_count off n)
          (load_head lib codec maxops off (head_count off n) st)
  unfolding load_head
  load_head_lem off n is = elim (eq_cases (off % cblk_size) 0) [
    | inl e ↦ rw e (Loaded-nothing off is)
    | inr ne ↦
        let test : (off % cblk_size == 0) ≡ false = ==_ne (off % cblk_size) 0 ne in
        let fits : off % cblk_size + head_count off n ≤ cblk_size = ground (arith, ne) in
        rw test (
          one_block off
            (if ltb n (cblk_size - off % cblk_size) then n else cblk_size - off % cblk_size)
            (ground (arith, fits, test)) is)
  ]

  load_tail_lem :
      {st : Store} (off n : ℕ)
      → (n ≡ 0) ⊎ (off % cblk_size ≡ 0)
      → n < cblk_size
      → IsStore lib codec st
      → Loaded lib codec st off n (load_tail lib codec maxops off n st)
  unfolding load_tail
  load_tail_lem off n aligned lt is = elim (eq_cases n 0) [
    | inl e ↦ rw e (Loaded-nothing off is)
    | inr ne ↦
        let test : (n == 0) ≡ false = ==_ne n 0 ne in
        let zero_off : off % cblk_size ≡ 0 = ground (arith, aligned, ne) in
        rw (test, ← zero_off) (one_block off n (omega (arith, zero_off, lt)) is)
  ]

  load_middle_lem :
      {st : Store} (off n : ℕ)
      → (n ≡ 0) ⊎ (off % cblk_size ≡ 0)
      → IsStore lib codec st
      → Loaded lib codec st off n (load_middle lib codec maxops off n st)
  unfolding load_middle
  load_middle_lem {st} off n aligned is = elim (Bool-cases (ltb n cblk_size)) [
    | inl test ↦ rw test (load_tail_lem off n aligned (ground (arith, test)) is)
    | inr test ↦
        let nb = n / cblk_size in
        let size : nb * cblk_size + (n - nb * cblk_size) ≡ n = omega arith in
        let zero_off : off % cblk_size ≡ 0 = ground (arith, aligned, test) in
        let at : off / cblk_size * cblk_size ≡ off = omega (arith, zero_off) in
        let got1 = load_blocks lib codec maxops (off / cblk_size) nb st in
        let got2 = load_tail lib codec maxops (off + nb * cblk_size) (n - nb * cblk_size) got1.1 in
        let first : Loaded lib codec st off (nb * cblk_size) got1 =
          subst (λ x. Loaded lib codec st x (nb * cblk_size) got1) at
            (load_windows_lem nb (off / cblk_size) nb (omega arith) is) in
        let there : (off + nb * cblk_size) % cblk_size ≡ 0 = omega (arith, zero_off) in
        let second =
          load_tail_lem (off + nb * cblk_size) (n - nb * cblk_size) (inr there) (omega arith)
            first.store in
        rw test (
          subst (λ m. Loaded lib codec st off m (and_then got1.0 got2 got1.1)) size
            (Loaded-append got1.0 got1.1 got2 first second))
  ]

  -- With libraries that give back what they compress and room for one op or more, a read of a byte range
  -- keeps the invariant and every byte of the disk, and it gives exactly the bytes of the range, or an
  -- error, of which there is none if no copy ever fails.
  pub load_range_lem :
      {st : Store}
      → IsStore lib codec st
      → (off n : ℕ) → Loaded lib codec st off n (load_range lib codec maxops off n st)
  unfolding load_range
  load_range_lem {st} is off n =
      let cnt = head_count off n in
      let size : cnt + (n - cnt) ≡ n = omega (arith, (head_aligned off n).0) in
      let first = load_head_lem {st = st} off n is in
      let aligned : (n - cnt ≡ 0) ⊎ ((off + cnt) % cblk_size ≡ 0) = (head_aligned off n).1 in
      subst (λ m. Loaded lib codec st off m (load_range lib codec maxops off n st)) size
        (Loaded-append _ _ _ first (load_middle_lem (off + cnt) (n - cnt) aligned first.store))
