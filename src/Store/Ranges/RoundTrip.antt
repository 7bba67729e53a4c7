-- ===== src/Store/Ranges/RoundTrip.antt =====
-- A range that is written and read again.
use nbd_vram.Prelude.{
  ℕ, suc, ◌≤◌, ◌<◌, ◌≡◌, ◌⊎◌, inl, inr, refl, arith, ap, ◌∙◌, [], ◌∷◌, none, some, length,
  get_elem?,
}
use nbd_vram.Codec.{Bytes, CodecKind, Library, IsLossless}
use nbd_vram.Store.{Store}
use nbd_vram.Store.IsStore.{IsStore}
use nbd_vram.Store.Blocks.Issue.{SomeLost}
use nbd_vram.Store.Ranges.{load_range, store_range}
use nbd_vram.Store.Ranges.Disk.{SomeLost-fixed}
use nbd_vram.Store.Ranges.Load.{lost, got}
use nbd_vram.Store.Ranges.LoadRange.{load_range_lem}
use nbd_vram.Store.Ranges.SaveRange.{store_range_lem}

-- Lists of one length with the same elements are one.
same_bytes :
    (xs ys : Bytes)
    → length xs ≡ length ys
    → ((i : ℕ) → i < length ys → get_elem? xs i ≡ get_elem? ys i)
    → xs ≡ ys
unfolding get_elem?
same_bytes [] [] size same = refl
same_bytes [] (y ∷ ys) size same = absurd (omega (arith, size))
same_bytes (x ∷ xs) [] size same = absurd (omega (arith, size))
same_bytes (x ∷ xs) (y ∷ ys) size same =
    let head : x ≡ y = ground (arith, same 0 (omega arith)) in
    let rest = same_bytes xs ys (omega (arith, size)) (λ i lt. same (suc i) (omega (arith, lt))) in
    rw (head, rest) refl

-- With libraries that give back what they compress and room for one op or more, what `store_range` wrote
-- without an error is what `load_range` reads from there, or it gives nothing, which it does not if no copy ever
-- fails.
pub load_range-store_range :
    {lib : Library} {codec : CodecKind} {st : Store}
    → IsLossless lib
    → (maxops : ℕ) → 1 ≤ maxops
    → IsStore lib codec st
    → (off : ℕ) (src : Bytes) → (store_range lib codec maxops off src st).0 ≡ 0
    → ((load_range lib codec maxops off (length src) (store_range lib codec maxops off src st).1).0
        ≡ some src)
      ⊎ (((load_range lib codec maxops off
              (length src)
              (store_range lib codec maxops off src st).1).0
            ≡ none)
          × SomeLost st)
load_range-store_range {lib} {codec} {st} lossless maxops pos is off src ok =
    let wrote = store_range_lem lossless maxops pos is off src in
    let st1 = (store_range lib codec maxops off src st).1 in
    elim (load_range_lem lossless maxops pos wrote.store off (length src)).result [
      | lost e why ↦ inr (e, SomeLost-fixed st st1 wrote.same why)
      | got bytes e size at ↦ inl (
          e
          ∙ ap some (
              same_bytes bytes src size (λ i lt.
                at i lt
                ∙ elim (wrote.inside i lt) [ inl new ↦ new | inr (ne, old) ↦ absurd (ne ok) ])))
    ]
