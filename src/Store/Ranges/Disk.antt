-- ===== src/Store/Ranges/Disk.antt =====
-- The disk as its bytes by address, and what a write of a range does to it.
use nbd_vram.Prelude.{
  ℕ, ◌+◌, ◌-◌, ◌/◌, ◌%◌, ◌≤◌, ◌<◌, ◌≡◌, ◌≢◌, ◌⊎◌, inl, inr, refl, arith, sym, ap, ◌∙◌, Bool-cases,
  not, ◌&&◌, ◌||◌, [], ◌++◌, Option, none, some, ◌==◌, length, length-append, get_elem?,
  get_elem?-append_left, get_elem?-append_right,
}
use nbd_vram.Heap.{cblk_size}
use nbd_vram.Codec.{Bytes, CodecKind, Library}
use nbd_vram.Store.{Store, eio, enospc}
use nbd_vram.Store.IsStore.{page_at, IsStore}
use nbd_vram.Store.Blocks.Issue.{SomeLost}
use nbd_vram.Store.Ranges.{worse}
use nbd_vram.Store.Ranges.Fixed.{fixed}

abbrev pub in_page : Option Bytes → (i : ℕ) → Option ℕ
in_page none i = none
in_page (some page) i = get_elem? page i

-- The byte at an address of the disk.
unfoldable pub disk : Library → CodecKind → Store → (a : ℕ) → Option ℕ
disk lib codec st a = in_page (page_at lib codec st (a / cblk_size)) (a % cblk_size)

-- An error that a write may report.
abbrev pub Reported : Store → (err : ℕ) → Type 0
Reported st err = (err ≡ 0) ⊎ ((err ≡ enospc) ⊎ ((err ≡ eio) × SomeLost st))

-- What a write of `src` at `off` comes to, where `err` is the error from before it: no byte outside the
-- range changes, and each byte inside is the new one, or the old one with an error reported.
pub record Wrote (lib : Library) (codec : CodecKind) (st : Store) (off : ℕ) (src : Bytes) (err : ℕ)
    (r : ℕ × Store) : Type 0 where
  pub store : IsStore lib codec r.1
  pub same : fixed r.1 ≡ fixed st
  pub outside :
      (a : ℕ) → (a < off) ⊎ (off + length src ≤ a) → disk lib codec r.1 a ≡ disk lib codec st a
  pub inside :
      (i : ℕ)
      → i < length src
      → (disk lib codec r.1 (off + i) ≡ get_elem? src i)
        ⊎ ((r.0 ≢ 0) × (disk lib codec r.1 (off + i) ≡ disk lib codec st (off + i)))
  pub sticks : err ≢ 0 → r.0 ≢ 0
  pub why : Reported st err → Reported st r.0

pub SomeLost-fixed : (st st1 : Store) → fixed st1 ≡ fixed st → SomeLost st1 → SomeLost st
SomeLost-fixed st st1 same (k, lost) = (k, sym (ap (λ p. p.0 k) same) ∙ lost)

pub Reported-fixed :
    (st st1 : Store) (e : ℕ) → fixed st1 ≡ fixed st → Reported st1 e → Reported st e
Reported-fixed st st1 e same (inl ok) = inl ok
Reported-fixed st st1 e same (inr (inl full)) = inr (inl full)
Reported-fixed st st1 e same (inr (inr (io, lost))) =
    inr (inr (io, SomeLost-fixed st st1 same lost))

pub Reported-worse :
    (st : Store) (err e : ℕ) → Reported st err → Reported st e → Reported st (worse err e)
Reported-worse st err e p q = elim (Bool-cases (not (e == 0) && (err == 0 || e == eio))) [
  | inl test ↦ rw test q
  | inr test ↦ rw test p
]

pub lt_or_le : (a b : ℕ) → (a < b) ⊎ (b ≤ a)
lt_or_le a b = ground arith

pub worse_ne : (err e : ℕ) → (err ≢ 0) ⊎ (e ≢ 0) → worse err e ≢ 0
worse_ne err e ne = ground (arith, ne)

module _ {lib : Library} {codec : CodecKind} where
  pub Wrote-nothing :
      {st : Store} (off err : ℕ) → IsStore lib codec st → Wrote lib codec st off [] err (err, st)
  Wrote-nothing off err is = record {
    store = is;
    same = refl;
    outside = λ a out. refl;
    inside = λ i lt. absurd (omega (arith, lt));
    sticks = λ ne. ne;
    why = λ p. p;
  }

  -- Two writes one behind the other are a write of both.
  pub Wrote-append :
      {st : Store} {off err : ℕ} {xs ys : Bytes} {r s : ℕ × Store}
      → Wrote lib codec st off xs err r
      → Wrote lib codec r.1 (off + length xs) ys r.0 s
      → Wrote lib codec st off (xs ++ ys) err s
  Wrote-append {st} {off} {err} {xs} {ys} {r} {s} first second = record {
    store = second.store;
    same = second.same ∙ first.same;
    outside = λ a out.
        let size = length-append xs ys in
        second.outside a (ground (arith, size, out)) ∙ first.outside a (ground (arith, size, out));
    inside = λ i lt. elim (lt_or_le i (length xs)) [
      | inl near ↦
          let kept = second.outside (off + i) (inl (omega (arith, near))) in
          elim (first.inside i near) [
            | inl new ↦ inl (kept ∙ new ∙ sym (get_elem?-append_left xs ys i near))
            | inr (e, old) ↦ inr (second.sticks e, kept ∙ old)
          ]
      | inr far ↦
          let j = i - length xs in
          let at : off + length xs + j ≡ off + i = omega (arith, far) in
          let here : length xs + j ≡ i = omega (arith, far) in
          let byte : get_elem? (xs ++ ys) i ≡ get_elem? ys j =
            ap (get_elem? (xs ++ ys)) (sym here) ∙ get_elem?-append_right xs ys j in
          let kept = first.outside (off + i) (inr (omega (arith, far))) in
          elim (second.inside j (omega (arith, lt, far, length-append xs ys))) [
            | inl new ↦ inl (ap (disk lib codec s.1) (sym at) ∙ new ∙ sym byte)
            | inr (e, old) ↦
                inr (e, ap (disk lib codec s.1) (sym at) ∙ old ∙ ap (disk lib codec r.1) at ∙ kept)
          ]
    ];
    sticks = λ ne. second.sticks (first.sticks ne);
    why = λ p.
        Reported-fixed st r.1 s.0 first.same
          (second.why (Reported-fixed r.1 st r.0 (sym first.same) (first.why p)));
  }
