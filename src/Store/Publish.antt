-- ===== src/Store/Publish.antt =====
-- The entry of a reserved slot is published: the step that all writers share.
use mathlib.Core.Path.{subst}
use nbd_vram.Prelude.{
  ℕ, ◌^◌, ◌<◌, ◌≡◌, ◌≢◌, inl, inr, refl, arith, false, some, ◌==◌, if◌then◌else◌, eq_cases, sym,
  ◌∙◌, ap, ==_ne,
}
use nbd_vram.Heap.{slot_free}
use nbd_vram.Heap.IsValid.{IsValid}
use nbd_vram.Heap.Regions.{size_at, size_at-IsLive}
use nbd_vram.Heap.Free.{slot_free_lem}
use nbd_vram.Entry.{ent_grain, ent_clen, ent_make, next_gen}
use nbd_vram.Entry.Fields.{Unpacked, ent_make-Unpacked}
use nbd_vram.Codec.{Bytes, CodecKind, Library}
use nbd_vram.Store.{Store, dev_at, publish_entry, account}
use nbd_vram.Store.Device.{dev_read}
use nbd_vram.Store.IsStore.{stored, page_at, IsHeld, IsStore}
use nbd_vram.Store.Keeps.{IsReserved}

-- What a write of one block comes to.
pub record Replaced (lib : Library) (codec : CodecKind) (st : Store) (blk : ℕ) (page : Bytes)
    (st' : Store) : Type 0 where
  pub store : IsStore lib codec st'
  pub here : page_at lib codec st' blk ≡ some page
  pub others : (b : ℕ) → blk ≢ b → page_at lib codec st' b ≡ page_at lib codec st b

module _ {lib : Library} {codec : CodecKind} {st : Store} (is : IsStore lib codec st)
    (blk grain clen : ℕ) (page : Bytes) (res : IsReserved lib codec st grain clen page) where
  abbrev old : ℕ
  old = st.index blk

  abbrev bytes : Bytes
  bytes = dev_read st.vram (dev_at st grain) clen

  grain_small : grain < 2 ^ 30
  grain_small = omega (
    arith,
    (size_at-IsLive st.heap grain (omega (arith, res.room, res.pos))).below,
    is.heap.shaped.room,
  )

  live_old : (b : ℕ) → ent_clen (st.index b) ≢ 0 → 0 < size_at st.heap (ent_grain (st.index b))
  live_old b written = omega (arith, (is.held b written).room)

  abbrev after : Store
  after = account (publish_entry st blk grain clen) old clen

  fields : Unpacked grain clen (next_gen old) (ent_make grain clen (next_gen old))
  fields = ent_make-Unpacked grain clen (next_gen old) grain_small (omega (arith, res.le))

  after-vram : (after.vram ≡ st.vram) × (after.vram_ptr ≡ st.vram_ptr)
  unfolding account publish_entry
  after-vram = (ground arith, ground arith)

  after-index :
      (b : ℕ)
      → after.index b ≡ (if blk == b then ent_make grain clen (next_gen old) else st.index b)
  unfolding account publish_entry
  after-index b = ground arith

  after-heap :
      after.heap ≡ (if ent_clen old == 0 then st.heap else (slot_free st.heap (ent_grain old)).1)
  unfolding account publish_entry
  after-heap = ground arith

  -- The heap after: all slots but the displaced one are as they were.
  record HeapAfter : Type 0 where
    valid_after : IsValid after.heap
    sizes :
        (g : ℕ) → (ent_clen old ≢ 0 → ent_grain old ≢ g) → size_at after.heap g ≡ size_at st.heap g

  heap_after : HeapAfter
  heap_after = elim (eq_cases (ent_clen old) 0) [
    | inl fresh ↦
        let same : after.heap ≡ st.heap = rw (after-heap, fresh) refl in
        record { valid_after = rw same is.heap; sizes = λ g other. rw same refl }
    | inr written ↦
        let test : (ent_clen old == 0) ≡ false = ==_ne (ent_clen old) 0 written in
        let same : after.heap ≡ (slot_free st.heap (ent_grain old)).1 =
          rw (after-heap, test) refl in
        let freed = slot_free_lem is.heap (ent_grain old) (live_old blk written) in
        record {
          valid_after = rw same freed.valid;
          sizes = λ g other. rw same (freed.others g (other written));
        }
  ]

  new_size : size_at after.heap grain ≡ size_at st.heap grain
  new_size = heap_after.sizes grain (λ written e. res.apart blk written (sym e))

  other_size :
      (b : ℕ)
      → blk ≢ b
      → ent_clen (st.index b) ≢ 0
      → size_at after.heap (ent_grain (st.index b)) ≡ size_at st.heap (ent_grain (st.index b))
  other_size b ne written =
      heap_after.sizes (ent_grain (st.index b)) (λ w. is.apart blk b ne w written)

  entry_here : after.index blk ≡ ent_make grain clen (next_gen old)
  entry_here = ground (arith, after-index blk)

  entry_other : (b : ℕ) → blk ≢ b → after.index b ≡ st.index b
  entry_other b ne = ground (arith, after-index b)

  stored_here : stored after (after.index blk) ≡ bytes
  stored_here =
      rw (after-vram.0, after-vram.1, entry_here, fields.grain_back, fields.clen_back) refl

  stored_other :
      (b : ℕ)
      → blk ≢ b
      → ent_clen (st.index b) ≢ 0
      → stored after (after.index b) ≡ stored st (st.index b)
  stored_other b ne written = rw (after-vram.0, after-vram.1, entry_other b ne) refl

  IsHeld-here : IsHeld lib codec after blk
  IsHeld-here = record {
    le = omega (arith, ap ent_clen entry_here, fields.clen_back, res.le);
    room =
        let g : ent_grain (after.index blk) ≡ grain = ap ent_grain entry_here ∙ fields.grain_back in
        omega (
          arith,
          ap ent_clen entry_here,
          fields.clen_back,
          ap (λ x. size_at after.heap x) g,
          new_size,
          res.room,
        );
    page = page;
    whole = res.whole;
    back =
        let c : ent_clen (after.index blk) ≡ clen = ap ent_clen entry_here ∙ fields.clen_back in
        rw (stored_here, c) res.back;
  }

  IsHeld-other : (b : ℕ) → blk ≢ b → ent_clen (st.index b) ≢ 0 → IsHeld lib codec after b
  IsHeld-other b ne written =
      let was = is.held b written in
      record {
        le = rw (entry_other b ne) was.le;
        room = rw (entry_other b ne, other_size b ne written) was.room;
        page = was.page;
        whole = was.whole;
        back = rw (stored_other b ne written, entry_other b ne) was.back;
      }

  grain_after : ent_grain (after.index blk) ≡ grain
  grain_after = ap ent_grain entry_here ∙ fields.grain_back

  apart_here :
      (c : ℕ)
      → blk ≢ c
      → ent_clen (after.index c) ≢ 0
      → ent_grain (after.index blk) ≢ ent_grain (after.index c)
  apart_here c ne written e =
      res.apart c (λ z. written (ap ent_clen (entry_other c ne) ∙ z))
        (sym grain_after ∙ e ∙ ap ent_grain (entry_other c ne))

  apart_after :
      (b c : ℕ)
      → b ≢ c
      → ent_clen (after.index b) ≢ 0
      → ent_clen (after.index c) ≢ 0
      → ent_grain (after.index b) ≢ ent_grain (after.index c)
  apart_after b c ne written_b written_c = elim (eq_cases blk b) [
    | inl x ↦ λ e.
        apart_here c (λ y. ne (sym x ∙ y)) written_c (ap (λ n. ent_grain (after.index n)) x ∙ e)
    | inr x ↦ elim (eq_cases blk c) [
      | inl y ↦ λ e. apart_here b x written_b (ap (λ n. ent_grain (after.index n)) y ∙ sym e)
      | inr y ↦ λ e.
          is.apart b c ne (λ z. written_b (ap ent_clen (entry_other b x) ∙ z))
            (λ z. written_c (ap ent_clen (entry_other c y) ∙ z))
            (sym (ap ent_grain (entry_other b x)) ∙ e ∙ ap ent_grain (entry_other c y))
    ]
  ]

  page_here : page_at lib codec after blk ≡ some page
  unfolding page_at
  page_here =
      let c : ent_clen (after.index blk) ≡ clen = ap ent_clen entry_here ∙ fields.clen_back in
      let test : (clen == 0) ≡ false = ==_ne clen 0 (omega (arith, res.pos)) in
      rw (stored_here, c, test) res.back

  page_other : (b : ℕ) → blk ≢ b → page_at lib codec after b ≡ page_at lib codec st b
  unfolding page_at
  page_other b ne = elim (eq_cases (ent_clen (st.index b)) 0) [
    | inl fresh ↦ rw (entry_other b ne, fresh) refl
    | inr written ↦ rw (stored_other b ne written, entry_other b ne) refl
  ]

  -- A slot reserved in `st` stays reserved in `after`, unless it is the published one.
  pub others-IsReserved :
      {g c : ℕ} {p : Bytes}
      → IsReserved lib codec st g c p
      → grain ≢ g
      → IsReserved lib codec after g c p
  others-IsReserved {g} {c} {p} other ne = record {
    pos = other.pos;
    le = other.le;
    room = rw (heap_after.sizes g (λ written e. other.apart blk written (sym e))) other.room;
    whole = other.whole;
    back = rw (after-vram.0, after-vram.1) other.back;
    apart = λ b written. elim (eq_cases blk b) [
      | inl x ↦ λ e. ne (sym grain_after ∙ ap (λ n. ent_grain (after.index n)) x ∙ sym e)
      | inr x ↦ λ e.
          other.apart b (λ z. written (ap ent_clen (entry_other b x) ∙ z))
            (e ∙ ap ent_grain (entry_other b x))
    ];
  }

  -- Publishing keeps the store's invariant, makes the block read as the new page, and changes no other
  -- block.
  pub publish_lem : Replaced lib codec st blk page after
  publish_lem = record {
    store = record {
      heap = heap_after.valid_after;
      held = λ b written. elim (eq_cases blk b) [
        | inl e ↦ subst (IsHeld lib codec after) e IsHeld-here
        | inr ne ↦ IsHeld-other b ne (λ z. written (ap ent_clen (entry_other b ne) ∙ z))
      ];
      apart = apart_after;
    };
    here = page_here;
    others = page_other;
  }
