-- ===== src/Store/Keeps.antt =====
-- What survives between two states: every entry, every slot in use and its bytes.
use nbd_vram.Prelude.{
  ℕ, ◌*◌, ◌≤◌, ◌<◌, ◌≡◌, ◌≢◌, refl, arith, some, length, eq_cases, inl, inr, ◌∙◌,
}
use nbd_vram.Heap.{alloc_grain, cblk_size}
use nbd_vram.Heap.IsValid.{IsValid}
use nbd_vram.Heap.Regions.{size_at}
use nbd_vram.Entry.{ent_grain, ent_clen}
use nbd_vram.Codec.{Bytes, CodecKind, Library, decomp_block}
use nbd_vram.Store.{Store, dev_at}
use nbd_vram.Store.Device.{dev_read}
use nbd_vram.Store.IsStore.{stored, page_at, IsHeld, IsStore}

pub record Keeps (st st' : Store) : Type 0 where
  pub index : (b : ℕ) → st'.index b ≡ st.index b
  pub sizes : (g : ℕ) → 0 < size_at st.heap g → size_at st'.heap g ≡ size_at st.heap g
  pub bytes :
      (g n : ℕ)
      → 0 < size_at st.heap g
      → n ≤ size_at st.heap g * alloc_grain
      → dev_read st'.vram (dev_at st' g) n ≡ dev_read st.vram (dev_at st g) n

pub Keeps-refl : (st : Store) → Keeps st st
Keeps-refl st = record { index = λ b. refl; sizes = λ g live. refl; bytes = λ g n live le. refl }

pub Keeps-trans : {s t u : Store} → Keeps s t → Keeps t u → Keeps s u
Keeps-trans {s} {t} {u} one two = record {
  index = λ b. two.index b ∙ one.index b;
  sizes = λ g live. two.sizes g (omega (arith, one.sizes g live, live)) ∙ one.sizes g live;
  bytes = λ g n live le.
      two.bytes g n (omega (arith, one.sizes g live, live)) (omega (arith, one.sizes g live, le))
      ∙ one.bytes g n live le;
}

-- The invariant kept, and every block as it was.
pub record Unchanged (lib : Library) (codec : CodecKind) (st st' : Store) : Type 0 where
  pub store : IsStore lib codec st'
  pub pages : (b : ℕ) → page_at lib codec st' b ≡ page_at lib codec st b

-- A slot in use that no entry points at, whose bytes decompress to a page.
pub record IsReserved (lib : Library) (codec : CodecKind) (st : Store) (grain clen : ℕ)
    (page : Bytes) : Type 0 where
  pub pos : 0 < clen
  pub le : clen ≤ cblk_size
  pub room : clen ≤ size_at st.heap grain * alloc_grain
  pub whole : length page ≡ cblk_size
  pub back : decomp_block lib codec clen (dev_read st.vram (dev_at st grain) clen) ≡ some page
  pub apart : (b : ℕ) → ent_clen (st.index b) ≢ 0 → grain ≢ ent_grain (st.index b)

module _ {lib : Library} {codec : CodecKind} {st st' : Store} (keeps : Keeps st st') where
  module _ (is : IsStore lib codec st) where
    same_bytes :
        (b : ℕ) → ent_clen (st.index b) ≢ 0 → stored st' (st'.index b) ≡ stored st (st.index b)
    same_bytes b written =
        let room = (is.held b written).room in
        rw (keeps.index b)
          (keeps.bytes (ent_grain (st.index b)) (ent_clen (st.index b)) (omega (arith, room)) room)

    IsHeld-Keeps : (b : ℕ) → ent_clen (st'.index b) ≢ 0 → IsHeld lib codec st' b
    IsHeld-Keeps b written =
        let before : ent_clen (st.index b) ≢ 0 = rw (← keeps.index b) written in
        let was = is.held b before in
        let live : 0 < size_at st.heap (ent_grain (st.index b)) = omega (arith, was.room, before) in
        record {
          le = rw (keeps.index b) was.le;
          room = rw (keeps.index b, keeps.sizes (ent_grain (st.index b)) live) was.room;
          page = was.page;
          whole = was.whole;
          back = rw (same_bytes b before, keeps.index b) was.back;
        }

    page_at-Keeps : (b : ℕ) → page_at lib codec st' b ≡ page_at lib codec st b
    unfolding page_at
    page_at-Keeps b = elim (eq_cases (ent_clen (st.index b)) 0) [
      | inl fresh ↦ rw (keeps.index b, fresh) refl
      | inr written ↦ rw (same_bytes b written, keeps.index b) refl
    ]

    pub keeps-Unchanged : IsValid st'.heap → Unchanged lib codec st st'
    keeps-Unchanged valid = record {
      store = record {
        heap = valid;
        held = IsHeld-Keeps;
        apart = λ b c ne wb wc.
            rw (keeps.index b, keeps.index c)
              (is.apart b c ne (rw (← keeps.index b) wb) (rw (← keeps.index c) wc));
      };
      pages = page_at-Keeps;
    }

  -- A reservation stays one.
  pub IsReserved-Keeps :
      {grain clen : ℕ} {page : Bytes}
      → IsReserved lib codec st grain clen page
      → IsReserved lib codec st' grain clen page
  IsReserved-Keeps {grain} {clen} {page} res =
      let live : 0 < size_at st.heap grain = omega (arith, res.room, res.pos) in
      record {
        pos = res.pos;
        le = res.le;
        room = rw (keeps.sizes grain live) res.room;
        whole = res.whole;
        back = rw (keeps.bytes grain clen live res.room) res.back;
        apart = λ b written. rw (keeps.index b) (res.apart b (rw (← keeps.index b) written));
      }

pub IsStore-Unchanged :
    {lib : Library} {codec : CodecKind} {st st' : Store}
    → IsStore lib codec st
    → IsValid st'.heap
    → Keeps st st'
    → Unchanged lib codec st st'
IsStore-Unchanged is valid keeps = keeps-Unchanged keeps is valid
