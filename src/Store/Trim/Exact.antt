-- ===== src/Store/Trim/Exact.antt =====
-- What `trim_range` does to every block.
use nbd_vram.Prelude.{
  ℕ, zero, suc, ◌+◌, ◌-◌, ◌*◌, ◌^◌, ◌≤◌, ◌≡◌, ◌≢◌, inl, inr, refl, arith, Bool, false, ◌&&◌, some,
  ltb, leb, ◌==◌, if◌then◌else◌, eq_cases, sym, ◌∙◌, ap, ==_ne, ==_refl,
}
use nbd_vram.Heap.{slot_free, cblk_size}
use nbd_vram.Heap.Free.{Freed, slot_free_lem}
use nbd_vram.Entry.{ent_grain, ent_clen, ent_make, next_gen}
use nbd_vram.Entry.Fields.{ent_make-Unpacked}
use nbd_vram.Codec.{CodecKind, Library}
use nbd_vram.Store.{Store, zeros}
use nbd_vram.Store.Trim.{trim_block, trim_blocks, trim_first, trim_end, trim_range}
use nbd_vram.Store.IsStore.{page_at, IsHeld, IsStore}

-- the blocks from `b` up to `b + n`
abbrev between : (b n : ℕ) → ℕ → Bool
between b n c = leb b c && ltb c (b + n)

-- The invariant kept, the blocks that the test picks zero, and every other block as it was.
pub record Trimmed (lib : Library) (codec : CodecKind) (picked : ℕ → Bool) (st st' : Store)
    : Type 0 where
  pub store : IsStore lib codec st'
  pub nblocks : st'.nblocks ≡ st.nblocks
  pub pages :
      (b : ℕ) → page_at lib codec st' b ≡ (if picked b then some zeros else page_at lib codec st b)

module _ {lib : Library} {codec : CodecKind} where
  module _ {st : Store} (is : IsStore lib codec st) (blk : ℕ) where
    abbrev after : Store
    after = trim_block st blk

    module _ (live : ent_clen (st.index blk) ≢ 0) where
      test : (ent_clen (st.index blk) == 0) ≡ false
      test = ==_ne (ent_clen (st.index blk)) 0 live

      freed :
          Freed st.heap (ent_grain (st.index blk)) (slot_free st.heap (ent_grain (st.index blk)))
      freed =
          slot_free_lem is.heap (ent_grain (st.index blk)) (omega (arith, (is.held blk live).room))

      same_memory : (after.vram ≡ st.vram) × (after.vram_ptr ≡ st.vram_ptr)
      unfolding trim_block
      same_memory = (ground (arith, test), ground (arith, test))

      new_heap : after.heap ≡ (slot_free st.heap (ent_grain (st.index blk))).1
      unfolding trim_block
      new_heap = ground (arith, test)

      new_index :
          (b : ℕ)
          → after.index b
            ≡ (if blk == b then ent_make 0 0 (next_gen (st.index blk)) else st.index b)
      unfolding trim_block
      new_index b = ground (arith, test)

      other_index : (b : ℕ) → blk ≢ b → after.index b ≡ st.index b
      other_index b ne = ground (arith, new_index b)

      none_here : ent_clen (after.index blk) ≡ 0
      none_here =
          let entry : after.index blk ≡ ent_make 0 0 (next_gen (st.index blk)) =
            ground (arith, new_index blk) in
          ap ent_clen entry
          ∙ (ent_make-Unpacked 0 0 (next_gen (st.index blk)) (omega arith) (omega arith)).clen_back

      -- Only another block can be written now, and it is as it was.
      is_other : (b : ℕ) → ent_clen (after.index b) ≢ 0 → blk ≢ b
      is_other b written e = written (ap (λ n. ent_clen (after.index n)) (sym e) ∙ none_here)

      was_written : (b : ℕ) → ent_clen (after.index b) ≢ 0 → ent_clen (st.index b) ≢ 0
      was_written b written z = written (ap ent_clen (other_index b (is_other b written)) ∙ z)

      IsHeld-after : (b : ℕ) → ent_clen (after.index b) ≢ 0 → IsHeld lib codec after b
      IsHeld-after b written =
          let ne = is_other b written in
          let was = is.held b (was_written b written) in
          let kept =
            freed.others (ent_grain (st.index b))
              (is.apart blk b ne live (was_written b written)) in
          record {
            le = rw (other_index b ne) was.le;
            room = rw (other_index b ne, new_heap, kept) was.room;
            page = was.page;
            whole = was.whole;
            back = rw (same_memory.0, same_memory.1, other_index b ne) was.back;
          }

      pages_after :
          (b : ℕ)
          → page_at lib codec after b ≡ (if blk == b then some zeros else page_at lib codec st b)
      unfolding page_at
      pages_after b = elim (eq_cases blk b) [
        | inl e ↦ rw (page_at, ← e, none_here, ==_refl blk) refl
        | inr ne ↦ rw (==_ne blk b ne, same_memory.0, same_memory.1, other_index b ne) refl
      ]

      trim_live : Trimmed lib codec (λ b. blk == b) st after
      unfolding trim_block
      trim_live = record {
        store = record {
          heap = rw new_heap freed.valid;
          held = IsHeld-after;
          apart = λ b c ne wb wc.
              rw (other_index b (is_other b wb), other_index c (is_other c wc))
                (is.apart b c ne (was_written b wb) (was_written c wc));
        };
        nblocks = ground (arith, test);
        pages = pages_after;
      }

    trim_block_lem : Trimmed lib codec (λ b. blk == b) st after
    unfolding trim_block page_at
    trim_block_lem = elim (eq_cases (ent_clen (st.index blk)) 0) [
      | inl fresh ↦
          rw (trim_block, fresh)
            (record {
              store = is;
              nblocks = refl;
              pages = λ b. elim (eq_cases blk b) [
                | inl e ↦ rw (page_at, ← e, fresh, ==_refl blk) refl
                | inr ne ↦ rw (==_ne blk b ne) refl
              ];
            })
      | inr live ↦ trim_live live
    ]

  pub trim_blocks_lem :
      (n b : ℕ) {st : Store}
      → IsStore lib codec st
      → Trimmed lib codec (between b n) st (trim_blocks n b st)
  unfolding trim_blocks
  trim_blocks_lem zero b is = record {
    store = is;
    nblocks = refl;
    pages = λ c. let none_picked : between b 0 c ≡ false = ground arith in rw none_picked refl;
  }
  trim_blocks_lem (suc n) b {st} is =
      let one = trim_block_lem is b in
      let rest = trim_blocks_lem n (b + 1) one.store in
      record {
        store = rest.store;
        nblocks = rest.nblocks ∙ one.nblocks;
        pages = λ c. ground (arith, rest.pages c, one.pages c);
      }

  -- `trim_range` of a range on the disk keeps the store's invariant. Each block of the disk that lies
  -- wholly in the range reads as zeros after it, and every other block reads as before.
  pub trim_range_lem :
      {st : Store}
      → IsStore lib codec st
      → (off len : ℕ) → off + len ≤ st.disk_size
      → st.disk_size + cblk_size ≤ 2 ^ 64
      → Trimmed lib codec
          (λ b.
            ltb b st.nblocks && (leb off (b * cblk_size) && leb ((b + 1) * cblk_size) (off + len)))
          st
          (trim_range st off len)
  unfolding trim_range trim_first trim_end
  trim_range_lem {st} is off len inside small =
      let all = trim_blocks_lem (trim_end st off len - trim_first off) (trim_first off) is in
      record {
        store = all.store;
        nblocks = all.nblocks;
        pages = λ c.
            all.pages c ∙ ap (λ t. if t then some zeros else page_at lib codec st c) (same_test c);
      }
    where
      same_test :
          (c : ℕ)
          → between (trim_first off) (trim_end st off len - trim_first off) c ≡ (
              ltb c st.nblocks
              && (leb off (c * cblk_size) && leb ((c + 1) * cblk_size) (off + len)))
      same_test c = ground arith
