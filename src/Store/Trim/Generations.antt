-- ===== src/Store/Trim/Generations.antt =====
-- The generation of a block's entry, by which a reader notes that the block was written or discarded.
use nbd_vram.Prelude.{ℕ, ◌+◌, ◌%◌, ◌^◌, ◌<◌, ◌≡◌, ◌≢◌, arith, ap, ◌∙◌, ==_ne, update_self}
use nbd_vram.Entry.{ent_clen, ent_gen, ent_make, next_gen}
use nbd_vram.Entry.Fields.{ent_make-Unpacked, ent_gen_lem}
use nbd_vram.Store.{Store, publish_entry}
use nbd_vram.Store.Trim.{trim_block}

-- What `k` changes of the block lead to: publishes, of a grain and a length that fit their fields, and discards of
-- the block while it has data. Between them anything may happen that leaves the entry of the block alone.
pub data Changed (blk : ℕ) (st : Store) : (k : ℕ) → Store → Type 0 where
  no_change : Changed blk st 0 st
  published :
      {k : ℕ} {st1 : Store}
      → Changed blk st k st1
      → (grain clen : ℕ) → grain < 2 ^ 30
      → clen < 2 ^ 13
      → Changed blk st (k + 1) (publish_entry st1 blk grain clen)
  discarded :
      {k : ℕ} {st1 : Store}
      → Changed blk st k st1
      → ent_clen (st1.index blk) ≢ 0
      → Changed blk st (k + 1) (trim_block st1 blk)
  elsewhere :
      {k : ℕ} {st1 : Store}
      → Changed blk st k st1
      → (st2 : Store) → st2.index blk ≡ st1.index blk
      → Changed blk st k st2

publish_entry-index :
    (st : Store) (blk grain clen : ℕ)
    → (publish_entry st blk grain clen).index blk ≡ ent_make grain clen (next_gen (st.index blk))
unfolding publish_entry
publish_entry-index st blk grain clen =
    update_self st.index blk (ent_make grain clen (next_gen (st.index blk)))

trim_block-index :
    (st : Store) (blk : ℕ)
    → ent_clen (st.index blk) ≢ 0
    → (trim_block st blk).index blk ≡ ent_make 0 0 (next_gen (st.index blk))
unfolding trim_block
trim_block-index st blk live =
    rw (==_ne (ent_clen (st.index blk)) 0 live)
      (update_self st.index blk (ent_make 0 0 (next_gen (st.index blk))))

bumped :
    (old grain clen : ℕ)
    → grain < 2 ^ 30
    → clen < 2 ^ 13
    → ent_gen (ent_make grain clen (next_gen old)) ≡ (ent_gen old + 1) % 2 ^ 21
bumped old grain clen lg lc =
    omega (arith, (ent_make-Unpacked grain clen (next_gen old) lg lc).gen_back)

counted :
    {blk : ℕ} {st : Store} {k : ℕ} {st1 : Store}
    → Changed blk st k st1
    → ent_gen (st1.index blk) ≡ (ent_gen (st.index blk) + k) % 2 ^ 21
counted {blk} {st} no_change = omega (arith, ent_gen_lem (st.index blk))
counted {blk} {st} (published {k} {st1} before grain clen lg lc) = omega (
  arith,
  ap ent_gen (publish_entry-index st1 blk grain clen),
  bumped (st1.index blk) grain clen lg lc,
  counted before,
)
counted {blk} {st} (discarded {k} {st1} before live) = omega (
  arith,
  ap ent_gen (trim_block-index st1 blk live),
  bumped (st1.index blk) 0 0 (omega arith) (omega arith),
  counted before,
)
counted (elsewhere before st2 same) = ap ent_gen same ∙ counted before

-- After 1 to 2^21 - 1 changes of a block, publishes and discards, its entry differs from the one before them,
-- whatever slots and lengths they had: the reader's comparison of entries cannot miss them.
pub Changed-ne :
    {blk k : ℕ} {st st1 : Store}
    → Changed blk st k st1
    → 0 < k
    → k < 2 ^ 21
    → st1.index blk ≢ st.index blk
Changed-ne {blk} {k} {st} {st1} changed pos lt same =
    omega (arith, counted changed, ap ent_gen same, ent_gen_lem (st.index blk))
