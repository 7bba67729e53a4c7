-- ===== src/Store/Trim.antt =====
-- `trim_range` (nbd-vram.c): the blocks of a discarded range give their slots back.
pub mod Exact
pub mod Generations
use nbd_vram.Prelude.{
  ℕ, zero, suc, ◌+◌, ◌-◌, ◌*◌, ◌/◌, ◌%◌, ◌^◌, true, false, ltb, ◌==◌, if◌then◌else◌, update,
}
use nbd_vram.Heap.{slot_free, cblk_size}
use nbd_vram.Entry.{ent_grain, ent_clen, ent_make, next_gen}
use nbd_vram.Store.{Store, add64, sub64}

-- The body of the loop. The second look at the entry, under the lock, sees the same entry here.
unfoldable pub trim_block : Store → (b : ℕ) → Store
trim_block st b =
    let old = st.index b in
    let was = ent_clen old in
    if was == 0 then st else record st {
      index = update st.index b (ent_make 0 0 (next_gen old));
      heap = (slot_free st.heap (ent_grain old)).1;
      codec_bytes = sub64 st.codec_bytes was;
      raw_blocks = if was == cblk_size then sub64 st.raw_blocks 1 else st.raw_blocks;
      blocks_live = sub64 st.blocks_live 1;
      trim_blocks = add64 st.trim_blocks 1;
    }

-- The `n` blocks from `b` on.
unfoldable pub trim_blocks : (n b : ℕ) → Store → Store
trim_blocks zero b st = st
trim_blocks (suc n) b st = trim_blocks n (b + 1) (trim_block st b)

unfoldable pub trim_first : (off : ℕ) → ℕ
trim_first off = (off + (cblk_size - 1)) % 2 ^ 64 / cblk_size

unfoldable pub trim_end : Store → (off len : ℕ) → ℕ
trim_end st off len =
    let b1 = (off + len) % 2 ^ 64 / cblk_size in if ltb st.nblocks b1 then st.nblocks else b1

unfoldable pub trim_range : Store → (off len : ℕ) → Store
trim_range st off len = trim_blocks (trim_end st off len - trim_first off) (trim_first off) st
