-- ===== src/Store.antt =====
-- The compressed block store (nbd-vram.c, "Block primitives" and "Byte-range access"): a table of
-- entries over the allocator and the device memory. One worker runs at a time here: what the stripe
-- locks and the generation protect against other workers is not part of these definitions.
pub mod Device
pub mod IsStore
pub mod Keeps
pub mod Publish
pub mod Replace
pub mod Rmw
pub mod Trim
pub mod Blocks
pub mod Ranges
pub mod Init
pub mod Tests
use nbd_vram.Prelude.{
  ℕ, zero, suc, ◌+◌, ◌-◌, ◌*◌, ◌/◌, ◌%◌, ◌^◌, Bool, true, false, not, ◌&&◌, ◌||◌, List, [], ◌∷◌,
  ◌++◌, Option, none, some, ltb, ◌==◌, if◌then◌else◌, update, length, take, drop, replicate,
}
use nbd_vram.Heap.{Heap, slot_alloc, slot_free, heap_init, slot_none, alloc_grain, cblk_size}
use nbd_vram.Entry.{ent_grain, ent_clen, ent_gen, ent_make, next_gen}
use nbd_vram.Codec.{Bytes, CodecKind, Library, comp_block, decomp_block}
use Device.{Memory, dev_read, dev_write}

abbrev pub eio : ℕ
eio = 5

abbrev pub cmd_read : ℕ
cmd_read = 0

abbrev pub cmd_write : ℕ
cmd_write = 1

abbrev pub einval : ℕ
einval = 22

abbrev pub enospc : ℕ
enospc = 28

-- `unsigned long` counters
abbrev pub add64 : ℕ → ℕ → ℕ
add64 a b = (a + b) % 2 ^ 64

abbrev pub sub64 : ℕ → ℕ → ℕ
sub64 a b = (a + 2 ^ 64 - b) % 2 ^ 64

-- The globals of the store. `vram` is the device memory by address; `copies k` says whether the
-- `k`-th asynchronous copy succeeds, and `copies_done` counts those made.
pub record Store : Type 0 where
  pub heap : Heap
  pub index : ℕ → ℕ
  pub nblocks : ℕ
  pub disk_size : ℕ
  pub vram_ptr : ℕ
  pub vram : Memory
  pub copies : ℕ → Bool
  pub copies_done : ℕ
  pub blocks_live : ℕ
  pub codec_bytes : ℕ
  pub raw_blocks : ℕ
  pub enospc_count : ℕ
  pub trim_blocks : ℕ
  pub read_retry : ℕ

-- `struct blkop`, with its two buffers as values. `dma` is 0, 1, or 2 for done.
pub record BlkOp : Type 0 where
  pub blk : ℕ
  pub ent : ℕ
  pub grain : ℕ
  pub clen : ℕ
  pub req : ℕ
  pub cmd : ℕ
  pub err : ℕ
  pub dma : ℕ
  pub cslot : Bytes
  pub page : Bytes

abbrev pub dev_at : Store → (grain : ℕ) → ℕ
dev_at st grain = st.vram_ptr + grain * alloc_grain

-- `store_init`, where the memory for the tables is had and the VRAM has an extent: `mmap` gives an
-- index of zeros. The device memory and which copies fail are the machine's.
unfoldable pub store_init : (vram_size disk_size vram_ptr : ℕ) → Memory → (ℕ → Bool) → Store
store_init vram_size disk_size vram_ptr vram copies = record {
  heap = heap_init vram_size;
  index = λ b. 0;
  nblocks = disk_size / cblk_size;
  disk_size = disk_size;
  vram_ptr = vram_ptr;
  vram = vram;
  copies = copies;
  copies_done = 0;
  blocks_live = 0;
  codec_bytes = 0;
  raw_blocks = 0;
  enospc_count = 0;
  trim_blocks = 0;
  read_retry = 0;
}

-- `_cuMemcpyHtoDAsync`: whether it succeeds, and the state after. A copy that fails writes nothing.
unfoldable pub copy_to_device : Store → (grain : ℕ) → Bytes → Bool × Store
copy_to_device st grain bytes =
    let counted = record st { copies_done = st.copies_done + 1 } in
    if st.copies st.copies_done
    then (true, record counted { vram = dev_write st.vram (dev_at st grain) bytes })
    else (false, counted)

-- `_cuMemcpyDtoHAsync`: the bytes, if it succeeds.
unfoldable pub copy_from_device : Store → (grain len : ℕ) → Option Bytes × Store
copy_from_device st grain len = (
  (if st.copies st.copies_done then some (dev_read st.vram (dev_at st grain) len) else none),
  record st { copies_done = st.copies_done + 1 },
)

-- `note_enospc`, without its log line
abbrev pub note_enospc : Store → Store
note_enospc st = record st { enospc_count = add64 st.enospc_count 1 }

abbrev zeros : Bytes
zeros = replicate cblk_size 0

-- What `wr_publish` and `rmw_block` do with the entry that they displaced, and with the new length.
unfoldable pub account : Store → (old clen : ℕ) → Store
account st old clen =
    let was = ent_clen old in
    let freed = record st {
      heap = (slot_free st.heap (ent_grain old)).1;
      codec_bytes = sub64 st.codec_bytes was;
      raw_blocks = if was == cblk_size then sub64 st.raw_blocks 1 else st.raw_blocks;
    } in
    let st1 = if was == 0 then record st { blocks_live = add64 st.blocks_live 1 } else freed in
    record st1 {
      codec_bytes = add64 st1.codec_bytes clen;
      raw_blocks = if clen == cblk_size then add64 st1.raw_blocks 1 else st1.raw_blocks;
    }

-- The entry of a block stored anew.
unfoldable pub publish_entry : Store → (blk grain clen : ℕ) → Store
publish_entry st blk grain clen =
    let old = st.index blk in
    record st { index = update st.index blk (ent_make grain clen (next_gen old)) }

unfoldable pub wr_publish : Store → BlkOp → Store
wr_publish st bo = account (publish_entry st bo.blk bo.grain bo.clen) (st.index bo.blk) bo.clen

unfoldable pub wr_abort : Store → BlkOp → BlkOp × Store
wr_abort st bo = (
  record bo { grain = slot_none; dma = 0 },
  (if bo.grain == slot_none then st else record st { heap = (slot_free st.heap bo.grain).1 }),
)

unfoldable pub rd_prepare : Store → BlkOp → BlkOp
rd_prepare st bo =
    let ent = st.index bo.blk in
    record bo {
      ent = ent;
      clen = ent_clen ent;
      grain = ent_grain ent;
      dma = if ent_clen ent == 0 then 0 else 1;
    }

-- `memcpy(w->scratch + boff, src, cnt)`
abbrev pub overlay : Bytes → (boff : ℕ) → Bytes → Bytes
overlay scratch boff src = take boff scratch ++ src ++ drop (boff + length src) scratch

module _ (lib : Library) (codec : CodecKind) where
  unfoldable pub wr_prepare : Store → BlkOp → BlkOp × Store
  wr_prepare st bo =
      let (clen, cslot) = comp_block lib codec bo.page in
      let (grain, slot_bytes, heap) = slot_alloc st.heap clen in
      let bo1 = record bo { clen = clen; cslot = cslot; grain = grain } in
      let st1 = record st { heap = heap } in
      if grain == slot_none
      then (record bo1 { err = enospc; dma = 0 }, note_enospc st1)
      else (record bo1 { dma = 1 }, st1)

  -- 0 with the page, 1 where the block was rewritten meanwhile, or the error -1
  pub data Finish : Type 0 where
    done : Bytes → Finish
    retry corrupt : Finish

  unfoldable pub rd_finish : Store → BlkOp → Finish
  rd_finish st bo =
      if bo.clen == 0
      then done zeros
      else (if not (st.index bo.blk == bo.ent)
          then retry
          else elim (decomp_block lib codec bo.clen bo.cslot) [
            | none ↦ corrupt
            | some page ↦ done page
          ])

  -- The page, or `none` for the return value -1.
  unfoldable pub rd_block_locked : Store → (blk : ℕ) → Option Bytes × Store
  rd_block_locked st blk =
      let ent = st.index blk in
      if ent_clen ent == 0
      then (some zeros, st)
      else (let (bytes, st1) = copy_from_device st (ent_grain ent) (ent_clen ent) in
          (
            elim bytes [
              | none ↦ none
              | some cscratch ↦ decomp_block lib codec (ent_clen ent) cscratch
            ],
            st1,
          ))

  -- The part of `rmw_block` behind the `memcpy`.
  unfoldable pub rmw_store : Store → (blk : ℕ) → Bytes → ℕ × Store
  rmw_store st blk scratch =
      let (clen, cscratch) = comp_block lib codec scratch in
      let (grain, slot_bytes, heap) = slot_alloc st.heap clen in
      let st1 = record st { heap = heap } in
      let (sent, st2) = copy_to_device st1 grain cscratch in
      if grain == slot_none
      then (enospc, note_enospc st1)
      else (if not sent
          then (eio, record st2 { heap = (slot_free st2.heap grain).1 })
          else (0, account (publish_entry st2 blk grain clen) (st.index blk) clen))

  -- The part of `rmw_block` behind its read of the block, which `rd_block_locked` makes too.
  unfoldable pub rmw_with : (blk boff : ℕ) → Bytes → Option Bytes × Store → ℕ × Store
  rmw_with blk boff src (none, st) = (eio, st)
  rmw_with blk boff src (some scratch, st) = rmw_store st blk (overlay scratch boff src)

  -- `cnt` is the length of `src`.
  unfoldable pub rmw_block : Store → (blk boff : ℕ) → Bytes → ℕ × Store
  rmw_block st blk boff src = rmw_with blk boff src (rd_block_locked st blk)
