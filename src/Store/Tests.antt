-- ===== src/Store/Tests.antt =====
-- The store with libraries that never compress, and one block written.
use nbd_vram.Prelude.{
  List, ℕ, ◌+◌, ◌*◌, ◌^◌, ◌<◌, ◌≡◌, ◌≢◌, ◌⊎◌, ap, ◌∙◌, update_self, refl, inl, inr, arith, true,
  ◌&&◌, ltb, leb, ◌==◌, [], ◌∷◌, some, none, take, drop, replicate, length-replicate,
}
use nbd_vram.Heap.{
  heap_init, slot_alloc, ext_init, ext_take, take_in_word, choose_extent, commit_extent,
  build_free_list, cblk_size,
}
use nbd_vram.Heap.Bitmap.{ctz_not, fresh_bitmap, find_word}
use nbd_vram.Heap.Links.{lst_push}
use nbd_vram.Entry.{ent_clen, ent_make, next_gen}
use nbd_vram.Entry.Fields.{ent_make-Unpacked}
use nbd_vram.Codec.{Bytes, zstd, Library, IsLossless, comp_block}
use nbd_vram.Codec.SelfTest.{comp_selftest, comp_selftest_lem, ComesBack, pattern}
use nbd_vram.Codec.RoundTrip.{IsStored, comp_block-IsStored}
use nbd_vram.Store.{
  Store, zeros, store_init, rmw_block, rmw_with, rmw_store, rd_block_locked, copy_to_device,
  copy_from_device, account, publish_entry,
}
use nbd_vram.Store.{BlkOp, cmd_read, cmd_write, rd_prepare}
use nbd_vram.Store.Blocks.{each, prepare, do_blocks}
use nbd_vram.Store.Blocks.Ready.{Plain, AllSet}
use nbd_vram.Store.Blocks.Prepare.{prepare-IsPrepared}
use nbd_vram.Store.Blocks.Errors.{errs_of, copy_errors}
use nbd_vram.Store.Blocks.Sets.{Executed, do_blocks_lem}
use nbd_vram.Store.Blocks.Reads.{
  Ops, end, op, IsRead, at_count, do_blocks-IsRead, rd_prepare-IsSnapshot,
}
use nbd_vram.Store.Blocks.Writes.{WriteOutcome, write_block, write_block_lem}
use nbd_vram.Heap.{slot_none}
use nbd_vram.Store.Blocks.Issue.{SomeLost}
use nbd_vram.Store.Ranges.{load_range, store_range, store_head, store_middle, store_tail}
use nbd_vram.Store.Ranges.Disk.{Wrote}
use nbd_vram.Store.Ranges.Load.{Loaded}
use nbd_vram.Store.Ranges.LoadRange.{load_range_lem}
use nbd_vram.Store.Ranges.SaveRange.{store_range_lem}
use nbd_vram.Store.Ranges.RoundTrip.{load_range-store_range}
use nbd_vram.Store.IsStore.{page_at, IsStore}
use nbd_vram.Store.Rmw.{ReadOutcome, rd_block_locked_lem, RmwOutcome, rmw_block_lem, rmw-IsStore}
use nbd_vram.Store.Trim.{trim_range, trim_block}
use nbd_vram.Store.Trim.Generations.{Changed-ne, no_change, published, discarded}
use nbd_vram.Store.Trim.Exact.{Trimmed, trim_range_lem}
use nbd_vram.Store.Init.{store_init_lem}

-- Two libraries that report every block as incompressible.
abbrev pub library : Library
library = record {
  zstd_compress = λ page. (1, []);
  zstd_is_error = λ r. r == 1;
  zstd_decompress = λ bytes. (1, []);
  lz4_compress = λ page. (0, []);
  lz4_decompress = λ bytes. (0, []);
}

pub library-IsLossless : IsLossless library
library-IsLossless = record {
  zstd_output = λ page whole fine. absurd (ground (arith, fine));
  zstd_back = λ page whole fine. absurd (ground (arith, fine));
  zstd_size_ok = refl;
  lz4_output = λ page whole pos. absurd (ground (arith, pos));
  lz4_back = λ page whole pos. absurd (ground (arith, pos));
}

abbrev page : Bytes
page = replicate 4096 7

comp_block-IsStored_example : IsStored library zstd page (comp_block library zstd page)
comp_block-IsStored_example =
    comp_block-IsStored library-IsLossless page (length-replicate 4096 7) zstd

abbrev start : Store
start = store_init (2 * 2 ^ 20) (2 ^ 20) 0x7000 (λ a. 9) (λ k. true)

store_init_lem_example :
    IsStore library zstd start × ((b : ℕ) → page_at library zstd start b ≡ some zeros)
store_init_lem_example =
    store_init_lem library zstd (2 * 2 ^ 20) (2 ^ 20) 0x7000 (λ a. 9) (λ k. true) (omega arith)

abbrev pub one : Store
one = (rmw_block library zstd start 3 100 (1 ∷ 2 ∷ 3 ∷ [])).1

pub one-IsStore : IsStore library zstd one
one-IsStore = rmw-IsStore (
    rmw_block_lem library-IsLossless
      (store_init_lem library zstd (2 * 2 ^ 20) (2 ^ 20) 0x7000 (λ a. 9) (λ k. true)
        (omega arith)).0
      3 100 (1 ∷ 2 ∷ 3 ∷ []) (omega arith))

pub one_disk : one.disk_size ≡ 2 ^ 20
unfolding store_init rmw_block rmw_with rmw_store rd_block_locked copy_to_device copy_from_device
    account publish_entry heap_init ent_clen slot_alloc choose_extent build_free_list lst_push
    ext_take find_word commit_extent ext_init fresh_bitmap comp_block take_in_word ctz_not
one_disk = refl

rd_block_locked_lem_example : ReadOutcome library zstd one 3 (rd_block_locked library zstd one 3)
rd_block_locked_lem_example = rd_block_locked_lem one-IsStore 3

rmw_block_lem_example :
    RmwOutcome library zstd one 3 102 (8 ∷ 8 ∷ []) (rmw_block library zstd one 3 102 (8 ∷ 8 ∷ []))
rmw_block_lem_example =
    rmw_block_lem library-IsLossless one-IsStore 3 102 (8 ∷ 8 ∷ []) (omega arith)

trim_range_lem_example :
    Trimmed library zstd
      (λ b.
        ltb b one.nblocks && (leb 5000 (b * cblk_size) && leb ((b + 1) * cblk_size) (5000 + 20000)))
      one
      (trim_range one 5000 20000)
trim_range_lem_example =
    trim_range_lem one-IsStore 5000 20000 (omega (arith, one_disk)) (omega (arith, one_disk))

pub one_copies : (k : ℕ) → one.copies k ≡ true
unfolding store_init rmw_block rmw_with rmw_store rd_block_locked copy_to_device copy_from_device
    account publish_entry heap_init ent_clen slot_alloc choose_extent build_free_list lst_push
    ext_take find_word commit_extent ext_init fresh_bitmap comp_block take_in_word ctz_not
one_copies k = refl

abbrev op_of : (blk cmd : ℕ) → BlkOp
op_of blk cmd = record {
  blk = blk;
  ent = 0;
  grain = slot_none;
  clen = 0;
  req = 0;
  cmd = cmd;
  err = 0;
  dma = 0;
  cslot = [];
  page = page;
}

abbrev reads : List BlkOp
reads = rd_prepare one (op_of 3 cmd_read) ∷ rd_prepare one (op_of 4 cmd_read) ∷ []

do_blocks-IsRead_example :
    Ops (IsRead library zstd one) (3 ∷ 4 ∷ []) (do_blocks library zstd reads one).0
    × ((j : ℕ) × ((do_blocks library zstd reads one).1 ≡ at_count one j))
do_blocks-IsRead_example = do_blocks-IsRead one-IsStore one_copies (
    op 3 (rd_prepare one (op_of 3 cmd_read)) (4 ∷ []) (rd_prepare one (op_of 4 cmd_read) ∷ [])
      (rd_prepare-IsSnapshot one (op_of 3 cmd_read) refl refl)
      (op 4 (rd_prepare one (op_of 4 cmd_read)) [] []
        (rd_prepare-IsSnapshot one (op_of 4 cmd_read) refl refl) end))

write_block_lem_example :
    WriteOutcome library zstd one
      (op_of 3 cmd_write)
      (write_block library zstd one (op_of 3 cmd_write))
write_block_lem_example =
    write_block_lem library-IsLossless one-IsStore (op_of 3 cmd_write) refl refl
      (length-replicate 4096 7)

abbrev mixed : List BlkOp
mixed = op_of 3 cmd_write ∷ op_of 4 cmd_read ∷ op_of 3 cmd_read ∷ []

mixed-AllSet : AllSet mixed
mixed-AllSet = (
  record { cmd = inr refl; err = refl; whole = λ w. length-replicate 4096 7 },
  (
    record { cmd = inl refl; err = refl; whole = λ w. length-replicate 4096 7 },
    (record { cmd = inl refl; err = refl; whole = λ w. length-replicate 4096 7 }, tt),
  ),
)

abbrev prepared : List BlkOp × Store
prepared = each (prepare library zstd) mixed one

do_blocks_lem_example :
    Executed library zstd Plain one mixed (do_blocks library zstd prepared.0 prepared.1)
    × (errs_of (do_blocks library zstd prepared.0 prepared.1).0
        ≡ copy_errors prepared.1.copies prepared.1.copies_done prepared.0)
do_blocks_lem_example =
    do_blocks_lem Plain one-IsStore
      (prepare-IsPrepared library-IsLossless mixed mixed-AllSet one-IsStore.heap)

-- A range over three blocks, cut at both ends.
abbrev long : Bytes
long = replicate 9000 5

store_range_lem_example :
    Wrote library zstd one 5000 long 0 (store_range library zstd 512 5000 long one)
store_range_lem_example = store_range_lem library-IsLossless 512 (omega arith) one-IsStore 5000 long

load_range_lem_example :
    Loaded library zstd one 12000 9000 (load_range library zstd 512 12000 9000 one)
load_range_lem_example = load_range_lem library-IsLossless 512 (omega arith) one-IsStore 12000 9000

stored_ok : (store_range library zstd 512 12388 (8 ∷ 8 ∷ []) one).0 ≡ 0
unfolding store_range store_head store_middle store_tail take drop store_init rmw_block rmw_with
    rmw_store rd_block_locked copy_to_device copy_from_device account publish_entry heap_init
    ent_clen slot_alloc choose_extent build_free_list lst_push ext_take find_word commit_extent
    ext_init fresh_bitmap comp_block take_in_word ctz_not nbd_vram.Entry.ent_make
    nbd_vram.Entry.ent_gen nbd_vram.Codec.decomp_block nbd_vram.Heap.Bitmap.set_bit
stored_ok = refl

load_range-store_range_example :
    ((load_range library zstd 512 12388 2 (store_range library zstd 512 12388 (8 ∷ 8 ∷ []) one).1).0
      ≡ some (8 ∷ 8 ∷ []))
    ⊎ (((load_range library zstd 512 12388 2
            (store_range library zstd 512 12388 (8 ∷ 8 ∷ []) one).1).0
          ≡ none)
        × SomeLost one)
load_range-store_range_example =
    load_range-store_range library-IsLossless 512 (omega arith) one-IsStore 12388 (8 ∷ 8 ∷ [])
      stored_ok

comp_selftest_lem_example :
    (comp_selftest library zstd ≡ true
      → (p : ℕ) → p < 3
      → ComesBack library zstd (pattern p 0 cblk_size))
    × (((p : ℕ) → p < 3 → ComesBack library zstd (pattern p 0 cblk_size))
        → comp_selftest library zstd ≡ true)
comp_selftest_lem_example = comp_selftest_lem library zstd

-- A block published, discarded and published again.
abbrev cycled : Store
cycled = publish_entry (trim_block (publish_entry start 3 5 100) 3) 3 5 100

length_put : ent_clen ((publish_entry start 3 5 100).index 3) ≡ 100
unfolding publish_entry
length_put =
    ap ent_clen (update_self start.index 3 (ent_make 5 100 (next_gen (start.index 3))))
    ∙ (ent_make-Unpacked 5 100 (next_gen (start.index 3)) (omega arith) (omega arith)).clen_back

was_live : ent_clen ((publish_entry start 3 5 100).index 3) ≢ 0
was_live e = omega (arith, e, length_put)

Changed-ne_example : cycled.index 3 ≢ start.index 3
Changed-ne_example =
    Changed-ne
      (published (discarded (published no_change 5 100 (omega arith) (omega arith)) was_live) 5 100
        (omega arith) (omega arith))
      (omega arith) (omega arith)
