-- ===== src/Store/Ranges.antt =====
-- Byte ranges over the block store (nbd-vram.c, `blkop_set` and "Byte-range access"): `load_range` and
-- `store_range`, and the windows of `load_blocks` and `store_blocks`. A buffer is the list of its bytes.
pub mod Fixed
pub mod Disk
pub mod Window
pub mod Load
pub mod LoadRange
pub mod Save
pub mod SaveRange
pub mod RoundTrip
-- mod Tests
use nbd_vram.Prelude.{
  ℕ, zero, suc, ◌+◌, ◌-◌, ◌*◌, ◌/◌, ◌%◌, ◌^◌, Bool, true, false, not, ◌&&◌, ◌||◌, List, [], ◌∷◌,
  ◌++◌, Option, none, some, ltb, ◌==◌, if◌then◌else◌, length, take, drop,
}
use nbd_vram.Heap.{slot_none, cblk_size}
use nbd_vram.Codec.{Bytes, CodecKind, Library}
use nbd_vram.Store.{Store, BlkOp, eio, cmd_read, cmd_write, rmw_block}
use nbd_vram.Store.Blocks.{each, prepare, do_blocks}

-- `req` is the request that the block belongs to.
abbrev pub blkop_set : (blk cmd : ℕ) → Bytes → (req : ℕ) → BlkOp
blkop_set blk cmd page req = record {
  blk = blk;
  ent = 0;
  grain = slot_none;
  clen = 0;
  req = req;
  cmd = cmd;
  err = 0;
  dma = 0;
  cslot = [];
  page = page;
}

-- The ops of a window of `load_blocks`; what the pages hold before the read has no part.
unfoldable pub read_ops : (blk n : ℕ) → List BlkOp
read_ops blk zero = []
read_ops blk (suc n) = blkop_set blk cmd_read [] 0 ∷ read_ops (blk + 1) n

unfoldable pub write_ops : (blk : ℕ) → Bytes → (n : ℕ) → List BlkOp
write_ops blk src zero = []
write_ops blk src (suc n) =
    blkop_set blk cmd_write (take cblk_size src) 0 ∷ write_ops (blk + 1) (drop cblk_size src) n

-- The bytes that the ops of a window read, or `none` if one has an error.
unfoldable pub pages_of : List BlkOp → Option Bytes
pages_of [] = some []
pages_of (bo ∷ ops) =
    if not (bo.err == 0)
    then none
    else elim (pages_of ops) [ none ↦ none | some more ↦ some (bo.page ++ more) ]

-- The error kept of two: the first, unless the second is `EIO`.
abbrev pub worse : (err e : ℕ) → ℕ
worse err e = if not (e == 0) && (err == 0 || e == eio) then e else err

unfoldable pub worst : (err : ℕ) → List BlkOp → ℕ
worst err [] = err
worst err (bo ∷ ops) = worst (worse err bo.err) ops

-- What an unaligned range takes of its first block.
abbrev pub head_count : (off n : ℕ) → ℕ
head_count off n =
    if off % cblk_size == 0
    then 0
    else (if ltb n (cblk_size - off % cblk_size) then n else cblk_size - off % cblk_size)

-- The size of the next window of blocks.
abbrev pub window : (maxops nblocks : ℕ) → ℕ
window maxops nblocks = if ltb maxops nblocks then maxops else nblocks

-- Two reads one after the other, the second left out if the first fails.
abbrev pub and_then : Option Bytes → Option Bytes × Store → Store → Option Bytes × Store
and_then none rest st = (none, st)
and_then (some got) (none, st1) st = (none, st1)
and_then (some got) (some more, st1) st = (some (got ++ more), st1)

abbrev pub part : (boff cnt : ℕ) → Option Bytes × Store → Option Bytes × Store
part boff cnt (none, st) = (none, st)
part boff cnt (some page, st) = (some (take cnt (drop boff page)), st)

module _ (lib : Library) (codec : CodecKind) where
  -- Phases A to C on a set of ops.
  abbrev pub run : List BlkOp → Store → List BlkOp × Store
  run ops st = let (ops1, st1) = each (prepare lib codec) ops st in do_blocks lib codec ops1 st1

  -- The first and the last part of `store_range`.
  unfoldable pub store_head : (off : ℕ) → Bytes → Store → ℕ × Store
  store_head off src st =
      if off % cblk_size == 0
      then (0, st)
      else rmw_block lib codec st (off / cblk_size) (off % cblk_size) src

  unfoldable pub store_tail : (err off : ℕ) → Bytes → Store → ℕ × Store
  store_tail err off src st =
      let (e, st1) = rmw_block lib codec st (off / cblk_size) 0 src in
      if length src == 0 then (err, st) else (worse err e, st1)

  module _ (maxops : ℕ) where
    -- At most `windows` windows.
    unfoldable pub load_windows : (windows blk nblocks : ℕ) → Store → Option Bytes × Store
    load_windows zero blk nblocks st = (some [], st)
    load_windows (suc windows) blk nblocks st =
        let n = window maxops nblocks in
        let (ops, st1) = run (read_ops blk n) st in
        let rest = load_windows windows (blk + n) (nblocks - n) st1 in
        if nblocks == 0 then (some [], st) else and_then (pages_of ops) rest st1

    abbrev pub load_blocks : (blk nblocks : ℕ) → Store → Option Bytes × Store
    load_blocks blk nblocks st = load_windows nblocks blk nblocks st

    unfoldable pub store_windows : (windows err blk : ℕ) → Bytes → (nblocks : ℕ) → Store → ℕ × Store
    store_windows zero err blk src nblocks st = (err, st)
    store_windows (suc windows) err blk src nblocks st =
        let n = window maxops nblocks in
        let (ops, st1) = run (write_ops blk src n) st in
        let rest =
          store_windows windows (worst err ops) (blk + n) (drop (n * cblk_size) src) (nblocks - n)
            st1 in
        if nblocks == 0 then (err, st) else rest

    abbrev pub store_blocks : (blk : ℕ) → Bytes → (nblocks : ℕ) → Store → ℕ × Store
    store_blocks blk src nblocks st = store_windows nblocks 0 blk src nblocks st

    -- The three parts of `load_range`: in the first block, in whole blocks, in the last block.
    unfoldable pub load_head : (off cnt : ℕ) → Store → Option Bytes × Store
    load_head off cnt st =
        if off % cblk_size == 0
        then (some [], st)
        else part (off % cblk_size) cnt (load_blocks (off / cblk_size) 1 st)

    unfoldable pub load_tail : (off n : ℕ) → Store → Option Bytes × Store
    load_tail off n st =
        if n == 0 then (some [], st) else part 0 n (load_blocks (off / cblk_size) 1 st)

    unfoldable pub load_middle : (off n : ℕ) → Store → Option Bytes × Store
    load_middle off n st =
        let nb = n / cblk_size in
        let got = load_blocks (off / cblk_size) nb st in
        let rest = load_tail (off + nb * cblk_size) (n - nb * cblk_size) got.1 in
        if ltb n cblk_size then load_tail off n st else and_then got.0 rest got.1

    unfoldable pub load_range : (off n : ℕ) → Store → Option Bytes × Store
    load_range off n st =
        let cnt = head_count off n in
        let got = load_head off cnt st in
        and_then got.0 (load_middle (off + cnt) (n - cnt) got.1) got.1

    unfoldable pub store_middle : (err off : ℕ) → Bytes → Store → ℕ × Store
    store_middle err off src st =
        let (e, st1) = store_blocks (off / cblk_size) src (length src / cblk_size) st in
        if ltb (length src) cblk_size then (err, st) else (worse err e, st1)

    unfoldable pub store_range : (off : ℕ) → Bytes → Store → ℕ × Store
    store_range off src st =
        let cnt = head_count off (length src) in
        let (err, st1) = store_head off (take cnt src) st in
        let src1 = drop cnt src in
        let whole = length src1 / cblk_size * cblk_size in
        let (err2, st2) = store_middle err (off + cnt) (take whole src1) st1 in
        store_tail err2 (off + cnt + whole) (drop whole src1) st2
