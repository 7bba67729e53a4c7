-- ===== src/Lib.antt =====
-- nbd-vram: a daemon that serves NVIDIA video memory as a network block device, block by block
-- compressed (nbd-vram.c). The parts that are modelled, from the bottom up:
--
-- * Heap (nbd-vram.c, "Extent allocator"): `slot_alloc` and `slot_free` over extents of 1 MiB, each
--   with a bitmap, one list of partial extents for each of the 64 size classes and a free list.
--   Heap.Bitmap has the words and the scan of `ext_take`, Heap.Links `lst_push` and `lst_remove`.
--   Heap.IsValid has the invariant; Heap.Regions the abstract view, `size_at`: which grain starts a
--   slot in use, and of how many grains. Heap.Take, Heap.Choose, Heap.Commit and Heap.Alloc follow
--   `slot_alloc`, Heap.Give, Heap.Recycle and Heap.Free follow `slot_free`, Heap.Init `store_init`,
--   and Heap.History is about any sequence of them.
-- * Entry (nbd-vram.c, `ent_make` and its kin): an index entry, packed into a 64-bit word.
-- * Codec (nbd-vram.c, `comp_block` and `decomp_block`): a block compressed, or kept verbatim where
--   that does not pay. libzstd and liblz4 are a parameter, `Library`, of which `IsLossless` states
--   what the daemon relies on: what was compressed is decompressed to the same block. Codec.SelfTest is
--   `comp_selftest`.
-- * Store (nbd-vram.c, "Block primitives" and "Byte-range access"): the index over the allocator and
--   the device memory. A block is read by `rd_block_locked`, written in part by `rmw_block` and
--   discarded by `trim_range`; Store.Trim.Generations follows the entry of a block
--   through its changes. Store.IsStore has the invariant and the abstract view, `page_at`: the
--   page that each block reads as. Store.Keeps says when steps of others leave a block alone,
--   Store.Publish is the step that all writers share, and Store.Replace a whole write of a block.
-- * Store.Blocks (nbd-vram.c, `do_blocks`): a set of block ops. Its modules follow the phases: Prepare
--   the slots of the writes, Issue the copies, Execute the reads, Commit the writes; Sets puts them
--   together. Ready has what holds of the ops in between, and Errors ties the error of each op to its own
--   copy.
-- * Store.Ranges (nbd-vram.c, `load_range` and `store_range`): byte ranges over the sets. Its module
--   Disk has the view of the store as a disk of bytes, Window, Load and Save the windows and the parts.
-- * Request (nbd-vram.c, "Request handling"): `oob` and the windows in which `handle_one` streams a
--   long request. Request.Single is `handle_one`, from the header to the reply, over the socket and the
--   byte ranges.
-- * Batch (nbd-vram.c, `batch_admit` and the loop of `handle_client`): which requests a batch takes,
--   from the headers that are queued on the socket. Batch.Flush is `flush_batch`: its modules follow the
--   errors of the requests (Errors), the writes given back (Abort), the set as a whole (Settle), the ops
--   of each request (Laid) and the replies (Replies).
-- * Batch.Client (nbd-vram.c, `handle_client` and `recv_hdr_nb`): one connection, over the handshake, the
--   batches and the single requests. Its modules Any, Collect and Kept follow the invariant of the store
--   with any client; Frames, Taken, Gather, Answers, Session and Whole follow one whose requests
--   suit batches.
-- * Socket (nbd-vram.c, `recv_all`, `send_all`, `drain`): the loops around `recv` and `send`. The two
--   calls are the operations of an interface, `Socket`, of which `IsStream` states what a connection
--   that lasts does: bytes in order, one at least a call.
-- * Handshake (nbd-vram.c, `nbd_handshake`): the greeting, the options and the replies. Its module
--   Dialogue says what the protocol answers to an option, Turns and Whole follow the loop.
-- * Threads (nbd-vram.c, `thread_worker`, `sig_handler`, `clients_connected`): the workers and the
--   calls of the signal handler as steps, one access to the shared state each, in any order. Its modules
--   Guarded and Drain are about a client that is attached when the signal comes, Stop and Drained
--   about the end of the workers. What `poll`, `accept` and a turn of `handle_client` come to is a
--   choice of the step.
-- * Startup (nbd-vram.c, `load_libcompress` and `main`): the choice of the codec, the VRAM to ask for,
--   the size of the disk.
--
-- State is passed explicitly: `Heap` holds the globals that `g_alloc_mu` guards, `Store` holds those of
-- the index, the counters and the device. Numbers are the native ones; an integer of w bits has its
-- wrap-around written out. A 64-bit bitmap word is the function that gives its bits. The asynchronous
-- copies are steps that succeed or fail as the state's `copies` says, which is arbitrary; a copy that
-- fails leaves the memory alone. The result of `cuStreamSynchronize`, which the code does not look at, has no
-- part. `SomeLost` says that some copy fails, at any time: where a theorem allows EIO under it, no EIO comes
-- from a device all of whose copies succeed. The index is a function of the block; it is read and written at
-- any number, where the code has an array.
--
-- Bounds: `EXTENT_SHIFT` is its default, 20. The VRAM is smaller than 2^30 grains of 64 bytes, which
-- `main` checks at its start. The loops over the 256 words of a bitmap, over the classes, over the
-- extents and over the blocks of a discard are structural recursion on the iterations that are left.
-- The windows of a request take fuel, of which its length is enough (Request.Windows), and so does the
-- back-off of `main`, where the number of MiB is enough (Startup.Sizes). The windows of a byte range are
-- bounded by its blocks, and the calls on the socket by the bytes asked for. The handshake has a number
-- of turns, and one more than the options before the last is enough. A connection is followed for any
-- number of turns; a batch is collected in as many as its depth.
--
-- Not modelled: on the store one worker runs at a time, so no read loses its race and the stripe locks
-- have no part; the counters for debugging; the log and the statistics; loading of the libraries; the rest
-- of the daemon's start and its end; the scripts around it.
pub mod Prelude
pub mod Heap
pub mod Entry
pub mod Codec
pub mod Store
pub mod Request
pub mod Batch
pub mod Startup
pub mod Socket
pub mod Handshake
pub mod Threads
