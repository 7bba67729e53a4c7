-- ===== src/Batch/Client/Tests.antt =====
-- A client that shakes hands, writes a block, reads it and leaves.
use nbd_vram.Prelude.{
  ℕ, ◌*◌, ◌≡◌, ◌≢◌, inl, inr, refl, ap, arith, true, List, [], ◌∷◌, ◌++◌, Option, some, length,
  length-replicate, length-take, replicate, take,
}
use nbd_vram.Heap.{cblk_size}
use nbd_vram.Codec.{Bytes, zstd}
use nbd_vram.Store.{cmd_read, cmd_write}
use nbd_vram.Store.IsStore.{IsStore}
use nbd_vram.Store.Tests.{library, library-IsLossless, one, one-IsStore, one_copies}
use nbd_vram.Handshake.{be32, opt_go, greeting}
use nbd_vram.Handshake.Dialogue.{replies}
use nbd_vram.Handshake.Turns.{Opt, all_replies, script as opts_script, wire as opt_wire}
use nbd_vram.Handshake.Whole.{takes_no_zeroes}
use nbd_vram.Handshake.Tests.{Chan, chan, chan-IsStream, few}
use nbd_vram.Batch.{cmd_disc, batch_slot}
use nbd_vram.Batch.Client.{Buffers, handle_client}
use nbd_vram.Batch.Client.Kept.{handle_client-IsStore}
use nbd_vram.Batch.Client.Frames.{Frame, head, script, IsNow}
use nbd_vram.Batch.Client.Taken.{Suits}
use nbd_vram.Batch.Client.Gather.{Ends}
use nbd_vram.Batch.Client.Session.{Served}
use nbd_vram.Batch.Client.Whole.{handle_client_lem}

abbrev write_frame : Frame
write_frame = record {
  flags = 0;
  cmd = cmd_write;
  handle = 7;
  from = 3 * cblk_size;
  len = cblk_size;
  bytes = replicate cblk_size 5;
}

abbrev read_frame : Frame
read_frame = record {
  flags = 0;
  cmd = cmd_read;
  handle = 8;
  from = 2 * cblk_size;
  len = 2 * cblk_size;
  bytes = [];
}

abbrev disc_frame : Frame
disc_frame = record { flags = 0; cmd = cmd_disc; handle = 9; from = 0; len = 0; bytes = [] }

abbrev frames : List Frame
frames = write_frame ∷ read_frame ∷ []

write_frame-Suits : Suits write_frame
write_frame-Suits = record {
  fields = record {
    flags = omega arith;
    cmd = omega arith;
    handle = omega arith;
    from = omega arith;
    len = omega arith;
  };
  payload = inr (refl, length-replicate cblk_size 5);
  some_bytes = omega arith;
  fits = omega arith;
  aligned = refl;
  whole = refl;
}

read_frame-Suits : Suits read_frame
read_frame-Suits = record {
  fields = record {
    flags = omega arith;
    cmd = omega arith;
    handle = omega arith;
    from = omega arith;
    len = omega arith;
  };
  payload = inl (refl, refl);
  some_bytes = omega arith;
  fits = omega arith;
  aligned = refl;
  whole = refl;
}

disc_frame-Ends : Ends disc_frame
disc_frame-Ends = record {
  fields = record {
    flags = omega arith;
    cmd = omega arith;
    handle = omega arith;
    from = omega arith;
    len = omega arith;
  };
  cmd = refl;
}

abbrev go_opt : Opt
go_opt = record { number = opt_go; bytes = [] }

abbrev peer : Chan
peer = record {
  arrives =
      be32 3
      ++ (opts_script [] ++ (opt_wire go_opt ++ (script frames ++ (head disc_frame ++ (6 ∷ [])))));
  written = [];
}

-- What is there already comes at once.
abbrev recv_now : Chan → (len : ℕ) → Option Bytes × Chan
recv_now s len = let (bytes, s1) = chan.recv s len in (some bytes, s1)

nothing_left : (bytes : Bytes) (len : ℕ) → len ≢ 0 → take (few len) bytes ≡ [] → bytes ≡ []
nothing_left [] len pos e = refl
nothing_left (b ∷ bytes) len pos e =
    absurd (ground (arith, length-take (few len) (b ∷ bytes), ap length e, pos))

recv_now-IsNow : IsNow recv_now (λ s. s.arrives) (λ s. s.written)
recv_now-IsNow = record {
  now_order = λ s len. chan-IsStream.recv_order s len;
  now_le = λ s len. chan-IsStream.recv_le s len;
  now_end = λ s len pos e. nothing_left s.arrives len pos (ground (arith, e));
  now_sent = λ s len. refl;
}

abbrev stale : (turns : ℕ) → Buffers
stale turns i = replicate batch_slot turns

stale_whole : (turns i : ℕ) → length (stale turns i) ≡ batch_slot
stale_whole turns i = length-replicate batch_slot turns

handle_client-IsStore_example :
    IsStore library zstd
      (handle_client chan recv_now library zstd 4 true (λ turns. true) stale 10 peer one).1.1
handle_client-IsStore_example =
    handle_client-IsStore chan recv_now chan-IsStream.recv_le library zstd library-IsLossless 4 true
      (λ turns. true) stale stale_whole 10 peer one one-IsStore

handle_client_lem_example :
    (s1 : Chan) × ((s1.written
        ≡ []
          ++ (greeting
              ++ all_replies one.disk_size (takes_no_zeroes 3) []
              ++ replies one.disk_size (takes_no_zeroes 3) opt_go))
      × Served
          (λ s. s.arrives)
          (λ s. s.written)
          library
          zstd
          one.disk_size
          frames
          (6 ∷ [])
          s1
          (handle_client chan recv_now library zstd 4 true (λ turns. true) stale 10 peer one))
handle_client_lem_example =
    handle_client_lem chan-IsStream recv_now-IsNow library zstd library-IsLossless 4 stale
      stale_whole disc_frame disc_frame-Ends (6 ∷ []) 3 [] go_opt frames 10 peer one (omega arith)
      tt (omega arith, omega arith) refl (omega arith) (omega arith)
      (write_frame-Suits, (read_frame-Suits, tt)) one_copies one-IsStore refl
