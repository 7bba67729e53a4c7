-- ===== src/Batch/Client/Whole.antt =====
-- A whole connection, from the handshake to the disconnect.
use nbd_vram.Prelude.{
  ℕ, ◌^◌, ◌<◌, ◌≡◌, ◌≢◌, refl, arith, sym, ap, ◌∙◌, Bool, true, false, List, ◌++◌, Option, none,
  some, length,
}
use nbd_vram.Codec.{Bytes, CodecKind, Library, IsLossless}
use nbd_vram.Store.{Store}
use nbd_vram.Store.IsStore.{IsStore}
use nbd_vram.Socket.{Socket}
use nbd_vram.Socket.Exact.{IsStream}
use nbd_vram.Handshake.{be32, greeting, more, serve, nbd_handshake}
use nbd_vram.Handshake.Dialogue.{replies, next}
use nbd_vram.Handshake.Turns.{Opt, AllMore, IsSane, all_replies}
use nbd_vram.Handshake.Turns.{served as served_turn, wire as opt_wire, script as opts_script}
use nbd_vram.Handshake.Whole.{takes_no_zeroes, nbd_handshake_lem}
use nbd_vram.Batch.Client.{Buffers, greeted, handle_client, transmit}
use nbd_vram.Batch.Client.Collect.{Wide}
use nbd_vram.Batch.Client.Frames.{Frame, head, script, IsNow}
use nbd_vram.Batch.Client.Taken.{AllSuit}
use nbd_vram.Batch.Client.Gather.{Ends}
use nbd_vram.Batch.Client.Answers.{AllCopied}
use nbd_vram.Batch.Client.Session.{Served, transmit_lem}

module _ {S : Type 0} {sock : Socket S} {incoming sent : S → Bytes}
    (stream : IsStream sock incoming sent) {recv_now : S → (len : ℕ) → Option Bytes × S}
    (is_now : IsNow recv_now incoming sent) (lib : Library) (codec : CodecKind)
    (lossless : IsLossless lib) (depth : ℕ) (stale : (turns : ℕ) → Buffers)
    (wide : (turns : ℕ) → Wide (stale turns)) (final : Frame) (ends : Ends final)
    (rest : Bytes) where
  abbrev running : ℕ → Bool
  running turns = true

  not_more : serve ≢ more
  not_more e = ground (arith, e)

  greeted_on :
      (turns : ℕ) (r : Option Bool × S) (st : Store)
      → r.0 ≡ some true
      → greeted sock recv_now lib codec depth true running stale turns r st
        ≡ transmit sock recv_now lib codec depth true running stale turns r.1 st
  greeted_on turns (none, s) st on = absurd (ground (arith, on))
  greeted_on turns (some false, s) st on = absurd (ground (arith, on))
  greeted_on turns (some true, s) st on = refl

  -- With batching on, while the daemon runs: a client sends its flags, options, the last of which enters the
  -- transmission, requests that suit a batch, and the disconnect. Over a connection that lasts, whose
  -- non-blocking reads give the next bytes or none, with turns enough, every copy done, a lossless codec and a
  -- store in which the invariant holds: however the bytes arrive and whatever batches they make, the connection
  -- ends as the client wants, all is received but what stands behind the disconnect, and behind the handshake
  -- each request is answered in order with its handle, without an error only inside the disk, with EINVAL only
  -- outside, or with ENOSPC, and with as many bytes as a read without an error asks for; and the invariant
  -- holds after.
  pub handle_client_lem :
      (flags : ℕ) (opts : List Opt) (o : Opt) (fs : List Frame) (turns : ℕ) (s : S) (st : Store)
      → flags < 2 ^ 32
      → AllMore opts
      → IsSane o
      → next o.number ≡ serve
      → length opts < turns
      → length fs < turns
      → AllSuit fs
      → AllCopied st
      → IsStore lib codec st
      → incoming s
        ≡ be32 flags ++ (opts_script opts ++ (opt_wire o ++ (script fs ++ (head final ++ rest))))
      → (s1 : S) × ((sent s1
            ≡ sent s
              ++ (greeting
                  ++ all_replies st.disk_size (takes_no_zeroes flags) opts
                  ++ replies st.disk_size (takes_no_zeroes flags) o.number))
          × Served incoming sent lib codec st.disk_size fs rest s1
              (handle_client sock recv_now lib codec depth true running stale turns s st))
  unfolding handle_client
  handle_client_lem flags opts o fs turns s st small goes_on sane to few_opts few suit copied is
        arrives =
      let r = nbd_handshake sock turns st.disk_size s in
      let hello =
        nbd_handshake_lem stream st.disk_size flags small opts o (script fs ++ (head final ++ rest))
          s turns goes_on sane (λ e. not_more (sym to ∙ e)) few_opts arrives in
      let on : r.0 ≡ some true = hello.result ∙ ap (λ t. some (served_turn t)) to in
      (
        r.1,
        (
          hello.out,
          rw (greeted_on turns r st on) (
              transmit_lem stream is_now lib codec lossless depth stale wide final ends rest turns
                fs r.1 st few suit copied is hello.left),
        ),
      )
