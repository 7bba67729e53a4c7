-- ===== src/Batch/Client/Session.antt =====
-- A whole session of requests that batches take.
use nbd_vram.Prelude.{
  ℕ, zero, suc, ◌+◌, ◌<◌, ◌≡◌, ◌≢◌, refl, arith, sym, ap, ◌∙◌, Bool, true, false, not, List, [],
  ◌∷◌, ◌++◌, Option, some, ◌==◌, length, length-append,
}
use mathlib.Core.Path.{subst}
use nbd_vram.Codec.{Bytes, CodecKind, Library, IsLossless}
use nbd_vram.Store.{Store, eio}
use nbd_vram.Store.IsStore.{IsStore}
use nbd_vram.Store.Ranges.Fixed.{fixed}
use nbd_vram.Socket.{Socket, recv_all}
use nbd_vram.Socket.Exact.{IsStream, recv_all_lem, append_assoc, append_nil}
use nbd_vram.Batch.{Bop, cmd_disc, none_left, disconnect, Batch}
use nbd_vram.Batch.Gathered.{Placed}
use nbd_vram.Batch.Flush.{batch_ops, flush_batch, error_at}
use nbd_vram.Batch.Flush.Laid.{Placed-Laid}
use nbd_vram.Batch.Flush.Replies.{flush_batch_lem}
use nbd_vram.Batch.Client.{End, left, Buffers, go_on, trailing, run_batch, first_header, transmit}
use nbd_vram.Batch.Client.Collect.{Wide}
use nbd_vram.Batch.Client.Frames.{Frame, head, script, length-head, header_of-head, IsNow}
use nbd_vram.Batch.Client.Taken.{AllSuit, read_or_write, Meant}
use nbd_vram.Batch.Client.Gather.{Ends, Filled, part, last, next_frame, begin_lem}
use nbd_vram.Batch.Client.Answers.{
  Answers, none_asked, Answers-append, settle-fixed, AllCopied, Laid-error, MayEnd-eio,
  any_eio-false, Replies-Answers,
}

-- What a session comes to: it ends as the client wants, with all received but what is behind it, every request
-- answered, and the invariant of the store kept.
pub data Served {S : Type 0} (incoming sent : S → Bytes) (lib : Library) (codec : CodecKind)
    (disk_size : ℕ) (fs : List Frame) (rest : Bytes) (s : S) : End × (S × Store) → Type 0 where
  served :
      (s1 : S) (st1 : Store) (out : Bytes)
      → incoming s1 ≡ rest
      → sent s1 ≡ sent s ++ out
      → Answers disk_size fs out
      → IsStore lib codec st1
      → Served incoming sent lib codec disk_size fs rest s (left, (s1, st1))

-- What a batch of a session comes to.
record Flushed {S : Type 0} (incoming sent : S → Bytes) (lib : Library) (codec : CodecKind)
    (st : Store) (fs : List Frame) (s : S) (r : Bool × (S × Store)) : Type 0 where
  out : Bytes
  kept : r.0 ≡ true
  same : incoming r.1.0 ≡ incoming s
  said : sent r.1.0 ≡ sent s ++ out
  answers : Answers st.disk_size fs out
  store : IsStore lib codec r.1.1
  still : fixed r.1.1 ≡ fixed st

module _ {S : Type 0} {sock : Socket S} {incoming sent : S → Bytes}
    (stream : IsStream sock incoming sent) {recv_now : S → (len : ℕ) → Option Bytes × S}
    (is_now : IsNow recv_now incoming sent) (lib : Library) (codec : CodecKind)
    (lossless : IsLossless lib) (depth : ℕ) (stale : (turns : ℕ) → Buffers)
    (wide : (turns : ℕ) → Wide (stale turns)) where
  flushed :
      {nops : ℕ} (reqs : List Bop) (fs : List Frame) (ubuf : Buffers) (s : S) (st : Store)
      → Placed st.disk_size reqs nops
      → Wide ubuf
      → Meant reqs fs
      → AllCopied st
      → IsStore lib codec st
      → Flushed incoming sent lib codec st fs s
          (flush_batch sock lib codec reqs (batch_ops ubuf reqs) s st)
  unfolding flush_batch
  flushed reqs fs ubuf s st placed whole meant all is =
      let done = flush_batch_lem stream lossless is ubuf reqs placed whole s in
      let laid = Placed-Laid placed in
      let no_eio : (i : ℕ) → error_at done.fin i ≢ eio = λ i.
        MayEnd-eio st all (error_at reqs i) (error_at done.fin i) (done.batch.errors i)
          (Laid-error st.disk_size 0 0 reqs laid i) in
      record {
        out = done.out;
        kept = done.kept ∙ ap not (any_eio-false done.fin no_eio);
        same = done.left;
        said = done.written;
        answers =
            Replies-Answers st.disk_size 0 0 reqs done.fin fs done.out all laid meant
              done.batch.same done.batch.errors done.replies;
        store = done.batch.store;
        still = settle-fixed lib codec reqs (batch_ops ubuf reqs) st;
      }

  abbrev running : ℕ → Bool
  running turns = true

  go_on-true :
      (more : S → Store → End × (S × Store)) (r : Bool × (S × Store))
      → r.0 ≡ true
      → go_on sock recv_now lib codec depth true running stale more r ≡ more r.1.0 r.1.1
  go_on-true more (true, (s, st)) on = refl
  go_on-true more (false, (s, st)) on = absurd (ground (arith, on))

  prepend :
      {d d1 : ℕ} {done fs : List Frame} {rest : Bytes} {s s1 : S} {out1 : Bytes}
      {r : End × (S × Store)}
      → sent s1 ≡ sent s ++ out1
      → Answers d done out1
      → d1 ≡ d
      → Served incoming sent lib codec d1 fs rest s1 r
      → Served incoming sent lib codec d (done ++ fs) rest s r
  prepend {fs = fs} {s = s} {out1 = out1} said before same
        (served s2 st2 out2 behind said2 after is) =
      served s2 st2 (out1 ++ out2) behind
        (said2 ∙ ap (λ l. l ++ out2) said ∙ append_assoc (sent s) out1 out2)
        (Answers-append before (subst (λ n. Answers n fs out2) same after)) is

  recv_head :
      (f : Frame) (rest : Bytes) (s : S)
      → incoming s ≡ head f ++ rest
      → (s1 : S) × ((recv_all sock 28 s ≡ (some (head f), s1))
          × ((incoming s1 ≡ rest) × (sent s1 ≡ sent s)))
  recv_head f rest s behind =
      subst
        (λ n.
          (s1 : S) × ((recv_all sock n s ≡ (some (head f), s1))
            × ((incoming s1 ≡ rest) × (sent s1 ≡ sent s))))
        (length-head f) (recv_all_lem stream (head f) rest s behind)

  module _ (final : Frame) (ends : Ends final) (rest : Bytes) where
    -- What is asked of the rest of the session.
    abbrev Serves : (turns : ℕ) → (S → Store → End × (S × Store)) → Type 0
    Serves turns more =
        (fs : List Frame) (s : S) (st : Store)
        → length fs < turns
        → AllSuit fs
        → AllCopied st
        → IsStore lib codec st
        → incoming s ≡ script fs ++ (head final ++ rest)
        → Served incoming sent lib codec st.disk_size fs rest s (more s st)

    run_batch_lem :
        (turns : ℕ) (more : S → Store → End × (S × Store))
        → Serves turns more
        → (all : List Frame) (s : S) (st : Store) (b : Batch × (Buffers × S))
        → length all < suc turns
        → AllCopied st
        → IsStore lib codec st
        → Filled incoming sent st.disk_size all final rest s b
        → Served incoming sent lib codec st.disk_size all rest s
            (run_batch sock recv_now lib codec depth true running stale more b st)
    unfolding run_batch trailing
    run_batch_lem turns more serves all s st _ few copied is
          (part reqs nops done fs ubuf s1 placed whole meant pos e suit behind out) =
        let r = flush_batch sock lib codec reqs (batch_ops ubuf reqs) s1 st in
        let sent_all = flushed reqs done ubuf s1 st placed whole meant copied is in
        let size : length done + length fs ≡ length all =
          sym (length-append done fs) ∙ ap length e in
        let copied1 : AllCopied r.1.1 = λ k. ap (λ p. p.0 k) sent_all.still ∙ copied k in
        let base : sent r.1.0 ≡ sent s ++ sent_all.out =
          sent_all.said ∙ ap (λ l. l ++ sent_all.out) out in
        rw
          (
            go_on-true (trailing sock recv_now lib codec depth true running stale more none_left) r
                sent_all.kept,
            ← e,
          )
          (prepend base sent_all.answers (ap (λ p. p.1.0) sent_all.still) (
            serves fs r.1.0 r.1.1 (omega (arith, few, size, pos)) suit copied1 sent_all.store
              (sent_all.same ∙ behind)))
    run_batch_lem turns more serves all s st _ few copied is
          (last reqs nops ubuf s1 placed whole meant behind out) =
        let r = flush_batch sock lib codec reqs (batch_ops ubuf reqs) s1 st in
        let sent_all = flushed reqs all ubuf s1 st placed whole meant copied is in
        rw
          (go_on-true (trailing sock recv_now lib codec depth true running stale more disconnect) r
            sent_all.kept)
          (served r.1.0 r.1.1 sent_all.out (sent_all.same ∙ behind)
            (sent_all.said ∙ ap (λ l. l ++ sent_all.out) out) sent_all.answers sent_all.store)

    first_header_lem :
        (turns : ℕ) (more : S → Store → End × (S × Store))
        → Serves turns more
        → (fs : List Frame) (ubuf : Buffers) (s : S) (st : Store) → length fs < suc turns
        → Wide ubuf
        → AllSuit fs
        → AllCopied st
        → IsStore lib codec st
        → incoming s ≡ script fs ++ (head final ++ rest)
        → Served incoming sent lib codec st.disk_size fs rest s (
            first_header sock recv_now lib codec depth true running stale more ubuf
              (recv_all sock 28 s)
              st)
    unfolding first_header
    first_header_lem turns more serves [] ubuf s st few whole suit copied is behind =
        let (s1, (got, (left1, out))) = recv_head final rest s behind in
        let test : (final.cmd == cmd_disc) ≡ true = ground (arith, ends.cmd) in
        rw (got, header_of-head final ends.fields, test)
          (served s1 st [] left1 (out ∙ sym (append_nil (sent s))) none_asked is)
    first_header_lem turns more serves (f ∷ fs) ubuf s st few whole suit copied is behind =
        let back = f.bytes ++ (script fs ++ (head final ++ rest)) in
        let (s1, (got, (left1, out))) =
          recv_head f back s (behind ∙ next_frame f fs (head final ++ rest)) in
        let test : (f.cmd == cmd_disc) ≡ false = ground (arith, read_or_write f suit.0) in
        rw (got, header_of-head f suit.0.fields, test)
          (prepend {done = []} {out1 = []} (out ∙ sym (append_nil (sent s))) none_asked refl (
            run_batch_lem turns more serves (f ∷ fs) s1 st _ few copied is (
              begin_lem stream is_now st.disk_size depth final ends rest f fs ubuf s1 suit.0 suit.1
                whole left1)))

    -- A session.
    pub transmit_lem :
        (turns : ℕ) → Serves turns (transmit sock recv_now lib codec depth true running stale turns)
    unfolding transmit
    transmit_lem zero fs s st few suit copied is behind = absurd (omega (arith, few))
    transmit_lem (suc turns) fs s st few suit copied is behind =
        first_header_lem turns (transmit sock recv_now lib codec depth true running stale turns)
          (transmit_lem turns) fs (stale turns) s st few (wide turns) suit copied is behind
