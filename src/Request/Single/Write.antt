-- ===== src/Request/Single/Write.antt =====
-- A write by `handle_one`.
use nbd_vram.Prelude.{
  ℕ, zero, suc, ◌+◌, ◌-◌, ◌%◌, ◌^◌, ◌≤◌, ◌<◌, ◌≡◌, ◌≢◌, inl, inr, refl, arith, sym, ap, ◌∙◌, Bool,
  true, false, Bool-cases, eq_cases, ==_ne, not, [], ◌∷◌, ◌++◌, Option, some, ◌==◌, length, take,
  drop, take-append-drop, length-take, length-drop,
}
use mathlib.Core.Path.{subst}
use nbd_vram.Codec.{Bytes, CodecKind, Library, IsLossless}
use nbd_vram.Store.{Store, eio, einval, cmd_write}
use nbd_vram.Store.IsStore.{IsStore}
use nbd_vram.Store.Ranges.{store_range}
use nbd_vram.Store.Ranges.Disk.{Wrote, Wrote-nothing, Wrote-append}
use nbd_vram.Store.Ranges.Save.{Wrote-worse}
use nbd_vram.Store.Ranges.SaveRange.{store_range_lem}
use nbd_vram.Socket.{Socket, recv_all}
use nbd_vram.Socket.Exact.{IsStream, append_assoc, recv_all_lem, send_all_lem}
use nbd_vram.Request.{oob, chunk_at}
use nbd_vram.Request.Windows.{chunk_at-IsChunk}
use nbd_vram.Request.Single.{response, store_window, write_windows, answer, handle_one}

-- A write that is not made, behind an error.
Wrote-skipped :
    {lib : Library} {codec : CodecKind} {st : Store} (off err : ℕ) (src : Bytes)
    → err ≢ 0
    → IsStore lib codec st
    → Wrote lib codec st off src err (err, st)
Wrote-skipped off err src ne is = record {
  store = is;
  same = refl;
  outside = λ a out. refl;
  inside = λ i lt. inr (ne, refl);
  sticks = λ z. ne;
  why = λ p. p;
}

-- What the windows of a write come to, once their bytes have arrived.
record Taken {S : Type 0} (incoming sent : S → Bytes) (lib : Library) (codec : CodecKind)
    (st : Store) (error voff : ℕ) (src rest : Bytes) (s : S) (r : Option ℕ × (S × Store))
    : Type 0 where
  err : ℕ
  after : S
  store : Store
  result : r ≡ (some err, (after, store))
  wrote : Wrote lib codec st voff src error (err, store)
  left : incoming after ≡ rest
  out : sent after ≡ sent s
  skips : error ≢ 0 → (err ≡ error) × (store ≡ st)

-- What a request that writes comes to: its range written or an error reported, its bytes taken from the
-- socket, the reply sent, and the connection kept unless a copy failed.
pub record Handled {S : Type 0} (incoming sent : S → Bytes) (lib : Library) (codec : CodecKind)
    (st : Store) (offset : ℕ) (src rest handle : Bytes) (s : S) (r : Bool × (S × Store))
    : Type 0 where
  pub err : ℕ
  pub wrote : Wrote lib codec st offset src 0 (err, r.1.1)
  pub left : incoming r.1.0 ≡ rest
  pub said : sent r.1.0 ≡ sent s ++ response err handle
  pub keeps : r.0 ≡ not (err == eio)

-- What a request outside the disk comes to: the store left alone, its bytes taken, `EINVAL` replied, and
-- the connection kept.
pub record Refused {S : Type 0} (incoming sent : S → Bytes) (st : Store) (rest handle : Bytes)
    (s : S) (r : Bool × (S × Store)) : Type 0 where
  pub store : r.1.1 ≡ st
  pub left : incoming r.1.0 ≡ rest
  pub said : sent r.1.0 ≡ sent s ++ response einval handle
  pub keeps : r.0 ≡ true

pub oob-false : (disk_size offset n : ℕ) → offset + n ≤ disk_size → oob disk_size offset n ≡ false
unfolding oob
oob-false disk_size offset n inside = ground (arith, inside)

oob-true : (disk_size offset n : ℕ) → disk_size < offset + n → oob disk_size offset n ≡ true
unfolding oob
oob-true disk_size offset n outside = ground (arith, outside)

module _ {S : Type 0} {sock : Socket S} {incoming sent : S → Bytes}
    (is : IsStream sock incoming sent) {lib : Library} (lossless : IsLossless lib)
    (codec : CodecKind) (maxops : ℕ) (pos : 1 ≤ maxops) where
  window-Wrote :
      {st : Store} (error voff : ℕ) (src : Bytes)
      → IsStore lib codec st
      → Wrote lib codec st voff src error (store_window sock lib codec maxops error voff src st)
  window-Wrote {st} error voff src ok = elim (eq_cases error 0) [
    | inl e ↦ rw e (
        Wrote-worse 0 (store_range lib codec maxops voff src st)
          (store_range_lem lossless maxops pos ok voff src))
    | inr ne ↦
        let test : (error == 0) ≡ false = ==_ne error 0 ne in
        rw test (Wrote-skipped voff error src ne ok)
  ]

  write_step :
      (fuel error voff remaining : ℕ) (now : Bytes) (s s1 : S) (st : Store)
      → remaining ≢ 0
      → recv_all sock (chunk_at voff remaining) s ≡ (some now, s1)
      → (voff + chunk_at voff remaining) % 2 ^ 64 ≡ voff + chunk_at voff remaining
      → write_windows sock lib codec maxops (suc fuel) error voff remaining s st
        ≡ write_windows sock lib codec maxops fuel
            (store_window sock lib codec maxops error voff now st).0
            (voff + chunk_at voff remaining)
            (remaining - chunk_at voff remaining)
            s1
            (store_window sock lib codec maxops error voff now st).1
  unfolding write_windows
  write_step fuel error voff remaining now s s1 st ne got no_wrap =
      let test : (remaining == 0) ≡ false = ==_ne remaining 0 ne in rw (test, got, no_wrap) refl

  write_windows_lem :
      (fuel error voff : ℕ) (src rest : Bytes) (s : S) {st : Store}
      → length src ≤ fuel
      → voff + length src < 2 ^ 64
      → length src < 2 ^ 32
      → IsStore lib codec st
      → incoming s ≡ src ++ rest
      → Taken incoming sent lib codec st error voff src rest s
          (write_windows sock lib codec maxops fuel error voff (length src) s st)
  unfolding write_windows
  write_windows_lem zero error voff [] rest s {st} enough inside word ok arrives = record {
    err = error;
    after = s;
    store = st;
    result = refl;
    wrote = Wrote-nothing voff error ok;
    left = arrives;
    out = refl;
    skips = λ ne. (refl, refl);
  }
  write_windows_lem zero error voff (b ∷ src) rest s enough inside word ok arrives =
      absurd (omega (arith, enough))
  write_windows_lem (suc fuel) error voff [] rest s {st} enough inside word ok arrives = record {
    err = error;
    after = s;
    store = st;
    result = refl;
    wrote = Wrote-nothing voff error ok;
    left = arrives;
    out = refl;
    skips = λ ne. (refl, refl);
  }
  write_windows_lem (suc fuel) error voff (b ∷ src) rest s {st} enough inside word ok arrives =
      let all : Bytes = b ∷ src in
      let chunk = chunk_at voff (length all) in
      let fit = chunk_at-IsChunk voff (length all) (omega arith) inside word in
      let now = take chunk all in
      let later = drop chunk all in
      let size : length now ≡ chunk = omega (arith, length-take chunk all, fit.le) in
      let size1 : length later ≡ length all - chunk = length-drop chunk all in
      let cut : incoming s ≡ now ++ (later ++ rest) =
        arrives
        ∙ ap (λ l. l ++ rest) (sym (take-append-drop chunk all))
        ∙ append_assoc now later rest in
      let (s1, (got, (left1, out1))) = recv_all_lem is now (later ++ rest) s cut in
      let got1 : recv_all sock chunk s ≡ (some now, s1) =
        subst (λ n. recv_all sock n s ≡ (some now, s1)) size got in
      let no_wrap : (voff + chunk) % 2 ^ 64 ≡ voff + chunk = omega (arith, inside, fit.le) in
      let first = window-Wrote {st = st} error voff now ok in
      let r = store_window sock lib codec maxops error voff now st in
      let more =
        write_windows_lem fuel r.0 (voff + chunk) later rest s1 {st = r.1}
          (omega (arith, size1, fit.pos, enough)) (omega (arith, size1, inside, fit.le))
          (omega (arith, size1, word)) first.store left1 in
      let second : Wrote lib codec r.1 (voff + length now) later r.0 (more.err, more.store) =
        subst (λ x. Wrote lib codec r.1 (voff + x) later r.0 (more.err, more.store)) (sym size)
          more.wrote in
      record {
        err = more.err;
        after = more.after;
        store = more.store;
        result =
            write_step fuel error voff (length all) now s s1 st (omega arith) got1 no_wrap
            ∙ subst
                (λ n.
                  write_windows sock lib codec maxops fuel r.0 (voff + chunk) n s1 r.1
                  ≡ (some more.err, (more.after, more.store)))
                size1 more.result;
        wrote =
            subst (λ l. Wrote lib codec st voff l error (more.err, more.store))
              (take-append-drop chunk all) (Wrote-append first second);
        left = more.left;
        out = more.out ∙ out1;
        skips = λ ne.
            let test1 : (error == 0) ≡ false = ==_ne error 0 ne in
            let kept : r ≡ (error, st) = rw test1 refl in
            let (e, same) = more.skips (λ z. ne (sym (ap (λ p. p.0) kept) ∙ z)) in
            (e ∙ ap (λ p. p.0) kept, same ∙ ap (λ p. p.1) kept);
      }

  -- The reply to a write.
  answer_lem :
      (handle : Bytes) (offset n error : ℕ) (s : S) (st : Store)
      → (s1 : S) × ((answer sock lib codec maxops cmd_write handle offset n (some error, (s, st))
            ≡ (not (error == eio), (s1, st)))
          × ((incoming s1 ≡ incoming s) × (sent s1 ≡ sent s ++ response error handle)))
  answer_lem handle offset n error s st =
      let (s1, (ran, (left, out))) = send_all_lem is (response error handle) s in
      elim (Bool-cases (error == eio)) [
        | inl test ↦ (s1, (rw (ran, test) refl, (left, out)))
        | inr test ↦ elim (Bool-cases (error == 0)) [
          | inl good ↦ (s1, (rw (ran, test, good) refl, (left, out)))
          | inr bad ↦ (s1, (rw (ran, test, bad) refl, (left, out)))
        ]
      ]

  -- Over a connection that lasts, with libraries that give back what they compress and room for one op or
  -- more, a write request inside the disk takes exactly its bytes from the socket, writes them as
  -- `store_range` promises for the whole range, window by window, and sends one reply with the error, and
  -- the connection is kept unless the error is `EIO`.
  pub handle_one-Handled :
      {st : Store}
      → IsStore lib codec st
      → (handle : Bytes) (offset : ℕ) (src rest : Bytes) (s : S)
      → offset + length src ≤ st.disk_size
      → st.disk_size < 2 ^ 64
      → length src < 2 ^ 32
      → incoming s ≡ src ++ rest
      → Handled incoming sent lib codec st offset src rest handle s
          (handle_one sock lib codec maxops cmd_write handle offset (length src) s st)
  unfolding handle_one
  handle_one-Handled {st} ok handle offset src rest s inside small word arrives =
      let fine = oob-false st.disk_size offset (length src) inside in
      let all =
        write_windows_lem (length src) 0 offset src rest s {st = st} (omega arith)
          (omega (arith, inside, small)) word ok arrives in
      let (s1, (ran, (left, out))) =
        answer_lem handle offset (length src) all.err all.after all.store in
      rw (fine, all.result, ran)
        (record {
          err = all.err;
          wrote = all.wrote;
          left = left ∙ all.left;
          said = out ∙ ap (λ l. l ++ response all.err handle) all.out;
          keeps = refl;
        })

  -- Over a connection that lasts, a write request that reaches outside the disk, at an offset that does not
  -- wrap, has its bytes taken from the socket and leaves the store alone, and `EINVAL` is replied and the
  -- connection kept.
  pub handle_one-Refused :
      {st : Store}
      → IsStore lib codec st
      → (handle : Bytes) (offset : ℕ) (src rest : Bytes) (s : S)
      → st.disk_size < offset + length src
      → offset + length src < 2 ^ 64
      → length src < 2 ^ 32
      → incoming s ≡ src ++ rest
      → Refused incoming sent st rest handle s
          (handle_one sock lib codec maxops cmd_write handle offset (length src) s st)
  unfolding handle_one
  handle_one-Refused {st} ok handle offset src rest s outside small word arrives =
      let bad = oob-true st.disk_size offset (length src) outside in
      let all =
        write_windows_lem (length src) einval offset src rest s {st = st} (omega arith) small word
          ok arrives in
      let (e, same) = all.skips (omega arith) in
      let (s1, (ran, (left, out))) =
        answer_lem handle offset (length src) all.err all.after all.store in
      rw (bad, all.result, ran)
        (record {
          store = same;
          left = left ∙ all.left;
          said =
              out
              ∙ ap (λ l. l ++ response all.err handle) all.out
              ∙ ap (λ x. sent s ++ response x handle) e;
          keeps = rw e refl;
        })
