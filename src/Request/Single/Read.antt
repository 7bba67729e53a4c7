-- ===== src/Request/Single/Read.antt =====
-- A read by `handle_one`.
use nbd_vram.Prelude.{
  ℕ, zero, suc, ◌+◌, ◌-◌, ◌%◌, ◌^◌, ◌≤◌, ◌<◌, ◌≡◌, ◌≢◌, inl, inr, refl, arith, sym, ap, ◌∙◌, Bool,
  true, false, eq_cases, ==_ne, [], ◌++◌, Option, none, some, ◌==◌,
}
use mathlib.Core.Path.{subst}
use nbd_vram.Codec.{Bytes, CodecKind, Library, IsLossless}
use nbd_vram.Store.{Store, cmd_read}
use nbd_vram.Store.IsStore.{IsStore}
use nbd_vram.Store.Blocks.Issue.{SomeLost}
use nbd_vram.Store.Ranges.{load_range}
use nbd_vram.Store.Ranges.Load.{lost, got, Loaded, Loaded-nothing, Loaded-append}
use nbd_vram.Store.Ranges.LoadRange.{load_range_lem}
use nbd_vram.Socket.{Socket, send_all}
use nbd_vram.Socket.Exact.{IsStream, append_assoc, append_nil, send_all_lem}
use nbd_vram.Request.{chunk_at}
use nbd_vram.Request.Windows.{chunk_at-IsChunk}
use nbd_vram.Request.Single.{response, read_windows, handle_one}
use nbd_vram.Request.Single.Write.{oob-false}

-- What the windows of a read come to, with the socket in `s` before: the bytes of the range sent, or a
-- copy failed and the connection is dropped.
data Streamed {S : Type 0} (incoming sent : S → Bytes) (lib : Library) (codec : CodecKind)
    (st : Store) (voff n : ℕ) (s : S) (r : Bool × (S × Store)) : Type 0 where
  broke :
      r.0 ≡ false
      → Loaded lib codec st voff n (none, r.1.1)
      → Streamed incoming sent lib codec st voff n s r
  streamed :
      (bytes : Bytes)
      → r.0 ≡ true
      → Loaded lib codec st voff n (some bytes, r.1.1)
      → incoming r.1.0 ≡ incoming s
      → sent r.1.0 ≡ sent s ++ bytes
      → Streamed incoming sent lib codec st voff n s r

-- What a read request comes to: the disk left alone, and either a reply without an error with the bytes
-- of the range behind it, or a copy that failed and the connection dropped.
pub data Read {S : Type 0} (incoming sent : S → Bytes) (lib : Library) (codec : CodecKind)
    (st : Store) (offset n : ℕ) (handle : Bytes) (s : S) (r : Bool × (S × Store)) : Type 0 where
  dropped :
      r.0 ≡ false
      → SomeLost st
      → Loaded lib codec st offset n (none, r.1.1)
      → Read incoming sent lib codec st offset n handle s r
  replied :
      (bytes : Bytes)
      → r.0 ≡ true
      → Loaded lib codec st offset n (some bytes, r.1.1)
      → incoming r.1.0 ≡ incoming s
      → sent r.1.0 ≡ sent s ++ (response 0 handle ++ bytes)
      → Read incoming sent lib codec st offset n handle s r

why_lost :
    {lib : Library} {codec : CodecKind} {st : Store} {off n : ℕ} (st1 : Store)
    → Loaded lib codec st off n (none, st1)
    → SomeLost st
why_lost st1 loaded = elim loaded.result [
  | lost e why ↦ why
  | got bytes e size at ↦ absurd (ground (arith, e))
]

Loaded-none :
    {lib : Library} {codec : CodecKind} {st : Store} {off n : ℕ} (m : ℕ) (st1 : Store)
    → Loaded lib codec st off n (none, st1)
    → Loaded lib codec st off m (none, st1)
Loaded-none m st1 loaded = record {
  store = loaded.store;
  same = loaded.same;
  kept = loaded.kept;
  result = lost refl (why_lost st1 loaded);
}

module _ {S : Type 0} {sock : Socket S} {incoming sent : S → Bytes}
    (is : IsStream sock incoming sent) {lib : Library} (lossless : IsLossless lib)
    (codec : CodecKind) (maxops : ℕ) (pos : 1 ≤ maxops) where
  read_step :
      (fuel voff remaining : ℕ) (now : Bytes) (s s1 : S) (st st1 : Store)
      → remaining ≢ 0
      → load_range lib codec maxops voff (chunk_at voff remaining) st ≡ (some now, st1)
      → send_all sock now s ≡ (true, s1)
      → (voff + chunk_at voff remaining) % 2 ^ 64 ≡ voff + chunk_at voff remaining
      → read_windows sock lib codec maxops (suc fuel) voff remaining s st
        ≡ read_windows sock lib codec maxops fuel
            (voff + chunk_at voff remaining)
            (remaining - chunk_at voff remaining)
            s1
            st1
  unfolding read_windows
  read_step fuel voff remaining now s s1 st st1 ne load ran no_wrap =
      let test : (remaining == 0) ≡ false = ==_ne remaining 0 ne in
      rw (test, load, ran, no_wrap) refl

  lost_step :
      (fuel voff remaining : ℕ) (s : S) (st st1 : Store)
      → remaining ≢ 0
      → load_range lib codec maxops voff (chunk_at voff remaining) st ≡ (none, st1)
      → read_windows sock lib codec maxops (suc fuel) voff remaining s st ≡ (false, (s, st1))
  unfolding read_windows
  lost_step fuel voff remaining s st st1 ne load =
      let test : (remaining == 0) ≡ false = ==_ne remaining 0 ne in rw (test, load) refl

  -- A window, where the windows behind it are read from any state.
  one_window :
      (fuel voff remaining : ℕ) (s : S) (st : Store)
      → remaining ≢ 0
      → chunk_at voff remaining ≤ remaining
      → (voff + chunk_at voff remaining) % 2 ^ 64 ≡ voff + chunk_at voff remaining
      → ((s1 : S) (st1 : Store)
          → IsStore lib codec st1
          → Streamed incoming sent lib codec st1
              (voff + chunk_at voff remaining)
              (remaining - chunk_at voff remaining)
              s1
              (read_windows sock lib codec maxops fuel
                (voff + chunk_at voff remaining)
                (remaining - chunk_at voff remaining)
                s1
                st1))
      → (g : Option Bytes × Store)
      → load_range lib codec maxops voff (chunk_at voff remaining) st ≡ g
      → Loaded lib codec st voff (chunk_at voff remaining) g
      → Streamed incoming sent lib codec st voff remaining s
          (read_windows sock lib codec maxops (suc fuel) voff remaining s st)
  one_window fuel voff remaining s st ne le no_wrap behind (none, st1) load loaded =
      let step = lost_step fuel voff remaining s st st1 ne load in
      rw step (broke refl (Loaded-none remaining st1 loaded))
  one_window fuel voff remaining s st ne le no_wrap behind (some now, st1) load loaded =
      let (s1, (ran, (left, out))) = send_all_lem is now s in
      let step = read_step fuel voff remaining now s s1 st st1 ne load ran no_wrap in
      let chunk = chunk_at voff remaining in
      let r = read_windows sock lib codec maxops fuel (voff + chunk) (remaining - chunk) s1 st1 in
      let sum : chunk + (remaining - chunk) ≡ remaining = omega (arith, le) in
      elim (behind s1 st1 loaded.store) [
        | broke bad rest ↦ rw step (
            broke bad (
              subst (λ m. Loaded lib codec st voff m (none, r.1.1)) sum
                (Loaded-append (some now) st1 (none, r.1.1) loaded rest)))
        | streamed bytes good rest left1 out1 ↦ rw step (
            streamed (now ++ bytes) good
              (subst (λ m. Loaded lib codec st voff m (some (now ++ bytes), r.1.1)) sum
                (Loaded-append (some now) st1 (some bytes, r.1.1) loaded rest))
              (left1 ∙ left) (out1 ∙ ap (λ l. l ++ bytes) out ∙ append_assoc (sent s) now bytes))
      ]

  nothing_left :
      (fuel voff : ℕ) (s : S) (st : Store)
      → IsStore lib codec st
      → Streamed incoming sent lib codec st voff 0 s
          (read_windows sock lib codec maxops fuel voff 0 s st)
  unfolding read_windows
  nothing_left zero voff s st ok =
      streamed [] refl (Loaded-nothing voff ok) refl (sym (append_nil (sent s)))
  nothing_left (suc fuel) voff s st ok =
      streamed [] refl (Loaded-nothing voff ok) refl (sym (append_nil (sent s)))

  read_windows_lem :
      (fuel voff n : ℕ) (s : S) (st : Store)
      → n ≤ fuel
      → voff + n < 2 ^ 64
      → n < 2 ^ 32
      → IsStore lib codec st
      → Streamed incoming sent lib codec st voff n s
          (read_windows sock lib codec maxops fuel voff n s st)
  read_windows_lem zero voff n s st enough inside word ok =
      let none_left : n ≡ 0 = omega (arith, enough) in rw none_left (nothing_left 0 voff s st ok)
  read_windows_lem (suc fuel) voff n s st enough inside word ok = elim (eq_cases n 0) [
    | inl e ↦ rw e (nothing_left (suc fuel) voff s st ok)
    | inr ne ↦
        let chunk = chunk_at voff n in
        let fit = chunk_at-IsChunk voff n (omega (arith, ne)) inside word in
        one_window fuel voff n s st ne fit.le (omega (arith, inside, fit.le))
          (λ s1 st1 ok1.
            read_windows_lem fuel (voff + chunk) (n - chunk) s1 st1 (omega (arith, fit.pos, enough))
              (omega (arith, inside, fit.le)) (omega (arith, word)) ok1)
          (load_range lib codec maxops voff chunk st) refl
          (load_range_lem lossless maxops pos ok voff chunk)
  ]

  -- Over a connection that lasts, with libraries that give back what they compress and room for one op or
  -- more, a read request inside the disk changes no byte of the disk, and it sends one reply without an
  -- error and exactly the bytes of the range behind it, window by window; or the connection is dropped,
  -- which happens only if some copy ever fails.
  pub handle_one-Read :
      {st : Store}
      → IsStore lib codec st
      → (handle : Bytes) (offset n : ℕ) (s : S) → offset + n ≤ st.disk_size
      → st.disk_size < 2 ^ 64
      → n < 2 ^ 32
      → Read incoming sent lib codec st offset n handle s
          (handle_one sock lib codec maxops cmd_read handle offset n s st)
  unfolding handle_one
  handle_one-Read {st} ok handle offset n s inside small word =
      let fine = oob-false st.disk_size offset n inside in
      let (s1, (ran, (left, out))) = send_all_lem is (response 0 handle) s in
      let r = read_windows sock lib codec maxops n offset n s1 st in
      rw (fine, ran)
        (elim (read_windows_lem n offset n s1 st (omega arith) (omega (arith, inside, small)) word
          ok) [
            | broke bad loaded ↦ dropped bad (why_lost r.1.1 loaded) loaded
            | streamed bytes good loaded left1 out1 ↦
                replied bytes good loaded (left1 ∙ left) (
                  out1 ∙ ap (λ l. l ++ bytes) out ∙ append_assoc (sent s) (response 0 handle) bytes)
          ])
