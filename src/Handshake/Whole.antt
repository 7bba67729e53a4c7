-- ===== src/Handshake/Whole.antt =====
-- The whole handshake.
use nbd_vram.Prelude.{
  ℕ, suc, ◌+◌, ◌-◌, ◌/◌, ◌%◌, ◌^◌, ◌<◌, ◌≡◌, ◌≢◌, ◌⊎◌, refl, arith, sym, ap, ◌∙◌, Bool, true, false,
  not, ◌||◌, List, ◌++◌, Option, some, ltb, ◌==◌, length, take, drop,
}
use mathlib.Core.Path.{subst}
use nbd_vram.Codec.{Bytes}
use nbd_vram.Socket.{Socket, recv_all}
use nbd_vram.Socket.Exact.{IsStream, append_assoc, recv_all_lem, send_all_lem}
use nbd_vram.Handshake.{be32, of_be, ihaveopt, greeting, more, haggle, nbd_handshake}
use nbd_vram.Handshake.Dialogue.{replies, next}
use nbd_vram.Handshake.Turns.{
  Opt, IsSane, wire, script, all_replies, AllMore, served, turn, more_turns, ended,
}

of_be-be32 : (n : ℕ) → n < 2 ^ 32 → of_be 0 (be32 n) ≡ n
unfolding be32 of_be
of_be-be32 n lt = omega (arith, lt)

be32_size : (n : ℕ) → length (be32 n) ≡ 4
unfolding be32
be32_size n = refl

-- What the handshake comes to: its result, what is left to receive, and what was sent.
pub record Ended {S : Type 0} (incoming sent : S → Bytes) (s : S) (ok : Bool) (rest said : Bytes)
    (r : Option Bool × S) : Type 0 where
  pub result : r.0 ≡ some ok
  pub left : incoming r.1 ≡ rest
  pub out : sent r.1 ≡ sent s ++ said

-- Whether the client takes the old reply without its zeros.
abbrev pub takes_no_zeroes : (flags : ℕ) → Bool
takes_no_zeroes flags = not (flags / 2 % 2 == 0)

module _ {S : Type 0} {sock : Socket S} {incoming sent : S → Bytes}
    (is : IsStream sock incoming sent) (size flags : ℕ) (small : flags < 2 ^ 32) where
  -- Up to the last option.
  dialogue :
      (opts : List Opt) (rest : Bytes) (s : S)
      → AllMore opts
      → incoming s ≡ be32 flags ++ (script opts ++ rest)
      → (s1 : S) × (((t : ℕ)
            → nbd_handshake sock (length opts + t) size s
              ≡ haggle sock t size (takes_no_zeroes flags) s1)
          × ((incoming s1 ≡ rest)
              × (sent s1 ≡ sent s ++ (greeting ++ all_replies size (takes_no_zeroes flags) opts))))
  unfolding nbd_handshake
  dialogue opts rest s all left =
      let (s1, (sends, (left1, out1))) = send_all_lem is greeting s in
      let (s2, (got, (left2, out2))) =
        recv_all_lem is (be32 flags) (script opts ++ rest) s1 (left1 ∙ left) in
      let got4 : recv_all sock 4 s1 ≡ (some (be32 flags), s2) =
        subst (λ n. recv_all sock n s1 ≡ (some (be32 flags), s2)) (be32_size flags) got in
      let (s3, (ran, (left3, out3))) =
        more_turns is size (takes_no_zeroes flags) opts rest s2 all left2 in
      (
        s3,
        (
          (λ t. rw (sends, got4, of_be-be32 flags small) (ran t)),
          (
            left3,
            out3
                ∙ ap (λ l. l ++ all_replies size (takes_no_zeroes flags) opts) (out2 ∙ out1)
                ∙ append_assoc (sent s) greeting (all_replies size (takes_no_zeroes flags) opts),
          ),
        ),
      )

  -- Over a connection that lasts, with a client that sends 32 bits of flags, options that lead to another
  -- turn and one that does not, and with turns enough for them: the handshake ends at that last option. It
  -- succeeds for `NBD_OPT_EXPORT_NAME` and `NBD_OPT_GO` and fails for `NBD_OPT_ABORT`, it reads no byte
  -- behind that option, and it has sent the greeting and the replies of the protocol in order, however the
  -- calls cut the stream.
  pub nbd_handshake_lem :
      (opts : List Opt) (o : Opt) (rest : Bytes) (s : S) (turns : ℕ)
      → AllMore opts
      → IsSane o
      → next o.number ≢ more
      → length opts < turns
      → incoming s ≡ be32 flags ++ (script opts ++ (wire o ++ rest))
      → Ended incoming sent s
          (served (next o.number))
          rest
          (greeting
            ++ all_replies size (takes_no_zeroes flags) opts
            ++ replies size (takes_no_zeroes flags) o.number)
          (nbd_handshake sock turns size s)
  nbd_handshake_lem opts o rest s turns all sane stops enough left =
      let nz = takes_no_zeroes flags in
      let (s1, (ran, (left1, out1))) = dialogue opts (wire o ++ rest) s all left in
      let (r, (ran2, (to, (left2, out2)))) = turn is size nz o rest s1 sane left1 in
      let t = turns - length opts - 1 in
      let count : length opts + suc t ≡ turns = omega (arith, enough) in
      let stops_here : r.0 ≢ more = λ z. stops (sym to ∙ z) in
      let result : nbd_handshake sock turns size s ≡ (some (served (next o.number)), r.1) =
        subst (λ n. nbd_handshake sock n size s ≡ (some (served (next o.number)), r.1)) count
          (ran (suc t)
            ∙ ran2 t
            ∙ ended r (haggle sock t size nz r.1) stops_here
            ∙ ap (λ x. (some (served x), r.1)) to) in
      rw result (record {
        result = refl;
        left = left2;
        out =
            out2
            ∙ ap (λ l. l ++ replies size nz o.number) out1
            ∙ append_assoc (sent s) (greeting ++ all_replies size nz opts)
                (replies size nz o.number);
      })

  -- Over a connection that lasts, with a client that sends 32 bits of flags, options that lead to another
  -- turn and then 16 bytes with a wrong magic or a payload of more than 65536 bytes, and with turns enough
  -- for them: the handshake fails, and it sends the replies to the options before and nothing else.
  pub nbd_handshake-refused :
      (opts : List Opt) (hdr rest : Bytes) (s : S) (turns : ℕ)
      → AllMore opts
      → length hdr ≡ 16
      → (of_be 0 (take 8 hdr) ≢ ihaveopt) ⊎ (65536 < of_be 0 (drop 12 hdr))
      → length opts < turns
      → incoming s ≡ be32 flags ++ (script opts ++ (hdr ++ rest))
      → Ended incoming sent s false rest
          (greeting ++ all_replies size (takes_no_zeroes flags) opts)
          (nbd_handshake sock turns size s)
  unfolding haggle
  nbd_handshake-refused opts hdr rest s turns all long bad enough left =
      let nz = takes_no_zeroes flags in
      let (s1, (ran, (left1, out1))) = dialogue opts (hdr ++ rest) s all left in
      let (s2, (got, (left2, out2))) = recv_all_lem is hdr rest s1 left1 in
      let got16 : recv_all sock 16 s1 ≡ (some hdr, s2) =
        subst (λ n. recv_all sock n s1 ≡ (some hdr, s2)) long got in
      let t = turns - length opts - 1 in
      let count : length opts + suc t ≡ turns = omega (arith, enough) in
      let test : (not (of_be 0 (take 8 hdr) == ihaveopt) || ltb 65536 (of_be 0 (drop 12 hdr)))
          ≡ true =
        ground (arith, bad) in
      let stops : haggle sock (suc t) size nz s1 ≡ (some false, s2) = rw (got16, test) refl in
      let result : nbd_handshake sock turns size s ≡ (some false, s2) =
        subst (λ n. nbd_handshake sock n size s ≡ (some false, s2)) count (ran (suc t) ∙ stops) in
      rw result (record { result = refl; left = left2; out = out2 ∙ out1 })
