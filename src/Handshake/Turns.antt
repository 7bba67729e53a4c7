-- ===== src/Handshake/Turns.antt =====
-- The options of a client, one turn after another.
use nbd_vram.Prelude.{
  ℕ, suc, ◌+◌, ◌^◌, ◌≤◌, ◌<◌, ◌≡◌, ◌≢◌, refl, arith, sym, ap, ◌∙◌, Bool, true, false, List, [], ◌∷◌,
  ◌++◌, Option, some, ltb, length, take, drop,
}
use mathlib.Core.Path.{subst}
use nbd_vram.Codec.{Bytes}
use nbd_vram.Socket.{Socket, recv_all}
use nbd_vram.Socket.Exact.{IsStream, append_assoc, append_nil, recv_all_lem}
use nbd_vram.Handshake.{
  be32, be64, of_be, ihaveopt, Turn, more, serve, leave, answer_option, haggle, after_turn,
}
use nbd_vram.Handshake.Dialogue.{replies, next, answer_option_lem}

-- An option of the client, with its payload.
pub record Opt : Type 0 where
  pub number : ℕ
  pub bytes : Bytes

-- One that the server reads: its number has 32 bits and its payload 65536 bytes at most.
abbrev pub IsSane : Opt → Type 0
IsSane o = (o.number < 2 ^ 32) × (length o.bytes ≤ 65536)

abbrev opt_hdr : (number len : ℕ) → Bytes
opt_hdr number len = be64 ihaveopt ++ be32 number ++ be32 len

abbrev pub wire : Opt → Bytes
wire o = opt_hdr o.number (length o.bytes) ++ o.bytes

abbrev pub script : List Opt → Bytes
script [] = []
script (o ∷ opts) = wire o ++ script opts

abbrev pub all_replies : (size : ℕ) → (no_zeroes : Bool) → List Opt → Bytes
all_replies size no_zeroes [] = []
all_replies size no_zeroes (o ∷ opts) =
    replies size no_zeroes o.number ++ all_replies size no_zeroes opts

-- Options that lead to another turn.
abbrev pub AllMore : List Opt → Type 0
AllMore [] = Unit
AllMore (o ∷ opts) = (IsSane o × (next o.number ≡ more)) × AllMore opts

abbrev pub served : Turn → Bool
served serve = true
served more = false
served leave = false

header_size : (number len : ℕ) → length (opt_hdr number len) ≡ 16
unfolding be64 be32
header_size number len = refl

header_magic : (number len : ℕ) → of_be 0 (take 8 (opt_hdr number len)) ≡ ihaveopt
unfolding be64 be32 of_be take
header_magic number len = refl

header_number :
    (number len : ℕ) → number < 2 ^ 32 → of_be 0 (take 4 (drop 8 (opt_hdr number len))) ≡ number
unfolding be64 be32 of_be take drop
header_number number len lt = omega (arith, lt)

header_len : (number len : ℕ) → len < 2 ^ 32 → of_be 0 (drop 12 (opt_hdr number len)) ≡ len
unfolding be64 be32 of_be take drop
header_len number len lt = omega (arith, lt)

went_on :
    {S : Type 0} (r : Turn × S) (rest : Option Bool × S) → r.0 ≡ more → after_turn r rest ≡ rest
went_on (more, s) rest on = refl
went_on (serve, s) rest on = absurd (ground (arith, on))
went_on (leave, s) rest on = absurd (ground (arith, on))

-- The last turn, whatever the loop would do next.
pub ended :
    {S : Type 0} (r : Turn × S) (rest : Option Bool × S)
    → r.0 ≢ more
    → after_turn r rest ≡ (some (served r.0), r.1)
ended (more, s) rest stops = absurd (stops refl)
ended (serve, s) rest stops = refl
ended (leave, s) rest stops = refl

module _ {S : Type 0} {sock : Socket S} {incoming sent : S → Bytes}
    (is : IsStream sock incoming sent) (size : ℕ) (no_zeroes : Bool) where
  -- One turn on an option.
  pub turn :
      (o : Opt) (rest : Bytes) (s : S)
      → IsSane o
      → incoming s ≡ wire o ++ rest
      → (r : Turn × S) × (((t : ℕ)
            → haggle sock (suc t) size no_zeroes s
              ≡ after_turn r (haggle sock t size no_zeroes r.1))
          × ((r.0 ≡ next o.number)
              × ((incoming r.1 ≡ rest) × (sent r.1 ≡ sent s ++ replies size no_zeroes o.number))))
  unfolding haggle
  turn o rest s sane left =
      let hdr = opt_hdr o.number (length o.bytes) in
      let cut : incoming s ≡ hdr ++ (o.bytes ++ rest) = left ∙ append_assoc hdr o.bytes rest in
      let (s1, (got, (left1, out1))) = recv_all_lem is hdr (o.bytes ++ rest) s cut in
      let got16 : recv_all sock 16 s ≡ (some hdr, s1) =
        subst (λ n. recv_all sock n s ≡ (some hdr, s1)) (header_size o.number (length o.bytes))
          got in
      let len_ok : length o.bytes < 2 ^ 32 = omega (arith, sane.1) in
      let r = answer_option sock size no_zeroes o.number (length o.bytes) s1 in
      let (to, (left2, out2)) =
        answer_option_lem is size no_zeroes o.number o.bytes rest s1 left1 in
      let fits : ltb 65536 (length o.bytes) ≡ false = ground (arith, sane) in
      (
        r,
        (
          (λ t.
              rw
                (
                  got16,
                  header_magic o.number (length o.bytes),
                  header_number o.number (length o.bytes) sane.0,
                  header_len o.number (length o.bytes) len_ok,
                  fits,
                )
                refl),
          (to, (left2, out2 ∙ ap (λ l. l ++ replies size no_zeroes o.number) out1)),
        ),
      )

  -- The turns on options that lead to another one.
  pub more_turns :
      (opts : List Opt) (rest : Bytes) (s : S)
      → AllMore opts
      → incoming s ≡ script opts ++ rest
      → (s1 : S) × (((t : ℕ)
            → haggle sock (length opts + t) size no_zeroes s ≡ haggle sock t size no_zeroes s1)
          × ((incoming s1 ≡ rest) × (sent s1 ≡ sent s ++ all_replies size no_zeroes opts)))
  more_turns [] rest s all left =
      (s, ((λ t. let e : 0 + t ≡ t = omega arith in rw e refl), (left, sym (append_nil (sent s)))))
  more_turns (o ∷ opts) rest s all left =
      let cut : incoming s ≡ wire o ++ (script opts ++ rest) =
        left ∙ append_assoc (wire o) (script opts) rest in
      let (r, (ran, (to, (left1, out1)))) = turn o (script opts ++ rest) s all.0.0 cut in
      let (s2, (ran2, (left2, out2))) = more_turns opts rest r.1 all.1 left1 in
      let on : r.0 ≡ more = to ∙ all.0.1 in
      (
        s2,
        (
          (λ t.
              let e : suc (length opts) + t ≡ suc (length opts + t) = omega arith in
              rw e (
                ran (length opts + t)
                ∙ went_on r (haggle sock (length opts + t) size no_zeroes r.1) on
                ∙ ran2 t)),
          (
            left2,
            out2
                ∙ ap (λ l. l ++ all_replies size no_zeroes opts) out1
                ∙ append_assoc (sent s) (replies size no_zeroes o.number)
                    (all_replies size no_zeroes opts),
          ),
        ),
      )
