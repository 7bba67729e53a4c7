-- ===== src/Handshake.antt =====
-- The handshake (nbd-vram.c, "NBD option reply helpers" and "NBD fixed-newstyle handshake"): the greeting,
-- the options of the client and the replies to them, over the interface of `Socket`.
pub mod Dialogue
pub mod Turns
pub mod Whole
pub mod Tests
use nbd_vram.Prelude.{
  ℕ, zero, suc, ◌+◌, ◌*◌, ◌/◌, ◌%◌, ◌^◌, Bool, true, false, not, ◌&&◌, ◌||◌, List, [], ◌∷◌, ◌++◌,
  Option, none, some, ltb, ◌==◌, if◌then◌else◌, length, take, drop, replicate,
}
use nbd_vram.Codec.{Bytes}
use nbd_vram.Socket.{Socket, recv_all, send_all, drain, arrived}

-- `htons`, `htonl` and `htobe64`: the bytes of a number, the high one first.
unfoldable pub be16 : ℕ → Bytes
be16 n = n / 2 ^ 8 % 256 ∷ n % 256 ∷ []

unfoldable pub be32 : ℕ → Bytes
be32 n = n / 2 ^ 24 % 256 ∷ n / 2 ^ 16 % 256 ∷ n / 2 ^ 8 % 256 ∷ n % 256 ∷ []

unfoldable pub be64 : ℕ → Bytes
be64 n = be32 (n / 2 ^ 32) ++ be32 n

-- `ntohl` and `be64toh`.
unfoldable pub of_be : (acc : ℕ) → Bytes → ℕ
of_be acc [] = acc
of_be acc (b ∷ bytes) = of_be (acc * 256 + b) bytes

abbrev pub magic_init : ℕ
magic_init = 0x4e42444d41474943

abbrev pub ihaveopt : ℕ
ihaveopt = 0x49484156454f5054

abbrev pub opt_rep_magic : ℕ
opt_rep_magic = 0x3e889045565a9

abbrev pub opt_export_name : ℕ
opt_export_name = 1

abbrev pub opt_abort : ℕ
opt_abort = 2

abbrev pub opt_list : ℕ
opt_list = 3

abbrev pub opt_info : ℕ
opt_info = 6

abbrev pub opt_go : ℕ
opt_go = 7

abbrev pub rep_ack : ℕ
rep_ack = 1

abbrev pub rep_server : ℕ
rep_server = 2

abbrev pub rep_info : ℕ
rep_info = 3

abbrev pub rep_err_unsup : ℕ
rep_err_unsup = 2 ^ 31 + 1

-- HAS_FLAGS, SEND_FLUSH, SEND_TRIM and CAN_MULTI_CONN
abbrev pub tx_flags : ℕ
tx_flags = 0x0001 + 0x0004 + 0x0020 + 0x0100

-- FIXED_NEWSTYLE and NO_ZEROES
abbrev pub srv_flags : ℕ
srv_flags = 0x0001 + 0x0002

abbrev pub greeting : Bytes
greeting = be64 magic_init ++ be64 ihaveopt ++ be16 srv_flags

-- What an option is answered by: another turn, the transmission, or the end.
pub data Turn : Type 0 where
  more serve leave : Turn

-- `if (f(...) != 0) return -1;`
abbrev pub and_go : {S : Type 0} → Bool × S → (S → Bool × S) → Bool × S
and_go r f = if r.0 then f r.1 else (false, r.1)

abbrev pub turn_of : {S : Type 0} → Turn → Bool × S → Turn × S
turn_of next r = (if r.0 then next else leave, r.1)

abbrev pub payload : Option Bytes → Bytes
payload none = []
payload (some bytes) = bytes

-- What follows a turn.
abbrev pub after_turn : {S : Type 0} → Turn × S → Option Bool × S → Option Bool × S
after_turn (more, s) rest = rest
after_turn (serve, s) rest = (some true, s)
after_turn (leave, s) rest = (some false, s)

module _ {S : Type 0} (sock : Socket S) where
  unfoldable pub send_opt_reply : (opt reply_type : ℕ) → Bytes → S → Bool × S
  send_opt_reply opt reply_type bytes s =
      let hdr : Bytes = be64 opt_rep_magic ++ be32 opt ++ be32 reply_type ++ be32 (length bytes) in
      and_go (send_all sock hdr s)
        (λ s1. if length bytes == 0 then (true, s1) else send_all sock bytes s1)

  unfoldable pub send_export_info : (opt size : ℕ) → S → Bool × S
  send_export_info opt size s = send_opt_reply opt rep_info (be16 0 ++ be64 size ++ be16 tx_flags) s

  -- The cases of the options.
  unfoldable pub export_name : (size : ℕ) → (no_zeroes : Bool) → (len : ℕ) → S → Bool × S
  export_name size no_zeroes len s = and_go (drain sock len s) (λ s1.
      and_go (send_all sock (be64 size ++ be16 tx_flags) s1)
        (λ s2. if no_zeroes then (true, s2) else send_all sock (replicate 124 0) s2))

  unfoldable pub export_info : (size opt len : ℕ) → S → Bool × S
  export_info size opt len s =
      and_go (drain sock len s)
        (λ s1. and_go (send_export_info opt size s1) (λ s2. send_opt_reply opt rep_ack [] s2))

  unfoldable pub export_list : (len : ℕ) → S → Bool × S
  export_list len s = and_go (drain sock len s) (λ s1.
      and_go (send_opt_reply opt_list rep_server (be32 0) s1)
        (λ s2. send_opt_reply opt_list rep_ack [] s2))

  unfoldable pub abort : (len : ℕ) → S → Bool × S
  abort len s = send_opt_reply opt_abort rep_ack [] (drain sock len s).1

  unfoldable pub unsupported : (opt len : ℕ) → S → Bool × S
  unsupported opt len s = and_go (drain sock len s) (λ s1. send_opt_reply opt rep_err_unsup [] s1)

  -- The `switch`.
  unfoldable pub answer_option : (size : ℕ) → (no_zeroes : Bool) → (opt len : ℕ) → S → Turn × S
  answer_option size no_zeroes opt len s =
      if opt == opt_export_name
      then turn_of serve (export_name size no_zeroes len s)
      else (if opt == opt_go || opt == opt_info
          then turn_of (if opt == opt_go then serve else more) (export_info size opt len s)
          else (if opt == opt_list
              then turn_of more (export_list len s)
              else (if opt == opt_abort
                  then (leave, (abort len s).1)
                  else turn_of more (unsupported opt len s))))

  -- The `for (;;)`, at most `turns` times: `some true` for the return value 0, `some false` for -1, and
  -- `none` where the turns are used up.
  unfoldable pub haggle : (turns size : ℕ) → (no_zeroes : Bool) → S → Option Bool × S
  haggle zero size no_zeroes s = (none, s)
  haggle (suc turns) size no_zeroes s =
      let (got, s1) = recv_all sock 16 s in
      let hdr = payload got in
      let opt = of_be 0 (take 4 (drop 8 hdr)) in
      let len = of_be 0 (drop 12 hdr) in
      let r = answer_option size no_zeroes opt len s1 in
      let rest = haggle turns size no_zeroes r.1 in
      if not (arrived got)
      then (some false, s1)
      else (if not (of_be 0 (take 8 hdr) == ihaveopt) || ltb 65536 len
          then (some false, s1)
          else after_turn r rest)

  unfoldable pub nbd_handshake : (turns disk_size : ℕ) → S → Option Bool × S
  nbd_handshake turns disk_size s =
      let (ok, s1) = send_all sock greeting s in
      let (got, s2) = recv_all sock 4 s1 in
      let client_flags = of_be 0 (payload got) in
      let rest = haggle turns disk_size (not (client_flags / 2 % 2 == 0)) s2 in
      if not ok then (some false, s1) else (if not (arrived got) then (some false, s2) else rest)
