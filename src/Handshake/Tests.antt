-- ===== src/Handshake/Tests.antt =====
-- A socket that moves three bytes a call, and handshakes over it.
use nbd_vram.Prelude.{
  ℕ, ◌<◌, ◌≡◌, ◌≢◌, inr, refl, arith, sym, true, false, [], ◌∷◌, ◌++◌, some, ltb, if◌then◌else◌,
  length, take, drop, replicate, take-append-drop, length-take,
}
use nbd_vram.Codec.{Bytes}
use nbd_vram.Socket.{Socket, recv_all, drain}
use nbd_vram.Socket.Exact.{IsStream, recv_all_lem, drain_lem}
use nbd_vram.Handshake.{be32, be64, of_be, ihaveopt, greeting, opt_go, opt_list, nbd_handshake}
use nbd_vram.Handshake.Dialogue.{replies}
use nbd_vram.Handshake.Turns.{Opt, script, wire, all_replies}
use nbd_vram.Handshake.Whole.{Ended, takes_no_zeroes, nbd_handshake_lem, nbd_handshake-refused}

pub record Chan : Type 0 where
  pub arrives : Bytes
  pub written : Bytes

abbrev pub few : (len : ℕ) → ℕ
few len = if ltb len 3 then len else 3

abbrev pub chan : Socket Chan
chan = record {
  recv = λ s len. (take (few len) s.arrives, record s { arrives = drop (few len) s.arrives });
  send = λ s bytes.
      (few (length bytes), record s { written = s.written ++ take (few (length bytes)) bytes });
}

recv_pos : (bytes : Bytes) (len : ℕ) → len ≢ 0 → bytes ≢ [] → length (take (few len) bytes) ≢ 0
recv_pos [] len pos left = absurd (left refl)
recv_pos (b ∷ bytes) len pos left = ground (arith, length-take (few len) (b ∷ bytes), pos)

send_pos : (bytes : Bytes) → bytes ≢ [] → few (length bytes) ≢ 0
send_pos [] left = absurd (left refl)
send_pos (b ∷ bytes) left = ground arith

pub chan-IsStream : IsStream chan (λ s. s.arrives) (λ s. s.written)
chan-IsStream = record {
  recv_order = λ s len. sym (take-append-drop (few len) s.arrives);
  recv_le = λ s len. ground (arith, length-take (few len) s.arrives);
  recv_some = λ s len pos left. recv_pos s.arrives len pos left;
  recv_sent = λ s len. refl;
  send_le = λ s bytes. ground arith;
  send_order = λ s bytes. refl;
  send_some = λ s bytes left. send_pos bytes left;
  send_incoming = λ s bytes. refl;
}

abbrev sample : Bytes
sample = 1 ∷ 2 ∷ 3 ∷ 4 ∷ 5 ∷ []

abbrev sampled : Chan
sampled = record { arrives = sample ++ (6 ∷ []); written = [] }

recv_all_lem_example :
    (s1 : Chan) × ((recv_all chan 5 sampled ≡ (some sample, s1))
      × ((s1.arrives ≡ 6 ∷ []) × (s1.written ≡ [])))
recv_all_lem_example = recv_all_lem chan-IsStream sample (6 ∷ []) sampled refl

abbrev padding : Bytes
padding = replicate 5000 0

abbrev padded : Chan
padded = record { arrives = padding ++ (6 ∷ []); written = [] }

drain_lem_example :
    (s1 : Chan) × ((drain chan (length padding) padded ≡ (true, s1))
      × ((s1.arrives ≡ 6 ∷ []) × (s1.written ≡ [])))
drain_lem_example = drain_lem chan-IsStream padding (6 ∷ []) padded refl

abbrev list_opt : Opt
list_opt = record { number = opt_list; bytes = [] }

abbrev go_opt : Opt
go_opt = record { number = opt_go; bytes = sample }

abbrev client : Chan
client = record {
  arrives = be32 3 ++ (script (list_opt ∷ []) ++ (wire go_opt ++ (9 ∷ [])));
  written = [];
}

nbd_handshake_lem_example :
    Ended
      (λ s. s.arrives)
      (λ s. s.written)
      client
      true
      (9 ∷ [])
      (greeting
        ++ all_replies 4096 (takes_no_zeroes 3) (list_opt ∷ [])
        ++ replies 4096 (takes_no_zeroes 3) opt_go)
      (nbd_handshake chan 10 4096 client)
nbd_handshake_lem_example =
    nbd_handshake_lem chan-IsStream 4096 3 (omega arith) (list_opt ∷ []) go_opt (9 ∷ []) client 10
      (((omega arith, omega arith), refl), tt) (omega arith, omega arith) (λ e. ground (arith, e))
      (omega arith) refl

abbrev bad_header : Bytes
bad_header = be64 ihaveopt ++ be32 opt_go ++ be32 70000

bad_size : 65536 < of_be 0 (drop 12 bad_header)
unfolding of_be drop be64 be32
bad_size = omega arith

bad_length : length bad_header ≡ 16
unfolding be64 be32
bad_length = refl

abbrev bad_client : Chan
bad_client = record {
  arrives = be32 3 ++ (script (list_opt ∷ []) ++ (bad_header ++ []));
  written = [];
}

nbd_handshake-refused_example :
    Ended
      (λ s. s.arrives)
      (λ s. s.written)
      bad_client
      false
      []
      (greeting ++ all_replies 4096 (takes_no_zeroes 3) (list_opt ∷ []))
      (nbd_handshake chan 10 4096 bad_client)
nbd_handshake-refused_example =
    nbd_handshake-refused chan-IsStream 4096 3 (omega arith) (list_opt ∷ []) bad_header []
      bad_client 10 (((omega arith, omega arith), refl), tt) bad_length (inr bad_size) (omega arith)
      refl
