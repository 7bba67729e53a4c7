-- ===== src/Handshake/Dialogue.antt =====
-- What the protocol says of the options, and one option by the code.
use nbd_vram.Prelude.{
  ℕ, ◌≡◌, inl, inr, refl, arith, sym, ap, ◌∙◌, Bool, true, false, eq_cases, ==_ne, ◌||◌, [], ◌∷◌,
  ◌++◌, ◌==◌, if◌then◌else◌, length, replicate,
}
use nbd_vram.Codec.{Bytes}
use nbd_vram.Socket.{Socket, send_all, drain}
use nbd_vram.Socket.Exact.{IsStream, append_assoc, append_nil, send_all_lem, drain_lem}
use nbd_vram.Handshake.{
  be16, be32, be64, opt_rep_magic, opt_export_name, opt_abort, opt_list, opt_info, opt_go, rep_ack,
  rep_server, rep_info, rep_err_unsup, tx_flags, Turn, more, serve, leave, and_go, turn_of,
  send_opt_reply, send_export_info, export_name, export_info, export_list, abort, unsupported,
  answer_option,
}

-- A reply to an option: header and payload.
abbrev pub reply : (opt reply_type : ℕ) → Bytes → Bytes
reply opt reply_type bytes =
    (be64 opt_rep_magic ++ be32 opt ++ be32 reply_type ++ be32 (length bytes)) ++ bytes

-- All that the server sends on an option.
abbrev pub replies : (size : ℕ) → (no_zeroes : Bool) → (opt : ℕ) → Bytes
replies size no_zeroes opt =
    if opt == opt_export_name
    then (be64 size ++ be16 tx_flags) ++ (if no_zeroes then [] else replicate 124 0)
    else (if opt == opt_go || opt == opt_info
        then reply opt rep_info (be16 0 ++ be64 size ++ be16 tx_flags) ++ reply opt rep_ack []
        else (if opt == opt_list
            then reply opt_list rep_server (be32 0) ++ reply opt_list rep_ack []
            else (if opt == opt_abort
                then reply opt_abort rep_ack []
                else reply opt rep_err_unsup [])))

-- Where an option leads.
abbrev pub next : (opt : ℕ) → Turn
next opt =
    if opt == opt_export_name || opt == opt_go
    then serve
    else (if opt == opt_abort then leave else more)

-- `r` is what a call made in `s` comes to: success, with `rest` left to receive and `out` sent.
pub data Does {S : Type 0} (incoming sent : S → Bytes) (r : Bool × S) (s : S) (rest out : Bytes)
    : Type 0 where
  did :
      (s1 : S)
      → r ≡ (true, s1)
      → incoming s1 ≡ rest
      → sent s1 ≡ sent s ++ out
      → Does incoming sent r s rest out

module _ {S : Type 0} {sock : Socket S} {incoming sent : S → Bytes}
    (is : IsStream sock incoming sent) where
  pub and_go_lem :
      {s : S} {mid rest out1 out2 : Bytes} (r : Bool × S) (f : S → Bool × S)
      → Does incoming sent r s mid out1
      → ((s1 : S) → incoming s1 ≡ mid → Does incoming sent (f s1) s1 rest out2)
      → Does incoming sent (and_go r f) s rest (out1 ++ out2)
  and_go_lem {s} {mid} {rest} {out1} {out2} r f (did s1 e left out) then_f = elim (then_f s1 left) [
    | did s2 e2 left2 out_all ↦
        did s2 (rw e e2) left2 (out_all ∙ ap (λ l. l ++ out2) out ∙ append_assoc (sent s) out1 out2)
  ]

  pub sends :
      (bytes rest : Bytes) (s : S)
      → incoming s ≡ rest
      → Does incoming sent (send_all sock bytes s) s rest bytes
  sends bytes rest s left =
      let (s1, (e, (left1, out))) = send_all_lem is bytes s in did s1 e (left1 ∙ left) out

  drains :
      (bytes rest : Bytes) (s : S)
      → incoming s ≡ bytes ++ rest
      → Does incoming sent (drain sock (length bytes) s) s rest []
  drains bytes rest s left =
      let (s1, (e, (left1, out))) = drain_lem is bytes rest s left in
      did s1 e left1 (out ∙ sym (append_nil (sent s)))

  replies_sent :
      (opt reply_type : ℕ) (bytes rest : Bytes) (s : S)
      → incoming s ≡ rest
      → Does incoming sent
          (send_opt_reply sock opt reply_type bytes s)
          s
          rest
          (reply opt reply_type bytes)
  unfolding send_opt_reply
  replies_sent opt reply_type [] rest s left =
      and_go_lem _ _
        (sends (be64 opt_rep_magic ++ be32 opt ++ be32 reply_type ++ be32 0) rest s left)
        (λ s1 left1. did s1 refl left1 (sym (append_nil (sent s1))))
  replies_sent opt reply_type (b ∷ bytes) rest s left =
      let test : (length (b ∷ bytes) == 0) ≡ false = ground arith in
      and_go_lem _
        (λ s1. if length (b ∷ bytes) == 0 then (true, s1) else send_all sock (b ∷ bytes) s1)
        (sends (be64 opt_rep_magic ++ be32 opt ++ be32 reply_type ++ be32 (length (b ∷ bytes))) rest
          s left)
        (λ s1 left1. rw test (sends (b ∷ bytes) rest s1 left1))

  names :
      (size : ℕ) (no_zeroes : Bool) (bytes rest : Bytes) (s : S)
      → incoming s ≡ bytes ++ rest
      → Does incoming sent
          (export_name sock size no_zeroes (length bytes) s)
          s
          rest
          ((be64 size ++ be16 tx_flags) ++ (if no_zeroes then [] else replicate 124 0))
  unfolding export_name
  names size true bytes rest s left = and_go_lem _ _ (drains bytes rest s left) (λ s1 left1.
      and_go_lem _ _ (sends (be64 size ++ be16 tx_flags) rest s1 left1)
        (λ s2 left2. did s2 refl left2 (sym (append_nil (sent s2)))))
  names size false bytes rest s left = and_go_lem _ _ (drains bytes rest s left) (λ s1 left1.
      and_go_lem _ _ (sends (be64 size ++ be16 tx_flags) rest s1 left1)
        (λ s2 left2. sends (replicate 124 0) rest s2 left2))

  infos :
      (size opt : ℕ) (bytes rest : Bytes) (s : S)
      → incoming s ≡ bytes ++ rest
      → Does incoming sent
          (export_info sock size opt (length bytes) s)
          s
          rest
          (reply opt rep_info (be16 0 ++ be64 size ++ be16 tx_flags) ++ reply opt rep_ack [])
  unfolding export_info send_export_info
  infos size opt bytes rest s left = and_go_lem _ _ (drains bytes rest s left) (λ s1 left1.
      and_go_lem _ _
        (replies_sent opt rep_info (be16 0 ++ be64 size ++ be16 tx_flags) rest s1 left1)
        (λ s2 left2. replies_sent opt rep_ack [] rest s2 left2))

  lists :
      (bytes rest : Bytes) (s : S)
      → incoming s ≡ bytes ++ rest
      → Does incoming sent
          (export_list sock (length bytes) s)
          s
          rest
          (reply opt_list rep_server (be32 0) ++ reply opt_list rep_ack [])
  unfolding export_list
  lists bytes rest s left = and_go_lem _ _ (drains bytes rest s left) (λ s1 left1.
      and_go_lem _ _ (replies_sent opt_list rep_server (be32 0) rest s1 left1)
        (λ s2 left2. replies_sent opt_list rep_ack [] rest s2 left2))

  unknown :
      (opt : ℕ) (bytes rest : Bytes) (s : S)
      → incoming s ≡ bytes ++ rest
      → Does incoming sent
          (unsupported sock opt (length bytes) s)
          s
          rest
          (reply opt rep_err_unsup [])
  unfolding unsupported
  unknown opt bytes rest s left =
      and_go_lem _ _ (drains bytes rest s left)
        (λ s1 left1. replies_sent opt rep_err_unsup [] rest s1 left1)

  aborts :
      (bytes rest : Bytes) (s : S)
      → incoming s ≡ bytes ++ rest
      → Does incoming sent (abort sock (length bytes) s) s rest (reply opt_abort rep_ack [])
  unfolding abort
  aborts bytes rest s left = elim (drains bytes rest s left) [
    | did s1 e left1 out1 ↦ elim (replies_sent opt_abort rep_ack [] rest s1 left1) [
      | did s2 e2 left2 out2 ↦
          did s2 (rw e e2) left2
            (out2 ∙ ap (λ l. l ++ reply opt_abort rep_ack []) (out1 ∙ append_nil (sent s)))
    ]
  ]

  -- What an option comes to: the turn that it leads to, its payload gone, and its replies sent.
  abbrev pub Answered :
      (size : ℕ) → (no_zeroes : Bool) → (opt : ℕ) → (rest : Bytes) → S → Turn × S → Type 0
  Answered size no_zeroes opt rest s r =
      (r.0 ≡ next opt) × ((incoming r.1 ≡ rest) × (sent r.1 ≡ sent s ++ replies size no_zeroes opt))

  turned :
      {s : S} {rest out : Bytes} (t : Turn) (r : Bool × S)
      → Does incoming sent r s rest out
      → ((turn_of t r).0 ≡ t)
        × ((incoming (turn_of t r).1 ≡ rest) × (sent (turn_of t r).1 ≡ sent s ++ out))
  turned t r (did s1 e left out) = rw e (refl, (left, out))

  pub answer_option_lem :
      (size : ℕ) (no_zeroes : Bool) (opt : ℕ) (bytes rest : Bytes) (s : S)
      → incoming s ≡ bytes ++ rest
      → Answered size no_zeroes opt rest s (answer_option sock size no_zeroes opt (length bytes) s)
  unfolding answer_option
  answer_option_lem size no_zeroes opt bytes rest s left = elim (eq_cases opt opt_export_name) [
    | inl e ↦ rw e (turned serve _ (names size no_zeroes bytes rest s left))
    | inr ne1 ↦ elim (eq_cases opt opt_go) [
      | inl e ↦ rw e (turned serve _ (infos size opt_go bytes rest s left))
      | inr ne7 ↦ elim (eq_cases opt opt_info) [
        | inl e ↦ rw e (turned more _ (infos size opt_info bytes rest s left))
        | inr ne6 ↦ elim (eq_cases opt opt_list) [
          | inl e ↦ rw e (turned more _ (lists bytes rest s left))
          | inr ne3 ↦ elim (eq_cases opt opt_abort) [
            | inl e ↦ elim (aborts bytes rest s left) [
              | did s1 ran left1 out ↦ rw (e, ran) (refl, (left1, out))
            ]
            | inr ne2 ↦
                rw
                  (
                    ==_ne opt opt_export_name ne1,
                    ==_ne opt opt_go ne7,
                    ==_ne opt opt_info ne6,
                    ==_ne opt opt_list ne3,
                    ==_ne opt opt_abort ne2,
                  )
                  (turned more _ (unknown opt bytes rest s left))
          ]
        ]
      ]
    ]
  ]
