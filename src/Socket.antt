-- ===== src/Socket.antt =====
-- `recv_all`, `send_all` and `drain` (nbd-vram.c). The system calls are the operations of an interface:
-- a call may take or give fewer bytes than it is asked for.
pub mod Exact
use nbd_vram.Prelude.{
  ℕ, zero, suc, ◌+◌, ◌-◌, ◌≤◌, ◌≡◌, ◌≢◌, Bool, true, false, List, [], ◌∷◌, ◌++◌, Option, none, some,
  ltb, ◌==◌, if◌then◌else◌, length, take, drop,
}
use nbd_vram.Codec.{Bytes}

-- `recv` gives the bytes that it wrote into the buffer, none for an error or the end of the stream; `send`
-- gives the number of bytes that it took, 0 for an error.
pub record Socket (S : Type 0) : Type 0 where
  pub recv : S → (len : ℕ) → Bytes × S
  pub send : S → Bytes → ℕ × S

abbrev pub arrived : Option Bytes → Bool
arrived none = false
arrived (some bytes) = true

-- What `drain` takes at once, into a buffer of 4096 bytes.
unfoldable pub drain_chunk : (len : ℕ) → ℕ
drain_chunk len = if ltb 4096 len then 4096 else len

module _ {S : Type 0} (sock : Socket S) where
  -- `len` bytes are missing; every turn of the loop brings one at least.
  unfoldable pub recv_loop : (turns len : ℕ) → S → Option Bytes × S
  recv_loop zero len s = (some [], s)
  recv_loop (suc turns) len s =
      let (got, s1) = sock.recv s len in
      let rest = recv_loop turns (len - length got) s1 in
      if len == 0
      then (some [], s)
      else (if length got == 0
          then (none, s1)
          else (elim rest.0 [ none ↦ none | some more ↦ some (got ++ more) ], rest.1))

  abbrev pub recv_all : (len : ℕ) → S → Option Bytes × S
  recv_all len s = recv_loop len len s

  unfoldable pub send_loop : (turns : ℕ) → Bytes → S → Bool × S
  send_loop zero bytes s = (true, s)
  send_loop (suc turns) bytes s =
      let (n, s1) = sock.send s bytes in
      let rest = send_loop turns (drop n bytes) s1 in
      if length bytes == 0 then (true, s) else (if n == 0 then (false, s1) else rest)

  abbrev pub send_all : Bytes → S → Bool × S
  send_all bytes s = send_loop (length bytes) bytes s

  unfoldable pub drain_loop : (turns len : ℕ) → S → Bool × S
  drain_loop zero len s = (true, s)
  drain_loop (suc turns) len s =
      let chunk = drain_chunk len in
      let (bytes, s1) = recv_all chunk s in
      let rest = drain_loop turns (len - chunk) s1 in
      if len == 0 then (true, s) else (if arrived bytes then rest else (false, s1))

  abbrev pub drain : (len : ℕ) → S → Bool × S
  drain len s = drain_loop len len s
