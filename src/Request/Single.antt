-- ===== src/Request/Single.antt =====
-- `handle_one` (nbd-vram.c, "Request handling"): one request from its header to its reply, over the
-- interface of the socket and the ranges of the store.
pub mod Write
pub mod Read
pub mod Discard
mod Tests
use nbd_vram.Prelude.{
  ℕ, zero, suc, ◌+◌, ◌-◌, ◌%◌, ◌^◌, Bool, true, false, not, ◌&&◌, ◌||◌, List, [], ◌∷◌, ◌++◌, Option,
  none, some, ◌==◌, if◌then◌else◌,
}
use nbd_vram.Codec.{Bytes, CodecKind, Library}
use nbd_vram.Store.{Store, eio, einval, cmd_read, cmd_write}
use nbd_vram.Store.Trim.{trim_range}
use nbd_vram.Store.Ranges.{worse, load_range, store_range}
use nbd_vram.Socket.{Socket, recv_all, send_all, arrived}
use nbd_vram.Handshake.{be32, payload}
use nbd_vram.Request.{oob, chunk_at}

abbrev pub response_magic : ℕ
response_magic = 0x67446698

abbrev pub cmd_trim : ℕ
cmd_trim = 4

-- `struct nbd_resp_hdr`; the handle is sent back as it came.
abbrev pub response : (error : ℕ) → (handle : Bytes) → Bytes
response error handle = be32 response_magic ++ be32 error ++ handle

module _ {S : Type 0} (sock : Socket S) (lib : Library) (codec : CodecKind) (maxops : ℕ) where
  -- A window of a write that has arrived.
  abbrev pub store_window : (error voff : ℕ) → Bytes → Store → ℕ × Store
  store_window error voff src st =
      let (e, st1) = store_range lib codec maxops voff src st in
      if error == 0 then (worse error e, st1) else (error, st)

  -- The windows of a write, at most `fuel`: the error, or `none` for the return value -1.
  unfoldable pub write_windows :
      (fuel error voff remaining : ℕ) → S → Store → Option ℕ × (S × Store)
  write_windows zero error voff remaining s st = (some error, (s, st))
  write_windows (suc fuel) error voff remaining s st =
      let chunk = chunk_at voff remaining in
      let (got, s1) = recv_all sock chunk s in
      let (error1, st1) = store_window error voff (payload got) st in
      let rest = write_windows fuel error1 ((voff + chunk) % 2 ^ 64) (remaining - chunk) s1 st1 in
      if remaining == 0
      then (some error, (s, st))
      else (if arrived got then rest else (none, (s1, st)))

  -- The windows of a read, and whether none failed.
  unfoldable pub read_windows : (fuel voff remaining : ℕ) → S → Store → Bool × (S × Store)
  read_windows zero voff remaining s st = (true, (s, st))
  read_windows (suc fuel) voff remaining s st =
      let chunk = chunk_at voff remaining in
      let (got, st1) = load_range lib codec maxops voff chunk st in
      let (ok, s1) = send_all sock (payload got) s in
      let rest = read_windows fuel ((voff + chunk) % 2 ^ 64) (remaining - chunk) s1 st1 in
      if remaining == 0
      then (true, (s, st))
      else (if not (arrived got)
          then (false, (s, st1))
          else (if not ok then (false, (s1, st1)) else rest))

  -- The reply, and the data of a read behind it.
  abbrev pub answer :
      (cmd : ℕ)
      → (handle : Bytes) → (offset length : ℕ) → Option ℕ × (S × Store)
      → Bool × (S × Store)
  answer cmd handle offset length (none, after) = (false, after)
  answer cmd handle offset length (some error, (s, st)) =
      let (ok, s1) = send_all sock (response error handle) s in
      let read = read_windows length offset length s1 st in
      if not ok || error == eio
      then (false, (s1, st))
      else (if not (error == 0) || not (cmd == cmd_read) then (true, (s1, st)) else read)

  -- The synchronize call of `NBD_CMD_FLUSH` waits for copies that are done here.
  unfoldable pub handle_one :
      (cmd : ℕ) → (handle : Bytes) → (offset length : ℕ) → S → Store → Bool × (S × Store)
  handle_one cmd handle offset length s st =
      let ranged = cmd == cmd_read || (cmd == cmd_write || cmd == cmd_trim) in
      let error = if ranged && oob st.disk_size offset length then einval else 0 in
      let trimmed = if cmd == cmd_trim && error == 0 then trim_range st offset length else st in
      let wrote = write_windows length error offset length s st in
      answer cmd handle offset length
        (if cmd == cmd_write then wrote else (some error, (s, trimmed)))
