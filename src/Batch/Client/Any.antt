-- ===== src/Batch/Client/Any.antt =====
-- One request of any kind keeps the invariant of the store.
use nbd_vram.Prelude.{
  ℕ, zero, suc, ◌+◌, ◌-◌, ◌%◌, ◌^◌, ◌≤◌, Bool, true, false, not, ◌&&◌, ◌||◌, Option, none, some,
  ◌==◌, if◌then◌else◌,
}
use nbd_vram.Codec.{Bytes, CodecKind, Library, IsLossless}
use nbd_vram.Store.{Store, einval, eio, cmd_read, cmd_write}
use nbd_vram.Store.IsStore.{IsStore}
use nbd_vram.Store.Trim.{trim_range}
use nbd_vram.Store.Trim.Exact.{trim_blocks_lem}
use nbd_vram.Store.Ranges.{load_range}
use nbd_vram.Store.Ranges.SaveRange.{store_range_lem}
use nbd_vram.Store.Ranges.LoadRange.{load_range_lem}
use nbd_vram.Socket.{Socket, recv_all, send_all, arrived}
use nbd_vram.Handshake.{payload}
use nbd_vram.Request.{oob, chunk_at}
use nbd_vram.Request.Single.{
  cmd_trim, response, store_window, write_windows, read_windows, answer, handle_one,
}

pub if_keeps {ℓ} :
    {A : Type ℓ} (P : A → Type 0) (b : Bool) (x y : A) → P x → P y → P (if b then x else y)
if_keeps P true x y p q = p
if_keeps P false x y p q = q

module _ {S : Type 0} (sock : Socket S) (lib : Library) (codec : CodecKind)
    (lossless : IsLossless lib) (maxops : ℕ) (pos : 1 ≤ maxops) where
  -- The invariant holds of the store in a result.
  abbrev Holds : {A : Type 0} → A × (S × Store) → Type 0
  Holds r = IsStore lib codec r.1.1

  trim_range-IsStore :
      {st : Store}
      → IsStore lib codec st
      → (off len : ℕ) → IsStore lib codec (trim_range st off len)
  unfolding trim_range
  trim_range-IsStore is off len = (trim_blocks_lem _ _ is).store

  store_window-IsStore :
      (error voff : ℕ) (src : Bytes) {st : Store}
      → IsStore lib codec st
      → IsStore lib codec (store_window sock lib codec maxops error voff src st).1
  store_window-IsStore error voff src is =
      if_keeps (λ (r : ℕ × Store). IsStore lib codec r.1) (error == 0) _ _
        (store_range_lem lossless maxops pos is voff src).store is

  write_windows-IsStore :
      (fuel error voff remaining : ℕ) (s : S) (st : Store)
      → IsStore lib codec st
      → Holds (write_windows sock lib codec maxops fuel error voff remaining s st)
  unfolding write_windows
  write_windows-IsStore zero error voff remaining s st is = is
  write_windows-IsStore (suc fuel) error voff remaining s st is =
      let chunk = chunk_at voff remaining in
      let got = recv_all sock chunk s in
      let r = store_window sock lib codec maxops error voff (payload got.0) st in
      if_keeps Holds (remaining == 0) _ _ is (
        if_keeps Holds (arrived got.0) _ _
          (write_windows-IsStore fuel r.0 ((voff + chunk) % 2 ^ 64) (remaining - chunk) got.1 r.1
            (store_window-IsStore error voff (payload got.0) is))
          is)

  read_windows-IsStore :
      (fuel voff remaining : ℕ) (s : S) (st : Store)
      → IsStore lib codec st
      → Holds (read_windows sock lib codec maxops fuel voff remaining s st)
  unfolding read_windows
  read_windows-IsStore zero voff remaining s st is = is
  read_windows-IsStore (suc fuel) voff remaining s st is =
      let chunk = chunk_at voff remaining in
      let r = load_range lib codec maxops voff chunk st in
      let is1 = (load_range_lem lossless maxops pos is voff chunk).store in
      let sent = send_all sock (payload r.0) s in
      if_keeps Holds (remaining == 0) _ _ is (
        if_keeps Holds (not (arrived r.0)) _ _ is1 (
          if_keeps Holds (not sent.0) _ _ is1 (
            read_windows-IsStore fuel ((voff + chunk) % 2 ^ 64) (remaining - chunk) sent.1 r.1
              is1)))

  answer-IsStore :
      (cmd : ℕ) (handle : Bytes) (offset length : ℕ) (r : Option ℕ × (S × Store))
      → Holds r
      → Holds (answer sock lib codec maxops cmd handle offset length r)
  answer-IsStore cmd handle offset length (none, after) is = is
  answer-IsStore cmd handle offset length (some error, (s, st)) is =
      let said = send_all sock (response error handle) s in
      if_keeps Holds (not said.0 || error == eio) _ _ is (
        if_keeps Holds (not (error == 0) || not (cmd == cmd_read)) _ _ is
          (read_windows-IsStore length offset length said.1 st is))

  pub handle_one-IsStore :
      (cmd : ℕ) (handle : Bytes) (offset length : ℕ) (s : S) (st : Store)
      → IsStore lib codec st
      → Holds (handle_one sock lib codec maxops cmd handle offset length s st)
  unfolding handle_one
  handle_one-IsStore cmd handle offset length s st is =
      let ranged = cmd == cmd_read || (cmd == cmd_write || cmd == cmd_trim) in
      let error = if ranged && oob st.disk_size offset length then einval else 0 in
      answer-IsStore cmd handle offset length _ (
        if_keeps Holds (cmd == cmd_write) _ _
          (write_windows-IsStore length error offset length s st is)
          (if_keeps (λ t. IsStore lib codec t) (cmd == cmd_trim && error == 0) _ _
            (trim_range-IsStore is offset length) is))
