-- ===== src/Request/Single/Discard.antt =====
-- A discard by `handle_one`.
use nbd_vram.Prelude.{ℕ, ◌+◌, ◌*◌, ◌^◌, ◌≤◌, ◌≡◌, refl, Bool, true, ◌&&◌, leb, ltb, ◌++◌}
use nbd_vram.Heap.{cblk_size}
use nbd_vram.Codec.{Bytes, CodecKind, Library}
use nbd_vram.Store.{Store}
use nbd_vram.Store.IsStore.{IsStore}
use nbd_vram.Store.Trim.Exact.{Trimmed, trim_range_lem}
use nbd_vram.Socket.{Socket}
use nbd_vram.Socket.Exact.{IsStream, send_all_lem}
use nbd_vram.Request.Single.{response, cmd_trim, handle_one}
use nbd_vram.Request.Single.Write.{oob-false}

-- What a discard comes to: the blocks that lie wholly in the range are gone, the reply is sent, and the
-- connection is kept.
pub record Discarded {S : Type 0} (incoming sent : S → Bytes) (lib : Library) (codec : CodecKind)
    (st : Store) (offset n : ℕ) (handle : Bytes) (s : S) (r : Bool × (S × Store)) : Type 0 where
  pub trimmed :
      Trimmed lib codec
        (λ b.
          ltb b st.nblocks
          && (leb offset (b * cblk_size) && leb ((b + 1) * cblk_size) (offset + n)))
        st
        r.1.1
  pub left : incoming r.1.0 ≡ incoming s
  pub said : sent r.1.0 ≡ sent s ++ response 0 handle
  pub keeps : r.0 ≡ true

-- Over a connection that lasts, a discard inside a disk whose last block ends below 2^64 empties exactly
-- the blocks that lie wholly in its range, it receives nothing more and sends one reply without an error,
-- and the connection is kept.
pub handle_one-Discarded :
    {S : Type 0} {sock : Socket S} {incoming sent : S → Bytes}
    → IsStream sock incoming sent
    → {lib : Library} {codec : CodecKind} {st : Store} → IsStore lib codec st
    → (maxops : ℕ) (handle : Bytes) (offset n : ℕ) (s : S) → offset + n ≤ st.disk_size
    → st.disk_size + cblk_size ≤ 2 ^ 64
    → Discarded incoming sent lib codec st offset n handle s
        (handle_one sock lib codec maxops cmd_trim handle offset n s st)
unfolding handle_one
handle_one-Discarded is {st = st} ok maxops handle offset n s inside small =
    let fine = oob-false st.disk_size offset n inside in
    let (s1, (ran, (left, out))) = send_all_lem is (response 0 handle) s in
    rw (fine, ran)
      (record {
        trimmed = trim_range_lem ok offset n inside small;
        left = left;
        said = out;
        keeps = refl;
      })
