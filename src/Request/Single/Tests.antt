-- ===== src/Request/Single/Tests.antt =====
-- Requests on a store with one block written, over a socket that moves three bytes a call.
use nbd_vram.Prelude.{refl, arith, [], ◌∷◌, ◌++◌}
use nbd_vram.Codec.{Bytes, zstd}
use nbd_vram.Store.{cmd_read, cmd_write}
use nbd_vram.Store.Tests.{library, library-IsLossless, one, one-IsStore, one_disk}
use nbd_vram.Handshake.Tests.{Chan, chan, chan-IsStream}
use nbd_vram.Request.Single.{cmd_trim, handle_one}
use nbd_vram.Request.Single.Write.{Handled, Refused, handle_one-Handled, handle_one-Refused}
use nbd_vram.Request.Single.Discard.{Discarded, handle_one-Discarded}
use nbd_vram.Request.Single.Read.{Read, handle_one-Read}

abbrev handle : Bytes
handle = 1 ∷ 2 ∷ 3 ∷ 4 ∷ 5 ∷ 6 ∷ 7 ∷ 8 ∷ []

abbrev sample : Bytes
sample = 8 ∷ 8 ∷ 9 ∷ 9 ∷ []

abbrev peer : Chan
peer = record { arrives = sample ++ (6 ∷ []); written = [] }

handle_one-Handled_example :
    Handled
      (λ s. s.arrives)
      (λ s. s.written)
      library
      zstd
      one
      12286
      sample
      (6 ∷ [])
      handle
      peer
      (handle_one chan library zstd 512 cmd_write handle 12286 4 peer one)
handle_one-Handled_example =
    handle_one-Handled chan-IsStream library-IsLossless zstd 512 (omega arith) one-IsStore handle
      12286 sample (6 ∷ []) peer (omega (arith, one_disk)) (omega (arith, one_disk)) (omega arith)
      refl

handle_one-Refused_example :
    Refused
      (λ s. s.arrives)
      (λ s. s.written)
      one
      (6 ∷ [])
      handle
      peer
      (handle_one chan library zstd 512 cmd_write handle 1048574 4 peer one)
handle_one-Refused_example =
    handle_one-Refused chan-IsStream library-IsLossless zstd 512 (omega arith) one-IsStore handle
      1048574 sample (6 ∷ []) peer (omega (arith, one_disk)) (omega arith) (omega arith) refl

handle_one-Read_example :
    Read
      (λ s. s.arrives)
      (λ s. s.written)
      library
      zstd
      one
      12000
      9000
      handle
      peer
      (handle_one chan library zstd 512 cmd_read handle 12000 9000 peer one)
handle_one-Read_example =
    handle_one-Read chan-IsStream library-IsLossless zstd 512 (omega arith) one-IsStore handle 12000
      9000 peer (omega (arith, one_disk)) (omega (arith, one_disk)) (omega arith)

handle_one-Discarded_example :
    Discarded
      (λ s. s.arrives)
      (λ s. s.written)
      library
      zstd
      one
      5000
      20000
      handle
      peer
      (handle_one chan library zstd 512 cmd_trim handle 5000 20000 peer one)
handle_one-Discarded_example =
    handle_one-Discarded chan-IsStream one-IsStore 512 handle 5000 20000 peer
      (omega (arith, one_disk)) (omega (arith, one_disk))
