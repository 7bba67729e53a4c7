-- ===== src/Batch/Client/Frames.antt =====
-- Requests as they stand on the wire, and `recv_hdr_nb` of one.
use nbd_vram.Prelude.{
  ℕ, ◌+◌, ◌-◌, ◌^◌, ◌≤◌, ◌<◌, ◌≡◌, ◌≢◌, inl, inr, refl, arith, sym, ap, ◌∙◌, true, false,
  Bool-cases, List, [], ◌∷◌, ◌++◌, Option, none, some, ◌==◌, length, length-append, take, drop,
}
use mathlib.Core.Path.{subst}
use nbd_vram.Codec.{Bytes}
use nbd_vram.Socket.{Socket}
use nbd_vram.Socket.Exact.{IsStream, split, recv_all_lem, append_nil}
use nbd_vram.Handshake.{be16, be32, be64, of_be}
use nbd_vram.Batch.{Header, request_magic}
use nbd_vram.Batch.Client.{header_of, Peek, queued, not_yet, look_at, recv_hdr_nb}

-- A request with the bytes of its payload.
pub record Frame : Type 0 where
  pub flags : ℕ
  pub cmd : ℕ
  pub handle : ℕ
  pub from : ℕ
  pub len : ℕ
  pub bytes : Bytes

abbrev pub head : Frame → Bytes
head f =
    be32 request_magic ++ be16 f.flags ++ be16 f.cmd ++ be64 f.handle ++ be64 f.from ++ be32 f.len

abbrev pub wire : Frame → Bytes
wire f = head f ++ f.bytes

abbrev pub script : List Frame → Bytes
script [] = []
script (f ∷ fs) = wire f ++ script fs

-- Its fields as the server takes them.
abbrev pub header_in : Frame → Header
header_in f = record {
  magic = request_magic;
  cmd = f.cmd;
  handle = f.handle;
  from = f.from;
  len = f.len;
  payload = true;
}

-- The numbers fit their fields.
pub record Fielded (f : Frame) : Type 0 where
  pub flags : f.flags < 2 ^ 16
  pub cmd : f.cmd < 2 ^ 16
  pub handle : f.handle < 2 ^ 64
  pub from : f.from < 2 ^ 64
  pub len : f.len < 2 ^ 32

pub length-head : (f : Frame) → length (head f) ≡ 28
unfolding be64 be32 be16
length-head f = refl

magic_back : (f : Frame) → of_be 0 (take 4 (head f)) ≡ request_magic
unfolding be64 be32 be16 of_be take
magic_back f = refl

cmd_back : (f : Frame) → f.cmd < 2 ^ 16 → of_be 0 (take 2 (drop 6 (head f))) ≡ f.cmd
unfolding be64 be32 be16 of_be take drop
cmd_back f lt = omega (arith, lt)

handle_back : (f : Frame) → f.handle < 2 ^ 64 → of_be 0 (take 8 (drop 8 (head f))) ≡ f.handle
unfolding be64 be32 be16 of_be take drop
handle_back f lt = omega (arith, lt)

from_back : (f : Frame) → f.from < 2 ^ 64 → of_be 0 (take 8 (drop 16 (head f))) ≡ f.from
unfolding be64 be32 be16 of_be take drop
from_back f lt = omega (arith, lt)

len_back : (f : Frame) → f.len < 2 ^ 32 → of_be 0 (take 4 (drop 24 (head f))) ≡ f.len
unfolding be64 be32 be16 of_be take drop
len_back f lt = omega (arith, lt)

-- The server reads the fields that the client wrote.
pub header_of-head : (f : Frame) → Fielded f → header_of (head f) ≡ header_in f
unfolding header_of
header_of-head f fields =
    rw
      (
        magic_back f,
        cmd_back f fields.cmd,
        handle_back f fields.handle,
        from_back f fields.from,
        len_back f fields.len,
      )
      refl

abbrev bytes_of : Option Bytes → Bytes
bytes_of none = []
bytes_of (some bytes) = bytes

-- The non-blocking `recv` gives the next bytes too, and no bytes for the end of the stream only.
pub record IsNow {S : Type 0} (recv_now : S → (len : ℕ) → Option Bytes × S)
    (incoming sent : S → Bytes) : Type 0 where
  pub now_order :
      (s : S) (len : ℕ) → incoming s ≡ bytes_of (recv_now s len).0 ++ incoming (recv_now s len).1
  pub now_le : (s : S) (len : ℕ) → length (bytes_of (recv_now s len).0) ≤ len
  pub now_end : (s : S) (len : ℕ) → len ≢ 0 → (recv_now s len).0 ≡ some [] → incoming s ≡ []
  pub now_sent : (s : S) (len : ℕ) → sent (recv_now s len).1 ≡ sent s

-- What a look for a header comes to: nothing, or the header that is next.
pub data Looked {S : Type 0} (incoming sent : S → Bytes) (hdr rest : Bytes) (s : S)
    : Peek × S → Type 0 where
  later :
      (s1 : S)
      → incoming s1 ≡ hdr ++ rest
      → sent s1 ≡ sent s
      → Looked incoming sent hdr rest s (not_yet, s1)
  now :
      (s1 : S)
      → incoming s1 ≡ rest
      → sent s1 ≡ sent s
      → Looked incoming sent hdr rest s (queued hdr, s1)

no_bytes : (xs : Bytes) → length xs ≡ 0 → xs ≡ []
no_bytes [] e = refl
no_bytes (x ∷ xs) e = absurd (omega (arith, e))

not_empty : (hdr rest : Bytes) → length hdr ≡ 28 → hdr ++ rest ≢ []
not_empty [] rest size e = absurd (omega (arith, size))
not_empty (b ∷ hdr) rest size e = ground (arith, e)

module _ {S : Type 0} {sock : Socket S} {incoming sent : S → Bytes}
    (stream : IsStream sock incoming sent) {recv_now : S → (len : ℕ) → Option Bytes × S}
    (is_now : IsNow recv_now incoming sent) where
  -- The rest of a header whose first bytes came.
  look_at_lem :
      (hdr rest : Bytes) (s : S) (o : Option Bytes) (s1 : S)
      → length hdr ≡ 28
      → hdr ++ rest ≡ bytes_of o ++ incoming s1
      → length (bytes_of o) ≤ 28
      → o ≢ some []
      → sent s1 ≡ sent s
      → Looked incoming sent hdr rest s (look_at sock recv_now (o, s1))
  unfolding look_at
  look_at_lem hdr rest s none s1 size order le some_bytes out = later s1 (sym order) out
  look_at_lem hdr rest s (some []) s1 size order le some_bytes out = absurd (some_bytes refl)
  look_at_lem hdr rest s (some (b ∷ front)) s1 size order le some_bytes out =
      let got = b ∷ front in
      let (mid, (begins, after)) =
        split hdr rest got (incoming s1) order (omega (arith, le, size)) in
      let sizes : length hdr ≡ length got + length mid = ap length begins ∙ length-append got mid in
      let test : (length got == 0) ≡ false = ground arith in
      elim (Bool-cases (length got == 28)) [
        | inl whole ↦
            let short : length mid ≡ 0 = ground (arith, whole, sizes, size) in
            let nothing : mid ≡ [] = no_bytes mid short in
            let all : got ≡ hdr = sym (begins ∙ ap (λ m. got ++ m) nothing ∙ append_nil got) in
            rw (test, whole)
              (subst (λ h. Looked incoming sent hdr rest s (queued h, s1)) (sym all)
                (now s1 (after ∙ ap (λ m. m ++ rest) nothing) out))
        | inr part ↦
            let left : length mid ≡ 28 - length got = omega (arith, sizes, size) in
            let (s2, (e, (after2, out2))) = recv_all_lem stream mid rest s1 after in
            rw (test, part, ← left, e)
              (subst (λ h. Looked incoming sent hdr rest s (queued h, s2)) begins
                (now s2 after2 (out2 ∙ out)))
      ]

  pub recv_hdr_nb_lem :
      (hdr rest : Bytes) (s : S)
      → length hdr ≡ 28
      → incoming s ≡ hdr ++ rest
      → Looked incoming sent hdr rest s (recv_hdr_nb sock recv_now s)
  unfolding recv_hdr_nb
  recv_hdr_nb_lem hdr rest s size arrives =
      look_at_lem hdr rest s (recv_now s 28).0 (recv_now s 28).1 size
        (sym arrives ∙ is_now.now_order s 28) (is_now.now_le s 28)
        (λ over. not_empty hdr rest size (sym arrives ∙ is_now.now_end s 28 (omega arith) over))
        (is_now.now_sent s 28)
