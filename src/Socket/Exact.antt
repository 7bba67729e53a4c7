-- ===== src/Socket/Exact.antt =====
-- `recv_all`, `send_all` and `drain` on a connection that lasts.
use nbd_vram.Prelude.{
  ℕ, zero, suc, ◌+◌, ◌-◌, ◌≤◌, ◌≡◌, ◌≢◌, refl, arith, sym, ap, ◌∙◌, true, false, ==_ne, [], ◌∷◌,
  ◌++◌, some, ◌==◌, length, take, drop, take-append-drop, length-take, length-drop, length-append,
}
use mathlib.Core.Path.{subst}
use nbd_vram.Codec.{Bytes}
use nbd_vram.Socket.{
  Socket, recv_loop, recv_all, send_loop, send_all, drain_chunk, drain_loop, drain,
}

-- What `recv` and `send` are documented to do on a blocking stream socket whose connection lasts: `recv`
-- waits for a byte and gives bytes of the stream in order, `send` takes a byte at least and they are sent
-- in order.
pub record IsStream {S : Type 0} (sock : Socket S) (incoming sent : S → Bytes) : Type 0 where
  pub recv_order :
      (s : S) (len : ℕ) → incoming s ≡ (sock.recv s len).0 ++ incoming (sock.recv s len).1
  pub recv_le : (s : S) (len : ℕ) → length (sock.recv s len).0 ≤ len
  pub recv_some : (s : S) (len : ℕ) → len ≢ 0 → incoming s ≢ [] → length (sock.recv s len).0 ≢ 0
  pub recv_sent : (s : S) (len : ℕ) → sent (sock.recv s len).1 ≡ sent s
  pub send_le : (s : S) (bytes : Bytes) → (sock.send s bytes).0 ≤ length bytes
  pub send_order :
      (s : S) (bytes : Bytes)
      → sent (sock.send s bytes).1 ≡ sent s ++ take (sock.send s bytes).0 bytes
  pub send_some : (s : S) (bytes : Bytes) → bytes ≢ [] → (sock.send s bytes).0 ≢ 0
  pub send_incoming : (s : S) (bytes : Bytes) → incoming (sock.send s bytes).1 ≡ incoming s

pub append_assoc : (xs ys zs : Bytes) → (xs ++ ys) ++ zs ≡ xs ++ (ys ++ zs)
append_assoc [] ys zs = refl
append_assoc (x ∷ xs) ys zs = ap (λ l. x ∷ l) (append_assoc xs ys zs)

pub append_nil : (xs : Bytes) → xs ++ [] ≡ xs
append_nil [] = refl
append_nil (x ∷ xs) = ap (λ l. x ∷ l) (append_nil xs)

-- Two ways to cut a list: the shorter start begins the longer one.
pub split :
    (xs ys zs ws : Bytes)
    → xs ++ ys ≡ zs ++ ws
    → length zs ≤ length xs
    → (mid : Bytes) × ((xs ≡ zs ++ mid) × (ws ≡ mid ++ ys))
split xs ys [] ws e le = (xs, (refl, sym e))
split [] ys (a ∷ zs) ws e le = absurd (omega (arith, le))
split (x ∷ xs) ys (a ∷ zs) ws e le =
    let head : x ≡ a = ground (arith, e) in
    let tail : xs ++ ys ≡ zs ++ ws = ground (arith, e) in
    let (mid, (front, back)) = split xs ys zs ws tail (omega (arith, le)) in
    (mid, (rw (head, front) refl, back))

drain_chunk_le : (len : ℕ) → 1 ≤ len → (1 ≤ drain_chunk len) × (drain_chunk len ≤ len)
unfolding drain_chunk
drain_chunk_le len pos = (ground (arith, pos), ground arith)

module _ {S : Type 0} {sock : Socket S} {incoming sent : S → Bytes}
    (is : IsStream sock incoming sent) where
  -- The loop brings exactly the bytes asked for, however they arrive.
  recv_loop_lem :
      (turns : ℕ) (bytes rest : Bytes) (s : S)
      → length bytes ≤ turns
      → incoming s ≡ bytes ++ rest
      → (s1 : S) × ((recv_loop sock turns (length bytes) s ≡ (some bytes, s1))
          × ((incoming s1 ≡ rest) × (sent s1 ≡ sent s)))
  unfolding recv_loop
  recv_loop_lem zero [] rest s le e = (s, (refl, (e, refl)))
  recv_loop_lem zero (b ∷ bytes) rest s le e = absurd (omega (arith, le))
  recv_loop_lem (suc turns) [] rest s le e = (s, (refl, (e, refl)))
  recv_loop_lem (suc turns) (b ∷ bytes) rest s le e =
      let all : Bytes = b ∷ bytes in
      let r = sock.recv s (length all) in
      let some_left : incoming s ≢ [] = λ z. ground (arith, sym e ∙ z) in
      let took = is.recv_some s (length all) (omega arith) some_left in
      let (mid, (front, back)) =
        split all rest r.0 (incoming r.1) (sym e ∙ is.recv_order s (length all))
          (is.recv_le s (length all)) in
      let size : length all ≡ length r.0 + length mid = ap length front ∙ length-append r.0 mid in
      let (s1, (ran, (left, out))) =
        recv_loop_lem turns mid rest r.1 (omega (arith, size, le, took)) back in
      let less : length all - length r.0 ≡ length mid = omega (arith, size) in
      let test : (length r.0 == 0) ≡ false = ==_ne (length r.0) 0 took in
      let test1 : (length all == 0) ≡ false = ground arith in
      (s1, (rw (test1, test, less, ran, ← front) refl, (left, out ∙ is.recv_sent s (length all))))

  -- Over a connection that lasts, `recv_all` of bytes that arrive returns exactly these and leaves those
  -- behind them, however the calls of `recv` cut the stream, and it sends nothing.
  pub recv_all_lem :
      (bytes rest : Bytes) (s : S)
      → incoming s ≡ bytes ++ rest
      → (s1 : S) × ((recv_all sock (length bytes) s ≡ (some bytes, s1))
          × ((incoming s1 ≡ rest) × (sent s1 ≡ sent s)))
  recv_all_lem bytes rest s e = recv_loop_lem (length bytes) bytes rest s (omega arith) e

  send_loop_lem :
      (turns : ℕ) (bytes : Bytes) (s : S)
      → length bytes ≤ turns
      → (s1 : S) × ((send_loop sock turns bytes s ≡ (true, s1))
          × ((incoming s1 ≡ incoming s) × (sent s1 ≡ sent s ++ bytes)))
  unfolding send_loop
  send_loop_lem zero [] s le = (s, (refl, (refl, sym (append_nil (sent s)))))
  send_loop_lem zero (b ∷ bytes) s le = absurd (omega (arith, le))
  send_loop_lem (suc turns) [] s le = (s, (refl, (refl, sym (append_nil (sent s)))))
  send_loop_lem (suc turns) (b ∷ bytes) s le =
      let all : Bytes = b ∷ bytes in
      let r = sock.send s all in
      let took = is.send_some s all (λ z. ground (arith, z)) in
      let (s1, (ran, (left, out))) =
        send_loop_lem turns (drop r.0 all) r.1 (omega (arith, length-drop r.0 all, le, took)) in
      let test : (r.0 == 0) ≡ false = ==_ne r.0 0 took in
      let test1 : (length all == 0) ≡ false = ground arith in
      (
        s1,
        (
          rw (test1, test) ran,
          (
            left ∙ is.send_incoming s all,
            out
                ∙ ap (λ l. l ++ drop r.0 all) (is.send_order s all)
                ∙ append_assoc (sent s) (take r.0 all) (drop r.0 all)
                ∙ ap (λ l. sent s ++ l) (take-append-drop r.0 all),
          ),
        ),
      )

  pub send_all_lem :
      (bytes : Bytes) (s : S)
      → (s1 : S) × ((send_all sock bytes s ≡ (true, s1))
          × ((incoming s1 ≡ incoming s) × (sent s1 ≡ sent s ++ bytes)))
  send_all_lem bytes s = send_loop_lem (length bytes) bytes s (omega arith)

  drain_loop_lem :
      (turns : ℕ) (bytes rest : Bytes) (s : S)
      → length bytes ≤ turns
      → incoming s ≡ bytes ++ rest
      → (s1 : S) × ((drain_loop sock turns (length bytes) s ≡ (true, s1))
          × ((incoming s1 ≡ rest) × (sent s1 ≡ sent s)))
  unfolding drain_loop
  drain_loop_lem zero [] rest s le e = (s, (refl, (e, refl)))
  drain_loop_lem zero (b ∷ bytes) rest s le e = absurd (omega (arith, le))
  drain_loop_lem (suc turns) [] rest s le e = (s, (refl, (e, refl)))
  drain_loop_lem (suc turns) (b ∷ bytes) rest s le e =
      let all : Bytes = b ∷ bytes in
      let chunk = drain_chunk (length all) in
      let (some_done, fits) = drain_chunk_le (length all) (omega arith) in
      let size : length (take chunk all) ≡ chunk = omega (arith, length-take chunk all, fits) in
      let cut : incoming s ≡ take chunk all ++ (drop chunk all ++ rest) =
        e
        ∙ ap (λ l. l ++ rest) (sym (take-append-drop chunk all))
        ∙ append_assoc (take chunk all) (drop chunk all) rest in
      let (s1, (ran, (left, out))) = recv_all_lem (take chunk all) (drop chunk all ++ rest) s cut in
      let (s2, (ran2, (left2, out2))) =
        drain_loop_lem turns (drop chunk all) rest s1
          (omega (arith, length-drop chunk all, le, some_done)) left in
      let test1 : (length all == 0) ≡ false = ground arith in
      let ran1 : recv_all sock chunk s ≡ (some (take chunk all), s1) =
        subst (λ m. recv_all sock m s ≡ (some (take chunk all), s1)) size ran in
      let less : length all - chunk ≡ length (drop chunk all) = sym (length-drop chunk all) in
      (s2, (rw (test1, ran1, less) ran2, (left2, out2 ∙ out)))

  -- Over a connection that lasts, `drain` of bytes that arrive returns success and leaves those behind them,
  -- however many of its buffers they fill, and it sends nothing.
  pub drain_lem :
      (bytes rest : Bytes) (s : S)
      → incoming s ≡ bytes ++ rest
      → (s1 : S) × ((drain sock (length bytes) s ≡ (true, s1))
          × ((incoming s1 ≡ rest) × (sent s1 ≡ sent s)))
  drain_lem bytes rest s e = drain_loop_lem (length bytes) bytes rest s (omega arith) e
