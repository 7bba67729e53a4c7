-- ===== src/Threads/Tests.antt =====
-- Two workers, of which the first has a client when the signal comes.
use nbd_vram.Prelude.{◌≡◌, inl, inr, refl, arith, eq_cases, ==_ne, sym, true, false}
use nbd_vram.Threads.{
  failure, nothing, client, Daemon, connected, ended, worker_step, worker_move, handler_step,
  handler_move, worker, signal, launched, Reach, launch, later, Stays, here, next, no_turn, by_self,
  by_other, by_call,
}
use nbd_vram.Threads.Drain.{Stays-running}
use nbd_vram.Threads.Stop.{Turns-ended}
use nbd_vram.Threads.Drained.{Vacant, Draining, Turns-drained}

-- The first worker from its start to the accepted client, and on.
abbrev held : Daemon
held =
    worker_step 2 0 (client 5)
      (worker_step 2 0 nothing (worker_step 2 0 nothing (worker_step 2 0 nothing launched)))

abbrev serving_one : Daemon
serving_one = worker_step 2 0 nothing held

reached : Reach 2 serving_one
reached =
    later
      (later
        (later
          (later (later launch (worker 0 nothing (omega arith))) (worker 0 nothing (omega arith)))
          (worker 0 nothing (omega arith)))
        (worker 0 (client 5) (omega arith)))
      (worker 0 nothing (omega arith))

abbrev asked : Daemon
asked = handler_step 2 7 (handler_step 2 7 serving_one)

-- The signal, and the second worker up to its look at the clients.
abbrev drained : Daemon
drained =
    worker_step 2 1 nothing
      (worker_step 2 1 nothing (worker_step 2 1 nothing (worker_step 2 1 nothing asked)))

stays : Stays 2 0 serving_one drained
unfolding worker_move handler_move
stays =
    next
      (next
        (next
          (next (next (next here (signal 7) refl) (signal 7) refl) (worker 1 nothing (omega arith))
            refl)
          (worker 1 nothing (omega arith)) refl)
        (worker 1 nothing (omega arith)) refl)
      (worker 1 nothing (omega arith)) refl

not_asked : serving_one.term_requested ≡ false
unfolding worker_move
not_asked = refl

attached : connected (serving_one.client_fds 0) ≡ true
unfolding worker_move
attached = refl

Stays-running_example : drained.running ≡ true
Stays-running_example = Stays-running reached not_asked (omega arith) attached stays

-- The client gone, the first worker is back at the head of its loop.
abbrev alone_again : Daemon
alone_again = worker_step 2 0 nothing (worker_step 2 0 failure asked)

-- Nobody has a client there, or waits for one.
vacant : Vacant alone_again
unfolding worker_move handler_move
vacant = record {
  asked = refl;
  idle =
      λ j. elim (eq_cases j 0) [ inl e ↦ rw e tt | inr ne ↦ rw (==_ne 0 j (λ e. ne (sym e))) tt ];
  free = λ j. elim (eq_cases j 0) [
    | inl e ↦ rw e refl
    | inr ne ↦ rw (==_ne 0 j (λ e. ne (sym e))) refl
  ];
}

in_loop : Draining (alone_again.places 0)
unfolding worker_move handler_move
in_loop = tt

-- Seven steps of the first worker, with one of the second and one of a call of the handler.
abbrev drained_state : Daemon
drained_state = worker_step 2 0 nothing (
    worker_step 2 0 nothing (
      worker_step 2 0 nothing (
        worker_step 2 0 nothing (
          handler_step 2 8 (
            worker_step 2 1 nothing (
              worker_step 2 0 nothing
                (worker_step 2 0 nothing (worker_step 2 0 nothing alone_again))))))))

Turns-drained_example : (drained_state.places 0 ≡ ended) × (drained_state.running ≡ false)
Turns-drained_example =
    Turns-drained vacant in_loop
      (by_self
        (by_self
          (by_self
            (by_self
              (by_call
                (by_other (by_self (by_self (by_self no_turn nothing) nothing) nothing) 1 nothing
                  (λ e. absurd (omega (arith, e))))
                8)
              nothing)
            nothing)
          nothing)
        nothing)
      (omega arith)

-- With no client the signal stops the daemon: `held` has one that is not noted yet.
abbrev off : Daemon
off = handler_step 2 7 (handler_step 2 7 (handler_step 2 7 (handler_step 2 7 held)))

is_off : off.running ≡ false
unfolding worker_move handler_move
is_off = refl

abbrev over : Daemon
over = worker_step 2 0 nothing (
    worker_step 2 0 nothing (
      worker_step 2 0 nothing (
        worker_step 2 0 nothing (
          worker_step 2 1 nothing (
            worker_step 2 0 nothing
              (worker_step 2 0 nothing (worker_step 2 0 nothing (worker_step 2 0 nothing off))))))))

Turns-ended_example : over.places 0 ≡ ended
Turns-ended_example =
    Turns-ended is_off
      (by_self
        (by_self
          (by_self
            (by_self
              (by_other
                (by_self (by_self (by_self (by_self no_turn nothing) nothing) nothing) nothing) 1
                nothing (λ e. absurd (omega (arith, e))))
              nothing)
            nothing)
          nothing)
        nothing)
      (omega arith)
