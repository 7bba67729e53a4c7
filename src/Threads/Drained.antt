-- ===== src/Threads/Drained.antt =====
-- The drain ends behind the last client.
use nbd_vram.Prelude.{
  ℕ, ◌+◌, ◌-◌, ◌≤◌, ◌≡◌, ◌≢◌, ◌⊎◌, inl, inr, refl, arith, Bool, true, false, Bool-cases, ltb,
  if◌then◌else◌, update, update_self,
}
use mathlib.Core.Path.{subst}
use nbd_vram.Threads.{
  Place, starting, ready, testing, stopping, resting, polling, ended, counting, holding, serving,
  leaving, Handler, away, scanning, cutting, Choice, failure, nothing, client, Daemon, connected,
  worker_move, handler_move, Turns, no_turn, by_self, by_other, by_call,
}
use nbd_vram.Threads.Guarded.{update_all, if_all}
use nbd_vram.Threads.Stop.{worker_elsewhere, worker_stopped}

-- The worker neither has a client nor waits for one.
abbrev pub Idle : Place → Type 0
Idle polling = ⊥
Idle (holding fd) = ⊥
Idle (serving fd) = ⊥
Idle (leaving fd) = ⊥
Idle _ = Unit

-- The worker is in the loop that waits for the last client to go.
abbrev pub Draining : Place → Type 0
Draining ready = Unit
Draining testing = Unit
Draining (counting j) = Unit
Draining stopping = Unit
Draining resting = Unit
Draining _ = ⊥

-- The daemon was asked to stop, no client is recorded, and no worker has one or waits for one.
pub record Vacant (d : Daemon) : Type 0 where
  pub asked : d.term_requested ≡ true
  pub idle : (j : ℕ) → Idle (d.places j)
  pub free : (j : ℕ) → connected (d.client_fds j) ≡ false

-- How many steps of its own a worker has left at most.
abbrev steps_left : (n : ℕ) → Place → ℕ
steps_left n stopping = 1
steps_left n (counting j) = (n - j) + 2
steps_left n testing = n + 3
steps_left n ready = n + 4
steps_left n _ = n + 5

-- The worker still has at most `m` steps left, or has ended, and the daemon does not run.
abbrev Progress : (n m : ℕ) → Place → (running : Bool) → Type 0
Progress n m p running = (Draining p × (steps_left n p ≤ m)) ⊎ ((p ≡ ended) × (running ≡ false))

module _ (n : ℕ) (d : Daemon) (vacant : Vacant d) where
  gone : (idx : ℕ) (q : Place) → Idle q → (j : ℕ) → Idle (update d.places idx q j)
  gone idx q at = update_all Idle d.places idx q vacant.idle at

  either_place :
      (b : Bool) (p q : Place)
      → (b ≡ true → Idle p)
      → (b ≡ false → Idle q)
      → Idle (if b then p else q)
  either_place b p q x y = if_all Idle b p q x y

  counted :
      (j : ℕ)
      → Idle (
          if ltb j n
          then (if connected (d.client_fds j) then resting else counting (j + 1))
          else stopping)
  counted j =
      either_place (ltb j n) _ stopping
        (λ more.
          either_place (connected (d.client_fds j)) resting (counting (j + 1)) (λ e. tt) (λ e. tt))
        (λ over. tt)

  tested : Idle (if d.term_requested then counting 0 else polling)
  tested = rw (vacant.asked) tt

  worker-Vacant : (idx : ℕ) (c : Choice) (p : Place) → Idle p → Vacant (worker_move n idx c p d)
  unfolding worker_move
  worker-Vacant idx failure starting at = record {
    asked = vacant.asked;
    idle = gone idx ended tt;
    free = vacant.free;
  }
  worker-Vacant idx nothing starting at = record {
    asked = vacant.asked;
    idle = gone idx ready tt;
    free = vacant.free;
  }
  worker-Vacant idx (client fd) starting at = record {
    asked = vacant.asked;
    idle = gone idx ready tt;
    free = vacant.free;
  }
  worker-Vacant idx c ready at = record {
    asked = vacant.asked;
    idle = gone idx _ (either_place d.running testing ended (λ e. tt) (λ e. tt));
    free = vacant.free;
  }
  worker-Vacant idx c testing at = record {
    asked = vacant.asked;
    idle = gone idx _ tested;
    free = vacant.free;
  }
  worker-Vacant idx c (counting j) at = record {
    asked = vacant.asked;
    idle = gone idx _ (counted j);
    free = vacant.free;
  }
  worker-Vacant idx c stopping at = record {
    asked = vacant.asked;
    idle = gone idx ended tt;
    free = vacant.free;
  }
  worker-Vacant idx c resting at = record {
    asked = vacant.asked;
    idle = gone idx ready tt;
    free = vacant.free;
  }
  worker-Vacant idx c polling at = absurd at
  worker-Vacant idx c (holding fd) at = absurd at
  worker-Vacant idx c (serving fd) at = absurd at
  worker-Vacant idx c (leaving fd) at = absurd at
  worker-Vacant idx c ended at = vacant

  -- A step of its own brings the worker nearer to its end.
  worker_nearer :
      (idx m : ℕ) (c : Choice) (p : Place)
      → d.places idx ≡ p
      → Draining p
      → steps_left n p ≤ m
      → Progress n (m - 1) ((worker_move n idx c p d).places idx) (worker_move n idx c p d).running
  unfolding worker_move
  worker_nearer idx m c ready at drains le = elim (Bool-cases d.running) [
    | inl on ↦ rw (on, update_self d.places idx testing) (inl (tt, omega (arith, le)))
    | inr off ↦ rw (off, update_self d.places idx ended) (inr (refl, refl))
  ]
  worker_nearer idx m c testing at drains le =
      rw (vacant.asked, update_self d.places idx (counting 0)) (inl (tt, omega (arith, le)))
  worker_nearer idx m c (counting j) at drains le = elim (Bool-cases (ltb j n)) [
    | inl more ↦
        rw (more, vacant.free j, update_self d.places idx (counting (j + 1)))
          (inl (tt, ground (arith, le, more)))
    | inr over ↦ rw (over, update_self d.places idx stopping) (inl (tt, omega (arith, le)))
  ]
  worker_nearer idx m c stopping at drains le =
      rw (update_self d.places idx ended) (inr (refl, refl))
  worker_nearer idx m c resting at drains le =
      rw (update_self d.places idx ready) (inl (tt, omega (arith, le)))
  worker_nearer idx m c starting at drains le = absurd drains
  worker_nearer idx m c polling at drains le = absurd drains
  worker_nearer idx m c ended at drains le = absurd drains
  worker_nearer idx m c (holding fd) at drains le = absurd drains
  worker_nearer idx m c (serving fd) at drains le = absurd drains
  worker_nearer idx m c (leaving fd) at drains le = absurd drains

  own_step :
      (idx m : ℕ) (c : Choice)
      → Progress n m (d.places idx) d.running
      → Progress n
          (m - 1)
          ((worker_move n idx c (d.places idx) d).places idx)
          (worker_move n idx c (d.places idx) d).running
  unfolding worker_move
  own_step idx m c (inl (drains, le)) = worker_nearer idx m c (d.places idx) refl drains le
  own_step idx m c (inr (over, off)) = rw over (inr (over, off))

  other_step :
      (idx m j : ℕ) (c : Choice)
      → j ≢ idx
      → Progress n m (d.places idx) d.running
      → Progress n m
          ((worker_move n j c (d.places j) d).places idx)
          (worker_move n j c (d.places j) d).running
  other_step idx m j c ne (inl (drains, le)) =
      rw (worker_elsewhere n j idx c (d.places j) d ne) (inl (drains, le))
  other_step idx m j c ne (inr (over, off)) =
      rw (worker_elsewhere n j idx c (d.places j) d ne)
        (inr (over, worker_stopped n j c (d.places j) d off))

  handler-Vacant : (h : ℕ) (at : Handler) → Vacant (handler_move n h at d)
  unfolding handler_move
  handler-Vacant h away = record { asked = refl; idle = vacant.idle; free = vacant.free }
  handler-Vacant h (scanning j) = elim (Bool-cases (ltb j n)) [
    | inl more ↦ rw more (record { asked = vacant.asked; idle = vacant.idle; free = vacant.free })
    | inr over ↦ rw over (record { asked = vacant.asked; idle = vacant.idle; free = vacant.free })
  ]
  handler-Vacant h (cutting j) = elim (Bool-cases (ltb j n)) [
    | inl more ↦ rw more (record { asked = vacant.asked; idle = vacant.idle; free = vacant.free })
    | inr over ↦ rw over (record { asked = vacant.asked; idle = vacant.idle; free = vacant.free })
  ]

  handler_step_on :
      (idx m h : ℕ) (at : Handler)
      → Progress n m (d.places idx) d.running
      → Progress n m ((handler_move n h at d).places idx) (handler_move n h at d).running
  unfolding handler_move
  handler_step_on idx m h away near = near
  handler_step_on idx m h (scanning j) near = elim (Bool-cases (ltb j n)) [
    | inl more ↦ rw more near
    | inr over ↦
        rw over
          (elim near [ inl (drains, le) ↦ inl (drains, le) | inr (ends, off) ↦ inr (ends, refl) ])
  ]
  handler_step_on idx m h (cutting j) near = elim (Bool-cases (ltb j n)) [
    | inl more ↦ rw more near
    | inr over ↦ rw over near
  ]

near_end :
    {n idx : ℕ} {d : Daemon} {k : ℕ} {e : Daemon}
    → Vacant d
    → Draining (d.places idx)
    → Turns n idx d k e
    → Vacant e × Progress n (n + 5 - k) (e.places idx) e.running
near_end {n} {idx} {d} vacant drains no_turn = (vacant, inl (drains, most (d.places idx) drains))
  where
    most : (p : Place) → Draining p → steps_left n p ≤ n + 5 - 0
    most ready x = omega arith
    most testing x = omega arith
    most (counting j) x = omega arith
    most stopping x = omega arith
    most resting x = omega arith
    most starting x = absurd x
    most polling x = absurd x
    most ended x = absurd x
    most (holding fd) x = absurd x
    most (serving fd) x = absurd x
    most (leaving fd) x = absurd x
near_end {n} {idx} vacant drains (by_self {k} {e} before c) =
    let (still, near) = near_end vacant drains before in
    let less : n + 5 - k - 1 ≡ n + 5 - (k + 1) = omega arith in
    (
      worker-Vacant n e still idx c (e.places idx) (still.idle idx),
      subst
          (λ m.
            Progress n m ((worker_move n idx c (e.places idx) e).places idx)
              (worker_move n idx c (e.places idx) e).running)
          less (own_step n e still idx (n + 5 - k) c near),
    )
near_end {n} {idx} vacant drains (by_other {k} {e} before j c ne) =
    let (still, near) = near_end vacant drains before in
    (
      worker-Vacant n e still j c (e.places j) (still.idle j),
      other_step n e still idx (n + 5 - k) j c ne near,
    )
near_end {n} {idx} vacant drains (by_call {k} {e} before h) =
    let (still, near) = near_end vacant drains before in
    (
      handler-Vacant n e still h (e.handlers h),
      handler_step_on n e still idx (n + 5 - k) h (e.handlers h) near,
    )

none_nearer :
    (n : ℕ) (p : Place) (running : Bool) → Progress n 0 p running → (p ≡ ended) × (running ≡ false)
none_nearer n ready running (inl (x, le)) = absurd (omega (arith, le))
none_nearer n testing running (inl (x, le)) = absurd (omega (arith, le))
none_nearer n (counting j) running (inl (x, le)) = absurd (omega (arith, le))
none_nearer n stopping running (inl (x, le)) = absurd (omega (arith, le))
none_nearer n resting running (inl (x, le)) = absurd (omega (arith, le))
none_nearer n starting running (inl (x, le)) = absurd x
none_nearer n polling running (inl (x, le)) = absurd x
none_nearer n ended running (inl (x, le)) = absurd x
none_nearer n (holding fd) running (inl (x, le)) = absurd x
none_nearer n (serving fd) running (inl (x, le)) = absurd x
none_nearer n (leaving fd) running (inl (x, le)) = absurd x
none_nearer n p running (inr over) = over

-- The drain ends: from a state in which the daemon was asked to stop, no client is recorded, no worker has one
-- and none is polling for one or has taken one, let a worker that is in its loop make `n + 5` steps of its own,
-- where `n` is the number of workers. However the steps of the other workers and of any calls of the handler
-- come in between, and whatever their calls give them, that worker has ended then, and the daemon does not run.
pub Turns-drained :
    {n idx : ℕ} {d : Daemon} {k : ℕ} {e : Daemon}
    → Vacant d
    → Draining (d.places idx)
    → Turns n idx d k e
    → n + 5 ≤ k
    → (e.places idx ≡ ended) × (e.running ≡ false)
Turns-drained {n} {idx} {k = k} {e = e} vacant drains run enough =
    let over : n + 5 - k ≡ 0 = omega (arith, enough) in
    none_nearer n (e.places idx) e.running
      (subst (λ m. Progress n m (e.places idx) e.running) over (near_end vacant drains run).1)
