-- ===== src/Threads/Stop.antt =====
-- The end of the workers.
use nbd_vram.Prelude.{
  ℕ, ◌+◌, ◌-◌, ◌≤◌, ◌≡◌, ◌≢◌, inl, inr, refl, arith, ap, Bool, true, false, Bool-cases, ltb,
  if◌then◌else◌, update_self, update_ne,
}
use nbd_vram.Threads.{
  Place, starting, ready, testing, stopping, resting, polling, ended, counting, holding, serving,
  leaving, Handler, away, scanning, cutting, Choice, failure, nothing, client, Daemon, connected,
  go, worker_move, handler_move, Turns, no_turn, by_self, by_other, by_call,
}

-- How many steps a worker has left at most, once the daemon does not run.
abbrev turns_left : (n : ℕ) → Place → ℕ
turns_left n ended = 0
turns_left n ready = 1
turns_left n stopping = 1
turns_left n starting = 2
turns_left n resting = 2
turns_left n (leaving fd) = 2
turns_left n (serving fd) = 3
turns_left n (holding fd) = 4
turns_left n polling = 5
turns_left n (counting j) = (n - j) + 3
turns_left n testing = n + 6

-- A worker gone to a place with at most `m` steps left.
went :
    (n idx m : ℕ) (p : Place) (d : Daemon)
    → turns_left n p ≤ m
    → turns_left n ((go idx p d).places idx) ≤ m
went n idx m p d le = rw (update_self d.places idx p) le

if_left :
    (n m : ℕ) (b : Bool) (p q : Place)
    → (b ≡ true → turns_left n p ≤ m)
    → (b ≡ false → turns_left n q ≤ m)
    → turns_left n (if b then p else q) ≤ m
if_left n m true p q x y = x refl
if_left n m false p q x y = y refl

worker_left :
    (n idx : ℕ) (c : Choice) (p : Place) (d : Daemon)
    → d.places idx ≡ p
    → d.running ≡ false
    → turns_left n ((worker_move n idx c p d).places idx) ≤ turns_left n p - 1
unfolding worker_move
worker_left n idx failure starting d at off = went n idx _ ended d (omega arith)
worker_left n idx nothing starting d at off = went n idx _ ready d (omega arith)
worker_left n idx (client fd) starting d at off = went n idx _ ready d (omega arith)
worker_left n idx c ready d at off = rw off (went n idx _ ended d (omega arith))
worker_left n idx c testing d at off =
    went n idx _ _ d
      (if_left n _ d.term_requested (counting 0) polling (λ e. omega arith) (λ e. omega arith))
worker_left n idx c (counting j) d at off = went n idx _ _ d (
    if_left n _ (ltb j n) _ stopping
      (λ more.
        if_left n _ (connected (d.client_fds j)) resting (counting (j + 1))
          (λ e. ground (arith, more)) (λ e. ground (arith, more)))
      (λ over. omega arith))
worker_left n idx c stopping d at off = went n idx _ ended d (omega arith)
worker_left n idx c resting d at off = went n idx _ ready d (omega arith)
worker_left n idx failure polling d at off = went n idx _ ended d (omega arith)
worker_left n idx nothing polling d at off = went n idx _ ready d (omega arith)
worker_left n idx (client fd) polling d at off = went n idx _ (holding fd) d (omega arith)
worker_left n idx c (holding fd) d at off = went n idx _ (serving fd) d (omega arith)
worker_left n idx failure (serving fd) d at off = went n idx _ (leaving fd) d (omega arith)
worker_left n idx nothing (serving fd) d at off = rw off (went n idx _ (leaving fd) d (omega arith))
worker_left n idx (client fd1) (serving fd) d at off =
    rw off (went n idx _ (leaving fd) d (omega arith))
worker_left n idx c (leaving fd) d at off = went n idx _ ready d (omega arith)
worker_left n idx c ended d at off = rw at (omega arith)

pub worker_elsewhere :
    (n j idx : ℕ) (c : Choice) (p : Place) (d : Daemon)
    → j ≢ idx
    → (worker_move n j c p d).places idx ≡ d.places idx
unfolding worker_move
worker_elsewhere n j idx failure starting d ne = update_ne d.places j _ idx ne
worker_elsewhere n j idx nothing starting d ne = update_ne d.places j _ idx ne
worker_elsewhere n j idx (client fd) starting d ne = update_ne d.places j _ idx ne
worker_elsewhere n j idx c ready d ne = update_ne d.places j _ idx ne
worker_elsewhere n j idx c testing d ne = update_ne d.places j _ idx ne
worker_elsewhere n j idx c (counting i) d ne = update_ne d.places j _ idx ne
worker_elsewhere n j idx c stopping d ne = update_ne d.places j _ idx ne
worker_elsewhere n j idx c resting d ne = update_ne d.places j _ idx ne
worker_elsewhere n j idx failure polling d ne = update_ne d.places j _ idx ne
worker_elsewhere n j idx nothing polling d ne = update_ne d.places j _ idx ne
worker_elsewhere n j idx (client fd) polling d ne = update_ne d.places j _ idx ne
worker_elsewhere n j idx c (holding fd) d ne = update_ne d.places j _ idx ne
worker_elsewhere n j idx failure (serving fd) d ne = update_ne d.places j _ idx ne
worker_elsewhere n j idx nothing (serving fd) d ne = update_ne d.places j _ idx ne
worker_elsewhere n j idx (client fd1) (serving fd) d ne = update_ne d.places j _ idx ne
worker_elsewhere n j idx c (leaving fd) d ne = update_ne d.places j _ idx ne
worker_elsewhere n j idx c ended d ne = refl

pub worker_stopped :
    (n j : ℕ) (c : Choice) (p : Place) (d : Daemon)
    → d.running ≡ false
    → (worker_move n j c p d).running ≡ false
unfolding worker_move
worker_stopped n j failure starting d off = off
worker_stopped n j nothing starting d off = off
worker_stopped n j (client fd) starting d off = off
worker_stopped n j c ready d off = off
worker_stopped n j c testing d off = off
worker_stopped n j c (counting i) d off = off
worker_stopped n j c stopping d off = refl
worker_stopped n j c resting d off = off
worker_stopped n j failure polling d off = off
worker_stopped n j nothing polling d off = off
worker_stopped n j (client fd) polling d off = off
worker_stopped n j c (holding fd) d off = off
worker_stopped n j failure (serving fd) d off = off
worker_stopped n j nothing (serving fd) d off = off
worker_stopped n j (client fd1) (serving fd) d off = off
worker_stopped n j c (leaving fd) d off = off
worker_stopped n j c ended d off = off

pub handler_stopped :
    (n c : ℕ) (h : Handler) (d : Daemon)
    → d.running ≡ false
    → ((handler_move n c h d).running ≡ false) × ((handler_move n c h d).places ≡ d.places)
unfolding handler_move
handler_stopped n c away d off = (off, refl)
handler_stopped n c (scanning j) d off = elim (Bool-cases (ltb j n)) [
  | inl more ↦ rw more (off, refl)
  | inr over ↦ rw over (refl, refl)
]
handler_stopped n c (cutting j) d off = elim (Bool-cases (ltb j n)) [
  | inl more ↦ rw more (off, refl)
  | inr over ↦ rw over (off, refl)
]

turns :
    {n idx : ℕ} {d : Daemon} {k : ℕ} {e : Daemon}
    → d.running ≡ false
    → Turns n idx d k e
    → (e.running ≡ false) × (turns_left n (e.places idx) ≤ turns_left n (d.places idx) - k)
turns off no_turn = (off, omega arith)
turns {n} {idx} off (by_self {k} {e} before c) =
    let (stopped, le) = turns off before in
    (
      worker_stopped n idx c (e.places idx) e stopped,
      omega (arith, le, worker_left n idx c (e.places idx) e refl stopped),
    )
turns {n} {idx} off (by_other {k} {e} before j c ne) =
    let (stopped, le) = turns off before in
    (
      worker_stopped n j c (e.places j) e stopped,
      omega (arith, le, ap (turns_left n) (worker_elsewhere n j idx c (e.places j) e ne)),
    )
turns {n} {idx} off (by_call {k} {e} before h) =
    let (stopped, le) = turns off before in
    let (still, same) = handler_stopped n h (e.handlers h) e stopped in
    (still, omega (arith, le, ap (λ f. turns_left n (f idx)) same))

none_left : (n : ℕ) (p : Place) → turns_left n p ≤ 0 → p ≡ ended
none_left n ended le = refl
none_left n ready le = absurd (omega (arith, le))
none_left n stopping le = absurd (omega (arith, le))
none_left n starting le = absurd (omega (arith, le))
none_left n resting le = absurd (omega (arith, le))
none_left n (leaving fd) le = absurd (omega (arith, le))
none_left n (serving fd) le = absurd (omega (arith, le))
none_left n (holding fd) le = absurd (omega (arith, le))
none_left n polling le = absurd (omega (arith, le))
none_left n (counting j) le = absurd (omega (arith, le))
none_left n testing le = absurd (omega (arith, le))

few_left : (n : ℕ) (p : Place) → turns_left n p ≤ n + 6
few_left n ended = omega arith
few_left n ready = omega arith
few_left n stopping = omega arith
few_left n starting = omega arith
few_left n resting = omega arith
few_left n (leaving fd) = omega arith
few_left n (serving fd) = omega arith
few_left n (holding fd) = omega arith
few_left n polling = omega arith
few_left n (counting j) = omega arith
few_left n testing = omega arith

-- Once the daemon does not run, a worker ends after `n + 6` steps of its own, where `n` is the number of workers:
-- whatever its place, whatever its calls give it, and however the steps of others come in between.
pub Turns-ended :
    {n idx k : ℕ} {d e : Daemon}
    → d.running ≡ false
    → Turns n idx d k e
    → n + 6 ≤ k
    → e.places idx ≡ ended
Turns-ended {n} {idx} {k} {d} {e} off run enough =
    none_left n (e.places idx) (omega (arith, (turns off run).1, few_left n (d.places idx), enough))
