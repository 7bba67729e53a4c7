-- ===== src/Threads/Drain.antt =====
-- A client that is attached when the signal comes holds up the termination.
use nbd_vram.Prelude.{
  ℕ, suc, ◌<◌, ◌≡◌, ◌≢◌, ◌⊎◌, inl, inr, refl, arith, ◌∙◌, true, false, Bool-cases, ltb,
}
use mathlib.Core.Path.{subst}
use nbd_vram.Threads.{
  Place, starting, ready, testing, stopping, resting, polling, ended, counting, holding, serving,
  leaving, Handler, away, scanning, cutting, Choice, failure, nothing, client, Daemon, connected,
  worker_move, handler_move, Step, worker, signal, Reach, launch, later, Stays, here, next,
}
use nbd_vram.Threads.Guarded.{Before, Early, Held, Safe, worker-Safe, handler-Safe}

pub worker_term :
    (n idx : ℕ) (c : Choice) (p : Place) (d : Daemon)
    → (worker_move n idx c p d).term_requested ≡ d.term_requested
unfolding worker_move
worker_term n idx failure starting d = refl
worker_term n idx nothing starting d = refl
worker_term n idx (client fd) starting d = refl
worker_term n idx c ready d = refl
worker_term n idx c testing d = refl
worker_term n idx c (counting j) d = refl
worker_term n idx c stopping d = refl
worker_term n idx c resting d = refl
worker_term n idx failure polling d = refl
worker_term n idx nothing polling d = refl
worker_term n idx (client fd) polling d = refl
worker_term n idx c (holding fd) d = refl
worker_term n idx failure (serving fd) d = refl
worker_term n idx nothing (serving fd) d = refl
worker_term n idx (client fd1) (serving fd) d = refl
worker_term n idx c (leaving fd) d = refl
worker_term n idx c ended d = refl

weaken_place : (l : ℕ) (p : Place) → Before 0 p → Before l p
weaken_place l starting b = tt
weaken_place l ready b = tt
weaken_place l testing b = tt
weaken_place l stopping b = b
weaken_place l resting b = tt
weaken_place l polling b = tt
weaken_place l ended b = tt
weaken_place l (counting j) b = absurd (omega (arith, b))
weaken_place l (holding fd) b = tt
weaken_place l (serving fd) b = tt
weaken_place l (leaving fd) b = tt

weaken_call : (l : ℕ) (h : Handler) → Early 0 h → Early l h
weaken_call l away b = tt
weaken_call l (scanning j) b = absurd (omega (arith, b))
weaken_call l (cutting j) b = b

nobody : (n : ℕ) (d : Daemon) → Held n 0 d.client_fds
nobody n d = (omega arith, λ j e. absurd (omega (arith, e)))

handler_quiet :
    (n call : ℕ) (h : Handler) (d : Daemon)
    → Early 0 h
    → (handler_move n call h d).term_requested ≢ false
unfolding handler_move
handler_quiet n call away d b e = absurd (ground (arith, e))
handler_quiet n call (scanning j) d b e = absurd (omega (arith, b))
handler_quiet n call (cutting j) d b e = absurd b

pub handler_term :
    (n call : ℕ) (h : Handler) (d : Daemon)
    → d.term_requested ≡ true
    → (handler_move n call h d).term_requested ≡ true
unfolding handler_move
handler_term n call away d e = refl
handler_term n call (scanning j) d e = elim (Bool-cases (ltb j n)) [
  | inl more ↦ rw more e
  | inr over ↦ rw over e
]
handler_term n call (cutting j) d e = elim (Bool-cases (ltb j n)) [
  | inl more ↦ rw more e
  | inr over ↦ rw over e
]

-- Before a signal nothing looks at the clients to stop the daemon.
Reach-Safe : {n : ℕ} {d : Daemon} → Reach n d → (d.term_requested ≡ true) ⊎ Safe 0 d
Reach-Safe launch = inr (record { runs = refl; workers = λ j. tt; calls = λ j. tt })
Reach-Safe {n} (later {d} r (worker idx c lt)) = elim (Reach-Safe r) [
  | inl asked ↦ inl (worker_term n idx c (d.places idx) d ∙ asked)
  | inr safe ↦ elim (Bool-cases d.term_requested) [
    | inl asked ↦ inl (worker_term n idx c (d.places idx) d ∙ asked)
    | inr off ↦
        inr (worker-Safe n 0 d (nobody n d) (inl off) idx c (d.places idx) (safe.workers idx) safe)
  ]
]
Reach-Safe {n} (later {d} r (signal call)) = elim (Reach-Safe r) [
  | inl asked ↦ inl (handler_term n call (d.handlers call) d asked)
  | inr safe ↦ elim (Bool-cases (handler_move n call (d.handlers call) d).term_requested) [
    | inl asked ↦ inl asked
    | inr off ↦ absurd (handler_quiet n call (d.handlers call) d (safe.calls call) off)
  ]
]

attached :
    {n i : ℕ} {d e : Daemon}
    → connected (d.client_fds i) ≡ true
    → Stays n i d e
    → connected (e.client_fds i) ≡ true
attached has here = has
attached has (next before step after) = after

client_holds :
    {n i : ℕ} (d : Daemon) → i < n → connected (d.client_fds i) ≡ true → Held n (suc i) d.client_fds
client_holds d lt has = (
  omega (arith, lt),
  λ j e. subst (λ k. connected (d.client_fds k) ≡ true) (omega (arith, e)) has,
)

Step-Safe :
    {n i : ℕ} {d e : Daemon}
    → i < n
    → connected (d.client_fds i) ≡ true
    → Step n d e
    → Safe (suc i) d
    → Safe (suc i) e
Step-Safe {n} {i} {d} lt has (worker idx c below) safe =
    worker-Safe n (suc i) d (client_holds d lt has) (inr (omega arith)) idx c (d.places idx)
      (safe.workers idx) safe
Step-Safe {n} {i} {d} lt has (signal call) safe =
    handler-Safe n (suc i) d (client_holds d lt has) (omega arith) call (d.handlers call)
      (safe.calls call) safe

Stays-Safe :
    {n i : ℕ} {d e : Daemon}
    → i < n
    → connected (d.client_fds i) ≡ true
    → Safe (suc i) d
    → Stays n i d e
    → Safe (suc i) e
Stays-Safe lt has safe here = safe
Stays-Safe lt has safe (next before step after) =
    Step-Safe lt (attached has before) step (Stays-Safe lt has safe before)

-- From any state that the daemon gets to before it is asked to stop, with a client of one of its workers: however
-- the steps of the workers and any number of calls of the handler are interleaved, the daemon keeps running as
-- long as that client stays.
pub Stays-running :
    {n i : ℕ} {d e : Daemon}
    → Reach n d
    → d.term_requested ≡ false
    → i < n
    → connected (d.client_fds i) ≡ true
    → Stays n i d e
    → e.running ≡ true
Stays-running {n} {i} {d} reach off lt has stays = elim (Reach-Safe reach) [
  | inl asked ↦ absurd (ground (arith, off, asked))
  | inr safe ↦
      let guarded : Safe (suc i) d = record {
        runs = safe.runs;
        workers = λ j. weaken_place (suc i) (d.places j) (safe.workers j);
        calls = λ j. weaken_call (suc i) (d.handlers j) (safe.calls j);
      } in
      (Stays-Safe lt has guarded stays).runs
]
