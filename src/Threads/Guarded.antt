-- ===== src/Threads/Guarded.antt =====
-- What no worker and no handler has got to while a client is attached.
use nbd_vram.Prelude.{
  ℕ, suc, ◌+◌, ◌≤◌, ◌<◌, ◌≡◌, ◌⊎◌, inl, inr, refl, arith, sym, Bool, true, false, eq_cases, ltb,
  if◌then◌else◌, Option, update, update_self, update_ne,
}
use mathlib.Core.Path.{subst}
use nbd_vram.Threads.{
  Place, starting, ready, testing, stopping, resting, polling, ended, counting, holding, serving,
  leaving, Handler, away, scanning, cutting, Choice, failure, nothing, client, Daemon, connected,
  worker_move, handler_move,
}

-- The worker has looked at no client from the `l`-th on, and is not about to stop the daemon.
abbrev pub Before : (l : ℕ) → Place → Type 0
Before l (counting j) = j < l
Before l stopping = ⊥
Before l _ = Unit

-- The same of a call of the handler.
abbrev pub Early : (l : ℕ) → Handler → Type 0
Early l away = Unit
Early l (scanning j) = j < l
Early l (cutting j) = ⊥

pub record Guarded (l : ℕ) (running : Bool) (places : ℕ → Place) (handlers : ℕ → Handler)
    : Type 0 where
  pub runs : running ≡ true
  pub workers : (j : ℕ) → Before l (places j)
  pub calls : (j : ℕ) → Early l (handlers j)

-- Where a look at the `l`-th of the clients would find one.
abbrev pub Held : (n l : ℕ) → (client_fds : ℕ → Option ℕ) → Type 0
Held n l client_fds = (l ≤ n) × ((j : ℕ) → suc j ≡ l → connected (client_fds j) ≡ true)

pub update_all :
    {A : Type 0} (P : A → Type 0) (f : ℕ → A) (i : ℕ) (a : A)
    → ((j : ℕ) → P (f j))
    → P a
    → (j : ℕ) → P (update f i a j)
update_all P f i a all new j = elim (eq_cases i j) [
  | inl e ↦ subst (λ k. P (update f i a k)) e (subst P (sym (update_self f i a)) new)
  | inr ne ↦ subst P (sym (update_ne f i a j ne)) (all j)
]

pub if_all :
    {A : Type 0} (P : A → Type 0) (b : Bool) (x y : A)
    → (b ≡ true → P x)
    → (b ≡ false → P y)
    → P (if b then x else y)
if_all P true x y p q = p refl
if_all P false x y p q = q refl

moved :
    {l : ℕ} {running : Bool} {places : ℕ → Place} {handlers : ℕ → Handler} (idx : ℕ) (q : Place)
    → Guarded l running places handlers
    → Before l q
    → Guarded l running (update places idx q) handlers
moved {l} {running} {places} idx q g b = record {
  runs = g.runs;
  workers = update_all (Before l) places idx q g.workers b;
  calls = g.calls;
}

looked :
    {l : ℕ} {running : Bool} {places : ℕ → Place} {handlers : ℕ → Handler} (call : ℕ) (h : Handler)
    → Guarded l running places handlers
    → Early l h
    → Guarded l running places (update handlers call h)
looked {l} {running} {places} {handlers} call h g b = record {
  runs = g.runs;
  workers = g.workers;
  calls = update_all (Early l) handlers call h g.calls b;
}

-- The daemon is guarded up to the `l`-th client.
abbrev pub Safe : (l : ℕ) → Daemon → Type 0
Safe l d = Guarded l d.running d.places d.handlers

module _ (n l : ℕ) (d : Daemon) (held : Held n l d.client_fds) where
  -- A scan goes on from a place with no client.
  goes_on : (j : ℕ) → j < l → connected (d.client_fds j) ≡ false → j + 1 < l
  goes_on j lt gone = elim (eq_cases (suc j) l) [
    | inl last ↦ absurd (ground (arith, held.1 j last, gone))
    | inr ne ↦ omega (arith, lt, ne)
  ]

  counted :
      (j : ℕ)
      → j < l
      → Before l (
          if ltb j n
          then (if connected (d.client_fds j) then resting else counting (j + 1))
          else stopping)
  counted j lt =
      let more : ltb j n ≡ true = ground (arith, lt, held.0) in
      rw more (
        if_all (Before l) (connected (d.client_fds j)) resting (counting (j + 1)) (λ e. tt)
          (goes_on j lt))

  pub worker-Safe :
      (d.term_requested ≡ false) ⊎ (0 < l)
      → (idx : ℕ) (c : Choice) (p : Place) → Before l p
      → Safe l d
      → Safe l (worker_move n idx c p d)
  unfolding worker_move
  worker-Safe may idx failure starting b g = moved idx ended g tt
  worker-Safe may idx nothing starting b g = moved idx ready g tt
  worker-Safe may idx (client fd) starting b g = moved idx ready g tt
  worker-Safe may idx c ready b g =
      moved idx _ g (if_all (Before l) d.running testing ended (λ e. tt) (λ e. tt))
  worker-Safe may idx c testing b g = moved idx _ g (
      if_all (Before l) d.term_requested (counting 0) polling
        (λ e. elim may [ inl off ↦ absurd (ground (arith, off, e)) | inr pos ↦ pos ]) (λ e. tt))
  worker-Safe may idx c (counting j) b g = moved idx _ g (counted j b)
  worker-Safe may idx c stopping b g = absurd b
  worker-Safe may idx c resting b g = moved idx ready g tt
  worker-Safe may idx failure polling b g = moved idx ended g tt
  worker-Safe may idx nothing polling b g = moved idx ready g tt
  worker-Safe may idx (client fd) polling b g = moved idx (holding fd) g tt
  worker-Safe may idx c (holding fd) b g = moved idx (serving fd) g tt
  worker-Safe may idx failure (serving fd) b g = moved idx (leaving fd) g tt
  worker-Safe may idx nothing (serving fd) b g =
      moved idx _ g (if_all (Before l) d.running (serving fd) (leaving fd) (λ e. tt) (λ e. tt))
  worker-Safe may idx (client fd1) (serving fd) b g =
      moved idx _ g (if_all (Before l) d.running (serving fd) (leaving fd) (λ e. tt) (λ e. tt))
  worker-Safe may idx c (leaving fd) b g = moved idx ready g tt
  worker-Safe may idx c ended b g = g

  pub handler-Safe :
      0 < l → (call : ℕ) (h : Handler) → Early l h → Safe l d → Safe l (handler_move n call h d)
  unfolding handler_move
  handler-Safe pos call away b g = looked call (scanning 0) g pos
  handler-Safe pos call (cutting j) b g = absurd b
  handler-Safe pos call (scanning j) b g =
      let more : ltb j n ≡ true = ground (arith, b, held.0) in
      rw more (
        looked call _ g (
          if_all (Early l) (connected (d.client_fds j)) away (scanning (j + 1)) (λ e. tt)
            (goes_on j b)))
