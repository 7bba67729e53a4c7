-- ===== src/Threads.antt =====
-- The worker threads and the termination of the daemon (nbd-vram.c, `thread_worker`, `sig_handler` and
-- `clients_connected`), one access to the shared state a step.
pub mod Guarded
pub mod Drain
pub mod Stop
pub mod Drained
mod Tests
use nbd_vram.Prelude.{
  ℕ, zero, suc, ◌+◌, ◌<◌, ◌≡◌, ◌≢◌, Bool, true, false, List, [], ◌∷◌, Option, none, some, ltb,
  update, if◌then◌else◌,
}

-- Where a worker stands. `counting i` is the scan of `clients_connected` before its `i`-th look, and `holding`
-- has a client that is not in `g_client_fds` yet.
pub data Place : Type 0 where
  starting ready testing stopping resting polling ended : Place
  counting : (i : ℕ) → Place
  holding serving leaving : (fd : ℕ) → Place

-- Where a call of `sig_handler` stands: not yet made or returned, in `clients_connected`, or in the loop behind.
pub data Handler : Type 0 where
  away : Handler
  scanning cutting : (i : ℕ) → Handler

-- What a call that a worker makes comes to: `worker_init`, `poll` and `accept`, or a turn of `handle_client`.
pub data Choice : Type 0 where
  failure nothing : Choice
  client : (fd : ℕ) → Choice

-- The globals, with the workers and the calls of the handler, of which there are any number. `shut` has the
-- sockets that were shut down.
pub record Daemon : Type 0 where
  pub running : Bool
  pub term_requested : Bool
  pub worker_failed : Bool
  pub client_fds : ℕ → Option ℕ
  pub shut : List ℕ
  pub places : ℕ → Place
  pub handlers : ℕ → Handler

-- `fd >= 0`
abbrev pub connected : Option ℕ → Bool
connected none = false
connected (some fd) = true

abbrev pub go : (idx : ℕ) → Place → Daemon → Daemon
go idx place d = record d { places = update d.places idx place }

-- `g_client_fds[idx] = fd`
abbrev pub set_fd : (idx : ℕ) → Option ℕ → Daemon → Daemon
set_fd idx fd d = record d { client_fds = update d.client_fds idx fd }

-- One step of `thread_worker` from a place.
unfoldable pub worker_move : (n idx : ℕ) → Choice → Place → Daemon → Daemon
worker_move n idx failure starting d = go idx ended (record d { worker_failed = true })
worker_move n idx nothing starting d = go idx ready d
worker_move n idx (client fd) starting d = go idx ready d
worker_move n idx c ready d = go idx (if d.running then testing else ended) d
worker_move n idx c testing d = go idx (if d.term_requested then counting 0 else polling) d
worker_move n idx c (counting i) d =
    go idx
      (if ltb i n
        then (if connected (d.client_fds i) then resting else counting (i + 1))
        else stopping)
      d
worker_move n idx c stopping d = go idx ended (record d { running = false })
worker_move n idx c resting d = go idx ready d
worker_move n idx failure polling d = go idx ended d
worker_move n idx nothing polling d = go idx ready d
worker_move n idx (client fd) polling d = go idx (holding fd) d
worker_move n idx c (holding fd) d = go idx (serving fd) (set_fd idx (some fd) d)
worker_move n idx failure (serving fd) d = go idx (leaving fd) d
worker_move n idx nothing (serving fd) d = go idx (if d.running then serving fd else leaving fd) d
worker_move n idx (client fd1) (serving fd) d =
    go idx (if d.running then serving fd else leaving fd) d
worker_move n idx c (leaving fd) d = go idx ready (set_fd idx none d)
worker_move n idx c ended d = d

abbrev pub worker_step : (n idx : ℕ) → Choice → Daemon → Daemon
worker_step n idx c d = worker_move n idx c (d.places idx) d

abbrev pub look : (call : ℕ) → Handler → Daemon → Daemon
look call at d = record d { handlers = update d.handlers call at }

-- `shutdown`
abbrev pub cut : Option ℕ → List ℕ → List ℕ
cut none shut = shut
cut (some fd) shut = fd ∷ shut

-- One step of `sig_handler`, the first of which is the signal.
unfoldable pub handler_move : (n call : ℕ) → Handler → Daemon → Daemon
handler_move n call away d = look call (scanning 0) (record d { term_requested = true })
handler_move n call (scanning i) d =
    if ltb i n
    then look call (if connected (d.client_fds i) then away else scanning (i + 1)) d
    else look call (cutting 0) (record d { running = false })
handler_move n call (cutting i) d =
    if ltb i n
    then look call (cutting (i + 1)) (record d { shut = cut (d.client_fds i) d.shut })
    else look call away d

abbrev pub handler_step : (n call : ℕ) → Daemon → Daemon
handler_step n call d = handler_move n call (d.handlers call) d

-- A step of one of the `n` workers, or of a handler.
pub data Step (n : ℕ) (d : Daemon) : Daemon → Type 0 where
  worker : (idx : ℕ) (c : Choice) → idx < n → Step n d (worker_step n idx c d)
  signal : (call : ℕ) → Step n d (handler_step n call d)

-- `main`, where it starts the workers.
abbrev pub launched : Daemon
launched = record {
  running = true;
  term_requested = false;
  worker_failed = false;
  client_fds = λ i. none;
  shut = [];
  places = λ i. starting;
  handlers = λ call. away;
}

pub data Reach (n : ℕ) : Daemon → Type 0 where
  launch : Reach n launched
  later : {d e : Daemon} → Reach n d → Step n d e → Reach n e

-- Steps during which the `i`-th worker has a client.
pub data Stays (n i : ℕ) (d : Daemon) : Daemon → Type 0 where
  here : Stays n i d d
  next :
      {e f : Daemon}
      → Stays n i d e
      → Step n e f
      → connected (f.client_fds i) ≡ true
      → Stays n i d f

-- Steps among which are `k` of the worker `idx`.
pub data Turns (n idx : ℕ) (d : Daemon) : (k : ℕ) → Daemon → Type 0 where
  no_turn : Turns n idx d 0 d
  by_self :
      {k : ℕ} {e : Daemon}
      → Turns n idx d k e
      → (c : Choice) → Turns n idx d (k + 1) (worker_step n idx c e)
  by_other :
      {k : ℕ} {e : Daemon}
      → Turns n idx d k e
      → (j : ℕ) (c : Choice) → j ≢ idx
      → Turns n idx d k (worker_step n j c e)
  by_call :
      {k : ℕ} {e : Daemon} → Turns n idx d k e → (h : ℕ) → Turns n idx d k (handler_step n h e)
