-- ===== src/Embedded/Worker.antt =====
-- embedded/db.go: the goroutines behind a database: callers of `call` and `Close`, the mutex, the channel
-- of jobs, and the worker that owns the library's handle.
pub mod Invariant
pub mod Progress
use koutendb_go.Common.{ℕ, ◌+◌, ◌==◌, ◌≡◌, Bool, true, false, Option, none, some, if◌then◌else◌}

-- A job with a function, which `call` sends, or without one, which `Close` sends.
pub data Job : Type 0 where
  calls closes : Job

-- Where a caller stands: outside of `call` and `Close`, in `db.mu.Lock()`, behind it, in
-- `db.jobs <- job`, and in `<-done` with the channel `done` empty or holding the result.
pub data Phase : Type 0 where
  outside : Phase
  waiting : Job → Phase
  locked : Job → Phase
  sending : Job → Phase
  awaiting : Job → Phase
  answered : Job → Phase

-- The worker waits for a job, runs the one of a caller, or has returned.
pub data Worker : Type 0 where
  idle : Worker
  busy : ℕ → Job → Worker
  exited : Worker

-- What the goroutines share, and how often `kouten_close` has been called.
pub record Shared : Type 0 where
  pub mutex : Option ℕ
  pub worker : Worker
  pub closed : Bool
  pub closings : ℕ

-- One step that concerns the caller `i`. The channel of jobs has no buffer, so a send is one step with the
-- worker's receive; the deferred Unlock goes with the return.
pub data Move (i : ℕ) (m : Shared) : Phase → Shared → Phase → Type 0 where
  begin : (a : Job) → Move i m outside m (waiting a)
  acquire :
      {a : Job} → m.mutex ≡ none → Move i m (waiting a) (record m { mutex = some i }) (locked a)
  refuse : {a : Job} → m.closed ≡ true → Move i m (locked a) (record m { mutex = none }) outside
  proceed : {a : Job} → m.closed ≡ false → Move i m (locked a) m (sending a)
  take :
      {a : Job}
      → m.worker ≡ idle
      → Move i m (sending a) (record m { worker = busy i a }) (awaiting a)
  finish_call :
      m.worker ≡ busy i calls
      → Move i m (awaiting calls) (record m { worker = idle }) (answered calls)
  finish_close :
      m.worker ≡ busy i closes
      → Move i m
          (awaiting closes)
          (record m { worker = exited; closings = m.closings + 1 })
          (answered closes)
  receive_call : Move i m (answered calls) (record m { mutex = none }) outside
  receive_close : Move i m (answered closes) (record m { mutex = none; closed = true }) outside

pub record System : Type 0 where
  pub shared : Shared
  pub phase : ℕ → Phase

unfoldable pub set : ℕ → Phase → (ℕ → Phase) → ℕ → Phase
set i p f j = if j == i then p else f j

pub data Step (s : System) : System → Type 0 where
  step :
      (i : ℕ) {m : Shared} {p : Phase}
      → Move i s.shared (s.phase i) m p
      → Step s (record { shared = m; phase = set i p s.phase })

-- What `OpenWithOptions` returns, once the worker has reported that it is ready.
abbrev pub opened : System
opened = record {
  shared = record { mutex = none; worker = idle; closed = false; closings = 0 };
  phase = λ i. outside;
}

pub data Reach : System → Type 0 where
  start : Reach opened
  later : {s t : System} → Reach s → Step s t → Reach t
