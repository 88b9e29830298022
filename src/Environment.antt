-- ===== src/Environment.antt =====
-- What the driver asks of its surroundings: the context, the clock, randomness and the network. Each
-- question is numbered by a counter that the program's state carries on, so the answers may change
-- from one question to the next in any way.
use koutendb_go.Common.{ℕ, ◌+◌, Bool, Bytes, Option, none, some, ltb, leb, if◌then◌else◌}
use koutendb_go.Errors.{CtxError, deadline_exceeded}
use koutendb_go.Wire.{Wire}

-- A `context.Context`: `Err()` at each question, and `Deadline()`.
pub record Ctx : Type 0 where
  pub err_at : ℕ → Option CtxError
  pub due : Option ℕ

-- What `conn.Write` does with a frame: bytes written, and perhaps an error with its `Timeout()`.
pub data WriteOutcome : Type 0 where
  wrote : ℕ → WriteOutcome
  write_failed : ℕ → Bool → WriteOutcome

-- What dialling an endpoint gives (with TLS, if it is configured): the connection, before anything is
-- read or written, or an error with its `Timeout()`.
pub data DialOutcome : Type 0 where
  dialed : Wire → DialOutcome
  dial_failed : Bool → DialOutcome

pub record Env : Type 0 where
  -- `time.Now()`
  pub time : ℕ → ℕ
  -- the 24 bytes of `rand.Read`, if it does not fail
  pub nonce : ℕ → Option Bytes
  -- the error of `SetReadDeadline` or `SetWriteDeadline` for a deadline, if any
  pub set_deadline : ℕ → ℕ → Option Bool
  pub write : ℕ → Bytes → WriteOutcome
  -- whether a `select` between a done context and another ready case takes the context
  pub done_first : ℕ → Bool
  -- by the index of the peer
  pub dial : ℕ → ℕ → DialOutcome

-- The smaller of two moments, where the first may be absent.
abbrev pub earlier : Option ℕ → ℕ → ℕ
earlier none t = t
earlier (some e) t = if ltb e t then e else t

-- `deadline(ctx, d)` at the moment `now`.
unfoldable pub deadline : Ctx → ℕ → ℕ → ℕ
deadline x now d = earlier x.due (now + d)

abbrev pub or_expired : Option CtxError → Bool → Option CtxError
or_expired (some e) late = some e
or_expired none late = if late then some deadline_exceeded else none

-- `context.WithTimeout(ctx, d)`, made at the moment `now`.
unfoldable pub with_timeout : Env → Ctx → ℕ → ℕ → Ctx
unfolding deadline
with_timeout E x now d = record {
  err_at = λ n. or_expired (x.err_at n) (leb (deadline x now d) (E.time n));
  due = some (deadline x now d);
}
