-- ===== src/Errors.antt =====
-- errors.go: the driver's error values, `Error.Is`, `errors.Is` on them, and `ioError`.
use koutendb_go.Common.{Bool, true, false, ◌||◌, ◌&&◌, Option, none, some, if◌then◌else◌, String}

-- The `kind` strings of the sentinels.
pub data Kind : Type 0 where
  connection timeout authentication protocol version server indeterminate input closed : Kind

-- `context.Canceled` and `context.DeadlineExceeded`.
pub data CtxError : Type 0 where
  canceled deadline_exceeded : CtxError

-- A non-nil Go `error`. A sentinel is an `*Error` without a cause, `wrap` one with a cause; `io` is an
-- error of the network, with the answer of its `Timeout()`, `other` one of errors.New. `out_of_fuel` is no Go value: a loop of the
-- model returns it when its fuel is used up.
pub data Failure : Type 0 where
  sentinel : Kind → Failure
  wrap : Kind → Failure → Failure
  ctx : CtxError → Failure
  io : Bool → Failure
  other : String → Failure
  out_of_fuel : Failure

pub kind_eq : Kind → Kind → Bool
kind_eq connection connection = true
kind_eq timeout timeout = true
kind_eq authentication authentication = true
kind_eq protocol protocol = true
kind_eq version version = true
kind_eq server server = true
kind_eq indeterminate indeterminate = true
kind_eq input input = true
kind_eq closed closed = true
kind_eq _ _ = false

-- `Error.message`, which `Error.Error` returns: every error of a kind has the text of its sentinel.
pub message : Kind → String
message connection = "koutendb: connection failed"
message timeout = "koutendb: operation timed out"
message authentication = "koutendb: authentication rejected"
message protocol = "koutendb: invalid wire response"
message version = "koutendb: unsupported wire version"
message server = "koutendb: server rejected request"
message indeterminate = "koutendb: write outcome unknown; do not automatically retry"
message input = "koutendb: invalid option or request"
message closed = "koutendb: client closed"

-- `(*Error).Is` on the kinds of the error and of the target.
unfoldable pub matches : Kind → Kind → Bool
unfolding kind_eq
matches e t = kind_eq e t || (kind_eq e closed && kind_eq t connection)

-- `errors.Is(err, t)` for a sentinel `t`: the error, then what it unwraps to.
unfoldable pub is_kind : Failure → Kind → Bool
unfolding matches
is_kind (sentinel k) t = matches k t
is_kind (wrap k cause) t = matches k t || is_kind cause t
is_kind (ctx e) t = false
is_kind (io b) t = false
is_kind (other m) t = false
is_kind out_of_fuel t = false

ctx_eq : CtxError → CtxError → Bool
ctx_eq canceled canceled = true
ctx_eq deadline_exceeded deadline_exceeded = true
ctx_eq _ _ = false

-- `errors.Is(err, t)` for an error `t` of the context package.
unfoldable pub is_ctx : Failure → CtxError → Bool
unfolding ctx_eq
is_ctx (wrap k cause) t = is_ctx cause t
is_ctx (ctx e) t = ctx_eq e t
is_ctx _ t = false

-- `errors.As(err, &n) && n.Timeout()`. `context.DeadlineExceeded` is a timeout too.
unfoldable pub is_timeout : Failure → Bool
is_timeout (sentinel k) = false
is_timeout (wrap k cause) = is_timeout cause
is_timeout (ctx canceled) = false
is_timeout (ctx deadline_exceeded) = true
is_timeout (io b) = b
is_timeout (other m) = false
is_timeout out_of_fuel = false

-- `ioError`, on what `ctx.Err()` answers. Running out of fuel is passed on.
unfoldable pub io_error : Option CtxError → Failure → Failure
unfolding is_timeout
io_error e out_of_fuel = out_of_fuel
io_error (some e) _ = ctx e
io_error none err = if is_timeout err then sentinel timeout else sentinel connection

-- The type assertion `err.(*Error)`.
unfoldable pub is_error : Failure → Bool
is_error (sentinel k) = true
is_error (wrap k cause) = true
is_error _ = false
