-- ===== src/Exchange.antt =====
-- wire.go: `exchange`, one request and its reply on a connection.
pub mod Sent
pub mod Outcome
pub mod Quiet
pub mod Failing
pub mod Keys
use koutendb_go.Common.{
  ℕ, zero, suc, ◌+◌, Bool, true, false, ◌||◌, not, [], ◌∷◌, ◌++◌, Option, none, some, Bytes, length,
  take, drop, ltb, ◌==◌, if◌then◌else◌,
}
use koutendb_go.Common.Int.{pos_part}
use koutendb_go.Errors.{
  Failure, CtxError, sentinel, ctx, io, out_of_fuel, connection, input, io_error, is_error,
}
use koutendb_go.Result.{Result, ok, err, M, ◌>>=◌, ◌>>◌, pure, guard, continue}
use koutendb_go.Strings.{contains_any}
use koutendb_go.Wire.{max_header, Crypto, encrypt, sealed, Wire}
use koutendb_go.Options.{Options, frame_limit}
use koutendb_go.Environment.{Ctx, Env, WriteOutcome, wrote, write_failed, deadline}

-- A connection in use: the counter of questions to the surroundings, and the caller's flag `attempted`.
pub record Link : Type 0 where
  pub wire : Wire
  pub now : ℕ
  pub attempted : Bool

abbrev pub tick : Link → Link
tick s = record s { now = s.now + 1 }

-- `if err := ctx.Err(); err != nil { return err }`
abbrev pub check_at : Option CtxError → M Link (Unit {0})
check_at none s = (ok tt, tick s)
check_at (some e) s = (err (ctx e), tick s)

unfoldable pub check : Ctx → M Link (Unit {0})
check x s = check_at (x.err_at s.now) s

-- `return ioError(ctx, err)`
abbrev pub raise_io : {A : Type 0} → Ctx → Failure → M Link A
raise_io x e s = (err (io_error (x.err_at s.now) e), tick s)

-- `encrypt`, which draws a nonce, and the frame around its result.
abbrev pub seal_with : Crypto → Bytes → Bytes → Option Bytes → M Link Bytes
seal_with C key frame none s = (err (sentinel connection), tick s)
seal_with C key frame (some nonce) s = (ok (sealed (encrypt C key nonce frame)), tick s)

abbrev pub frame_with : Env → Crypto → Bytes → Option Bytes → M Link Bytes
frame_with E C frame none s = (ok frame, s)
frame_with E C frame (some key) s = seal_with C key frame (E.nonce s.now) s

-- The bytes to send for a request.
unfoldable pub frame_of : Env → Crypto → Bytes → M Link Bytes
frame_of E C frame s = frame_with E C frame s.wire.key s

-- `SetWriteDeadline` and `SetReadDeadline`, to the sooner of the timeout and the context's deadline.
abbrev pub armed : Ctx → Option Bool → M Link (Unit {0})
armed x none s = (ok tt, tick s)
armed x (some b) s = raise_io x (io b) (tick s)

unfoldable pub arm : Env → Ctx → ℕ → M Link (Unit {0})
arm E x d s = armed x (E.set_deadline s.now (deadline x (E.time s.now) d)) s

-- The first `n` bytes of the frame have been handed to the connection.
abbrev pub put_out : ℕ → Bytes → Link → Link
put_out n frame s = record (tick s) {
  wire = record (s.wire) { outbox = s.wire.outbox ++ take n frame };
  attempted = true;
}

abbrev pub written : Ctx → Bytes → WriteOutcome → M Link ℕ
written x frame (wrote n) s =
    if n == 0 then (err (sentinel connection), put_out n frame s) else (ok n, put_out n frame s)
written x frame (write_failed n b) s = raise_io x (io b) (put_out n frame s)

-- `w.conn.Write(frame)`, a frame that is not empty.
unfoldable pub write_some : Env → Ctx → Bytes → M Link ℕ
write_some E x frame s = written x frame (E.write s.now frame) s

-- `for len(frame) > 0 { … }`
unfoldable pub send : Env → Ctx → ℕ → Bytes → M Link (Unit {0})
send E x fuel [] s = (ok tt, s)
send E x zero (b ∷ frame) s = (err out_of_fuel, s)
send E x (suc fuel) (b ∷ frame) s =
    (check x >> (write_some E x (b ∷ frame) >>= λ n. send E x fuel (drop n (b ∷ frame)))) s

-- The reply, and what `exchange` makes of its error.
abbrev pub settle : {A : Type 0} → Ctx → Link → Result A × Wire → Result A × Link
settle x s (ok a, w) = (ok a, record s { wire = w })
settle x s (err e, w) =
    if is_error e then (err e, record s { wire = w }) else raise_io x e (record s { wire = w })

unfoldable pub receive : {A : Type 0} → Ctx → M Wire A → M Link A
receive x reply s = settle x s (reply s.wire)

-- The test of a request's parts.
abbrev pub is_sendable : Options → Bytes → Bytes → Bool
is_sendable o head body = not (
    ltb max_header (length head)
    || contains_any head (b'\r' ∷ b'\n' ∷ 0 ∷ [])
    || ltb (frame_limit o) (length body))

-- `exchange` up to the writes.
unfoldable pub prepare : Env → Crypto → Ctx → Options → Bytes → Bytes → M Link Bytes
prepare E C x o head body = do
  check x
  guard (is_sendable o head body) (sentinel input)
  frame ← frame_of E C (head ++ b'\n' ∷ body)
  arm E x (pos_part o.write_timeout)
  pure frame

-- `exchange` from the writes on. A round of `send` writes a byte at least.
unfoldable pub transmit : {A : Type 0} → Env → Ctx → Options → M Wire A → Bytes → M Link A
transmit E x o reply frame = do
  send E x (length frame) frame
  arm E x (pos_part o.read_timeout)
  check x
  receive x reply

-- `(*wire).exchange`
unfoldable pub exchange :
    {A : Type 0} → Env → Crypto → Ctx → Options → Bytes → Bytes → M Wire A → M Link A
exchange E C x o head body reply = prepare E C x o head body >>= transmit E x o reply
