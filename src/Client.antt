-- ===== src/Client.antt =====
-- client.go: the client's state, its gate (`lock`, `unlock`), `drop`, `Close` and `ensure`.
pub mod Request
pub mod Put
pub mod Read
pub mod Redirect
pub mod Gate
pub mod Writes
pub mod Retry
pub mod Ready
pub mod Payloads
pub mod Replies
pub mod Json
pub mod Stable
pub mod Steady
pub mod Operations
pub mod Closed
pub mod Served
pub mod Promise
use koutendb_go.Common.{
  ℕ, ◌+◌, Bool, true, false, ◌||◌, ◌&&◌, not, List, [], ◌∷◌, ◌++◌, Option, none, some, Bytes, codes,
  length, ltb, leb, ◌==◌, if◌then◌else◌,
}
use koutendb_go.Common.Int.{pos_part}
use koutendb_go.Errors.{
  Failure, CtxError, deadline_exceeded, sentinel, ctx, io, out_of_fuel, input,
  closed as closed_kind, protocol, timeout, io_error, is_ctx,
}
use koutendb_go.Result.{Result, ok, err, and_then, M, ◌>>=◌, ◌>>◌, pure, continue}
use koutendb_go.Wire.{Crypto, Wire, close as close_wire}
use koutendb_go.Options.{Options, Credentials}
use koutendb_go.Environment.{Ctx, Env, DialOutcome, dialed, dial_failed, with_timeout}
use koutendb_go.Normalize.{normalize}
use koutendb_go.Exchange.{Link}
use koutendb_go.Handshake.{handshake}

-- `map[int]*wire`
abbrev pub Connections : Type 0
Connections = List (ℕ × Wire)

abbrev pub lookup : ℕ → Connections → Option Wire
lookup n [] = none
lookup n ((m, w) ∷ cs) = if n == m then some w else lookup n cs

abbrev pub insert : ℕ → Wire → Connections → Connections
insert n w [] = (n, w) ∷ []
insert n w ((m, v) ∷ cs) = if n == m then (n, w) ∷ cs else (m, v) ∷ insert n w cs

-- `Client`, as `Dial` makes it. `gate` says whether the channel holds its token. `retired` are the
-- connections that have been closed, and `now` counts the questions to the surroundings.
pub record Client : Type 0 where
  pub gate : Bool
  pub peers : List Bytes
  pub opts : Options
  pub connections : Connections
  pub closed : Bool
  pub retired : List Wire
  pub now : ℕ

-- `(*Client).String` and `(*Client).GoString`
unfoldable pub client_string : Client → Bytes
client_string c = codes "KoutenDB TCP client"

unfoldable pub client_go_string : Client → Bytes
client_go_string c = client_string c

abbrev pub tick : Client → Client
tick c = record c { now = c.now + 1 }

-- `(*Client).unlock`
abbrev pub unlock : Client → Client
unlock c = record c { gate = true }

-- The rest of `lock` once the token has been taken.
abbrev pub enter : Option CtxError → M Client (Unit {0})
enter (some e) c = (err (ctx e), unlock (tick c))
enter none c = if c.closed then (err (sentinel closed_kind), unlock (tick c)) else (ok tt, tick c)

abbrev pub take_gate : Ctx → M Client (Unit {0})
take_gate x c = enter (x.err_at (c.now + 1)) (record c { gate = false; now = c.now + 1 })

-- The `select` of `lock`: without a token only a done context ends it. A wait that never ends has no
-- result in the program, and `out_of_fuel` here.
abbrev pub select_gate : Ctx → Bool → Option CtxError → M Client (Unit {0})
select_gate x done_first none c = if c.gate then take_gate x c else (err out_of_fuel, tick c)
select_gate x done_first (some e) c =
    if done_first || not c.gate then (err (ctx e), tick c) else take_gate x c

-- `(*Client).lock`; the context may be nil.
unfoldable pub lock : Env → Option Ctx → M Client (Unit {0})
lock E none c = (err (sentinel input), c)
lock E (some x) c = select_gate x (E.done_first c.now) (x.err_at c.now) c

abbrev pub close_all : Connections → List Wire
close_all [] = []
close_all ((n, w) ∷ cs) = close_wire w ∷ close_all cs

-- `(*Client).drop`
unfoldable pub drop : Client → Client
drop c = record c { connections = []; retired = close_all c.connections ++ c.retired }

abbrev pub no_credentials : Credentials
no_credentials = record { username = []; password = []; auth_token = []; secret_key = [] }

-- `(*Client).Close`, which waits for the token, and gives it back.
unfoldable pub close : Client → Client
unfolding drop
close c =
    let d = drop c in
    unlock (record d { closed = true; opts = record (d.opts) { credentials = no_credentials } })

-- `return nil, ctx.Err()` or the mapped error of a failed handshake. The wire is closed.
abbrev pub handshake_error : Option CtxError → Failure → Failure
handshake_error (some e) err' = ctx e
handshake_error none err' = if is_ctx err' deadline_exceeded then sentinel timeout else err'

abbrev pub joined : Ctx → ℕ → Client → Result (Unit {0}) × Link → Result (Unit {0}) × Client
joined x node c (ok _, s) =
    (ok tt, record c { connections = insert node s.wire c.connections; now = s.now })
joined x node c (err e, s) = (
  err (handshake_error (x.err_at s.now) e),
  record c { retired = close_wire s.wire ∷ c.retired; now = s.now + 1 },
)

module _ (E : Env) (C : Crypto) where
  -- A fresh connection negotiates under the context with the connect timeout.
  abbrev pub connected : Ctx → Ctx → ℕ → DialOutcome → M Client (Unit {0})
  connected x dialctx node (dial_failed b) c = (err (io_error (x.err_at c.now) (io b)), tick c)
  connected x dialctx node (dialed w) c =
      joined x node c
        (handshake E C dialctx c.opts (record { wire = w; now = c.now; attempted = false }))

  abbrev pub connect : Ctx → ℕ → M Client (Unit {0})
  connect x node c =
      connected x (with_timeout E x (E.time c.now) (pos_part c.opts.connect_timeout)) node
        (E.dial node c.now) (tick c)

  abbrev pub ensured : Ctx → ℕ → Option Wire → M Client (Unit {0})
  ensured x node (some w) c = (ok tt, c)
  ensured x node none c = connect x node c

  -- `(*Client).ensure`, after which the client has a connection to the peer. The index is a natural
  -- number in every call.
  unfoldable pub ensure : Ctx → ℕ → M Client (Unit {0})
  unfolding with_timeout
  ensure x node c =
      if c.closed
      then (err (sentinel closed_kind), c)
      else if leb (length c.peers) node
      then (err (sentinel protocol), c)
      else ensured x node (lookup node c.connections) c

  abbrev pub dialed_first : Result (Unit {0}) × Client → Result (Unit {0}) × Client
  dialed_first (ok _, c) = (ok tt, c)
  dialed_first (err e, c) = (err e, drop c)

  -- `Dial` behind `normalize`, for a context that is not nil.
  unfoldable pub dial : Ctx → List Bytes → Options → Result (Unit {0}) × Client
  unfolding ensure drop
  dial x peers o = dialed_first (
      ensure x 0 (record {
        gate = true;
        peers = peers;
        opts = o;
        connections = [];
        closed = false;
        retired = [];
        now = 0;
      }))

  -- The client that `Dial` returns.
  abbrev pub returned : Result (Unit {0}) × Client → Result Client
  returned (ok _, c) = ok c
  returned (err e, c) = err e

  -- `Dial`; the TLS configuration is used by the dialling of the surroundings.
  unfoldable pub dial_normalized :
      (Bytes → Bool) → Option Ctx → List Bytes → Options → Result Client
  dial_normalized trusted none peers o = err (sentinel input)
  dial_normalized trusted (some x) peers o =
      and_then (normalize trusted peers o) λ (o', t). returned (dial x peers o')
