-- ===== src/Client/Request.antt =====
-- client.go: how an operation holds the client's gate, and how it runs a request on a connection.
use koutendb_go.Common.{ℕ, Bool, false, Option, none, some}
use koutendb_go.Errors.{sentinel, closed, connection}
use koutendb_go.Result.{Result, ok, err, M}
use koutendb_go.Wire.{Wire}
use koutendb_go.Environment.{Ctx, Env}
use koutendb_go.Exchange.{Link}
use koutendb_go.Client.{Client, lookup, insert, lock, unlock}

-- `if err := c.lock(ctx); err != nil { return … }; defer c.unlock()`, around the rest of a method.
abbrev pub release : {A : Type 0} → Result A × Client → Result A × Client
release (r, c) = (r, unlock c)

abbrev pub locked : {A : Type 0} → M Client A → Result (Unit {0}) × Client → Result A × Client
locked body (ok _, c) = release (body c)
locked body (err e, c) = (err e, c)

-- A nil context does not get past `lock`.
abbrev pub with_lock : {A : Type 0} → Env → Option Ctx → (Ctx → M Client A) → M Client A
with_lock E none body c = locked (λ c'. (err (sentinel connection), c')) (lock E none c)
with_lock E (some x) body c = locked (body x) (lock E (some x) c)

-- The connection of the peer, with the flag `attempted` as the caller declares it.
abbrev pub link_of : ℕ → Wire → Client → Link
link_of node w c = record { wire = w; now = c.now; attempted = false }

-- The connection is changed in place, so the client's map has it as the request leaves it. The result
-- comes with the flag.
abbrev pub store : {A : Type 0} → ℕ → Client → Result A × Link → (Result A × Bool) × Client
store node c (r, s) =
    ((r, s.attempted), record c { connections = insert node s.wire c.connections; now = s.now })

-- A request on the connection that `ensure` has returned.
abbrev pub request_on :
    {A : Type 0} → ℕ → M Link A → Option Wire → Client → (Result A × Bool) × Client
request_on node m none c = ((err (sentinel connection), false), c)
request_on node m (some w) c = store node c (m (link_of node w c))

unfoldable pub request : {A : Type 0} → ℕ → M Link A → Client → (Result A × Bool) × Client
request node m c = request_on node m (lookup node c.connections) c

-- `c == nil || c.gate == nil`: a client that `Dial` has not made.
abbrev pub on_client : {A : Type 0} → M Client A → M (Option Client) A
on_client m none = (err (sentinel closed), none)
on_client m (some c) = let (r, c') = m c in (r, some c')
