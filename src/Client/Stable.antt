-- ===== src/Client/Stable.antt =====
-- client.go: `lock`, requests and the rounds of a read, for any relation between clients that their steps keep.
use koutendb_go.Common.{
  ℕ, ◌+◌, Bool, true, false, ◌||◌, not, Option, ◌∷◌, none, some, if◌then◌else◌,
}
use koutendb_go.Errors.{CtxError, Failure, sentinel, connection}
use koutendb_go.Result.{Result, ok, err, M}
use koutendb_go.Result.Rules.{Keeps}
use koutendb_go.Wire.{Wire, close as close_wire}
use koutendb_go.Environment.{Ctx, Env}
use koutendb_go.Exchange.{Link}
use koutendb_go.Client.{Client, lookup, insert, tick, drop, enter, take_gate, select_gate, lock}
use koutendb_go.Client.Request.{with_lock, locked, request, request_on, link_of}
use koutendb_go.Client.Put.{put_settled}
use koutendb_go.Client.Read.{retry_at, after_op, attempts, is_retryable}

-- The steps that change a client: the gate and the clock, a connection that is stored, one that is closed
-- before it is stored, and `drop`.
pub record IsStable (R : Client → Client → Type 0) : Type 0 where
  pub same : (c : Client) → R c c
  pub chain : (a b c : Client) → R a b → R b c → R a c
  pub reset : (c : Client) (g : Bool) (n : ℕ) → R c (record c { gate = g; now = n })
  pub stored :
      (c : Client) (node : ℕ) (w : Wire) (n : ℕ)
      → R c (record c { connections = insert node w c.connections; now = n })
  pub failed :
      (c : Client) (w : Wire) (n : ℕ)
      → R c (record c { retired = close_wire w ∷ c.retired; now = n })
  pub dropped : (c : Client) → R c (drop c)

module _ (R : Client → Client → Type 0) (S : IsStable R) where
  pub if-Keeps :
      {A : Type 0} (b : Bool) (c : Client) (x y : A × Client)
      → R c x.1
      → R c y.1
      → R c (if b then x else y).1
  if-Keeps true c x y hx hy = hx
  if-Keeps false c x y hx hy = hy

  pub tick-Keeps : (c : Client) → R c (tick c)
  tick-Keeps c = S.reset c c.gate (c.now + 1)

  take_gate-Keeps : (x : Ctx) (c : Client) → R c (take_gate x c).1
  take_gate-Keeps x c = go (x.err_at (c.now + 1))
    where
      go : (o : Option CtxError) → R c (enter o (record c { gate = false; now = c.now + 1 })).1
      go (some e) = S.reset c true (c.now + 1 + 1)
      go none =
          if-Keeps c.closed c _ _ (S.reset c true (c.now + 1 + 1)) (S.reset c false (c.now + 1 + 1))

  pub lock-Keeps : (E : Env) (x : Option Ctx) (c : Client) → R c (lock E x c).1
  unfolding lock
  lock-Keeps E none c = S.same c
  lock-Keeps E (some x) c = go (x.err_at c.now)
    where
      go : (o : Option CtxError) → R c (select_gate x (E.done_first c.now) o c).1
      go none = if-Keeps c.gate c _ _ (take_gate-Keeps x c) (tick-Keeps c)
      go (some e) =
          if-Keeps (E.done_first c.now || not c.gate) c _ _ (tick-Keeps c) (take_gate-Keeps x c)

  locked-Keeps :
      {A : Type 0} (body : M Client A) (c : Client) (r : Result (Unit {0}) × Client)
      → Keeps R body
      → R c r.1
      → R c (locked body r).1
  locked-Keeps body c (ok _, d) keeps h =
      let e = (body d).1 in S.chain c d _ h (S.chain d e _ (keeps d) (S.reset e true e.now))
  locked-Keeps body c (err e, d) keeps h = h

  pub with_lock-Keeps :
      {A : Type 0} (E : Env) (x : Option Ctx) (body : Ctx → M Client A)
      → ((x' : Ctx) → Keeps R (body x'))
      → Keeps R (with_lock E x body)
  with_lock-Keeps E none body keeps c =
      locked-Keeps (λ c'. (err (sentinel connection), c')) c (lock E none c) S.same
        (lock-Keeps E none c)
  with_lock-Keeps E (some x) body keeps c =
      locked-Keeps (body x) c (lock E (some x) c) (keeps x) (lock-Keeps E (some x) c)

  pub request-Keeps : {A : Type 0} (node : ℕ) (m : M Link A) (c : Client) → R c (request node m c).1
  unfolding request
  request-Keeps node m c = go (lookup node c.connections)
    where
      go : (o : Option Wire) → R c (request_on node m o c).1
      go none = S.same c
      go (some w) = let t = (m (link_of node w c)).1 in S.stored c node t.wire t.now

  pub put_settled-Keeps :
      {A : Type 0} (c : Client) (r : (Result A × Bool) × Client) → R c r.1 → R c (put_settled r).1
  put_settled-Keeps c ((ok a, flag), d) h = h
  put_settled-Keeps c ((err e, flag), d) h = S.chain c d (drop d) h (S.dropped d)

  -- The two rounds of a read.
  pub attempts-Keeps :
      {A : Type 0} (x : Ctx) (op : M Client A) → Keeps R op → Keeps R (attempts x op)
  unfolding attempts
  attempts-Keeps {A} x op keeps c = round (some again) (λ d. go d) c (op c) (keeps c)
    where
      again : M Client A
      again c' = after_op x none (op c')

      Tries : Option (M Client A) → Type 0
      Tries none = Unit
      Tries (some m) = Keeps R m

      tried :
          (o : Option (M Client A)) (f : Failure) (e : Option CtxError) (d : Client)
          → Tries o
          → R d (retry_at o f e d).1
      tried o f (some ce) d tries = tick-Keeps d
      tried none f none d tries = tick-Keeps d
      tried (some m) f none d tries =
          if-Keeps (is_retryable d.opts f) d _ _
            (S.chain d (tick d) _ (tick-Keeps d) (tries (tick d))) (tick-Keeps d)

      round :
          (o : Option (M Client A))
          → Tries o
          → (d : Client) (r : Result A × Client) → R d r.1
          → R d (after_op x o r).1
      round o tries d (ok a, e) h = h
      round o tries d (err f, e) h =
          S.chain d e _ h
            (S.chain e (drop e) _ (S.dropped e) (tried o f (x.err_at e.now) (drop e) tries))

      go : (d : Client) → R d (again d).1
      go d = round none tt d (op d) (keeps d)
