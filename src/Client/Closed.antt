-- ===== src/Client/Closed.antt =====
-- client.go: the connections that a client closes.
use koutendb_go.Common.{
  ℕ, zero, suc, ◌+◌, ◌≤◌, ◌≡◌, refl, ap, true, false, List, [], ◌∷◌, ◌++◌, Option, none, some,
  Bytes, length, replicate, All, arith,
}
use koutendb_go.Errors.{Failure}
use koutendb_go.Result.{Result, ok, err, M}
use koutendb_go.Result.Rules.{Keeps}
use koutendb_go.Floats.{Floats}
use koutendb_go.Identity.{RecordId, valid}
use koutendb_go.Wire.{Crypto, Wire, close as close_wire}
use koutendb_go.Environment.{Ctx, Env}
use koutendb_go.Client.{Client, Connections, insert, close_all, drop, lock}
use koutendb_go.Client.Request.{locked}
use koutendb_go.Client.Read.{attempts, health_op, health, read_operation}
use koutendb_go.Client.Redirect.{within_limit, lookup_op, read}
use koutendb_go.Client.Retry.{attempts-drops}
use koutendb_go.Client.Stable.{IsStable, lock-Keeps, attempts-Keeps}
use koutendb_go.Client.Operations.{lookup_op-Keeps, health_op-Keeps}

abbrev pub IsWiped : Bytes → Type 0
IsWiped = All (λ b. b ≡ 0)

abbrev pub HasNoKey : Option Bytes → Type 0
HasNoKey none = Unit
HasNoKey (some key) = IsWiped key

-- The connection is closed, and its key and its decrypted bytes have been overwritten.
abbrev pub IsClosed : Wire → Type 0
IsClosed w = (w.is_open ≡ false) × HasNoKey w.key × IsWiped w.plain

abbrev pub AreClosed : List Wire → Type 0
AreClosed = All IsClosed

replicate-IsWiped : (n : ℕ) → IsWiped (replicate n 0)
replicate-IsWiped zero = tt
replicate-IsWiped (suc n) = (refl, replicate-IsWiped n)

close_wire-IsClosed : (w : Wire) → IsClosed (close_wire w)
unfolding close_wire
close_wire-IsClosed w = (refl, go w.key, replicate-IsWiped (length w.plain))
  where
    go : (k : Option Bytes) → HasNoKey (close_wire (record w { key = k })).key
    go none = tt
    go (some key) = replicate-IsWiped (length key)

close_all-AreClosed :
    (cs : Connections) (ws : List Wire) → AreClosed ws → AreClosed (close_all cs ++ ws)
close_all-AreClosed [] ws h = h
close_all-AreClosed ((n, w) ∷ cs) ws h = (close_wire-IsClosed w, close_all-AreClosed cs ws h)

close_all-length :
    (cs : Connections) (ws : List Wire) → length (close_all cs ++ ws) ≡ length cs + length ws
close_all-length [] ws = omega arith
close_all-length ((n, w) ∷ cs) ws = let ih = close_all-length cs ws in omega arith

insert-length : (n : ℕ) (w : Wire) (cs : Connections) → length cs ≤ length (insert n w cs)
insert-length n w [] = omega arith
insert-length n w ((m, v) ∷ cs) = ground (arith, insert-length n w cs)

-- Where those that a client has closed are closed, they still are, and its connections, open and closed,
-- do not become fewer.
record Tidy (c d : Client) : Type 0 where
  closed : AreClosed c.retired → AreClosed d.retired
  grows : length c.connections + length c.retired ≤ length d.connections + length d.retired

Tidy-IsStable : IsStable Tidy
unfolding drop
Tidy-IsStable = record {
  same = λ c. record { closed = λ h. h; grows = omega arith };
  chain = λ a b c p q. record {
    closed = λ h. q.closed (p.closed h);
    grows = let h = p.grows in let k = q.grows in omega arith;
  };
  reset = λ c g n. record { closed = λ h. h; grows = omega arith };
  stored = λ c node w n. record {
    closed = λ h. h;
    grows = let h = insert-length node w c.connections in omega arith;
  };
  failed = λ c w n. record { closed = λ h. (close_wire-IsClosed w, h); grows = omega arith };
  dropped = λ c. record {
    closed = close_all-AreClosed c.connections c.retired;
    grows = let h = close_all-length c.connections c.retired in omega arith;
  };
}

-- The second client has no connection but closed ones, and no fewer than the first had.
pub record Dropped (c d : Client) : Type 0 where
  pub none_open : d.connections ≡ []
  pub closed : AreClosed d.retired
  pub none_lost : length c.connections + length c.retired ≤ length d.retired

module _ (x : Ctx) {A : Type 0} (op : M Client A) (keeps : Keeps Tidy op) (c : Client)
    (closed : AreClosed c.retired) (e : Failure) where
  attempts-Dropped :
      (d : Client) → Tidy c d → (attempts x op d).0 ≡ err e → Dropped c (attempts x op d).1
  attempts-Dropped d tidy h =
      let t =
        Tidy-IsStable.chain c d (attempts x op d).1 tidy
          (attempts-Keeps Tidy Tidy-IsStable x op keeps d) in
      let empty = attempts-drops x op d e h in
      record {
        none_open = empty;
        closed = t.closed closed;
        none_lost =
            let g = t.grows in
            let z : length (attempts x op d).1.connections ≡ 0 = ap length empty in omega arith;
      }

  locked-Dropped :
      (r : Result (Unit {0}) × Client)
      → Tidy c r.1
      → r.0 ≡ ok tt
      → (locked (attempts x op) r).0 ≡ err e
      → Dropped c (locked (attempts x op) r).1
  locked-Dropped (ok _, d) tidy taken h =
      let k = attempts-Dropped d tidy h in
      record { none_open = k.none_open; closed = k.closed; none_lost = k.none_lost }
  locked-Dropped (err f, d) tidy taken h = cc

module _ (F : Floats) (E : Env) (C : Crypto) (x : Ctx) (c : Client) (e : Failure) where
  -- Health that has taken the gate and fails leaves no connection but closed ones, where those that were
  -- closed before are.
  pub health-Dropped :
      AreClosed c.retired
      → (lock E (some x) c).0 ≡ ok tt
      → (health F E C (some x) c).0 ≡ err e
      → Dropped c (health F E C (some x) c).1
  unfolding health read_operation
  health-Dropped closed taken h =
      locked-Dropped x (health_op F E C x) (health_op-Keeps Tidy Tidy-IsStable E C F x) c closed e
        (lock E (some x) c) (lock-Keeps Tidy Tidy-IsStable E (some x) c) taken h

  -- Where the connections that a client has closed before are closed, with key and decrypted bytes
  -- wiped: a read that has taken the gate, on arguments that pass their tests, and fails leaves no
  -- connection open, the connections kept as closed are all closed and wiped, and they are at least as
  -- many as the client had before, open and closed.
  pub read-Dropped :
      (id : RecordId F) (s : Option Bytes)
      → AreClosed c.retired
      → (lock E (some x) c).0 ≡ ok tt
      → valid F id ≡ true
      → within_limit c.opts s ≡ true
      → (read F E C (some x) id s c).0 ≡ err e
      → Dropped c (read F E C (some x) id s c).1
  unfolding read read_operation
  read-Dropped id s closed taken good fits h =
      rw (good, fits)
        (locked-Dropped x (lookup_op F E C s id x) (lookup_op-Keeps Tidy Tidy-IsStable E C F s id x)
          c closed e (lock E (some x) c) (lock-Keeps Tidy Tidy-IsStable E (some x) c) taken
          (rw (good, fits) at h))
