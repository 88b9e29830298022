-- ===== src/Client/Promise.antt =====
-- What `PutCodec` has sent when it returns: the promise behind ErrIndeterminateWrite, for the whole call.
use koutendb_go.Common.{
  ℕ, ◌+◌, ◌==◌, ◌≡◌, refl, sym, ap, ◌∙◌, Bool, true, false, ◌||◌, not, List, [], ◌∷◌, ◌++◌, Option,
  none, some, Bytes, length, leb, if◌then◌else◌, Bool-cases, inl, inr, arith,
}
use mathlib.Core.Path.{subst}
use koutendb_go.Errors.{CtxError, Failure, sentinel, protocol, closed as closed_kind}
use koutendb_go.Result.{Result, ok, err, M, continue}
use koutendb_go.Floats.{Floats}
use koutendb_go.Identity.{RecordId}
use koutendb_go.Codec.{Codec}
use koutendb_go.Wire.{Crypto, Wire, close as close_wire}
use koutendb_go.Environment.{Ctx, Env}
use koutendb_go.Client.{
  Client, Connections, lookup, insert, tick, close_all, drop, enter, take_gate, select_gate, lock,
  ensured, ensure,
}
use koutendb_go.Client.Request.{with_lock, locked, request, link_of}
use koutendb_go.Client.Put.{put_settled, put_locked, put_codec, is_storable, put_request}
use koutendb_go.Client.Writes.{IsPlain, lookup-insert_self, request_lem, put_plain_error}

-- The number of bytes that have been written on all connections, open ones and closed ones.
abbrev pub total : List Wire → ℕ
total [] = 0
total (w ∷ ws) = length w.outbox + total ws

abbrev pub total_open : Connections → ℕ
total_open [] = 0
total_open ((n, w) ∷ cs) = length w.outbox + total_open cs

abbrev pub written : Client → ℕ
written c = total_open c.connections + total c.retired

some_injective : {a b : Wire} → some a ≡ some b → a ≡ b
some_injective h = cc

total_open-insert :
    (n : ℕ) (w u : Wire) (cs : Connections)
    → lookup n cs ≡ some w
    → length u.outbox ≡ length w.outbox
    → total_open (insert n u cs) ≡ total_open cs
total_open-insert n w u [] found same = cc
total_open-insert n w u ((m, v) ∷ cs) found same = elim (Bool-cases (n == m)) [
  | inl here ↦
      let e : v ≡ w =
        some_injective (sym (ap (λ (b : Bool). if b then some v else lookup n cs) here) ∙ found) in
      rw here (ap (λ k. k + total_open cs) (same ∙ ap (λ (k : Wire). length k.outbox) (sym e)))
  | inr there ↦ rw there (
      ap (λ k. length v.outbox + k)
        (total_open-insert n w u cs
          (sym (ap (λ (b : Bool). if b then some v else lookup n cs) there) ∙ found) same))
]

total-close_all :
    (cs : Connections) (ws : List Wire) → total (close_all cs ++ ws) ≡ total_open cs + total ws
unfolding close_wire
total-close_all [] ws = omega arith
total-close_all ((n, w) ∷ cs) ws = let ih = total-close_all cs ws in omega arith

written-drop : (c : Client) → written (drop c) ≡ written c
unfolding drop
written-drop c = let h = total-close_all c.connections c.retired in omega arith

-- `lock` does not touch the connections.
record Leaves (c d : Client) : Type 0 where
  same_connections : d.connections ≡ c.connections
  same_retired : d.retired ≡ c.retired

Leaves-refl : (c : Client) → Leaves c c
Leaves-refl c = record { same_connections = refl; same_retired = refl }

if-Leaves :
    {A : Type 0} (b : Bool) (c : Client) (x y : A × Client)
    → Leaves c x.1
    → Leaves c y.1
    → Leaves c (if b then x else y).1
if-Leaves true c x y hx hy = hx
if-Leaves false c x y hx hy = hy

take_gate-Leaves : (x : Ctx) (c : Client) → Leaves c (take_gate x c).1
take_gate-Leaves x c = go (x.err_at (c.now + 1))
  where
    go : (o : Option CtxError) → Leaves c (enter o (record c { gate = false; now = c.now + 1 })).1
    go (some e) = record { same_connections = refl; same_retired = refl }
    go none =
        if-Leaves c.closed c _ _ (record { same_connections = refl; same_retired = refl })
          (record { same_connections = refl; same_retired = refl })

lock-Leaves : (E : Env) (x : Option Ctx) (c : Client) → Leaves c (lock E x c).1
unfolding lock
lock-Leaves E none c = Leaves-refl c
lock-Leaves E (some x) c = go (x.err_at c.now)
  where
    ticked : Leaves c (tick c)
    ticked = record { same_connections = refl; same_retired = refl }

    go : (o : Option CtxError) → Leaves c (select_gate x (E.done_first c.now) o c).1
    go none = if-Leaves c.gate c _ _ (take_gate-Leaves x c) ticked
    go (some e) = if-Leaves (E.done_first c.now || not c.gate) c _ _ ticked (take_gate-Leaves x c)

module _ (F : Floats) (E : Env) (C : Crypto) (ring content : Bytes) (codec : Codec) (e : Failure)
    (plain : IsPlain e) where
  written-put_settled :
      (r : (Result (RecordId F) × Bool) × Client) → written (put_settled r).1 ≡ written r.1
  written-put_settled ((ok id, flag), c) = refl
  written-put_settled ((err f, flag), c) = written-drop c

  -- On the connection that is there.
  written-request :
      (x : Ctx) (c : Client) (w : Wire)
      → lookup 0 c.connections ≡ some w
      → (put_settled (request 0 (put_request F E C x c.opts ring content codec) c)).0 ≡ err e
      → written (put_settled (request 0 (put_request F E C x c.opts ring content codec) c)).1
        ≡ written c
  written-request x c w found h =
      let (u, stored, same) =
        put_plain_error F E C x c.opts ring content codec c w e found h plain in
      let r = put_request F E C x c.opts ring content codec (link_of 0 w c) in
      let eq = request_lem F E C x c.opts ring content codec c w found in
      written-put_settled (request 0 (put_request F E C x c.opts ring content codec) c)
      ∙ ap (λ (q : (Result (RecordId F) × Bool) × Client). written q.1) eq
      ∙ ap (λ k. k + total c.retired)
          (total_open-insert 0 w r.1.wire c.connections found (
            ap length (
              ap (λ (k : Wire). k.outbox)
                (some_injective (
                  sym (lookup-insert_self 0 r.1.wire c.connections)
                  ∙ sym (
                      ap (λ (q : (Result (RecordId F) × Bool) × Client). lookup 0 q.1.connections)
                        eq)
                  ∙ stored))
              ∙ same)))

  -- Behind the lock: `ensure` finds the connection.
  written-put_locked :
      (x : Ctx) (c : Client) (w : Wire)
      → lookup 0 c.connections ≡ some w
      → (put_locked F E C ring content codec x c).0 ≡ err e
      → written (put_locked F E C ring content codec x c).1 ≡ written c
  unfolding ensure
  written-put_locked x c w found = go c.closed (leb (length c.peers) 0)
    where
      rest : M Client (RecordId F)
      rest d = put_settled (request 0 (put_request F E C x d.opts ring content codec) d)

      there :
          (o : Option Wire)
          → lookup 0 c.connections ≡ o
          → o ≡ some w
          → ensured E C x 0 o c ≡ (ok tt, c)
      there none same h = cc
      there (some v) same h = refl

      settled :
          (r : Result (Unit {0}) × Client)
          → r ≡ (ok tt, c)
          → (continue (λ _. rest) r).0 ≡ err e
          → written (continue (λ _. rest) r).1 ≡ written c
      settled r same =
          subst
            (λ (q : Result (Unit {0}) × Client).
              (continue (λ _. rest) q).0 ≡ err e → written (continue (λ _. rest) q).1 ≡ written c)
            (sym same) (written-request x c w found)

      go :
          (b l : Bool)
          → (continue
              (λ _. rest)
              (if b
                then (err (sentinel closed_kind), c)
                else if l
                then (err (sentinel protocol), c)
                else ensured E C x 0 (lookup 0 c.connections) c)).0
            ≡ err e
          → written
              (continue
                (λ _. rest)
                (if b
                  then (err (sentinel closed_kind), c)
                  else if l
                  then (err (sentinel protocol), c)
                  else ensured E C x 0 (lookup 0 c.connections) c)).1
            ≡ written c
      go true l h = refl
      go false true h = refl
      go false false h =
          settled (ensured E C x 0 (lookup 0 c.connections) c)
            (there (lookup 0 c.connections) refl found) h

  written-locked :
      (x : Ctx) (c : Client) (w : Wire) (r : Result (Unit {0}) × Client)
      → lookup 0 c.connections ≡ some w
      → Leaves c r.1
      → (locked (put_locked F E C ring content codec x) r).0 ≡ err e
      → written (locked (put_locked F E C ring content codec x) r).1 ≡ written c
  written-locked x c w (ok _, d) found leaves h =
      written-put_locked x d w (ap (lookup 0) leaves.same_connections ∙ found) h ∙ left d leaves
    where
      left : (d : Client) → Leaves c d → written d ≡ written c
      left d leaves = rw (leaves.same_connections, leaves.same_retired) refl
  written-locked x c w (err f, d) found leaves h =
      rw (leaves.same_connections, leaves.same_retired) refl

  -- When PutCodec, on a client with a connection to the first peer, fails with an error other than
  -- ErrIndeterminateWrite, ErrServer and ErrAuthentication, nothing has been sent: as many bytes have
  -- been written on the connections of the client, open and closed, as before.
  pub put_codec_plain :
      (x : Option Ctx) (c : Client) (w : Wire)
      → lookup 0 c.connections ≡ some w
      → (put_codec F E C x ring content codec c).0 ≡ err e
      → written (put_codec F E C x ring content codec c).1 ≡ written c
  unfolding put_codec lock
  put_codec_plain x c w found h = elim (Bool-cases (is_storable c.opts ring content codec)) [
    | inl good ↦ rw good (go x (rw good at h))
    | inr bad ↦ rw bad refl
  ]
    where
      go :
          (y : Option Ctx)
          → (with_lock E y (put_locked F E C ring content codec) c).0 ≡ err e
          → written (with_lock E y (put_locked F E C ring content codec) c).1 ≡ written c
      go none k = refl
      go (some y) k = written-locked y c w (lock E (some y) c) found (lock-Leaves E (some y) c) k
