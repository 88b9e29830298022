-- ===== src/Client/Ready.antt =====
-- client.go: `ensure` and `Dial`, and the client that they leave.
use koutendb_go.Common.{
  ℕ, ◌≤◌, ◌<◌, ◌≡◌, refl, sym, ap, ◌∙◌, Bool, true, false, List, [], Option, none, some, Bytes,
  length, leb, if◌then◌else◌, arith,
}
use mathlib.Core.Path.{subst}
use koutendb_go.Errors.{sentinel, closed, protocol}
use koutendb_go.Result.{Result, ok, err, and_then-eq-ok}
use koutendb_go.Wire.{Crypto, Wire}
use koutendb_go.Options.{Options}
use koutendb_go.Peers.{all_peers}
use koutendb_go.Normalize.{normalize}
use koutendb_go.Normalize.Laws.{IsNormal, normalize-IsNormal}
use koutendb_go.Environment.{Ctx, Env, DialOutcome, dialed, dial_failed}
use koutendb_go.Exchange.{Link}
use koutendb_go.Handshake.{handshake}
use koutendb_go.Client.{
  Client, lookup, tick, joined, connected, ensured, ensure, dialed_first, dial, returned,
  dial_normalized,
}
use koutendb_go.Client.Writes.{lookup-insert_self}

-- The client has a connection to the peer, and all but its connections and its clock is as before.
abbrev pub Ready : ℕ → Client → Client → Type 0
Ready node c d =
    (w : Wire) × (lookup node d.connections ≡ some w)
    × (d.gate ≡ c.gate)
    × (d.peers ≡ c.peers)
    × (d.opts ≡ c.opts)
    × (d.closed ≡ c.closed)

module _ (E : Env) (C : Crypto) where
  joined-Ready :
      (x : Ctx) (node : ℕ) (c : Client) (r : Result (Unit {0}) × Link)
      → (joined x node c r).0 ≡ ok tt
      → Ready node c (joined x node c r).1
  joined-Ready x node c (ok _, s) h =
      (s.wire, lookup-insert_self node s.wire c.connections, refl, refl, refl, refl)
  joined-Ready x node c (err e, s) h = cc

  connected-Ready :
      (x d : Ctx) (node : ℕ) (o : DialOutcome) (c : Client)
      → (connected E C x d node o c).0 ≡ ok tt
      → Ready node c (connected E C x d node o c).1
  connected-Ready x d node (dial_failed b) c h = cc
  connected-Ready x d node (dialed w) c h =
      joined-Ready x node c
        (handshake E C d c.opts (record { wire = w; now = c.now; attempted = false })) h

  ensured-Ready :
      (x : Ctx) (node : ℕ) (k : Option Wire) (c : Client)
      → lookup node c.connections ≡ k
      → (ensured E C x node k c).0 ≡ ok tt
      → Ready node c (ensured E C x node k c).1
  ensured-Ready x node (some w) c e h = (w, e, refl, refl, refl, refl)
  ensured-Ready x node none c e h = connected-Ready x _ node (E.dial node c.now) (tick c) h

  third_branch :
      (a b : Bool) (c : Client) (m : Result (Unit {0}) × Client)
      → (if a then (err (sentinel closed), c) else if b then (err (sentinel protocol), c) else m).0
        ≡ ok tt
      → (a ≡ false)
        × (b ≡ false)
        × ((if a then (err (sentinel closed), c) else if b then (err (sentinel protocol), c) else m)
            ≡ m)
  third_branch true b c m h = cc
  third_branch false true c m h = cc
  third_branch false false c m h = (refl, refl, refl)

  -- If ensure succeeds, the client was not closed, the peer exists, and the client has a connection to
  -- it; gate, peers, options and the closed flag are as before.
  pub ensure-Ready :
      (x : Ctx) (node : ℕ) (c : Client)
      → (ensure E C x node c).0 ≡ ok tt
      → (c.closed ≡ false) × (node < length c.peers) × Ready node c (ensure E C x node c).1
  unfolding ensure
  ensure-Ready x node c h =
      let m = ensured E C x node (lookup node c.connections) c in
      let (running, within, same) = third_branch c.closed (leb (length c.peers) node) c m h in
      let succeeded : m.0 ≡ ok tt = ap (λ (r : Result (Unit {0}) × Client). r.0) (sym same) ∙ h in
      let ready = ensured-Ready x node (lookup node c.connections) c refl succeeded in
      (
        running,
        ground arith,
        subst (λ (r : Result (Unit {0}) × Client). Ready node c r.1) (sym same) ready,
      )

  dialed_first_ok :
      (r : Result (Unit {0}) × Client) (c : Client)
      → returned E C (dialed_first E C r) ≡ ok c
      → (r.0 ≡ ok tt) × (r.1 ≡ c)
  dialed_first_ok (ok _, d) c h = (refl, cc)
  dialed_first_ok (err e, d) c h = cc

  -- The client that Dial returns holds its token, is not closed, has the peers it was given, of which
  -- there is at least one and which all pass the test of a peer, works with options within their
  -- bounds, and has a connection to the first peer.
  pub dial_ready :
      (trusted : Bytes → Bool) (x : Option Ctx) (peers : List Bytes) (o : Options) (c : Client)
      → dial_normalized E C trusted x peers o ≡ ok c
      → (c.gate ≡ true)
        × (c.closed ≡ false)
        × (c.peers ≡ peers)
        × (1 ≤ length peers)
        × (all_peers peers ≡ true)
        × IsNormal c.opts
        × ((w : Wire) × (lookup 0 c.connections ≡ some w))
  unfolding dial_normalized dial
  dial_ready trusted none peers o c h = cc
  dial_ready trusted (some x) peers o c h =
      let ((o', t), normal, dialled) = and_then-eq-ok (normalize trusted peers o) _ h in
      let (_, valid_peers, bounds) = normalize-IsNormal trusted peers o o' t normal in
      let (ready, same) = dialed_first_ok (ensure E C x 0 (fresh o')) c dialled in
      let (_, some_peer, (w, found, gate, same_peers, opts, running)) =
        ensure-Ready x 0 (fresh o') ready in
      rw (← same) (gate, running, same_peers, omega arith, valid_peers, rw opts bounds, (w, found))
    where
      fresh : Options → Client
      fresh o' = record {
        gate = true;
        peers = peers;
        opts = o';
        connections = [];
        closed = false;
        retired = [];
        now = 0;
      }
