-- ===== src/Client/Steady.antt =====
-- client.go: a client's peers, its options and its closed flag.
use koutendb_go.Common.{◌≡◌, refl, ◌∙◌}
use koutendb_go.Client.{Client, drop}
use koutendb_go.Client.Stable.{IsStable}

pub record Steady (c d : Client) : Type 0 where
  pub same_peers : d.peers ≡ c.peers
  pub same_opts : d.opts ≡ c.opts
  pub same_closed : d.closed ≡ c.closed

pub Steady-IsStable : IsStable Steady
unfolding drop
Steady-IsStable = record {
  same = λ c. record { same_peers = refl; same_opts = refl; same_closed = refl };
  chain = λ a b c p q. record {
    same_peers = q.same_peers ∙ p.same_peers;
    same_opts = q.same_opts ∙ p.same_opts;
    same_closed = q.same_closed ∙ p.same_closed;
  };
  reset = λ c g n. record { same_peers = refl; same_opts = refl; same_closed = refl };
  stored = λ c node w n. record { same_peers = refl; same_opts = refl; same_closed = refl };
  failed = λ c w n. record { same_peers = refl; same_opts = refl; same_closed = refl };
  dropped = λ c. record { same_peers = refl; same_opts = refl; same_closed = refl };
}
