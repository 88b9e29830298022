-- ===== src/Client/Payloads.antt =====
-- client.go: what `read` hands out.
use koutendb_go.Common.{
  ℕ, zero, suc, ◌≤◌, ◌≡◌, refl, sym, ap, ◌∙◌, true, Option, none, some, Bytes, length,
}
use mathlib.Core.Path.{subst}
use koutendb_go.Result.{Result, ok, err, M, ◌>>=◌}
use koutendb_go.Result.Rules.{>>=-eq-ok}
use koutendb_go.Floats.{Floats}
use koutendb_go.Identity.{RecordId}
use koutendb_go.Codec
use koutendb_go.Codec.{Payload}
use koutendb_go.Wire.{Crypto, Wire}
use koutendb_go.Options.{Options, frame_limit}
use koutendb_go.Environment.{Ctx, Env}
use koutendb_go.Exchange.{Link, exchange}
use koutendb_go.Exchange.Outcome.{exchange_reply}
use koutendb_go.Client.{Client, lookup, ensure}
use koutendb_go.Client.Request.{request, request_on, store, link_of}
use koutendb_go.Client.Read.{Reply, answered, forwarded, unflagged, last_peer}
use koutendb_go.Client.Redirect.{read_header, read_body, read_reply, hop, next_hop, follow}
use koutendb_go.Client.Ready.{ensure-Ready}
use koutendb_go.Client.Replies.{IsServed, IsServedReply, read_reply_served}

module _ (F : Floats) (E : Env) (C : Crypto) (x : Ctx) (selection : Option Bytes) where
  -- A result under the client's options, which stay as they are.
  abbrev Served : Options → Result (Reply F) × Client → Type 0
  Served o (ok r, d) = IsServedReply {F = F} o r × (d.opts ≡ o)
  Served o (err e, d) = Unit

  request-Served :
      (left node : ℕ) (id : RecordId F) (c : Client) (k : Option Wire)
      → Served c.opts (
          unflagged (
            request_on node
              (exchange E C x c.opts
                (read_header F E C id selection)
                (read_body F E C selection)
                (read_reply F E C c.opts (last_peer F E C c) left node))
              k
              c))
  request-Served left node id c none = tt
  request-Served left node id c (some w) = go (m (link_of node w c)) (λ r h.
      exchange_reply E C x c.opts (read_header F E C id selection) (read_body F E C selection) reply
        (link_of node w c) r h)
    where
      reply : M Wire (Reply F)
      reply = read_reply F E C c.opts (last_peer F E C c) left node

      m : M Link (Reply F)
      m = exchange E C x c.opts (read_header F E C id selection) (read_body F E C selection) reply

      go :
          (a : Result (Reply F) × Link)
          → ((r : Reply F) → a.0 ≡ ok r → (u : Wire) × ((reply u).0 ≡ ok r))
          → Served c.opts (unflagged (store node c a))
      go (ok r, s) replied =
          let (u, h) = replied r refl in
          (read_reply_served F E C c.opts (last_peer F E C c) left node u tt r h, refl)
      go (err e, s) replied = tt

  Served-ok :
      (o : Options) (a : Result (Reply F) × Client) (r : Reply F)
      → Served o a
      → a.0 ≡ ok r
      → IsServedReply {F = F} o r × (a.1.opts ≡ o)
  Served-ok o (ok q, d) r (served, kept) h =
      let same : q ≡ r = cc in (subst (λ q. IsServedReply {F = F} o q) same served, kept)
  Served-ok o (err e, d) r served h = cc

  hop_served :
      (left node : ℕ) (id : RecordId F) (c : Client) (r : Reply F)
      → (hop F E C x selection left node id c).0 ≡ ok r
      → IsServedReply {F = F} c.opts r × ((hop F E C x selection left node id c).1.opts ≡ c.opts)
  unfolding hop request
  hop_served left node id c r h =
      let d = (ensure E C x node c).1 in
      let (_, dialled, same) = >>=-eq-ok (ensure E C x node) (λ _. rest) c h in
      let (_, _, (_, _, _, _, opts, _)) = ensure-Ready E C x node c dialled in
      let (served, kept) =
        Served-ok d.opts (rest d) r (request-Served left node id d (lookup node d.connections))
          (ap (λ (a : Result (Reply F) × Client). a.0) (sym same) ∙ h) in
      (
        subst (λ o. IsServedReply {F = F} o r) opts served,
        ap (λ (a : Result (Reply F) × Client). a.1.opts) same ∙ kept ∙ opts,
      )
    where
      rest : M Client (Reply F)
      rest d = unflagged (
          request node
            (exchange E C x d.opts (read_header F E C id selection) (read_body F E C selection)
              (read_reply F E C d.opts (last_peer F E C d) left node))
            d)

  after_hop :
      (left node : ℕ) (id : RecordId F) (c : Client)
      (again : ℕ → RecordId F → M Client (Option Payload)) (p : Payload)
      → ((peer : ℕ) (next : RecordId F) (d : Client)
          → (again peer next d).0 ≡ ok (some p)
          → IsServed d.opts (some p))
      → ((hop F E C x selection left node id >>= next_hop F E C again) c).0 ≡ ok (some p)
      → IsServed c.opts (some p)
  after_hop left node id c again p ih h =
      let (r, answer, same) =
        >>=-eq-ok (hop F E C x selection left node id) (next_hop F E C again) c h in
      let (served, opts) = hop_served left node id c r answer in
      let last = ap (λ (a : Result (Option Payload) × Client). a.0) (sym same) ∙ h in
      subst (λ o. IsServed o (some p)) opts
        (go (hop F E C x selection left node id c).1 r
          (subst (λ o. IsServedReply {F = F} o r) (sym opts) served) last)
    where
      go :
          (d : Client) (r : Reply F)
          → IsServedReply {F = F} d.opts r
          → (next_hop F E C again r d).0 ≡ ok (some p)
          → IsServed d.opts (some p)
      go d (answered none) served e = cc
      go d (answered (some q)) served e =
          let same : q ≡ p = cc in subst (λ q. IsServed d.opts (some q)) same served
      go d (forwarded next peer) served e = ih peer next d e

  -- A payload that the loop over the hops hands out, behind any number of redirects, has one of the
  -- four codecs and is not longer than the frame limit.
  pub follow_served :
      (left node : ℕ) (id : RecordId F) (c : Client) (p : Payload)
      → (follow F E C x selection left node id c).0 ≡ ok (some p)
      → (Codec.valid p.codec ≡ true) × (length p.content ≤ frame_limit c.opts)
  unfolding follow
  follow_served zero node id c p h = after_hop zero node id c _ p (λ peer next d e. cc) h
  follow_served (suc left) node id c p h =
      after_hop (suc left) node id c (follow F E C x selection left) p
        (λ peer next d e. follow_served left peer next d p e) h
