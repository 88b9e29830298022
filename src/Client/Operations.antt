-- ===== src/Client/Operations.antt =====
-- client.go: the operations, for any relation between clients that their steps keep.
use koutendb_go.Common.{◌+◌, ℕ, zero, suc, ◌||◌, not, Option, none, some, Bytes, length, leb}
use koutendb_go.Result.{Result, ok, err, M}
use koutendb_go.Result.Rules.{Keeps, Keeps-bind}
use koutendb_go.Floats.{Floats}
use koutendb_go.Identity.{RecordId, valid}
use koutendb_go.Codec.{Codec, Payload}
use koutendb_go.Wire.{Crypto, Wire}
use koutendb_go.Environment.{Ctx, Env, DialOutcome, dialed, dial_failed}
use koutendb_go.Exchange.{Link}
use koutendb_go.Client.{Client, lookup, tick, joined, connected, ensured, ensure}
use koutendb_go.Client.Request.{request}
use koutendb_go.Client.Put.{put_locked, put_codec, is_storable, put_request}
use koutendb_go.Client.Read.{
  Reply, answered, forwarded, attempts, health_op, health, read_operation,
}
use koutendb_go.Client.Redirect.{within_limit, hop, next_hop, follow, lookup_op, read}
use koutendb_go.Client.Stable.{
  IsStable, if-Keeps, tick-Keeps, with_lock-Keeps, request-Keeps, put_settled-Keeps, attempts-Keeps,
}

module _ (R : Client → Client → Type 0) (S : IsStable R) (E : Env) (C : Crypto) where
  joined-Keeps :
      (x : Ctx) (node : ℕ) (c : Client) (r : Result (Unit {0}) × Link) → R c (joined x node c r).1
  joined-Keeps x node c (ok _, s) = S.stored c node s.wire s.now
  joined-Keeps x node c (err e, s) = S.failed c s.wire (s.now + 1)

  connected-Keeps :
      (x dialctx : Ctx) (node : ℕ) (o : DialOutcome) (c : Client)
      → R c (connected E C x dialctx node o c).1
  connected-Keeps x dialctx node (dial_failed b) c = tick-Keeps R S c
  connected-Keeps x dialctx node (dialed w) c = joined-Keeps x node c _

  ensure-Keeps : (x : Ctx) (node : ℕ) → Keeps R (ensure E C x node)
  unfolding ensure
  ensure-Keeps x node c =
      if-Keeps R S c.closed c _ _ (S.same c)
        (if-Keeps R S (leb (length c.peers) node) c _ _ (S.same c) (go (lookup node c.connections)))
    where
      go : (o : Option Wire) → R c (ensured E C x node o c).1
      go (some w) = S.same c
      go none =
          S.chain c (tick c) _ (tick-Keeps R S c)
            (connected-Keeps x _ node (E.dial node c.now) (tick c))

  module _ (F : Floats) where
    put_locked-Keeps :
        (ring content : Bytes) (codec : Codec) (x : Ctx)
        → Keeps R (put_locked F E C ring content codec x)
    put_locked-Keeps ring content codec x =
        Keeps-bind R S.chain (ensure E C x 0) _ (ensure-Keeps x 0) λ _ c.
          put_settled-Keeps R S c (request 0 (put_request F E C x c.opts ring content codec) c)
            (request-Keeps R S 0 (put_request F E C x c.opts ring content codec) c)

    pub health_op-Keeps : (x : Ctx) → Keeps R (health_op F E C x)
    unfolding health_op
    health_op-Keeps x =
        Keeps-bind R S.chain (ensure E C x 0) _ (ensure-Keeps x 0) λ _ c. request-Keeps R S 0 _ c

    hop-Keeps :
        (x : Ctx) (s : Option Bytes) (left node : ℕ) (id : RecordId F)
        → Keeps R (hop F E C x s left node id)
    unfolding hop
    hop-Keeps x s left node id =
        Keeps-bind R S.chain (ensure E C x node) _ (ensure-Keeps x node)
          λ _ c. request-Keeps R S node _ c

    next_hop-Keeps :
        (again : ℕ → RecordId F → M Client (Option Payload)) (r : Reply F)
        → ((node : ℕ) (id : RecordId F) → Keeps R (again node id))
        → Keeps R (next_hop F E C again r)
    next_hop-Keeps again (answered p) keeps c = S.same c
    next_hop-Keeps again (forwarded id node) keeps c = keeps node id c

    follow-Keeps :
        (x : Ctx) (s : Option Bytes) (left node : ℕ) (id : RecordId F)
        → Keeps R (follow F E C x s left node id)
    unfolding follow
    follow-Keeps x s zero node id =
        Keeps-bind R S.chain (hop F E C x s 0 node id) _ (hop-Keeps x s 0 node id)
          λ r. next_hop-Keeps _ r (λ _ _ c. S.same c)
    follow-Keeps x s (suc left) node id =
        Keeps-bind R S.chain (hop F E C x s (suc left) node id) _ (hop-Keeps x s (suc left) node id)
          λ r. next_hop-Keeps _ r (follow-Keeps x s left)

    pub lookup_op-Keeps :
        (s : Option Bytes) (id : RecordId F) (x : Ctx) → Keeps R (lookup_op F E C s id x)
    lookup_op-Keeps s id x c = follow-Keeps x s _ 0 id c

    -- PutCodec, Health and read keep the relation.
    pub operations-Keeps :
        (x : Option Ctx) (ring content : Bytes) (codec : Codec) (id : RecordId F) (s : Option Bytes)
        (c : Client)
        → R c (put_codec F E C x ring content codec c).1
          × R c (health F E C x c).1
          × R c (read F E C x id s c).1
    unfolding put_codec health read read_operation
    operations-Keeps x ring content codec id s c = (
      if-Keeps R S (not (is_storable c.opts ring content codec)) c _ _ (S.same c) (
          with_lock-Keeps R S E x (put_locked F E C ring content codec)
            (put_locked-Keeps ring content codec) c),
      with_lock-Keeps R S E x (λ x'. attempts x' (health_op F E C x'))
          (λ x'. attempts-Keeps R S x' (health_op F E C x') (health_op-Keeps x')) c,
      if-Keeps R S (not (valid F id) || not (within_limit c.opts s)) c _ _ (S.same c) (
          with_lock-Keeps R S E x (λ x'. attempts x' (lookup_op F E C s id x'))
            (λ x'. attempts-Keeps R S x' (lookup_op F E C s id x') (lookup_op-Keeps s id x')) c),
    )
