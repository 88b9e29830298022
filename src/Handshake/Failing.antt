-- ===== src/Handshake/Failing.antt =====
-- wire.go: the errors of `handshake`.
use koutendb_go.Common.{
  ℕ, Bool, true, false, ◌≡◌, refl, inl, inr, List, [], ◌∷◌, Option, none, some, Bytes, codes,
  str_eq, get_or, arith,
}
use koutendb_go.Errors.{Failure, Kind, sentinel, connection, protocol, version, is_error}
use koutendb_go.Result.{err, lift, guard}
use koutendb_go.Result.Rules.{Fails, Fails-bind}
use koutendb_go.Hex
use koutendb_go.Wire.{Crypto, header, expect}
use koutendb_go.Wire.Safety.{IsReadError}
use koutendb_go.Wire.Failing.{header-Fails}
use koutendb_go.Options.{Options, Credentials, frame_limit}
use koutendb_go.Environment.{Ctx, Env}
use koutendb_go.Exchange.{Link}
use koutendb_go.Exchange.Failing.{IsDriverError, IsFinite, exchange-Fails}
use koutendb_go.Handshake.{
  ask, ack, draw_at, draw, is_challenge, respond, challenge_response, password, authenticate,
  select_galaxy, negotiate, handshake,
}

pub read-IsFinite : (e : Failure) → IsReadError e → IsFinite e
read-IsFinite e (inl p) q = cc
read-IsFinite e (inr (inl p)) q = cc
read-IsFinite e (inr (inr (b, p))) q = cc

pub sentinel-driver : (k : Kind) (e : Failure) → sentinel k ≡ e → IsDriverError e
unfolding is_error
sentinel-driver k e same = inl (rw (← same) refl)

guard-Fails : (b : Bool) (k : Kind) → Fails {S = Link} IsDriverError (guard b (sentinel k))
guard-Fails true k s e h = cc
guard-Fails false k s e h = sentinel-driver k e (cc)

expect-Fails :
    (p : List Bytes) (tag : Bytes) (n : ℕ) (auth : Bool) (e : Failure)
    → expect p tag n auth ≡ err e
    → IsDriverError e
unfolding expect is_error
expect-Fails [] tag n auth e h = inl (ground arith)
expect-Fails (c ∷ p) tag n auth e h = inl (ground arith)

module _ (E : Env) (C : Crypto) (x : Ctx) (o : Options) where
  ask-Fails : (h : Bytes) → Fails IsDriverError (ask E C x o h)
  unfolding ask
  ask-Fails h =
      exchange-Fails E C x o (header C (frame_limit o)) h []
        λ w e f. read-IsFinite e (header-Fails C (frame_limit o) w e f)

  ack-Fails : (h tag : Bytes) (n : ℕ) (auth : Bool) → Fails IsDriverError (ack E C x o h tag n auth)
  unfolding ack
  ack-Fails h tag n auth = Fails-bind IsDriverError (ask E C x o h) _ (ask-Fails h) λ p.
      Fails-bind IsDriverError (lift (expect p tag n auth)) _
        (λ s e f. expect-Fails p tag n auth e f) λ _ s e f. cc

  draw_at-Fails : (nonce : Option Bytes) → Fails IsDriverError (draw_at E C x o nonce)
  draw_at-Fails none s e h = sentinel-driver connection e (cc)
  draw_at-Fails (some nonce) s e h = cc

  respond-Fails :
      (c : Credentials) (challenge : Bytes) → Fails IsDriverError (respond E C x o c challenge)
  unfolding respond
  respond-Fails c challenge =
      Fails-bind D (guard (is_challenge E C x o (Hex.decode challenge)) (sentinel protocol)) _
        (guard-Fails (is_challenge E C x o (Hex.decode challenge)) protocol)
        λ _.
          Fails-bind D (draw E C x o) _ (λ s. draw_at-Fails (E.nonce s.now) s)
            λ nonce.
              Fails-bind D (ack E C x o _ (codes "OK") 2 true) _ (ack-Fails _ (codes "OK") 2 true)
                λ _ s e h. cc
    where
      D : Failure → Type 0
      D = IsDriverError

  authenticate-Fails :
      (name secret : Bytes) (c : Credentials)
      → Fails IsDriverError (authenticate E C x o name secret c)
  unfolding challenge_response password
  authenticate-Fails [] secret c = λ s e h. cc
  authenticate-Fails (u ∷ name) [] c =
      Fails-bind IsDriverError (ack E C x o _ (codes "OK") 2 true) _
        (ack-Fails _ (codes "OK") 2 true) λ _ s e h. cc
  authenticate-Fails (u ∷ name) (k ∷ secret) c =
      Fails-bind IsDriverError (ack E C x o _ (codes "CHAL") 2 true) _
        (ack-Fails _ (codes "CHAL") 2 true) λ p. respond-Fails c (get_or p 1 [])

  select_galaxy-Fails : (galaxy : Bytes) → Fails IsDriverError (select_galaxy E C x o galaxy)
  select_galaxy-Fails [] = λ s e h. cc
  select_galaxy-Fails (g ∷ galaxy) =
      Fails-bind IsDriverError (ack E C x o _ (codes "OK") 2 true) _
        (ack-Fails _ (codes "OK") 2 true) λ _ s e h. cc

  negotiate-Fails : Fails IsDriverError (negotiate E C x o)
  unfolding negotiate
  negotiate-Fails =
      Fails-bind D (ack E C x o (codes "WIREVER") (codes "WIREVER") 2 true) _
        (ack-Fails (codes "WIREVER") (codes "WIREVER") 2 true)
        λ p.
          Fails-bind D (guard (str_eq (get_or p 1 []) (codes "1")) (sentinel version)) _
            (guard-Fails (str_eq (get_or p 1 []) (codes "1")) version)
            λ _.
              Fails-bind D (ack E C x o (codes "CODECMETA ON") (codes "OK") 2 false) _
                (ack-Fails (codes "CODECMETA ON") (codes "OK") 2 false)
                λ q. guard-Fails (str_eq (get_or q 1 []) (codes "codec-metadata")) protocol
    where
      D : Failure → Type 0
      D = IsDriverError

  -- A handshake that fails ends in an *Error or an error of the context, whatever the peer sends; none
  -- of its loops runs out of fuel.
  pub handshake-Fails : (s : Link) (e : Failure) → (handshake E C x o s).0 ≡ err e → IsDriverError e
  unfolding handshake
  handshake-Fails =
      Fails-bind IsDriverError
        (authenticate E C x o o.credentials.username o.credentials.secret_key o.credentials) _
        (authenticate-Fails o.credentials.username o.credentials.secret_key o.credentials)
        λ _.
          Fails-bind IsDriverError (select_galaxy E C x o o.galaxy) _ (select_galaxy-Fails o.galaxy)
            λ _. negotiate-Fails
