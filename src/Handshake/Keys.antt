-- ===== src/Handshake/Keys.antt =====
-- wire.go: the transport key that `handshake` leaves on the connection.
use koutendb_go.Common.{
  ℕ, Bool, true, false, List, Option, none, length, sym, ap, inl, inr, Bool-cases, arith, ◌≡◌, ◌≢◌,
  refl, ◌∙◌, [], ◌∷◌, ◌++◌, some, Bytes, codes, str_eq, get_or,
}
use koutendb_go.Errors.{Failure, sentinel, protocol, version}
use koutendb_go.Result.{Result, ok, M, ◌>>◌, lift, guard}
use koutendb_go.Result.Rules.{Keeps, Keeps-bind, Ends, Ends-last, >>=-eq-ok}
use koutendb_go.Hex
use koutendb_go.Wire.{Crypto, header, expect}
use koutendb_go.Wire.Safety.{header-Keeps}
use koutendb_go.Options.{Options, Credentials, frame_limit}
use koutendb_go.Environment.{Ctx, Env}
use koutendb_go.Exchange.{Link}
use koutendb_go.Exchange.Keys.{SameKey, SameKey-trans, exchange-SameKey}
use koutendb_go.Handshake.{
  derive, ask, ack, draw, is_challenge, respond, challenge_response, authenticate, select_galaxy,
  negotiate, handshake,
}

guard-SameKey : (b : Bool) (e : Failure) → Keeps SameKey (guard b e)
guard-SameKey true e s = refl
guard-SameKey false e s = refl

-- The key of the connection for a challenge.
abbrev pub transport_key : Crypto → Bytes → Bytes → Bytes
transport_key C secret challenge = derive C (
    (codes "koutendb-auth-v1" ++ 0 ∷ codes "transport" ++ 0 ∷ [])
    ∷ challenge
    ∷ (0 ∷ [])
    ∷ secret
    ∷ [])

module _ (E : Env) (C : Crypto) (x : Ctx) (o : Options) where
  ask-SameKey : (h : Bytes) → Keeps SameKey (ask E C x o h)
  unfolding ask
  ask-SameKey h =
      exchange-SameKey E C x o h [] (header C (frame_limit o))
        λ w. (header-Keeps (frame_limit o) C w).same_key

  ack-SameKey : (h tag : Bytes) (n : ℕ) (auth : Bool) → Keeps SameKey (ack E C x o h tag n auth)
  unfolding ack
  ack-SameKey h tag n auth =
      Keeps-bind SameKey SameKey-trans (ask E C x o h) _ (ask-SameKey h)
        λ p. Keeps-bind SameKey SameKey-trans (lift (expect p tag n auth)) _ (λ s. refl) λ _ s. refl

  select_galaxy-SameKey : (galaxy : Bytes) → Keeps SameKey (select_galaxy E C x o galaxy)
  select_galaxy-SameKey [] = λ s. refl
  select_galaxy-SameKey (g ∷ galaxy) =
      Keeps-bind SameKey SameKey-trans (ack E C x o _ (codes "OK") 2 true) _
        (ack-SameKey _ (codes "OK") 2 true) λ _ s. refl

  negotiate-SameKey : Keeps SameKey (negotiate E C x o)
  unfolding negotiate
  negotiate-SameKey =
      Keeps-bind SameKey SameKey-trans (ack E C x o (codes "WIREVER") (codes "WIREVER") 2 true) _
        (ack-SameKey (codes "WIREVER") (codes "WIREVER") 2 true)
        λ p.
          Keeps-bind SameKey SameKey-trans
            (guard (str_eq (get_or p 1 []) (codes "1")) (sentinel version)) _
            (guard-SameKey (str_eq (get_or p 1 []) (codes "1")) (sentinel version))
            λ _.
              Keeps-bind SameKey SameKey-trans
                (ack E C x o (codes "CODECMETA ON") (codes "OK") 2 false) _
                (ack-SameKey (codes "CODECMETA ON") (codes "OK") 2 false)
                λ q.
                  guard-SameKey (str_eq (get_or q 1 []) (codes "codec-metadata"))
                    (sentinel protocol)

  after_authentication-SameKey : Keeps SameKey (select_galaxy E C x o o.galaxy >> negotiate E C x o)
  after_authentication-SameKey =
      Keeps-bind SameKey SameKey-trans (select_galaxy E C x o o.galaxy) _
        (select_galaxy-SameKey o.galaxy) λ _. negotiate-SameKey

  -- The text is that of 32 bytes.
  abbrev pub IsChallenge : Bytes → Type 0
  IsChallenge text =
      (challenge : Bytes) × (Hex.decode text ≡ some challenge) × (length challenge ≡ 32)

  is_challenge-IsChallenge :
      (text : Bytes) → is_challenge E C x o (Hex.decode text) ≡ true → IsChallenge text
  is_challenge-IsChallenge text = go (Hex.decode text)
    where
      go :
          (d : Option Bytes)
          → is_challenge E C x o d ≡ true
          → (challenge : Bytes) × (d ≡ some challenge) × (length challenge ≡ 32)
      go none h = cc
      go (some b) h = (b, refl, ground arith)

  -- The key that a challenge gives is the connection's.
  abbrev Keyed : Bytes → Bytes → Link → Type 0
  Keyed secret text s = s.wire.key ≡ some (transport_key C secret text)

  respond-Keyed :
      (c : Credentials) (text : Bytes) → Ends (Keyed c.secret_key text) (respond E C x o c text)
  unfolding respond
  respond-Keyed c text =
      Ends-last Q (guard (is_challenge E C x o (Hex.decode text)) (sentinel protocol)) _ λ _.
        Ends-last Q (draw E C x o) _
          λ nonce. Ends-last Q (ack E C x o _ (codes "OK") 2 true) _ λ _ s _ h. refl
    where
      Q : Link → Type 0
      Q = Keyed c.secret_key text

  respond-IsChallenge :
      (c : Credentials) (text : Bytes) (s : Link)
      → (respond E C x o c text s).0 ≡ ok tt
      → IsChallenge text
  unfolding respond
  respond-IsChallenge c text s h = elim (Bool-cases (is_challenge E C x o (Hex.decode text))) [
    | inl good ↦ is_challenge-IsChallenge text good
    | inr bad ↦ cc (rw bad at h)
  ]

  -- The peer's reply to the request for a challenge has a text of 32 bytes, which gives the key.
  abbrev Answered : Credentials → Link → Link → Type 0
  Answered c s t =
      (p : List Bytes) × ((ack E C x o (codes "AUTHCHAL " ++ c.username) (codes "CHAL") 2 true s).0
        ≡ ok p)
      × IsChallenge (get_or p 1 [])
      × Keyed c.secret_key (get_or p 1 []) t

  challenge_response-Answered :
      (c : Credentials) (s : Link)
      → (challenge_response E C x o c s).0 ≡ ok tt
      → Answered c s (challenge_response E C x o c s).1
  unfolding challenge_response
  challenge_response-Answered c s h =
      let (p, got, same) =
        >>=-eq-ok (ack E C x o (codes "AUTHCHAL " ++ c.username) (codes "CHAL") 2 true)
          (λ p. respond E C x o c (get_or p 1 [])) s h in
      let t = (ack E C x o (codes "AUTHCHAL " ++ c.username) (codes "CHAL") 2 true s).1 in
      let done : (respond E C x o c (get_or p 1 []) t).0 ≡ ok tt =
        ap (λ (r : Result (Unit {0}) × Link). r.0) (sym same) ∙ h in
      (
        p,
        got,
        respond-IsChallenge c (get_or p 1 []) t done,
        ap (λ (r : Result (Unit {0}) × Link). r.1.wire.key) same
            ∙ respond-Keyed c (get_or p 1 []) t tt done,
      )

  authenticate-Answered :
      (name secret : Bytes) (c : Credentials) (s : Link)
      → name ≢ []
      → secret ≢ []
      → (authenticate E C x o name secret c s).0 ≡ ok tt
      → Answered c s (authenticate E C x o name secret c s).1
  authenticate-Answered [] secret c s named secured h = absurd (named refl)
  authenticate-Answered (u ∷ name) [] c s named secured h = absurd (secured refl)
  authenticate-Answered (u ∷ name) (k ∷ secret) c s named secured h =
      challenge_response-Answered c s h

  -- With a user name and a secret key that are not empty, a handshake that succeeds has had from the
  -- peer a reply to AUTHCHAL with that user name, whose second field is hexadecimal for 32 bytes, and
  -- leaves on the connection the transport key derived from the text of that field and the secret.
  pub handshake_keyed :
      (s : Link)
      → o.credentials.username ≢ []
      → o.credentials.secret_key ≢ []
      → (handshake E C x o s).0 ≡ ok tt
      → (p : List Bytes) × ((ack E C x o
            (codes "AUTHCHAL " ++ o.credentials.username)
            (codes "CHAL")
            2
            true
            s).0
          ≡ ok p)
        × IsChallenge (get_or p 1 [])
        × ((handshake E C x o s).1.wire.key
            ≡ some (transport_key C o.credentials.secret_key (get_or p 1 [])))
  unfolding handshake
  handshake_keyed s named secured h =
      let (u, granted, same) =
        >>=-eq-ok (authenticate E C x o c.username c.secret_key c) (λ _. rest) s h in
      let (p, asked, whole, keyed) =
        authenticate-Answered c.username c.secret_key c s named secured granted in
      (
        p,
        asked,
        whole,
        ap (λ (r : Result (Unit {0}) × Link). r.1.wire.key) same
            ∙ after_authentication-SameKey (authenticate E C x o c.username c.secret_key c s).1
            ∙ keyed,
      )
    where
      c : Credentials
      c = o.credentials

      rest : M Link (Unit {0})
      rest = select_galaxy E C x o o.galaxy >> negotiate E C x o
