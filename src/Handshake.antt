-- ===== src/Handshake.antt =====
-- wire.go: `derive` and `handshake`, the negotiation on a fresh connection.
pub mod Failing
pub mod Keys
use koutendb_go.Common.{
  ℕ, ◌+◌, Bool, true, false, ◌||◌, not, List, [], ◌∷◌, ◌++◌, Option, none, some, Bytes, codes,
  str_eq, length, get_or, ◌==◌, if◌then◌else◌,
}
use koutendb_go.Errors.{sentinel, connection, protocol, version}
use koutendb_go.Result.{Result, ok, err, M, ◌>>=◌, ◌>>◌, pure, lift, guard, continue}
use koutendb_go.Hex
use koutendb_go.Wire.{Crypto, encrypt, Wire, header, expect}
use koutendb_go.Options.{Options, Credentials, frame_limit}
use koutendb_go.Environment.{Ctx, Env}
use koutendb_go.Exchange.{Link, tick, exchange}

abbrev pub concat : List Bytes → Bytes
concat [] = []
concat (p ∷ ps) = p ++ concat ps

-- `derive`: the parts are written to the hash one after the other.
abbrev pub derive : Crypto → List Bytes → Bytes
derive C parts = C.sum256 (concat parts)

module _ (E : Env) (C : Crypto) (x : Ctx) (o : Options) where
  -- The local function `exchange` of `handshake`: a request without a body, and the fields of the reply.
  unfoldable pub ask : Bytes → M Link (List Bytes)
  ask h = exchange E C x o h [] (header C (frame_limit o))

  -- The local function `ack`.
  unfoldable pub ack : Bytes → Bytes → ℕ → Bool → M Link (List Bytes)
  ack h tag n auth = do p ← ask h; lift (expect p tag n auth); pure p

  -- The nonce for `encrypt`, outside a frame.
  abbrev pub draw_at : Option Bytes → M Link Bytes
  draw_at none s = (err (sentinel connection), tick s)
  draw_at (some nonce) s = (ok nonce, tick s)

  abbrev pub draw : M Link Bytes
  draw s = draw_at (E.nonce s.now) s

  abbrev pub set_key : Bytes → M Link (Unit {0})
  set_key key s = (ok tt, record s { wire = record (s.wire) { key = some key } })

  -- `hex.DecodeString(p[1])`, of 32 bytes.
  abbrev pub is_challenge : Option Bytes → Bool
  is_challenge none = false
  is_challenge (some challenge) = length challenge == 32

  -- The answer to a challenge, by which the server knows the secret key and the password.
  unfoldable pub respond : Credentials → Bytes → M Link (Unit {0})
  respond c challenge = do
    guard (is_challenge (Hex.decode challenge)) (sentinel protocol)
    let key = derive C ((codes "koutendb-auth-v1" ++ 0 ∷ codes "box" ++ 0 ∷ []) ∷ c.secret_key ∷ [])
    let msg =
        codes "koutendb-auth-v1\n" ++ (c.username ++ (b'\n' ∷ (c.password ++ (b'\n' ∷ challenge))))
    nonce ← draw
    ack (codes "AUTHRESP " ++ Hex.encode (encrypt C key nonce msg)) (codes "OK") 2 true
    set_key (
        derive C (
          (codes "koutendb-auth-v1" ++ 0 ∷ codes "transport" ++ 0 ∷ [])
          ∷ challenge
          ∷ (0 ∷ [])
          ∷ c.secret_key
          ∷ []))

  unfoldable pub challenge_response : Credentials → M Link (Unit {0})
  challenge_response c = do
    p ← ack (codes "AUTHCHAL " ++ c.username) (codes "CHAL") 2 true
    respond c (get_or p 1 [])

  unfoldable pub password : Credentials → M Link (Unit {0})
  password c = do
    ack (codes "AUTH " ++ (c.username ++ (b' ' ∷ c.password))) (codes "OK") 2 true
    pure tt

  -- `if c.Username != "" { if c.SecretKey == "" { … } else { … } }`, by the user name and the secret.
  abbrev pub authenticate : Bytes → Bytes → Credentials → M Link (Unit {0})
  authenticate [] _ c = pure tt
  authenticate (u ∷ name) [] c = password c
  authenticate (u ∷ name) (k ∷ secret) c = challenge_response c

  -- `if o.Galaxy != "" { … }`
  abbrev pub select_galaxy : Bytes → M Link (Unit {0})
  select_galaxy [] s = (ok tt, s)
  select_galaxy (g ∷ galaxy) s =
      (ack (codes "HELLO " ++ g ∷ galaxy) (codes "OK") 2 true >> pure tt) s

  unfoldable pub negotiate : M Link (Unit {0})
  negotiate = do
    p ← ack (codes "WIREVER") (codes "WIREVER") 2 true
    guard (str_eq (get_or p 1 []) (codes "1")) (sentinel version)
    q ← ack (codes "CODECMETA ON") (codes "OK") 2 false
    guard (str_eq (get_or q 1 []) (codes "codec-metadata")) (sentinel protocol)

  -- `(*wire).handshake`
  unfoldable pub handshake : M Link (Unit {0})
  handshake = do
    authenticate o.credentials.username o.credentials.secret_key o.credentials
    select_galaxy o.galaxy
    negotiate
