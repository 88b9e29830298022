-- ===== src/Tests/Requests.antt =====
-- Exchanges, the handshake and the rounds of a read.
use koutendb_go.Common.{
  ◌≡◌, refl, ◌⊎◌, true, false, List, [], ◌∷◌, ◌++◌, none, some, Bytes, codes, str_eq, replicate,
  get_or,
}
use koutendb_go.Errors.{
  Failure, sentinel, connection, server, is_kind, io_error, is_error, is_timeout, matches,
}
use koutendb_go.Result.{ok, err, M}
use koutendb_go.Strings.{contains_any, split}
use koutendb_go.Decimal.{decimal}
use koutendb_go.Uint.{uint_field, bounded}
use koutendb_go.Wire.{
  bytes, fill, fill_to, frame_length, accept, Wire, encrypt, sealed, raw_bytes, header, line,
  line_loop, read_byte, expect, fields_of, strip_cr,
}
use koutendb_go.Wire.Safety.{header-Keeps}
use koutendb_go.Wire.Failing.{header-Fails}
use koutendb_go.Options.{Options}
use koutendb_go.Exchange.{
  Link, exchange, prepare, transmit, check, send, frame_of, arm, receive, write_some,
}
use koutendb_go.Exchange.Sent.{Progress}
use koutendb_go.Exchange.Outcome.{exchange_sent, exchange_whole}
use koutendb_go.Exchange.Quiet.{Silent, Encodes}
use koutendb_go.Exchange.Failing.{IsDriverError, exchange-Fails}
use koutendb_go.Hex
use koutendb_go.Handshake.{ask, ack, respond, challenge_response, negotiate, handshake}
use koutendb_go.Handshake.Failing.{read-IsFinite, handshake-Fails}
use koutendb_go.Handshake.Keys.{IsChallenge, transport_key, handshake_keyed}
use koutendb_go.Client.{Client, drop as drop_all, tick as next}
use koutendb_go.Client.Read.{is_retryable, attempts}
use koutendb_go.Client.Retry.{attempts_ok, EndsAfterOne, EndsAfterTwo, attempts_rounds}
use koutendb_go.Tests.Doubles.{crypto, env, context, options, plain_wire, sealed_wire}

abbrev link : Wire → Link
link w = record { wire = w; now = 0; attempted = false }

abbrev reply : M Wire (List Bytes)
reply = header crypto 64

exchange_sent_example :
    let s = link (sealed_wire (codes "OK 1" ++ b'\n' ∷ [])) in
    let u = (exchange env crypto context options (codes "HEALTH") [] reply s).1 in
    Silent s u
    ⊎ ((frame : Bytes) × Encodes crypto s.wire.key (codes "HEALTH" ++ b'\n' ∷ []) frame
        × Progress frame s u)
exchange_sent_example =
    exchange_sent env crypto context options reply (λ w. (header-Keeps 64 crypto w).same_outbox)
      (codes "HEALTH") [] (link (sealed_wire (codes "OK 1" ++ b'\n' ∷ [])))

abbrev asked : Link
asked = link (plain_wire (codes "OK" ++ b'\n' ∷ []))

answers :
    (exchange env crypto context options (codes "HEALTH") [] reply asked).0 ≡ ok (codes "OK" ∷ [])
unfolding exchange prepare transmit check send frame_of arm receive write_some header line line_loop
    read_byte contains_any fields_of strip_cr split
answers = refl

exchange_whole_example :
    (frame : Bytes) × Encodes crypto none (codes "HEALTH" ++ b'\n' ∷ []) frame
    × ((exchange env crypto context options (codes "HEALTH") [] reply asked).1.wire.outbox
        ≡ [] ++ frame)
exchange_whole_example =
    exchange_whole env crypto context options reply (λ w. (header-Keeps 64 crypto w).same_outbox)
      (codes "HEALTH") [] asked (codes "OK" ∷ []) answers

-- The peer closes the connection instead of a reply.
unanswered :
    (exchange env crypto context options (codes "HEALTH") [] reply (link (plain_wire []))).0
    ≡ err (sentinel connection)
unfolding exchange prepare transmit check send frame_of arm receive write_some header line line_loop
    read_byte contains_any io_error is_error is_timeout
unanswered = refl

exchange-Fails_example : IsDriverError (sentinel connection)
exchange-Fails_example =
    exchange-Fails env crypto context options reply (codes "HEALTH") []
      (λ w e h. read-IsFinite e (header-Fails crypto 64 w e h)) (link (plain_wire []))
      (sentinel connection) unanswered

no_negotiation :
    (handshake env crypto context options (link (plain_wire []))).0 ≡ err (sentinel connection)
unfolding handshake negotiate ack ask exchange prepare transmit check send frame_of arm receive
    write_some header line line_loop read_byte contains_any io_error is_error is_timeout
no_negotiation = refl

handshake-Fails_example : IsDriverError (sentinel connection)
handshake-Fails_example =
    handshake-Fails env crypto context options (link (plain_wire [])) (sentinel connection)
      no_negotiation

abbrev secured : Options
secured = record options {
  credentials = record {
    username = codes "u";
    password = codes "p";
    auth_token = [];
    secret_key = codes "k";
  };
}

abbrev challenge : Bytes
challenge = replicate 64 b'a'

-- The peer's side of a handshake: two plain lines, then sealed frames.
abbrev welcome : Bytes
welcome =
    (codes "CHAL " ++ challenge ++ b'\n' ∷ codes "OK u" ++ b'\n' ∷ [])
    ++ sealed (encrypt crypto [] (replicate 24 7) (codes "WIREVER 1" ++ b'\n' ∷ []))
    ++ sealed (encrypt crypto [] (replicate 24 7) (codes "OK codec-metadata" ++ b'\n' ∷ []))

negotiated : (handshake env crypto context secured (link (plain_wire welcome))).0 ≡ ok tt
unfolding handshake challenge_response respond negotiate ack ask exchange prepare transmit check
    send frame_of arm receive write_some header line line_loop read_byte contains_any fields_of
    strip_cr split expect Hex.encode Hex.decode str_eq sealed decimal bytes fill_to fill
    frame_length bounded uint_field raw_bytes accept
negotiated = refl

handshake_keyed_example :
    (p : List Bytes) × ((ack env crypto context secured
        (codes "AUTHCHAL u")
        (codes "CHAL")
        2
        true
        (link (plain_wire welcome))).0
      ≡ ok p)
    × IsChallenge env crypto context secured (get_or p 1 [])
    × ((handshake env crypto context secured (link (plain_wire welcome))).1.wire.key
        ≡ some (transport_key crypto (codes "k") (get_or p 1 [])))
handshake_keyed_example =
    handshake_keyed env crypto context secured (link (plain_wire welcome)) (λ e. cc) (λ e. cc)
      negotiated

-- An operation that fails on a connection, and one that succeeds the second time.
abbrev client : Client
client = record {
  gate = false;
  peers = codes "db:1" ∷ [];
  opts = options;
  connections = (0, plain_wire []) ∷ [];
  closed = false;
  retired = [];
  now = 0;
}

abbrev lost : M Client Bytes
lost c = (err (sentinel connection), c)

abbrev refused : M Client Bytes
refused c = (err (sentinel server), c)

abbrev second_time : M Client Bytes
second_time c = elim c.connections [
  | [] ↦ (ok (codes "up"), c)
  | _ ∷ _ ↦ (err (sentinel connection), c)
]

attempts_ok_example :
    (attempts context second_time client ≡ second_time client)
    ⊎ ((e : Failure) × ((second_time client).0 ≡ err e)
        × (is_retryable options e ≡ true)
        × (context.err_at 0 ≡ none)
        × (attempts context second_time client ≡ second_time (next (drop_all client))))
unfolding attempts is_retryable is_kind matches drop_all
attempts_ok_example = attempts_ok context second_time client (codes "up") refl

-- A second operation, which would succeed another time.
abbrev refused_first : M Client Bytes
refused_first c = elim c.connections [
  | [] ↦ (ok (codes "up"), c)
  | _ ∷ _ ↦ (err (sentinel server), c)
]

attempts_rounds_example :
    EndsAfterOne context
      (refused client).1
      none
      (sentinel server)
      (attempts context refused client)
      (attempts context refused_first client)
    ⊎ EndsAfterTwo context refused
        (refused client).1
        none
        (sentinel server)
        (attempts context refused client)
attempts_rounds_example =
    attempts_rounds context refused refused_first client (sentinel server) refl refl
