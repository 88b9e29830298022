-- ===== src/Tests/Clients.antt =====
-- Writes, and the gate of a client.
use koutendb_go.Common.{◌≡◌, refl, true, false, [], ◌∷◌, ◌++◌, none, some, Bytes, codes, str_eq}
use koutendb_go.Errors.{canceled, sentinel, ctx, closed, is_kind}
use koutendb_go.Result.{ok, err}
use koutendb_go.Strings.{contains_any, split}
use koutendb_go.Decimal.{decimal, parse_uint, scan}
use koutendb_go.Uint.{uint_field}
use koutendb_go.Identity.{RecordId, parse_fields, valid, IsInRange}
use koutendb_go.Codec
use koutendb_go.Codec.{Codec, Payload}
use koutendb_go.Wire.{Wire, header, line, line_loop, read_byte, expect, fields_of, strip_cr}
use koutendb_go.Environment.{Ctx}
use koutendb_go.Exchange.{
  exchange, prepare, transmit, check, send, frame_of, arm, receive, write_some,
}
use koutendb_go.Exchange.Quiet.{Encodes}
use koutendb_go.Client.{Client, lookup, close, lock}
use koutendb_go.Client.Request.{request}
use koutendb_go.Client.Put.{put_request, put_reply, put_settled, is_storable, put_codec}
use koutendb_go.Client.Read.{health}
use koutendb_go.Client.Redirect.{read}
use koutendb_go.Client.Writes.{put_text, IsPlain, put_stored}
use koutendb_go.Client.Gate.{operations-gate, closed_operations}
use koutendb_go.Tests.Doubles.{floats, crypto, env, context, options, plain_wire}
use koutendb_go.Common.{false, ltb, if◌then◌else◌}
use koutendb_go.Decimal.{parse_uint, scan}
use koutendb_go.Client.{ensure}
use koutendb_go.Client.Promise.{written, put_codec_plain}
use koutendb_go.Codec.{Payload}

abbrev pub peer : Wire
peer = plain_wire (codes "ID 7 1 2 5 9 0" ++ b'\n' ∷ [])

abbrev pub client : Client
client = record {
  gate = true;
  peers = codes "db:1" ∷ [];
  opts = options;
  connections = (0, peer) ∷ [];
  closed = false;
  retired = [];
  now = 0;
}

abbrev pub some_id : RecordId floats
some_id = record { parent = 7; epoch = 1; seq = 2; t_write = 5; period = 9; head = 0 }

stored :
    (put_settled (
      request 0
        (put_request floats env crypto context options (codes "r") (codes "hi") Codec.raw)
        client)).0
    ≡ ok some_id
unfolding request put_request put_reply exchange prepare transmit check send frame_of arm receive
    write_some header line line_loop read_byte contains_any fields_of strip_cr split expect str_eq
    parse_fields uint_field parse_uint scan valid decimal
stored = refl

put_stored_example :
    (frame : Bytes) × (u : Wire) × Encodes crypto none
      (put_text (codes "r") (codes "hi") Codec.raw)
      frame
    × (lookup 0
          (request 0
            (put_request floats env crypto context options (codes "r") (codes "hi") Codec.raw)
            client).1.connections
        ≡ some u)
    × (u.outbox ≡ [] ++ frame)
    × (valid floats some_id ≡ true)
    × IsInRange floats some_id
put_stored_example =
    put_stored floats env crypto context options (codes "r") (codes "hi") Codec.raw client peer
      some_id refl stored

-- A context that is done once the gate is held, before the write.
abbrev late : Ctx
late = record { err_at = λ n. if ltb n 2 then none else some canceled; due = none }

unsent :
    (put_codec floats env crypto (some late) (codes "r") (codes "hi") Codec.raw client).0
    ≡ err (ctx canceled)
unfolding put_codec is_storable Codec.valid str_eq lock ensure request put_request exchange prepare
    check
unsent = refl

ctx-IsPlain : IsPlain (ctx canceled)
unfolding is_kind
ctx-IsPlain = (refl, refl, refl)

put_codec_plain_example :
    written (put_codec floats env crypto (some late) (codes "r") (codes "hi") Codec.raw client).1
    ≡ written client
put_codec_plain_example =
    put_codec_plain floats env crypto (codes "r") (codes "hi") Codec.raw (ctx canceled) ctx-IsPlain
      (some late) client peer refl unsent

operations-gate_example :
    ((put_codec floats env crypto (some context) (codes "r") (codes "hi") Codec.raw client).1.gate
      ≡ true)
    × ((health floats env crypto (some context) client).1.gate ≡ true)
    × ((read floats env crypto (some context) some_id none client).1.gate ≡ true)
operations-gate_example =
    operations-gate floats env crypto (some context) (codes "r") (codes "hi") Codec.raw some_id none
      client

abbrev after_close : Client
after_close = record (close client) { now = 2 }

closed_operations_example :
    (put_codec floats env crypto (some context) (codes "r") (codes "hi") Codec.raw (close client)
      ≡ (err (sentinel closed), after_close))
    × (health floats env crypto (some context) (close client)
        ≡ (err (sentinel closed), after_close))
    × (read floats env crypto (some context) some_id none (close client)
        ≡ (err (sentinel closed), after_close))
    × (after_close.connections ≡ [])
    × (close (close client) ≡ close client)
unfolding is_storable valid Codec.valid str_eq close
closed_operations_example =
    closed_operations floats env crypto context (codes "r") (codes "hi") Codec.raw some_id none
      client refl refl refl refl refl
