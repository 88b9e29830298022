-- ===== src/Tests/Dialing.antt =====
-- Dialling, and a read that is sent on.
use koutendb_go.Common.{◌≡◌, refl, true, false, [], ◌∷◌, ◌++◌, none, some, Bytes, codes, str_eq}
use koutendb_go.Result.{ok, err}
use koutendb_go.Strings.{contains_any, split}
use koutendb_go.Decimal.{decimal, parse_uint, scan}
use koutendb_go.Uint.{uint_field}
use koutendb_go.Identity.{parse_fields, valid}
use koutendb_go.Codec
use koutendb_go.Codec.{Codec, Payload}
use koutendb_go.Wire.{Wire, header, line, line_loop, read_byte, expect, fields_of, strip_cr}
use koutendb_go.Exchange.{
  exchange, prepare, transmit, check, send, frame_of, arm, receive, write_some,
}
use koutendb_go.Client.{Client, lookup, lock, drop}
use koutendb_go.Errors.{sentinel, protocol, is_kind, matches, is_error}
use koutendb_go.Client.Request.{request}
use koutendb_go.Client.Read.{read_operation, attempts, is_retryable}
use koutendb_go.Client.Redirect.{read}
use koutendb_go.Tests.Doubles.{floats, crypto, env, context, options, plain_wire}
use koutendb_go.Common.{◌<◌, ◌≤◌, List, Bool, false, length}
use koutendb_go.Common.Int.{pos}
use koutendb_go.Options.{Options}
use koutendb_go.Strings.{contains}
use koutendb_go.Decimal.{parse_uint, scan}
use koutendb_go.Environment.{Env, dialed, with_timeout}
use koutendb_go.Handshake.{handshake, negotiate, ask, ack}
use koutendb_go.Peers.{all_peers, is_peer, split_host_port, split_last, split_first, atoi}
use koutendb_go.Normalize.{
  normalize, timeout, checked, within_limits, with_token, are_allowed, all_visible, tls_config,
}
use koutendb_go.Normalize.Laws.{IsNormal, normalize-IsNormal, normalize_stable}
use koutendb_go.Client.{ensure, dial, dial_normalized}
use koutendb_go.Client.Ready.{Ready, ensure-Ready, dial_ready}
use koutendb_go.Client.Redirect.{follow, hop, read_reply, dispatch, redirect_reply, value_reply}
use koutendb_go.Client.Closed.{Dropped, read-Dropped}
use koutendb_go.Client.Served.{read_served}
use koutendb_go.Codec.{Payload}
use koutendb_go.Wire.{bytes, raw_bytes}
use koutendb_go.Uint.{bounded}
use koutendb_go.Identity.{to_string}
use koutendb_go.Strings.{replace_all}
use koutendb_go.Options.{frame_limit}
use koutendb_go.Tests.Clients.{client, some_id}

-- Dialling with default options.
abbrev unset : Options
unset = record options {
  connect_timeout = pos 0;
  read_timeout = pos 0;
  write_timeout = pos 0;
  max_frame_bytes = pos 0;
  max_redirects = pos 0;
}

abbrev defaults : Options
defaults = record options {
  connect_timeout = pos 5000000000;
  read_timeout = pos 5000000000;
  write_timeout = pos 5000000000;
  max_frame_bytes = pos 67108864;
  max_redirects = pos 8;
}

abbrev pub peers : List Bytes
peers = codes "db:7301" ∷ codes "[::1]:7302" ∷ []

abbrev untrusted : Bytes → Bool
untrusted file = false

unset-normalize : normalize untrusted peers unset ≡ ok (defaults, none)
unfolding normalize all_peers is_peer split_host_port split_last split_first atoi parse_uint scan
    contains contains_any timeout checked within_limits with_token are_allowed all_visible
    tls_config
unset-normalize = refl

normalize-IsNormal_example : (2 ≤ 64) × (all_peers peers ≡ true) × IsNormal defaults
normalize-IsNormal_example = normalize-IsNormal untrusted peers unset defaults none unset-normalize

normalize_stable_example : normalize untrusted peers defaults ≡ ok (defaults, none)
normalize_stable_example = normalize_stable untrusted peers unset defaults none unset-normalize

-- A peer that negotiates.
abbrev pub negotiating : Env
negotiating = record env {
  dial = λ node n.
      dialed (plain_wire (codes "WIREVER 1" ++ b'\n' ∷ codes "OK codec-metadata" ++ b'\n' ∷ []));
}

abbrev ensured_client : Client
ensured_client = record client { opts = defaults; connections = [] }

ensure-Ready_example :
    (ensured_client.closed ≡ false)
    × (0 < length ensured_client.peers)
    × Ready 0 ensured_client (ensure negotiating crypto context 0 ensured_client).1
unfolding ensure handshake negotiate ask ack exchange prepare transmit check send frame_of arm
    receive write_some header line line_loop read_byte contains_any fields_of strip_cr split expect
    str_eq with_timeout
ensure-Ready_example = ensure-Ready negotiating crypto context 0 ensured_client refl

abbrev dialed_client : Client
dialed_client = record client {
  peers = peers;
  opts = defaults;
  connections =
      (
        0,
        record (plain_wire []) {
          outbox = codes "WIREVER" ++ b'\n' ∷ codes "CODECMETA ON" ++ b'\n' ∷ [];
        },
      )
      ∷ [];
  now = 13;
}

dialled : dial_normalized negotiating crypto untrusted (some context) peers unset ≡ ok dialed_client
unfolding dial_normalized normalize all_peers is_peer split_host_port split_last split_first atoi
    parse_uint scan contains contains_any timeout checked within_limits with_token are_allowed
    all_visible tls_config dial ensure handshake negotiate ask ack exchange prepare transmit check
    send frame_of arm receive write_some header line line_loop read_byte fields_of strip_cr split
    expect str_eq with_timeout
dialled = refl

dial_ready_example :
    (dialed_client.gate ≡ true)
    × (dialed_client.closed ≡ false)
    × (dialed_client.peers ≡ peers)
    × (1 ≤ length peers)
    × (all_peers peers ≡ true)
    × IsNormal dialed_client.opts
    × ((w : Wire) × (lookup 0 dialed_client.connections ≡ some w))
dial_ready_example =
    dial_ready negotiating crypto untrusted (some context) peers unset dialed_client dialled

-- A read that is sent on to the second peer.
abbrev reader : Client
reader = record client {
  peers = peers;
  connections =
      (0, plain_wire (codes "FWD 7 1 2 5 9 0 1" ++ b'\n' ∷ []))
      ∷ (1, plain_wire (codes "VAL 1 2 raw" ++ b'\n' ∷ codes "hi"))
      ∷ [];
}

abbrev greeting : Payload
greeting = record { content = codes "hi"; codec = Codec.raw }

found : (read floats env crypto (some context) some_id none reader).0 ≡ ok (some greeting)
unfolding read read_operation lock attempts follow hop request read_reply dispatch redirect_reply
    value_reply ensure bytes raw_bytes parse_fields bounded uint_field parse_uint scan valid
    Codec.valid to_string replace_all decimal exchange prepare transmit check send frame_of arm
    receive write_some header line line_loop read_byte contains contains_any fields_of strip_cr
    split expect str_eq
found = refl

read_served_example :
    (Codec.valid Codec.raw ≡ true) × (length greeting.content ≤ frame_limit reader.opts)
read_served_example =
    read_served floats env crypto none some_id greeting (some context) reader found

-- A reply of the wrong kind.
misread : (read floats env crypto (some context) some_id none client).0 ≡ err (sentinel protocol)
unfolding read read_operation lock attempts follow hop request read_reply dispatch redirect_reply
    value_reply ensure bytes raw_bytes parse_fields bounded uint_field parse_uint scan valid
    Codec.valid to_string replace_all decimal exchange prepare transmit check send frame_of arm
    receive write_some header line line_loop read_byte contains contains_any fields_of strip_cr
    split expect str_eq is_retryable is_kind matches drop is_error
misread = refl

taken : (lock env (some context) client).0 ≡ ok tt
unfolding lock
taken = refl

id_valid : valid floats some_id ≡ true
unfolding valid
id_valid = refl

read-Dropped_example : Dropped client (read floats env crypto (some context) some_id none client).1
read-Dropped_example =
    read-Dropped floats env crypto context client (sentinel protocol) some_id none tt taken id_valid
      refl misread
