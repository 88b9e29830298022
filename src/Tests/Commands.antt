-- ===== src/Tests/Commands.antt =====
-- The command, and the goroutines of an embedded database.
use koutendb_go.Conformance.{settings, chosen}
use koutendb_go.Strings.{contains, contains_any, split}
use koutendb_go.Decimal.{decimal, parse_uint, scan}
use koutendb_go.Wire.{header, line, line_loop, read_byte, expect, fields_of, strip_cr}
use koutendb_go.Exchange.{
  exchange, prepare, transmit, check, send, frame_of, arm, receive, write_some,
}
use koutendb_go.Environment.{with_timeout}
use koutendb_go.Handshake.{handshake, negotiate, ask, ack}
use koutendb_go.Peers.{all_peers, is_peer, split_host_port, split_last, split_first, atoi}
use koutendb_go.Normalize.{
  normalize, timeout, checked, within_limits, with_token, are_allowed, all_visible, tls_config,
}
use koutendb_go.Client.{lock, ensure, dial, dial_normalized}
use koutendb_go.Client.Request.{request}
use koutendb_go.Codec
use koutendb_go.Common.{
  ◌*◌, ℕ, ◌≡◌, ◌≤◌, refl, true, false, ◌||◌, ◌&&◌, not, List, [], ◌∷◌, none, some, Bytes, codes,
  str_eq, length, All,
}
use koutendb_go.Common.Int.{pos}
use koutendb_go.Errors.{is_error, io, server, authentication, is_kind, indeterminate}
use koutendb_go.Client.Put.{write_error, put_codec, is_storable, put_request, put_reply}
use koutendb_go.Environment.{Env}
use koutendb_go.Conformance.{kind, Settings, Request, Platform}
use koutendb_go.Conformance.Session.{serve, main, run, dispatch, start as fresh}
use koutendb_go.Conformance.Names.{kind-write_error}
use koutendb_go.Conformance.Made.{made}
use koutendb_go.Conformance.Laws.{ShutAt, main_settled}
use koutendb_go.Embedded.Worker.{
  calls, closes, Phase, System, set, step, begin, acquire, opened, Reach, start, later,
}
use koutendb_go.Embedded.Worker.Invariant.{reach_exclusive}
use koutendb_go.Embedded.Worker.Progress.{Returns, reach-Returns}
use koutendb_go.Tests.Doubles.{floats, crypto}
use koutendb_go.Tests.Shelf.{texts}
use koutendb_go.Tests.Dialing.{negotiating, peers}

abbrev defaults : Settings floats
defaults = record {
  timeout = 0;
  read_timeout = 0;
  write_timeout = 0;
  max_frame_bytes = pos 0;
  max_redirects = pos 0;
  retry_reads = none;
  username = [];
  password = [];
  auth_token = [];
  secret_key = [];
  galaxy = [];
  tls = false;
  tls_ca_file = [];
  tls_server_name = [];
  tls_insecure_skip_verify = false;
}

-- A line that is only the name of an operation.
abbrev asks : Bytes → Request floats Bytes
asks op = record {
  op = op;
  ring = codes "users";
  id = codes "1:2:3:4:5:6";
  payload = codes "hello";
  codec = [];
  selection = [];
  peers = peers;
  value = codes "{}";
  options = defaults;
  timeout = 5;
  read_timeout = 0;
  write_timeout = 0;
}

abbrev platform : Platform floats texts
platform = record {
  is_zero = λ t. str_eq (t ∷ []) (0 ∷ []);
  one = 1;
  times = λ a b. a * b;
  second = 1000;
  truncate = λ t. pos t;
  decode_base64 = λ s. some s;
  encode_base64 = λ s. s;
  error_text = λ e. [];
  read_request = λ l. some (asks l);
  empty_message = [];
  encodes = λ r. true;
  trusted = λ s. true;
}

abbrev lines : List Bytes
lines = codes "get" ∷ codes "connect" ∷ codes "put" ∷ codes "connect" ∷ codes "close" ∷ []

abbrev surroundings : ℕ → Env
surroundings n = negotiating

-- Both connects of these lines succeed.
two_made : made platform surroundings crypto lines fresh ≡ 2
unfolding run settings chosen dial_normalized normalize all_peers is_peer split_host_port split_last
    split_first atoi parse_uint scan contains contains_any timeout checked within_limits with_token
    are_allowed all_visible tls_config dial ensure handshake negotiate ask ack exchange prepare
    transmit check send frame_of arm receive write_some header line line_loop read_byte fields_of
    strip_cr split expect str_eq with_timeout dispatch put_codec is_storable Codec.valid lock
    request put_request decimal put_reply is_error
two_made = refl

main_settled_example :
    (length (main platform surroundings crypto lines true).0.0 ≡ 5)
    × (length (main platform surroundings crypto lines true).1.heap
        ≡ made platform surroundings crypto lines fresh)
    × All ShutAt (main platform surroundings crypto lines true).1.heap
unfolding main serve
main_settled_example = main_settled platform surroundings crypto lines true refl

kind-write_error_example :
    str_eq (kind (write_error true (io true))) (codes "IndeterminateWriteException") ≡ (
      is_kind (io true) indeterminate
      || (true && (not (is_kind (io true) server) && not (is_kind (io true) authentication))))
kind-write_error_example = kind-write_error true (io true)

-- Caller 3 is behind the Lock, and caller 4 waits for it.
abbrev contended : System
contended = record {
  shared = record (opened.shared) { mutex = some 3 };
  phase =
      set 4 (Phase.waiting closes)
        (set 3 (Phase.locked calls) (set 3 (Phase.waiting calls) opened.phase));
}

contended-Reach : Reach contended
unfolding set
contended-Reach =
    later (later (later start (step 3 (begin calls))) (step 3 (acquire refl)))
      (step 4 (begin closes))

abbrev caller : ℕ
caller = 3

reach_exclusive_example : (caller ≡ caller) × (contended.shared.closings ≤ 1)
unfolding set
reach_exclusive_example = reach_exclusive caller caller contended-Reach tt tt

reach-Returns_example : Returns 4 contended
reach-Returns_example = reach-Returns 4 contended-Reach
