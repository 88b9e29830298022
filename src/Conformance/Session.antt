-- ===== src/Conformance/Session.antt =====
-- cmd/conformance/main.go: `run` and `main`.
use koutendb_go.Common.{
  Bool, true, false, ◌&&◌, ◌||◌, List, [], ◌∷◌, ◌+◌, ◌==◌, ℕ, Option, none, some, Bytes, codes,
  str_eq, if◌then◌else◌,
}
use koutendb_go.Errors.{
  Failure, sentinel, wrap, other, ctx, io, out_of_fuel, message, input, closed as closed_kind,
}
use koutendb_go.Result.{Result, ok, err, M}
use koutendb_go.Floats.{Floats}
use koutendb_go.Json.{Json}
use koutendb_go.Codec
use koutendb_go.Codec.{Codec, Payload}
use koutendb_go.Identity.{RecordId, parse_id, to_string}
use koutendb_go.Wire.{Crypto}
use koutendb_go.Environment.{Env}
use koutendb_go.Client.{Client, client_go_string, dial_normalized, close}
use koutendb_go.Client.Put.{put_codec}
use koutendb_go.Client.Read.{health}
use koutendb_go.Client.Redirect.{get}
use koutendb_go.Client.Json.{Found, put_json, get_json, query_json}
use koutendb_go.Conformance.{
  background, kind, Request, Answer, nothing, text, stored, document, Response, success, failure,
  Platform, settings,
}

-- Clients at addresses.
abbrev pub Heap : Type 0
Heap = List (ℕ × Client)

abbrev pub load : ℕ → Heap → Option Client
load p [] = none
load p ((q, c) ∷ h) = if p == q then some c else load p h

abbrev pub store : ℕ → Client → Heap → Heap
store p c [] = []
store p c ((q, d) ∷ h) = let rest = store p c h in if p == q then (p, c) ∷ rest else (q, d) ∷ rest

-- The variable `client` of `main`, which is nil or points to a client, all clients that have been made, and
-- the number of the last `connect`: each has surroundings and an address of its own.
pub record Session : Type 0 where
  pub client : Option ℕ
  pub heap : Heap
  pub connects : ℕ

abbrev pub start : Session
start = record { client = none; heap = []; connects = 0 }

module _ {F : Floats} {J : Json} (P : Platform F J) (E : ℕ → Env) (C : Crypto) where
  -- `(*c).Close()`; every pointer is to a client that is there.
  abbrev pub close_at : ℕ → Option Client → Session → Session
  close_at p none s = s
  close_at p (some c) s = record s { heap = store p (close c) s.heap }

  -- `if *c != nil { _ = (*c).Close() }`
  abbrev pub close_current : Option ℕ → Session → Session
  close_current none s = s
  close_current (some p) s = close_at p (load p s.heap) s

  -- The same, with `*c = nil` behind it.
  abbrev pub released : Session → Session
  released s = record (close_current s.client s) { client = none }

  -- `*c, err = db.Dial(…)`
  abbrev pub connected : Session → Result Client → Result (Answer J.Target) × Session
  connected s (ok c) = (
    ok (text (codes "connected")),
    record s { client = some s.connects; heap = (s.connects, c) ∷ s.heap },
  )
  connected s (err e) = (err e, record s { client = none })

  abbrev pub connect : Request F J.Value → M Session (Answer J.Target)
  connect r s =
      let t = released s in
      connected (record t { connects = t.connects + 1 })
        (dial_normalized (E (t.connects + 1)) C P.trusted (some background) r.peers (settings P r))

  abbrev keep : {A : Type 0} → ℕ → Session → A × Client → A × Session
  keep p s (a, c) = (a, record s { heap = store p c s.heap })

  abbrev identity : Result (RecordId F) → Result (Answer J.Target)
  identity (ok id) = ok (text (to_string F id))
  identity (err e) = err e

  abbrev texted : Result Bytes → Result (Answer J.Target)
  texted (ok b) = ok (text b)
  texted (err e) = err e

  abbrev payload : Result (Option Payload) → Result (Answer J.Target)
  payload (ok none) = ok nothing
  payload (ok (some p)) = ok (stored (P.encode_base64 p.content) p.codec)
  payload (err e) = err e

  abbrev reported : Option Failure → Answer J.Target → Result (Answer J.Target)
  reported none a = ok a
  reported (some e) a = err e

  abbrev found_document : Found J.Target → Result (Answer J.Target)
  found_document f = reported f.error (if f.found then document f.target else nothing)

  abbrev pub or_raw : Bytes → Codec
  or_raw [] = Codec.raw
  or_raw (b ∷ c) = b ∷ c

  -- An operation of the client, with its result put into an answer.
  abbrev with_client :
      {A : Type 0}
      → (A → Result (Answer J.Target))
      → (Client → A × Client)
      → Client
      → Result (Answer J.Target) × Client
  with_client f m c = let (a, d) = m c in (f a, d)

  abbrev pub put_decoded : ℕ → Request F J.Value → Option Bytes → M Client (Answer J.Target)
  put_decoded n r none c = (err (sentinel input), c)
  put_decoded n r (some b) c =
      with_client identity (put_codec F (E n) C (some background) r.ring b (or_raw r.codec)) c

  abbrev pub read_at : ℕ → Request F J.Value → Result (RecordId F) → M Client (Answer J.Target)
  read_at n r (err e) c = (err e, c)
  read_at n r (ok id) c =
      if str_eq r.op (codes "get")
      then with_client payload (get F (E n) C (some background) id) c
      else if str_eq r.op (codes "getJson")
      then with_client found_document (get_json J F (E n) C (some background) id P.empty_message) c
      else with_client found_document
          (query_json J F (E n) C (some background) id r.selection P.empty_message) c

  -- The switch of `run`; `%#v` prints what `GoString` returns.
  unfoldable pub dispatch : ℕ → Request F J.Value → M Client (Answer J.Target)
  dispatch n r c =
      if str_eq r.op (codes "close")
      then (ok (text (codes "closed")), close c)
      else if str_eq r.op (codes "debug")
      then (ok (text (client_go_string c)), c)
      else if str_eq r.op (codes "health")
      then with_client texted (health F (E n) C (some background)) c
      else if str_eq r.op (codes "put")
      then put_decoded n r (P.decode_base64 r.payload) c
      else if str_eq r.op (codes "putJson")
      then with_client identity (put_json J F (E n) C (some background) r.ring r.value) c
      else if str_eq r.op (codes "get")
          || str_eq r.op (codes "getJson")
          || str_eq r.op (codes "query")
      then read_at n r (parse_id F r.id) c
      else (err (sentinel input), c)

  abbrev pub on_loaded : Request F J.Value → ℕ → Option Client → M Session (Answer J.Target)
  on_loaded r p none s = (err (sentinel closed_kind), s)
  on_loaded r p (some c) s = keep p s (dispatch s.connects r c)

  abbrev pub on_client : Request F J.Value → Option ℕ → M Session (Answer J.Target)
  on_client r none s = (err (sentinel closed_kind), s)
  on_client r (some p) s = on_loaded r p (load p s.heap) s

  -- `run`
  unfoldable pub run : Request F J.Value → M Session (Answer J.Target)
  run r s = if str_eq r.op (codes "connect") then connect r s else on_client r s.client s

  abbrev pub run_parsed : Option (Request F J.Value) → M Session (Answer J.Target)
  run_parsed none s = (err (sentinel input), s)
  run_parsed (some r) s = run r s

  -- `err.Error()`
  abbrev pub error_text : Failure → Bytes
  error_text (sentinel k) = codes (message k)
  error_text (wrap k cause) = codes (message k)
  error_text (other m) = codes m
  error_text (ctx e) = P.error_text (ctx e)
  error_text (io b) = P.error_text (io b)
  error_text out_of_fuel = P.error_text out_of_fuel

  abbrev pub response : Result (Answer J.Target) → Response J.Target
  response (ok a) = success a
  response (err e) = failure (kind e) (error_text e)

  abbrev pub Run : Type 0
  Run = (List (Response J.Target) × Bool) × Session

  abbrev pub written : Response J.Target → Session → Bool → Run → Run
  written r t true ((rs, finished), s) = ((r ∷ rs, finished), s)
  written r t false rest = (([], false), t)

  abbrev pub ended : Bool → List (Response J.Target) → Session → Run
  ended true rs s = ((rs, true), close_current s.client s)
  ended false rs s = ((rs, false), s)

  -- The loop of `main`: the lines that it writes, whether it reaches its end, and the session then. It
  -- exits where a line cannot be written.
  unfoldable pub serve : List Bytes → Session → Run
  serve [] s = (([], true), s)
  serve (l ∷ ls) s =
      let (r, t) = run_parsed (P.read_request l) s in
      written (response r) t (P.encodes (response r)) (serve ls t)

  -- `main` on the lines of its input: the lines that it writes, whether it ends without `os.Exit(1)`, and
  -- the session then. Only in that case are the deferred calls run.
  unfoldable pub main : List Bytes → Bool → Run
  main ls scanned = let ((rs, finished), s) = serve ls start in ended (finished && scanned) rs s
