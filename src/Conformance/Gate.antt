-- ===== src/Conformance/Gate.antt =====
-- The gate of the command's client.
use koutendb_go.Common.{
  Bool, true, false, ◌||◌, ◌≡◌, refl, ◌∙◌, [], ℕ, Option, none, some, Bytes, codes, str_eq, String,
  if◌then◌else◌,
}
use koutendb_go.Result.{Result, ok, err}
use koutendb_go.Floats.{Floats}
use koutendb_go.Json.{Json}
use koutendb_go.Codec
use koutendb_go.Codec.{Codec}
use koutendb_go.Identity.{RecordId, parse_id}
use koutendb_go.Wire.{Crypto}
use koutendb_go.Environment.{Env}
use koutendb_go.Client.{Client, close}
use koutendb_go.Client.Put.{put_codec}
use koutendb_go.Client.Read.{health}
use koutendb_go.Client.Redirect.{get, query, read}
use koutendb_go.Client.Json.{put_marshalled, put_json, get_json, query_json}
use koutendb_go.Client.Gate.{operations-gate}
use koutendb_go.Conformance.{background, Request, Answer, Platform}
use koutendb_go.Conformance.Session.{put_decoded, read_at, or_raw, dispatch}

abbrev pub IsShut : Client → Type 0
IsShut c = (c.closed ≡ true) × (c.connections ≡ []) × (c.gate ≡ true)

if-gate :
    {A : Type 0} {g : Bool} (b : Bool) (x y : A × Client)
    → x.1.gate ≡ g
    → y.1.gate ≡ g
    → (if b then x else y).1.gate ≡ g
if-gate true x y hx hy = hx
if-gate false x y hx hy = hy

module _ {F : Floats} {J : Json} (P : Platform F J) (E : ℕ → Env) (C : Crypto) where
  some_id : RecordId F
  some_id = record { parent = 0; epoch = 0; seq = 0; t_write = P.one; period = P.one; head = P.one }

  put_gate :
      (n : ℕ) (ring content : Bytes) (codec : Codec) (c : Client)
      → (put_codec F (E n) C (some background) ring content codec c).1.gate ≡ c.gate
  put_gate n ring content codec c =
      (operations-gate F (E n) C (some background) ring content codec some_id none c).0

  health_gate : (n : ℕ) (c : Client) → (health F (E n) C (some background) c).1.gate ≡ c.gate
  health_gate n c = (operations-gate F (E n) C (some background) [] [] [] some_id none c).1

  read_gate :
      (n : ℕ) (id : RecordId F) (s : Option Bytes) (c : Client)
      → (read F (E n) C (some background) id s c).1.gate ≡ c.gate
  read_gate n id s c = (operations-gate F (E n) C (some background) [] [] [] id s c).2

  pub close-IsShut : (c : Client) → IsShut (close c)
  unfolding close
  close-IsShut c = (refl, refl, refl)

  put_json-gate :
      (n : ℕ) (r : Request F J.Value) (c : Client)
      → (put_json J F (E n) C (some background) r.ring r.value c).1.gate ≡ c.gate
  unfolding put_json
  put_json-gate n r c = go (J.marshal r.value)
    where
      go :
          (o : Option Bytes)
          → (put_marshalled J F (E n) C (some background) r.ring o c).1.gate ≡ c.gate
      go none = refl
      go (some b) = put_gate n r.ring b Codec.json c

  read_at-gate :
      (n : ℕ) (r : Request F J.Value) (id : Result (RecordId F)) (c : Client)
      → (read_at P E C n r id c).1.gate ≡ c.gate
  unfolding get query get_json query_json
  read_at-gate n r (err e) c = refl
  read_at-gate n r (ok id) c =
      asked "get" _ _ (read_gate n id none c)
        (asked "getJson" _ _ (read_gate n id none c) (read_gate n id (some r.selection) c))
    where
      asked :
          (op : String) (x y : Result (Answer J.Target) × Client)
          → x.1.gate ≡ c.gate
          → y.1.gate ≡ c.gate
          → (if str_eq r.op (codes op) then x else y).1.gate ≡ c.gate
      asked op = if-gate (str_eq r.op (codes op))

  pub dispatch-gate :
      (n : ℕ) (r : Request F J.Value) (c : Client)
      → c.gate ≡ true
      → (dispatch P E C n r c).1.gate ≡ true
  unfolding dispatch
  dispatch-gate n r c free = asked "close" _ _ (close-IsShut c).2 (
      asked "debug" _ _ free (
        asked "health" _ _ (health_gate n c ∙ free) (
          asked "put" _ _ (decoded (P.decode_base64 r.payload)) (
            asked "putJson" _ _ (put_json-gate n r c ∙ free) (
              if-gate {A = Result (Answer J.Target)}
                (str_eq r.op (codes "get")
                  || str_eq r.op (codes "getJson")
                  || str_eq r.op (codes "query"))
                _ _ (read_at-gate n r (parse_id F r.id) c ∙ free) free)))))
    where
      asked :
          (op : String) (x y : Result (Answer J.Target) × Client)
          → x.1.gate ≡ true
          → y.1.gate ≡ true
          → (if str_eq r.op (codes op) then x else y).1.gate ≡ true
      asked op = if-gate (str_eq r.op (codes op))

      decoded : (o : Option Bytes) → (put_decoded P E C n r o c).1.gate ≡ true
      decoded none = free
      decoded (some b) = put_gate n r.ring b (or_raw P E C r.codec) c ∙ free
