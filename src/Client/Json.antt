-- ===== src/Client/Json.antt =====
-- client.go: `PutJSON`, `GetJSON` and `QueryJSON`.
use koutendb_go.Common.{Bool, true, false, Option, none, some, Bytes, str_eq, if◌then◌else◌}
use koutendb_go.Errors.{Failure, sentinel, input, protocol}
use koutendb_go.Result.{Result, ok, err, M}
use koutendb_go.Floats.{Floats}
use koutendb_go.Json.{Json, Decoding, decoded, bad_target, bad_text}
use koutendb_go.Codec
use koutendb_go.Codec.{Payload}
use koutendb_go.Identity.{RecordId}
use koutendb_go.Wire.{Crypto}
use koutendb_go.Environment.{Env, Ctx}
use koutendb_go.Client.{Client}
use koutendb_go.Client.Put.{put_codec}
use koutendb_go.Client.Redirect.{get, query}

-- What a read of JSON returns: whether the record exists, an error, and what is in the target.
pub record Found (Target : Type 0) : Type 0 where
  pub found : Bool
  pub error : Option Failure
  pub target : Target

module _ (J : Json) where
  abbrev missing : Option Failure → J.Target → Found J.Target
  missing e dst = record { found = false; error = e; target = dst }

  abbrev present : Option Failure → J.Target → Found J.Target
  present e dst = record { found = true; error = e; target = dst }

  abbrev unmarshalled : Decoding × J.Target → Found J.Target
  unmarshalled (decoded, dst) = present none dst
  unmarshalled (bad_target, dst) = present (some (sentinel input)) dst
  unmarshalled (bad_text, dst) = present (some (sentinel protocol)) dst

  -- `decodeJSON`
  unfoldable pub decode_json : Result (Option Payload) → J.Target → Found J.Target
  decode_json (err e) dst = missing (some e) dst
  decode_json (ok none) dst = missing none dst
  decode_json (ok (some p)) dst =
      if str_eq p.codec Codec.json
      then unmarshalled (J.unmarshal p.content dst)
      else present (some (sentinel protocol)) dst

  abbrev pub decoded_after :
      {S : Type 0} → J.Target → Result (Option Payload) × S → Found J.Target × S
  decoded_after dst (r, s) = (decode_json r dst, s)

  module _ (F : Floats) (E : Env) (C : Crypto) where
    abbrev pub put_marshalled : Option Ctx → Bytes → Option Bytes → M Client (RecordId F)
    put_marshalled x ring none c = (err (sentinel input), c)
    put_marshalled x ring (some b) c = put_codec F E C x ring b Codec.json c

    -- `(*Client).PutJSON`
    unfoldable pub put_json : Option Ctx → Bytes → J.Value → M Client (RecordId F)
    put_json x ring value = put_marshalled x ring (J.marshal value)

    -- `(*Client).GetJSON`
    unfoldable pub get_json : Option Ctx → RecordId F → J.Target → Client → Found J.Target × Client
    get_json x id dst c = decoded_after dst (get F E C x id c)

    -- `(*Client).QueryJSON`
    unfoldable pub query_json :
        Option Ctx → RecordId F → Bytes → J.Target → Client → Found J.Target × Client
    query_json x id selection dst c = decoded_after dst (query F E C x id selection c)
