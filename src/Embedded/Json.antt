-- ===== src/Embedded/Json.antt =====
-- embedded/db.go: `PutJSON` and `GetJSON`.
use koutendb_go.Common.{true, false, Option, none, some, Bytes, str_eq, if◌then◌else◌}
use koutendb_go.Errors.{sentinel, input, protocol}
use koutendb_go.Result.{Result, ok, err, M}
use koutendb_go.Floats.{Floats}
use koutendb_go.Json.{Json, Decoding, decoded}
use koutendb_go.Codec
use koutendb_go.Codec.{Payload}
use koutendb_go.Client.Json.{Found}
use koutendb_go.Embedded.Abi.{Abi, LocalId}
use koutendb_go.Embedded.Handle.{Db}
use koutendb_go.Embedded.Records.{put_codec, get}

module _ (J : Json) where
  abbrev pub unmarshalled : Decoding × J.Target → Found J.Target
  unmarshalled (decoded, dst) = record { found = true; error = none; target = dst }
  unmarshalled (_, dst) = record { found = true; error = some (sentinel input); target = dst }

  -- `GetJSON` behind its call of `Get`.
  unfoldable pub decode_payload : Result (Option Payload) → J.Target → Found J.Target
  decode_payload (err e) dst = record { found = false; error = some e; target = dst }
  decode_payload (ok none) dst = record { found = false; error = none; target = dst }
  decode_payload (ok (some p)) dst =
      if str_eq p.codec Codec.json
      then unmarshalled (J.unmarshal p.content dst)
      else record { found = true; error = some (sentinel protocol); target = dst }

  abbrev decoded_after : {S : Type 0} → J.Target → Result (Option Payload) × S → Found J.Target × S
  decoded_after dst (r, s) = (decode_payload r dst, s)

  module _ {F : Floats} (B : Abi F) where
    abbrev pub put_marshalled : Bytes → Option Bytes → M (Option (Db B)) (LocalId F)
    put_marshalled ring none h = (err (sentinel input), h)
    put_marshalled ring (some b) h = put_codec B ring b Codec.json h

    -- `(*DB).PutJSON`
    unfoldable pub put_json : Bytes → J.Value → M (Option (Db B)) (LocalId F)
    put_json ring value = put_marshalled ring (J.marshal value)

    -- `(*DB).GetJSON`
    unfoldable pub get_json : LocalId F → J.Target → Option (Db B) → Found J.Target × Option (Db B)
    get_json id dst h = decoded_after dst (get B id h)
