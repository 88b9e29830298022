-- ===== src/Json.antt =====
-- encoding/json, which the model takes as a parameter.
use koutendb_go.Common.{Bool, Bytes, Option}

-- What `json.Unmarshal` returns: no error, an InvalidUnmarshalError, or another one.
pub data Decoding : Type 0 where
  decoded bad_target bad_text : Decoding

pub record Json : Type 1 where
  -- what a caller passes as `any` to be written, and to be read into
  pub Value : Type 0
  pub Target : Type 0
  pub marshal : Value → Option Bytes
  -- what is left in the target comes with the error too
  pub unmarshal : Bytes → Target → Decoding × Target
  -- `json.Unmarshal` into a map that is not nil then
  pub is_object : Bytes → Bool
  -- `json.Valid`
  pub is_valid : Bytes → Bool
