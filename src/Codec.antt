-- ===== src/Codec.antt =====
-- id.go: `Codec`, its four values, and `Payload`.
use koutendb_go.Common.{Bool, ◌||◌, Bytes, codes, str_eq}

abbrev pub Codec : Type 0
Codec = Bytes

abbrev pub raw : Codec
raw = codes "raw"

abbrev pub json : Codec
json = codes "json"

abbrev pub nif : Codec
nif = codes "nif"

abbrev pub bif : Codec
bif = codes "bif"

-- `Codec.Valid`
unfoldable pub valid : Codec → Bool
unfolding str_eq
valid c = str_eq c raw || str_eq c json || str_eq c nif || str_eq c bif

pub record Payload : Type 0 where
  pub content : Bytes
  pub codec : Codec
