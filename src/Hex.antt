-- ===== src/Hex.antt =====
-- encoding/hex of Go's standard library: EncodeToString and DecodeString.
use koutendb_go.Common.{
  ℕ, ◌+◌, ◌-◌, ◌*◌, ◌/◌, ◌%◌, ◌&&◌, [], ◌∷◌, Option, none, some, Bytes, ltb, leb, if◌then◌else◌,
}

abbrev pub hex_digit : ℕ → ℕ
hex_digit d = if ltb d 10 then b'0' + d else b'a' + (d - 10)

unfoldable pub encode : Bytes → Bytes
encode [] = []
encode (b ∷ s) = hex_digit (b / 16) ∷ hex_digit (b % 16) ∷ encode s

abbrev pub digit_value : ℕ → Option ℕ
digit_value c =
    if leb b'0' c && leb c b'9'
    then some (c - b'0')
    else if leb b'a' c && leb c b'f'
    then some (c - b'a' + 10)
    else if leb b'A' c && leb c b'F'
    then some (c - b'A' + 10)
    else none

abbrev pub pair_value : Option ℕ → Option ℕ → Option Bytes → Option Bytes
pair_value (some h) (some l) (some s) = some ((h * 16 + l) ∷ s)
pair_value _ _ _ = none

unfoldable pub decode : Bytes → Option Bytes
decode [] = some []
decode (h ∷ []) = none
decode (h ∷ l ∷ s) = pair_value (digit_value h) (digit_value l) (decode s)
