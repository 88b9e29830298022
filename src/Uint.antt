-- ===== src/Uint.antt =====
-- id.go: `uintField` and `bounded`, the canonical unsigned numbers of the wire.
pub mod Laws
use koutendb_go.Common.{
  ℕ, ◌<◌, ◌^◌, Bool, true, false, ◌&&◌, not, [], ◌∷◌, Bytes, length, ltb, leb, ◌==◌, if◌then◌else◌,
}
use koutendb_go.Errors.{Failure, sentinel, protocol}
use koutendb_go.Result.{Result, ok, err, or_err, and_then}
use koutendb_go.Decimal.{is_digit, parse_uint}

-- The loop `for _, b := range []byte(s)` finds no byte that is not a digit.
abbrev pub all_digits : Bytes → Bool
all_digits [] = true
all_digits (b ∷ s) = is_digit b && all_digits s

unfoldable pub uint_field : Bytes → ℕ → Result ℕ
unfolding parse_uint
uint_field [] bits = err (sentinel protocol)
uint_field (b ∷ s) bits =
    if ltb 1 (length (b ∷ s)) && b == b'0'
    then err (sentinel protocol)
    else if not (all_digits (b ∷ s))
    then err (sentinel protocol)
    else or_err (parse_uint (2 ^ bits) (b ∷ s)) (sentinel protocol)

-- `max` is a non-negative Go int, so its conversion to uint64 is the same number.
unfoldable pub bounded : Bytes → ℕ → Result ℕ
bounded s max = and_then (uint_field s 64) λ u. if ltb max u then err (sentinel protocol) else ok u
