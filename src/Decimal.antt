-- ===== src/Decimal.antt =====
-- Decimal numbers as Go's standard library prints and reads them: `%d` of fmt and strconv.ParseUint.
pub mod RoundTrip
use koutendb_go.Common.{
  ℕ, zero, suc, ◌+◌, ◌-◌, ◌*◌, ◌/◌, ◌%◌, ◌≤◌, Bool, true, false, ◌&&◌, [], ◌∷◌, ◌++◌, Option, none,
  some, Bytes, ltb, leb, if◌then◌else◌,
}

-- Digits by repeated division; `n` rounds are enough for `n`.
unfoldable pub digits : ℕ → ℕ → Bytes
digits zero n = (b'0' + n) ∷ []
digits (suc f) n =
    let rest = digits f (n / 10) in
    if ltb n 10 then (b'0' + n) ∷ [] else rest ++ (b'0' + n % 10) ∷ []

-- `%d` for an unsigned number.
unfoldable pub decimal : ℕ → Bytes
unfolding digits
decimal n = digits n n

abbrev pub is_digit : ℕ → Bool
is_digit c = leb b'0' c && leb c b'9'

-- The accumulating loop of strconv.ParseUint, for base 10, with its range error.
unfoldable pub scan : ℕ → Bytes → ℕ → Option ℕ
scan limit [] acc = some acc
scan limit (c ∷ s) acc =
    let next = acc * 10 + (c - b'0') in
    let rest = scan limit s next in
    if is_digit c then (if ltb next limit then rest else none) else none

-- `strconv.ParseUint(s, 10, bits)`, where `limit` is 2 ^ bits.
unfoldable pub parse_uint : ℕ → Bytes → Option ℕ
unfolding scan
parse_uint limit [] = none
parse_uint limit (c ∷ s) = scan limit (c ∷ s) 0

-- The number that digits spell behind `acc`, with no bound.
abbrev pub value : ℕ → Bytes → ℕ
value acc [] = acc
value acc (c ∷ s) = value (acc * 10 + (c - b'0')) s

abbrev pub IsDigit : ℕ → Type 0
IsDigit c = (b'0' ≤ c) × (c ≤ b'9')
