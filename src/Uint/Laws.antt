-- ===== src/Uint/Laws.antt =====
-- `uintField` accepts exactly the canonical decimal texts of the numbers that fit.
use koutendb_go.Common.{
  ℕ, ◌+◌, ◌-◌, ◌*◌, ◌<◌, ◌≤◌, ◌^◌, true, [], ◌∷◌, Bytes, ◌≡◌, ◌↔◌, ◌⊎◌, inl, inr, refl, arith, All,
  some, ◌≢◌,
}
use koutendb_go.Errors.{sentinel, protocol}
use koutendb_go.Result.{Result, ok, err, FailsWith, and_then-FailsWith}
use koutendb_go.Decimal.{parse_uint, value, IsDigit, decimal}
use koutendb_go.Decimal.RoundTrip.{
  IsCanonical, decimal-IsCanonical, value-decimal, decimal-value_canonical, scan_complete,
  scan_sound,
}
use koutendb_go.Uint.{uint_field, bounded, all_digits}

all_digits_complete : (s : Bytes) → All IsDigit s → all_digits s ≡ true
all_digits_complete [] _ = refl
all_digits_complete (c ∷ s) (hc, hs) = ground (arith, all_digits_complete s hs)

parse_uint_sound :
    (limit c : ℕ) (s : Bytes) (r : ℕ)
    → parse_uint limit (c ∷ s) ≡ some r
    → All IsDigit (c ∷ s) × (r ≡ value 0 (c ∷ s)) × (r < limit)
unfolding parse_uint
parse_uint_sound limit c s r h = ground (arith, scan_sound limit s (0 * 10 + (c - b'0')) r)

-- What a text that `uintField` accepts has passed.
uint_field_tests :
    (c : ℕ) (s : Bytes) (bits n : ℕ)
    → uint_field (c ∷ s) bits ≡ ok n
    → (parse_uint (2 ^ bits) (c ∷ s) ≡ some n) × ((c ≢ b'0') ⊎ (s ≡ []))
unfolding uint_field
uint_field_tests c [] bits n h = (ground arith, inr refl)
uint_field_tests c (d ∷ s) bits n h = (ground arith, inl (ground arith))

uint_field_sound :
    (s : Bytes) (bits n : ℕ)
    → uint_field s bits ≡ ok n
    → IsCanonical s × (n ≡ value 0 s) × (n < 2 ^ bits)
uint_field_sound [] bits n h = unfold uint_field in cc
uint_field_sound (c ∷ s) bits n h =
    let (parsed, first) = uint_field_tests c s bits n h in
    let (digits, exact, fits) = parse_uint_sound (2 ^ bits) c s n parsed in
    ((digits, first), exact, fits)

uint_field_complete :
    (s : Bytes) (bits : ℕ)
    → IsCanonical s
    → value 0 s < 2 ^ bits
    → uint_field s bits ≡ ok (value 0 s)
unfolding uint_field parse_uint
uint_field_complete [] bits h fits = absurd h
uint_field_complete (c ∷ []) bits (hs, _) fits =
    rw (all_digits_complete (c ∷ []) hs, scan_complete (2 ^ bits) (c ∷ []) 0 hs fits)
uint_field_complete (c ∷ d ∷ s) bits (hs, first) fits =
    ground
      (arith, all_digits_complete (c ∷ d ∷ s) hs, scan_complete (2 ^ bits) (c ∷ d ∷ s) 0 hs fits)

pub uint_field-decimal : (bits n : ℕ) → n < 2 ^ bits → uint_field (decimal n) bits ≡ ok n
uint_field-decimal bits n h =
    let complete = uint_field_complete (decimal n) bits (decimal-IsCanonical n) in
    rw (value-decimal n) at (complete (rw (value-decimal n) h))

-- uintField returns n exactly when the text is the decimal print of n and n fits in the bits.
pub uint_field_iff :
    (s : Bytes) (bits n : ℕ) → (uint_field s bits ≡ ok n) ↔ ((s ≡ decimal n) × (n < 2 ^ bits))
uint_field_iff s bits n = (sound, λ (e, fits). rw e (uint_field-decimal bits n fits))
  where
    sound : uint_field s bits ≡ ok n → (s ≡ decimal n) × (n < 2 ^ bits)
    sound h =
        let (canonical, exact, fits) = uint_field_sound s bits n h in
        (rw (exact, decimal-value_canonical s canonical), fits)

-- Every error of `uintField` is ErrProtocol.
pub uint_field-FailsWith :
    (s : Bytes) (bits : ℕ) → FailsWith (sentinel protocol) (uint_field s bits)
unfolding uint_field
uint_field-FailsWith [] bits = refl
uint_field-FailsWith (c ∷ s) bits = ground arith

-- For a bound below 2^63, bounded returns n exactly when the text is the decimal print of n and n is at
-- most the bound.
pub bounded_iff :
    (s : Bytes) (max n : ℕ) → max < 2 ^ 63 → (bounded s max ≡ ok n) ↔ ((s ≡ decimal n) × (n ≤ max))
unfolding bounded
bounded_iff s max n h = (sound (uint_field s 64) refl, complete)
  where
    sound :
        (r : Result ℕ) → uint_field s 64 ≡ r → bounded s max ≡ ok n → (s ≡ decimal n) × (n ≤ max)
    sound (ok u) e b =
        let (printed, fits) = (uint_field_iff s 64 u).0 e in
        let same : (u ≡ n) × (n ≤ max) = ground arith in (rw (← same.0) printed, same.1)
    sound (err f) e b = ground arith

    complete : (s ≡ decimal n) × (n ≤ max) → bounded s max ≡ ok n
    complete (e, le) = rw (e, uint_field-decimal 64 n (omega arith)) (ground arith)

pub bounded-FailsWith : (s : Bytes) (max : ℕ) → FailsWith (sentinel protocol) (bounded s max)
unfolding bounded
bounded-FailsWith s max =
    and_then-FailsWith (sentinel protocol) (uint_field s 64) _ (uint_field-FailsWith s 64)
      λ u. ground arith
