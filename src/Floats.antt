-- ===== src/Floats.antt =====
-- float64 and strconv's functions on it, which the model takes as a parameter.
use koutendb_go.Common.{ℕ, ◌≤◌, ◌≡◌, ◌⊎◌, Bool, false, Bytes, Option, some, All}

pub record Floats : Type 1 where
  pub Float : Type 0
  -- `strconv.ParseFloat(s, 64)`; `none` is an error
  pub parse_float : Bytes → Option Float
  -- `strconv.FormatFloat(f, 'g', -1, 64)`
  pub format_float : Float → Bytes
  -- `math.IsNaN(f)`, `math.IsInf(f, 0)` and `f > 0`
  pub is_nan : Float → Bool
  pub is_inf : Float → Bool
  pub is_positive : Float → Bool

-- The bytes of a finite number in format 'g': digits, signs, the point and the exponent's letter.
abbrev pub IsNumberByte : ℕ → Type 0
IsNumberByte c = ((b'0' ≤ c) × (c ≤ b'9')) ⊎ (c ≡ b'+') ⊎ (c ≡ b'-') ⊎ (c ≡ b'.') ⊎ (c ≡ b'e')

-- What strconv documents of finite numbers: precision -1 prints as many digits as are needed for
-- ParseFloat to return the same number, and the print is made of digits, sign, point and exponent.
pub record IsLawful (F : Floats) : Type 0 where
  pub parse-format :
      (f : F.Float)
      → F.is_nan f ≡ false
      → F.is_inf f ≡ false
      → F.parse_float (F.format_float f) ≡ some f
  pub format-IsNumberByte :
      (f : F.Float) → F.is_nan f ≡ false → F.is_inf f ≡ false → All IsNumberByte (F.format_float f)
