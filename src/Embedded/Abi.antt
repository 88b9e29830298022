-- ===== src/Embedded/Abi.antt =====
-- embedded/db.go: identities, codecs, texts and numbers on their way to the C library, and the library,
-- which the model takes as a parameter.
use koutendb_go.Common.{
  ℕ, zero, suc, ◌-◌, ◌*◌, ◌%◌, ◌^◌, ltb, Bool, true, false, ◌&&◌, not, List, [], ◌∷◌, Option, none,
  some, Bytes, length, str_eq, if◌then◌else◌,
}
use koutendb_go.Common.Int.{ℤ, pos, negsuc}
use koutendb_go.Strings.{contains}
use koutendb_go.Codec
use koutendb_go.Codec.{Codec}
use koutendb_go.Floats.{Floats}
use koutendb_go.Identity.{finite}

-- `text`: a string that C reads whole.
unfoldable pub is_text : Bytes → Bool
is_text s = ltb (length s) (1024 * 1024) && not (contains s 0)

-- `codec`
unfoldable pub codec_number : Codec → Option ℤ
codec_number c =
    if str_eq c Codec.raw
    then some (pos 0)
    else if str_eq c Codec.json
    then some (pos 1)
    else if str_eq c Codec.nif
    then some (pos 2)
    else if str_eq c Codec.bif
    then some (pos 3)
    else none

-- The codec of a number that `Get` is given, if it is between 0 and 3.
unfoldable pub codec_of : ℤ → Option Codec
codec_of (pos zero) = some Codec.raw
codec_of (pos (suc zero)) = some Codec.json
codec_of (pos (suc (suc zero))) = some Codec.nif
codec_of (pos (suc (suc (suc zero)))) = some Codec.bif
codec_of (pos (suc (suc (suc (suc n))))) = none
codec_of (negsuc n) = none

-- `C.int(n)` of a Go int: its low 32 bits, read as a signed number.
unfoldable pub c_int : ℤ → ℤ
c_int (pos n) = let m = n % 2 ^ 32 in if ltb m (2 ^ 31) then pos m else negsuc (2 ^ 32 - m - 1)
c_int (negsuc n) = let m = n % 2 ^ 32 in if ltb m (2 ^ 31) then negsuc m else pos (2 ^ 32 - m - 1)

-- `flag`
abbrev pub flag : Bool → ℤ
flag true = pos 1
flag false = pos 0

module _ (F : Floats) where
  -- `ID`
  pub record LocalId : Type 0 where
    pub parent : ℕ
    pub epoch : ℕ
    pub seq : ℕ
    pub t_write : F.Float

  -- `C.kouten_id`
  pub record CId : Type 0 where
    pub parent : ℕ
    pub epoch : ℕ
    pub seq : ℕ
    pub t_write : F.Float

  -- `ID.valid`
  abbrev pub is_valid : LocalId → Bool
  is_valid id = finite F id.t_write

  -- `toC` and `fromC`: the types of the fields have the same widths on both sides.
  unfoldable pub to_c : LocalId → CId
  to_c id = record { parent = id.parent; epoch = id.epoch; seq = id.seq; t_write = id.t_write }

  unfoldable pub from_c : CId → LocalId
  from_c id = record { parent = id.parent; epoch = id.epoch; seq = id.seq; t_write = id.t_write }

  -- `floats` of a vector are finite. A float32 is given by the float64 of the same value.
  unfoldable pub all_finite : List F.Float → Bool
  all_finite [] = true
  all_finite (v ∷ vs) = finite F v && all_finite vs

-- The arguments of `kouten_read_ring_json`.
pub record RingRequest : Type 0 where
  pub ring : Bytes
  pub filter : Bytes
  pub selection : Bytes
  pub limit : ℤ
  pub cursor : Bytes
  pub pagination : ℤ
  pub page : ℤ
  pub page_limit : ℤ
  pub sort : Bytes
  pub descending : ℤ

-- The C library. `Store` is what it holds for an open handle. A null pointer, and a status that is not
-- KOUTEN_OK, are `none` and `false`; a buffer is given by its bytes.
pub record Abi (F : Floats) : Type 1 where
  pub Store : Type 0
  pub abi_version : ℤ
  pub open_memory : ℤ → Option Store
  pub open_dir_options : ℤ → Bytes → ℤ → ℤ → Option Store
  pub put_vec_codec : Bytes → Bytes → ℤ → List F.Float → Store → Option (CId F) × Store
  pub exists : CId F → Store → ℤ × Store
  pub get_codec : CId F → Store → (Option Bytes × ℤ) × Store
  pub query : CId F → Bytes → Store → Option Bytes × Store
  pub update_codec : CId F → Bytes → ℤ → Store → Bool × Store
  pub remove : CId F → Store → Bool × Store
  pub read_ring_json : RingRequest → Store → Option Bytes × Store
