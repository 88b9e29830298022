-- ===== src/Tests/Text.antt =====
-- Numbers, identities and header lines.
use koutendb_go.Common.{◌≡◌, ◌↔◌, ◌^◌, refl, true, Bytes, codes, arith, ◌<◌, ◌≤◌}
use koutendb_go.Errors.{sentinel, protocol, input}
use koutendb_go.Result.{ok, err}
use koutendb_go.Decimal.{decimal, parse_uint, scan}
use koutendb_go.Strings.{split}
use koutendb_go.Uint.{uint_field, bounded}
use koutendb_go.Uint.Laws.{uint_field_iff, bounded_iff}
use koutendb_go.Identity.{
  RecordId, valid, to_string, parse_fields, parse_id, marshal_text, unmarshal_text, IsInRange,
}
use koutendb_go.Identity.Accepts.{unmarshal_text_failed}
use koutendb_go.Identity.RoundTrip.{
  parse_id-to_string, parse_id_stable, unmarshal_text-marshal_text,
}
use koutendb_go.Tests.Doubles.{floats, floats-IsLawful}

uint_field_iff_example :
    (uint_field (codes "42") 8 ≡ ok 42) ↔ ((codes "42" ≡ decimal 42) × (42 < 2 ^ 8))
uint_field_iff_example = uint_field_iff (codes "42") 8 42

bounded_iff_example : (bounded (codes "42") 64 ≡ ok 42) ↔ ((codes "42" ≡ decimal 42) × (42 ≤ 64))
bounded_iff_example = bounded_iff (codes "42") 64 42 (omega arith)

-- Leading zeros, signs and numbers beyond the bits are refused.
uint_field_refuses :
    (uint_field (codes "042") 8 ≡ err (sentinel protocol))
    × (uint_field (codes "+42") 8 ≡ err (sentinel protocol))
    × (uint_field (codes "256") 8 ≡ err (sentinel protocol))
unfolding uint_field parse_uint scan
uint_field_refuses = (refl, refl, refl)

abbrev some_id : RecordId floats
some_id = record { parent = 7; epoch = 1; seq = 2; t_write = 5; period = 9; head = 0 }

some_id-IsInRange : IsInRange floats some_id
some_id-IsInRange = record {
  parent_range = omega arith;
  epoch_range = omega arith;
  seq_range = omega arith;
}

abbrev some_text : Bytes
some_text = codes "7:1:2:5:9:0"

parse_id-to_string_example : parse_id floats (to_string floats some_id) ≡ ok some_id
unfolding valid
parse_id-to_string_example =
    parse_id-to_string floats floats-IsLawful some_id refl some_id-IsInRange

parse_id_stable_example :
    (valid floats some_id ≡ true)
    × IsInRange floats some_id
    × (parse_id floats (to_string floats some_id) ≡ ok some_id)
unfolding parse_id parse_fields valid uint_field parse_uint scan split
parse_id_stable_example = parse_id_stable floats floats-IsLawful some_text some_id refl

unmarshal_text-marshal_text_example : unmarshal_text floats some_id some_text ≡ (ok tt, some_id)
unfolding marshal_text to_string valid decimal
unmarshal_text-marshal_text_example =
    unmarshal_text-marshal_text floats floats-IsLawful some_id some_id {b = some_text}
      some_id-IsInRange refl

unmarshal_text_failed_example :
    unmarshal_text floats some_id (codes "7:1") ≡ (err (sentinel input), some_id)
unfolding unmarshal_text parse_id parse_fields split
unmarshal_text_failed_example =
    unmarshal_text_failed floats some_id (codes "7:1") (sentinel input) refl
