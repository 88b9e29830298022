-- ===== src/Identity/RoundTrip.antt =====
-- The text form of an identity is read back, and what is read prints to a text that reads the same.
use koutendb_go.Common.{
  ℕ, ◌%◌, ◌^◌, ◌≡◌, inl, inr, Bool-cases, true, false, [], ◌∷◌, Bytes, arith, All, some,
}
use koutendb_go.Result.{ok}
use koutendb_go.Decimal.{decimal, IsDigit}
use koutendb_go.Decimal.RoundTrip.{decimal-IsDigit}
use koutendb_go.Strings.{split, Lacks}
use koutendb_go.Strings.Laws.{split-append, split_one}
use koutendb_go.Uint.Laws.{uint_field-decimal}
use koutendb_go.Floats
use koutendb_go.Floats.{Floats, IsNumberByte}
use koutendb_go.Identity.{
  RecordId, finite, valid, to_string, parse_fields, parse_id, IsInRange, marshal_text,
  unmarshal_text,
}
use koutendb_go.Identity.Accepts.{parse_fields_sound}

digits-Lacks_colon : (s : Bytes) → All IsDigit s → Lacks b':' s
digits-Lacks_colon [] _ = tt
digits-Lacks_colon (c ∷ s) (hc, hs) = (omega arith, digits-Lacks_colon s hs)

number-Lacks_colon : (s : Bytes) → All IsNumberByte s → Lacks b':' s
number-Lacks_colon [] _ = tt
number-Lacks_colon (c ∷ s) (hc, hs) = (omega arith, number-Lacks_colon s hs)

pub decimal-Lacks_colon : (n : ℕ) → Lacks b':' (decimal n)
decimal-Lacks_colon n = digits-Lacks_colon (decimal n) (decimal-IsDigit n)

module _ (F : Floats) (L : Floats.IsLawful F) where
  finite_tests : (f : F.Float) → finite F f ≡ true → (F.is_nan f ≡ false) × (F.is_inf f ≡ false)
  finite_tests f h = ground arith

  format-Lacks_colon : (f : F.Float) → finite F f ≡ true → Lacks b':' (F.format_float f)
  format-Lacks_colon f h =
      let (nan, inf) = finite_tests f h in number-Lacks_colon _ (L.format-IsNumberByte f nan inf)

  parse-format_finite :
      (f : F.Float) → finite F f ≡ true → F.parse_float (F.format_float f) ≡ some f
  parse-format_finite f h = let (nan, inf) = finite_tests f h in L.parse-format f nan inf

  -- The three finite fields of a valid identity.
  valid_fields :
      (id : RecordId F)
      → valid F id ≡ true
      → (finite F id.t_write ≡ true) × (finite F id.period ≡ true) × (finite F id.head ≡ true)
  unfolding valid
  valid_fields id h = ground arith

  -- The text splits into the six printed fields.
  pub split-to_string :
      (id : RecordId F)
      → valid F id ≡ true
      → split b':' (to_string F id)
        ≡ decimal id.parent
          ∷ decimal id.epoch
          ∷ decimal id.seq
          ∷ F.format_float id.t_write
          ∷ F.format_float id.period
          ∷ F.format_float id.head
          ∷ []
  unfolding to_string
  split-to_string id h =
      let (t, p, d) = valid_fields id h in
      rw (
        split-append b':' (decimal id.parent) _ (decimal-Lacks_colon id.parent),
        split-append b':' (decimal id.epoch) _ (decimal-Lacks_colon id.epoch),
        split-append b':' (decimal id.seq) _ (decimal-Lacks_colon id.seq),
        split-append b':' (F.format_float id.t_write) _ (format-Lacks_colon id.t_write t),
        split-append b':' (F.format_float id.period) _ (format-Lacks_colon id.period p),
        split_one b':' (F.format_float id.head) (format-Lacks_colon id.head d),
      )

  -- The printed fields are parsed to the identity.
  pub parse_fields_printed :
      (id : RecordId F)
      → valid F id ≡ true
      → IsInRange F id
      → parse_fields F (split b':' (to_string F id)) ≡ ok id
  unfolding parse_fields
  parse_fields_printed id h r =
      let (t, p, d) = valid_fields id h in
      let small : (id.epoch % 2 ^ 32 ≡ id.epoch) × (id.seq % 2 ^ 32 ≡ id.seq) =
        (omega arith, omega arith) in
      rw (
        split-to_string id h,
        uint_field-decimal 64 id.parent r.parent_range,
        uint_field-decimal 32 id.epoch r.epoch_range,
        uint_field-decimal 32 id.seq r.seq_range,
        parse-format_finite id.t_write t,
        parse-format_finite id.period p,
        parse-format_finite id.head d,
        small.0,
        small.1,
        h,
      )

  -- The text form of a valid identity in range is parsed back to it, for lawful floats.
  pub parse_id-to_string :
      (id : RecordId F) → valid F id ≡ true → IsInRange F id → parse_id F (to_string F id) ≡ ok id
  unfolding parse_id
  parse_id-to_string id h r = rw (parse_fields_printed id h r, parse_id)

  -- What ParseID accepts is a valid identity in range, and the text form of that identity is parsed to
  -- it again, for lawful floats.
  pub parse_id_stable :
      (s : Bytes) (id : RecordId F)
      → parse_id F s ≡ ok id
      → (valid F id ≡ true) × IsInRange F id × (parse_id F (to_string F id) ≡ ok id)
  parse_id_stable s id h =
      let (good, range) =
        parse_fields_sound F (split b':' s) id (unfold parse_id in ground arith) in
      (good, range, parse_id-to_string id good range)

  -- What MarshalText writes for an identity in range, UnmarshalText reads back into any receiver, for
  -- lawful floats.
  pub unmarshal_text-marshal_text :
      (id old : RecordId F) {b : Bytes}
      → IsInRange F id
      → marshal_text F id ≡ ok b
      → unmarshal_text F old b ≡ (ok tt, id)
  unfolding unmarshal_text marshal_text
  unmarshal_text-marshal_text id old {b} r h = elim (Bool-cases (valid F id)) [
    | inl good ↦ rw (← printed good, parse_id-to_string id good r, unmarshal_text)
    | inr bad ↦ cc (rw bad at h)
  ]
    where
      printed : valid F id ≡ true → to_string F id ≡ b
      printed good = cc (rw good at h)
