-- ===== src/Identity/Accepts.antt =====
-- id.go: what `parseFields`, `ParseID` and `UnmarshalText` accept, and their errors.
use koutendb_go.Common.{
  ◌<◌, ◌^◌, ◌≡◌, refl, inl, inr, Bool-cases, true, List, [], ◌∷◌, Bytes, if◌then◌else◌, arith,
}
use koutendb_go.Errors.{Failure, sentinel, protocol, input}
use koutendb_go.Result.{
  ok, err, or_err, and_then-eq-ok, FailsWith, and_then-FailsWith, or_err-FailsWith,
}
use koutendb_go.Uint.{uint_field}
use koutendb_go.Uint.Laws.{uint_field_iff, uint_field-FailsWith}
use koutendb_go.Floats.{Floats}
use koutendb_go.Identity.{RecordId, valid, parse_fields, parse_id, IsInRange, unmarshal_text}

module _ (F : Floats) where
  -- The last test of the parser.
  check_sound :
      (id id' : RecordId F)
      → (id.parent < 2 ^ 64) × (id.epoch < 2 ^ 32) × (id.seq < 2 ^ 32)
      → (if valid F id then ok id else err (sentinel protocol)) ≡ ok id'
      → (valid F id' ≡ true) × IsInRange F id'
  check_sound id id' (p, e, s) h = elim (Bool-cases (valid F id)) [
    | inl good ↦
        let same : id ≡ id' = cc (rw good at h) in
        rw (← same) (good, record { parent_range = p; epoch_range = e; seq_range = s })
    | inr bad ↦ cc (rw bad at h)
  ]

  -- What the parser of six fields accepts is valid and in range.
  pub parse_fields_sound :
      (p : List Bytes) (id : RecordId F)
      → parse_fields F p ≡ ok id
      → (valid F id ≡ true) × IsInRange F id
  unfolding parse_fields
  parse_fields_sound (p0 ∷ p1 ∷ p2 ∷ p3 ∷ p4 ∷ p5 ∷ []) id h =
      let (a, ea, ha) = and_then-eq-ok (uint_field p0 64) _ h in
      let (b, eb, hb) = and_then-eq-ok (uint_field p1 32) _ ha in
      let (c, ec, hc) = and_then-eq-ok (uint_field p2 32) _ hb in
      let (t, et, ht) = and_then-eq-ok (or_err (F.parse_float p3) _) _ hc in
      let (period, ep, hp) = and_then-eq-ok (or_err (F.parse_float p4) _) _ ht in
      let (head, eh, hh) = and_then-eq-ok (or_err (F.parse_float p5) _) _ hp in
      check_sound _ id (((uint_field_iff p0 64 a).0 ea).1, omega arith, omega arith) hh
  parse_fields_sound _ id h = cc

  pub parse_fields-FailsWith : (p : List Bytes) → FailsWith (sentinel protocol) (parse_fields F p)
  unfolding parse_fields
  parse_fields-FailsWith (p0 ∷ p1 ∷ p2 ∷ p3 ∷ p4 ∷ p5 ∷ []) =
      let e = sentinel protocol in
      and_then-FailsWith e _ _ (uint_field-FailsWith p0 64) λ a.
        and_then-FailsWith e _ _ (uint_field-FailsWith p1 32) λ b.
          and_then-FailsWith e _ _ (uint_field-FailsWith p2 32) λ c.
            and_then-FailsWith e _ _ (or_err-FailsWith e (F.parse_float p3)) λ t.
              and_then-FailsWith e _ _ (or_err-FailsWith e (F.parse_float p4)) λ period.
                and_then-FailsWith e _ _ (or_err-FailsWith e (F.parse_float p5))
                  λ head. ground arith
  parse_fields-FailsWith _ = refl

  -- Every error of ParseID is ErrInvalidInput.
  pub parse_id-FailsWith : (s : Bytes) → FailsWith (sentinel input) (parse_id F s)
  unfolding parse_id
  parse_id-FailsWith s = ground arith

  -- An UnmarshalText that fails ends in ErrInvalidInput and leaves its receiver as it was.
  pub unmarshal_text_failed :
      (old : RecordId F) (b : Bytes) (e : Failure)
      → (unmarshal_text F old b).0 ≡ err e
      → unmarshal_text F old b ≡ (err (sentinel input), old)
  unfolding unmarshal_text
  unmarshal_text_failed old b e h = ground (arith, parse_id-FailsWith b)
