-- ===== src/Identity.antt =====
-- id.go: the six-field identity, its text form and its parser, over an abstract float64.
pub mod Accepts
pub mod RoundTrip
use koutendb_go.Common.{
  ℕ, ◌<◌, ◌≤◌, ◌%◌, ◌^◌, ◌≡◌, Bool, true, false, ◌&&◌, not, List, [], ◌∷◌, ◌++◌, Bytes,
  if◌then◌else◌,
}
use koutendb_go.Errors.{Failure, sentinel, protocol, input}
use koutendb_go.Result.{Result, ok, err, or_err, and_then}
use koutendb_go.Decimal.{decimal}
use koutendb_go.Strings.{split}
use koutendb_go.Uint.{uint_field}
use koutendb_go.Floats.{Floats}

module _ (F : Floats) where
  -- `ID`
  pub record RecordId : Type 0 where
    pub parent : ℕ
    pub epoch : ℕ
    pub seq : ℕ
    pub t_write : F.Float
    pub period : F.Float
    pub head : F.Float

  abbrev pub finite : F.Float → Bool
  finite f = not (F.is_nan f) && not (F.is_inf f)

  -- `ID.valid`
  unfoldable pub valid : RecordId → Bool
  valid id = finite id.t_write && finite id.period && F.is_positive id.period && finite id.head

  -- `ID.String`
  unfoldable pub to_string : RecordId → Bytes
  to_string id =
      decimal id.parent
      ++ (b':'
          ∷ (decimal id.epoch
              ++ (b':'
                  ∷ (decimal id.seq
                      ++ (b':'
                          ∷ (F.format_float id.t_write
                              ++ (b':'
                                  ∷ (F.format_float id.period
                                      ++ (b':' ∷ F.format_float id.head)))))))))

  -- `parseFields`. Every error on the way is ErrProtocol, so the first one stands for all.
  unfoldable pub parse_fields : List Bytes → Result RecordId
  unfolding valid
  parse_fields (p0 ∷ p1 ∷ p2 ∷ p3 ∷ p4 ∷ p5 ∷ []) = and_then (uint_field p0 64) λ a.
      and_then (uint_field p1 32) λ b. and_then (uint_field p2 32) λ c.
        and_then (or_err (F.parse_float p3) (sentinel protocol)) λ t.
          and_then (or_err (F.parse_float p4) (sentinel protocol)) λ period.
            and_then (or_err (F.parse_float p5) (sentinel protocol)) λ head.
              let id : RecordId = record {
                parent = a;
                epoch = b % 2 ^ 32;
                seq = c % 2 ^ 32;
                t_write = t;
                period = period;
                head = head;
              } in
              if valid id then ok id else err (sentinel protocol)
  parse_fields _ = err (sentinel protocol)

  -- `ParseID`
  unfoldable pub parse_id : Bytes → Result RecordId
  unfolding parse_fields
  parse_id s = elim (parse_fields (split b':' s)) [ ok id ↦ ok id | err _ ↦ err (sentinel input) ]

  -- `ID.MarshalText`
  unfoldable pub marshal_text : RecordId → Result Bytes
  marshal_text id = if not (valid id) then err (sentinel input) else ok (to_string id)

  -- `(*ID).UnmarshalText`: the new value of the receiver, and the error.
  unfoldable pub unmarshal_text : RecordId → Bytes → Result (Unit {0}) × RecordId
  unmarshal_text id b = elim (parse_id b) [ ok n ↦ (ok tt, n) | err e ↦ (err e, id) ]

  -- The ranges of the fields' types, uint64 and uint32.
  pub record IsInRange (id : RecordId) : Type 0 where
    pub parent_range : id.parent < 2 ^ 64
    pub epoch_range : id.epoch < 2 ^ 32
    pub seq_range : id.seq < 2 ^ 32
