-- ===== src/Embedded/Rings.antt =====
-- embedded/db.go: `ReadRing`.
pub mod Laws
use koutendb_go.Common.{
  ℕ, ◌==◌, ◌||◌, ◌&&◌, not, Bool, true, false, List, [], ◌∷◌, Option, none, some, Bytes, get_or,
  if◌then◌else◌,
}
use koutendb_go.Common.Int.{ℤ, pos, ltb_ℤ, eqb_ℤ}
use koutendb_go.Errors.{sentinel, input}
use koutendb_go.Result.{Result, ok, err, M, ◌>>=◌, continue}
use koutendb_go.Floats.{Floats}
use koutendb_go.Json.{Json}
use koutendb_go.Embedded.Memory.{
  World, abi_error, with_string, text_of, on_handle, buffer_of, buffer,
}
use koutendb_go.Embedded.Abi.{Abi, RingRequest, is_text, c_int, flag}
use koutendb_go.Embedded.Handle.{Db, call, is_empty}

-- `RingOptions`
pub record RingOptions : Type 0 where
  pub filter : Bytes
  pub selection : Bytes
  pub limit : ℤ
  pub cursor : Bytes
  pub pagination : Bool
  pub page : ℤ
  pub page_limit : ℤ
  pub sort : Bytes
  pub descending : Bool

-- From 0 to math.MaxInt32.
abbrev pub is_int32 : ℤ → Bool
is_int32 z = not (ltb_ℤ z (pos 0) || ltb_ℤ (pos 2147483647) z)

abbrev pub or_default : ℕ → ℤ → ℤ
or_default d z = if eqb_ℤ z (pos 0) then pos d else z

abbrev pub all_texts : List Bytes → Bool
all_texts [] = true
all_texts (s ∷ ss) = is_text s && all_texts ss

abbrev pub ring_fields : Bytes → RingOptions → List Bytes
ring_fields ring o = ring ∷ o.filter ∷ o.selection ∷ o.cursor ∷ o.sort ∷ []

-- The loop that makes the C strings, around the rest; they are freed in the reverse order.
unfoldable pub with_strings :
    {Store A : Type 0} → List Bytes → (List ℕ → M (World Store) A) → M (World Store) A
with_strings [] body = body []
with_strings (s ∷ ss) body = with_string s λ p. with_strings ss λ ps. body (p ∷ ps)

-- A C function reads the strings at the pointers.
unfoldable pub texts_of :
    {Store A : Type 0} → List ℕ → (List Bytes → M (World Store) A) → M (World Store) A
texts_of [] k = k []
texts_of (p ∷ ps) k = text_of p λ t. texts_of ps λ ts. k (t ∷ ts)

module _ {F : Floats} (J : Json) (B : Abi F) where
  -- The test of the arguments.
  unfoldable pub is_readable : Bytes → RingOptions → Bool
  is_readable ring o =
      not (is_empty ring)
      && is_int32 o.limit
      && is_int32 o.page
      && is_int32 o.page_limit
      && all_texts (ring_fields ring o)
      && (is_empty o.filter || J.is_object o.filter)

  abbrev pub request : RingOptions → List Bytes → RingRequest
  request o ts = record {
    ring = get_or ts 0 [];
    filter = get_or ts 1 [];
    selection = get_or ts 2 [];
    limit = c_int o.limit;
    cursor = get_or ts 3 [];
    pagination = flag o.pagination;
    page = c_int (or_default 1 o.page);
    page_limit = c_int (or_default 20 o.page_limit);
    sort = get_or ts 4 [];
    descending = flag o.descending;
  }

  unfoldable pub read_ring_job : Bytes → RingOptions → M (World B.Store) Bytes
  read_ring_job ring o = with_strings (ring_fields ring o) λ ps.
      ((texts_of ps λ ts. on_handle (B.read_ring_json (request o ts))) >>= λ p.
      buffer_of p >>= buffer)

  abbrev pub if_json : Bytes → M (Option (Db B)) Bytes
  if_json b h = if J.is_valid b then (ok b, h) else (err abi_error, h)

  -- `(*DB).ReadRing`
  unfoldable pub read_ring : Bytes → RingOptions → M (Option (Db B)) Bytes
  read_ring ring o h =
      if is_readable ring o
      then (call B (read_ring_job ring o) >>= if_json) h
      else (err (sentinel input), h)
