-- ===== src/Tests/Embedded.antt =====
-- The embedded client, from its opening on, and its goroutines.
use koutendb_go.Common.{◌≡◌, ◌≢◌, refl, true, false, [], ◌∷◌, none, some, Bytes, codes, str_eq, ap}
use koutendb_go.Common.Int.{pos, ltb_ℤ, eqb_ℤ}
use koutendb_go.Result.{ok, err, ◌>>=◌, lift}
use koutendb_go.Strings.{contains}
use koutendb_go.Codec
use koutendb_go.Codec.{Payload}
use koutendb_go.Embedded.Memory.{
  World, find, remove as remove_at, until_nul, with_string, text_of, on_handle, not_found,
}
use koutendb_go.Embedded.Abi.{LocalId, is_text, codec_number, c_int, to_c, from_c, all_finite}
use koutendb_go.Embedded.Handle.{Db, OpenOptions, is_openable, open_worker, open_with_options, call}
use koutendb_go.Embedded.Records.{
  is_storable, put_job, put_vec, put_codec, require_record, get, remove_job, remove, query, update,
}
use koutendb_go.Embedded.Rings.{RingOptions, is_readable, read_ring}
use koutendb_go.Embedded.Json.{put_json, get_json}
use koutendb_go.Embedded.Contract.{
  IsOpen, IsFresh, Serves, put_contract, get_contract, query_contract, update_contract,
  remove_contract, read_ring_contract,
}
use koutendb_go.Embedded.Service.{checked_json, operations_serve}
use koutendb_go.Embedded.Answers.{Answers}
use koutendb_go.Embedded.Storage.{get-put_vec, get_json-put_json, operations-remove}
use koutendb_go.Embedded.History.{puts, gets, removes, closes, run, AllHealthy, history-IsHealthy}
use koutendb_go.Tests.Doubles.{floats}
use koutendb_go.Tests.Shelf.{Shelf, shelf, shelf-IsLawful, texts, at, fresh, held, without, same}

abbrev memory : OpenOptions
memory = record { nodes = pos 1; directory = []; strong_durability = false; disk_backed = false }

abbrev untouched : World Shelf
untouched = record {
  started = false;
  handle = none;
  strings = [];
  buffers = [];
  next = 0;
  sound = true;
}

untouched-IsFresh : IsFresh shelf untouched
untouched-IsFresh = record {
  defined = refl;
  no_strings = refl;
  no_buffers = refl;
  no_handle = refl;
}

abbrev world : Shelf → World Shelf
world s = record {
  started = true;
  handle = some s;
  strings = [];
  buffers = [];
  next = 0;
  sound = true;
}

abbrev db : Shelf → Db shelf
db s = record { closed = false; world = world s }

db-IsOpen : (s : Shelf) → IsOpen shelf (db s) s
db-IsOpen s = record {
  not_closed = refl;
  sees = record {
    running = refl;
    opened = refl;
    defined = refl;
    strings_below = tt;
    buffers_below = tt;
  };
}

abbrev first : LocalId floats
first = record { parent = 1; epoch = 2; seq = 0; t_write = 3 }

abbrev second : LocalId floats
second = record { parent = 1; epoch = 2; seq = 7; t_write = 3 }

second-first : second ≢ first
second-first e = let h = ap (λ (i : LocalId floats). i.seq) e in cc

abbrev ring : Bytes
ring = codes "users"

abbrev content : Bytes
content = codes "{}"

abbrev all : RingOptions
all = record {
  filter = [];
  selection = [];
  limit = pos 10;
  cursor = [];
  pagination = false;
  page = pos 0;
  page_limit = pos 0;
  sort = [];
  descending = false;
}

opens : (open_with_options shelf memory untouched).0 ≡ ok (db [])
unfolding open_with_options open_worker is_openable is_text contains ltb_ℤ eqb_ℤ c_int
opens = refl

history-IsHealthy_example : AllHealthy texts shelf (
    run texts shelf
      (puts ring content Codec.json [] ∷ gets first ∷ removes first ∷ closes ∷ gets first ∷ [])
      (some (db [])))
history-IsHealthy_example =
    history-IsHealthy texts shelf memory untouched (db [])
      (puts ring content Codec.json [] ∷ gets first ∷ removes first ∷ closes ∷ gets first ∷ [])
      untouched-IsFresh opens

json_number : codec_number Codec.json ≡ some (pos 1)
unfolding codec_number str_eq
json_number = refl

storable : is_storable shelf ring content [] ≡ true
unfolding is_storable is_text contains all_finite
storable = refl

whole : is_text content ≡ true
unfolding is_text contains
whole = refl

readable : is_readable texts shelf ring all ≡ true
unfolding is_readable is_text contains ltb_ℤ
readable = refl

operations_serve_example :
    Serves shelf
      (db [])
      (put_contract shelf ring content (pos 1) [] [])
      (put_vec shelf ring content Codec.json [] (some (db [])))
    × Serves shelf (db []) (get_contract shelf first []) (get shelf first (some (db [])))
    × Serves shelf
        (db [])
        (query_contract shelf first content [])
        (query shelf first content (some (db [])))
    × Serves shelf
        (db [])
        (update_contract shelf first content (pos 1) [])
        (update shelf first content Codec.json (some (db [])))
    × Serves shelf (db []) (remove_contract shelf first []) (remove shelf first (some (db [])))
    × Serves shelf
        (db [])
        ((read_ring_contract shelf texts ring all >>= λ b. lift (checked_json texts shelf b)) [])
        (read_ring texts shelf ring all (some (db [])))
operations_serve_example =
    operations_serve texts shelf (db []) [] (db-IsOpen []) ring content Codec.json (pos 1) [] first
      content all json_number storable refl whole readable

-- The record that `put_vec` and `put_json` make.
abbrev kept : Shelf
kept = (at 1 2 0 3, (content, pos 1)) ∷ []

abbrev after_put : Db shelf
after_put = record { closed = false; world = record (world kept) { next = 1 } }

puts_first : put_vec shelf ring content Codec.json [] (some (db [])) ≡ (ok first, some after_put)
unfolding put_vec codec_number str_eq is_storable is_text contains all_finite put_job call
    with_string text_of on_handle find remove_at until_nul from_c fresh
puts_first = refl

get-put_vec_example :
    ((get shelf first (some (db []))).0 ≡ ok none)
    × Answers shelf shelf-IsLawful first second
        (some (record { content = content; codec = Codec.json }))
        (db [])
        after_put
get-put_vec_example =
    get-put_vec shelf shelf-IsLawful (db []) after_put [] (db-IsOpen []) ring content Codec.json []
      first second puts_first second-first

puts_json : put_json texts shelf ring content (some (db [])) ≡ (ok first, some after_put)
unfolding put_json put_codec
puts_json = puts_first

get_json-put_json_example :
    (get_json texts shelf first [] (some after_put)).0
    ≡ record { found = true; error = none; target = content }
get_json-put_json_example =
    get_json-put_json shelf shelf-IsLawful (db []) after_put [] (db-IsOpen []) texts ring content
      content [] content first puts_json refl refl

removes_first : remove shelf first (some (db kept)) ≡ (ok tt, some (db []))
unfolding remove remove_job require_record call on_handle to_c held without same
removes_first = refl

operations-remove_example :
    Answers shelf shelf-IsLawful first second none (db kept) (db [])
    × ((remove shelf first (some (db []))).0 ≡ err not_found)
    × ((update shelf first content Codec.json (some (db []))).0 ≡ err not_found)
    × ((query shelf first content (some (db []))).0 ≡ err not_found)
operations-remove_example =
    operations-remove shelf shelf-IsLawful (db kept) (db []) kept (db-IsOpen kept) first second
      content content Codec.json (pos 1) removes_first second-first json_number refl whole
