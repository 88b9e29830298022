-- ===== src/Embedded/Service.antt =====
-- What the operations of an open database answer, and what they leave.
use koutendb_go.Common.{
  ltb, ◌≡◌, refl, inl, inr, true, false, List, Option, some, Bytes, length, arith, Bool-cases,
  if◌then◌else◌,
}
use koutendb_go.Common.Int.{ℤ}
use koutendb_go.Result.{Result, ok, err, ◌>>=◌, continue, lift}
use koutendb_go.Floats.{Floats}
use koutendb_go.Json.{Json}
use koutendb_go.Codec.{Codec}
use koutendb_go.Embedded.Memory.{max_bytes, abi_error}
use koutendb_go.Embedded.Abi.{Abi, LocalId, is_valid, is_text, codec_number}
use koutendb_go.Embedded.Handle.{Db, call}
use koutendb_go.Embedded.Records.{
  is_storable, put_vec, get, query, update, remove, put_job, get_job, query_job, update_job,
  remove_job,
}
use koutendb_go.Embedded.Rings.{
  RingOptions, is_readable, all_texts, ring_fields, if_json, read_ring_job, read_ring,
}
use koutendb_go.Embedded.Rings.Laws.{read_ring_job-Refines}
use koutendb_go.Embedded.Contract.{
  put_contract, get_contract, query_contract, update_contract, remove_contract, read_ring_contract,
  Serves, IsOpen,
}
use koutendb_go.Embedded.Refinement.{
  put_job-Refines, get_job-Refines, query_job-Refines, update_job-Refines, remove_job-Refines,
  call-Serves,
}

module _ {F : Floats} (B : Abi F) where
  pub storable_ring :
      (ring content : Bytes) (vector : List F.Float)
      → is_storable B ring content vector ≡ true
      → is_text ring ≡ true
  unfolding is_storable
  storable_ring ring content vector h = ground arith

  pub storable_fits :
      (ring content : Bytes) (vector : List F.Float)
      → is_storable B ring content vector ≡ true
      → ltb max_bytes (length content) ≡ false
  unfolding is_storable
  storable_fits ring content vector h = ground arith

  -- Another result on the same database.
  Serves-as :
      {A D : Type 0} (db : Db B) (f : Result A × B.Store) (r : Result A × Option (Db B))
      (serves : Serves B db f r) (d : Result D)
      → Serves B db (d, f.1) (d, some (record db { world = serves.after }))
  Serves-as db f r serves d = record {
    after = serves.after;
    answer = refl;
    sees = serves.sees;
    same_strings = serves.same_strings;
    same_buffers = serves.same_buffers;
  }

  module _ (db : Db B) (s : B.Store) (is_open : IsOpen B db s) where
    pub put_vec-Serves :
        (ring content : Bytes) (encoding : Codec) (c : ℤ) (vector : List F.Float)
        → codec_number encoding ≡ some c
        → is_storable B ring content vector ≡ true
        → Serves B db
            (put_contract B ring content c vector s)
            (put_vec B ring content encoding vector (some db))
    unfolding put_vec
    put_vec-Serves ring content encoding c vector known storable =
        rw (known, storable)
          (call-Serves B (put_job B ring content c vector) (put_contract B ring content c vector) db
            s (put_job-Refines B ring content c vector (storable_ring ring content vector storable))
            is_open)

    pub get-Serves :
        (id : LocalId F)
        → is_valid F id ≡ true
        → Serves B db (get_contract B id s) (get B id (some db))
    unfolding get
    get-Serves id valid =
        rw valid
          (call-Serves B (get_job B id) (get_contract B id) db s (get_job-Refines B id) is_open)

    pub query-Serves :
        (id : LocalId F) (selection : Bytes)
        → is_valid F id ≡ true
        → is_text selection ≡ true
        → Serves B db (query_contract B id selection s) (query B id selection (some db))
    unfolding query
    query-Serves id selection valid whole =
        rw (valid, whole)
          (call-Serves B (query_job B id selection) (query_contract B id selection) db s
            (query_job-Refines B id selection whole) is_open)

    pub update-Serves :
        (id : LocalId F) (content : Bytes) (encoding : Codec) (c : ℤ)
        → codec_number encoding ≡ some c
        → is_valid F id ≡ true
        → ltb max_bytes (length content) ≡ false
        → Serves B db (update_contract B id content c s) (update B id content encoding (some db))
    unfolding update
    update-Serves id content encoding c known valid fits =
        rw (known, valid, fits)
          (call-Serves B (update_job B id content c) (update_contract B id content c) db s
            (update_job-Refines B id content c) is_open)

    pub remove-Serves :
        (id : LocalId F)
        → is_valid F id ≡ true
        → Serves B db (remove_contract B id s) (remove B id (some db))
    unfolding remove
    remove-Serves id valid = rw valid (
        call-Serves B (remove_job B id) (remove_contract B id) db s (remove_job-Refines B id)
          is_open)

module _ {F : Floats} (J : Json) (B : Abi F) where
  abbrev pub checked_json : Bytes → Result Bytes
  checked_json b = if J.is_valid b then ok b else err abi_error

  pub readable_texts :
      (ring : Bytes) (o : RingOptions)
      → is_readable J B ring o ≡ true
      → all_texts (ring_fields ring o) ≡ true
  unfolding is_readable
  readable_texts ring o h = ground arith

  json_Serves :
      (db : Db B) (f : Result Bytes × B.Store) (r : Result Bytes × Option (Db B))
      → Serves B db f r
      → Serves B db (continue (λ b. lift (checked_json b)) f) (continue (if_json J B) r)
  json_Serves db (ok b, s) r serves = elim (Bool-cases (J.is_valid b)) [
    | inl good ↦ rw (serves.answer, good) (Serves-as B db (ok b, s) r serves (ok b))
    | inr bad ↦ rw (serves.answer, bad) (Serves-as B db (ok b, s) r serves (err abi_error))
  ]
  json_Serves db (err e, s) r serves = rw serves.answer (Serves-as B db (err e, s) r serves (err e))

  module _ (db : Db B) (s : B.Store) (is_open : IsOpen B db s) where
    read_ring-Serves :
        (ring : Bytes) (o : RingOptions)
        → is_readable J B ring o ≡ true
        → Serves B db
            ((read_ring_contract B J ring o >>= λ b. lift (checked_json b)) s)
            (read_ring J B ring o (some db))
    unfolding read_ring
    read_ring-Serves ring o readable = rw readable (
        json_Serves db (read_ring_contract B J ring o s)
          (call B (read_ring_job J B ring o) (some db))
          (call-Serves B (read_ring_job J B ring o) (read_ring_contract B J ring o) db s
            (read_ring_job-Refines J B ring o (readable_texts ring o readable)) is_open))

    -- On an open embedded database and arguments that pass their tests, PutVec, Get, Query, Update,
    -- Remove and ReadRing return exactly what their contracts over the store of the library say,
    -- without pointers and buffers, leave the database open on the store of the contract, and have
    -- given back every C string and buffer.
    pub operations_serve :
        (ring content : Bytes) (encoding : Codec) (c : ℤ) (vector : List F.Float) (id : LocalId F)
        (selection : Bytes) (o : RingOptions)
        → codec_number encoding ≡ some c
        → is_storable B ring content vector ≡ true
        → is_valid F id ≡ true
        → is_text selection ≡ true
        → is_readable J B ring o ≡ true
        → Serves B db
            (put_contract B ring content c vector s)
            (put_vec B ring content encoding vector (some db))
          × Serves B db (get_contract B id s) (get B id (some db))
          × Serves B db (query_contract B id selection s) (query B id selection (some db))
          × Serves B db (update_contract B id content c s) (update B id content encoding (some db))
          × Serves B db (remove_contract B id s) (remove B id (some db))
          × Serves B db
              ((read_ring_contract B J ring o >>= λ b. lift (checked_json b)) s)
              (read_ring J B ring o (some db))
    operations_serve ring content encoding c vector id selection o known storable valid whole
          readable =
        (
          put_vec-Serves B db s is_open ring content encoding c vector known storable,
          get-Serves B db s is_open id valid,
          query-Serves B db s is_open id selection valid whole,
          update-Serves B db s is_open id content encoding c known valid
              (storable_fits B ring content vector storable),
          remove-Serves B db s is_open id valid,
          read_ring-Serves ring o readable,
        )
