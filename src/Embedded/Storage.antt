-- ===== src/Embedded/Storage.antt =====
-- What `Get` answers after the operations that write.
use koutendb_go.Common.{
  ltb, ◌≡◌, ◌≢◌, refl, sym, ap, ◌∙◌, true, false, List, [], none, some, Bytes, length, str_eq,
}
use koutendb_go.Common.Int.{ℤ}
use koutendb_go.Result.{ok, err, ◌>>=◌, lift}
use koutendb_go.Floats.{Floats}
use koutendb_go.Json.{Json, decoded}
use koutendb_go.Embedded.Json.{unmarshalled, decode_payload, put_marshalled, put_json, get_json}
use koutendb_go.Codec
use koutendb_go.Codec.{Codec, Payload}
use koutendb_go.Embedded.Memory.{max_bytes, not_found}
use koutendb_go.Embedded.Memory.Laws.{copy}
use koutendb_go.Embedded.Abi.{Abi, LocalId, is_valid, is_text, codec_number, to_c}
use koutendb_go.Embedded.Handle.{Db}
use koutendb_go.Embedded.Records.{put_vec, put_codec, get, update, query, remove}
use koutendb_go.Embedded.Contract.{
  ask, done, put_contract, update_contract, remove_contract, IsOpen,
}
use koutendb_go.Embedded.Service.{
  put_vec-Serves, update-Serves, query-Serves, remove-Serves, storable_fits,
}
use koutendb_go.Embedded.Library.{LawfulAbi, read_back}
use koutendb_go.Embedded.Changes.{
  Changes, put-Changes, update-Changes, remove-Changes, absent_fails,
}
use koutendb_go.Embedded.Answers.{
  put_vec-accepted, Serves-eq-ok, get_valid, Changes-Answers, read_back-small, update-accepted,
  remove-accepted, Answers,
}

module _ {F : Floats} (B : Abi F) (L : LawfulAbi B) where
  module _ (db db' : Db B) (s : B.Store) (is_open : IsOpen B db s) where
    -- What a write that succeeds has done to the map.
    put_vec-Changes :
        (ring content : Bytes) (encoding : Codec) (vector : List F.Float) (id : LocalId F)
        → put_vec B ring content encoding vector (some db) ≡ (ok id, some db')
        → (s' : B.Store) × (c : ℤ) × IsOpen B db' s'
          × (is_valid F id ≡ true)
          × (L.lookup (to_c F id) s ≡ none)
          × Changes B L (to_c F id) (some (content, c)) s s'
          × (read_back (some (content, c))
              ≡ ok (some (record { content = content; codec = encoding })))
    put_vec-Changes ring content encoding vector id h =
        let (c, known, storable) =
          put_vec-accepted B L ring content encoding vector db id (ap (λ x. x.0) h) in
        let (said, after) =
          Serves-eq-ok B L db db' id (put_contract B ring content c vector s) _ is_open.not_closed
            (put_vec-Serves B db s is_open ring content encoding c vector known storable) h in
        let (valid, fresh, changes) = put-Changes B L ring content c vector id s said in
        (
          (put_contract B ring content c vector s).1,
          c,
          after,
          valid,
          fresh,
          changes,
          read_back-small B L content encoding c known
              (storable_fits B ring content vector storable),
        )

    -- On an open database over a library that keeps a map of records: when PutVec has succeeded, there
    -- was no record at the identity that it returns, Get there answers the content and codec that were
    -- put, and Get of another identity answers what it did before.
    pub get-put_vec :
        (ring content : Bytes) (encoding : Codec) (vector : List F.Float) (id other : LocalId F)
        → put_vec B ring content encoding vector (some db) ≡ (ok id, some db')
        → other ≢ id
        → ((get B id (some db)).0 ≡ ok none)
          × Answers B L id other (some (record { content = content; codec = encoding })) db db'
    get-put_vec ring content encoding vector id other h differs =
        let (s', c, after, valid, fresh, changes, back) =
          put_vec-Changes ring content encoding vector id h in
        (
          get_valid B L db s id is_open valid ∙ ap read_back fresh,
          Changes-Answers B L id other (some (content, c)) _ db db' s s' is_open after valid changes
              back differs,
        )

    -- On an open database over a library that keeps a map of records: when PutJSON of a value has
    -- succeeded, GetJSON at its identity reports a record without an error, with the target that
    -- json.Unmarshal makes of the marshalled value, if it can be unmarshalled.
    pub get_json-put_json :
        (J : Json) (ring b : Bytes) (value : J.Value) (dst dst' : J.Target) (id : LocalId F)
        → put_json J B ring value (some db) ≡ (ok id, some db')
        → J.marshal value ≡ some b
        → J.unmarshal b dst ≡ (decoded, dst')
        → (get_json J B id dst (some db')).0 ≡ record { found = true; error = none; target = dst' }
    unfolding put_json put_codec get_json decode_payload str_eq
    get_json-put_json J ring b value dst dst' id h text parsed =
        let stored = ap (λ o. put_marshalled J B ring o (some db)) (sym text) ∙ h in
        let (s', c, after, valid, fresh, changes, back) =
          put_vec-Changes ring b Codec.json [] id stored in
        ap (λ r. decode_payload J r dst)
          (get_valid B L db' s' id after valid ∙ ap read_back changes.changed ∙ back)
        ∙ ap (unmarshalled J) parsed

    -- When Update has succeeded, Get of the identity answers the new content and codec, and Get of
    -- another identity answers what it did before.
    pub get-update :
        (id other : LocalId F) (content : Bytes) (encoding : Codec)
        → update B id content encoding (some db) ≡ (ok tt, some db')
        → other ≢ id
        → Answers B L id other (some (record { content = content; codec = encoding })) db db'
    get-update id other content encoding h differs =
        let (c, known, valid, fits) =
          update-accepted B L id content encoding db (ap (λ x. x.0) h) in
        let (said, after) =
          Serves-eq-ok B L db db' tt (update_contract B id content c s) _ is_open.not_closed
            (update-Serves B db s is_open id content encoding c known valid fits) h in
        let (held, changes) = update-Changes B L id content c s said in
        Changes-Answers B L id other (some (content, c)) _ db db' s _ is_open after valid changes
          (read_back-small B L content encoding c known fits) differs

    -- On an open database over a library that keeps a map of records: when Remove has succeeded, Get of
    -- the identity answers that there is no record, Get of another identity answers what it did before,
    -- and Remove, Update and Query of the identity, with arguments that pass their tests, are
    -- ErrNotFound.
    pub operations-remove :
        (id other : LocalId F) (content selection : Bytes) (encoding : Codec) (c : ℤ)
        → remove B id (some db) ≡ (ok tt, some db')
        → other ≢ id
        → codec_number encoding ≡ some c
        → ltb max_bytes (length content) ≡ false
        → is_text selection ≡ true
        → Answers B L id other none db db'
          × ((remove B id (some db')).0 ≡ err not_found)
          × ((update B id content encoding (some db')).0 ≡ err not_found)
          × ((query B id selection (some db')).0 ≡ err not_found)
    operations-remove id other content selection encoding c h differs known fits whole =
        let valid = remove-accepted B L id db (ap (λ x. x.0) h) in
        let (said, after) =
          Serves-eq-ok B L db db' tt (remove_contract B id s) _ is_open.not_closed
            (remove-Serves B db s is_open id valid) h in
        let (held, changes) = remove-Changes B L id s said in
        let s' = (remove_contract B id s).1 in
        (
          Changes-Answers B L id other none none db db' s _ is_open after valid changes refl
              differs,
          ap (λ x. x.0) (remove-Serves B db' s' after id valid).answer
              ∙ absent_fails B L id s' (λ _. ask B (B.remove (to_c F id)) >>= done B)
                  changes.changed,
          ap (λ x. x.0) (update-Serves B db' s' after id content encoding c known valid fits).answer
              ∙ absent_fails B L id s'
                  (λ _. ask B (B.update_codec (to_c F id) content c) >>= done B) changes.changed,
          ap (λ x. x.0) (query-Serves B db' s' after id selection valid whole).answer
              ∙ absent_fails B L id s'
                  (λ _. ask B (B.query (to_c F id) selection) >>= λ p. lift (copy p))
                  changes.changed,
        )
