-- ===== src/Embedded/Records.antt =====
-- embedded/db.go: the operations on a record.
use koutendb_go.Common.{
  zero, suc, ltb, ◌||◌, ◌&&◌, not, Bool, true, false, List, [], Option, none, some, Bytes, length,
  if◌then◌else◌,
}
use koutendb_go.Common.Int.{ℤ, pos, negsuc}
use koutendb_go.Errors.{sentinel, input}
use koutendb_go.Result.{err, M, ◌>>=◌, ◌>>◌, pure, fail, lift, or_err}
use koutendb_go.Floats.{Floats}
use koutendb_go.Codec
use koutendb_go.Codec.{Codec, Payload}
use koutendb_go.Embedded.Memory.{
  World, max_bytes, abi_error, not_found, with_string, text_of, on_handle, buffer_of, buffer,
}
use koutendb_go.Embedded.Abi.{
  Abi, LocalId, is_valid, is_text, codec_number, codec_of, to_c, from_c, all_finite,
}
use koutendb_go.Embedded.Handle.{Db, call, is_empty}

-- The switch on the answer of `kouten_exists`: 0, 1, and anything else.
abbrev pub by_presence : {A : Type 0} → A → A → A → ℤ → A
by_presence absent present failed (pos zero) = absent
by_presence absent present failed (pos (suc zero)) = present
by_presence absent present failed (pos (suc (suc n))) = failed
by_presence absent present failed (negsuc n) = failed

module _ {F : Floats} (B : Abi F) where
  abbrev pub C : Type 0 → Type 0
  C = M (World B.Store)

  abbrev pub Handle : Type 0
  Handle = Option (Db B)

  -- `requireRecord`
  unfoldable pub require_record : LocalId F → C (Unit {0})
  require_record id = do
    answer ← on_handle (B.exists (to_c F id))
    by_presence (fail not_found) (pure tt) (fail abi_error) answer

  unfoldable pub put_job : Bytes → Bytes → ℤ → List F.Float → C (LocalId F)
  put_job ring content c vector = with_string ring λ r. do
    out ← text_of r λ ring'. on_handle (B.put_vec_codec ring' content c vector)
    id ← lift (or_err out abi_error)
    pure (from_c F id)

  -- The test of the arguments of `PutVec`.
  unfoldable pub is_storable : Bytes → Bytes → List F.Float → Bool
  is_storable ring content vector = not (
      is_empty ring
      || not (is_text ring)
      || ltb max_bytes (length content)
      || ltb 1000000 (length vector)
      || not (all_finite F vector))

  abbrev pub put_checked : Option ℤ → Bool → Bytes → Bytes → List F.Float → M Handle (LocalId F)
  put_checked none valid ring content vector h = (err (sentinel input), h)
  put_checked (some c) false ring content vector h = (err (sentinel input), h)
  put_checked (some c) true ring content vector h = call B (put_job ring content c vector) h

  -- `(*DB).PutVec`
  unfoldable pub put_vec : Bytes → Bytes → Codec → List F.Float → M Handle (LocalId F)
  put_vec ring content encoding vector =
      put_checked (codec_number encoding) (is_storable ring content vector) ring content vector

  -- `(*DB).PutCodec` and `(*DB).Put`
  unfoldable pub put_codec : Bytes → Bytes → Codec → M Handle (LocalId F)
  put_codec ring content encoding = put_vec ring content encoding []

  unfoldable pub put : Bytes → Bytes → M Handle (LocalId F)
  put ring content = put_codec ring content Codec.raw

  abbrev pub fetch : LocalId F → C (Option Payload)
  fetch id = do
    (p, c) ← on_handle (B.get_codec (to_c F id))
    b ← (buffer_of p >>= buffer)
    encoding ← lift (or_err (codec_of c) abi_error)
    pure (some (record { content = b; codec = encoding }))

  unfoldable pub get_job : LocalId F → C (Option Payload)
  get_job id = do
    answer ← on_handle (B.exists (to_c F id))
    by_presence (pure none) (fetch id) (fail abi_error) answer

  -- `(*DB).Get`; no payload stands for a record that is not there.
  unfoldable pub get : LocalId F → M Handle (Option Payload)
  get id h = if not (is_valid F id) then (err (sentinel input), h) else call B (get_job id) h

  unfoldable pub query_job : LocalId F → Bytes → C Bytes
  query_job id selection =
      require_record id
      >> with_string selection λ s.
        ((text_of s λ selection'. on_handle (B.query (to_c F id) selection')) >>= λ p.
        buffer_of p >>= buffer)

  -- `(*DB).Query`
  unfoldable pub query : LocalId F → Bytes → M Handle Bytes
  query id selection h =
      if not (is_valid F id) || not (is_text selection)
      then (err (sentinel input), h)
      else call B (query_job id selection) h

  -- A status of the library.
  abbrev pub or_abi_error : Bool → C (Unit {0})
  or_abi_error true = pure tt
  or_abi_error false = fail abi_error

  unfoldable pub update_job : LocalId F → Bytes → ℤ → C (Unit {0})
  update_job id content c = do
    require_record id
    done ← on_handle (B.update_codec (to_c F id) content c)
    or_abi_error done

  abbrev pub update_checked : Option ℤ → Bool → LocalId F → Bytes → M Handle (Unit {0})
  update_checked none valid id content h = (err (sentinel input), h)
  update_checked (some c) false id content h = (err (sentinel input), h)
  update_checked (some c) true id content h = call B (update_job id content c) h

  -- `(*DB).Update`
  unfoldable pub update : LocalId F → Bytes → Codec → M Handle (Unit {0})
  update id content encoding =
      update_checked (codec_number encoding) (is_valid F id && not (ltb max_bytes (length content)))
        id content

  unfoldable pub remove_job : LocalId F → C (Unit {0})
  remove_job id = do require_record id; done ← on_handle (B.remove (to_c F id)); or_abi_error done

  -- `(*DB).Remove`
  unfoldable pub remove : LocalId F → M Handle (Unit {0})
  remove id h = if not (is_valid F id) then (err (sentinel input), h) else call B (remove_job id) h
