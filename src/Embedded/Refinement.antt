-- ===== src/Embedded/Refinement.antt =====
-- The operations on records, with their C strings and buffers, against what they ask of the library.
use koutendb_go.Common.{
  zero, suc, ◌≡◌, refl, ap, ◌∙◌, Bool, true, false, List, [], ◌∷◌, none, some, Bytes, arith,
}
use koutendb_go.Common.Int.{ℤ, pos, negsuc}
use koutendb_go.Result.{ok, err, M, ◌>>=◌, pure, fail, or_err}
use koutendb_go.Strings.{contains}
use koutendb_go.Floats.{Floats}
use koutendb_go.Embedded.Memory.{
  Heap, abi_error, not_found, until_nul, on_handle, buffer_of, buffer,
}
use koutendb_go.Embedded.Memory.Laws.{
  RefinesAt, Refines, Refines-result, Refines-bind, Refines-on_handle, Refines-text_of,
}
use koutendb_go.Embedded.Memory.Allocation.{Refines-with_text, Refines-buffer}
use koutendb_go.Embedded.Abi.{Abi, LocalId, is_text, codec_of, to_c, from_c}
use koutendb_go.Embedded.Handle.{Db, call, unless_closed}
use koutendb_go.Embedded.Records.{
  C, by_presence, require_record, put_job, fetch, get_job, query_job, or_abi_error, update_job,
  remove_job,
}
use koutendb_go.Embedded.Contract.{
  ask, required, put_contract, fetch_contract, get_contract, query_contract, done, update_contract,
  remove_contract, Serves, IsOpen,
}

until_nul_lacking : (s : Bytes) → contains s 0 ≡ false → until_nul s ≡ s
unfolding until_nul contains
until_nul_lacking [] h = refl
until_nul_lacking (b ∷ s) h = ground (arith, until_nul_lacking s)

pub until_nul-text : (s : Bytes) → is_text s ≡ true → until_nul s ≡ s
unfolding is_text
until_nul-text s h = until_nul_lacking s (ground arith)

module _ {F : Floats} (B : Abi F) where
  require_record-Refines :
      (ps : Heap) (id : LocalId F) → RefinesAt ps (require_record B id) (required B id)
  unfolding require_record
  require_record-Refines ps id =
      Refines-bind ps (on_handle (B.exists (to_c F id))) (ask B (B.exists (to_c F id))) _ _
        (Refines-on_handle ps (B.exists (to_c F id))) present
    where
      present :
          (answer : ℤ)
          → RefinesAt {Store = B.Store} ps
              (by_presence (fail not_found) (pure tt) (fail abi_error) answer)
              (by_presence (fail not_found) (pure tt) (fail abi_error) answer)
      present (pos zero) = Refines-result ps (err not_found)
      present (pos (suc zero)) = Refines-result ps (ok tt)
      present (pos (suc (suc n))) = Refines-result ps (err abi_error)
      present (negsuc n) = Refines-result ps (err abi_error)

  pub put_job-Refines :
      (ring content : Bytes) (c : ℤ) (vector : List F.Float)
      → is_text ring ≡ true
      → Refines (put_job B ring content c vector) (put_contract B ring content c vector)
  unfolding put_job
  put_job-Refines ring content c vector whole =
      Refines-with_text [] ring _ (put_contract B ring content c vector) (until_nul-text ring whole)
        λ r.
          let ps : Heap = (r, ring) ∷ [] in
          Refines-bind ps _ (ask B (B.put_vec_codec ring content c vector)) _ _
            (Refines-text_of ps r ring _ _ (λ w live. live.0)
              (Refines-on_handle ps (B.put_vec_codec ring content c vector)))
            λ out.
              Refines-bind ps _ _ _ _ (Refines-result ps (or_err out abi_error))
                λ id. Refines-result ps (ok (from_c F id))

  fetch-Refines : (ps : Heap) (id : LocalId F) → RefinesAt ps (fetch B id) (fetch_contract B id)
  fetch-Refines ps id =
      Refines-bind ps (on_handle (B.get_codec (to_c F id))) (ask B (B.get_codec (to_c F id))) _ _
        (Refines-on_handle ps (B.get_codec (to_c F id)))
        λ (p, c). Refines-bind ps (buffer_of p >>= buffer) _ _ _ (Refines-buffer ps p) λ b.
          Refines-bind ps _ _ _ _ (Refines-result ps (or_err (codec_of c) abi_error))
            λ encoding. Refines-result ps (ok (some (record { content = b; codec = encoding })))

  pub get_job-Refines : (id : LocalId F) → Refines (get_job B id) (get_contract B id)
  unfolding get_job
  get_job-Refines id =
      Refines-bind [] (on_handle (B.exists (to_c F id))) (ask B (B.exists (to_c F id))) _ _
        (Refines-on_handle [] (B.exists (to_c F id))) present
    where
      present :
          (answer : ℤ)
          → Refines {Store = B.Store}
              (by_presence (pure none) (fetch B id) (fail abi_error) answer)
              (by_presence (pure none) (fetch_contract B id) (fail abi_error) answer)
      present (pos zero) = Refines-result [] (ok none)
      present (pos (suc zero)) = fetch-Refines [] id
      present (pos (suc (suc n))) = Refines-result [] (err abi_error)
      present (negsuc n) = Refines-result [] (err abi_error)

  pub query_job-Refines :
      (id : LocalId F) (selection : Bytes)
      → is_text selection ≡ true
      → Refines (query_job B id selection) (query_contract B id selection)
  unfolding query_job
  query_job-Refines id selection whole =
      Refines-bind [] (require_record B id) (required B id) _ _ (require_record-Refines [] id) λ _.
        Refines-with_text [] selection _ _ (until_nul-text selection whole) λ r.
          let ps : Heap = (r, selection) ∷ [] in
          Refines-bind ps _ (ask B (B.query (to_c F id) selection)) _ _
            (Refines-text_of ps r selection _ _ (λ w live. live.0)
              (Refines-on_handle ps (B.query (to_c F id) selection)))
            λ p. Refines-buffer ps p

  or_abi_error-Refines : (ok' : Bool) → Refines (or_abi_error B ok') (done B ok')
  or_abi_error-Refines true = Refines-result [] (ok tt)
  or_abi_error-Refines false = Refines-result [] (err abi_error)

  pub update_job-Refines :
      (id : LocalId F) (content : Bytes) (c : ℤ)
      → Refines (update_job B id content c) (update_contract B id content c)
  unfolding update_job
  update_job-Refines id content c =
      Refines-bind [] (require_record B id) (required B id) _ _ (require_record-Refines [] id) λ _.
        Refines-bind [] (on_handle (B.update_codec (to_c F id) content c))
          (ask B (B.update_codec (to_c F id) content c)) _ _
          (Refines-on_handle [] (B.update_codec (to_c F id) content c)) or_abi_error-Refines

  pub remove_job-Refines : (id : LocalId F) → Refines (remove_job B id) (remove_contract B id)
  unfolding remove_job
  remove_job-Refines id =
      Refines-bind [] (require_record B id) (required B id) _ _ (require_record-Refines [] id) λ _.
        Refines-bind [] (on_handle (B.remove (to_c F id))) (ask B (B.remove (to_c F id))) _ _
          (Refines-on_handle [] (B.remove (to_c F id))) or_abi_error-Refines

  pub call-Serves :
      {A : Type 0} (m : C B A) (f : M B.Store A) (db : Db B) (s : B.Store)
      → Refines m f
      → IsOpen B db s
      → Serves B db (f s) (call B m (some db))
  unfolding call
  call-Serves m f db s refines is_open =
      let run = refines db.world s tt is_open.sees in
      record {
        after = (m db.world).1;
        answer =
            ap (λ (b : Bool). unless_closed B b m db) is_open.not_closed
            ∙ ap (λ a. (a, some (record db { world = (m db.world).1 }))) run.result;
        sees = run.sees;
        same_strings = run.same_strings;
        same_buffers = run.same_buffers;
      }
