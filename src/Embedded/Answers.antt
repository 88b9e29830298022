-- ===== src/Embedded/Answers.antt =====
-- What `Get` answers, and what an operation that succeeds has asked of the library.
use koutendb_go.Common.{
  ltb, ◌≡◌, ◌≢◌, refl, sym, ap, ◌∙◌, ◌⊎◌, inl, inr, ◌&&◌, not, Bool, true, false, List, Option,
  none, some, Bytes, length, Bool-cases, if◌then◌else◌, str_eq, str_eq_sound,
}
use mathlib.Core.Path.{subst}
use koutendb_go.Common.Int.{ℤ, pos}
use koutendb_go.Errors.{Failure, sentinel, input}
use koutendb_go.Result.{Result, ok, err}
use koutendb_go.Floats.{Floats}
use koutendb_go.Codec
use koutendb_go.Codec.{Codec, Payload}
use koutendb_go.Embedded.Memory.{max_bytes}
use koutendb_go.Embedded.Abi.{Abi, LocalId, is_valid, codec_number, codec_of, to_c, from_c}
use koutendb_go.Embedded.Handle.{Db, call}
use koutendb_go.Embedded.Records.{
  is_storable, put_vec, put_checked, get, update, update_checked, remove, remove_job,
}
use koutendb_go.Embedded.Contract.{Serves, IsOpen}
use koutendb_go.Embedded.Service.{get-Serves}
use koutendb_go.Embedded.Library.{Stored, LawfulAbi, read_back, get-read_back}
use koutendb_go.Embedded.Changes.{Changes}

some_injective : {A : Type 0} {x y : A} → some x ≡ some y → x ≡ y
some_injective h = cc

err_not_ok : {A : Type 0} {e : Failure} {a : A} → err e ≡ ok a → ⊥
err_not_ok h = cc

-- One line of the switch.
codec_of-case :
    (c x : Codec) (k n : ℤ) (rest : Option ℤ)
    → codec_of k ≡ some x
    → (rest ≡ some n → codec_of n ≡ some c)
    → (if str_eq c x then some k else rest) ≡ some n
    → codec_of n ≡ some c
codec_of-case c x k n rest known later = go (str_eq c x) refl
  where
    go : (b : Bool) → str_eq c x ≡ b → (if b then some k else rest) ≡ some n → codec_of n ≡ some c
    go true e h = ap codec_of (sym (some_injective h)) ∙ known ∙ ap some (sym (str_eq_sound c x e))
    go false e h = later h

codec_of-number : (c : Codec) (n : ℤ) → codec_number c ≡ some n → codec_of n ≡ some c
unfolding codec_number codec_of
codec_of-number c n = codec_of-case c Codec.raw (pos 0) n _ refl (
    codec_of-case c Codec.json (pos 1) n _ refl (
      codec_of-case c Codec.nif (pos 2) n _ refl
        (codec_of-case c Codec.bif (pos 3) n none refl (λ h. cc))))

module _ {F : Floats} (B : Abi F) (L : LawfulAbi B) where
  to_c_injective : (a b : LocalId F) → to_c F a ≡ to_c F b → a ≡ b
  unfolding to_c from_c
  to_c_injective a b e = ap (from_c F) e

  -- `Get` of `id` answers `now` on the second database, and for the other identity what it answers on the
  -- first.
  pub record Answers (id other : LocalId F) (now : Option Payload) (db db' : Db B) : Type 0 where
    pub of_id : (get B id (some db')).0 ≡ ok now
    pub of_other : (get B other (some db')).0 ≡ (get B other (some db)).0

  pub get_valid :
      (db : Db B) (s : B.Store) (id : LocalId F)
      → IsOpen B db s
      → is_valid F id ≡ true
      → (get B id (some db)).0 ≡ read_back (L.lookup (to_c F id) s)
  get_valid db s id is_open valid =
      rw (get-Serves B db s is_open id valid).answer (get-read_back B L id s)

  -- What `Get` answers for `other`, from what the map has there.
  read_as :
      (other : LocalId F) (db : Db B) (s : B.Store)
      → IsOpen B db s
      → (get B other (some db)).0
        ≡ (if is_valid F other then read_back (L.lookup (to_c F other) s) else err (sentinel input))
  unfolding get
  read_as other db s is_open = go (Bool-cases (is_valid F other))
    where
      go :
          (is_valid F other ≡ true) ⊎ (is_valid F other ≡ false)
          → (get B other (some db)).0 ≡ (
              if is_valid F other
              then read_back (L.lookup (to_c F other) s)
              else err (sentinel input))
      go (inl valid) = get_valid db s other is_open valid ∙ rw valid refl
      go (inr bad) = rw bad refl

  pub Changes-Answers :
      (id other : LocalId F) (held : Option Stored) (now : Option Payload) (db db' : Db B)
      (s s' : B.Store)
      → IsOpen B db s
      → IsOpen B db' s'
      → is_valid F id ≡ true
      → Changes B L (to_c F id) held s s'
      → read_back held ≡ ok now
      → other ≢ id
      → Answers id other now db db'
  Changes-Answers id other held now db db' s s' before after valid changes back differs = record {
    of_id = get_valid db' s' id after valid ∙ ap read_back changes.changed ∙ back;
    of_other =
        read_as other db' s' after
        ∙ rw (changes.kept (to_c F other) (λ e. differs (to_c_injective other id e)))
            (sym (read_as other db s before));
  }

  -- What an operation that succeeds has asked of the library.
  pub Serves-eq-ok :
      {A : Type 0} (db db' : Db B) (a : A) (f : Result A × B.Store) (r : Result A × Option (Db B))
      → db.closed ≡ false
      → Serves B db f r
      → r ≡ (ok a, some db')
      → (f.0 ≡ ok a) × IsOpen B db' f.1
  Serves-eq-ok db db' a f r running serves e = (
    sym (ap (λ x. x.0) serves.answer) ∙ ap (λ x. x.0) e,
    subst (λ d. IsOpen B d f.1)
        (some_injective (sym (ap (λ x. x.1) serves.answer) ∙ ap (λ x. x.1) e))
        (record { not_closed = running; sees = serves.sees }),
  )

  -- The arguments of a write that succeeds have passed its test.
  pub put_vec-accepted :
      (ring content : Bytes) (encoding : Codec) (vector : List F.Float) (db : Db B) (id : LocalId F)
      → (put_vec B ring content encoding vector (some db)).0 ≡ ok id
      → (c : ℤ) × (codec_number encoding ≡ some c) × (is_storable B ring content vector ≡ true)
  unfolding put_vec
  put_vec-accepted ring content encoding vector db id =
      go (codec_number encoding) (is_storable B ring content vector) refl refl
    where
      go :
          (k : Option ℤ) (b : Bool)
          → codec_number encoding ≡ k
          → is_storable B ring content vector ≡ b
          → (put_checked B k b ring content vector (some db)).0 ≡ ok id
          → (c : ℤ) × (codec_number encoding ≡ some c) × (is_storable B ring content vector ≡ true)
      go none b known storable h = cc
      go (some c) false known storable h = cc
      go (some c) true known storable h = (c, known, storable)

  pub update-accepted :
      (id : LocalId F) (content : Bytes) (encoding : Codec) (db : Db B)
      → (update B id content encoding (some db)).0 ≡ ok tt
      → (c : ℤ) × (codec_number encoding ≡ some c)
        × (is_valid F id ≡ true)
        × (ltb max_bytes (length content) ≡ false)
  unfolding update
  update-accepted id content encoding db =
      go (codec_number encoding) (is_valid F id) (ltb max_bytes (length content)) refl refl refl
    where
      go :
          (k : Option ℤ) (v b : Bool)
          → codec_number encoding ≡ k
          → is_valid F id ≡ v
          → ltb max_bytes (length content) ≡ b
          → (update_checked B k (v && not b) id content (some db)).0 ≡ ok tt
          → (c : ℤ) × (codec_number encoding ≡ some c)
            × (is_valid F id ≡ true)
            × (ltb max_bytes (length content) ≡ false)
      go none v b known valid fits h = cc
      go (some c) true true known valid fits h = cc
      go (some c) true false known valid fits h = (c, known, valid, fits)
      go (some c) false b known valid fits h = cc

  pub remove-accepted :
      (id : LocalId F) (db : Db B) → (remove B id (some db)).0 ≡ ok tt → is_valid F id ≡ true
  unfolding remove
  remove-accepted id db h = elim (Bool-cases (is_valid F id)) [
    | inl valid ↦ valid
    | inr bad ↦ absurd (
        err_not_ok (
          sym (
            ap
              (λ b.
                (if not b
                  then (err (sentinel input), some db)
                  else call B (remove_job B id) (some db)).0)
              bad)
          ∙ h))
  ]

  pub read_back-small :
      (content : Bytes) (encoding : Codec) (c : ℤ)
      → codec_number encoding ≡ some c
      → ltb max_bytes (length content) ≡ false
      → read_back (some (content, c)) ≡ ok (some (record { content = content; codec = encoding }))
  read_back-small content encoding c known fits = rw (fits, codec_of-number encoding c known) refl
