-- ===== src/Embedded/Library.antt =====
-- The map from identities to records that the C library keeps: what embedded/koutendb.h says of the calls
-- that embedded/db.go makes, and what a database answers from such a map.
use koutendb_go.Common.{◌≡◌, ◌≢◌, refl, ◌∙◌, true, List, Option, none, some, Bytes}
use koutendb_go.Common.Int.{ℤ, pos}
use koutendb_go.Result.{Result, ok, err, continue, or_err, and_then}
use koutendb_go.Floats.{Floats}
use koutendb_go.Codec.{Codec, Payload}
use koutendb_go.Identity.{finite}
use koutendb_go.Embedded.Memory.{abi_error}
use koutendb_go.Embedded.Memory.Laws.{copy}
use koutendb_go.Embedded.Abi.{Abi, LocalId, CId, codec_of, to_c}
use koutendb_go.Embedded.Records.{by_presence}
use koutendb_go.Embedded.Contract.{fetch_contract, get_contract}

-- The content of a record, with the number of its codec.
abbrev pub Stored : Type 0
Stored = Bytes × ℤ

abbrev pub presence : Option Stored → ℤ
presence none = pos 0
presence (some x) = pos 1

-- The library keeps a map of records: `kouten_put_vec_codec` adds one at a new identity, `kouten_exists`
-- and `kouten_get_codec` answer from the map, and an update or a removal that succeeds changes only the
-- record that it names.
pub record LawfulAbi {F : Floats} (B : Abi F) : Type 0 where
  pub lookup : CId F → B.Store → Option Stored
  pub exists_answer : (id : CId F) (s : B.Store) → (B.exists id s).0 ≡ presence (lookup id s)
  pub exists_keeps :
      (id other : CId F) (s : B.Store) → lookup other (B.exists id s).1 ≡ lookup other s
  pub get_answer :
      (id : CId F) (s : B.Store) (x : Stored)
      → lookup id s ≡ some x
      → (B.get_codec id s).0 ≡ (some x.0, x.1)
  pub put_finite :
      (ring content : Bytes) (c : ℤ) (vector : List F.Float) (s : B.Store) (id : CId F)
      → (B.put_vec_codec ring content c vector s).0 ≡ some id
      → finite F id.t_write ≡ true
  pub put_new :
      (ring content : Bytes) (c : ℤ) (vector : List F.Float) (s : B.Store) (id : CId F)
      → (B.put_vec_codec ring content c vector s).0 ≡ some id
      → lookup id s ≡ none
  pub put_stored :
      (ring content : Bytes) (c : ℤ) (vector : List F.Float) (s : B.Store) (id : CId F)
      → (B.put_vec_codec ring content c vector s).0 ≡ some id
      → lookup id (B.put_vec_codec ring content c vector s).1 ≡ some (content, c)
  pub put_others :
      (ring content : Bytes) (c : ℤ) (vector : List F.Float) (s : B.Store) (id other : CId F)
      → (B.put_vec_codec ring content c vector s).0 ≡ some id
      → other ≢ id
      → lookup other (B.put_vec_codec ring content c vector s).1 ≡ lookup other s
  pub update_stored :
      (id : CId F) (content : Bytes) (c : ℤ) (s : B.Store)
      → (B.update_codec id content c s).0 ≡ true
      → lookup id (B.update_codec id content c s).1 ≡ some (content, c)
  pub update_others :
      (id other : CId F) (content : Bytes) (c : ℤ) (s : B.Store)
      → other ≢ id
      → lookup other (B.update_codec id content c s).1 ≡ lookup other s
  pub remove_removed :
      (id : CId F) (s : B.Store) → (B.remove id s).0 ≡ true → lookup id (B.remove id s).1 ≡ none
  pub remove_others :
      (id other : CId F) (s : B.Store)
      → other ≢ id
      → lookup other (B.remove id s).1 ≡ lookup other s

abbrev payload : Bytes → Codec → Payload
payload b encoding = record { content = b; codec = encoding }

pub ok_injective : {A : Type 0} {x y : A} → ok x ≡ ok y → x ≡ y
ok_injective h = cc

-- What `Get` makes of a record.
abbrev pub read_back : Option Stored → Result (Option Payload)
read_back none = ok none
read_back (some (content, c)) =
    and_then (copy (some content))
      λ b. and_then (or_err (codec_of c) abi_error) λ encoding. ok (some (payload b encoding))

module _ {F : Floats} (B : Abi F) (L : LawfulAbi B) where
  after_copy :
      (r : Result Bytes) (c : ℤ) (s : B.Store)
      → (continue
          (λ b t.
            continue
              (λ encoding u. (ok (some (payload b encoding)), u))
              (or_err (codec_of c) abi_error, t))
          (r, s)).0
        ≡ and_then r (λ b.
          and_then (or_err (codec_of c) abi_error) λ encoding. ok (some (payload b encoding)))
  after_copy (ok b) c s = go (or_err (codec_of c) abi_error)
    where
      go :
          (e : Result Codec)
          → (continue (λ encoding u. (ok (some (payload b encoding)), u)) (e, s)).0
            ≡ and_then e (λ encoding. ok (some (payload b encoding)))
      go (ok encoding) = refl
      go (err e) = refl
  after_copy (err e) c s = refl

  fetch-read_back :
      (id : LocalId F) (s : B.Store) (x : Stored)
      → L.lookup (to_c F id) s ≡ some x
      → (fetch_contract B id s).0 ≡ read_back (some x)
  fetch-read_back id s (content, c) held =
      rw (L.get_answer (to_c F id) s (content, c) held)
        (after_copy (copy (some content)) c (B.get_codec (to_c F id) s).1)

  -- `Get` answers from the map.
  pub get-read_back :
      (id : LocalId F) (s : B.Store) → (get_contract B id s).0 ≡ read_back (L.lookup (to_c F id) s)
  get-read_back id s = rw (L.exists_answer (to_c F id) s) (by_lookup (L.lookup (to_c F id) s) refl)
    where
      s₁ : B.Store
      s₁ = (B.exists (to_c F id) s).1

      by_lookup :
          (o : Option Stored)
          → L.lookup (to_c F id) s ≡ o
          → (by_presence
              (λ (t : B.Store). (ok none, t))
              (fetch_contract B id)
              (λ t. (err abi_error, t))
              (presence o)
              s₁).0
            ≡ read_back o
      by_lookup none held = refl
      by_lookup (some x) held =
          fetch-read_back id s₁ x (L.exists_keeps (to_c F id) (to_c F id) s ∙ held)
