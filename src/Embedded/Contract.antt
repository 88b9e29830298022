-- ===== src/Embedded/Contract.antt =====
-- What the operations on records ask of the library, without pointers and buffers: the description that
-- the code of embedded/db.go is held against.
use koutendb_go.Common.{◌≡◌, ◌⊎◌, Bool, true, false, List, [], Option, none, some, Bytes}
use koutendb_go.Common.Int.{ℤ}
use koutendb_go.Result.{Result, ok, M, ◌>>=◌, ◌>>◌, pure, fail, lift, or_err}
use koutendb_go.Floats.{Floats}
use koutendb_go.Codec.{Payload}
use koutendb_go.Embedded.Memory.{abi_error, not_found, World}
use koutendb_go.Embedded.Memory.Laws.{copy, Sees}
use koutendb_go.Embedded.Abi.{Abi, LocalId, codec_of, to_c, from_c}
use koutendb_go.Embedded.Handle.{Db}
use koutendb_go.Embedded.Records.{by_presence}
use koutendb_go.Embedded.Rings.{RingOptions, request, ring_fields}
use koutendb_go.Json.{Json}

module _ {F : Floats} (B : Abi F) where
  abbrev pub ask : {A : Type 0} → (B.Store → A × B.Store) → M B.Store A
  ask f s = let (a, s') = f s in (ok a, s')

  abbrev pub required : LocalId F → M B.Store (Unit {0})
  required id = do
    answer ← ask (B.exists (to_c F id))
    by_presence (fail not_found) (pure tt) (fail abi_error) answer

  abbrev pub put_contract : Bytes → Bytes → ℤ → List F.Float → M B.Store (LocalId F)
  put_contract ring content c vector = do
    out ← ask (B.put_vec_codec ring content c vector)
    id ← lift (or_err out abi_error)
    pure (from_c F id)

  abbrev pub fetch_contract : LocalId F → M B.Store (Option Payload)
  fetch_contract id = do
    (p, c) ← ask (B.get_codec (to_c F id))
    b ← lift (copy p)
    encoding ← lift (or_err (codec_of c) abi_error)
    pure (some (record { content = b; codec = encoding }))

  abbrev pub get_contract : LocalId F → M B.Store (Option Payload)
  get_contract id = do
    answer ← ask (B.exists (to_c F id))
    by_presence (pure none) (fetch_contract id) (fail abi_error) answer

  abbrev pub query_contract : LocalId F → Bytes → M B.Store Bytes
  query_contract id selection =
      required id >> (ask (B.query (to_c F id) selection) >>= λ p. lift (copy p))

  abbrev pub done : Bool → M B.Store (Unit {0})
  done true = pure tt
  done false = fail abi_error

  abbrev pub update_contract : LocalId F → Bytes → ℤ → M B.Store (Unit {0})
  update_contract id content c =
      required id >> (ask (B.update_codec (to_c F id) content c) >>= done)

  abbrev pub remove_contract : LocalId F → M B.Store (Unit {0})
  remove_contract id = required id >> (ask (B.remove (to_c F id)) >>= done)

  abbrev pub read_ring_contract : Json → Bytes → RingOptions → M B.Store Bytes
  read_ring_contract J ring o =
      ask (B.read_ring_json (request J B o (ring_fields ring o))) >>= λ p. lift (copy p)

  -- A call on an open database has this result, and leaves a database that is open on this store, with the
  -- memory that the call took returned.
  pub record Serves {A : Type 0} (db : Db B) (f : Result A × B.Store) (r : Result A × Option (Db B))
      : Type 0 where
    pub after : World B.Store
    pub answer : r ≡ (f.0, some (record db { world = after }))
    pub sees : Sees after f.1
    pub same_strings : after.strings ≡ db.world.strings
    pub same_buffers : after.buffers ≡ db.world.buffers

  -- An open database on a store.
  pub record IsOpen (db : Db B) (s : B.Store) : Type 0 where
    pub not_closed : db.closed ≡ false
    pub sees : Sees db.world s

  -- Nothing undefined has happened, no C string and no buffer of the library is left over, and the
  -- library's handle is open exactly while the database is.
  pub record IsHealthy (db : Db B) : Type 0 where
    pub defined : db.world.sound ≡ true
    pub no_strings : db.world.strings ≡ []
    pub no_buffers : db.world.buffers ≡ []
    pub handle_open :
        ((db.closed ≡ true) × (db.world.handle ≡ none))
        ⊎ ((db.closed ≡ false) × ((s : B.Store) × Sees db.world s))

  -- A world in which the library has no handle open.
  pub record IsFresh (w : World B.Store) : Type 0 where
    pub defined : w.sound ≡ true
    pub no_strings : w.strings ≡ []
    pub no_buffers : w.buffers ≡ []
    pub no_handle : w.handle ≡ none
