-- ===== src/Embedded/History.antt =====
-- A database from `OpenWithOptions` on, through any calls.
use koutendb_go.Common.{
  ltb, ◌≡◌, refl, sym, ◌∙◌, inl, inr, ◌||◌, ◌&&◌, not, Bool, true, false, List, [], ◌∷◌, Option,
  none, some, Bytes, length, arith, Bool-cases, if◌then◌else◌,
}
use mathlib.Core.Path.{subst}
use koutendb_go.Common.Int.{ℤ}
use koutendb_go.Errors.{sentinel, input}
use koutendb_go.Result.{Result, ok, err, M, ◌>>=◌, continue}
use koutendb_go.Floats.{Floats}
use koutendb_go.Json.{Json}
use koutendb_go.Codec.{Codec}
use koutendb_go.Embedded.Memory.{World, max_bytes}
use koutendb_go.Embedded.Memory.Laws.{Refines}
use koutendb_go.Embedded.Abi.{Abi, LocalId, is_valid, is_text, codec_number}
use koutendb_go.Embedded.Handle.{
  Db, OpenOptions, call, unless_closed, open_with_options, close, close_at,
}
use koutendb_go.Embedded.Records.{
  C, put_job, is_storable, put_vec, put_checked, get, get_job, query, query_job, update, update_job,
  update_checked, remove, remove_job,
}
use koutendb_go.Embedded.Rings.{RingOptions, is_readable, if_json, read_ring, read_ring_job}
use koutendb_go.Embedded.Contract.{Serves, IsHealthy, IsFresh}
use koutendb_go.Embedded.Opening.{open_with_options_settled}
use koutendb_go.Embedded.Refinement.{
  put_job-Refines, get_job-Refines, query_job-Refines, update_job-Refines, remove_job-Refines,
  call-Serves,
}
use koutendb_go.Embedded.Rings.Laws.{read_ring_job-Refines}
use koutendb_go.Embedded.Service.{storable_ring, readable_texts}

module _ {F : Floats} (J : Json) (B : Abi F) where
  pub data Command : Type 0 where
    puts : Bytes → Bytes → Codec → List F.Float → Command
    gets : LocalId F → Command
    queries : LocalId F → Bytes → Command
    updates : LocalId F → Bytes → Codec → Command
    removes : LocalId F → Command
    reads : Bytes → RingOptions → Command
    closes : Command

  -- The database after a call, whatever its result and its arguments.
  unfoldable pub step : Command → Option (Db B) → Option (Db B)
  step (puts ring content encoding vector) h = (put_vec B ring content encoding vector h).1
  step (gets id) h = (get B id h).1
  step (queries id selection) h = (query B id selection h).1
  step (updates id content encoding) h = (update B id content encoding h).1
  step (removes id) h = (remove B id h).1
  step (reads ring o) h = (read_ring J B ring o h).1
  step closes h = close B h

  unfoldable pub run : List Command → Option (Db B) → Option (Db B)
  run [] h = h
  run (c ∷ cs) h = run cs (step c h)

  abbrev pub AllHealthy : Option (Db B) → Type 0
  AllHealthy none = Unit
  AllHealthy (some db) = IsHealthy B db

  Serves-IsHealthy :
      {A : Type 0} (db : Db B) (f : Result A × B.Store) (r : Result A × Option (Db B))
      → IsHealthy B db
      → db.closed ≡ false
      → Serves B db f r
      → AllHealthy r.1
  Serves-IsHealthy db f r healthy running serves = rw serves.answer (record {
    defined = serves.sees.defined;
    no_strings = serves.same_strings ∙ healthy.no_strings;
    no_buffers = serves.same_buffers ∙ healthy.no_buffers;
    handle_open = inr (running, (f.1, serves.sees));
  })

  call-AllHealthy :
      {A : Type 0} (m : C B A) (f : M B.Store A) (h : Option (Db B))
      → Refines m f
      → AllHealthy h
      → AllHealthy (call B m h).1
  unfolding call
  call-AllHealthy m f none refines healthy = tt
  call-AllHealthy m f (some db) refines healthy = elim healthy.handle_open [
    | inl (shut, _) ↦ subst (λ b. AllHealthy (unless_closed B b m db).1) (sym shut) healthy
    | inr (running, (s, sees)) ↦
        Serves-IsHealthy db (f s) (call B m (some db)) healthy running
          (call-Serves B m f db s refines (record { not_closed = running; sees = sees }))
  ]

  if_json-AllHealthy :
      (r : Result Bytes × Option (Db B)) → AllHealthy r.1 → AllHealthy (continue (if_json J B) r).1
  if_json-AllHealthy (ok b, h) healthy = elim (Bool-cases (J.is_valid b)) [
    | inl good ↦ rw good healthy
    | inr bad ↦ rw bad healthy
  ]
  if_json-AllHealthy (err e, h) healthy = healthy

  close-AllHealthy : (h : Option (Db B)) → AllHealthy h → AllHealthy (close B h)
  unfolding close
  close-AllHealthy none healthy = tt
  close-AllHealthy (some db) healthy = elim healthy.handle_open [
    | inl (shut, _) ↦
        subst
          (λ b. AllHealthy (
            if b
            then some db
            else some (record { closed = true; world = close_at B db.world.handle db.world })))
          (sym shut) healthy
    | inr (running, (s, sees)) ↦
        subst
          (λ b. AllHealthy (
            if b
            then some db
            else some (record { closed = true; world = close_at B db.world.handle db.world })))
          (sym running)
          (subst (λ k. IsHealthy B (record { closed = true; world = close_at B k db.world }))
            (sym sees.opened)
            (record {
              defined = healthy.defined;
              no_strings = healthy.no_strings;
              no_buffers = healthy.no_buffers;
              handle_open = inl (refl, refl);
            }))
  ]

  if-AllHealthy :
      {A : Type 0} (b : Bool) (x y : Result A × Option (Db B))
      → (b ≡ true → AllHealthy x.1)
      → (b ≡ false → AllHealthy y.1)
      → AllHealthy (if b then x else y).1
  if-AllHealthy true x y hx hy = hx refl
  if-AllHealthy false x y hx hy = hy refl

  put_checked-AllHealthy :
      (known : Option ℤ) (ring content : Bytes) (vector : List F.Float) (h : Option (Db B))
      → AllHealthy h
      → AllHealthy (put_checked B known (is_storable B ring content vector) ring content vector h).1
  put_checked-AllHealthy none ring content vector h healthy = healthy
  put_checked-AllHealthy (some c) ring content vector h healthy =
      elim (Bool-cases (is_storable B ring content vector)) [
        | inl good ↦ rw good (
            call-AllHealthy (put_job B ring content c vector) _ h
              (put_job-Refines B ring content c vector (storable_ring B ring content vector good))
              healthy)
        | inr bad ↦ rw bad healthy
      ]

  update_checked-AllHealthy :
      (known : Option ℤ) (valid : Bool) (id : LocalId F) (content : Bytes) (h : Option (Db B))
      → AllHealthy h
      → AllHealthy (update_checked B known valid id content h).1
  update_checked-AllHealthy none valid id content h healthy = healthy
  update_checked-AllHealthy (some c) true id content h healthy =
      call-AllHealthy (update_job B id content c) _ h (update_job-Refines B id content c) healthy
  update_checked-AllHealthy (some c) false id content h healthy = healthy

  step-AllHealthy : (c : Command) (h : Option (Db B)) → AllHealthy h → AllHealthy (step c h)
  unfolding step put_vec get query update remove read_ring
  step-AllHealthy (puts ring content encoding vector) h healthy =
      put_checked-AllHealthy (codec_number encoding) ring content vector h healthy
  step-AllHealthy (gets id) h healthy =
      if-AllHealthy (not (is_valid F id)) (err (sentinel input), h) (call B (get_job B id) h)
        (λ _. healthy) (λ _. call-AllHealthy (get_job B id) _ h (get_job-Refines B id) healthy)
  step-AllHealthy (queries id selection) h healthy =
      if-AllHealthy (not (is_valid F id) || not (is_text selection)) (err (sentinel input), h)
        (call B (query_job B id selection) h) (λ _. healthy)
        (λ good.
          call-AllHealthy (query_job B id selection) _ h
            (query_job-Refines B id selection (ground arith)) healthy)
  step-AllHealthy (updates id content encoding) h healthy =
      update_checked-AllHealthy (codec_number encoding)
        (is_valid F id && not (ltb max_bytes (length content))) id content h healthy
  step-AllHealthy (removes id) h healthy =
      if-AllHealthy (not (is_valid F id)) (err (sentinel input), h) (call B (remove_job B id) h)
        (λ _. healthy)
        (λ _. call-AllHealthy (remove_job B id) _ h (remove_job-Refines B id) healthy)
  step-AllHealthy (reads ring o) h healthy =
      if-AllHealthy (is_readable J B ring o) ((call B (read_ring_job J B ring o) >>= if_json J B) h)
        (err (sentinel input), h)
        (λ good. if_json-AllHealthy (call B (read_ring_job J B ring o) h) (
          call-AllHealthy (read_ring_job J B ring o) _ h
            (read_ring_job-Refines J B ring o (readable_texts J B ring o good)) healthy))
        (λ _. healthy)
  step-AllHealthy closes h healthy = close-AllHealthy h healthy

  run-AllHealthy : (cs : List Command) (h : Option (Db B)) → AllHealthy h → AllHealthy (run cs h)
  unfolding run
  run-AllHealthy [] h healthy = healthy
  run-AllHealthy (c ∷ cs) h healthy = run-AllHealthy cs (step c h) (step-AllHealthy c h healthy)

  -- A database that OpenWithOptions has returned, in a world where the library had no handle open,
  -- stays healthy through any sequence of calls with any arguments and of Close: no use of memory that
  -- is not live and no call on a closed handle has happened, no C string or buffer is left over, and
  -- the handle is open exactly while the database is.
  pub history-IsHealthy :
      (o : OpenOptions) (w : World B.Store) (db : Db B) (cs : List Command)
      → IsFresh B w
      → (open_with_options B o w).0 ≡ ok db
      → AllHealthy (run cs (some db))
  history-IsHealthy o w db cs fresh opening = elim (open_with_options_settled B o w fresh) [
    | inl (other, same, healthy, running) ↦
        let e : other ≡ db = cc in
        run-AllHealthy cs (some db) (subst (λ d. IsHealthy B d) e healthy)
    | inr (e, failed, left) ↦ cc
  ]
