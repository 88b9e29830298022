-- ===== src/Embedded/Handle.antt =====
-- embedded/db.go: `OpenWithOptions`, `call` and `Close`, as the caller sees them.
use koutendb_go.Common.{
  ◌||◌, ◌&&◌, not, Bool, true, false, [], ◌∷◌, Option, none, some, Bytes, if◌then◌else◌,
}
use koutendb_go.Common.Int.{ℤ, pos, ltb_ℤ, eqb_ℤ}
use koutendb_go.Errors.{sentinel, input, version, closed as closed_kind}
use koutendb_go.Result.{Result, ok, err, M, ◌>>◌, guard}
use koutendb_go.Floats.{Floats}
use koutendb_go.Embedded.Memory.{World, abi_error, with_string, text_of}
use koutendb_go.Embedded.Abi.{Abi, is_text, c_int, flag}

-- `OpenOptions`
pub record OpenOptions : Type 0 where
  pub nodes : ℤ
  pub directory : Bytes
  pub strong_durability : Bool
  pub disk_backed : Bool

abbrev pub is_empty : Bytes → Bool
is_empty [] = true
is_empty (b ∷ s) = false

unfoldable pub is_openable : OpenOptions → Bool
is_openable o = not (
    ltb_ℤ o.nodes (pos 1)
    || ltb_ℤ (pos 65535) o.nodes
    || not (is_text o.directory)
    || is_empty o.directory && (o.strong_durability || o.disk_backed))

module _ {F : Floats} (B : Abi F) where
  -- `DB`, with what its worker holds. The worker runs one job at a time, in the order of the calls.
  pub record Db : Type 0 where
    pub closed : Bool
    pub world : World B.Store

  -- `runtimeOnce.Do(func() { C.kouten_init() })`
  abbrev pub init_once : M (World B.Store) (Unit {0})
  init_once w = (ok tt, record w { started = true })

  abbrev pub kept : Option B.Store → M (World B.Store) (Unit {0})
  kept none w = (err abi_error, w)
  kept (some s) w = (ok tt, record w { handle = some s })

  abbrev pub open_raw : OpenOptions → M (World B.Store) (Unit {0})
  open_raw o =
      if is_empty o.directory
      then kept (B.open_memory (c_int o.nodes))
      else with_string o.directory λ p. text_of p λ directory. kept (
          B.open_dir_options (c_int o.nodes) directory (flag o.strong_durability)
            (flag o.disk_backed))

  -- `OpenWithOptions`, up to the loop of the worker.
  unfoldable pub open_worker : OpenOptions → M (World B.Store) (Unit {0})
  open_worker o = do
    guard (is_openable o) (sentinel input)
    init_once
    guard (eqb_ℤ B.abi_version (pos 2)) (sentinel version)
    open_raw o

  abbrev pub opened : Result (Unit {0}) × World B.Store → Result Db × World B.Store
  opened (ok _, w) = (ok (record { closed = false; world = w }), w)
  opened (err e, w) = (err e, w)

  -- `OpenWithOptions`, `Open` and `OpenDir`
  unfoldable pub open_with_options : OpenOptions → M (World B.Store) Db
  open_with_options o w = opened (open_worker o w)

  unfoldable pub open_memory : ℤ → M (World B.Store) Db
  open_memory nodes =
      open_with_options
        (record { nodes = nodes; directory = []; strong_durability = false; disk_backed = false })

  unfoldable pub open_dir : ℤ → Bytes → M (World B.Store) Db
  open_dir nodes directory =
      if is_empty directory
      then (λ w. (err (sentinel input), w))
      else open_with_options (record {
        nodes = nodes;
        directory = directory;
        strong_durability = false;
        disk_backed = false;
      })

  abbrev pub job_done : {A : Type 0} → Db → Result A × World B.Store → Result A × Option Db
  job_done db (r, w) = (r, some (record db { world = w }))

  abbrev pub unless_closed : {A : Type 0} → Bool → M (World B.Store) A → Db → Result A × Option Db
  unless_closed true fn db = (err (sentinel closed_kind), some db)
  unless_closed false fn db = job_done db (fn db.world)

  -- `(*DB).call`; no `DB` stands for a nil pointer, and for a value that `Open` has not made.
  unfoldable pub call : {A : Type 0} → M (World B.Store) A → M (Option Db) A
  call fn none = (err (sentinel closed_kind), none)
  call fn (some db) = unless_closed db.closed fn db

  -- `C.kouten_close(raw)`
  abbrev pub close_at : Option B.Store → World B.Store → World B.Store
  close_at none w = record w { sound = false }
  close_at (some s) w = record w { handle = none }

  -- `(*DB).Close`
  unfoldable pub close : Option Db → Option Db
  close none = none
  close (some db) =
      if db.closed
      then some db
      else some (record { closed = true; world = close_at db.world.handle db.world })
