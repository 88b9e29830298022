-- ===== src/Embedded/Opening.antt =====
-- `OpenWithOptions`, and the database that it returns.
use koutendb_go.Common.{
  ◌≡◌, ◌+◌, refl, sym, ◌⊎◌, inl, inr, Bool, true, false, Option, none, some, Bytes, if◌then◌else◌,
}
use mathlib.Core.Path.{subst}
use koutendb_go.Common.Int.{eqb_ℤ, pos}
use koutendb_go.Errors.{Failure, sentinel, input, version}
use koutendb_go.Result.{Result, ok, err, M, ◌>>=◌, guard}
use koutendb_go.Floats.{Floats}
use koutendb_go.Embedded.Memory.{World, until_nul, with_string, text_of, allocate, freed_after}
use koutendb_go.Embedded.Memory.Laws.{IsBelow, find_newest, remove_newest}
use koutendb_go.Embedded.Abi.{Abi, c_int, flag}
use koutendb_go.Embedded.Handle.{
  Db, OpenOptions, is_empty, is_openable, open_with_options, open_worker, open_raw, opened, kept,
}
use koutendb_go.Embedded.Contract.{IsHealthy, IsFresh}

module _ {F : Floats} (B : Abi F) where
  abbrev Settled : Result (Unit {0}) × World B.Store → Type 0
  Settled (ok _, w) = IsHealthy B (record { closed = false; world = w })
  Settled (err e, w) = IsFresh B w

  kept-Settled :
      (k : Option B.Store) (w : World B.Store)
      → w.started ≡ true
      → IsFresh B w
      → Settled (kept B k w)
  kept-Settled none w started fresh = fresh
  kept-Settled (some s) w started fresh = record {
    defined = fresh.defined;
    no_strings = fresh.no_strings;
    no_buffers = fresh.no_buffers;
    handle_open = inr (
      refl,
      (
        s,
        record {
          running = started;
          opened = refl;
          defined = fresh.defined;
          strings_below = subst (IsBelow w.next) (sym fresh.no_strings) tt;
          buffers_below = subst (IsBelow w.next) (sym fresh.no_buffers) tt;
        },
      ),
    );
  }

  with_string-Settled :
      (directory : Bytes) (k : Bytes → Option B.Store) (w : World B.Store)
      → w.started ≡ true
      → IsFresh B w
      → Settled (with_string directory (λ p. text_of p λ d. kept B (k d)) w)
  unfolding with_string text_of
  with_string-Settled directory k w started fresh =
      rw (find_newest w.next (until_nul directory) w.strings) (go (k (until_nul directory)))
    where
      u : World B.Store
      u = record w { next = w.next + 1 }

      go : (o : Option B.Store) → Settled (freed_after w.next (kept B o (allocate directory w)))
      go none =
          rw
            (
              find_newest w.next (until_nul directory) w.strings,
              remove_newest w.next (until_nul directory) w.strings,
            )
            (kept-Settled none u started (record {
              defined = fresh.defined;
              no_strings = fresh.no_strings;
              no_buffers = fresh.no_buffers;
              no_handle = fresh.no_handle;
            }))
      go (some s) =
          rw
            (
              find_newest w.next (until_nul directory) w.strings,
              remove_newest w.next (until_nul directory) w.strings,
            )
            (kept-Settled (some s) u started (record {
              defined = fresh.defined;
              no_strings = fresh.no_strings;
              no_buffers = fresh.no_buffers;
              no_handle = fresh.no_handle;
            }))

  open_raw-Settled :
      (o : OpenOptions) (w : World B.Store)
      → w.started ≡ true
      → IsFresh B w
      → Settled (open_raw B o w)
  open_raw-Settled o w started fresh =
      if-Settled (is_empty o.directory) (kept B (B.open_memory (c_int o.nodes))) _ w
        (kept-Settled (B.open_memory (c_int o.nodes)) w started fresh)
        (with_string-Settled o.directory
          (λ d.
            B.open_dir_options (c_int o.nodes) d (flag o.strong_durability) (flag o.disk_backed))
          w started fresh)
    where
      if-Settled :
          (b : Bool) (m n : M (World B.Store) (Unit {0})) (w : World B.Store)
          → Settled (m w)
          → Settled (n w)
          → Settled ((if b then m else n) w)
      if-Settled true m n w hm hn = hm
      if-Settled false m n w hm hn = hn

  guarded-Settled :
      (b : Bool) (e : Failure) (m : M (World B.Store) (Unit {0})) (w : World B.Store)
      → IsFresh B w
      → Settled (m w)
      → Settled ((guard b e >>= λ _. m) w)
  guarded-Settled true e m w fresh h = h
  guarded-Settled false e m w fresh h = fresh

  open_worker-Settled :
      (o : OpenOptions) (w : World B.Store) → IsFresh B w → Settled (open_worker B o w)
  unfolding open_worker
  open_worker-Settled o w fresh = guarded-Settled (is_openable o) (sentinel input) _ w fresh (
      guarded-Settled (eqb_ℤ B.abi_version (pos 2)) (sentinel version) (open_raw B o)
        (record w { started = true }) again
        (open_raw-Settled o (record w { started = true }) refl again))
    where
      again : IsFresh B (record w { started = true })
      again = record {
        defined = fresh.defined;
        no_strings = fresh.no_strings;
        no_buffers = fresh.no_buffers;
        no_handle = fresh.no_handle;
      }

  -- In a world without an open handle, OpenWithOptions returns a healthy database that is open, or an
  -- error, with no handle, C string or buffer left.
  pub open_with_options_settled :
      (o : OpenOptions) (w : World B.Store)
      → IsFresh B w
      → ((db : Db B) × ((open_with_options B o w).0 ≡ ok db) × IsHealthy B db × (db.closed ≡ false))
        ⊎ ((e : Failure) × ((open_with_options B o w).0 ≡ err e)
            × IsFresh B (open_with_options B o w).1)
  unfolding open_with_options
  open_with_options_settled o w fresh = go (open_worker B o w) (open_worker-Settled o w fresh)
    where
      go :
          (r : Result (Unit {0}) × World B.Store)
          → Settled r
          → ((db : Db B) × ((opened B r).0 ≡ ok db) × IsHealthy B db × (db.closed ≡ false))
            ⊎ ((e : Failure) × ((opened B r).0 ≡ err e) × IsFresh B (opened B r).1)
      go (ok _, u) healthy = inl (record { closed = false; world = u }, refl, healthy, refl)
      go (err e, u) left = inr (e, refl, left)
