-- ===== src/Embedded/Memory/Allocation.antt =====
-- C strings and buffers, from their allocation to their release.
use koutendb_go.Common.{
  ℕ, ◌+◌, ◌≡◌, refl, sym, ap, ◌∙◌, inl, inr, ltb, ◌∷◌, Option, none, some, Bytes, length, arith,
  Bool-cases,
}
use mathlib.Core.Path.{subst}
use koutendb_go.Result.{Result, err, M, ◌>>=◌}
use koutendb_go.Embedded.Memory.{
  max_bytes, abi_error, Heap, find, remove, until_nul, World, allocate, with_string, buffer_of,
  buffer, freed_after,
}
use koutendb_go.Embedded.Memory.Laws.{
  IsBelow-mono, find_newest, remove_newest, leb_refl, take-length, Sees, Runs, RefinesAt,
  Live-older, copy, Refines-result,
}

module _ {Store : Type 0} where
  Refines-with_string :
      {A : Type 0} (ps : Heap) (b : Bytes) (body : ℕ → M (World Store) A) (f : M Store A)
      → ((p : ℕ) → RefinesAt ((p, until_nul b) ∷ ps) (body p) f)
      → RefinesAt ps (with_string b body) f
  unfolding with_string
  Refines-with_string {A = A} ps b body f rest w s live see = done (body w.next (allocate b w)) (
      rest w.next (allocate b w) s
        (find_newest w.next (until_nul b) w.strings, Live-older ps b w see.strings_below live)
        (record {
          running = see.running;
          opened = see.opened;
          defined = see.defined;
          strings_below = (
            omega arith,
            IsBelow-mono w.next (w.next + 1) w.strings (omega arith) see.strings_below,
          );
          buffers_below =
              IsBelow-mono w.next (w.next + 1) w.buffers (omega arith) see.buffers_below;
        }))
    where
      done :
          (r : Result A × World Store)
          → Runs (allocate b w) (f s) r
          → Runs w (f s) (freed_after w.next r)
      done (a, u) run =
          let found : find w.next u.strings ≡ some (until_nul b) =
            ap (find w.next) run.same_strings ∙ find_newest w.next (until_nul b) w.strings in
          let left : remove w.next u.strings ≡ w.strings =
            ap (remove w.next) run.same_strings ∙ remove_newest w.next (until_nul b) w.strings in
          rw found (record {
            result = run.result;
            sees = record {
              running = run.sees.running;
              opened = run.sees.opened;
              defined = run.sees.defined;
              strings_below = rw left (
                  IsBelow-mono w.next u.next w.strings (omega (arith, run.grows))
                    see.strings_below);
              buffers_below = run.sees.buffers_below;
            };
            same_strings = left;
            same_buffers = run.same_buffers;
            grows = omega (arith, run.grows);
          })

  pub Refines-buffer :
      (ps : Heap) (b : Option Bytes)
      → RefinesAt {Store = Store} ps (buffer_of b >>= buffer) (λ s. (copy b, s))
  unfolding buffer_of buffer
  Refines-buffer ps none w s live see = Refines-result ps (err abi_error) w s live see
  Refines-buffer ps (some b) w s live see =
      let back = remove_newest w.next b w.buffers in
      let found = find_newest w.next b w.buffers in
      let same_sees : Sees (record w { next = w.next + 1 }) s = record {
        running = see.running;
        opened = see.opened;
        defined = see.defined;
        strings_below = IsBelow-mono w.next (w.next + 1) w.strings (omega arith) see.strings_below;
        buffers_below = IsBelow-mono w.next (w.next + 1) w.buffers (omega arith) see.buffers_below;
      } in
      elim (Bool-cases (ltb max_bytes (length b))) [
        | inl big ↦
            rw (big, found, back)
              (record {
                result = refl;
                sees = same_sees;
                same_strings = refl;
                same_buffers = refl;
                grows = omega arith;
              })
        | inr small ↦
            rw (small, found, leb_refl (length b), found, back, take-length b)
              (record {
                result = refl;
                sees = same_sees;
                same_strings = refl;
                same_buffers = refl;
                grows = omega arith;
              })
      ]

  -- A string that C reads whole.
  pub Refines-with_text :
      {A : Type 0} (ps : Heap) (b : Bytes) (body : ℕ → M (World Store) A) (f : M Store A)
      → until_nul b ≡ b
      → ((p : ℕ) → RefinesAt ((p, b) ∷ ps) (body p) f)
      → RefinesAt ps (with_string b body) f
  Refines-with_text {A = A} ps b body f whole rest = Refines-with_string ps b body f λ p.
      subst (λ t. RefinesAt {Store = Store} {A = A} ((p, t) ∷ ps) (body p) f) (sym whole) (rest p)
