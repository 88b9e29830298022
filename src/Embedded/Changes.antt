-- ===== src/Embedded/Changes.antt =====
-- What the operations that write change in the library's map of records.
use koutendb_go.Common.{
  ◌≡◌, ◌≢◌, refl, sym, ◌∙◌, Bool, true, false, List, Option, none, some, Bytes,
}
use mathlib.Core.Path.{subst}
use koutendb_go.Common.Int.{ℤ}
use koutendb_go.Result.{Result, ok, err, M, ◌>>=◌, continue, pure, fail, or_err}
use koutendb_go.Floats.{Floats}
use koutendb_go.Identity.{finite}
use koutendb_go.Embedded.Memory.{abi_error, not_found}
use koutendb_go.Embedded.Abi.{Abi, LocalId, CId, to_c, from_c}
use koutendb_go.Embedded.Records.{by_presence}
use koutendb_go.Embedded.Contract.{
  ask, required, update_contract, remove_contract, put_contract, done,
}
use koutendb_go.Embedded.Library.{Stored, LawfulAbi, presence, ok_injective}

module _ {F : Floats} (B : Abi F) (L : LawfulAbi B) where
  -- What a change of the record at `id` to `now` does to the map.
  pub record Changes (id : CId F) (now : Option Stored) (s s' : B.Store) : Type 0 where
    pub changed : L.lookup id s' ≡ now
    pub kept : (other : CId F) → other ≢ id → L.lookup other s' ≡ L.lookup other s

  pub put-Changes :
      (ring content : Bytes) (c : ℤ) (vector : List F.Float) (id : LocalId F) (s : B.Store)
      → (put_contract B ring content c vector s).0 ≡ ok id
      → (finite F id.t_write ≡ true)
        × (L.lookup (to_c F id) s ≡ none)
        × Changes (to_c F id) (some (content, c)) s (put_contract B ring content c vector s).1
  unfolding to_c from_c
  put-Changes ring content c vector id s h =
      by_out (B.put_vec_codec ring content c vector s).0 refl h
    where
      s' : B.Store
      s' = (B.put_vec_codec ring content c vector s).1

      result : Option (CId F) → Result (LocalId F) × B.Store
      result o = continue (λ out. pure (from_c F out)) (or_err o abi_error, s')

      by_out :
          (o : Option (CId F))
          → (B.put_vec_codec ring content c vector s).0 ≡ o
          → (result o).0 ≡ ok id
          → (finite F id.t_write ≡ true)
            × (L.lookup (to_c F id) s ≡ none)
            × Changes (to_c F id) (some (content, c)) s (result o).1
      by_out none e h' = cc
      by_out (some out) e h' =
          subst
            (λ i.
              (finite F i.t_write ≡ true)
              × (L.lookup (to_c F i) s ≡ none)
              × Changes (to_c F i) (some (content, c)) s s')
            (ok_injective h')
            (
              L.put_finite ring content c vector s out e,
              L.put_new ring content c vector s out e,
              record {
                changed = L.put_stored ring content c vector s out e;
                kept = λ other differs. L.put_others ring content c vector s out other e differs;
              },
            )

  -- After `requireRecord`, for a call that changes the record or fails.
  required-Changes :
      (id : LocalId F) (now : Option Stored) (change : B.Store → Bool × B.Store) (s : B.Store)
      → ((t : B.Store) → (change t).0 ≡ true → Changes (to_c F id) now t (change t).1)
      → (continue (λ _. ask B change >>= done B) (required B id s)).0 ≡ ok tt
      → (¬ (L.lookup (to_c F id) s ≡ none))
        × Changes (to_c F id) now s (continue (λ _. ask B change >>= done B) (required B id s)).1
  required-Changes id now change s changes h =
      subst
        (λ a.
          (m a).0 ≡ ok tt → (¬ (L.lookup (to_c F id) s ≡ none)) × Changes (to_c F id) now s (m a).1)
        (sym (L.exists_answer (to_c F id) s)) (by_lookup (L.lookup (to_c F id) s) refl) h
    where
      s₁ : B.Store
      s₁ = (B.exists (to_c F id) s).1

      m : ℤ → Result (Unit {0}) × B.Store
      m a =
          continue (λ _. ask B change >>= done B)
            (by_presence (fail not_found) (pure tt) (fail abi_error) a s₁)

      by_status :
          (b : Bool)
          → (change s₁).0 ≡ b
          → (done B b (change s₁).1).0 ≡ ok tt
          → Changes (to_c F id) now s (done B b (change s₁).1).1
      by_status true e g = record {
        changed = (changes s₁ e).changed;
        kept =
            λ other differs. (changes s₁ e).kept other differs ∙ L.exists_keeps (to_c F id) other s;
      }
      by_status false e g = cc

      by_lookup :
          (o : Option Stored)
          → L.lookup (to_c F id) s ≡ o
          → (m (presence o)).0 ≡ ok tt
          → (¬ (L.lookup (to_c F id) s ≡ none)) × Changes (to_c F id) now s (m (presence o)).1
      by_lookup none held g = cc
      by_lookup (some x) held g = (λ absent. cc, by_status (change s₁).0 refl g)

  pub update-Changes :
      (id : LocalId F) (content : Bytes) (c : ℤ) (s : B.Store)
      → (update_contract B id content c s).0 ≡ ok tt
      → (¬ (L.lookup (to_c F id) s ≡ none))
        × Changes (to_c F id) (some (content, c)) s (update_contract B id content c s).1
  update-Changes id content c s h =
      required-Changes id (some (content, c)) (B.update_codec (to_c F id) content c) s
        (λ t e. record {
          changed = L.update_stored (to_c F id) content c t e;
          kept = λ other differs. L.update_others (to_c F id) other content c t differs;
        })
        h

  pub remove-Changes :
      (id : LocalId F) (s : B.Store)
      → (remove_contract B id s).0 ≡ ok tt
      → (¬ (L.lookup (to_c F id) s ≡ none)) × Changes (to_c F id) none s (remove_contract B id s).1
  remove-Changes id s h =
      required-Changes id none (B.remove (to_c F id)) s
        (λ t e. record {
          changed = L.remove_removed (to_c F id) t e;
          kept = λ other differs. L.remove_others (to_c F id) other t differs;
        })
        h

  -- Without a record at `id`, what requires one fails, and changes nothing.
  pub absent_fails :
      {A : Type 0} (id : LocalId F) (s : B.Store) (k : Unit {0} → M B.Store A)
      → L.lookup (to_c F id) s ≡ none
      → (continue k (required B id s)).0 ≡ err not_found
  absent_fails id s k absent = rw (L.exists_answer (to_c F id) s, absent) refl
