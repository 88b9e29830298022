-- ===== src/Result.antt =====
-- Results with errors as values, and state passing for the code that changes a connection or a client.
-- What was written before an error stays written, so the state comes back with the error too.
pub mod Rules
use koutendb_go.Common.{◌≡◌, refl, Bool, true, false, Option, none, some}
use koutendb_go.Errors.{Failure}

pub data Result (A : Type 0) : Type 0 where
  ok : A → Result A
  err : Failure → Result A

abbrev pub M : Type 0 → Type 0 → Type 0
M S A = S → Result A × S

module _ {S A : Type 0} where
  abbrev pub pure : A → M S A
  pure a s = (ok a, s)

  abbrev pub fail : Failure → M S A
  fail e s = (err e, s)

  -- A pure step that may fail.
  abbrev pub lift : Result A → M S A
  lift r s = (r, s)

abbrev pub continue : {S A B : Type 0} → (A → M S B) → Result A × S → Result B × S
continue f (ok a, s) = f a s
continue f (err e, s) = (err e, s)

infixl 5 ◌>>=◌ ◌>>◌
abbrev pub ◌>>=◌ : {S A B : Type 0} → M S A → (A → M S B) → M S B
◌>>=◌ m f s = continue f (m s)

abbrev pub ◌>>◌ : {S A B : Type 0} → M S A → M S B → M S B
m >> k = m >>= λ _. k

abbrev pub guard : {S : Type 0} → Bool → Failure → M S (Unit {0})
guard true e s = (ok tt, s)
guard false e s = (err e, s)

-- Pure code that may fail, with its own bind.
abbrev pub and_then : {A B : Type 0} → Result A → (A → Result B) → Result B
and_then (ok a) f = f a
and_then (err e) f = err e

-- `v, err := o; if err != nil { return e }`.
abbrev pub or_err : {A : Type 0} → Option A → Failure → Result A
or_err none e = err e
or_err (some a) e = ok a

-- Inversion of a chain that succeeds, and of one whose steps all fail with one error.
pub and_then-eq-ok :
    {A B : Type 0} (r : Result A) (f : A → Result B) {b : B}
    → and_then r f ≡ ok b
    → (a : A) × (r ≡ ok a) × (f a ≡ ok b)
and_then-eq-ok (ok a) f h = (a, refl, h)
and_then-eq-ok (err e) f h = cc

abbrev pub FailsWith : {A : Type 0} → Failure → Result A → Type 0
FailsWith e (ok a) = Unit
FailsWith e (err e') = e' ≡ e

pub and_then-FailsWith :
    {A B : Type 0} (e : Failure) (r : Result A) (f : A → Result B)
    → FailsWith e r
    → ((a : A) → FailsWith e (f a))
    → FailsWith e (and_then r f)
and_then-FailsWith e (ok a) f h k = k a
and_then-FailsWith e (err e') f h k = h

pub or_err-FailsWith : {A : Type 0} (e : Failure) (o : Option A) → FailsWith e (or_err o e)
or_err-FailsWith e none = refl
or_err-FailsWith e (some a) = tt

pub FailsWith-eq :
    {A : Type 0} (e : Failure) (r : Result A) {e' : Failure} → FailsWith e r → r ≡ err e' → e' ≡ e
FailsWith-eq e (ok a) h p = cc
FailsWith-eq e (err e'') h p = cc
