-- ===== src/Result/Rules.antt =====
-- Rules for the state-passing programs: what every run keeps, and which errors a run can end in.
use koutendb_go.Common.{◌⊎◌, inl, inr, ◌≡◌, refl}
use koutendb_go.Errors.{Failure}
use koutendb_go.Result.{Result, ok, err, M, continue, ◌>>=◌}

-- Every run goes from a state to one that `R` relates to it, whether it fails or not.
abbrev pub Keeps : {S A : Type 0} → (S → S → Type 0) → M S A → Type 0
Keeps {S} R m = (s : S) → R s (m s).1

-- Every error of a run is one of `E`.
abbrev pub Fails : {S A : Type 0} → (Failure → Type 0) → M S A → Type 0
Fails {S} E m = (s : S) (e : Failure) → (m s).0 ≡ err e → E e

continue-keeps :
    {S A B : Type 0} (R : S → S → Type 0)
    → ((a b c : S) → R a b → R b c → R a c)
    → (f : A → M S B) (s : S) (x : Result A × S) → ((a : A) → Keeps R (f a))
    → R s x.1
    → R s (continue f x).1
continue-keeps R trans f s (ok a, s') hf r = trans s s' _ r (hf a s')
continue-keeps R trans f s (err e, s') hf r = r

pub Keeps-bind :
    {S A B : Type 0} (R : S → S → Type 0)
    → ((a b c : S) → R a b → R b c → R a c)
    → (m : M S A) (f : A → M S B) → Keeps R m
    → ((a : A) → Keeps R (f a))
    → Keeps R (m >>= f)
Keeps-bind R trans m f hm hf s = continue-keeps R trans f s (m s) hf (hm s)

continue-fails :
    {S A B : Type 0} (E : Failure → Type 0) (f : A → M S B) (x : Result A × S) (e : Failure)
    → ((e' : Failure) → x.0 ≡ err e' → E e')
    → ((a : A) → Fails E (f a))
    → (continue f x).0 ≡ err e
    → E e
continue-fails E f (ok a, s') e k hf p = hf a s' e p
continue-fails E f (err e', s') e k hf p = let same : e' ≡ e = cc in rw (← same) (k e' refl)

pub Fails-bind :
    {S A B : Type 0} (E : Failure → Type 0) (m : M S A) (f : A → M S B)
    → Fails E m
    → ((a : A) → Fails E (f a))
    → Fails E (m >>= f)
Fails-bind E m f hm hf s e p = continue-fails E f (m s) e (hm s) hf p

continue-eq-ok :
    {S A B : Type 0} (f : A → M S B) (x : Result A × S) {b : B}
    → (continue f x).0 ≡ ok b
    → (a : A) × (x.0 ≡ ok a) × (continue f x ≡ f a x.1)
continue-eq-ok f (ok a, s') h = (a, refl, refl)
continue-eq-ok f (err e, s') h = cc

-- Inversion of a run that succeeds: its first part did.
pub >>=-eq-ok :
    {S A B : Type 0} (m : M S A) (f : A → M S B) (s : S) {b : B}
    → ((m >>= f) s).0 ≡ ok b
    → (a : A) × ((m s).0 ≡ ok a) × ((m >>= f) s ≡ f a (m s).1)
>>=-eq-ok m f s h = continue-eq-ok f (m s) h

continue-eq-err :
    {S A B : Type 0} (f : A → M S B) (x : Result A × S) (e : Failure)
    → (continue f x).0 ≡ err e
    → (x.0 ≡ err e) ⊎ ((a : A) × (x.0 ≡ ok a) × ((f a x.1).0 ≡ err e))
continue-eq-err f (ok a, s) e h = inr (a, refl, h)
continue-eq-err f (err e', s) e h = inl (cc)

-- Inversion of a run that fails: its first part did, or the rest of it.
pub >>=-eq-err :
    {S A B : Type 0} (m : M S A) (f : A → M S B) (s : S) (e : Failure)
    → ((m >>= f) s).0 ≡ err e
    → ((m s).0 ≡ err e) ⊎ ((a : A) × ((m s).0 ≡ ok a) × ((f a (m s).1).0 ≡ err e))
>>=-eq-err m f s e h = continue-eq-err f (m s) e h

-- From a state with `P`, a run that succeeds gives a result with `Q`.
abbrev pub Gives : {S A : Type 0} → (S → Type 0) → (A → Type 0) → M S A → Type 0
Gives {S} {A} P Q m = (s : S) → P s → (a : A) → (m s).0 ≡ ok a → Q a

continue-gives :
    {S A B : Type 0} (P : S → Type 0) (N : A → Type 0) (Q : B → Type 0) (f : A → M S B)
    (x : Result A × S) (b : B)
    → P x.1
    → ((a : A) → x.0 ≡ ok a → N a)
    → ((a : A) → N a → Gives P Q (f a))
    → (continue f x).0 ≡ ok b
    → Q b
continue-gives P N Q f (ok a, s) b p n k h = k a (n a refl) s p b h
continue-gives P N Q f (err e, s) b p n k h = cc

pub Gives-bind :
    {S A B : Type 0} (P : S → Type 0) (N : A → Type 0) (Q : B → Type 0) (m : M S A) (f : A → M S B)
    → ((s : S) → P s → P (m s).1)
    → Gives P N m
    → ((a : A) → N a → Gives P Q (f a))
    → Gives P Q (m >>= f)
Gives-bind P N Q m f keep n k s p b h = continue-gives P N Q f (m s) b (keep s p) (n s p) k h

-- A run that succeeds ends in a state with `Q`.
abbrev pub Ends : {S A : Type 0} → (S → Type 0) → M S A → Type 0
Ends {S} {A} Q m = (s : S) (a : A) → (m s).0 ≡ ok a → Q (m s).1

-- The last part of a run establishes `Q`.
pub Ends-last :
    {S A B : Type 0} (Q : S → Type 0) (m : M S A) (f : A → M S B)
    → ((a : A) → Ends Q (f a))
    → Ends Q (m >>= f)
Ends-last {S} {A} {B} Q m f k s b h = go (m s) h
  where
    go : (x : Result A × S) → (continue f x).0 ≡ ok b → Q (continue f x).1
    go (ok a, t) h' = k a t b h'
    go (err e, t) h' = cc
