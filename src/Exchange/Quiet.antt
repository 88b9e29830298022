-- ===== src/Exchange/Quiet.antt =====
-- wire.go: the parts of `exchange` around its writes.
use koutendb_go.Common.{
  ℕ, ◌≡◌, refl, ap, ◌∙◌, inl, inr, Bool, true, false, ◌∷◌, ◌++◌, Option, none, some, Bytes,
  Bool-cases,
}
use koutendb_go.Common.Int.{pos_part}
use koutendb_go.Errors.{Failure, CtxError, sentinel, input, is_error}
use koutendb_go.Result.{Result, ok, err, M, guard}
use koutendb_go.Result.Rules.{Keeps, Keeps-bind, Gives-bind}
use koutendb_go.Wire.{Crypto, encrypt, sealed, Wire}
use koutendb_go.Options.{Options}
use koutendb_go.Environment.{Ctx, Env, deadline}
use koutendb_go.Exchange.{
  Link, check_at, check, seal_with, frame_with, frame_of, armed, arm, settle, is_sendable, prepare,
}

-- The connection and the flag stay as they are.
abbrev pub Quiet : Link → Link → Type 0
Quiet s u = (u.wire ≡ s.wire) × (u.attempted ≡ s.attempted)

-- What has been written and the flag stay as they are.
abbrev pub Silent : Link → Link → Type 0
Silent s u = (u.wire.outbox ≡ s.wire.outbox) × (u.attempted ≡ s.attempted)

Quiet-trans : (a b c : Link) → Quiet a b → Quiet b c → Quiet a c
Quiet-trans a b c p q = (cc, cc)

-- The bytes of a request on a connection: its text, or a sealed frame of its text.
abbrev pub Encodes : Crypto → Option Bytes → Bytes → Bytes → Type 0
Encodes C none text frame = frame ≡ text
Encodes C (some key) text frame = (nonce : Bytes) × (frame ≡ sealed (encrypt C key nonce text))

check_at-Quiet : (c : Option CtxError) → Keeps Quiet (check_at c)
check_at-Quiet none s = (refl, refl)
check_at-Quiet (some e) s = (refl, refl)

pub check-Quiet : (x : Ctx) → Keeps Quiet (check x)
unfolding check
check-Quiet x s = check_at-Quiet (x.err_at s.now) s

armed-Quiet : (x : Ctx) (o : Option Bool) → Keeps Quiet (armed x o)
armed-Quiet x none s = (refl, refl)
armed-Quiet x (some b) s = (refl, refl)

pub arm-Quiet : (E : Env) (x : Ctx) (d : ℕ) → Keeps Quiet (arm E x d)
unfolding arm
arm-Quiet E x d s = armed-Quiet x (E.set_deadline s.now (deadline x (E.time s.now) d)) s

seal_with-Quiet :
    (C : Crypto) (key frame : Bytes) (o : Option Bytes) → Keeps Quiet (seal_with C key frame o)
seal_with-Quiet C key frame none s = (refl, refl)
seal_with-Quiet C key frame (some nonce) s = (refl, refl)

frame_of-Quiet : (E : Env) (C : Crypto) (text : Bytes) → Keeps Quiet (frame_of E C text)
unfolding frame_of
frame_of-Quiet E C text s = go s.wire.key
  where
    go : (k : Option Bytes) → Quiet s (frame_with E C text k s).1
    go none = (refl, refl)
    go (some key) = seal_with-Quiet C key text (E.nonce s.now) s

guard-Quiet : (b : Bool) (e : Failure) → Keeps Quiet (guard b e)
guard-Quiet true e s = (refl, refl)
guard-Quiet false e s = (refl, refl)

seal_with-Encodes :
    (C : Crypto) (key text : Bytes) (o : Option Bytes) (s : Link) (f : Bytes)
    → (seal_with C key text o s).0 ≡ ok f
    → Encodes C (some key) text f
seal_with-Encodes C key text none s f h = cc
seal_with-Encodes C key text (some nonce) s f h = (nonce, cc)

frame_of-Encodes :
    (E : Env) (C : Crypto) (text : Bytes) (s : Link) (f : Bytes)
    → (frame_of E C text s).0 ≡ ok f
    → Encodes C s.wire.key text f
unfolding frame_of
frame_of-Encodes E C text s f h = go s.wire.key h
  where
    go : (k : Option Bytes) → (frame_with E C text k s).0 ≡ ok f → Encodes C k text f
    go none h = cc
    go (some key) h = seal_with-Encodes C key text (E.nonce s.now) s f h

module _ (E : Env) (C : Crypto) (x : Ctx) (o : Options) (head body : Bytes) where
  pub prepare-Quiet : Keeps Quiet (prepare E C x o head body)
  unfolding prepare
  prepare-Quiet = Keeps-bind Quiet Quiet-trans (check x) _ (check-Quiet x) λ _.
      Keeps-bind Quiet Quiet-trans (guard (is_sendable o head body) (sentinel input)) _
        (guard-Quiet (is_sendable o head body) (sentinel input))
        λ _.
          Keeps-bind Quiet Quiet-trans (frame_of E C (head ++ b'\n' ∷ body)) _
            (frame_of-Quiet E C (head ++ b'\n' ∷ body))
            λ frame.
              Keeps-bind Quiet Quiet-trans (arm E x (pos_part o.write_timeout)) _
                (arm-Quiet E x (pos_part o.write_timeout)) λ _ s. (refl, refl)

  -- A prepared frame encodes the request.
  pub prepare-Encodes :
      (s : Link) (f : Bytes)
      → (prepare E C x o head body s).0 ≡ ok f
      → Encodes C s.wire.key (head ++ b'\n' ∷ body) f
  unfolding prepare
  prepare-Encodes s f h =
      Gives-bind P Any Q (check x) _ (keyed (check x) (check-Quiet x)) (λ _ _ _ _. tt)
        (λ _ _.
          Gives-bind P Any Q (guard sendable (sentinel input)) _
            (keyed (guard sendable (sentinel input)) (guard-Quiet sendable (sentinel input)))
            (λ _ _ _ _. tt)
            λ _ _.
              Gives-bind P Q Q (frame_of E C text) _
                (keyed (frame_of E C text) (frame_of-Quiet E C text))
                (λ t p f' e. rw (← p) (frame_of-Encodes E C text t f' e))
                λ f' q.
                  Gives-bind P Any Q (arm E x (pos_part o.write_timeout)) _
                    (keyed (arm E x (pos_part o.write_timeout))
                      (arm-Quiet E x (pos_part o.write_timeout)))
                    (λ _ _ _ _. tt) λ _ _ t p f'' e. let same : f' ≡ f'' = cc in rw (← same) q)
        s refl f h
    where
      text : Bytes
      text = head ++ b'\n' ∷ body

      sendable : Bool
      sendable = is_sendable o head body

      P : Link → Type 0
      P t = t.wire.key ≡ s.wire.key

      Any : {A : Type 0} → A → Type 0
      Any _ = Unit

      Q : Bytes → Type 0
      Q = Encodes C s.wire.key text

      keyed : {A : Type 0} (m : M Link A) → Keeps Quiet m → (t : Link) → P t → P (m t).1
      keyed m k t p = ap (λ (w : Wire). w.key) (k t).0 ∙ p

-- What follows the writes leaves what has been written.
pub Silent-trans : (a b c : Link) → Silent a b → Silent b c → Silent a c
Silent-trans a b c p q = (cc, cc)

pub Quiet-Silent : {A : Type 0} (m : M Link A) → Keeps Quiet m → Keeps Silent m
Quiet-Silent m k s = (ap (λ (w : Wire). w.outbox) (k s).0, (k s).1)

abbrev pub SameOutbox : Wire → Wire → Type 0
SameOutbox w u = u.outbox ≡ w.outbox

pub settle-Silent :
    {A : Type 0} (x : Ctx) (s : Link) (r : Result A × Wire)
    → SameOutbox s.wire r.1
    → Silent s (settle x s r).1
settle-Silent x s (ok a, w) same = (same, refl)
settle-Silent x s (err e, w) same = elim (Bool-cases (is_error e)) [
  | inl own ↦ rw own (same, refl)
  | inr foreign ↦ rw foreign (same, refl)
]
