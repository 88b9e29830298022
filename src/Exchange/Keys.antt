-- ===== src/Exchange/Keys.antt =====
-- `exchange` and the connection's transport key.
use koutendb_go.Common.{
  ℕ, zero, suc, ◌≡◌, refl, ap, ◌∙◌, inl, inr, [], ◌∷◌, Bytes, length, drop, ◌==◌, Bool-cases,
}
use koutendb_go.Common.Int.{pos_part}
use koutendb_go.Errors.{is_error}
use koutendb_go.Result.{Result, ok, err, M}
use koutendb_go.Result.Rules.{Keeps, Keeps-bind}
use koutendb_go.Wire.{Crypto, Wire}
use koutendb_go.Options.{Options}
use koutendb_go.Environment.{Ctx, Env, WriteOutcome, wrote, write_failed}
use koutendb_go.Exchange.{
  Link, check, written, write_some, send, settle, receive, arm, prepare, transmit, exchange,
}
use koutendb_go.Exchange.Quiet.{Quiet, check-Quiet, arm-Quiet, prepare-Quiet}

abbrev pub SameKey : Link → Link → Type 0
SameKey s u = u.wire.key ≡ s.wire.key

pub SameKey-trans : (a b c : Link) → SameKey a b → SameKey b c → SameKey a c
SameKey-trans a b c p q = q ∙ p

Quiet-SameKey : {A : Type 0} (m : M Link A) → Keeps Quiet m → Keeps SameKey m
Quiet-SameKey m k s = ap (λ (w : Wire). w.key) (k s).0

written-SameKey : (x : Ctx) (frame : Bytes) (o : WriteOutcome) → Keeps SameKey (written x frame o)
written-SameKey x frame (write_failed n b) s = refl
written-SameKey x frame (wrote n) s = elim (Bool-cases (n == 0)) [
  | inl stuck ↦ rw stuck refl
  | inr some_written ↦ rw some_written refl
]

module _ (E : Env) (C : Crypto) (x : Ctx) (o : Options) where
  send-SameKey : (fuel : ℕ) (frame : Bytes) → Keeps SameKey (send E x fuel frame)
  unfolding send write_some
  send-SameKey fuel [] s = refl
  send-SameKey zero (b ∷ frame) s = refl
  send-SameKey (suc fuel) (b ∷ frame) s =
      Keeps-bind SameKey SameKey-trans (check x) _ (Quiet-SameKey (check x) (check-Quiet x))
        (λ _.
          Keeps-bind SameKey SameKey-trans (write_some E x (b ∷ frame)) _
            (λ t. written-SameKey x (b ∷ frame) (E.write t.now (b ∷ frame)) t)
            λ n. send-SameKey fuel (drop n (b ∷ frame)))
        s

  settle-SameKey :
      {A : Type 0} (s : Link) (r : Result A × Wire)
      → r.1.key ≡ s.wire.key
      → SameKey s (settle x s r).1
  settle-SameKey s (ok a, w) same = same
  settle-SameKey s (err e, w) same = elim (Bool-cases (is_error e)) [
    | inl own ↦ rw own same
    | inr foreign ↦ rw foreign same
  ]

  -- An exchange leaves the transport key, if its reply does.
  pub exchange-SameKey :
      {A : Type 0} (head body : Bytes) (reply : M Wire A)
      → Keeps (λ w u. u.key ≡ w.key) reply
      → Keeps SameKey (exchange E C x o head body reply)
  unfolding exchange transmit receive
  exchange-SameKey head body reply keeps =
      Keeps-bind SameKey SameKey-trans (prepare E C x o head body) _
        (Quiet-SameKey (prepare E C x o head body) (prepare-Quiet E C x o head body))
        λ frame.
          Keeps-bind SameKey SameKey-trans (send E x (length frame) frame) _
            (send-SameKey (length frame) frame)
            λ _.
              Keeps-bind SameKey SameKey-trans (arm E x (pos_part o.read_timeout)) _
                (Quiet-SameKey (arm E x (pos_part o.read_timeout))
                  (arm-Quiet E x (pos_part o.read_timeout)))
                λ _.
                  Keeps-bind SameKey SameKey-trans (check x) _
                    (Quiet-SameKey (check x) (check-Quiet x))
                    λ _ s. settle-SameKey s (reply s.wire) (keeps s.wire)
