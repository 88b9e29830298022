-- ===== src/Exchange/Outcome.antt =====
-- `exchange` as a whole: what has been written when it returns, and what its success means.
use koutendb_go.Common.{◌≡◌, refl, ap, ◌∙◌, ◌⊎◌, inl, inr, ◌∷◌, ◌++◌, Bytes, length, Bool-cases}
use koutendb_go.Common.Int.{pos_part}
use koutendb_go.Errors.{is_error}
use koutendb_go.Result.{Result, ok, err, M, ◌>>◌, continue}
use koutendb_go.Result.Rules.{Keeps, Keeps-bind, >>=-eq-ok}
use koutendb_go.Wire.{Crypto, Wire}
use koutendb_go.Options.{Options}
use koutendb_go.Environment.{Ctx, Env}
use koutendb_go.Exchange.{Link, check, arm, send, settle, receive, prepare, transmit, exchange}
use koutendb_go.Exchange.Sent.{Progress, send-Progress, send_all}
use koutendb_go.Exchange.Quiet.{
  Quiet, Silent, Encodes, check-Quiet, arm-Quiet, prepare-Quiet, prepare-Encodes, Silent-trans,
  Quiet-Silent, SameOutbox, settle-Silent,
}

module _ (E : Env) (C : Crypto) (x : Ctx) (o : Options) {A : Type 0} (reply : M Wire A)
    (quiet_reply : Keeps SameOutbox reply) where
  receive-Silent : Keeps Silent (receive x reply)
  unfolding receive
  receive-Silent s = settle-Silent x s (reply s.wire) (quiet_reply s.wire)

  -- The part of `transmit` behind the writes.
  finish : M Link A
  finish = arm E x (pos_part o.read_timeout) >> (check x >> receive x reply)

  finish-Silent : Keeps Silent finish
  unfolding finish
  finish-Silent =
      Keeps-bind Silent Silent-trans (arm E x (pos_part o.read_timeout)) _
        (Quiet-Silent (arm E x (pos_part o.read_timeout)) (arm-Quiet E x (pos_part o.read_timeout)))
        λ _.
          Keeps-bind Silent Silent-trans (check x) _ (Quiet-Silent (check x) (check-Quiet x))
            λ _. receive-Silent

  Progress-Silent :
      (frame : Bytes) (s t u : Link) → Progress frame s t → Silent t u → Progress frame s u
  Progress-Silent frame s t u (inl (same, flag)) (out, kept) = inl (cc, cc)
  Progress-Silent frame s t u (inr (flag, (k, sent))) (out, kept) = inr (cc, (k, cc))

  Silent-Progress :
      (frame : Bytes) (s t u : Link)
      → t.wire.outbox ≡ s.wire.outbox
      → t.attempted ≡ s.attempted
      → Progress frame t u
      → Progress frame s u
  Silent-Progress frame s t u same flag (inl (out, kept)) = inl (cc, cc)
  Silent-Progress frame s t u same flag (inr (set, (k, sent))) = inr (set, (k, cc))

  transmit-Progress : (frame : Bytes) (s : Link) → Progress frame s (transmit E x o reply frame s).1
  unfolding transmit finish
  transmit-Progress frame s =
      go (send E x (length frame) frame s) (send-Progress E x (length frame) frame s)
    where
      go :
          (r : Result (Unit {0}) × Link)
          → Progress frame s r.1
          → Progress frame s (continue (λ _. finish) r).1
      go (ok _, t) p = Progress-Silent frame s t (finish t).1 p (finish-Silent t)
      go (err e, t) p = p

  transmit_all :
      (frame : Bytes) (s : Link) (a : A)
      → (transmit E x o reply frame s).0 ≡ ok a
      → (transmit E x o reply frame s).1.wire.outbox ≡ s.wire.outbox ++ frame
  unfolding transmit finish
  transmit_all frame s a h =
      let (_, sent, rest) = >>=-eq-ok (send E x (length frame) frame) (λ _. finish) s h in
      let t = (send E x (length frame) frame s).1 in
      rw rest ((finish-Silent t).0 ∙ send_all E x (length frame) frame s sent)

  module _ (head body : Bytes) where
    -- For a reply that writes nothing: when an exchange returns, with success or an error, either
    -- nothing has been written and the flag attempted is as before, or the flag is set and a prefix of
    -- one encoding of the request has been written.
    pub exchange_sent :
        (s : Link)
        → let u = (exchange E C x o head body reply s).1 in
          Silent s u
          ⊎ ((frame : Bytes) × Encodes C s.wire.key (head ++ b'\n' ∷ body) frame
              × Progress frame s u)
    unfolding exchange
    exchange_sent s =
        go (prepare E C x o head body s) (prepare-Quiet E C x o head body s)
          (prepare-Encodes E C x o head body s)
      where
        text : Bytes
        text = head ++ b'\n' ∷ body

        go :
            (r : Result Bytes × Link)
            → Quiet s r.1
            → ((f : Bytes) → r.0 ≡ ok f → Encodes C s.wire.key text f)
            → Silent s (continue (transmit E x o reply) r).1
              ⊎ ((frame : Bytes) × Encodes C s.wire.key text frame
                  × Progress frame s (continue (transmit E x o reply) r).1)
        go (err e, t) (same, flag) enc = inl (ap (λ (w : Wire). w.outbox) same, flag)
        go (ok frame, t) (same, flag) enc = inr (
          frame,
          enc frame refl,
          Silent-Progress frame s t (transmit E x o reply frame t).1
              (ap (λ (w : Wire). w.outbox) same) flag (transmit-Progress frame t),
        )

    -- For a reply that writes nothing, an exchange that succeeds has written one whole encoding of the
    -- request behind what had been written before.
    pub exchange_whole :
        (s : Link) (a : A)
        → (exchange E C x o head body reply s).0 ≡ ok a
        → (frame : Bytes) × Encodes C s.wire.key (head ++ b'\n' ∷ body) frame
          × ((exchange E C x o head body reply s).1.wire.outbox ≡ s.wire.outbox ++ frame)
    unfolding exchange
    exchange_whole s a h =
        let (frame, prepared, rest) =
          >>=-eq-ok (prepare E C x o head body) (transmit E x o reply) s h in
        let t = (prepare E C x o head body s).1 in
        let (same, _) = prepare-Quiet E C x o head body s in
        let all = transmit_all frame t a (rw (← rest) h) in
        (frame, prepare-Encodes E C x o head body s frame prepared, rw rest (rw same at all))

settle-eq-ok :
    {A : Type 0} (x : Ctx) (s : Link) (r : Result A × Wire) (a : A)
    → (settle x s r).0 ≡ ok a
    → r.0 ≡ ok a
settle-eq-ok x s (ok b, w) a h = h
settle-eq-ok x s (err e, w) a h = elim (Bool-cases (is_error e)) [
  | inl own ↦ cc (rw own at h)
  | inr foreign ↦ cc (rw foreign at h)
]

-- The result of an exchange is one that its reply gave, on some state of the connection.
pub exchange_reply :
    {A : Type 0} (E : Env) (C : Crypto) (x : Ctx) (o : Options) (head body : Bytes)
    (reply : M Wire A) (s : Link) (a : A)
    → (exchange E C x o head body reply s).0 ≡ ok a
    → (w : Wire) × ((reply w).0 ≡ ok a)
unfolding exchange transmit receive
exchange_reply {A = A} E C x o head body reply s a h =
    let (frame, _, r) = >>=-eq-ok (prepare E C x o head body) (transmit E x o reply) s h in
    let t = (prepare E C x o head body s).1 in
    let (_, _, r1) = >>=-eq-ok (send E x (length frame) frame) (λ _. rest) t {b = a} (rw (← r) h) in
    let t1 = (send E x (length frame) frame t).1 in
    let (_, _, r2) =
      >>=-eq-ok (arm E x (pos_part o.read_timeout)) (λ _. check x >> receive x reply) t1 {b = a}
        (rw (← r1, ← r) h) in
    let t2 = (arm E x (pos_part o.read_timeout) t1).1 in
    let (_, _, r3) =
      >>=-eq-ok (check x) (λ _. receive x reply) t2 {b = a} (rw (← r2, ← r1, ← r) h) in
    let t3 = (check x t2).1 in
    (t3.wire, settle-eq-ok x t3 (reply t3.wire) a (rw (← r3, ← r2, ← r1, ← r) h))
  where
    rest : M Link A
    rest = arm E x (pos_part o.read_timeout) >> (check x >> receive x reply)
