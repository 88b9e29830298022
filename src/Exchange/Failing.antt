-- ===== src/Exchange/Failing.antt =====
-- The errors of an exchange: those of the driver and of the context, and never one of the network or
-- the end of the model's fuel. Requests that may not be sent, and done contexts.
use koutendb_go.Common.{
  ℕ, zero, suc, ◌≤◌, ◌<◌, ◌≡◌, ◌≢◌, refl, ◌⊎◌, inl, inr, Bool, true, false, [], ◌∷◌, ◌++◌, Option,
  none, some, Bytes, length, length-drop, drop, ◌==◌, arith, Bool-cases,
}
use koutendb_go.Common.Int.{pos_part}
use koutendb_go.Errors.{
  Failure, CtxError, sentinel, ctx, io, other, out_of_fuel, input, connection, is_error, io_error,
  wrap,
}
use koutendb_go.Result.{Result, ok, err, M, guard}
use koutendb_go.Result.Rules.{Fails, Fails-bind, >>=-eq-err}
use koutendb_go.Wire.{Crypto, Wire}
use koutendb_go.Options.{Options}
use koutendb_go.Environment.{Ctx, Env, WriteOutcome, wrote, write_failed, deadline}
use koutendb_go.Exchange.{
  Link, tick, check_at, check, raise_io, seal_with, frame_with, frame_of, armed, arm, put_out,
  written, write_some, send, settle, receive, is_sendable, prepare, transmit, exchange,
}

-- An error that a caller can meet: an `*Error`, or an error of the context.
abbrev pub IsDriverError : Failure → Type 0
IsDriverError e = (is_error e ≡ true) ⊎ ((c : CtxError) × (e ≡ ctx c))

pub io_error-IsDriverError :
    (c : Option CtxError) (e : Failure) → e ≢ out_of_fuel → IsDriverError (io_error c e)
unfolding io_error is_error
io_error-IsDriverError c out_of_fuel ne = absurd (ne refl)
io_error-IsDriverError (some c) (sentinel k) ne = inr (c, refl)
io_error-IsDriverError (some c) (wrap k e) ne = inr (c, refl)
io_error-IsDriverError (some c) (ctx e) ne = inr (c, refl)
io_error-IsDriverError (some c) (io b) ne = inr (c, refl)
io_error-IsDriverError (some c) (other m) ne = inr (c, refl)
io_error-IsDriverError none (other m) ne = ground arith
io_error-IsDriverError none (sentinel k) ne = ground arith
io_error-IsDriverError none (wrap k e) ne = ground arith
io_error-IsDriverError none (ctx e) ne = ground arith
io_error-IsDriverError none (io b) ne = ground arith

sentinel-IsDriverError : (k : _) → IsDriverError (sentinel k)
unfolding is_error
sentinel-IsDriverError k = inl refl

raise_io-Fails : {A : Type 0} (x : Ctx) (b : Bool) → Fails IsDriverError (raise_io {A = A} x (io b))
raise_io-Fails x b s e h =
    let same : io_error (x.err_at s.now) (io b) ≡ e = cc in
    rw (← same) (io_error-IsDriverError (x.err_at s.now) (io b) (λ q. cc))

check-Fails : (x : Ctx) → Fails IsDriverError (check x)
unfolding check
check-Fails x s e = go (x.err_at s.now)
  where
    go : (c : Option CtxError) → (check_at c s).0 ≡ err e → IsDriverError e
    go none h = cc
    go (some c) h = inr (c, cc)

arm-Fails : (E : Env) (x : Ctx) (d : ℕ) → Fails IsDriverError (arm E x d)
unfolding arm
arm-Fails E x d s e = go (E.set_deadline s.now (deadline x (E.time s.now) d))
  where
    go : (o : Option Bool) → (armed x o s).0 ≡ err e → IsDriverError e
    go none h = cc
    go (some b) h = raise_io-Fails {A = Unit {0}} x b (tick s) e h

frame_of-Fails : (E : Env) (C : Crypto) (text : Bytes) → Fails IsDriverError (frame_of E C text)
unfolding frame_of
frame_of-Fails E C text s e = go s.wire.key
  where
    sealing :
        (key : Bytes) (o : Option Bytes) → (seal_with C key text o s).0 ≡ err e → IsDriverError e
    sealing key none h =
        let same : sentinel connection ≡ e = cc in rw (← same) (sentinel-IsDriverError connection)
    sealing key (some nonce) h = cc

    go : (k : Option Bytes) → (frame_with E C text k s).0 ≡ err e → IsDriverError e
    go none h = cc
    go (some key) h = sealing key (E.nonce s.now) h

guard-Fails : (b : Bool) → Fails {S = Link} IsDriverError (guard b (sentinel input))
guard-Fails true s e h = cc
guard-Fails false s e h =
    let same : sentinel input ≡ e = cc in rw (← same) (sentinel-IsDriverError input)

written-Fails :
    (x : Ctx) (frame : Bytes) (o : WriteOutcome) → Fails IsDriverError (written x frame o)
written-Fails x frame (write_failed n b) s e h = raise_io-Fails {A = ℕ} x b (put_out n frame s) e h
written-Fails x frame (wrote n) s e h = elim (Bool-cases (n == 0)) [
  | inl stuck ↦
      let same : sentinel connection ≡ e = cc (rw stuck at h) in
      rw (← same) (sentinel-IsDriverError connection)
  | inr some_written ↦ cc (rw some_written at h)
]

written_positive :
    (x : Ctx) (frame : Bytes) (o : WriteOutcome) (s : Link) (n : ℕ)
    → (written x frame o s).0 ≡ ok n
    → 0 < n
written_positive x frame (write_failed m b) s n h = cc
written_positive x frame (wrote m) s n h = ground arith

-- A round takes a byte at least off the frame, so as many rounds as it has bytes are enough.
send_fails :
    (E : Env) (x : Ctx) (fuel : ℕ) (frame : Bytes) (s : Link) (e : Failure)
    → length frame ≤ fuel
    → (send E x fuel frame s).0 ≡ err e
    → IsDriverError e
unfolding send
send_fails E x fuel [] s e enough h = cc
send_fails E x zero (b ∷ frame) s e enough h = absurd (omega arith)
send_fails E x (suc fuel) (b ∷ frame) s e enough h = elim (>>=-eq-err (check x) _ s e h) [
  | inl failed ↦ check-Fails x s e failed
  | inr (_, _, rest) ↦
      let t = (check x s).1 in
      elim (>>=-eq-err (write_some E x (b ∷ frame)) _ t e rest) [
        | inl failed ↦
            unfold write_some in written-Fails x (b ∷ frame) (E.write t.now (b ∷ frame)) t e failed
        | inr (n, wrote_n, later) ↦
            let u = (write_some E x (b ∷ frame) t).1 in
            let some_written : 0 < n =
              unfold write_some in
              written_positive x (b ∷ frame) (E.write t.now (b ∷ frame)) t n wrote_n in
            send_fails E x fuel (drop n (b ∷ frame)) u e (omega (arith, length-drop n (b ∷ frame)))
              later
      ]
]

abbrev pub IsFinite : Failure → Type 0
IsFinite e = e ≢ out_of_fuel

settle-fails :
    {A : Type 0} (x : Ctx) (s : Link) (r : Result A × Wire) (e : Failure)
    → ((f : Failure) → r.0 ≡ err f → IsFinite f)
    → (settle x s r).0 ≡ err e
    → IsDriverError e
settle-fails x s (ok a, w) e fin h = cc
settle-fails x s (err f, w) e fin h = elim (Bool-cases (is_error f)) [
  | inl own ↦ let same : f ≡ e = cc (rw own at h) in rw (← same) (inl own)
  | inr foreign ↦
      let same : io_error (x.err_at s.now) f ≡ e = cc (rw foreign at h) in
      rw (← same) (io_error-IsDriverError (x.err_at s.now) f (fin f refl))
]

module _ (E : Env) (C : Crypto) (x : Ctx) (o : Options) where
  prepare-Fails : (head body : Bytes) → Fails IsDriverError (prepare E C x o head body)
  unfolding prepare
  prepare-Fails head body = Fails-bind D (check x) _ (check-Fails x) λ _.
      Fails-bind D (guard (is_sendable o head body) (sentinel input)) _
        (guard-Fails (is_sendable o head body))
        λ _.
          Fails-bind D (frame_of E C (head ++ b'\n' ∷ body)) _
            (frame_of-Fails E C (head ++ b'\n' ∷ body))
            λ frame.
              Fails-bind D (arm E x (pos_part o.write_timeout)) _
                (arm-Fails E x (pos_part o.write_timeout)) λ _ s e h. cc
    where
      D : Failure → Type 0
      D = IsDriverError

  transmit-Fails :
      {A : Type 0} (reply : M Wire A) (frame : Bytes)
      → Fails IsFinite reply
      → Fails IsDriverError (transmit E x o reply frame)
  unfolding transmit receive
  transmit-Fails reply frame fin =
      Fails-bind D (send E x (length frame) frame) _
        (λ s e h. send_fails E x (length frame) frame s e (omega arith) h)
        λ _.
          Fails-bind D (arm E x (pos_part o.read_timeout)) _
            (arm-Fails E x (pos_part o.read_timeout))
            λ _.
              Fails-bind D (check x) _ (check-Fails x)
                λ _ s e h. settle-fails x s (reply s.wire) e (fin s.wire) h
    where
      D : Failure → Type 0
      D = IsDriverError

  -- For a reply that never runs out of fuel, an exchange that fails ends in an *Error or an error of
  -- the context; its loop of writes does not run out of fuel.
  pub exchange-Fails :
      {A : Type 0} (reply : M Wire A) (head body : Bytes)
      → Fails IsFinite reply
      → (s : Link) (e : Failure) → (exchange E C x o head body reply s).0 ≡ err e
      → IsDriverError e
  unfolding exchange
  exchange-Fails reply head body fin =
      Fails-bind IsDriverError (prepare E C x o head body) _ (prepare-Fails head body)
        λ frame. transmit-Fails reply frame fin

  -- With a live context, a header that is too long or holds a line break or a zero byte, or a body
  -- above the limit, is ErrInvalidInput, and the connection and the flag stay as they are.
  pub exchange_unsendable :
      {A : Type 0} (reply : M Wire A) (head body : Bytes) (s : Link)
      → x.err_at s.now ≡ none
      → is_sendable o head body ≡ false
      → exchange E C x o head body reply s ≡ (err (sentinel input), tick s)
  unfolding exchange prepare check
  exchange_unsendable reply head body s alive bad = rw (alive, bad)

  -- With a context that is done, an exchange returns its error and does nothing.
  pub exchange_done :
      {A : Type 0} (reply : M Wire A) (head body : Bytes) (s : Link) (c : CtxError)
      → x.err_at s.now ≡ some c
      → exchange E C x o head body reply s ≡ (err (ctx c), tick s)
  unfolding exchange prepare check
  exchange_done reply head body s c done = rw done
