-- ===== src/Client/Retry.antt =====
-- client.go: `readOperation`, which reads are tried again and what an error leaves behind.
use koutendb_go.Common.{
  ◌≡◌, refl, sym, ◌⊎◌, inl, inr, Bool, true, false, ◌||◌, ◌&&◌, not, Option, none, some, [],
  Bool-cases,
}
use mathlib.Core.Path.{subst}
use koutendb_go.Errors.{Failure, CtxError, ctx, connection, timeout, is_kind}
use koutendb_go.Result.{Result, ok, err, M}
use koutendb_go.Options.{Options}
use koutendb_go.Environment.{Ctx}
use koutendb_go.Client.{Client, tick, drop}
use koutendb_go.Client.Read.{is_retryable, retry_at, after_op, attempts}

-- The options or the kind of the error forbid a second round, or both allow it.
abbrev pub IsFinal : Options → Failure → Type 0
IsFinal o e =
    (o.disable_read_retry ≡ true) ⊎ ((is_kind e connection ≡ false) × (is_kind e timeout ≡ false))

abbrev pub MayRetry : Options → Failure → Type 0
MayRetry o e =
    (o.disable_read_retry ≡ false) × ((is_kind e connection ≡ true) ⊎ (is_kind e timeout ≡ true))

-- The error of a round that is reported: that of the context, if it is done.
abbrev pub Reported : Option CtxError → Failure → Failure → Type 0
Reported none e f = f ≡ e
Reported (some ce) e f = f ≡ ctx ce

retry_cases :
    (o : Options) (e : Failure)
    → ((is_retryable o e ≡ true) × MayRetry o e) ⊎ ((is_retryable o e ≡ false) × IsFinal o e)
unfolding is_retryable
retry_cases o e = go o.disable_read_retry (is_kind e connection) (is_kind e timeout)
  where
    go :
        (d k t : Bool)
        → (((not d && (k || t)) ≡ true) × ((d ≡ false) × ((k ≡ true) ⊎ (t ≡ true))))
          ⊎ (((not d && (k || t)) ≡ false) × ((d ≡ true) ⊎ ((k ≡ false) × (t ≡ false))))
    go true k t = inr (refl, inl refl)
    go false true t = inl (refl, (refl, inl refl))
    go false false true = inl (refl, (refl, inr refl))
    go false false false = inr (refl, inr (refl, refl))

module _ {A : Type 0} (x : Ctx) where
  after_op-drops :
      (r : Result A × Client) (e : Failure)
      → (after_op x none r).0 ≡ err e
      → (after_op x none r).1.connections ≡ []
  unfolding drop
  after_op-drops (ok a, c) e h = cc
  after_op-drops (err f, c) e h = go (x.err_at c.now)
    where
      go : (o : Option CtxError) → (retry_at {A = A} none f o (drop c)).1.connections ≡ []
      go none = refl
      go (some ce) = refl

  last_error :
      (e : Failure) (c : Client) (o : Option CtxError) (a : A) → (retry_at none e o c).0 ≡ ok a → ⊥
  last_error e c none a h = cc
  last_error e c (some ce) a h = cc

  last_ok : (r : Result A × Client) (a : A) → (after_op x none r).0 ≡ ok a → after_op x none r ≡ r
  last_ok (ok b, c) a h = refl
  last_ok (err e, c) a h = elim (last_error e (drop c) (x.err_at c.now) a h) [ ]

  -- A read that fails, after one round or two, leaves no connection open.
  pub attempts-drops :
      (op : M Client A) (c : Client) (e : Failure)
      → (attempts x op c).0 ≡ err e
      → (attempts x op c).1.connections ≡ []
  unfolding attempts drop
  attempts-drops op c e h = go (op c) h
    where
      again : M Client A
      again c' = after_op x none (op c')

      at :
          (f : Failure) (d : Client) (o : Option CtxError)
          → (retry_at (some again) f o (drop d)).0 ≡ err e
          → (retry_at (some again) f o (drop d)).1.connections ≡ []
      at f d (some ce) k = refl
      at f d none k = elim (Bool-cases (is_retryable d.opts f)) [
        | inl retry ↦ rw retry (after_op-drops (op (tick (drop d))) e (rw retry at k))
        | inr final ↦ rw final refl
      ]

      go :
          (r : Result A × Client)
          → (after_op x (some again) r).0 ≡ err e
          → (after_op x (some again) r).1.connections ≡ []
      go (ok a, d) k = cc
      go (err f, d) k = at f d (x.err_at d.now) k

  -- A read that succeeds is its first round, or its second after a retryable error of the first, under
  -- a live context and on a client without connections.
  pub attempts_ok :
      (op : M Client A) (c : Client) (a : A)
      → (attempts x op c).0 ≡ ok a
      → (attempts x op c ≡ op c)
        ⊎ ((e : Failure) × ((op c).0 ≡ err e)
            × (is_retryable (op c).1.opts e ≡ true)
            × (x.err_at (op c).1.now ≡ none)
            × (attempts x op c ≡ op (tick (drop (op c).1))))
  unfolding attempts drop
  attempts_ok op c a h = go (op c) h
    where
      again : M Client A
      again c' = after_op x none (op c')

      Second : Result A × Client → Type 0
      Second r =
          (e : Failure) × (r.0 ≡ err e)
          × (is_retryable r.1.opts e ≡ true)
          × (x.err_at r.1.now ≡ none)
          × (after_op x (some again) r ≡ op (tick (drop r.1)))

      at :
          (f : Failure) (d : Client) (o : Option CtxError)
          → (retry_at (some again) f o (drop d)).0 ≡ ok a
          → (is_retryable d.opts f ≡ true)
            × (o ≡ none)
            × (retry_at (some again) f o (drop d) ≡ op (tick (drop d)))
      at f d (some ce) k = cc
      at f d none k = elim (Bool-cases (is_retryable d.opts f)) [
        | inl retry ↦ (retry, refl, rw retry (last_ok (op (tick (drop d))) a (rw retry at k)))
        | inr final ↦ cc (rw final at k)
      ]

      go :
          (r : Result A × Client)
          → (after_op x (some again) r).0 ≡ ok a
          → (after_op x (some again) r ≡ r) ⊎ Second r
      go (ok b, d) k = inl refl
      go (err f, d) k =
          let (retry, live, same) = at f d (x.err_at d.now) k in inr (f, refl, retry, live, same)

  -- The first round left the client `d`, with the error `e`, and the context says `o`: the operation is not
  -- run again, whatever it would do, as the read ends alike, in `r` and `r'`, for two that start alike.
  abbrev pub EndsAfterOne :
      Client → Option CtxError → Failure → Result A × Client → Result A × Client → Type 0
  EndsAfterOne d o e r r' =
      (IsFinal d.opts e ⊎ ((ce : CtxError) × (o ≡ some ce)))
      × (r' ≡ r)
      × ((f : Failure) × (r.0 ≡ err f) × Reported o e f)

  -- The operation is run again, once, on the client without its connections, and its result is that of the
  -- read, `r`, unless it fails and the context is done.
  abbrev pub EndsAfterTwo :
      M Client A → Client → Option CtxError → Failure → Result A × Client → Type 0
  EndsAfterTwo op d o e r =
      MayRetry d.opts e
      × (o ≡ none)
      × (let t = op (tick (drop d)) in
          (r.0 ≡ t.0)
          ⊎ ((f : Failure) × (ce : CtxError) × (t.0 ≡ err f)
              × (x.err_at t.1.now ≡ some ce)
              × (r.0 ≡ err (ctx ce))))

  second_round :
      (r : Result A × Client)
      → ((after_op x none r).0 ≡ r.0)
        ⊎ ((f : Failure) × (ce : CtxError) × (r.0 ≡ err f)
            × (x.err_at r.1.now ≡ some ce)
            × ((after_op x none r).0 ≡ err (ctx ce)))
  unfolding drop
  second_round (ok a, c) = inl refl
  second_round (err f, c) = go (x.err_at c.now)
    where
      failed : Failure → Result A
      failed f = err f

      go :
          (o : Option CtxError)
          → ((retry_at {A = A} none f o (drop c)).0 ≡ err f)
            ⊎ ((g : Failure) × (ce : CtxError) × (failed f ≡ err g)
                × (o ≡ some ce)
                × ((retry_at {A = A} none f o (drop c)).0 ≡ err (ctx ce)))
      go none = inl refl
      go (some ce) = inr (f, ce, refl, refl, refl)

  -- What a read does behind a first round that failed.
  retry_rounds :
      (op op' : M Client A) (d : Client) (e : Failure) (o : Option CtxError)
      → (let r = retry_at (some λ c. after_op x none (op c)) e o (drop d) in
          EndsAfterOne d o e r (retry_at (some λ c. after_op x none (op' c)) e o (drop d))
          ⊎ EndsAfterTwo op d o e r)
  unfolding drop
  retry_rounds op op' d e (some ce) = inl (inr (ce, refl), refl, (ctx ce, refl, refl))
  retry_rounds op op' d e none = elim (retry_cases d.opts e) [
    | inl (retry, allowed) ↦ inr (allowed, refl, rw retry (second_round (op (tick (drop d)))))
    | inr (stays, final) ↦ inl (inl final, rw stays refl, (e, rw stays refl, refl))
  ]

  -- When the first round of a read fails with e, one of two things holds. Either DisableReadRetry is
  -- set, or e is neither an ErrConnection nor an ErrTimeout, or the context is done: then the read does
  -- not depend on what the operation does but in the first round, and fails with e, or with the error
  -- of the context if it is done. Or none of the three: then the operation is run again, once, on the
  -- client without its connections, and the read has its result, unless it fails and the context is
  -- done, whose error is then the result.
  pub attempts_rounds :
      (op op' : M Client A) (c : Client) (e : Failure)
      → (op c).0 ≡ err e
      → op' c ≡ op c
      → (let d = (op c).1 in
          EndsAfterOne d (x.err_at d.now) e (attempts x op c) (attempts x op' c)
          ⊎ EndsAfterTwo op d (x.err_at d.now) e (attempts x op c))
  unfolding attempts
  attempts_rounds op op' c e h same = go (op c) h (op' c) same
    where
      Rounds : Result A × Client → Result A × Client → Type 0
      Rounds r q =
          let whole = after_op x (some λ c'. after_op x none (op c')) r in
          EndsAfterOne r.1 (x.err_at r.1.now) e whole
            (after_op x (some λ c'. after_op x none (op' c')) q)
          ⊎ EndsAfterTwo op r.1 (x.err_at r.1.now) e whole

      go : (r : Result A × Client) → r.0 ≡ err e → (q : Result A × Client) → q ≡ r → Rounds r q
      go (ok a, d) k q same' = cc
      go (err f, d) k q same' =
          let it : e ≡ f = cc in
          subst (λ q. Rounds (err f, d) q) (sym same')
            (subst (λ g. Rounds (err g, d) (err g, d)) it
              (retry_rounds op op' d e (x.err_at d.now)))
