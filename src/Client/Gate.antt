-- ===== src/Client/Gate.antt =====
-- The gate, and a client that is closed: every operation gives the token back, and after `Close` none
-- does anything.
use koutendb_go.Common.{
  ◌+◌, ◌≡◌, refl, sym, ap, ◌∙◌, Bool, true, false, ◌||◌, not, [], Option, none, some, Bytes,
  if◌then◌else◌, Bool-cases, inl, inr,
}
use koutendb_go.Errors.{
  CtxError, sentinel, input, connection, ctx, out_of_fuel, closed as closed_kind,
}
use koutendb_go.Result.{Result, ok, err, M}
use koutendb_go.Floats.{Floats}
use koutendb_go.Identity.{RecordId, valid}
use koutendb_go.Codec.{Codec, Payload}
use koutendb_go.Wire.{Crypto}
use koutendb_go.Environment.{Ctx, Env}
use koutendb_go.Client.{Client, lock, select_gate, take_gate, enter, tick, close}
use koutendb_go.Client.Request.{with_lock, locked}
use koutendb_go.Client.Put.{is_storable, put_locked, put_codec}
use koutendb_go.Client.Read.{attempts, health_op, health, read_operation}
use koutendb_go.Client.Redirect.{within_limit, lookup_op, read}

-- A `lock` that fails leaves the gate as it was; one that succeeds has taken the token.
abbrev GateAfter : Client → Result (Unit {0}) × Client → Type 0
GateAfter c (ok _, d) = c.gate ≡ true
GateAfter c (err e, d) = d.gate ≡ c.gate

enter-GateAfter :
    (c : Client) (o : Option CtxError)
    → c.gate ≡ true
    → GateAfter c (enter o (record c { gate = false; now = c.now + 1 }))
enter-GateAfter c (some e) h = sym h
enter-GateAfter c none h = elim (Bool-cases c.closed) [
  | inl shut ↦ rw shut (sym h)
  | inr live ↦ rw live h
]

select_gate-GateAfter :
    (x : Ctx) (b : Bool) (o : Option CtxError) (c : Client) → GateAfter c (select_gate x b o c)
select_gate-GateAfter x b none c = gated c.gate refl
  where
    gated :
        (g : Bool)
        → c.gate ≡ g
        → GateAfter c (if g then take_gate x c else (err out_of_fuel, tick c))
    gated true h = enter-GateAfter c (x.err_at (c.now + 1)) h
    gated false h = refl
select_gate-GateAfter x b (some e) c = gated b c.gate refl
  where
    gated :
        (d g : Bool)
        → c.gate ≡ g
        → GateAfter c (if d || not g then (err (ctx e), tick c) else take_gate x c)
    gated true g h = refl
    gated false true h = enter-GateAfter c (x.err_at (c.now + 1)) h
    gated false false h = refl

lock-GateAfter : (E : Env) (x : Option Ctx) (c : Client) → GateAfter c (lock E x c)
unfolding lock
lock-GateAfter E none c = refl
lock-GateAfter E (some x) c = select_gate-GateAfter x (E.done_first c.now) (x.err_at c.now) c

module _ {A : Type 0} (E : Env) where
  locked-gate :
      (body : M Client A) (c : Client) (r : Result (Unit {0}) × Client)
      → GateAfter c r
      → (locked body r).1.gate ≡ c.gate
  locked-gate body c (ok _, d) h = sym h
  locked-gate body c (err e, d) h = h

  -- An operation under the lock gives back the token that it took, whatever its body does and however
  -- it ends; without a token it leaves the gate alone.
  pub with_lock-gate :
      (x : Option Ctx) (body : Ctx → M Client A) (c : Client)
      → (with_lock E x body c).1.gate ≡ c.gate
  with_lock-gate none body c =
      locked-gate (λ c'. (err (sentinel connection), c')) c (lock E none c)
        (lock-GateAfter E none c)
  with_lock-gate (some x) body c =
      locked-gate (body x) c (lock E (some x) c) (lock-GateAfter E (some x) c)

  -- Under a live context an operation on a closed client is ErrClosed, before its body runs.
  pub with_lock_closed :
      (x : Ctx) (body : Ctx → M Client A) (c : Client)
      → c.closed ≡ true
      → c.gate ≡ true
      → x.err_at c.now ≡ none
      → x.err_at (c.now + 1) ≡ none
      → with_lock E (some x) body c
        ≡ (err (sentinel closed_kind), record c { gate = true; now = c.now + 1 + 1 })
  unfolding lock
  with_lock_closed x body c shut token alive alive' = ap (locked (body x)) (
      ap (λ o. select_gate x (E.done_first c.now) o c) alive
      ∙ ap (λ (g : Bool). if g then take_gate x c else (err out_of_fuel, tick c)) token
      ∙ ap (λ o. enter o (record c { gate = false; now = c.now + 1 })) alive'
      ∙ ap
          (λ (b : Bool).
            if b
            then (err (sentinel closed_kind), record c { gate = true; now = c.now + 1 + 1 })
            else (ok tt, record c { gate = false; now = c.now + 1 + 1 }))
          shut)

within_limit-close :
    (c : Client) (s : Option Bytes) → within_limit (close c).opts s ≡ within_limit c.opts s
unfolding close
within_limit-close c none = refl
within_limit-close c (some s) = refl

module _ (F : Floats) (E : Env) (C : Crypto) where
  -- PutCodec, Health and read return with the gate as they found it, on every path.
  pub operations-gate :
      (x : Option Ctx) (ring content : Bytes) (codec : Codec) (id : RecordId F) (s : Option Bytes)
      (c : Client)
      → ((put_codec F E C x ring content codec c).1.gate ≡ c.gate)
        × ((health F E C x c).1.gate ≡ c.gate)
        × ((read F E C x id s c).1.gate ≡ c.gate)
  unfolding put_codec health read read_operation
  operations-gate x ring content codec id s c = (put_gate, health_gate, read_gate)
    where
      put_gate : (put_codec F E C x ring content codec c).1.gate ≡ c.gate
      put_gate = elim (Bool-cases (is_storable c.opts ring content codec)) [
        | inl good ↦ rw good (with_lock-gate E x (put_locked F E C ring content codec) c)
        | inr bad ↦ rw bad
      ]

      health_gate : (health F E C x c).1.gate ≡ c.gate
      health_gate = with_lock-gate E x (λ x'. attempts x' (health_op F E C x')) c

      lookup_gate : (read_operation E x (lookup_op F E C s id) c).1.gate ≡ c.gate
      lookup_gate = with_lock-gate E x (λ x'. attempts x' (lookup_op F E C s id x')) c

      read_gate : (read F E C x id s c).1.gate ≡ c.gate
      read_gate = elim (Bool-cases (not (valid F id) || not (within_limit c.opts s))) [
        | inl bad ↦ rw bad
        | inr good ↦ rw good lookup_gate
      ]

  -- After Close, under a context that is live at the two questions that lock asks, Health is ErrClosed,
  -- as are PutCodec and read on arguments that pass their tests; no connection is left, and a second
  -- Close changes nothing.
  pub closed_operations :
      (x : Ctx) (ring content : Bytes) (codec : Codec) (id : RecordId F) (s : Option Bytes)
      (c : Client)
      → x.err_at c.now ≡ none
      → x.err_at (c.now + 1) ≡ none
      → is_storable c.opts ring content codec ≡ true
      → valid F id ≡ true
      → within_limit c.opts s ≡ true
      → let d = close c in
        let u : Client = record d { now = c.now + 1 + 1 } in
        (put_codec F E C (some x) ring content codec d ≡ (err (sentinel closed_kind), u))
        × (health F E C (some x) d ≡ (err (sentinel closed_kind), u))
        × (read F E C (some x) id s d ≡ (err (sentinel closed_kind), u))
        × (u.connections ≡ [])
        × (close d ≡ d)
  unfolding put_codec health read read_operation close is_storable
  closed_operations x ring content codec id s c alive alive' storable good fits = (
    ap
          (λ (b : Bool).
            if not b
            then (err (sentinel input), close c)
            else with_lock E (some x) put_body (close c))
          storable
        ∙ shut put_body,
    shut (λ x'. attempts x' (health_op F E C x')),
    ap
          (λ (b : Bool).
            if not b || not (within_limit (close c).opts s)
            then (err (sentinel input), close c)
            else with_lock E (some x) lookup_body (close c))
          good
        ∙ ap
            (λ (b : Bool).
              if not b
              then (err (sentinel input), close c)
              else with_lock E (some x) lookup_body (close c))
            (within_limit-close c s ∙ fits)
        ∙ shut lookup_body,
    refl,
    refl,
  )
    where
      put_body : Ctx → M Client (RecordId F)
      put_body = put_locked F E C ring content codec

      lookup_body : Ctx → M Client (Option Payload)
      lookup_body x' = attempts x' (lookup_op F E C s id x')

      shut :
          {A : Type 0} (body : Ctx → M Client A)
          → with_lock E (some x) body (close c)
            ≡ (err (sentinel closed_kind), record (close c) { now = c.now + 1 + 1 })
      shut body = with_lock_closed E x body (close c) refl refl alive alive'
