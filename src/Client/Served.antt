-- ===== src/Client/Served.antt =====
-- The payloads that `Get` and `Query` return, through the gate and both rounds of a read.
use koutendb_go.Common.{
  ◌≤◌, ◌≡◌, sym, ap, ◌∙◌, true, ◌||◌, not, Option, none, some, Bytes, length, Bool-cases, inl, inr,
}
use mathlib.Core.Path.{subst}
use koutendb_go.Result.{Result, ok, err}
use koutendb_go.Floats.{Floats}
use koutendb_go.Identity.{RecordId, valid}
use koutendb_go.Codec
use koutendb_go.Codec.{Payload}
use koutendb_go.Wire.{Crypto}
use koutendb_go.Options.{Options, frame_limit, redirect_limit}
use koutendb_go.Environment.{Ctx, Env}
use koutendb_go.Client.{Client, lock, tick, drop}
use koutendb_go.Client.Request.{locked}
use koutendb_go.Client.Read.{attempts, read_operation}
use koutendb_go.Client.Redirect.{within_limit, lookup_op, read}
use koutendb_go.Client.Retry.{attempts_ok}
use koutendb_go.Client.Payloads.{follow_served}
use koutendb_go.Client.Operations.{lookup_op-Keeps}
use koutendb_go.Client.Stable.{lock-Keeps}
use koutendb_go.Client.Steady.{Steady, Steady-IsStable}

abbrev Fitting : Options → Payload → Type 0
Fitting o p = (Codec.valid p.codec ≡ true) × (length p.content ≤ frame_limit o)

module _ (F : Floats) (E : Env) (C : Crypto) (s : Option Bytes) (id : RecordId F)
    (p : Payload) where
  op-Fitting :
      (x : Ctx) (c : Client) → (lookup_op F E C s id x c).0 ≡ ok (some p) → Fitting c.opts p
  op-Fitting x c h = follow_served F E C x s (redirect_limit c.opts) 0 id c p h

  attempts-Fitting :
      (x : Ctx) (c : Client)
      → (attempts x (lookup_op F E C s id x) c).0 ≡ ok (some p)
      → Fitting c.opts p
  unfolding drop
  attempts-Fitting x c h = elim (attempts_ok x (lookup_op F E C s id x) c (some p) h) [
    | inl once ↦ op-Fitting x c (sym (ap (λ (r : Result (Option Payload) × Client). r.0) once) ∙ h)
    | inr (e, failed, retry, live, twice) ↦
        let d = (lookup_op F E C s id x c).1 in
        subst (λ o. Fitting o p) (lookup_op-Keeps Steady Steady-IsStable E C F s id x c).same_opts
          (op-Fitting x (tick (drop d))
            (sym (ap (λ (r : Result (Option Payload) × Client). r.0) twice) ∙ h))
  ]

  locked-Fitting :
      (x : Ctx) (c : Client) (r : Result (Unit {0}) × Client)
      → Steady c r.1
      → (locked (attempts x (lookup_op F E C s id x)) r).0 ≡ ok (some p)
      → Fitting c.opts p
  locked-Fitting x c (ok _, d) steady h =
      subst (λ o. Fitting o p) steady.same_opts (attempts-Fitting x d h)
  locked-Fitting x c (err e, d) steady h = cc

  -- A payload that read hands out, and so Get and Query, behind both rounds and any number of
  -- redirects, has one of the four codecs and is not longer than the frame limit.
  pub read_served :
      (x : Option Ctx) (c : Client)
      → (read F E C x id s c).0 ≡ ok (some p)
      → (Codec.valid p.codec ≡ true) × (length p.content ≤ frame_limit c.opts)
  unfolding read read_operation lock
  read_served x c h = elim (Bool-cases (not (valid F id) || not (within_limit c.opts s))) [
    | inl bad ↦ cc (rw bad at h)
    | inr good ↦ go x (rw good at h)
  ]
    where
      go :
          (y : Option Ctx)
          → (read_operation E y (lookup_op F E C s id) c).0 ≡ ok (some p)
          → Fitting c.opts p
      go none k = cc
      go (some y) k =
          locked-Fitting y c (lock E (some y) c) (lock-Keeps Steady Steady-IsStable E (some y) c) k
