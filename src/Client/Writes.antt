-- ===== src/Client/Writes.antt =====
-- What a write has sent when it returns: the promise behind ErrIndeterminateWrite.
use koutendb_go.Common.{
  ℕ, ◌≡◌, refl, sym, ap, ◌∙◌, ◌⊎◌, inl, inr, Bool, true, false, List, [], ◌∷◌, ◌++◌, Option, some,
  Bytes, arith, Bool-cases, codes,
}
use koutendb_go.Errors.{Failure, indeterminate, server, authentication, is_kind}
use koutendb_go.Result.{Result, ok, err, M, ◌>>=◌, lift}
use koutendb_go.Result.Rules.{Keeps, Keeps-bind, >>=-eq-ok}
use koutendb_go.Floats.{Floats}
use koutendb_go.Identity.{RecordId, parse_fields, valid, IsInRange}
use koutendb_go.Identity.Accepts.{parse_fields_sound}
use koutendb_go.Codec.{Codec}
use koutendb_go.Wire.{Crypto, Wire, header, expect}
use koutendb_go.Wire.Safety.{header-Keeps}
use koutendb_go.Options.{Options, frame_limit}
use koutendb_go.Environment.{Ctx, Env}
use koutendb_go.Exchange.{Link}
use koutendb_go.Exchange.Sent.{Progress}
use koutendb_go.Exchange.Outcome.{exchange_sent, exchange_whole, exchange_reply}
use koutendb_go.Exchange.Quiet.{Silent, Encodes, SameOutbox}
use koutendb_go.Client.{Client, Connections, lookup, insert}
use koutendb_go.Client.Request.{request, request_on, store, link_of}
use koutendb_go.Client.Put.{tail, put_header, put_reply, put_request, put_settled, write_error}

pub lookup-insert_self : (n : ℕ) (w : Wire) (cs : Connections) → lookup n (insert n w cs) ≡ some w
lookup-insert_self n w [] = ground arith
lookup-insert_self n w ((m, v) ∷ cs) = ground (arith, lookup-insert_self n w cs)

-- The text of a write on the wire.
abbrev pub put_text : Bytes → Bytes → Codec → Bytes
put_text ring content codec = put_header ring content codec ++ b'\n' ∷ (ring ++ content)

-- An error of a write that leaves open whether the server has taken it is one of these.
abbrev pub IsPlain : Failure → Type 0
IsPlain e =
    (is_kind e indeterminate ≡ false)
    × (is_kind e server ≡ false)
    × (is_kind e authentication ≡ false)

write_error-IsPlain : (e : Failure) → ¬ IsPlain (write_error true e)
unfolding is_kind
write_error-IsPlain e h = elim (Bool-cases (is_kind e server)) [
  | inl refused ↦ let (_, s, _) = (rw refused at h) in cc (refused, s)
  | inr not_refused ↦ elim (Bool-cases (is_kind e authentication)) [
    | inl denied ↦ let (_, _, a) = (rw (not_refused, denied) at h) in cc (denied, a)
    | inr granted ↦ let (u, _, _) = (rw (not_refused, granted) at h) in cc u
  ]
]

module _ (F : Floats) (E : Env) (C : Crypto) (x : Ctx) (o : Options) (ring content : Bytes)
    (codec : Codec) where
  put_reply-SameOutbox : Keeps SameOutbox (put_reply F E C o)
  unfolding put_reply
  put_reply-SameOutbox =
      Keeps-bind SameOutbox (λ a b c p q. q ∙ p) (header C (frame_limit o)) _
        (λ w. (header-Keeps (frame_limit o) C w).same_outbox)
        λ p.
          Keeps-bind SameOutbox (λ a b c p q. q ∙ p) (lift (expect p (codes "ID") 7 false)) _
            (λ w. refl) λ _ w. refl

  pub request_lem :
      (c : Client) (w : Wire)
      → lookup 0 c.connections ≡ some w
      → request 0 (put_request F E C x o ring content codec) c
        ≡ store 0 c (put_request F E C x o ring content codec (link_of 0 w c))
  unfolding request
  request_lem c w e =
      ap (λ (k : Option Wire). request_on 0 (put_request F E C x o ring content codec) k c) e

  -- A write on a connection, as the client keeps it.
  abbrev attempt : Client → (Result (RecordId F) × Bool) × Client
  attempt c = request 0 (put_request F E C x o ring content codec) c

  unsent :
      (c : Client) (r : Result (RecordId F) × Link) (s : Link) (e : Failure) (frame : Bytes)
      → Progress frame s r.1
      → (put_settled (store 0 c r)).0 ≡ err e
      → IsPlain e
      → r.1.wire.outbox ≡ s.wire.outbox
  unsent c r s e frame (inl (same, _)) h plain = same
  unsent c (ok id, t) s e frame (inr (set, _)) h plain = cc
  unsent c (err e', t) s e frame (inr (set, _)) h plain =
      let same : write_error true e' ≡ e = cc (rw set at h) in
      elim (write_error-IsPlain e' (rw same plain)) [ ]

  -- A write on an open connection that fails with an error other than ErrIndeterminateWrite, ErrServer
  -- and ErrAuthentication has sent nothing: the output of the stored connection is what it was.
  pub put_plain_error :
      (c : Client) (w : Wire) (e : Failure)
      → lookup 0 c.connections ≡ some w
      → (put_settled (attempt c)).0 ≡ err e
      → IsPlain e
      → (u : Wire) × (lookup 0 (attempt c).1.connections ≡ some u) × (u.outbox ≡ w.outbox)
  unfolding put_request
  put_plain_error c w e found failed plain = rw (request_lem c w found) (
    r.1.wire,
    lookup-insert_self 0 r.1.wire c.connections,
    same (
        exchange_sent E C x o (put_reply F E C o) (put_reply-SameOutbox)
          (put_header ring content codec) (ring ++ content) (link_of 0 w c)),
  )
    where
      r : Result (RecordId F) × Link
      r = put_request F E C x o ring content codec (link_of 0 w c)

      settled : (put_settled (store 0 c r)).0 ≡ err e
      settled = rw (← request_lem c w found) failed

      same :
          (Silent (link_of 0 w c) r.1
            ⊎ ((frame : Bytes) × Encodes C w.key (put_text ring content codec) frame
                × Progress frame (link_of 0 w c) r.1))
          → r.1.wire.outbox ≡ w.outbox
      same (inl (out, _)) = out
      same (inr (frame, _, p)) = unsent c r (link_of 0 w c) e frame p settled plain

  settled_ok :
      {A : Type 0} (r : (Result A × Bool) × Client) (id : A)
      → (put_settled r).0 ≡ ok id
      → r.0.0 ≡ ok id
  settled_ok ((ok a, flag), c) id h = h
  settled_ok ((err e, flag), c) id h = cc

  put_reply_sound :
      (w : Wire) (id : RecordId F)
      → (put_reply F E C o w).0 ≡ ok id
      → (valid F id ≡ true) × IsInRange F id
  unfolding put_reply
  put_reply_sound w id h =
      let (p, _, r1) = >>=-eq-ok (header C (frame_limit o)) (λ p. expected p) w h in
      let w1 = (header C (frame_limit o) w).1 in
      let (_, _, r2) =
        >>=-eq-ok (lift (expect p (codes "ID") 7 false)) (λ _. lift (parse_fields F (tail p))) w1
          {b = id} (rw (← r1) h) in
      let w2 = (lift {S = Wire} (expect p (codes "ID") 7 false) w1).1 in
      let last : (lift {S = Wire} (parse_fields F (tail p)) w2).0 ≡ ok id =
        ap (λ (r : Result (RecordId F) × Wire). r.0) (sym (r1 ∙ r2)) ∙ h in
      parse_fields_sound F (tail p) id last
    where
      expected : List Bytes → M Wire (RecordId F)
      expected p = lift (expect p (codes "ID") 7 false) >>= λ _. lift (parse_fields F (tail p))

  -- A write on an open connection that succeeds has sent the whole request, as text or as one sealed
  -- frame of it, and the identity it returns is valid and in range.
  pub put_stored :
      (c : Client) (w : Wire) (id : RecordId F)
      → lookup 0 c.connections ≡ some w
      → (put_settled (attempt c)).0 ≡ ok id
      → (frame : Bytes) × (u : Wire) × Encodes C w.key (put_text ring content codec) frame
        × (lookup 0 (attempt c).1.connections ≡ some u)
        × (u.outbox ≡ w.outbox ++ frame)
        × (valid F id ≡ true)
        × IsInRange F id
  unfolding put_request
  put_stored c w id found stored =
      let got : r.0 ≡ ok id = settled_ok (store 0 c r) id (rw (← request_lem c w found) stored) in
      let (frame, encodes, out) =
        exchange_whole E C x o (put_reply F E C o) (put_reply-SameOutbox)
          (put_header ring content codec) (ring ++ content) (link_of 0 w c) id got in
      let (t, replied) =
        exchange_reply E C x o (put_header ring content codec) (ring ++ content) (put_reply F E C o)
          (link_of 0 w c) id got in
      let (good, range) = put_reply_sound t id replied in
      rw (request_lem c w found)
        (frame, r.1.wire, encodes, lookup-insert_self 0 r.1.wire c.connections, out, good, range)
    where
      r : Result (RecordId F) × Link
      r = put_request F E C x o ring content codec (link_of 0 w c)
