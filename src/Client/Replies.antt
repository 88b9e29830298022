-- ===== src/Client/Replies.antt =====
-- The payloads that a reply to a read may hold.
use koutendb_go.Common.{
  ℕ, ◌≤◌, ◌≡◌, refl, inl, inr, Bool, true, false, ◌||◌, ◌&&◌, not, List, [], Option, none, some,
  Bytes, codes, str_eq, length, take, get_or, ltb, arith, Bool-cases, ◌==◌,
}
use koutendb_go.Errors.{Failure, sentinel, protocol}
use koutendb_go.Result.{ok, pure, lift, guard, and_then-eq-ok}
use koutendb_go.Result.Rules.{Gives, Gives-bind}
use koutendb_go.Uint.{uint_field, bounded}
use koutendb_go.Floats.{Floats}
use koutendb_go.Identity.{parse_fields}
use koutendb_go.Codec
use koutendb_go.Codec.{Payload}
use koutendb_go.Wire.{Crypto, Wire, header, bytes, expect}
use koutendb_go.Wire.Length.{length-bytes}
use koutendb_go.Options.{Options, frame_limit}
use koutendb_go.Environment.{Env}
use koutendb_go.Client.Put.{tail}
use koutendb_go.Client.Read.{Reply, answered, forwarded}
use koutendb_go.Client.Redirect.{
  named_peer, redirect_reply, value_reply, absent_reply, dispatch, read_reply,
}

-- A payload has one of the four codecs and fits the limit.
abbrev pub IsServed : Options → Option Payload → Type 0
IsServed o none = Unit
IsServed o (some p) = (Codec.valid p.codec ≡ true) × (length p.content ≤ frame_limit o)

abbrev pub IsServedReply : {F : Floats} → Options → Reply F → Type 0
IsServedReply o (answered p) = IsServed o p
IsServedReply o (forwarded id node) = Unit

bounded_le : (s : Bytes) (max n : ℕ) → bounded s max ≡ ok n → n ≤ max
unfolding bounded
bounded_le s max n h =
    let (u, _, last) = and_then-eq-ok (uint_field s 64) _ h in
    elim (Bool-cases (ltb max u)) [
      | inl above ↦ cc (rw above at last)
      | inr within ↦ let same : u ≡ n = cc (rw within at last) in rw (← same) (ground arith)
    ]

guard-true : {S : Type 0} (b : Bool) (e : Failure) (s : S) → (guard b e s).0 ≡ ok tt → b ≡ true
guard-true true e s h = refl
guard-true false e s h = cc

abbrev Always : Wire → Type 0
Always w = Unit

abbrev Any : {A : Type 0} → A → Type 0
Any a = Unit

pure-Gives : {A : Type 0} (Q : A → Type 0) (a : A) → Q a → Gives Always Q (pure a)
pure-Gives Q a q s _ r h = let same : a ≡ r = cc in rw (← same) q

module _ (F : Floats) (E : Env) (C : Crypto) (o : Options) where
  redirect_reply_served :
      (last left node : ℕ) (p : List Bytes)
      → Gives Always (IsServedReply {F = F} o) (redirect_reply F E C last left node p)
  unfolding redirect_reply
  redirect_reply_served last left node p =
      Gives-bind Always Any Q
        (guard (not (left == 0 || not (length p == 7) && not (length p == 8))) (sentinel protocol))
        _ (λ _ _. tt) (λ _ _ _ _. tt)
        λ _ _.
          Gives-bind Always Any Q (lift (parse_fields F (take 6 (tail p)))) _ (λ _ _. tt)
            (λ _ _ _ _. tt)
            λ id _.
              Gives-bind Always Any Q (named_peer F E C last node p) _ (λ _ _. tt) (λ _ _ _ _. tt)
                λ peer _. pure-Gives Q (forwarded id peer) tt
    where
      Q : Reply F → Type 0
      Q = IsServedReply {F = F} o

  value_reply_served :
      (last : ℕ) (p : List Bytes)
      → Gives Always (IsServedReply {F = F} o) (value_reply F E C o last p)
  unfolding value_reply
  value_reply_served last p =
      Gives-bind Always Any Q (lift (expect p (codes "VAL") 4 false)) _ (λ _ _. tt) (λ _ _ _ _. tt)
        λ _ _.
          Gives-bind Always Any Q (lift (bounded (get_or p 1 []) last)) _ (λ _ _. tt)
            (λ _ _ _ _. tt)
            λ _ _.
              Gives-bind Always (λ n. n ≤ frame_limit o) Q
                (lift (bounded (get_or p 2 []) (frame_limit o))) _ (λ _ _. tt)
                (λ _ _ n h. bounded_le (get_or p 2 []) (frame_limit o) n h)
                λ n fits.
                  Gives-bind Always (λ _. Codec.valid (get_or p 3 []) ≡ true) Q
                    (guard (Codec.valid (get_or p 3 [])) (sentinel protocol)) _ (λ _ _. tt)
                    (λ s _ _ h. guard-true (Codec.valid (get_or p 3 [])) (sentinel protocol) s h)
                    λ _ known.
                      Gives-bind Always (λ b. length b ≡ n) Q (bytes C n (frame_limit o)) _
                        (λ _ _. tt) (λ w _ b h. length-bytes C n (frame_limit o) w b h)
                        λ b size.
                          pure-Gives Q
                            (answered (some (record { content = b; codec = get_or p 3 [] })))
                            (known, omega arith)
    where
      Q : Reply F → Type 0
      Q = IsServedReply {F = F} o

  absent_reply_served :
      (tag : Bytes) (p : List Bytes)
      → Gives Always (IsServedReply {F = F} o) (absent_reply F E C tag p)
  absent_reply_served tag p =
      Gives-bind Always Any (IsServedReply {F = F} o) (lift (expect p tag 1 false)) _ (λ _ _. tt)
        (λ _ _ _ _. tt) λ _ _. pure-Gives (IsServedReply {F = F} o) (answered none) tt

  dispatch_served :
      (last left node : ℕ) (p : List Bytes)
      → Gives Always (IsServedReply {F = F} o) (dispatch F E C o last left node p)
  unfolding dispatch
  dispatch_served last left node p w _ r h =
      elim (Bool-cases
        (str_eq (get_or p 0 []) (codes "MISS") || str_eq (get_or p 0 []) (codes "GONE"))) [
          | inl absent ↦ absent_reply_served (get_or p 0 []) p w tt r (rw absent at h)
          | inr there ↦ elim (Bool-cases (str_eq (get_or p 0 []) (codes "FWD"))) [
            | inl elsewhere ↦
                redirect_reply_served last left node p w tt r (rw (there, elsewhere) at h)
            | inr here ↦ value_reply_served last p w tt r (rw (there, here) at h)
          ]
        ]

  pub read_reply_served :
      (last left node : ℕ)
      → Gives Always (IsServedReply {F = F} o) (read_reply F E C o last left node)
  unfolding read_reply
  read_reply_served last left node =
      Gives-bind Always Any (IsServedReply {F = F} o) (header C (frame_limit o)) _ (λ _ _. tt)
        (λ _ _ _ _. tt) λ p _. dispatch_served last left node p
