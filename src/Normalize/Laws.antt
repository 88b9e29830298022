-- ===== src/Normalize/Laws.antt =====
-- What `normalize` returns: options within their bounds, which it leaves as they are.
use koutendb_go.Common.{
  ℕ, zero, suc, ◌≤◌, ◌≡◌, refl, ap, ◌∙◌, inl, inr, ltb, Bool, true, false, ◌&&◌, ◌||◌, not, List,
  Option, Bytes, length, arith, Bool-cases, ◌==◌,
}
use koutendb_go.Common.Int.{ℤ, pos, negsuc, ltb_ℤ}
use koutendb_go.Result.{ok, and_then-eq-ok}
use koutendb_go.Options.{Options, Credentials}
use koutendb_go.Peers.{all_peers}
use koutendb_go.Normalize.{
  max_frame, hour, TlsConfig, or_default, timeout, within_limits, with_token, are_allowed, is_blank,
  tls_config, checked, normalize,
}

-- A number of Go's int between two natural numbers.
abbrev pub IsBetween : ℕ → ℕ → ℤ → Type 0
IsBetween low high z = (n : ℕ) × (z ≡ pos n) × (low ≤ n) × (n ≤ high)

pub record IsNormal (o : Options) : Type 0 where
  pub connect_range : IsBetween 1 hour o.connect_timeout
  pub read_range : IsBetween 1 hour o.read_timeout
  pub write_range : IsBetween 1 hour o.write_timeout
  pub frame_range : IsBetween 1 max_frame o.max_frame_bytes
  pub redirect_range : IsBetween 1 32 o.max_redirects

timeout_sound : (z d : ℤ) → timeout z ≡ ok d → IsBetween 1 hour d
unfolding timeout
timeout_sound (pos zero) d h = (5000000000, cc, omega arith, omega arith)
timeout_sound (pos (suc n)) d h = (suc n, ground arith, omega arith, ground arith)
timeout_sound (negsuc n) d h = ground arith

timeout_stable : (d : ℤ) → IsBetween 1 hour d → timeout d ≡ ok d
unfolding timeout
timeout_stable d (n, e, low, high) = rw e (ground arith)

none_of_four :
    (a b c d : Bool)
    → not (a || b || c || d) ≡ true
    → (a ≡ false) × (b ≡ false) × (c ≡ false) × (d ≡ false)
none_of_four false false false false h = (refl, refl, refl, refl)
none_of_four false false false true h = cc
none_of_four false false true d h = cc
none_of_four false true c d h = cc
none_of_four true b c d h = cc

default_suc : (d n : ℕ) → or_default d (pos (suc n)) ≡ pos (suc n)
default_suc d n = ground arith

default_sound :
    (low high d : ℕ) (z : ℤ)
    → 1 ≤ d
    → d ≤ high
    → low ≤ 1
    → ltb_ℤ (or_default d z) (pos low) ≡ false
    → ltb_ℤ (pos high) (or_default d z) ≡ false
    → IsBetween 1 high (or_default d z)
default_sound low high d (pos zero) one fits small above below = (d, refl, one, fits)
default_sound low high d (pos (suc n)) one fits small above below =
    (suc n, default_suc d n, omega arith, ground arith)
default_sound zero high d (negsuc n) one fits small above below = ground arith
default_sound (suc l) high d (negsuc n) one fits small above below = ground arith

limits_sound :
    (f r : ℤ)
    → within_limits (or_default max_frame f) (or_default 8 r) ≡ true
    → IsBetween 1 max_frame (or_default max_frame f) × IsBetween 1 32 (or_default 8 r)
unfolding within_limits
limits_sound f r h =
    let (a, b, c, d) = none_of_four _ _ _ _ h in
    (
      default_sound 1 max_frame max_frame f (omega arith) (omega arith) (omega arith) a b,
      default_sound 0 32 8 r (omega arith) (omega arith) (omega arith) c d,
    )

default_stable : (high d : ℕ) (z : ℤ) → IsBetween 1 high z → or_default d z ≡ z
default_stable high d z (suc n, e, low, _) = rw e (default_suc d n)
default_stable high d z (zero, e, low, _) = absurd (omega arith)

with_token_stable : (c : Credentials) → with_token (with_token c) ≡ with_token c
unfolding with_token
with_token_stable c = elim (Bool-cases (is_blank c.username && not (is_blank c.auth_token))) [
  | inl token ↦ rw token refl
  | inr own ↦ rw (own, own) refl
]

-- The options that are tested in the end.
abbrev pub filled : Options → ℤ → ℤ → ℤ → Options
filled o connect read write = record o {
  connect_timeout = connect;
  read_timeout = read;
  write_timeout = write;
  max_frame_bytes = or_default max_frame o.max_frame_bytes;
  max_redirects = or_default 8 o.max_redirects;
  credentials = with_token o.credentials;
}

checked_sound :
    (trusted : Bytes → Bool) (o o' : Options) (t : Option TlsConfig)
    → checked trusted o ≡ ok (o', t)
    → (o' ≡ o) × (within_limits o.max_frame_bytes o.max_redirects ≡ true)
unfolding checked
checked_sound trusted o o' t h =
    elim (Bool-cases (within_limits o.max_frame_bytes o.max_redirects)) [
      | inr off ↦ cc (rw off at h)
      | inl good ↦ elim (Bool-cases (are_allowed o.credentials o.galaxy)) [
        | inr off ↦ cc (rw (good, off) at h)
        | inl allowed ↦
            let (t', _, same) =
              and_then-eq-ok (tls_config trusted o.tls) (λ t. ok (o, t))
                (rw (good, allowed) at h) in
            (cc, good)
      ]
    ]

normalize_inv :
    (trusted : Bytes → Bool) (peers : List Bytes) (o o' : Options) (t : Option TlsConfig)
    → normalize trusted peers o ≡ ok (o', t)
    → (a b c : ℤ) × ((length peers == 0 || ltb 64 (length peers) || not (all_peers peers)) ≡ false)
      × (timeout o.connect_timeout ≡ ok a)
      × (timeout o.read_timeout ≡ ok b)
      × (timeout o.write_timeout ≡ ok c)
      × (checked trusted (filled o a b c) ≡ ok (o', t))
unfolding normalize
normalize_inv trusted peers o o' t h =
    elim (Bool-cases (length peers == 0 || ltb 64 (length peers) || not (all_peers peers))) [
      | inl off ↦ cc (rw off at h)
      | inr fine ↦
          let (a, ea, ha) = and_then-eq-ok (timeout o.connect_timeout) _ (rw fine at h) in
          let (b, eb, hb) = and_then-eq-ok (timeout o.read_timeout) _ ha in
          let (c, ec, hc) = and_then-eq-ok (timeout o.write_timeout) _ hb in
          (a, b, c, fine, ea, eb, ec, hc)
    ]

-- What normalize accepts has at most 64 peers that all pass the test of a peer, and the options it
-- returns have timeouts of at most an hour and not zero, a frame limit from 1 byte to 64 MiB, and 1 to
-- 32 redirects.
pub normalize-IsNormal :
    (trusted : Bytes → Bool) (peers : List Bytes) (o o' : Options) (t : Option TlsConfig)
    → normalize trusted peers o ≡ ok (o', t)
    → (length peers ≤ 64) × (all_peers peers ≡ true) × IsNormal o'
normalize-IsNormal trusted peers o o' t h =
    let (a, b, c, fine, ea, eb, ec, last) = normalize_inv trusted peers o o' t h in
    let (same, limits) = checked_sound trusted (filled o a b c) o' t last in
    let (frame, redirects) = limits_sound o.max_frame_bytes o.max_redirects limits in
    let normal : IsNormal (filled o a b c) = record {
      connect_range = timeout_sound o.connect_timeout a ea;
      read_range = timeout_sound o.read_timeout b eb;
      write_range = timeout_sound o.write_timeout c ec;
      frame_range = frame;
      redirect_range = redirects;
    } in
    (ground arith, ground arith, rw same normal)

-- The options that normalize returns are options that it accepts and returns as they are, with the same
-- TLS configuration.
pub normalize_stable :
    (trusted : Bytes → Bool) (peers : List Bytes) (o o' : Options) (t : Option TlsConfig)
    → normalize trusted peers o ≡ ok (o', t)
    → normalize trusted peers o' ≡ ok (o', t)
unfolding normalize
normalize_stable trusted peers o o' t h =
    let (a, b, c, fine, ea, eb, ec, last) = normalize_inv trusted peers o o' t h in
    let (same, limits) = checked_sound trusted (filled o a b c) o' t last in
    let (frame, redirects) = limits_sound o.max_frame_bytes o.max_redirects limits in
    rw
      (
        same,
        fine,
        timeout_stable a (timeout_sound o.connect_timeout a ea),
        timeout_stable b (timeout_sound o.read_timeout b eb),
        timeout_stable c (timeout_sound o.write_timeout c ec),
        default_stable max_frame max_frame (or_default max_frame o.max_frame_bytes) frame,
        default_stable 32 8 (or_default 8 o.max_redirects) redirects,
        with_token_stable o.credentials,
      )
      (last ∙ ap (λ p. ok (p, t)) same)
