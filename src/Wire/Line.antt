-- ===== src/Wire/Line.antt =====
-- `line`: the header that it returns for the bytes that it reads, its bounds, and its end.
use koutendb_go.Common.{
  ℕ, zero, suc, ◌+◌, ◌≤◌, ◌<◌, ◌≡◌, ◌≢◌, inl, inr, true, false, [], ◌∷◌, ◌++◌, append_assoc,
  append-nil, Bytes, length, length-append, ltb, ◌==◌, if◌then◌else◌, arith, Bool-cases,
}
use koutendb_go.Errors.{Failure, sentinel, protocol}
use koutendb_go.Result.{ok, err, M}
use koutendb_go.Result.Rules.{Keeps, Fails, Keeps-bind, Fails-bind, >>=-eq-ok}
use koutendb_go.Strings.{Lacks}
use koutendb_go.Wire.{max_header, line_round, line_loop}

module _ {S : Type 0} where
  -- Reading byte after byte gives these bytes, and leads from one state to the other.
  abbrev pub Feeds : M S ℕ → Bytes → S → S → Type 0
  Feeds read [] s u = s ≡ u
  Feeds read (b ∷ bs) s u = (t : S) × (read s ≡ (ok b, t)) × Feeds read bs t u

  -- One round of the loop.
  line_loop_newline :
      (fuel : ℕ) (read : M S ℕ) (buf : Bytes) (s t : S)
      → read s ≡ (ok b'\n', t)
      → line_loop (suc fuel) read buf s ≡ (ok buf, t)
  unfolding line_loop
  line_loop_newline fuel read buf s t e = rw e

  line_loop_byte :
      (fuel : ℕ) (read : M S ℕ) (buf : Bytes) (b : ℕ) (s t : S)
      → read s ≡ (ok b, t)
      → b ≢ b'\n'
      → line_loop (suc fuel) read buf s ≡ (
          if ltb max_header (length (buf ++ b ∷ []))
          then (err (sentinel protocol), t)
          else line_loop fuel read (buf ++ b ∷ []) t)
  unfolding line_loop
  line_loop_byte fuel read buf b s t e ne = rw e (ground arith)

  -- The loop collects the bytes in front of a newline.
  pub line_loop_collects :
      (fuel : ℕ) (read : M S ℕ) (h buf : Bytes) (s u : S)
      → Lacks b'\n' h
      → length buf + length h ≤ max_header
      → length h < fuel
      → Feeds read (h ++ b'\n' ∷ []) s u
      → line_loop fuel read buf s ≡ (ok (buf ++ h), u)
  line_loop_collects zero read h buf s u lacks fits f feeds = absurd (omega arith)
  line_loop_collects (suc fuel) read [] buf s u lacks fits f (t, e, last) =
      rw (line_loop_newline fuel read buf s t e, last, append-nil)
  line_loop_collects (suc fuel) read (b ∷ h) buf s u (ne, lacks) fits f (t, e, feeds) =
      let size = length-append buf (b ∷ []) in
      let short : ltb max_header (length (buf ++ b ∷ [])) ≡ false = ground arith in
      let ih : line_loop fuel read (buf ++ b ∷ []) t ≡ (ok ((buf ++ b ∷ []) ++ h), u) =
        line_loop_collects fuel read h (buf ++ b ∷ []) t u lacks (omega arith) (omega arith)
          feeds in
      rw (line_loop_byte fuel read buf b s t e ne, short, ih, append_assoc buf (b ∷ []) h)

  -- A longer run without a newline is refused at the first byte too many.
  pub line_loop_refuses :
      (fuel : ℕ) (read : M S ℕ) (h buf : Bytes) (s u : S)
      → Lacks b'\n' h
      → length buf ≤ max_header
      → length buf + length h ≡ max_header + 1
      → length h ≤ fuel
      → Feeds read h s u
      → line_loop fuel read buf s ≡ (err (sentinel protocol), u)
  line_loop_refuses fuel read [] buf s u lacks small full f feeds = absurd (omega arith)
  line_loop_refuses zero read (b ∷ h) buf s u lacks small full f feeds = absurd (omega arith)
  line_loop_refuses (suc fuel) read (b ∷ []) buf s u (ne, _) small full f (t, e, last) =
      let size = length-append buf (b ∷ []) in
      let long : ltb max_header (length (buf ++ b ∷ [])) ≡ true = ground arith in
      rw (line_loop_byte fuel read buf b s t e ne, long, last)
  line_loop_refuses (suc fuel) read (b ∷ c ∷ h) buf s u (ne, lacks) small full f (t, e, feeds) =
      let size = length-append buf (b ∷ []) in
      let short : ltb max_header (length (buf ++ b ∷ [])) ≡ false = ground arith in
      rw (line_loop_byte fuel read buf b s t e ne, short)
        (line_loop_refuses fuel read (c ∷ h) (buf ++ b ∷ []) t u lacks (omega arith) (omega arith)
          (omega arith) feeds)

  pub line_round-Fails :
      (E : Failure → Type 0)
      → E (sentinel protocol)
      → (buf : Bytes) (b : ℕ) (more : M S Bytes)
      → (length (buf ++ b ∷ []) ≤ max_header → Fails E more)
      → Fails E (line_round buf b more)
  line_round-Fails E p buf b more h s e = elim (Bool-cases (b == b'\n')) [
    | inl stop ↦ rw stop (λ q. cc)
    | inr go ↦ elim (Bool-cases (ltb max_header (length (buf ++ b ∷ [])))) [
      | inl long ↦ rw (go, long) (λ q. let same : sentinel protocol ≡ e = cc in rw (← same) p)
      | inr short ↦ rw (go, short) (h (ground arith) s e)
    ]
  ]

  pub line_loop-Fails :
      (E : Failure → Type 0)
      → E (sentinel protocol)
      → (fuel : ℕ) (read : M S ℕ) (buf : Bytes) → Fails E read
      → max_header < length buf + fuel
      → length buf ≤ max_header
      → Fails E (line_loop fuel read buf)
  unfolding line_loop
  line_loop-Fails E p zero read buf h enough small = absurd (omega arith)
  line_loop-Fails E p (suc fuel) read buf h enough small = Fails-bind E read _ h λ b.
      let size = length-append buf (b ∷ []) in
      line_round-Fails E p buf b (line_loop fuel read (buf ++ b ∷ []))
        λ short. line_loop-Fails E p fuel read (buf ++ b ∷ []) h (omega arith) short

  pub line_round-Keeps :
      (R : S → S → Type 0)
      → ((a : S) → R a a)
      → (buf : Bytes) (b : ℕ) (more : M S Bytes) (s : S) → Keeps R more
      → R s (line_round buf b more s).1
  line_round-Keeps R refl' buf b more s h = elim (Bool-cases (b == b'\n')) [
    | inl stop ↦ rw stop (refl' s)
    | inr go ↦ elim (Bool-cases (ltb max_header (length (buf ++ b ∷ [])))) [
      | inl long ↦ rw (go, long) (refl' s)
      | inr short ↦ rw (go, short) (h s)
    ]
  ]

  pub line_loop-Keeps :
      (R : S → S → Type 0)
      → ((a : S) → R a a)
      → ((a b c : S) → R a b → R b c → R a c)
      → (fuel : ℕ) (read : M S ℕ) (buf : Bytes) → Keeps R read
      → Keeps R (line_loop fuel read buf)
  unfolding line_loop
  line_loop-Keeps R refl' trans zero read buf h = refl'
  line_loop-Keeps R refl' trans (suc fuel) read buf h = Keeps-bind R trans read _ h λ b s.
      line_round-Keeps R refl' buf b (line_loop fuel read (buf ++ b ∷ [])) s
        (line_loop-Keeps R refl' trans fuel read (buf ++ b ∷ []) h)

  line_round_bound :
      (buf : Bytes) (b : ℕ) (more : M S Bytes) (s : S) (r : Bytes)
      → length buf ≤ max_header
      → (length (buf ++ b ∷ []) ≤ max_header → (u : S) → (more u).0 ≡ ok r → length r ≤ max_header)
      → (line_round buf b more s).0 ≡ ok r
      → length r ≤ max_header
  line_round_bound buf b more s r small k = elim (Bool-cases (b == b'\n')) [
    | inl stop ↦ rw stop (λ q. let same : buf ≡ r = cc in rw (← same) small)
    | inr go ↦ elim (Bool-cases (ltb max_header (length (buf ++ b ∷ [])))) [
      | inl long ↦ rw (go, long) (λ q. cc)
      | inr short ↦ rw (go, short) (k (ground arith) s)
    ]
  ]

  -- What the loop collects fits the bound.
  pub line_loop_bound :
      (fuel : ℕ) (read : M S ℕ) (buf : Bytes) (s : S) (r : Bytes)
      → length buf ≤ max_header
      → (line_loop fuel read buf s).0 ≡ ok r
      → length r ≤ max_header
  unfolding line_loop
  line_loop_bound zero read buf s r small h = cc
  line_loop_bound (suc fuel) read buf s r small h =
      let (b, got, rest) = >>=-eq-ok read _ s h in
      line_round_bound buf b (line_loop fuel read (buf ++ b ∷ [])) (read s).1 r small
        (λ short u. line_loop_bound fuel read (buf ++ b ∷ []) u r short) (cc (h, rest))
