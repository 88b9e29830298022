-- ===== src/Decimal/RoundTrip.antt =====
-- Printing and reading decimal numbers are inverse on the canonical texts.
use koutendb_go.Common.{
  ℕ, zero, suc, ◌+◌, ◌-◌, ◌*◌, ◌/◌, ◌%◌, ◌^◌, ◌≤◌, ◌<◌, ◌≡◌, refl, sym, ◌≢◌, ◌⊎◌, inl, inr, [], ◌∷◌,
  ◌++◌, append_assoc, append-nil, Bool-cases, some, Bytes, ltb, arith, All, All-append, length,
  length-append,
}
use native.Mathlib.Nat.{pow-suc}
use koutendb_go.Decimal.{digits, decimal, scan, value, IsDigit}

-- More rounds than needed change nothing.
digits_fuel : (f g n : ℕ) → n ≤ f → n ≤ g → digits f n ≡ digits g n
unfolding digits
digits_fuel zero zero n p q = refl
digits_fuel zero (suc g) n p q = ground arith
digits_fuel (suc f) zero n p q = ground arith
digits_fuel (suc f) (suc g) n p q = ground (arith, digits_fuel f g (n / 10))

pub decimal_small : (n : ℕ) → n < 10 → decimal n ≡ (b'0' + n) ∷ []
unfolding decimal
decimal_small zero h = refl
decimal_small (suc n) h = ground arith

-- The last digit stands behind the digits of the rest.
pub decimal_step : (n : ℕ) → 10 ≤ n → decimal n ≡ decimal (n / 10) ++ (b'0' + n % 10) ∷ []
unfolding decimal
decimal_step zero h = absurd (omega arith)
decimal_step (suc n) h = ground (arith, digits_fuel n (suc n / 10) (suc n / 10))

value-append : (s t : Bytes) (acc : ℕ) → value acc (s ++ t) ≡ value (value acc s) t
value-append [] t acc = refl
value-append (c ∷ s) t acc = value-append s t (acc * 10 + (c - b'0'))

digits-IsDigit : (f n : ℕ) → n ≤ f → All IsDigit (digits f n)
unfolding digits
digits-IsDigit zero n h = omega arith
digits-IsDigit (suc f) n h = elim (Bool-cases (ltb n 10)) [
  | inl small ↦ rw small (ground arith)
  | inr large ↦
      rw large (All-append IsDigit _ _ (digits-IsDigit f (n / 10) (ground arith)) (omega arith))
]

value-digits : (f n : ℕ) → n ≤ f → value 0 (digits f n) ≡ n
unfolding digits
value-digits zero n h = omega arith
value-digits (suc f) n h = elim (Bool-cases (ltb n 10)) [
  | inl small ↦ rw small (omega arith)
  | inr large ↦
      rw (large, value-append (digits f (n / 10)) _ 0, value-digits f (n / 10) (ground arith))
        (omega arith)
]

digits_head : (f n : ℕ) → n ≤ f → 0 < n → (c : ℕ) × (s : Bytes) × (digits f n ≡ c ∷ s) × (c ≢ b'0')
unfolding digits
digits_head zero n h p = absurd (omega arith)
digits_head (suc f) n h p = elim (Bool-cases (ltb n 10)) [
  | inl small ↦ (b'0' + n, [], rw small, omega arith)
  | inr large ↦
      let (c, s, e, ne) = digits_head f (n / 10) (ground arith) (ground arith) in
      (c, s ++ (b'0' + n % 10) ∷ [], rw (large, e), ne)
]

-- The texts that `%d` prints: digits, with no zero in front of others.
abbrev pub IsCanonical : Bytes → Type 0
IsCanonical [] = ⊥
IsCanonical (c ∷ s) = All IsDigit (c ∷ s) × ((c ≢ b'0') ⊎ (s ≡ []))

pub decimal-IsDigit : (n : ℕ) → All IsDigit (decimal n)
unfolding decimal
decimal-IsDigit n = digits-IsDigit n n (omega arith)

pub value-decimal : (n : ℕ) → value 0 (decimal n) ≡ n
unfolding decimal
value-decimal n = value-digits n n (omega arith)

pub decimal_head : (n : ℕ) → 0 < n → (c : ℕ) × (s : Bytes) × (decimal n ≡ c ∷ s) × (c ≢ b'0')
unfolding decimal
decimal_head n = digits_head n n (omega arith)

pub decimal-IsCanonical : (n : ℕ) → IsCanonical (decimal n)
decimal-IsCanonical zero = rw (decimal_small 0 (omega arith)) (omega arith, inr refl)
decimal-IsCanonical (suc n) =
    let (c, s, e, ne) = decimal_head (suc n) (omega arith) in
    rw e (rw e at (decimal-IsDigit (suc n)), inl ne)

-- Reading digits on gives the value, unless it passes the limit on the way; it can only grow.
le-value : (s : Bytes) (acc : ℕ) → acc ≤ value acc s
le-value [] acc = omega arith
le-value (c ∷ s) acc = omega (arith, le-value s (acc * 10 + (c - b'0')))

pub scan_complete :
    (limit : ℕ) (s : Bytes) (acc : ℕ)
    → All IsDigit s
    → value acc s < limit
    → scan limit s acc ≡ some (value acc s)
unfolding scan
scan_complete limit [] acc _ _ = refl
scan_complete limit (c ∷ s) acc (hc, hs) fits =
    let next = acc * 10 + (c - b'0') in
    ground (arith, scan_complete limit s next hs fits, le-value s next)

pub scan_sound :
    (limit : ℕ) (s : Bytes) (acc r : ℕ)
    → acc < limit
    → scan limit s acc ≡ some r
    → All IsDigit s × (r ≡ value acc s) × (r < limit)
unfolding scan
scan_sound limit [] acc r fits h = ground arith
scan_sound limit (c ∷ s) acc r fits h = ground (arith, scan_sound limit s (acc * 10 + (c - b'0')) r)

-- A canonical text is the print of the number that it spells.
decimal-value :
    (s : Bytes) (acc : ℕ) → 0 < acc → All IsDigit s → decimal (value acc s) ≡ decimal acc ++ s
decimal-value [] acc h _ = sym (append-nil _)
decimal-value (c ∷ s) acc h (hc, hs) =
    let next = acc * 10 + (c - b'0') in
    let quotient : next / 10 ≡ acc = omega arith in
    let remainder : b'0' + next % 10 ≡ c = omega arith in
    rw (decimal-value s next (omega arith) hs, decimal_step next (omega arith), quotient, remainder)
      (append_assoc (decimal acc) (c ∷ []) s)

pub decimal-value_canonical : (s : Bytes) → IsCanonical s → decimal (value 0 s) ≡ s
decimal-value_canonical [] h = absurd h
decimal-value_canonical (c ∷ []) ((hc, _), _) =
    let e : value 0 (c ∷ []) ≡ c - b'0' = omega arith in
    let back : b'0' + (c - b'0') ≡ c = omega arith in
    rw (e, decimal_small (c - b'0') (omega arith), back)
decimal-value_canonical (c ∷ d ∷ s) ((hc, hs), inl ne) =
    let e : 0 * 10 + (c - b'0') ≡ c - b'0' = omega arith in
    let back : b'0' + (c - b'0') ≡ c = omega arith in
    rw (
      e,
      decimal-value (d ∷ s) (c - b'0') (grind arith) hs,
      decimal_small (c - b'0') (omega arith),
      back,
    )
decimal-value_canonical (c ∷ d ∷ s) (h, inr e) = cc

-- A number below 10 ^ k has at most `k` digits.
pub length-decimal_bound : (k n : ℕ) → n < 10 ^ suc k → length (decimal n) ≤ suc k
length-decimal_bound zero n h = rw (decimal_small n (omega arith)) (omega arith)
length-decimal_bound (suc k) n h = elim (Bool-cases (ltb n 10)) [
  | inl small ↦ rw (decimal_small n (ground arith)) (omega arith)
  | inr large ↦
      let rest = length-decimal_bound k (n / 10) (omega (arith, pow-suc 10 (suc k))) in
      rw (decimal_step n (ground arith))
        (omega (arith, length-append (decimal (n / 10)) ((b'0' + n % 10) ∷ [])))
]
