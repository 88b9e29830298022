-- ===== src/Wire/Failing.antt =====
-- Which errors reading ends in, and that its loops have enough fuel.
use koutendb_go.Common.{
  ℕ, zero, suc, ◌+◌, ◌<◌, ◌≡◌, refl, ◌⊎◌, inl, inr, false, List, [], ◌∷◌, ◌++◌, Option, none, some,
  Bytes, codes, length, ltb, arith, Bool-cases, get_or,
}
use koutendb_go.Errors.{Failure, sentinel, protocol, server}
use koutendb_go.Result.{ok, err, lift, FailsWith, FailsWith-eq}
use koutendb_go.Result.Rules.{Fails, Fails-bind, >>=-eq-ok, >>=-eq-err}
use koutendb_go.Wire.{
  max_header, Crypto, Wire, next_byte, read_byte, raw_bytes, line_loop, line, expect, accept,
  frame_length, fill_frame, fill, fill_to, take_plain, bytes_with, bytes, header_with, header,
}
use koutendb_go.Wire.Line.{line_loop-Keeps, line_round-Keeps}
use koutendb_go.Wire.Header.{line-Fails}
use koutendb_go.Wire.Safety.{
  Reads, IsReadError, Reads-refl, Reads-trans, read_byte-Keeps, fill_frame-Keeps,
}

-- A line that was read took at least its newline.
read_byte_shrinks :
    (w : Wire) (b : ℕ) → (read_byte w).0 ≡ ok b → length (read_byte w).1.inbox < length w.inbox
unfolding read_byte
read_byte_shrinks w b = go w.inbox refl
  where
    go :
        (s : Bytes)
        → w.inbox ≡ s
        → (next_byte s w).0 ≡ ok b
        → length (next_byte s w).1.inbox < length w.inbox
    go [] e h = cc
    go (c ∷ s) e h = rw e (omega arith)

line_loop_shrinks :
    (fuel : ℕ) (buf : Bytes) (w : Wire) (r : Bytes)
    → (line_loop fuel read_byte buf w).0 ≡ ok r
    → length (line_loop fuel read_byte buf w).1.inbox < length w.inbox
unfolding line_loop
line_loop_shrinks zero buf w r h = cc
line_loop_shrinks (suc fuel) buf w r h =
    let (b, got, rest) = >>=-eq-ok read_byte _ w h in
    let more = line_loop fuel read_byte (buf ++ b ∷ []) in
    let kept = line_round-Keeps (Reads 0) (Reads-refl 0) buf b more (read_byte w).1 (
      line_loop-Keeps (Reads 0) (Reads-refl 0) (Reads-trans 0) fuel read_byte (buf ++ b ∷ [])
        (read_byte-Keeps 0)) in
    rw rest (omega (arith, read_byte_shrinks w b got, kept.shrinks))

line_shrinks :
    (w : Wire) (p : List Bytes)
    → (line read_byte w).0 ≡ ok p
    → length (line read_byte w).1.inbox < length w.inbox
unfolding line
line_shrinks w p h =
    let (r, got, rest) = >>=-eq-ok (line_loop (max_header + 1) read_byte []) _ w h in
    rw rest (line_loop_shrinks (max_header + 1) [] w r got)

fill_shrinks :
    (C : Crypto) (key : Bytes) (max : ℕ) (w : Wire)
    → (fill C key max w).0 ≡ ok tt
    → length (fill C key max w).1.inbox < length w.inbox
unfolding fill
fill_shrinks C key max w h =
    let (p, got, rest) = >>=-eq-ok (line read_byte) (fill_frame C key max) w h in
    let kept = fill_frame-Keeps max C key p (line read_byte w).1 in
    rw rest (omega (arith, line_shrinks w p got, kept.shrinks))

read_byte-Fails : Fails IsReadError read_byte
unfolding read_byte
read_byte-Fails w = go w.inbox
  where
    go : (s : Bytes) (e : Failure) → (next_byte s w).0 ≡ err e → IsReadError e
    go [] e h = inr (inr (w.ends, cc))
    go (b ∷ s) e h = cc

raw_bytes-Fails : (n : ℕ) → Fails IsReadError (raw_bytes n)
unfolding raw_bytes
raw_bytes-Fails n w e h = elim (Bool-cases (ltb (length w.inbox) n)) [
  | inl short ↦ inr (inr (w.ends, cc (rw short at h)))
  | inr enough ↦ cc (rw enough at h)
]

line-IsReadError : Fails IsReadError (line read_byte)
line-IsReadError = line-Fails IsReadError read_byte (inl refl) read_byte-Fails

expect_fails :
    (p : List Bytes) (tag : Bytes) (n : ℕ) (e : Failure)
    → expect p tag n false ≡ err e
    → (e ≡ sentinel protocol) ⊎ (e ≡ sentinel server)
unfolding expect
expect_fails [] tag n e h = inl (cc)
expect_fails (c ∷ p) tag n e h = ground arith

frame_length_fails : (max : ℕ) (s : Bytes) → FailsWith (sentinel protocol) (frame_length max s)
unfolding frame_length
frame_length_fails max s = ground arith

accept-Fails :
    (C : Crypto) (key : Bytes) (max : ℕ) (b : Bytes) → Fails IsReadError (accept C key max b)
unfolding accept
accept-Fails C key max b w e h = inl (grind arith)

expect_is_read :
    (p : List Bytes) (e : Failure) → expect p (codes "SEC") 2 false ≡ err e → IsReadError e
expect_is_read p e h = grind (arith, expect_fails p (codes "SEC") 2 e h)

fill-Fails : (C : Crypto) (key : Bytes) (max : ℕ) → Fails IsReadError (fill C key max)
unfolding fill
fill-Fails C key max = Fails-bind E (line read_byte) _ line-IsReadError λ p.
    Fails-bind E (lift (expect p (codes "SEC") 2 false)) _ (λ s e h. expect_is_read p e h)
      λ _.
        Fails-bind E (lift (frame_length max (get_or p 1 []))) _
          (λ s e h.
            inl (FailsWith-eq (sentinel protocol) _ (frame_length_fails max (get_or p 1 [])) h))
          λ n. Fails-bind E (raw_bytes n) _ (raw_bytes-Fails n) λ b. accept-Fails C key max b
  where
    E : Failure → Type 0
    E = IsReadError

-- A frame takes bytes off the inbox, so as many rounds as it has bytes are enough.
fill_to_fails :
    (fuel : ℕ) (C : Crypto) (key : Bytes) (n max : ℕ) (w : Wire) (e : Failure)
    → length w.inbox < fuel
    → (fill_to fuel C key n max w).0 ≡ err e
    → IsReadError e
unfolding fill_to
fill_to_fails zero C key n max w e f h = absurd (omega arith)
fill_to_fails (suc fuel) C key n max w e f h = elim (Bool-cases (ltb (length w.plain) n)) [
  | inl more ↦
      elim (>>=-eq-err (fill C key max) (λ _. fill_to fuel C key n max) w e (rw more at h)) [
        | inl failed ↦ fill-Fails C key max w e failed
        | inr (_, filled, later) ↦
            let u = (fill C key max w).1 in
            fill_to_fails fuel C key n max u e (omega (arith, fill_shrinks C key max w filled))
              later
      ]
  | inr enough ↦ cc (rw enough at h)
]

-- Reading bytes, on any connection and for any input, fails only with ErrProtocol, ErrServer or an
-- error of the network; its loop never runs out of fuel.
pub bytes-Fails :
    (C : Crypto) (n max : ℕ) (w : Wire) (e : Failure) → (bytes C n max w).0 ≡ err e → IsReadError e
unfolding bytes
bytes-Fails C n max w e = go w.key
  where
    go : (k : Option Bytes) → (bytes_with C k n max w).0 ≡ err e → IsReadError e
    go none h = raw_bytes-Fails n w e h
    go (some key) h =
        elim (>>=-eq-err (fill_to (suc (length w.inbox)) C key n max) (λ _. take_plain n) w e h) [
          | inl failed ↦ fill_to_fails (suc (length w.inbox)) C key n max w e (omega arith) failed
          | inr (_, filled, later) ↦ cc
        ]

-- Reading a header, on any connection and for any input, fails only with ErrProtocol, ErrServer or an
-- error of the network; its loops never run out of fuel.
pub header-Fails :
    (C : Crypto) (max : ℕ) (w : Wire) (e : Failure) → (header C max w).0 ≡ err e → IsReadError e
unfolding header
header-Fails C max w e = go w.key
  where
    go : (k : Option Bytes) → (header_with C k max w).0 ≡ err e → IsReadError e
    go none = line-IsReadError w e
    go (some key) =
        line-Fails IsReadError _ (inl refl)
          (Fails-bind IsReadError (bytes C 1 max) _ (bytes-Fails C 1 max) (λ b s e h. cc)) w e
