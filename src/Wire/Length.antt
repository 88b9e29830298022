-- ===== src/Wire/Length.antt =====
-- `bytes` and the number of bytes that it hands out.
use koutendb_go.Common.{
  ℕ, zero, suc, ◌≤◌, ◌≡◌, refl, sym, ap, ◌∙◌, inl, inr, List, [], ◌∷◌, Option, none, some, Bytes,
  length, take, ltb, arith, Bool-cases,
}
use koutendb_go.Result.{ok}
use koutendb_go.Result.Rules.{>>=-eq-ok}
use koutendb_go.Wire.{Crypto, Wire, raw_bytes, fill, fill_to, take_plain, bytes_with, bytes}

length-take_enough : {A : Type 0} (n : ℕ) (xs : List A) → n ≤ length xs → length (take n xs) ≡ n
length-take_enough zero xs h = refl
length-take_enough (suc n) [] h = absurd (omega arith)
length-take_enough (suc n) (x ∷ xs) h = omega (arith, length-take_enough n xs (omega arith))

length-raw_bytes : (n : ℕ) (w : Wire) (b : Bytes) → (raw_bytes n w).0 ≡ ok b → length b ≡ n
unfolding raw_bytes
length-raw_bytes n w b h = elim (Bool-cases (ltb (length w.inbox) n)) [
  | inl short ↦ cc (rw short at h)
  | inr enough ↦
      let same : take n w.inbox ≡ b = cc (rw enough at h) in
      ap length (sym same) ∙ length-take_enough n w.inbox (ground arith)
]

fill_to_enough :
    (C : Crypto) (key : Bytes) (fuel n max : ℕ) (w : Wire)
    → (fill_to fuel C key n max w).0 ≡ ok tt
    → n ≤ length (fill_to fuel C key n max w).1.plain
unfolding fill_to
fill_to_enough C key zero n max w h = cc
fill_to_enough C key (suc fuel) n max w h = elim (Bool-cases (ltb (length w.plain) n)) [
  | inl more ↦
      let (_, _, rest) =
        >>=-eq-ok (fill C key max) (λ _. fill_to fuel C key n max) w (rw more at h) in
      let u = (fill C key max w).1 in
      rw more (rw rest (fill_to_enough C key fuel n max u (rw (← rest) (rw more at h))))
  | inr enough ↦ rw enough (ground arith)
]

pub length-bytes :
    (C : Crypto) (n max : ℕ) (w : Wire) (b : Bytes) → (bytes C n max w).0 ≡ ok b → length b ≡ n
unfolding bytes
length-bytes C n max w b h = go w.key h
  where
    go : (k : Option Bytes) → (bytes_with C k n max w).0 ≡ ok b → length b ≡ n
    go none h = length-raw_bytes n w b h
    go (some key) h =
        let (_, filled, rest) =
          >>=-eq-ok (fill_to (suc (length w.inbox)) C key n max) (λ _. take_plain n) w h in
        let u = (fill_to (suc (length w.inbox)) C key n max w).1 in
        let same : take n u.plain ≡ b = cc in
        ap length (sym same)
        ∙ length-take_enough n u.plain (fill_to_enough C key (suc (length w.inbox)) n max w filled)
