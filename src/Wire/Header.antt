-- ===== src/Wire/Header.antt =====
-- `line` as a whole: which headers it accepts, what it returns for them, and which errors it has.
use koutendb_go.Common.{
  ℕ, suc, ◌+◌, ◌≤◌, ◌<◌, ◌≡◌, ◌≢◌, refl, inl, inr, true, List, [], ◌∷◌, ◌++◌, append-nil, Bytes,
  length, All, All-append, arith, Bool-cases,
}
use koutendb_go.Errors.{Failure, sentinel, protocol}
use koutendb_go.Result.{ok, err, M, FailsWith, FailsWith-eq}
use koutendb_go.Result.Rules.{Keeps, Fails, Keeps-bind, Fails-bind, >>=-eq-ok}
use koutendb_go.Strings.{split, Lacks}
use koutendb_go.Wire.{max_header, line_loop, strip_cr, all_printable, fields_of, line}
use koutendb_go.Wire.Line.{
  Feeds, line_loop_collects, line_loop_refuses, line_loop-Fails, line_loop-Keeps, line_loop_bound,
}

abbrev pub IsPrintable : ℕ → Type 0
IsPrintable b = (32 ≤ b) × (b ≤ 126)

all_printable_complete : (h : Bytes) → All IsPrintable h → all_printable h ≡ true
all_printable_complete [] _ = refl
all_printable_complete (b ∷ h) (hb, hs) = ground (arith, all_printable_complete h hs)

all_printable_sound : (h : Bytes) → all_printable h ≡ true → All IsPrintable h
all_printable_sound [] _ = tt
all_printable_sound (b ∷ h) p = ground (arith, all_printable_sound h)

printable-Lacks : (c : ℕ) (h : Bytes) → c < 32 → All IsPrintable h → Lacks c h
printable-Lacks c [] _ _ = tt
printable-Lacks c (b ∷ h) small (hb, hs) = (omega arith, printable-Lacks c h small hs)

strip_cr_printable : (h : Bytes) → All IsPrintable h → strip_cr h ≡ h
unfolding strip_cr
strip_cr_printable [] _ = refl
strip_cr_printable (b ∷ []) (hb, _) = ground arith
strip_cr_printable (b ∷ c ∷ h) (hb, hs) = rw (strip_cr_printable (c ∷ h) hs)

strip_cr_return : (h : Bytes) → strip_cr (h ++ b'\r' ∷ []) ≡ h
unfolding strip_cr
strip_cr_return [] = refl
strip_cr_return (b ∷ []) = refl
strip_cr_return (b ∷ c ∷ h) = rw (strip_cr_return (c ∷ h))

length-strip_cr : (h : Bytes) → length (strip_cr h) ≤ length h
unfolding strip_cr
length-strip_cr [] = omega arith
length-strip_cr (b ∷ []) = ground arith
length-strip_cr (b ∷ c ∷ h) = omega (arith, length-strip_cr (c ∷ h))

fields_of_printable : (h : Bytes) → h ≢ [] → All IsPrintable h → fields_of h ≡ ok (split b' ' h)
unfolding fields_of
fields_of_printable [] ne _ = absurd (ne refl)
fields_of_printable (b ∷ h) _ hs = rw (all_printable_complete (b ∷ h) hs)

fields_of_sound :
    (h : Bytes) (p : List Bytes)
    → fields_of h ≡ ok p
    → (p ≡ split b' ' h) × (h ≢ []) × All IsPrintable h
unfolding fields_of
fields_of_sound [] p e = cc
fields_of_sound (b ∷ h) p e = elim (Bool-cases (all_printable (b ∷ h))) [
  | inl good ↦ (cc (rw good at e), (λ q. cc), all_printable_sound (b ∷ h) good)
  | inr bad ↦ cc (rw bad at e)
]

fields_of-FailsWith : (h : Bytes) → FailsWith (sentinel protocol) (fields_of h)
unfolding fields_of
fields_of-FailsWith [] = refl
fields_of-FailsWith (b ∷ h) = ground arith

-- The ends of a line that `line` takes off: nothing or a carriage return, then the newline.
pub data LineEnd : Bytes → Type 0 where
  bare : LineEnd []
  carriage : LineEnd (b'\r' ∷ [])

strip_cr_end : (h cr : Bytes) → LineEnd cr → All IsPrintable h → strip_cr (h ++ cr) ≡ h
strip_cr_end h _ bare hs = rw (append-nil h) (strip_cr_printable h hs)
strip_cr_end h _ carriage hs = strip_cr_return h

end-Lacks : (h cr : Bytes) → LineEnd cr → All IsPrintable h → Lacks b'\n' (h ++ cr)
end-Lacks h _ bare hs = All-append _ h [] (printable-Lacks b'\n' h (omega arith) hs) tt
end-Lacks h _ carriage hs =
    All-append _ h _ (printable-Lacks b'\n' h (omega arith) hs) (omega arith, tt)

line_unfold :
    {S : Type 0} (read : M S ℕ) (h : Bytes) (s u : S) (n : ℕ)
    → n ≡ max_header + 1
    → line_loop n read [] s ≡ (ok h, u)
    → line read s ≡ (fields_of (strip_cr h), u)
unfolding line
line_unfold read h s u n size e = rw (← size, e)

line_refused :
    {S : Type 0} (read : M S ℕ) (s u : S) (n : ℕ) (e : Failure)
    → n ≡ max_header + 1
    → line_loop n read [] s ≡ (err e, u)
    → line read s ≡ (err e, u)
unfolding line
line_refused read s u n e size p = rw (← size, p)

-- A printable header that is not empty, with its line end at most maxHeader long, comes back as its
-- fields split at the spaces, and nothing behind the newline is read.
pub line_reads :
    {S : Type 0} (read : M S ℕ) (h cr : Bytes) (s u : S)
    → h ≢ []
    → All IsPrintable h
    → LineEnd cr
    → length (h ++ cr) ≤ max_header
    → Feeds read ((h ++ cr) ++ b'\n' ∷ []) s u
    → line read s ≡ (ok (split b' ' h), u)
line_reads read h cr s u ne hs e fits feeds = rw (
  line_unfold read (h ++ cr) s u (suc max_header) (omega arith) (
      line_loop_collects (suc max_header) read (h ++ cr) [] s u (end-Lacks h cr e hs) (omega arith)
        (omega arith) feeds),
  strip_cr_end h cr e hs,
  fields_of_printable h ne hs,
)

-- A line whose first maxHeader + 1 bytes hold no newline is ErrProtocol, and just those bytes are read.
pub line_too_long :
    {S : Type 0} (read : M S ℕ) (h : Bytes) (s u : S)
    → Lacks b'\n' h
    → length h ≡ max_header + 1
    → Feeds read h s u
    → line read s ≡ (err (sentinel protocol), u)
line_too_long read h s u lacks size feeds =
    line_refused read s u (suc max_header) (sentinel protocol) (omega arith) (
      line_loop_refuses (suc max_header) read h [] s u lacks (omega arith) (omega arith)
        (omega arith) feeds)

-- What line returns are the fields of one printable header that is not empty and at most maxHeader
-- long, whatever was read.
pub line_sound :
    {S : Type 0} (read : M S ℕ) (s : S) (p : List Bytes)
    → (line read s).0 ≡ ok p
    → (h : Bytes) × (p ≡ split b' ' h) × (h ≢ []) × All IsPrintable h × (length h ≤ max_header)
unfolding line
line_sound read s p e =
    let (buf, got, rest) = >>=-eq-ok (line_loop (max_header + 1) read []) _ s e in
    let (split_at, ne, printable) = fields_of_sound (strip_cr buf) p (cc e) in
    let bound = line_loop_bound (max_header + 1) read [] s buf (omega arith) got in
    (strip_cr buf, split_at, ne, printable, omega (arith, length-strip_cr buf))

-- The errors of `line` are ErrProtocol and those of the reads; the rounds are enough.
pub line-Fails :
    {S : Type 0} (E : Failure → Type 0) (read : M S ℕ)
    → E (sentinel protocol)
    → Fails E read
    → Fails E (line read)
unfolding line
line-Fails E read p h =
    Fails-bind E (line_loop (max_header + 1) read []) _
      (line_loop-Fails E p (max_header + 1) read [] h (omega arith) (omega arith))
      λ buf s e q. rw (FailsWith-eq (sentinel protocol) _ (fields_of-FailsWith (strip_cr buf)) q) p

pub line-Keeps :
    {S : Type 0} (R : S → S → Type 0) (read : M S ℕ)
    → ((a : S) → R a a)
    → ((a b c : S) → R a b → R b c → R a c)
    → Keeps R read
    → Keeps R (line read)
unfolding line
line-Keeps R read refl' trans h =
    Keeps-bind R trans (line_loop (max_header + 1) read []) _
      (line_loop-Keeps R refl' trans (max_header + 1) read [] h) λ buf s. refl' s
