-- ===== src/Strings.antt =====
-- What the driver uses of Go's package strings, on byte strings: Split, Join and ReplaceAll with one
-- byte to look for, HasPrefix, ContainsAny.
pub mod Laws
use koutendb_go.Common.{
  ℕ, Bool, true, false, ◌&&◌, ◌||◌, List, [], ◌∷◌, ◌++◌, Bytes, ◌==◌, if◌then◌else◌, ◌≢◌, All,
}

-- Puts a byte in front of the first part.
abbrev pub cons_head : ℕ → List Bytes → List Bytes
cons_head c [] = (c ∷ []) ∷ []
cons_head c (p ∷ ps) = (c ∷ p) ∷ ps

-- `strings.Split(s, sep)`.
unfoldable pub split : ℕ → Bytes → List Bytes
split sep [] = [] ∷ []
split sep (c ∷ s) = let rest = split sep s in if c == sep then [] ∷ rest else cons_head c rest

-- `strings.Join(parts, sep)`.
unfoldable pub join : ℕ → List Bytes → Bytes
join sep [] = []
join sep (p ∷ []) = p
join sep (p ∷ q ∷ ps) = p ++ (sep ∷ join sep (q ∷ ps))

-- `strings.ReplaceAll(s, from, to)`.
unfoldable pub replace_all : ℕ → ℕ → Bytes → Bytes
replace_all from to [] = []
replace_all from to (c ∷ s) = (if c == from then to else c) ∷ replace_all from to s

unfoldable pub contains : Bytes → ℕ → Bool
contains [] c = false
contains (d ∷ s) c = d == c || contains s c

-- `strings.ContainsAny(s, chars)`.
unfoldable pub contains_any : Bytes → Bytes → Bool
unfolding contains
contains_any [] chars = false
contains_any (c ∷ s) chars = contains chars c || contains_any s chars

-- `strings.HasPrefix(s, prefix)`.
unfoldable pub has_prefix : Bytes → Bytes → Bool
has_prefix s [] = true
has_prefix [] (p ∷ prefix) = false
has_prefix (c ∷ s) (p ∷ prefix) = c == p && has_prefix s prefix

abbrev pub Lacks : ℕ → Bytes → Type 0
Lacks b = All (λ c. c ≢ b)
