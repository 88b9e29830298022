-- ===== src/Strings/Laws.antt =====
-- Splitting and joining are inverse, and what a split yields.
use koutendb_go.Common.{
  ℕ, List, [], ◌∷◌, ◌++◌, Bytes, ◌==◌, ◌≢◌, All, ◌≡◌, arith, refl, Bool-cases, inl, inr,
}
use koutendb_go.Strings.{cons_head, split, join, replace_all, Lacks}

-- A part that holds no separator, behind which a separator stands.
pub split-append :
    (sep : ℕ) (p rest : Bytes) → Lacks sep p → split sep (p ++ sep ∷ rest) ≡ p ∷ split sep rest
unfolding split
split-append sep [] rest _ = ground arith
split-append sep (c ∷ p) rest (hc, hp) = rw (split-append sep p rest hp) (ground arith)

pub split_one : (sep : ℕ) (p : Bytes) → Lacks sep p → split sep p ≡ p ∷ []
unfolding split
split_one sep [] _ = refl
split_one sep (c ∷ p) (hc, hp) = rw (split_one sep p hp) (ground arith)

pub split-ne-nil : (sep : ℕ) (s : Bytes) → split sep s ≢ []
unfolding split
split-ne-nil sep [] = λ e. cc
split-ne-nil sep (c ∷ s) = grind (arith, split-ne-nil sep s)

join-cons_head :
    (sep c : ℕ) (ps : List Bytes) → ps ≢ [] → join sep (cons_head c ps) ≡ c ∷ join sep ps
unfolding join
join-cons_head sep c [] h = absurd (h refl)
join-cons_head sep c (p ∷ []) h = refl
join-cons_head sep c (p ∷ q ∷ ps) h = refl

join-cons_nil : (sep : ℕ) (ps : List Bytes) → ps ≢ [] → join sep ([] ∷ ps) ≡ sep ∷ join sep ps
unfolding join
join-cons_nil sep [] h = absurd (h refl)
join-cons_nil sep (p ∷ ps) h = refl

pub join-split : (sep : ℕ) (s : Bytes) → join sep (split sep s) ≡ s
unfolding split
join-split sep [] = unfold join in refl
join-split sep (c ∷ s) = ground (
  arith,
  join-split sep s,
  join-cons_head sep c (split sep s) (split-ne-nil sep s),
  join-cons_nil sep (split sep s) (split-ne-nil sep s),
)

All-cons_head :
    (sep c : ℕ) (ps : List Bytes) → c ≢ sep → All (Lacks sep) ps → All (Lacks sep) (cons_head c ps)
All-cons_head sep c [] h _ = ((h, tt), tt)
All-cons_head sep c (p ∷ ps) h (hp, hps) = ((h, hp), hps)

-- No part of a split holds the separator.
pub split-Lacks : (sep : ℕ) (s : Bytes) → All (Lacks sep) (split sep s)
unfolding split
split-Lacks sep [] = (tt, tt)
split-Lacks sep (c ∷ s) = elim (Bool-cases (c == sep)) [
  | inl same ↦ rw same (tt, split-Lacks sep s)
  | inr differ ↦ rw differ (All-cons_head sep c (split sep s) (ground arith) (split-Lacks sep s))
]

pub replace_all-append :
    (from to : ℕ) (s t : Bytes)
    → replace_all from to (s ++ t) ≡ replace_all from to s ++ replace_all from to t
unfolding replace_all
replace_all-append from to [] t = refl
replace_all-append from to (c ∷ s) t = rw (replace_all-append from to s t)

pub replace_all_lacking : (from to : ℕ) (s : Bytes) → Lacks from s → replace_all from to s ≡ s
unfolding replace_all
replace_all_lacking from to [] _ = refl
replace_all_lacking from to (c ∷ s) (hc, hs) = rw (replace_all_lacking from to s hs) (ground arith)
