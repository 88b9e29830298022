-- ===== src/Embedded/Worker/Invariant.antt =====
-- What holds of the goroutines of a database in every state that they reach.
use koutendb_go.Common.{
  ℕ, ◌+◌, ◌≤◌, ◌≡◌, ◌≢◌, refl, sym, ap, ◌∙◌, ◌⊎◌, inl, inr, true, false, Option, none, some, arith,
}
use mathlib.Core.Path.{subst}
use koutendb_go.Embedded.Worker.{
  Job, calls, closes, Phase, outside, waiting, locked, sending, awaiting, answered, idle, busy,
  exited, Shared, Move, begin, acquire, refuse, proceed, take, finish_call, finish_close,
  receive_call, receive_close, System, set, Step, step, Reach, start, later,
}

-- The worker and the flag while no job is on its way: open, or closed once.
abbrev pub IsServing : Shared → Type 0
IsServing m = (m.worker ≡ idle) × (m.closed ≡ false) × (m.closings ≡ 0)

abbrev pub IsResting : Shared → Type 0
IsResting m = IsServing m ⊎ ((m.worker ≡ exited) × (m.closed ≡ true) × (m.closings ≡ 1))

abbrev pub Holds : ℕ → Shared → Type 0
Holds i m = m.mutex ≡ some i

abbrev pub Fits : ℕ → Shared → Phase → Type 0
Fits i m outside = ¬ Holds i m
Fits i m (waiting a) = ¬ Holds i m
Fits i m (locked a) = Holds i m × IsResting m
Fits i m (sending a) = Holds i m × IsServing m
Fits i m (awaiting a) = Holds i m × (m.worker ≡ busy i a) × (m.closed ≡ false) × (m.closings ≡ 0)
Fits i m (answered calls) = Holds i m × IsServing m
Fits i m (answered closes) = Holds i m × (m.worker ≡ exited) × (m.closed ≡ false) × (m.closings ≡ 1)

pub record Inv (s : System) : Type 0 where
  pub fits : (i : ℕ) → Fits i s.shared (s.phase i)
  pub rests : s.shared.mutex ≡ none → IsResting s.shared

abbrev Rests : Shared → Type 0
Rests m = m.mutex ≡ none → IsResting m

nobody : (j : ℕ) (o : Option ℕ) → o ≡ none → ¬ (o ≡ some j)
nobody j o free h = cc

-- The caller itself after its move.
Move-Fits :
    (i : ℕ) {m m' : Shared} {p p' : Phase} → Move i m p m' p' → Rests m → Fits i m p → Fits i m' p'
Move-Fits i (begin a) rests fits = fits
Move-Fits i (acquire free) rests fits = (refl, rests free)
Move-Fits i (refuse shut) rests fits = λ h. cc
Move-Fits i (proceed live) rests (holds, inl serving) = (holds, serving)
Move-Fits i (proceed live) rests (holds, inr (_, shut, _)) = cc
Move-Fits i (take free) rests (holds, (_, live, none_yet)) = (holds, refl, live, none_yet)
Move-Fits i (finish_call runs) rests (holds, _, live, none_yet) = (holds, (refl, live, none_yet))
Move-Fits i (finish_close runs) rests (holds, _, live, none_yet) =
    (holds, refl, live, ap (λ n. n + 1) none_yet)
Move-Fits i receive_call rests fits = λ h. cc
Move-Fits i receive_close rests fits = λ h. cc

Move-Rests :
    (i : ℕ) {m m' : Shared} {p p' : Phase} → Move i m p m' p' → Rests m → Fits i m p → Rests m'
Move-Rests i (begin a) rests fits = rests
Move-Rests i (acquire free) rests fits = λ h. cc
Move-Rests i (refuse shut) rests fits = λ _. fits.1
Move-Rests i (proceed live) rests fits = rests
Move-Rests i (take free) rests fits = λ h. absurd (nobody i _ h fits.0)
Move-Rests i (finish_call runs) rests fits = λ h. absurd (nobody i _ h fits.0)
Move-Rests i (finish_close runs) rests fits = λ h. absurd (nobody i _ h fits.0)
Move-Rests i receive_call rests fits = λ _. inl fits.1
Move-Rests i receive_close rests (holds, gone, live, once) = λ _. inr (gone, refl, once)

-- A caller that stands behind the Lock holds the mutex.
abbrev pub IsInside : Phase → Type 0
IsInside outside = ⊥
IsInside (waiting a) = ⊥
IsInside (locked a) = Unit
IsInside (sending a) = Unit
IsInside (awaiting a) = Unit
IsInside (answered a) = Unit

Fits-Holds : (i : ℕ) (m : Shared) (p : Phase) → IsInside p → Fits i m p → Holds i m
Fits-Holds i m outside inside fits = elim inside [ ]
Fits-Holds i m (waiting a) inside fits = elim inside [ ]
Fits-Holds i m (locked a) inside fits = fits.0
Fits-Holds i m (sending a) inside fits = fits.0
Fits-Holds i m (awaiting a) inside fits = fits.0
Fits-Holds i m (answered calls) inside fits = fits.0
Fits-Holds i m (answered closes) inside fits = fits.0

closings_bound : (i : ℕ) (m : Shared) (p : Phase) → IsInside p → Fits i m p → m.closings ≤ 1
closings_bound i m outside inside fits = elim inside [ ]
closings_bound i m (waiting a) inside fits = elim inside [ ]
closings_bound i m (locked a) inside (holds, inl (_, _, none_yet)) = omega arith
closings_bound i m (locked a) inside (holds, inr (_, _, once)) = omega arith
closings_bound i m (sending a) inside (holds, (_, _, none_yet)) = omega arith
closings_bound i m (awaiting a) inside (holds, _, _, none_yet) = omega arith
closings_bound i m (answered calls) inside (holds, (_, _, none_yet)) = omega arith
closings_bound i m (answered closes) inside (holds, _, _, once) = omega arith

-- Another caller, while this one has the mutex before and after, or takes it, or gives it back.
Fits-absent :
    (j : ℕ) (m m' : Shared) (q : Phase) → ¬ Holds j m → ¬ Holds j m' → Fits j m q → Fits j m' q
Fits-absent j m m' outside before after fits = after
Fits-absent j m m' (waiting a) before after fits = after
Fits-absent j m m' (locked a) before after fits = absurd (before fits.0)
Fits-absent j m m' (sending a) before after fits = absurd (before fits.0)
Fits-absent j m m' (awaiting a) before after fits = absurd (before fits.0)
Fits-absent j m m' (answered calls) before after fits = absurd (before fits.0)
Fits-absent j m m' (answered closes) before after fits = absurd (before fits.0)

some_injective : {x y : ℕ} → some x ≡ some y → x ≡ y
some_injective h = cc

elsewhere : (i j : ℕ) (o : Option ℕ) → j ≢ i → o ≡ some i → ¬ (o ≡ some j)
elsewhere i j o differs holds h = differs (some_injective (sym h ∙ holds))

Move-others :
    (i j : ℕ) {m m' : Shared} {p p' : Phase} (q : Phase)
    → j ≢ i
    → Move i m p m' p'
    → Fits i m p
    → Fits j m q
    → Fits j m' q
Move-others i j q differs (begin a) own fits = fits
Move-others i j {m} q differs (acquire free) own fits =
    Fits-absent j m (record m { mutex = some i }) q (nobody j m.mutex free)
      (elsewhere i j (some i) differs refl) fits
Move-others i j {m} q differs (refuse shut) own fits =
    Fits-absent j m (record m { mutex = none }) q (elsewhere i j m.mutex differs own.0)
      (nobody j none refl) fits
Move-others i j q differs (proceed live) own fits = fits
Move-others i j {m} q differs (take free) own fits =
    let h = elsewhere i j m.mutex differs own.0 in
    Fits-absent j m (record m { worker = busy i _ }) q h h fits
Move-others i j {m} q differs (finish_call runs) own fits =
    let h = elsewhere i j m.mutex differs own.0 in
    Fits-absent j m (record m { worker = idle }) q h h fits
Move-others i j {m} q differs (finish_close runs) own fits =
    let h = elsewhere i j m.mutex differs own.0 in
    Fits-absent j m (record m { worker = exited; closings = m.closings + 1 }) q h h fits
Move-others i j {m} q differs receive_call own fits =
    Fits-absent j m (record m { mutex = none }) q (elsewhere i j m.mutex differs own.0)
      (nobody j none refl) fits
Move-others i j {m} q differs receive_close own fits =
    Fits-absent j m (record m { mutex = none; closed = true }) q
      (elsewhere i j m.mutex differs own.0) (nobody j none refl) fits

pub set_self : (i : ℕ) (p : Phase) (f : ℕ → Phase) → set i p f i ≡ p
unfolding set
set_self i p f = ground arith

pub set_other : (i j : ℕ) (p : Phase) (f : ℕ → Phase) → j ≢ i → set i p f j ≡ f j
unfolding set
set_other i j p f differs = ground arith

pub ==_cases : (a b : ℕ) → (a ≡ b) ⊎ (a ≢ b)
==_cases a b = ground arith

pub Step-Inv : {s t : System} → Inv s → Step s t → Inv t
Step-Inv {s} inv (step i {m} {p} move) = record {
  fits = all_fit;
  rests = Move-Rests i move inv.rests (inv.fits i);
}
  where
    all_fit : (j : ℕ) → Fits j m (set i p s.phase j)
    all_fit j = elim (==_cases j i) [
      | inl same ↦
          subst (λ k. Fits k m (set i p s.phase k)) (sym same)
            (subst (Fits i m) (sym (set_self i p s.phase))
              (Move-Fits i move inv.rests (inv.fits i)))
      | inr differs ↦
          subst (Fits j m) (sym (set_other i j p s.phase differs))
            (Move-others i j (s.phase j) differs move (inv.fits i) (inv.fits j))
    ]

pub Reach-Inv : {s : System} → Reach s → Inv s
Reach-Inv start = record { fits = λ i h. cc; rests = λ h. inl (refl, refl, refl) }
Reach-Inv (later r st) = Step-Inv (Reach-Inv r) st

-- In every state that the goroutines of a database reach, two callers behind the Lock are the same, and
-- while there is one kouten_close has been called at most once.
pub reach_exclusive :
    {s : System} (i j : ℕ)
    → Reach s
    → IsInside (s.phase i)
    → IsInside (s.phase j)
    → (i ≡ j) × (s.shared.closings ≤ 1)
reach_exclusive {s} i j r here there =
    let inv = Reach-Inv r in
    (
      some_injective (
          sym (Fits-Holds i s.shared (s.phase i) here (inv.fits i))
          ∙ Fits-Holds j s.shared (s.phase j) there (inv.fits j)),
      closings_bound i s.shared (s.phase i) here (inv.fits i),
    )

-- A caller that sends a job finds the worker waiting for one, and the library open.
pub sending_taken :
    {s : System} (i : ℕ) (a : Job)
    → Reach s
    → s.phase i ≡ sending a
    → (s.shared.worker ≡ idle) × (s.shared.closings ≡ 0)
sending_taken {s} i a r sends =
    let (holds, (waits, live, none_yet)) = subst (Fits i s.shared) sends ((Reach-Inv r).fits i) in
    (waits, none_yet)
