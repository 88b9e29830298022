-- ===== src/Embedded/Worker/Progress.antt =====
-- Every call of a database and every `Close` can return.
use koutendb_go.Common.{ℕ, ◌≡◌, ◌≢◌, refl, sym, ap, ◌∙◌, ◌⊎◌, inl, inr, none, some, Option-cases}
use mathlib.Core.Path.{subst}
use koutendb_go.Embedded.Worker.{
  Job, calls, closes, Phase, outside, waiting, locked, sending, awaiting, answered, idle, busy,
  Shared, Move, acquire, refuse, proceed, take, finish_call, finish_close, receive_call,
  receive_close, System, set, Step, step, Reach,
}
use koutendb_go.Embedded.Worker.Invariant.{
  Inv, IsResting, Fits, Step-Inv, Reach-Inv, set_self, set_other, ==_cases,
}

pub data Run : System → System → Type 0 where
  done : {s : System} → Run s s
  then : {s t u : System} → Step s t → Run t u → Run s u

join : {s t u : System} → Run s t → Run t u → Run s u
join done r = r
join (then st q) r = then st (join q r)

Run-Inv : {s t : System} → Inv s → Run s t → Inv t
Run-Inv inv done = inv
Run-Inv inv (then st r) = Run-Inv (Step-Inv inv st) r

-- A run after which the caller has returned and the mutex is free, and in which no other caller moves.
record Released (i : ℕ) (s : System) : Type 0 where
  last : System
  run : Run s last
  returned : last.phase i ≡ outside
  free : last.shared.mutex ≡ none
  others : (j : ℕ) → j ≢ i → last.phase j ≡ s.phase j

-- A move of the caller before such a run.
advance :
    (i : ℕ) (s : System) {p p' : Phase} {m : Shared}
    → s.phase i ≡ p
    → Move i s.shared p m p'
    → Released i (record { shared = m; phase = set i p' s.phase })
    → Released i s
advance i s {p} {p'} {m} stands move rest = record {
  last = rest.last;
  run = then (step i (subst (λ q. Move i s.shared q m p') (sym stands) move)) rest.run;
  returned = rest.returned;
  free = rest.free;
  others = λ j differs. rest.others j differs ∙ set_other i j p' s.phase differs;
}

-- The move with which the caller returns.
leave :
    (i : ℕ) (s : System) {p : Phase} {m : Shared}
    → s.phase i ≡ p
    → Move i s.shared p m outside
    → m.mutex ≡ none
    → Released i s
leave i s {p} {m} stands move free = advance i s stands move (record {
  last = record { shared = m; phase = set i outside s.phase };
  run = done;
  returned = set_self i outside s.phase;
  free = free;
  others = λ j differs. refl;
})

answered-Released : (i : ℕ) (s : System) (a : Job) → s.phase i ≡ answered a → Released i s
answered-Released i s calls stands = leave i s stands receive_call refl
answered-Released i s closes stands = leave i s stands receive_close refl

awaiting-Released :
    (i : ℕ) (s : System) (a : Job)
    → s.phase i ≡ awaiting a
    → s.shared.worker ≡ busy i a
    → Released i s
awaiting-Released i s calls stands runs =
    advance i s stands (finish_call runs)
      (answered-Released i _ calls (set_self i (answered calls) s.phase))
awaiting-Released i s closes stands runs =
    advance i s stands (finish_close runs)
      (answered-Released i _ closes (set_self i (answered closes) s.phase))

sending-Released :
    (i : ℕ) (s : System) (a : Job) → s.phase i ≡ sending a → s.shared.worker ≡ idle → Released i s
sending-Released i s a stands waits =
    advance i s stands (take waits) (awaiting-Released i _ a (set_self i (awaiting a) s.phase) refl)

locked-Released :
    (i : ℕ) (s : System) (a : Job) → s.phase i ≡ locked a → IsResting s.shared → Released i s
locked-Released i s a stands (inl (waits, live, _)) =
    advance i s stands (proceed live)
      (sending-Released i _ a (set_self i (sending a) s.phase) waits)
locked-Released i s a stands (inr (_, shut, _)) = leave i s stands (refuse shut) refl

waiting-Released :
    (i : ℕ) (s : System) (a : Job)
    → s.phase i ≡ waiting a
    → s.shared.mutex ≡ none
    → IsResting s.shared
    → Released i s
waiting-Released i s a stands free rests =
    advance i s stands (acquire free) (locked-Released i _ a (set_self i (locked a) s.phase) rests)

-- Who holds the mutex can return.
holder-Released :
    (i : ℕ) (s : System) (p : Phase)
    → s.phase i ≡ p
    → s.shared.mutex ≡ some i
    → Fits i s.shared p
    → Released i s
holder-Released i s outside stands holds fits = absurd (fits holds)
holder-Released i s (waiting a) stands holds fits = absurd (fits holds)
holder-Released i s (locked a) stands holds (_, rests) = locked-Released i s a stands rests
holder-Released i s (sending a) stands holds (_, (waits, _, _)) =
    sending-Released i s a stands waits
holder-Released i s (awaiting a) stands holds (_, runs, _, _) = awaiting-Released i s a stands runs
holder-Released i s (answered a) stands holds fits = answered-Released i s a stands

-- The caller has returned, and each other one stands where it stood or has returned too.
pub record Returns (i : ℕ) (s : System) : Type 0 where
  pub last : System
  pub run : Run s last
  pub returned : last.phase i ≡ outside
  pub others : (j : ℕ) → (last.phase j ≡ s.phase j) ⊎ (last.phase j ≡ outside)

Released-Returns : (i : ℕ) (s : System) → Released i s → Returns i s
Released-Returns i s r = record {
  last = r.last;
  run = r.run;
  returned = r.returned;
  others = λ j. elim (==_cases j i) [
    | inl same ↦ inr (ap r.last.phase same ∙ r.returned)
    | inr differs ↦ inl (r.others j differs)
  ];
}

none_not_some : {i : ℕ} → none ≡ some i → ⊥
none_not_some h = cc

-- With the mutex free.
free-Returns :
    (i : ℕ) (s : System) (p : Phase)
    → s.phase i ≡ p
    → s.shared.mutex ≡ none
    → Inv s
    → Fits i s.shared p
    → Returns i s
free-Returns i s outside stands free inv fits = record {
  last = s;
  run = done;
  returned = stands;
  others = λ j. inl refl;
}
free-Returns i s (waiting a) stands free inv fits =
    Released-Returns i s (waiting-Released i s a stands free (inv.rests free))
free-Returns i s (locked a) stands free inv fits = absurd (none_not_some (sym free ∙ fits.0))
free-Returns i s (sending a) stands free inv fits = absurd (none_not_some (sym free ∙ fits.0))
free-Returns i s (awaiting a) stands free inv fits = absurd (none_not_some (sym free ∙ fits.0))
free-Returns i s (answered calls) stands free inv fits = absurd (none_not_some (sym free ∙ fits.0))
free-Returns i s (answered closes) stands free inv fits = absurd (none_not_some (sym free ∙ fits.0))

-- After a run in which another caller returns.
after-Returns : (i k : ℕ) (s : System) (r : Released k s) → Returns i r.last → Returns i s
after-Returns i k s r rest = record {
  last = rest.last;
  run = join r.run rest.run;
  returned = rest.returned;
  others = λ j. elim (rest.others j) [
    | inl same ↦ elim (==_cases j k) [
      | inl it ↦ inr (same ∙ ap r.last.phase it ∙ r.returned)
      | inr differs ↦ inl (same ∙ r.others j differs)
    ]
    | inr gone ↦ inr gone
  ];
}

-- In every state that the goroutines of a database reach, each caller of an operation or of Close can
-- return: a run leads to a state in which it has, and in which each other caller stands where it stood
-- or has returned too.
pub reach-Returns : {s : System} (i : ℕ) → Reach s → Returns i s
reach-Returns {s} i r = elim (Option-cases s.shared.mutex) [
  | inl free ↦ free-Returns i s (s.phase i) refl free inv (inv.fits i)
  | inr (k, held) ↦
      let out = holder-Released k s (s.phase k) refl held (inv.fits k) in
      let later = Run-Inv inv out.run in
      after-Returns i k s out
        (free-Returns i out.last (out.last.phase i) refl out.free later (later.fits i))
]
  where
    inv : Inv s
    inv = Reach-Inv r
