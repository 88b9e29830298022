-- ===== src/Conformance/Laws.antt =====
-- The clients that the command leaves.
use koutendb_go.Common.{
  Bool, true, false, ◌&&◌, ◌==◌, ◌≡◌, ◌⊎◌, arith, refl, sym, ◌∙◌, List, [], ◌∷◌, ◌+◌, ℕ, Option,
  none, some, Bytes, codes, str_eq, if◌then◌else◌, All, Bool-cases, inl, inr, length,
}
use mathlib.Core.Path.{subst}
use koutendb_go.Result.{Result, ok, err}
use koutendb_go.Floats.{Floats}
use koutendb_go.Json.{Json}
use koutendb_go.Wire.{Crypto}
use koutendb_go.Environment.{Env}
use koutendb_go.Client.{Client, close}
use koutendb_go.Client.Ready.{dial_ready}
use koutendb_go.Conformance.{background, Request, Answer, Response, Platform, settings}
use koutendb_go.Conformance.Session.{
  Heap, load, store, Session, start, close_at, close_current, released, connected, on_loaded,
  on_client, dispatch, run, run_parsed, response, Run, written, ended, serve, main,
}
use koutendb_go.Conformance.Made.{made, serve-heap, length-close_current}
use koutendb_go.Conformance.Gate.{IsShut, close-IsShut, dispatch-gate}

-- Each client that is not the current one is shut, and the current one has its token.
abbrev pub Entry : Option ℕ → ℕ × Client → Type 0
Entry current (p, c) = IsShut c ⊎ ((current ≡ some p) × (c.gate ≡ true))

abbrev pub ShutAt : ℕ × Client → Type 0
ShutAt (p, c) = IsShut c

pub record IsOrderly (s : Session) : Type 0 where
  pub entries : All (Entry s.client) s.heap

-- Without a current client all are shut.
entries-nil : (h : Heap) → All (Entry none) h → All ShutAt h
entries-nil [] tt = tt
entries-nil ((p, c) ∷ h) (inl shut, rest) = (shut, entries-nil h rest)
entries-nil ((p, c) ∷ h) (inr (e, free), rest) = cc

-- The entries stand whatever pointer is current, once all are shut.
shut-Entry : (current : Option ℕ) (h : Heap) → All ShutAt h → All (Entry current) h
shut-Entry current [] tt = tt
shut-Entry current ((p, c) ∷ h) (shut, rest) = (inl shut, shut-Entry current h rest)

not_current : (p q : ℕ) → (p == q) ≡ false → some p ≡ some q → ⊥
not_current p q e h = let same : p ≡ q = cc in ground arith

Entry-IsShut : (p q : ℕ) (d : Client) → (p == q) ≡ false → Entry (some p) (q, d) → IsShut d
Entry-IsShut p q d there (inl shut) = shut
Entry-IsShut p q d there (inr (e, _)) = absurd (not_current p q there e)

load_gate :
    (p : ℕ) (current : Option ℕ) (h : Heap) (c : Client)
    → All (Entry current) h
    → load p h ≡ some c
    → c.gate ≡ true
load_gate p current [] c tt e = cc
load_gate p current ((q, d) ∷ h) c (entry, rest) e = elim (Bool-cases (p == q)) [
  | inl here ↦ let same : d ≡ c = cc (rw here at e) in subst (λ k. k.gate ≡ true) same (token entry)
  | inr there ↦ load_gate p current h c rest (rw there at e)
]
  where
    token : IsShut d ⊎ ((current ≡ some q) × (d.gate ≡ true)) → d.gate ≡ true
    token (inl shut) = shut.2
    token (inr (_, free)) = free

store-Entry :
    (p : ℕ) (h : Heap) (c : Client)
    → c.gate ≡ true
    → All (Entry (some p)) h
    → All (Entry (some p)) (store p c h)
store-Entry p [] c free tt = tt
store-Entry p ((q, d) ∷ h) c free (entry, rest) = elim (Bool-cases (p == q)) [
  | inl here ↦ rw here (inr (refl, free), store-Entry p h c free rest)
  | inr there ↦ rw there (entry, store-Entry p h c free rest)
]

store-ShutAt :
    (p : ℕ) (h : Heap) (c : Client) → IsShut c → All (Entry (some p)) h → All ShutAt (store p c h)
store-ShutAt p [] c shut tt = tt
store-ShutAt p ((q, d) ∷ h) c shut (entry, rest) = elim (Bool-cases (p == q)) [
  | inl here ↦ rw here (shut, store-ShutAt p h c shut rest)
  | inr there ↦ rw there (Entry-IsShut p q d there entry, store-ShutAt p h c shut rest)
]

absent-ShutAt : (p : ℕ) (h : Heap) → load p h ≡ none → All (Entry (some p)) h → All ShutAt h
absent-ShutAt p [] e tt = tt
absent-ShutAt p ((q, d) ∷ h) e (entry, rest) = elim (Bool-cases (p == q)) [
  | inl here ↦ cc (rw here at e)
  | inr there ↦ (Entry-IsShut p q d there entry, absent-ShutAt p h (rw there at e) rest)
]

module _ {F : Floats} {J : Json} (P : Platform F J) (E : ℕ → Env) (C : Crypto) where
  -- Once the current client has been closed, all are shut.
  close_current-ShutAt :
      (current : Option ℕ) (s : Session)
      → All (Entry current) s.heap
      → All ShutAt (close_current P E C current s).heap
  close_current-ShutAt none s entries = entries-nil s.heap entries
  close_current-ShutAt (some p) s entries = go (load p s.heap) refl
    where
      go : (o : Option Client) → load p s.heap ≡ o → All ShutAt (close_at P E C p o s).heap
      go none e = absent-ShutAt p s.heap e entries
      go (some c) e = store-ShutAt p s.heap (close c) (close-IsShut P E C c) entries

  connected-IsOrderly :
      (s : Session) (d : Result Client)
      → ((c : Client) → d ≡ ok c → c.gate ≡ true)
      → All ShutAt s.heap
      → IsOrderly (connected P E C s d).1
  connected-IsOrderly s (ok c) ready shut = record {
    entries = (inr (refl, ready c refl), shut-Entry (some s.connects) s.heap shut);
  }
  connected-IsOrderly s (err e) ready shut = record { entries = shut-Entry none s.heap shut }

  on_client-IsOrderly :
      (r : Request F J.Value) (current : Option ℕ) (s : Session)
      → s.client ≡ current
      → IsOrderly s
      → IsOrderly (on_client P E C r current s).1
  on_client-IsOrderly r none s h orderly = orderly
  on_client-IsOrderly r (some p) s h orderly = go (load p s.heap) refl
    where
      entries : All (Entry (some p)) s.heap
      entries = subst (λ o. All (Entry o) s.heap) h orderly.entries

      go : (o : Option Client) → load p s.heap ≡ o → IsOrderly (on_loaded P E C r p o s).1
      go none e = orderly
      go (some c) e = record {
        entries =
            subst (λ o. All (Entry o) (store p (dispatch P E C s.connects r c).1 s.heap)) (sym h)
              (store-Entry p s.heap (dispatch P E C s.connects r c).1
                (dispatch-gate P E C s.connects r c (load_gate p (some p) s.heap c entries e))
                entries);
      }

  run-IsOrderly : (r : Request F J.Value) (s : Session) → IsOrderly s → IsOrderly (run P E C r s).1
  unfolding run
  run-IsOrderly r s orderly =
      go _ _ (str_eq r.op (codes "connect")) (on_client-IsOrderly r s.client s refl orderly) (
        connected-IsOrderly (record t { connects = t.connects + 1 }) _
          (λ c h.
            (dial_ready (E (t.connects + 1)) C P.trusted (some background) r.peers (settings P r) c
              h).0)
          (close_current-ShutAt s.client s orderly.entries))
    where
      t : Session
      t = released P E C s

      go :
          {A : Type 0} (x y : A × Session) (b : Bool)
          → IsOrderly y.1
          → IsOrderly x.1
          → IsOrderly (if b then x else y).1
      go x y true hy hx = hx
      go x y false hy hx = hy

  run_parsed-IsOrderly :
      (o : Option (Request F J.Value)) (s : Session)
      → IsOrderly s
      → IsOrderly (run_parsed P E C o s).1
  run_parsed-IsOrderly none s orderly = orderly
  run_parsed-IsOrderly (some r) s orderly = run-IsOrderly r s orderly

  serve-IsOrderly : (ls : List Bytes) (s : Session) → IsOrderly s → IsOrderly (serve P E C ls s).1
  unfolding serve
  serve-IsOrderly [] s orderly = orderly
  serve-IsOrderly (l ∷ ls) s orderly =
      let turn = run_parsed P E C (P.read_request l) s in
      let again = run_parsed-IsOrderly (P.read_request l) s orderly in
      elim (Bool-cases (P.encodes (response P E C turn.0))) [
        | inl good ↦ rw good (serve-IsOrderly ls turn.1 again)
        | inr bad ↦ rw bad again
      ]

  serve-length :
      (ls : List Bytes) (s : Session)
      → (serve P E C ls s).0.1 ≡ true
      → length (serve P E C ls s).0.0 ≡ length ls
  unfolding serve
  serve-length [] s = λ finished. refl
  serve-length (l ∷ ls) s = go (P.encodes (response P E C turn.0)) (serve-length ls turn.1)
    where
      turn : Result (Answer J.Target) × Session
      turn = run_parsed P E C (P.read_request l) s

      rest : Run P E C
      rest = serve P E C ls turn.1

      go :
          (b : Bool)
          → (rest.0.1 ≡ true → length rest.0.0 ≡ length ls)
          → (written P E C (response P E C turn.0) turn.1 b rest).0.1 ≡ true
          → length (written P E C (response P E C turn.0) turn.1 b rest).0.0 ≡ length (l ∷ ls)
      go true again finished = rw (again finished) refl
      go false again finished = cc

  -- When a run of the conformance command ends without exit status 1, it has written one response for
  -- each line, the clients that it leaves in the heap are as many as its requests to connect that
  -- succeeded, and each of them is closed, without connections and with its token.
  pub main_settled :
      (ls : List Bytes) (scanned : Bool)
      → (main P E C ls scanned).0.1 ≡ true
      → (length (main P E C ls scanned).0.0 ≡ length ls)
        × (length (main P E C ls scanned).1.heap ≡ made P E C ls start)
        × All ShutAt (main P E C ls scanned).1.heap
  unfolding main
  main_settled ls scanned = go finished scanned (serve-length ls start) (serve-heap P E C ls start)
    where
      done : Session
      done = (serve P E C ls start).1

      finished : Bool
      finished = (serve P E C ls start).0.1

      orderly : IsOrderly done
      orderly = serve-IsOrderly ls start (record { entries = tt })

      rs : List (Response J.Target)
      rs = (serve P E C ls start).0.0

      go :
          (f g : Bool)
          → (f ≡ true → length rs ≡ length ls)
          → (f ≡ true → length done.heap ≡ made P E C ls start + 0)
          → (ended P E C (f && g) rs done).0.1 ≡ true
          → (length (ended P E C (f && g) rs done).0.0 ≡ length ls)
            × (length (ended P E C (f && g) rs done).1.heap ≡ made P E C ls start)
            × All ShutAt (ended P E C (f && g) rs done).1.heap
      go true true same all h = (
        same refl,
        length-close_current P E C done.client done ∙ (all refl ∙ omega arith),
        close_current-ShutAt done.client done orderly.entries,
      )
      go true false same all h = cc
      go false g same all h = cc
