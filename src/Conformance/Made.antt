-- ===== src/Conformance/Made.antt =====
-- The clients that a run of the command makes.
use koutendb_go.Common.{
  Bool, true, false, ◌==◌, ◌≡◌, arith, refl, ◌∙◌, ap, List, [], ◌∷◌, ◌+◌, ℕ, Option, none, some,
  Bytes, codes, str_eq, if◌then◌else◌, Bool-cases, inl, inr, length,
}
use koutendb_go.Result.{Result, ok, err}
use koutendb_go.Floats.{Floats}
use koutendb_go.Json.{Json}
use koutendb_go.Wire.{Crypto}
use koutendb_go.Environment.{Env}
use koutendb_go.Client.{Client}
use koutendb_go.Conformance.{Request, Answer, Platform}
use koutendb_go.Conformance.Session.{
  Heap, load, store, Session, close_at, close_current, released, connect, connected, on_loaded,
  on_client, run, run_parsed, response, Run, written, serve,
}

length-store : (p : ℕ) (c : Client) (h : Heap) → length (store p c h) ≡ length h
length-store p c [] = refl
length-store p c ((q, d) ∷ h) = elim (Bool-cases (p == q)) [
  | inl here ↦ rw (here, length-store p c h) refl
  | inr there ↦ rw (there, length-store p c h) refl
]

abbrev pub counted : {A : Type 0} → Bool → Result A → ℕ
counted b (err e) = 0
counted true (ok a) = 1
counted false (ok a) = 0

none_counted : {A : Type 0} (r : Result A) → counted false r ≡ 0
none_counted (ok a) = refl
none_counted (err e) = refl

module _ {F : Floats} {J : Json} (P : Platform F J) (E : ℕ → Env) (C : Crypto) where
  -- Whether a request that ended so has made a client.
  abbrev pub opened : Option (Request F J.Value) → Result (Answer J.Target) → ℕ
  opened none r = 0
  opened (some q) r = counted (str_eq q.op (codes "connect")) r

  -- The number of requests to connect that succeed, when the lines are run one after the other.
  abbrev pub made : List Bytes → Session → ℕ
  made [] s = 0
  made (l ∷ ls) s =
      let turn = run_parsed P E C (P.read_request l) s in
      opened (P.read_request l) turn.0 + made ls turn.1

  pub length-close_current :
      (o : Option ℕ) (s : Session) → length (close_current P E C o s).heap ≡ length s.heap
  length-close_current none s = refl
  length-close_current (some p) s = go (load p s.heap)
    where
      go : (o : Option Client) → length (close_at P E C p o s).heap ≡ length s.heap
      go none = refl
      go (some c) = length-store p _ s.heap

  on_client-heap :
      (r : Request F J.Value) (o : Option ℕ) (s : Session)
      → length (on_client P E C r o s).1.heap ≡ length s.heap
  on_client-heap r none s = refl
  on_client-heap r (some p) s = go (load p s.heap)
    where
      go : (o : Option Client) → length (on_loaded P E C r p o s).1.heap ≡ length s.heap
      go none = refl
      go (some c) = length-store p _ s.heap

  connected-heap :
      (s : Session) (d : Result Client)
      → length (connected P E C s d).1.heap ≡ counted true (connected P E C s d).0 + length s.heap
  connected-heap s (ok c) = omega arith
  connected-heap s (err e) = omega arith

  run-heap :
      (r : Request F J.Value) (s : Session)
      → length (run P E C r s).1.heap ≡ opened (some r) (run P E C r s).0 + length s.heap
  unfolding run
  run-heap r s =
      go (str_eq r.op (codes "connect")) _ _
        (connected-heap (record t { connects = t.connects + 1 }) _
          ∙ ap (λ n. counted true (connect P E C r s).0 + n) (length-close_current s.client s))
        (on_client-heap r s.client s)
    where
      t : Session
      t = released P E C s

      go :
          (b : Bool) (x y : Result (Answer J.Target) × Session)
          → length x.1.heap ≡ counted true x.0 + length s.heap
          → length y.1.heap ≡ length s.heap
          → length (if b then x else y).1.heap ≡ counted b (if b then x else y).0 + length s.heap
      go true x y hx hy = hx
      go false x y hx hy = let zero_count = none_counted y.0 in omega (arith, hy, zero_count)

  run_parsed-heap :
      (o : Option (Request F J.Value)) (s : Session)
      → length (run_parsed P E C o s).1.heap ≡ opened o (run_parsed P E C o s).0 + length s.heap
  run_parsed-heap none s = omega arith
  run_parsed-heap (some r) s = run-heap r s

  -- A run that reaches its end has every client that it has made in the heap.
  pub serve-heap :
      (ls : List Bytes) (s : Session)
      → (serve P E C ls s).0.1 ≡ true
      → length (serve P E C ls s).1.heap ≡ made ls s + length s.heap
  unfolding serve
  serve-heap [] s = λ finished. omega arith
  serve-heap (l ∷ ls) s = go (P.encodes (response P E C turn.0)) (serve-heap ls turn.1)
    where
      turn : Result (Answer J.Target) × Session
      turn = run_parsed P E C (P.read_request l) s

      here : length turn.1.heap ≡ opened (P.read_request l) turn.0 + length s.heap
      here = run_parsed-heap (P.read_request l) s

      rest : Run P E C
      rest = serve P E C ls turn.1

      go :
          (b : Bool)
          → (rest.0.1 ≡ true → length rest.1.heap ≡ made ls turn.1 + length turn.1.heap)
          → (written P E C (response P E C turn.0) turn.1 b rest).0.1 ≡ true
          → length (written P E C (response P E C turn.0) turn.1 b rest).1.heap
            ≡ made (l ∷ ls) s + length s.heap
      go true again finished = let h = again finished in omega (arith, here, h)
      go false again finished = cc
