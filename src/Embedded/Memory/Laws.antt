-- ===== src/Embedded/Memory/Laws.antt =====
-- Code over C memory against the same code without it.
use koutendb_go.Common.{
  ℕ, ◌<◌, ◌≤◌, ◌≡◌, refl, ap, ◌∙◌, ltb, leb, true, [], ◌∷◌, Option, none, some, Bytes, length, take,
  if◌then◌else◌, All, arith,
}
use koutendb_go.Result.{Result, ok, err, M, ◌>>=◌, continue}
use koutendb_go.Embedded.Memory.{
  max_bytes, abi_error, Heap, find, remove, until_nul, World, allocate, text_of, on_handle,
}

abbrev pub IsBelow : ℕ → Heap → Type 0
IsBelow n = All (λ (e : ℕ × Bytes). e.0 < n)

pub IsBelow-mono : (m n : ℕ) (h : Heap) → m ≤ n → IsBelow m h → IsBelow n h
IsBelow-mono m n [] le b = tt
IsBelow-mono m n (e ∷ h) le (lt, b) = (omega arith, IsBelow-mono m n h le b)

find_below : (n p : ℕ) (h : Heap) (b : Bytes) → IsBelow n h → find p h ≡ some b → p < n
unfolding find
find_below n p [] b below e = cc
find_below n p ((q, c) ∷ h) b (lt, below) e = ground (arith, find_below n p h b below)

pub find_newest : (p : ℕ) (b : Bytes) (h : Heap) → find p ((p, b) ∷ h) ≡ some b
unfolding find
find_newest p b h = ground arith

find_older : (p q : ℕ) (b : Bytes) (h : Heap) → p < q → find p ((q, b) ∷ h) ≡ find p h
unfolding find
find_older p q b h lt = ground arith

pub remove_newest : (p : ℕ) (b : Bytes) (h : Heap) → remove p ((p, b) ∷ h) ≡ h
unfolding remove
remove_newest p b h = ground arith

pub leb_refl : (n : ℕ) → leb n n ≡ true
leb_refl n = ground arith

pub take-length : (b : Bytes) → take (length b) b ≡ b
take-length [] = refl
take-length (c ∷ b) = rw (take-length b)

-- The library has been started, the handle is open with this store, nothing undefined has happened, and
-- every pointer is below the next one.
pub record Sees {Store : Type 0} (w : World Store) (s : Store) : Type 0 where
  pub running : w.started ≡ true
  pub opened : w.handle ≡ some s
  pub defined : w.sound ≡ true
  pub strings_below : IsBelow w.next w.strings
  pub buffers_below : IsBelow w.next w.buffers

-- A run from `w` has the result and the store of another one, and has returned its memory.
pub record Runs {Store A : Type 0} (w : World Store) (f : Result A × Store)
    (r : Result A × World Store) : Type 0 where
  pub result : r.0 ≡ f.0
  pub sees : Sees r.1 f.1
  pub same_strings : r.1.strings ≡ w.strings
  pub same_buffers : r.1.buffers ≡ w.buffers
  pub grows : w.next ≤ r.1.next

-- The pointers of `ps` are live, with these bytes.
abbrev pub Live : {Store : Type 0} → Heap → World Store → Type 0
Live ps w = All (λ (e : ℕ × Bytes). find e.0 w.strings ≡ some e.1) ps

-- Where these pointers are live, code over C memory does what the code on the store does.
abbrev pub RefinesAt : {Store A : Type 0} → Heap → M (World Store) A → M Store A → Type 0
RefinesAt {Store} ps m f = (w : World Store) (s : Store) → Live ps w → Sees w s → Runs w (f s) (m w)

abbrev pub Refines : {Store A : Type 0} → M (World Store) A → M Store A → Type 0
Refines m f = RefinesAt [] m f

pub Live-older :
    {Store : Type 0} (ps : Heap) (b : Bytes) (w : World Store)
    → IsBelow w.next w.strings
    → Live ps w
    → Live ps (allocate b w)
Live-older [] b w below live = tt
Live-older ((p, t) ∷ ps) b w below (e, live) = (
  find_older p w.next (until_nul b) w.strings (find_below w.next p w.strings t below e) ∙ e,
  Live-older ps b w below live,
)

-- A buffer of the library, copied and given back.
abbrev pub copy : Option Bytes → Result Bytes
copy none = err abi_error
copy (some b) = if ltb max_bytes (length b) then err abi_error else ok b

module _ {Store : Type 0} where
  pub Refines-result :
      {A : Type 0} (ps : Heap) (r : Result A)
      → RefinesAt {Store = Store} ps (λ w. (r, w)) (λ s. (r, s))
  Refines-result ps r w s live see = record {
    result = refl;
    sees = see;
    same_strings = refl;
    same_buffers = refl;
    grows = omega arith;
  }

  Runs-trans :
      {A B : Type 0} (w : World Store) (f : Result A × Store) (r : Result A × World Store)
      (g : Result B × Store) (q : Result B × World Store)
      → Runs w f r
      → Runs r.1 g q
      → Runs w g q
  Runs-trans w f r g q a b = record {
    result = b.result;
    sees = b.sees;
    same_strings = b.same_strings ∙ a.same_strings;
    same_buffers = b.same_buffers ∙ a.same_buffers;
    grows = omega (arith, a.grows, b.grows);
  }

  Live-same : (ps : Heap) (w u : World Store) → u.strings ≡ w.strings → Live ps w → Live ps u
  Live-same [] w u same live = tt
  Live-same ((p, t) ∷ ps) w u same (e, live) = (ap (find p) same ∙ e, Live-same ps w u same live)

  continue-Runs :
      {A B : Type 0} (ps : Heap) (w : World Store) (f : Result A × Store)
      (r : Result A × World Store) (m : A → M (World Store) B) (g : A → M Store B)
      → Live ps w
      → Runs w f r
      → ((a : A) → RefinesAt ps (m a) (g a))
      → Runs w (continue g f) (continue m r)
  continue-Runs ps w (ok a, s) (ok b, u) m g live a_run k =
      let same : b ≡ a = cc (a_run.result) in
      Runs-trans w (ok a, s) (ok b, u) (g a s) (m b u) a_run
        (rw same (k a u s (Live-same ps w u a_run.same_strings live) a_run.sees))
  continue-Runs ps w (err e, s) (err d, u) m g live a_run k = record {
    result = cc (a_run.result);
    sees = a_run.sees;
    same_strings = a_run.same_strings;
    same_buffers = a_run.same_buffers;
    grows = a_run.grows;
  }
  continue-Runs ps w (ok a, s) (err e, u) m g live a_run k = cc (a_run.result)
  continue-Runs ps w (err e, s) (ok b, u) m g live a_run k = cc (a_run.result)

  pub Refines-bind :
      {A B : Type 0} (ps : Heap) (m : M (World Store) A) (n : M Store A) (f : A → M (World Store) B)
      (g : A → M Store B)
      → RefinesAt ps m n
      → ((a : A) → RefinesAt ps (f a) (g a))
      → RefinesAt ps (m >>= f) (n >>= g)
  Refines-bind ps m n f g first later w s live see =
      continue-Runs ps w (n s) (m w) f g live (first w s live see) later

  pub Refines-on_handle :
      {A : Type 0} (ps : Heap) (f : Store → A × Store)
      → RefinesAt ps (on_handle f) (λ s. let (a, s') = f s in (ok a, s'))
  unfolding on_handle
  Refines-on_handle ps f w s live see =
      rw (see.running, see.opened)
        (record {
          result = refl;
          sees = record {
            running = refl;
            opened = refl;
            defined = see.defined;
            strings_below = see.strings_below;
            buffers_below = see.buffers_below;
          };
          same_strings = refl;
          same_buffers = refl;
          grows = omega arith;
        })

  pub Refines-text_of :
      {A : Type 0} (ps : Heap) (p : ℕ) (t : Bytes) (k : Bytes → M (World Store) A) (f : M Store A)
      → ((w : World Store) → Live ps w → find p w.strings ≡ some t)
      → RefinesAt ps (k t) f
      → RefinesAt ps (text_of p k) f
  unfolding text_of
  Refines-text_of ps p t k f there rest w s live see = rw (there w live) (rest w s live see)
