-- ===== src/Tests/Shelf.antt =====
-- Stand-ins for the C library, which keep the records in a list, and for encoding/json.
use koutendb_go.Common.{
  ℕ, ◌+◌, ◌==◌, ◌<◌, ◌≡◌, ◌≢◌, refl, sym, ap, ◌∙◌, inl, inr, Bool, true, false, ◌&&◌, List, [], ◌∷◌,
  Option, none, some, Bytes, arith, Bool-cases, if◌then◌else◌,
}
use mathlib.Core.Path.{subst}
use koutendb_go.Common.Int.{ℤ, pos}
use koutendb_go.Json.{Json, decoded}
use koutendb_go.Embedded.Abi.{Abi, CId}
use koutendb_go.Embedded.Library.{Stored, LawfulAbi, presence}
use koutendb_go.Tests.Doubles.{floats}

abbrev pub Id' : Type 0
Id' = CId floats

abbrev pub Shelf : Type 0
Shelf = List (Id' × Stored)

unfoldable pub same : Id' → Id' → Bool
same a b =
    (a.parent == b.parent && a.epoch == b.epoch) && (a.seq == b.seq && a.t_write == b.t_write)

same_refl : (a : Id') → same a a ≡ true
unfolding same
same_refl a = ground arith

abbrev pub at : ℕ → ℕ → ℕ → ℕ → Id'
at p e n t = record { parent = p; epoch = e; seq = n; t_write = t }

at_eq : {p e n t p' e' n' t' : ℕ} → p ≡ p' → e ≡ e' → n ≡ n' → t ≡ t' → at p e n t ≡ at p' e' n' t'
at_eq hp he hn ht = rw (hp, he, hn, ht) refl

same_sound : (a b : Id') → same a b ≡ true → a ≡ b
unfolding same
same_sound a b h = at_eq (ground arith) (ground arith) (ground arith) (ground arith)

unfoldable pub held : Id' → Shelf → Option Stored
held id [] = none
held id ((i, x) ∷ s) = if same id i then some x else held id s

unfoldable pub without : Id' → Shelf → Shelf
without id [] = []
without id ((i, x) ∷ s) = let rest = without id s in if same id i then rest else (i, x) ∷ rest

unfoldable pub fresh : Shelf → ℕ
fresh [] = 0
fresh ((i, x) ∷ s) = i.seq + 1 + fresh s

held-fresh : (id : Id') (s : Shelf) (x : Stored) → held id s ≡ some x → id.seq < fresh s
unfolding held fresh
held-fresh id [] x h = cc
held-fresh id ((i, y) ∷ s) x h = elim (Bool-cases (same id i)) [
  | inl here ↦ let e : id.seq ≡ i.seq = ap (λ j. j.seq) (same_sound id i here) in omega arith
  | inr there ↦
      let lt =
        held-fresh id s x (sym (ap (λ (b : Bool). if b then some y else held id s) there) ∙ h) in
      omega arith
]

held-none : (id : Id') (s : Shelf) → id.seq ≡ fresh s → held id s ≡ none
held-none id s h = go (held id s) refl
  where
    go : (o : Option Stored) → held id s ≡ o → held id s ≡ none
    go none e = e
    go (some x) e = let lt = held-fresh id s x e in absurd (omega arith)

held_self : (id : Id') (x : Stored) (s : Shelf) → held id ((id, x) ∷ s) ≡ some x
unfolding held
held_self id x s = rw (same_refl id) refl

differs_false : (a b : Id') → a ≢ b → same a b ≡ false
differs_false a b differs = elim (Bool-cases (same a b)) [
  | inl e ↦ absurd (differs (same_sound a b e))
  | inr e ↦ e
]

held_other :
    (id other : Id') (x : Stored) (s : Shelf) → other ≢ id → held other ((id, x) ∷ s) ≡ held other s
unfolding held
held_other id other x s differs = rw (differs_false other id differs) refl

held-without : (id : Id') (s : Shelf) → held id (without id s) ≡ none
unfolding held without
held-without id [] = refl
held-without id ((i, x) ∷ s) = elim (Bool-cases (same id i)) [
  | inl here ↦ rw here (held-without id s)
  | inr there ↦ rw (there, there) (held-without id s)
]

held-without_other :
    (id other : Id') (s : Shelf) → other ≢ id → held other (without id s) ≡ held other s
unfolding held without
held-without_other id other [] differs = refl
held-without_other id other ((i, x) ∷ s) differs = elim (Bool-cases (same id i)) [
  | inl here ↦
      rw (here, differs_false other i (λ e. differs (e ∙ sym (same_sound id i here))))
        (held-without_other id other s differs)
  | inr there ↦ rw (there, held-without_other id other s differs) refl
]

taken : {a b : Id'} → some a ≡ some b → a ≡ b
taken h = cc

abbrev pub content : Option Stored → Option Bytes
content none = none
content (some x) = some x.0

abbrev pub number : Option Stored → ℤ
number none = pos 0
number (some x) = x.1

abbrev pub shelf : Abi floats
shelf = record {
  Store = Shelf;
  abi_version = pos 2;
  open_memory = λ nodes. some [];
  open_dir_options = λ nodes directory strong disk. some [];
  put_vec_codec =
      λ ring b c vector s. (some (at 1 2 (fresh s) 3), (at 1 2 (fresh s) 3, (b, c)) ∷ s);
  exists = λ id s. (presence (held id s), s);
  get_codec = λ id s. ((content (held id s), number (held id s)), s);
  query = λ id selection s. (content (held id s), s);
  update_codec = λ id b c s. (true, (id, (b, c)) ∷ s);
  remove = λ id s. (true, without id s);
  read_ring_json = λ r s. (some (b'{' ∷ b'}' ∷ []), s);
}

pub shelf-IsLawful : LawfulAbi shelf
shelf-IsLawful = record {
  lookup = held;
  exists_answer = λ id s. refl;
  exists_keeps = λ id other s. refl;
  get_answer = λ id s x h. rw h refl;
  put_finite = λ ring b c vector s id h. refl;
  put_new = λ ring b c vector s id h. held-none id s (ap (λ j. j.seq) (sym (taken h)));
  put_stored = λ ring b c vector s id h.
      subst (λ j. held j ((at 1 2 (fresh s) 3, (b, c)) ∷ s) ≡ some (b, c)) (taken h)
        (held_self (at 1 2 (fresh s) 3) (b, c) s);
  put_others = λ ring b c vector s id other h differs.
      held_other (at 1 2 (fresh s) 3) other (b, c) s (λ e. differs (e ∙ taken h));
  update_stored = λ id b c s h. held_self id (b, c) s;
  update_others = λ id other b c s differs. held_other id other (b, c) s differs;
  remove_removed = λ id s h. held-without id s;
  remove_others = λ id other s differs. held-without_other id other s differs;
}

-- A value is the text that it is written as, and a target the text that has been read.
abbrev pub texts : Json
texts = record {
  Value = Bytes;
  Target = Bytes;
  marshal = λ v. some v;
  unmarshal = λ s dst. (decoded, s);
  is_object = λ s. true;
  is_valid = λ s. true;
}
