-- ===== src/Embedded/Memory.antt =====
-- embedded/db.go: the memory that crosses the C boundary. Strings of `C.CString` and buffers of the
-- library are named by pointers, and a use of a pointer that is not live is recorded, as is a call on a
-- handle that is not open.
pub mod Laws
pub mod Allocation
use koutendb_go.Common.{
  ℕ, suc, ◌+◌, ◌*◌, ◌==◌, ltb, leb, Bool, true, false, List, [], ◌∷◌, Option, none, some, Bytes,
  length, take, if◌then◌else◌,
}
use koutendb_go.Errors.{Failure, other}
use koutendb_go.Result.{Result, ok, err, M, ◌>>=◌, continue, fail}

-- `maxBytes`
abbrev pub max_bytes : ℕ
max_bytes = 64 * 1024 * 1024

-- `ErrABI`, `ErrNotFound`
abbrev pub abi_error : Failure
abi_error = other "koutendb: C ABI operation failed"

abbrev pub not_found : Failure
not_found = other "koutendb: record not found"

-- No Go value: what a call returns that C leaves undefined.
abbrev pub undefined : Failure
undefined = other "undefined behaviour"

abbrev pub Heap : Type 0
Heap = List (ℕ × Bytes)

unfoldable pub find : ℕ → Heap → Option Bytes
find p [] = none
find p ((q, b) ∷ h) = if p == q then some b else find p h

unfoldable pub remove : ℕ → Heap → Heap
remove p [] = []
remove p ((q, b) ∷ h) = if p == q then h else (q, b) ∷ remove p h

-- What a C function reads at a string: the bytes up to the first zero.
unfoldable pub until_nul : Bytes → Bytes
until_nul [] = []
until_nul (b ∷ s) = if b == 0 then [] else b ∷ until_nul s

-- `started` says whether `kouten_init` has been called, and `handle` is what the library holds for the
-- open handle. `sound` is cleared by a call that C leaves undefined.
pub record World (Store : Type 0) : Type 0 where
  pub started : Bool
  pub handle : Option Store
  pub strings : Heap
  pub buffers : Heap
  pub next : ℕ
  pub sound : Bool

module _ {Store : Type 0} where
  abbrev pub unsound : {A : Type 0} → M (World Store) A
  unsound w = (err undefined, record w { sound = false })

  -- `C.CString`
  abbrev pub allocate : Bytes → World Store → World Store
  allocate s w = record w { strings = (w.next, until_nul s) ∷ w.strings; next = w.next + 1 }

  -- `C.free`
  abbrev pub freed : ℕ → Option Bytes → World Store → World Store
  freed p none w = record w { sound = false }
  freed p (some b) w = record w { strings = remove p w.strings }

  abbrev pub freed_after : {A : Type 0} → ℕ → Result A × World Store → Result A × World Store
  freed_after p (r, w) = (r, freed p (find p w.strings) w)

  -- `p := C.CString(s); defer C.free(p)` around the rest.
  unfoldable pub with_string : {A : Type 0} → Bytes → (ℕ → M (World Store) A) → M (World Store) A
  with_string s body w = freed_after w.next (body w.next (allocate s w))

  -- A C function reads the string at a pointer.
  abbrev pub text_at : {A : Type 0} → Option Bytes → (Bytes → M (World Store) A) → M (World Store) A
  text_at none k w = unsound w
  text_at (some t) k w = k t w

  unfoldable pub text_of : {A : Type 0} → ℕ → (Bytes → M (World Store) A) → M (World Store) A
  text_of p k w = text_at (find p w.strings) k w

  -- A call of the library on the handle.
  abbrev pub answered : {A : Type 0} → World Store → A × Store → Result A × World Store
  answered w (a, s) = (ok a, record w { handle = some s })

  abbrev pub handled : {A : Type 0} → (Store → A × Store) → Bool → Option Store → M (World Store) A
  handled f true (some s) w = answered w (f s)
  handled f true none w = unsound w
  handled f false h w = unsound w

  unfoldable pub on_handle : {A : Type 0} → (Store → A × Store) → M (World Store) A
  on_handle f w = handled f w.started w.handle w

  -- A buffer that the library returns, with its length, or a null pointer.
  unfoldable pub buffer_of : Option Bytes → M (World Store) (Option (ℕ × ℕ))
  buffer_of none w = (ok none, w)
  buffer_of (some b) w = (
    ok (some (w.next, length b)),
    record w { buffers = (w.next, b) ∷ w.buffers; next = w.next + 1 },
  )

  -- `C.GoBytes`
  abbrev pub copied : ℕ → Option Bytes → M (World Store) Bytes
  copied n none w = unsound w
  copied n (some b) w = if leb n (length b) then (ok (take n b), w) else unsound w

  abbrev pub go_bytes : ℕ → ℕ → M (World Store) Bytes
  go_bytes p n w = copied n (find p w.buffers) w

  -- `C.kouten_free`
  abbrev pub given_back : ℕ → Option Bytes → World Store → World Store
  given_back p none w = record w { sound = false }
  given_back p (some b) w = record w { buffers = remove p w.buffers }

  abbrev pub given_back_after : {A : Type 0} → ℕ → Result A × World Store → Result A × World Store
  given_back_after p (r, w) = (r, given_back p (find p w.buffers) w)

  -- `buffer`
  unfoldable pub buffer : Option (ℕ × ℕ) → M (World Store) Bytes
  buffer none w = (err abi_error, w)
  buffer (some (p, n)) w =
      given_back_after p (if ltb max_bytes n then (err abi_error, w) else go_bytes p n w)
