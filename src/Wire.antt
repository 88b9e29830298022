-- ===== src/Wire.antt =====
-- wire.go: reading replies. A connection, plain or sealed, and the functions that read from it:
-- `line`, `rawBytes`, `fill`, `bytes`, `header`, and the test `expect` of a reply's fields.
pub mod Line
pub mod Header
pub mod Safety
pub mod Failing
pub mod Sealed
pub mod Stream
pub mod Length
use koutendb_go.Common.{
  ◌≡◌, ℕ, zero, suc, ◌+◌, Bool, true, false, ◌&&◌, ◌||◌, not, List, [], ◌∷◌, ◌++◌, Option, none,
  some, Bytes, codes, str_eq, length, take, drop, replicate, get_or, ltb, leb, ◌==◌, if◌then◌else◌,
}
use koutendb_go.Errors.{Failure, sentinel, io, out_of_fuel, protocol, server, authentication}
use koutendb_go.Result.{Result, ok, err, M, ◌>>=◌, ◌>>◌, pure, fail, lift, guard, continue}
use koutendb_go.Decimal.{decimal}
use koutendb_go.Strings.{split}
use koutendb_go.Uint.{bounded}

abbrev pub max_header : ℕ
max_header = 8192

-- golang.org/x/crypto: `blake2b` with 256 bits of output, `secretbox.Seal` (without the nonce that it
-- is told to append to) and `secretbox.Open`, each with key, nonce and text.
pub record Crypto : Type 0 where
  pub sum256 : Bytes → Bytes
  pub seal : Bytes → Bytes → Bytes → Bytes
  pub open_box : Bytes → Bytes → Bytes → Option Bytes

-- What golang.org/x/crypto documents of them: opening undoes sealing, and a box is 16 bytes longer.
pub record IsLawful (C : Crypto) : Type 0 where
  pub open_box-seal : (key nonce m : Bytes) → C.open_box key nonce (C.seal key nonce m) ≡ some m
  pub length-seal : (key nonce m : Bytes) → length (C.seal key nonce m) ≡ length m + 16

-- `encrypt` for the 24 random bytes that it draws.
abbrev pub encrypt : Crypto → Bytes → Bytes → Bytes → Bytes
encrypt C key nonce m = nonce ++ C.seal key nonce m

-- A sealed frame as `exchange` puts it together.
unfoldable pub sealed : Bytes → Bytes
sealed cipher = codes "SEC " ++ (decimal (length cipher) ++ (b'\n' ∷ cipher))

-- `wire`. `inbox` is what the peer still delivers, and `ends` says whether the error of the read after
-- that is a timeout. `outbox` is what has been written so far. `is_open` is cleared by `close`.
pub record Wire : Type 0 where
  pub inbox : Bytes
  pub ends : Bool
  pub outbox : Bytes
  pub is_open : Bool
  pub key : Option Bytes
  pub plain : Bytes

abbrev pub zeros : Bytes → Bytes
zeros s = replicate (length s) 0

abbrev pub clear_key : Option Bytes → Option Bytes
clear_key none = none
clear_key (some k) = some (zeros k)

-- `(*wire).close`
unfoldable pub close : Wire → Wire
close w = record w { is_open = false; key = clear_key w.key; plain = zeros w.plain }

-- `w.reader.ReadByte`
abbrev pub next_byte : Bytes → Wire → Result ℕ × Wire
next_byte [] w = (err (io w.ends), w)
next_byte (b ∷ rest) w = (ok b, record w { inbox = rest })

unfoldable pub read_byte : M Wire ℕ
read_byte w = next_byte w.inbox w

-- `(*wire).rawBytes`: io.ReadFull uses up what there is when that is not enough.
unfoldable pub raw_bytes : ℕ → M Wire Bytes
raw_bytes n w =
    if ltb (length w.inbox) n
    then (err (io w.ends), record w { inbox = [] })
    else (ok (take n w.inbox), record w { inbox = drop n w.inbox })

-- A round of the loop of `line` behind its read: a newline ends it, any other byte joins the buffer,
-- which holds up to `max_header` bytes. `more` is the rest of the loop.
abbrev pub line_round : {S : Type 0} → Bytes → ℕ → M S Bytes → M S Bytes
line_round buf b more s =
    if b == b'\n'
    then (ok buf, s)
    else if ltb max_header (length (buf ++ b ∷ []))
    then (err (sentinel protocol), s)
    else more s

unfoldable pub line_loop : {S : Type 0} → ℕ → M S ℕ → Bytes → M S Bytes
line_loop zero read buf = fail out_of_fuel
line_loop (suc fuel) read buf = read >>= λ b. line_round buf b (line_loop fuel read (buf ++ b ∷ []))

-- Takes one carriage return from the end.
unfoldable pub strip_cr : Bytes → Bytes
strip_cr [] = []
strip_cr (b ∷ []) = if b == b'\r' then [] else b ∷ []
strip_cr (b ∷ c ∷ s) = b ∷ strip_cr (c ∷ s)

abbrev pub is_printable : ℕ → Bool
is_printable b = not (ltb b 32 || ltb 126 b)

abbrev pub all_printable : Bytes → Bool
all_printable [] = true
all_printable (b ∷ s) = is_printable b && all_printable s

-- `line` behind its loop.
unfoldable pub fields_of : Bytes → Result (List Bytes)
fields_of [] = err (sentinel protocol)
fields_of (b ∷ s) =
    if all_printable (b ∷ s) then ok (split b' ' (b ∷ s)) else err (sentinel protocol)

unfoldable pub line : {S : Type 0} → M S ℕ → M S (List Bytes)
line read = line_loop (max_header + 1) read [] >>= λ buf. lift (fields_of (strip_cr buf))

-- `expect`, for a number of fields that is not zero.
unfoldable pub expect : List Bytes → Bytes → ℕ → Bool → Result (Unit {0})
expect [] tag n auth = err (sentinel protocol)
expect (p ∷ ps) tag n auth =
    if str_eq p (codes "ERR")
    then err (sentinel (if auth then authentication else server))
    else if not (length (p ∷ ps) == n) || not (str_eq p tag)
    then err (sentinel protocol)
    else ok tt

-- The part of `fill` behind a frame's bytes: the nonce, the box, and the room in `plain`.
unfoldable pub accept : Crypto → Bytes → ℕ → Bytes → M Wire (Unit {0})
accept C key max b w = elim (C.open_box key (take 24 b) (drop 24 b)) [
  | none ↦ (err (sentinel protocol), w)
  | some plain ↦
      if ltb (max + max_header + 1) (length w.plain + length plain)
      then (err (sentinel protocol), w)
      else (ok tt, record w { plain = w.plain ++ plain })
]

-- The length of a sealed frame: `bounded`, and at least a nonce and an authenticator.
unfoldable pub frame_length : ℕ → Bytes → Result ℕ
frame_length max s = elim (bounded s (max + max_header + 41)) [
  | ok n ↦ if ltb n 40 then err (sentinel protocol) else ok n
  | err _ ↦ err (sentinel protocol)
]

-- `fill` behind the header of the frame, whose fields are `p`.
abbrev pub fill_frame : Crypto → Bytes → ℕ → List Bytes → M Wire (Unit {0})
fill_frame C key max p = do
  lift (expect p (codes "SEC") 2 false)
  n ← lift (frame_length max (get_or p 1 []))
  b ← raw_bytes n
  accept C key max b

-- `(*wire).fill`, on the connection's key.
unfoldable pub fill : Crypto → Bytes → ℕ → M Wire (Unit {0})
fill C key max = line read_byte >>= fill_frame C key max

-- The loop of `bytes`: frames are read until `n` bytes are there.
unfoldable pub fill_to : ℕ → Crypto → Bytes → ℕ → ℕ → M Wire (Unit {0})
fill_to zero C key n max w = (err out_of_fuel, w)
fill_to (suc fuel) C key n max w =
    let more = (fill C key max >> fill_to fuel C key n max) w in
    if ltb (length w.plain) n then more else (ok tt, w)

-- The rest of `bytes`: it hands out the first `n` bytes, and keeps the others.
abbrev pub take_plain : ℕ → M Wire Bytes
take_plain n w = (ok (take n w.plain), record w { plain = drop n w.plain })

abbrev pub bytes_with : Crypto → Option Bytes → ℕ → ℕ → M Wire Bytes
bytes_with C none n max w = raw_bytes n w
bytes_with C (some key) n max w = (fill_to (suc (length w.inbox)) C key n max >> take_plain n) w

-- `(*wire).bytes`. Every frame takes bytes from the inbox, so its length bounds the rounds.
unfoldable pub bytes : Crypto → ℕ → ℕ → M Wire Bytes
bytes C n max w = bytes_with C w.key n max w

abbrev pub header_with : Crypto → Option Bytes → ℕ → M Wire (List Bytes)
header_with C none max = line read_byte
header_with C (some key) max = line (bytes C 1 max >>= λ b. pure (get_or b 0 0))

-- `(*wire).header`
unfoldable pub header : Crypto → ℕ → M Wire (List Bytes)
header C max w = header_with C w.key max w
