-- ===== src/Tests/Reading.antt =====
-- Headers and bytes off plain and sealed connections.
use koutendb_go.Common.{
  ℕ, zero, suc, ap, ◌+◌, ◌≡◌, ◌≢◌, refl, true, false, List, [], ◌∷◌, ◌++◌, none, Bytes, codes,
  length, replicate, take, drop, All, arith, ◌≤◌,
}
use koutendb_go.Errors.{sentinel, protocol, io}
use koutendb_go.Result.{Result, ok, err}
use koutendb_go.Strings.{split, Lacks}
use koutendb_go.Wire.{max_header, Wire, read_byte, raw_bytes, line, line_loop, bytes, header}
use koutendb_go.Wire.Header.{IsPrintable, carriage, line_reads, line_too_long, line_sound}
use koutendb_go.Wire.Safety.{IsReadError, header_room}
use koutendb_go.Wire.Failing.{bytes-Fails, header-Fails}
use koutendb_go.Wire.Sealed.{Feeds-read_byte}
use koutendb_go.Wire.Stream.{Frame, frames, Carries, bytes-Carries, header-Carries}
use koutendb_go.Tests.Doubles.{crypto, crypto-IsLawful, plain_wire, sealed_wire, some_nonce}

ok_line-IsPrintable : All IsPrintable (codes "OK 1")
ok_line-IsPrintable = (
  (omega arith, omega arith),
  ((omega arith, omega arith), ((omega arith, omega arith), ((omega arith, omega arith), tt))),
)

abbrev reply_line : Bytes
reply_line = codes "OK 1" ++ b'\r' ∷ []

line_reads_example :
    line read_byte (plain_wire ((reply_line ++ b'\n' ∷ []) ++ codes "next"))
    ≡ (ok (split b' ' (codes "OK 1")), plain_wire (codes "next"))
line_reads_example =
    line_reads read_byte (codes "OK 1") (b'\r' ∷ [])
      (plain_wire ((reply_line ++ b'\n' ∷ []) ++ codes "next")) (plain_wire (codes "next"))
      (λ e. cc) ok_line-IsPrintable carriage (omega arith)
      (Feeds-read_byte (reply_line ++ b'\n' ∷ []) (codes "next")
        (plain_wire ((reply_line ++ b'\n' ∷ []) ++ codes "next")) refl)

replicate-Lacks : (n : ℕ) → Lacks b'\n' (replicate n b'a')
replicate-Lacks zero = tt
replicate-Lacks (suc n) = (omega arith, replicate-Lacks n)

length-replicate : (n : ℕ) → length {A = ℕ} (replicate n b'a') ≡ n
length-replicate zero = refl
length-replicate (suc n) = omega (arith, length-replicate n)

line_too_long_example :
    line read_byte (plain_wire (replicate 8193 b'a' ++ []))
    ≡ (err (sentinel protocol), plain_wire [])
line_too_long_example =
    line_too_long read_byte (replicate 8193 b'a') (plain_wire (replicate 8193 b'a' ++ []))
      (plain_wire []) (replicate-Lacks 8193) (length-replicate 8193)
      (Feeds-read_byte (replicate 8193 b'a') [] (plain_wire (replicate 8193 b'a' ++ [])) refl)

line_sound_example :
    (h : Bytes) × (split b' ' (codes "OK 1") ≡ split b' ' h)
    × (h ≢ [])
    × All IsPrintable h
    × (length h ≤ max_header)
line_sound_example =
    line_sound read_byte (plain_wire ((reply_line ++ b'\n' ∷ []) ++ codes "next"))
      (split b' ' (codes "OK 1")) (ap (λ (r : Result (List Bytes) × Wire). r.0) line_reads_example)

bytes-Fails_example : IsReadError (io false)
unfolding bytes raw_bytes
bytes-Fails_example = bytes-Fails crypto 3 64 (plain_wire (codes "ab")) (io false) refl

header-Fails_example : IsReadError (io false)
unfolding header line line_loop read_byte
header-Fails_example = header-Fails crypto 64 (plain_wire (codes "VA")) (io false) refl

header_room_example :
    let u = (header crypto 64 (plain_wire (codes "MISS" ++ b'\n' ∷ []))).1 in
    (length u.plain ≤ 64 + max_header + 1)
    × (length u.inbox ≤ 5)
    × (u.key ≡ none)
    × (u.outbox ≡ [])
    × (u.is_open ≡ true)
    × (u.ends ≡ false)
header_room_example = header_room 64 crypto (plain_wire (codes "MISS" ++ b'\n' ∷ [])) (omega arith)

abbrev session_key : Bytes
session_key = replicate 32 1

abbrev queue : List Frame
queue = (some_nonce, codes "OK") ∷ (some_nonce, codes " 1" ++ b'\r' ∷ b'\n' ∷ codes "next") ∷ []

abbrev stream : Bytes
stream = (reply_line ++ b'\n' ∷ []) ++ codes "next"

abbrev fed : Wire
fed = sealed_wire (frames crypto session_key 64 [] queue ++ [])

fed-Carries : Carries crypto session_key 64 [] fed stream
fed-Carries = record {
  queue = queue;
  keyed = refl;
  incoming = refl;
  nonces = (refl, (refl, tt));
  stream = refl;
  room = omega arith;
}

bytes-Carries_example :
    (u : Wire) × (bytes crypto 3 64 fed ≡ (ok (take 3 stream), u))
    × Carries crypto session_key 64 [] u (drop 3 stream)
bytes-Carries_example =
    bytes-Carries crypto session_key 64 [] crypto-IsLawful (omega arith) 3 fed stream fed-Carries
      (omega arith)

header-Carries_example :
    (u : Wire) × (header crypto 64 fed ≡ (ok (split b' ' (codes "OK 1")), u))
    × Carries crypto session_key 64 [] u (codes "next")
header-Carries_example =
    header-Carries crypto session_key 64 [] crypto-IsLawful (omega arith) (codes "OK 1")
      (b'\r' ∷ []) (codes "next") fed (λ e. cc) ok_line-IsPrintable carriage (omega arith)
      fed-Carries
