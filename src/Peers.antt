-- ===== src/Peers.antt =====
-- options.go: the test of a peer in `normalize`, with net.SplitHostPort and strconv.Atoi.
use koutendb_go.Common.{
  ℕ, zero, suc, ◌+◌, ◌^◌, ◌==◌, Bool, true, false, ◌&&◌, ◌||◌, not, List, [], ◌∷◌, Option, none,
  some, Bytes, if◌then◌else◌,
}
use koutendb_go.Common.Int.{ℤ, pos, negsuc, ltb_ℤ}
use koutendb_go.Strings.{contains, contains_any}
use koutendb_go.Decimal.{parse_uint}

abbrev pub prepend : ℕ → Option (Bytes × Bytes) → Option (Bytes × Bytes)
prepend b none = none
prepend b (some (before, after)) = some (b ∷ before, after)

-- What stands before and after the last occurrence of a byte.
unfoldable pub split_last : ℕ → Bytes → Option (Bytes × Bytes)
split_last c [] = none
split_last c (b ∷ s) = elim (split_last c s) [
  | some (before, after) ↦ some (b ∷ before, after)
  | none ↦ if b == c then some ([], s) else none
]

-- What stands before and after the first occurrence of a byte.
unfoldable pub split_first : ℕ → Bytes → Option (Bytes × Bytes)
split_first c [] = none
split_first c (b ∷ s) =
    let rest = split_first c s in if b == c then some ([], s) else prepend b rest

-- A host in brackets: the first closing one ends what stands before the last colon.
abbrev pub bracketed : Bytes → Option (Bytes × Bytes) → Option (Bytes × Bytes)
bracketed port (some (host, [])) =
    if contains host b'[' || contains port b'[' || contains port b']'
    then none
    else some (host, port)
bracketed port _ = none

abbrev pub unbracketed : Bytes → Bytes → Option (Bytes × Bytes)
unbracketed host port =
    if contains_any host (b':' ∷ b'[' ∷ b']' ∷ []) || contains_any port (b'[' ∷ b']' ∷ [])
    then none
    else some (host, port)

abbrev pub host_and_port : Bytes → Bytes → Option (Bytes × Bytes)
host_and_port [] port = unbracketed [] port
host_and_port (b ∷ s) port =
    if b == b'[' then bracketed port (split_first b']' s) else unbracketed (b ∷ s) port

-- `net.SplitHostPort`
unfoldable pub split_host_port : Bytes → Option (Bytes × Bytes)
split_host_port s = elim (split_last b':' s) [
  | none ↦ none
  | some (before, port) ↦ host_and_port before port
]

abbrev pub negated : ℕ → ℤ
negated zero = pos zero
negated (suc n) = negsuc n

-- `strconv.Atoi`, for 64 bits.
unfoldable pub atoi : Bytes → Option ℤ
atoi [] = none
atoi (b ∷ s) =
    if b == b'-'
    then elim (parse_uint (2 ^ 63 + 1) s) [ none ↦ none | some n ↦ some (negated n) ]
    else elim (parse_uint (2 ^ 63) (if b == b'+' then s else b ∷ s)) [
      | none ↦ none
      | some n ↦ some (pos n)
    ]

abbrev pub is_host : Bytes → Bool
is_host [] = false
is_host (b ∷ s) = not (contains_any (b ∷ s) (b'/' ∷ 92 ∷ b' ' ∷ b'\r' ∷ b'\n' ∷ 9 ∷ 0 ∷ []))

-- The body of the loop over the peers.
unfoldable pub is_peer : Bytes → Bool
is_peer p = elim (split_host_port p) [
  | none ↦ false
  | some (host, port) ↦ elim (atoi port) [
    | none ↦ false
    | some n ↦ not (ltb_ℤ n (pos 1) || ltb_ℤ (pos 65535) n) && is_host host
  ]
]

unfoldable pub all_peers : List Bytes → Bool
all_peers [] = true
all_peers (p ∷ ps) = is_peer p && all_peers ps
