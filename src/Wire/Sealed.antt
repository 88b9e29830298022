-- ===== src/Wire/Sealed.antt =====
-- The sealed connection is a plain stream: `bytes` and `header` hand out, in order, the bytes that the
-- peer sealed, however it cut them into frames.
use koutendb_go.Common.{
  ℕ, ◌+◌, ◌≤◌, ◌<◌, ◌^◌, ◌≡◌, ◌≢◌, refl, sym, ap, ◌∙◌, str_eq, false, [], ◌∷◌, ◌++◌, append-nil,
  append_assoc, Bytes, codes, length, length-append, take, drop, take-length-append,
  drop-length-append, All, All-append, ltb, arith,
}
use koutendb_go.Result.{ok}
use koutendb_go.Decimal.{decimal, IsDigit}
use koutendb_go.Decimal.RoundTrip.{decimal-IsDigit, length-decimal_bound}
use koutendb_go.Strings.{split, Lacks}
use koutendb_go.Strings.Laws.{split-append, split_one}
use koutendb_go.Uint.Laws.{bounded_iff}
use koutendb_go.Wire
use koutendb_go.Wire.{
  max_header, Crypto, encrypt, sealed, Wire, next_byte, read_byte, raw_bytes, line, expect, accept,
  frame_length, fill, fill_to, take_plain, bytes_with, bytes, header_with, header,
}
use koutendb_go.Wire.Line.{Feeds}
use koutendb_go.Wire.Header.{IsPrintable, bare, line_reads}

pub Feeds-read_byte :
    (bs rest : Bytes) (w : Wire)
    → w.inbox ≡ bs ++ rest
    → Feeds read_byte bs w (record w { inbox = rest })
unfolding read_byte
Feeds-read_byte [] rest w e = rw (← e)
Feeds-read_byte (b ∷ bs) rest w e = (
  record w { inbox = bs ++ rest },
  rw e,
  Feeds-read_byte bs rest (record w { inbox = bs ++ rest }) refl,
)

pub raw_bytes_reads :
    (b rest : Bytes) (w : Wire)
    → w.inbox ≡ b ++ rest
    → raw_bytes (length b) w ≡ (ok b, record w { inbox = rest })
unfolding raw_bytes
raw_bytes_reads b rest w e =
    let size = length-append b rest in
    let enough : ltb (length (b ++ rest)) (length b) ≡ false = ground arith in
    rw (e, enough, take-length-append b rest, drop-length-append b rest)

digits-IsPrintable : (s : Bytes) → All IsDigit s → All IsPrintable s
digits-IsPrintable [] _ = tt
digits-IsPrintable (c ∷ s) (hc, hs) = ((omega arith, omega arith), digits-IsPrintable s hs)

digits-Lacks_space : (s : Bytes) → All IsDigit s → Lacks b' ' s
digits-Lacks_space [] _ = tt
digits-Lacks_space (c ∷ s) (hc, hs) = (omega arith, digits-Lacks_space s hs)

-- A plain line is read off the inbox.
pub line-read_byte :
    (h rest : Bytes) (w : Wire)
    → h ≢ []
    → All IsPrintable h
    → length h ≤ max_header
    → w.inbox ≡ h ++ b'\n' ∷ rest
    → line read_byte w ≡ (ok (split b' ' h), record w { inbox = rest })
line-read_byte h rest w ne printable fits e =
    line_reads read_byte h [] w (record w { inbox = rest }) ne printable bare
      (rw (append-nil h) fits)
      (Feeds-read_byte ((h ++ []) ++ b'\n' ∷ []) rest w (simp (e, append-nil, append_assoc)))

sealed_header-split :
    (n : ℕ) → split b' ' (codes "SEC " ++ decimal n) ≡ codes "SEC" ∷ decimal n ∷ []
sealed_header-split n =
    split-append b' ' (codes "SEC") (decimal n) (omega arith)
    ∙ ap (λ r. codes "SEC" ∷ r)
        (split_one b' ' (decimal n) (digits-Lacks_space _ (decimal-IsDigit n)))

line_sealed_header :
    (n : ℕ) (rest : Bytes) (w : Wire)
    → n < 2 ^ 63
    → w.inbox ≡ codes "SEC " ++ (decimal n ++ (b'\n' ∷ rest))
    → line read_byte w ≡ (ok (codes "SEC" ∷ decimal n ∷ []), record w { inbox = rest })
line_sealed_header n rest w small e = rw (← sealed_header-split n) (
    line-read_byte (codes "SEC " ++ decimal n) rest w (λ q. cc)
      (All-append IsPrintable (codes "SEC ") (decimal n) (omega arith)
        (digits-IsPrintable _ (decimal-IsDigit n)))
      (omega (arith, length-decimal_bound 19 n (omega arith)))
      (e ∙ sym (append_assoc (codes "SEC ") (decimal n) (b'\n' ∷ rest))))

frame_length-decimal :
    (max n : ℕ)
    → max < 2 ^ 62
    → 40 ≤ n
    → n ≤ max + max_header + 41
    → frame_length max (decimal n) ≡ ok n
unfolding frame_length
frame_length-decimal max n small low high =
    rw
      (
        (bounded_iff (decimal n) (max + max_header + 41) n (omega arith)).1 (refl, high),
        frame_length,
      )
      (ground arith)

expect_sealed : (d : Bytes) → expect (codes "SEC" ∷ d ∷ []) (codes "SEC") 2 false ≡ ok tt
unfolding expect str_eq
expect_sealed d = refl

accept_sealed :
    (C : Crypto) (L : Wire.IsLawful C) (key nonce m : Bytes) (max : ℕ) (w : Wire)
    → length nonce ≡ 24
    → length w.plain + length m ≤ max + max_header + 1
    → accept C key max (encrypt C key nonce m) w ≡ (ok tt, record w { plain = w.plain ++ m })
unfolding accept
accept_sealed C L key nonce m max w size room =
    let first : take 24 (nonce ++ C.seal key nonce m) ≡ nonce =
      rw (← size) (take-length-append nonce _) in
    let second : drop 24 (nonce ++ C.seal key nonce m) ≡ C.seal key nonce m =
      rw (← size) (drop-length-append nonce _) in
    rw (first, second, L.open_box-seal key nonce m, accept) (ground arith)

-- One sealed frame is opened and its text joins `plain`, if there is room.
pub fill-sealed :
    (C : Crypto) (L : Wire.IsLawful C) (key nonce m rest : Bytes) (max : ℕ) (w : Wire)
    → max < 2 ^ 62
    → length nonce ≡ 24
    → length w.plain + length m ≤ max + max_header + 1
    → w.inbox ≡ sealed (encrypt C key nonce m) ++ rest
    → fill C key max w ≡ (ok tt, record w { inbox = rest; plain = w.plain ++ m })
unfolding fill sealed
fill-sealed C L key nonce m rest max w small nonce_size room e =
    let b : Bytes = encrypt C key nonce m in
    let size : length b ≡ length m + 40 =
      omega (arith, length-append nonce (C.seal key nonce m), L.length-seal key nonce m) in
    let spelled : w.inbox ≡ codes "SEC " ++ (decimal (length b) ++ (b'\n' ∷ (b ++ rest))) =
      e ∙ simp (sealed, append_assoc) in
    rw
      (
        line_sealed_header (length b) (b ++ rest) w (omega arith) spelled,
        expect_sealed (decimal (length b)),
        frame_length-decimal max (length b) small (omega arith) (omega arith),
        raw_bytes_reads b rest (record w { inbox = b ++ rest }) refl,
      )
      (accept_sealed C L key nonce m max (record w { inbox = rest }) nonce_size room)
