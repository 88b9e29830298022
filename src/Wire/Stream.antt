-- ===== src/Wire/Stream.antt =====
-- The refinement: a sealed connection behaves as a plain stream of the texts in its frames.
use koutendb_go.Common.{
  ℕ, zero, suc, ◌+◌, ◌≤◌, ◌<◌, ◌^◌, ◌≡◌, ◌≢◌, refl, sym, ap, ◌∙◌, inl, inr, true, List, [], ◌∷◌,
  ◌++◌, append-nil, append_assoc, some, Bytes, length, length-append, take, drop, take-append_le,
  drop-append_le, length-drop, All, ltb, arith, Bool-cases, get_or,
}
use koutendb_go.Result.{ok, ◌>>=◌}
use koutendb_go.Strings.{split}
use koutendb_go.Wire
use koutendb_go.Wire.{
  max_header, Crypto, encrypt, sealed, Wire, line, fill, fill_to, take_plain, bytes_with, bytes,
  header_with, header,
}
use koutendb_go.Wire.Line.{Feeds}
use koutendb_go.Wire.Header.{IsPrintable, LineEnd, line_reads}
use koutendb_go.Wire.Sealed.{fill-sealed}

-- A frame that a peer sends: its nonce and its text.
abbrev pub Frame : Type 0
Frame = Bytes × Bytes

abbrev pub texts : List Frame → Bytes
texts [] = []
texts ((nonce, m) ∷ fs) = m ++ texts fs

fill_to_done :
    (C : Crypto) (key : Bytes) (fuel n max : ℕ) (w : Wire)
    → n ≤ length w.plain
    → fill_to (suc fuel) C key n max w ≡ (ok tt, w)
unfolding fill_to
fill_to_done C key fuel n max w enough = ground arith

fill_to_more :
    (C : Crypto) (key : Bytes) (fuel n max : ℕ) (w u : Wire)
    → length w.plain < n
    → fill C key max w ≡ (ok tt, u)
    → fill_to (suc fuel) C key n max w ≡ fill_to fuel C key n max u
unfolding fill_to
fill_to_more C key fuel n max w u short e =
    let test : ltb (length w.plain) n ≡ true = ground arith in rw (test, e)

module _ (C : Crypto) (key : Bytes) (max : ℕ) (rest : Bytes) where
  abbrev pub frames : List Frame → Bytes
  frames [] = []
  frames ((nonce, m) ∷ fs) = sealed (encrypt C key nonce m) ++ frames fs

  -- The connection is about to deliver the stream `s`: what is decrypted already, then the texts of the
  -- frames in front of `rest`. The stream fits the room that `fill` grants.
  pub record Carries (w : Wire) (s : Bytes) : Type 0 where
    pub queue : List Frame
    pub keyed : w.key ≡ some key
    pub incoming : w.inbox ≡ frames queue ++ rest
    pub nonces : All (λ (f : Frame). length f.0 ≡ 24) queue
    pub stream : w.plain ++ texts queue ≡ s
    pub room : length s ≤ max + max_header + 1

  module _ (L : Wire.IsLawful C) (small : max < 2 ^ 62) where
    -- With a frame for each round, the loop of `bytes` stops with enough bytes and the same stream.
    fill_to-Carries :
        (fuel n : ℕ) (fs : List Frame) (w : Wire) (s : Bytes)
        → length fs < fuel
        → w.key ≡ some key
        → w.inbox ≡ frames fs ++ rest
        → All (λ (f : Frame). length f.0 ≡ 24) fs
        → w.plain ++ texts fs ≡ s
        → length s ≤ max + max_header + 1
        → n ≤ length s
        → (u : Wire) × (fill_to fuel C key n max w ≡ (ok tt, u))
          × Carries u s
          × (n ≤ length u.plain)
    fill_to-Carries zero n fs w s f k i ns e room le = absurd (omega arith)
    fill_to-Carries (suc fuel) n [] w s f k i ns e room le =
        let enough : n ≤ length w.plain = omega (arith, ap length (sym (append-nil w.plain) ∙ e)) in
        let view : Carries w s = record {
          queue = [];
          keyed = k;
          incoming = i;
          nonces = ns;
          stream = e;
          room = room;
        } in
        (w, fill_to_done C key fuel n max w enough, view, enough)
    fill_to-Carries (suc fuel) n ((nonce, m) ∷ fs) w s f k i (size, ns) e room le =
        elim (Bool-cases (ltb (length w.plain) n)) [
          | inl more ↦
              let u : Wire = record w { inbox = frames fs ++ rest; plain = w.plain ++ m } in
              let joined : u.plain ++ texts fs ≡ s = append_assoc w.plain m (texts fs) ∙ e in
              let fits : length w.plain + length m ≤ max + max_header + 1 = omega (
                arith,
                ap length e,
                length-append w.plain (m ++ texts fs),
                length-append m (texts fs),
              ) in
              let filled =
                fill-sealed C L key nonce m (frames fs ++ rest) max w small size fits
                  (i ∙ append_assoc (sealed (encrypt C key nonce m)) (frames fs) rest) in
              let (v, loop, view, enough) =
                fill_to-Carries fuel n fs u s (omega arith) k refl ns joined room le in
              (v, fill_to_more C key fuel n max w u (ground arith) filled ∙ loop, view, enough)
          | inr enough ↦
              let view : Carries w s = record {
                queue = (nonce, m) ∷ fs;
                keyed = k;
                incoming = i;
                nonces = (size, ns);
                stream = e;
                room = room;
              } in
              (w, fill_to_done C key fuel n max w (ground arith), view, ground arith)
        ]

    -- There are at most as many frames as bytes.
    frames-length : (fs : List Frame) → length fs ≤ length (frames fs)
    unfolding sealed
    frames-length [] = omega arith
    frames-length ((nonce, m) ∷ fs) =
        omega (arith, frames-length fs, length-append (sealed (encrypt C key nonce m)) (frames fs))

    -- On a sealed connection whose unread stream of texts in frames, with what is decrypted already, is
    -- at most the limit and maxHeader + 1 bytes in all and at least n bytes, bytes hands out its next n
    -- bytes, however the stream is cut into frames, and leaves the rest; nonces have 24 bytes, the
    -- primitives are lawful and the limit is below 2^62.
    pub bytes-Carries :
        (n : ℕ) (w : Wire) (s : Bytes)
        → Carries w s
        → n ≤ length s
        → (u : Wire) × (bytes C n max w ≡ (ok (take n s), u)) × Carries u (drop n s)
    unfolding bytes
    bytes-Carries n w s c le =
        let fuel : length c.queue < suc (length w.inbox) = omega (
          arith,
          frames-length c.queue,
          ap length c.incoming,
          length-append (frames c.queue) rest,
        ) in
        let (v, loop, view, enough) =
          fill_to-Carries (suc (length w.inbox)) n c.queue w s fuel c.keyed c.incoming c.nonces
            c.stream c.room le in
        let u : Wire = record v { plain = drop n v.plain } in
        let taken : take n v.plain ≡ take n s =
          sym (take-append_le n v.plain (texts view.queue) enough) ∙ ap (take n) view.stream in
        let left : drop n v.plain ++ texts view.queue ≡ drop n s =
          sym (drop-append_le n v.plain (texts view.queue) enough) ∙ ap (drop n) view.stream in
        let view' : Carries u (drop n s) = record {
          queue = view.queue;
          keyed = view.keyed;
          incoming = view.incoming;
          nonces = view.nonces;
          stream = left;
          room = omega (arith, length-drop n s, view.room);
        } in
        (u, ap (λ k. bytes_with C k n max w) c.keyed ∙ rw (loop, taken), view')

    -- Reading byte by byte.
    Feeds-Carries :
        (bs s : Bytes) (w : Wire)
        → Carries w (bs ++ s)
        → (u : Wire) × Feeds (bytes C 1 max >>= λ b. λ t. (ok (get_or b 0 0), t)) bs w u
          × Carries u s
    Feeds-Carries [] s w c = (w, refl, c)
    Feeds-Carries (b ∷ bs) s w c =
        let (t, e, c') = bytes-Carries 1 w (b ∷ (bs ++ s)) c (omega arith) in
        let (u, feeds, c'') = Feeds-Carries bs s t c' in (u, (t, rw e, feeds), c'')

    -- On a sealed connection whose unread stream of texts in frames, with what is decrypted already, is
    -- at most the limit and maxHeader + 1 bytes in all, header reads a printable header, not empty and
    -- with its carriage return at most maxHeader bytes long, off the stream, however the stream is cut
    -- into frames, and leaves the rest of it; nonces have 24 bytes, the primitives are lawful and the
    -- limit is below 2^62.
    pub header-Carries :
        (h cr s : Bytes) (w : Wire)
        → h ≢ []
        → All IsPrintable h
        → LineEnd cr
        → length (h ++ cr) ≤ max_header
        → Carries w (((h ++ cr) ++ b'\n' ∷ []) ++ s)
        → (u : Wire) × (header C max w ≡ (ok (split b' ' h), u)) × Carries u s
    unfolding header
    header-Carries h cr s w ne printable end fits c =
        let (u, feeds, c') = Feeds-Carries ((h ++ cr) ++ b'\n' ∷ []) s w c in
        let keyed = ap (λ k. header_with C k max w) c.keyed in
        (u, keyed ∙ line_reads _ h cr w u ne printable end fits feeds, c')
