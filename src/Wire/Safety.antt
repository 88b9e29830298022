-- ===== src/Wire/Safety.antt =====
-- wire.go: what reading leaves as it is, and the room for decrypted bytes.
use koutendb_go.Common.{
  ℕ, zero, suc, ◌+◌, ◌≤◌, ◌≡◌, refl, ◌⊎◌, inl, inr, Bool, false, List, [], ◌∷◌, Option, none, some,
  Bytes, codes, length, length-append, length-drop, ltb, arith, Bool-cases, get_or,
}
use koutendb_go.Errors.{Failure, sentinel, io, protocol, server}
use koutendb_go.Result.{lift}
use koutendb_go.Result.Rules.{Keeps, Keeps-bind}
use koutendb_go.Wire.{
  max_header, Crypto, Wire, next_byte, read_byte, raw_bytes, line, expect, accept, frame_length,
  fill_frame, fill, fill_to, take_plain, bytes_with, bytes, header_with, header,
}
use koutendb_go.Wire.Header.{line-Keeps}

-- How a connection may change while it is read, with `max` as the limit of frames.
pub record Reads (max : ℕ) (w u : Wire) : Type 0 where
  pub same_key : u.key ≡ w.key
  pub same_outbox : u.outbox ≡ w.outbox
  pub same_open : u.is_open ≡ w.is_open
  pub same_end : u.ends ≡ w.ends
  pub shrinks : length u.inbox ≤ length w.inbox
  pub bounded_plain : length w.plain ≤ max + max_header + 1 → length u.plain ≤ max + max_header + 1

-- The errors of reading: a refused frame, an error frame of the peer, or one of the network.
abbrev pub IsReadError : Failure → Type 0
IsReadError e = (e ≡ sentinel protocol) ⊎ (e ≡ sentinel server) ⊎ ((b : Bool) × (e ≡ io b))

module _ (max : ℕ) where
  pub Reads-refl : (w : Wire) → Reads max w w
  Reads-refl w = record {
    same_key = refl;
    same_outbox = refl;
    same_open = refl;
    same_end = refl;
    shrinks = omega arith;
    bounded_plain = λ h. h;
  }

  pub Reads-trans : (a b c : Wire) → Reads max a b → Reads max b c → Reads max a c
  Reads-trans a b c p q = record {
    same_key = cc;
    same_outbox = cc;
    same_open = cc;
    same_end = cc;
    shrinks = omega arith;
    bounded_plain = λ h. q.bounded_plain (p.bounded_plain h);
  }

  pub read_byte-Keeps : Keeps (Reads max) read_byte
  unfolding read_byte
  read_byte-Keeps w = go w.inbox refl
    where
      go : (s : Bytes) → w.inbox ≡ s → Reads max w (next_byte s w).1
      go [] e = Reads-refl w
      go (b ∷ s) e = record {
        same_key = refl;
        same_outbox = refl;
        same_open = refl;
        same_end = refl;
        shrinks = rw e (omega arith);
        bounded_plain = λ h. h;
      }

  raw_bytes-Keeps : (n : ℕ) → Keeps (Reads max) (raw_bytes n)
  unfolding raw_bytes
  raw_bytes-Keeps n w = ground (arith, length-drop n w.inbox)

  line-Reads : Keeps (Reads max) (line read_byte)
  line-Reads = line-Keeps (Reads max) read_byte Reads-refl Reads-trans read_byte-Keeps

  accept-Keeps : (C : Crypto) (key b : Bytes) → Keeps (Reads max) (accept C key max b)
  unfolding accept
  accept-Keeps C key b w = grind (arith, length-append)

  pub fill_frame-Keeps :
      (C : Crypto) (key : Bytes) (p : List Bytes) → Keeps (Reads max) (fill_frame C key max p)
  fill_frame-Keeps C key p =
      Keeps-bind R Reads-trans (lift (expect p (codes "SEC") 2 false)) _ Reads-refl λ _.
        Keeps-bind R Reads-trans (lift (frame_length max (get_or p 1 []))) _ Reads-refl λ n.
          Keeps-bind R Reads-trans (raw_bytes n) _ (raw_bytes-Keeps n) λ b. accept-Keeps C key b
    where
      R : Wire → Wire → Type 0
      R = Reads max

  fill-Keeps : (C : Crypto) (key : Bytes) → Keeps (Reads max) (fill C key max)
  unfolding fill
  fill-Keeps C key =
      Keeps-bind (Reads max) Reads-trans (line read_byte) _ line-Reads (fill_frame-Keeps C key)

  fill_to-Keeps :
      (fuel : ℕ) (C : Crypto) (key : Bytes) (n : ℕ) → Keeps (Reads max) (fill_to fuel C key n max)
  unfolding fill_to
  fill_to-Keeps zero C key n w = Reads-refl w
  fill_to-Keeps (suc fuel) C key n w = elim (Bool-cases (ltb (length w.plain) n)) [
    | inl more ↦ rw more (
        Keeps-bind (Reads max) Reads-trans (fill C key max) _ (fill-Keeps C key)
          (λ _. fill_to-Keeps fuel C key n) w)
    | inr enough ↦ rw enough (Reads-refl w)
  ]

  take_plain-Keeps : (n : ℕ) → Keeps (Reads max) (take_plain n)
  take_plain-Keeps n w = ground (arith, length-drop n w.plain)

  -- Reading `n` bytes changes the connection only so.
  bytes-Keeps : (C : Crypto) (n : ℕ) → Keeps (Reads max) (bytes C n max)
  unfolding bytes
  bytes-Keeps C n w = go w.key
    where
      go : (k : Option Bytes) → Reads max w (bytes_with C k n max w).1
      go none = raw_bytes-Keeps n w
      go (some key) =
          Keeps-bind (Reads max) Reads-trans (fill_to (suc (length w.inbox)) C key n max) _
            (fill_to-Keeps (suc (length w.inbox)) C key n) (λ _. take_plain-Keeps n) w

  -- So does reading a header.
  pub header-Keeps : (C : Crypto) (w : Wire) → Reads max w (header C max w).1
  unfolding header
  header-Keeps C w = go w.key
    where
      go : (k : Option Bytes) → Reads max w (header_with C k max w).1
      go none = line-Reads w
      go (some key) =
          line-Keeps (Reads max) _ Reads-refl Reads-trans
            (Keeps-bind (Reads max) Reads-trans (bytes C 1 max) _ (bytes-Keeps C 1)
              (λ _. Reads-refl))
            w

  -- If the decrypted bytes of a connection fit the limit and a header, they still do after reading a
  -- header; the input does not grow, and key, output, open flag and end are as before.
  pub header_room :
      (C : Crypto) (w : Wire)
      → length w.plain ≤ max + max_header + 1
      → let u = (header C max w).1 in
        (length u.plain ≤ max + max_header + 1)
        × (length u.inbox ≤ length w.inbox)
        × (u.key ≡ w.key)
        × (u.outbox ≡ w.outbox)
        × (u.is_open ≡ w.is_open)
        × (u.ends ≡ w.ends)
  header_room C w room =
      let kept = header-Keeps C w in
      (
        kept.bounded_plain room,
        kept.shrinks,
        kept.same_key,
        kept.same_outbox,
        kept.same_open,
        kept.same_end,
      )
