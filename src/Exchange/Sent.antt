-- ===== src/Exchange/Sent.antt =====
-- What an exchange sends: a part of its frame at most, all of it if it succeeds, and nothing while its
-- flag `attempted` is unset.
use koutendb_go.Common.{
  ℕ, zero, suc, ◌≡◌, refl, sym, ap, ◌∙◌, ◌⊎◌, inl, inr, true, [], ◌∷◌, ◌++◌, List, append-nil,
  append_assoc, Option, none, some, Bytes, take, drop, take-append-drop, ◌==◌, Bool-cases,
}
use koutendb_go.Errors.{CtxError}
use koutendb_go.Result.{ok, ◌>>=◌, continue}
use koutendb_go.Environment.{Ctx, Env, WriteOutcome, wrote, write_failed}
use koutendb_go.Exchange.{Link, tick, check_at, check, put_out, written, write_some, send}

take-take-drop :
    {A : Type 0} (n k : ℕ) (xs : List A) → (m : ℕ) × (take n xs ++ take k (drop n xs) ≡ take m xs)
take-take-drop zero k xs = (k, refl)
take-take-drop (suc n) k [] = (k, refl)
take-take-drop (suc n) k (x ∷ xs) = let (m, e) = take-take-drop n k xs in (suc m, rw e)

-- Sending a part of a frame, from one state to another.
abbrev pub Progress : Bytes → Link → Link → Type 0
Progress frame s u =
    ((u.wire.outbox ≡ s.wire.outbox) × (u.attempted ≡ s.attempted))
    ⊎ ((u.attempted ≡ true) × ((k : ℕ) × (u.wire.outbox ≡ s.wire.outbox ++ take k frame)))

module _ (E : Env) (x : Ctx) where
  after_write :
      (fuel : ℕ) (frame : Bytes) (s : Link) (o : WriteOutcome)
      → ((n : ℕ) (u : Link) → Progress (drop n frame) u (send E x fuel (drop n frame) u).1)
      → Progress frame s (continue (λ n. send E x fuel (drop n frame)) (written x frame o s)).1
  after_write fuel frame s (write_failed n b) ih = inr (refl, (n, refl))
  after_write fuel frame s (wrote n) ih = elim (Bool-cases (n == 0)) [
    | inl stuck ↦ rw stuck (inr (refl, (n, refl)))
    | inr some_written ↦
        rw some_written
          (later (send E x fuel (drop n frame) (put_out n frame s)).1 (ih n (put_out n frame s)))
  ]
    where
      later : (u : Link) → Progress (drop n frame) (put_out n frame s) u → Progress frame s u
      later u (inl (same, flag)) = inr (flag, (n, same))
      later u (inr (flag, (k, e))) =
          let (m, joined) = take-take-drop n k frame in
          inr (
            flag,
            (
              m,
              e
                  ∙ append_assoc s.wire.outbox (take n frame) (take k (drop n frame))
                  ∙ ap (λ t. s.wire.outbox ++ t) joined,
            ),
          )

  pub send-Progress :
      (fuel : ℕ) (frame : Bytes) (s : Link) → Progress frame s (send E x fuel frame s).1
  unfolding send check write_some
  send-Progress fuel [] s = inl (refl, refl)
  send-Progress zero (b ∷ frame) s = inl (refl, refl)
  send-Progress (suc fuel) (b ∷ frame) s =
      checked (λ n u. send-Progress fuel (drop n (b ∷ frame)) u) (x.err_at s.now)
    where
      checked :
          ((n : ℕ) (u : Link)
            → Progress (drop n (b ∷ frame)) u (send E x fuel (drop n (b ∷ frame)) u).1)
          → (c : Option CtxError)
          → Progress
              (b ∷ frame)
              s
              (continue
                (λ _. write_some E x (b ∷ frame) >>= λ n. send E x fuel (drop n (b ∷ frame)))
                (check_at c s)).1
      checked ih (some e) = inl (refl, refl)
      checked ih none = after_write fuel (b ∷ frame) (tick s) (E.write (tick s).now (b ∷ frame)) ih

  all_written :
      (fuel : ℕ) (frame : Bytes) (s : Link) (o : WriteOutcome)
      → ((n : ℕ) (u : Link)
          → (send E x fuel (drop n frame) u).0 ≡ ok tt
          → (send E x fuel (drop n frame) u).1.wire.outbox ≡ u.wire.outbox ++ drop n frame)
      → (continue (λ n. send E x fuel (drop n frame)) (written x frame o s)).0 ≡ ok tt
      → (continue (λ n. send E x fuel (drop n frame)) (written x frame o s)).1.wire.outbox
        ≡ s.wire.outbox ++ frame
  all_written fuel frame s (write_failed n b) ih h = cc
  all_written fuel frame s (wrote n) ih h = elim (Bool-cases (n == 0)) [
    | inl stuck ↦ cc (rw stuck at h)
    | inr some_written ↦ rw some_written (
        ih n (put_out n frame s) (rw some_written at h)
        ∙ append_assoc s.wire.outbox (take n frame) (drop n frame)
        ∙ ap (λ t. s.wire.outbox ++ t) (take-append-drop n frame))
  ]

  -- A loop that ends without error has written the whole frame, once and in order.
  pub send_all :
      (fuel : ℕ) (frame : Bytes) (s : Link)
      → (send E x fuel frame s).0 ≡ ok tt
      → (send E x fuel frame s).1.wire.outbox ≡ s.wire.outbox ++ frame
  unfolding send check write_some
  send_all fuel [] s h = sym (append-nil _)
  send_all zero (b ∷ frame) s h = cc
  send_all (suc fuel) (b ∷ frame) s h =
      checked (λ n u. send_all fuel (drop n (b ∷ frame)) u) (x.err_at s.now) h
    where
      checked :
          ((n : ℕ) (u : Link)
            → (send E x fuel (drop n (b ∷ frame)) u).0 ≡ ok tt
            → (send E x fuel (drop n (b ∷ frame)) u).1.wire.outbox
              ≡ u.wire.outbox ++ drop n (b ∷ frame))
          → (c : Option CtxError)
          → (continue
              (λ _. write_some E x (b ∷ frame) >>= λ n. send E x fuel (drop n (b ∷ frame)))
              (check_at c s)).0
            ≡ ok tt
          → (continue
              (λ _. write_some E x (b ∷ frame) >>= λ n. send E x fuel (drop n (b ∷ frame)))
              (check_at c s)).1.wire.outbox
            ≡ s.wire.outbox ++ b ∷ frame
      checked ih (some e) h = cc
      checked ih none h =
          all_written fuel (b ∷ frame) (tick s) (E.write (tick s).now (b ∷ frame)) ih h
