-- ===== src/Embedded/Rings/Laws.antt =====
-- `ReadRing` with its five C strings against what it asks of the library.
use koutendb_go.Common.{ℕ, ◌≡◌, refl, sym, ap, true, List, [], ◌∷◌, Bytes, arith}
use mathlib.Core.Path.{subst}
use koutendb_go.Result.{M}
use koutendb_go.Floats.{Floats}
use koutendb_go.Json.{Json}
use koutendb_go.Embedded.Memory.{World, Heap, on_handle}
use koutendb_go.Embedded.Memory.Laws.{
  Live, RefinesAt, Refines, Refines-bind, Refines-on_handle, Refines-text_of,
}
use koutendb_go.Embedded.Memory.Allocation.{Refines-with_text, Refines-buffer}
use koutendb_go.Embedded.Abi.{Abi}
use koutendb_go.Embedded.Contract.{ask, read_ring_contract}
use koutendb_go.Embedded.Refinement.{until_nul-text}
use koutendb_go.Embedded.Rings.{
  RingOptions, all_texts, ring_fields, with_strings, texts_of, request, read_ring_job,
}

abbrev pointers : Heap → List ℕ
pointers [] = []
pointers ((p, t) ∷ h) = p ∷ pointers h

abbrev texts : Heap → List Bytes
texts [] = []
texts ((p, t) ∷ h) = t ∷ texts h

-- Where the pointers of `hs` are live, so are those of `qs`.
abbrev Covers : Type 0 → Heap → Heap → Type 0
Covers Store hs qs = (w : World Store) → Live hs w → Live qs w

module _ {Store A : Type 0} where
  Refines-texts_of :
      (hs qs : Heap) (k : List Bytes → M (World Store) A) (f : M Store A)
      → Covers Store hs qs
      → RefinesAt hs (k (texts qs)) f
      → RefinesAt hs (texts_of (pointers qs) k) f
  unfolding texts_of
  Refines-texts_of hs [] k f covers rest = rest
  Refines-texts_of hs ((p, t) ∷ qs) k f covers rest =
      Refines-text_of hs p t _ f (λ w live. (covers w live).0)
        (Refines-texts_of hs qs (λ ts. k (t ∷ ts)) f (λ w live. (covers w live).1) rest)

  Refines-with_strings :
      (ps : Heap) (ss : List Bytes) (body : List ℕ → M (World Store) A) (f : M Store A)
      → all_texts ss ≡ true
      → ((hs qs : Heap)
          → texts qs ≡ ss
          → Covers Store hs ps
          → Covers Store hs qs
          → RefinesAt hs (body (pointers qs)) f)
      → RefinesAt ps (with_strings ss body) f
  unfolding with_strings
  Refines-with_strings ps [] body f whole rest = rest ps [] refl (λ w live. live) (λ w live. tt)
  Refines-with_strings ps (s ∷ ss) body f whole rest =
      Refines-with_text ps s _ f (until_nul-text s (ground arith)) λ p.
        Refines-with_strings ((p, s) ∷ ps) ss (λ qs. body (p ∷ qs)) f (ground arith)
          λ hs qs same outer inner.
            rest hs ((p, s) ∷ qs) (ap (λ ts. s ∷ ts) same) (λ w live. (outer w live).1)
              (λ w live. ((outer w live).0, inner w live))

module _ {F : Floats} (J : Json) (B : Abi F) where
  pub read_ring_job-Refines :
      (ring : Bytes) (o : RingOptions)
      → all_texts (ring_fields ring o) ≡ true
      → Refines (read_ring_job J B ring o) (read_ring_contract B J ring o)
  unfolding read_ring_job
  read_ring_job-Refines ring o whole =
      Refines-with_strings [] (ring_fields ring o) _ _ whole λ hs qs same _ covers.
        Refines-bind hs _ _ _ _
          (Refines-texts_of hs qs _ _ covers (
            subst
              (λ ts.
                RefinesAt hs (on_handle (B.read_ring_json (request J B o ts)))
                  (ask B (B.read_ring_json (request J B o (ring_fields ring o)))))
              (sym same)
              (Refines-on_handle hs (B.read_ring_json (request J B o (ring_fields ring o))))))
          λ p. Refines-buffer hs p
