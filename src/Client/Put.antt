-- ===== src/Client/Put.antt =====
-- client.go: `PutCodec` and `Put`.
use koutendb_go.Common.{
  ◌-◌, Bool, true, false, ◌||◌, ◌&&◌, not, List, [], ◌∷◌, ◌++◌, Option, Bytes, codes, length, ltb,
  if◌then◌else◌,
}
use koutendb_go.Errors.{
  Failure, sentinel, wrap, input, indeterminate, server, authentication, is_kind,
}
use koutendb_go.Result.{Result, ok, err, M, ◌>>=◌, ◌>>◌, lift}
use koutendb_go.Decimal.{decimal}
use koutendb_go.Floats.{Floats}
use koutendb_go.Identity.{RecordId, parse_fields}
use koutendb_go.Codec
use koutendb_go.Codec.{Codec}
use koutendb_go.Wire.{Crypto, Wire, header, expect}
use koutendb_go.Options.{Options, frame_limit}
use koutendb_go.Environment.{Ctx, Env}
use koutendb_go.Exchange.{Link, exchange}
use koutendb_go.Client.{Client, drop, ensure}
use koutendb_go.Client.Request.{with_lock, request}

abbrev pub is_empty : Bytes → Bool
is_empty [] = true
is_empty (b ∷ s) = false

abbrev pub tail : List Bytes → List Bytes
tail [] = []
tail (p ∷ ps) = ps

-- The test of the arguments. Lengths are compared as in the source: the ring first, so that the
-- difference is not negative.
unfoldable pub is_storable : Options → Bytes → Bytes → Codec → Bool
is_storable o ring content codec = not (
    is_empty ring
    || ltb (frame_limit o) (length ring)
    || ltb (frame_limit o - length ring) (length content)
    || not (Codec.valid codec))

-- "PUTR %d %d 0 %s"
abbrev pub put_header : Bytes → Bytes → Codec → Bytes
put_header ring content codec =
    codes "PUTR "
    ++ (decimal (length ring) ++ (b' ' ∷ (decimal (length content) ++ (codes " 0 " ++ codec))))

-- What a failed write becomes: unknown, if it may have been sent and the server did not refuse it.
abbrev pub write_error : Bool → Failure → Failure
write_error attempted e =
    if attempted && (not (is_kind e server) && not (is_kind e authentication))
    then wrap indeterminate e
    else e

-- `PutCodec` behind its exchange.
abbrev pub put_settled : {A : Type 0} → (Result A × Bool) × Client → Result A × Client
put_settled ((ok id, attempted), c) = (ok id, c)
put_settled ((err e, attempted), c) = (err (write_error attempted e), drop c)

module _ (F : Floats) (E : Env) (C : Crypto) where
  -- The reply to a write.
  unfoldable pub put_reply : Options → M Wire (RecordId F)
  put_reply o = do
    p ← header C (frame_limit o)
    lift (expect p (codes "ID") 7 false)
    lift (parse_fields F (tail p))

  unfoldable pub put_request : Ctx → Options → Bytes → Bytes → Codec → M Link (RecordId F)
  put_request x o ring content codec =
      exchange E C x o (put_header ring content codec) (ring ++ content) (put_reply o)

  abbrev pub put_locked : Bytes → Bytes → Codec → Ctx → M Client (RecordId F)
  put_locked ring content codec x =
      ensure E C x 0 >> λ c. put_settled (request 0 (put_request x c.opts ring content codec) c)

  -- `(*Client).PutCodec`, on a client that `Dial` has made.
  unfoldable pub put_codec : Option Ctx → Bytes → Bytes → Codec → M Client (RecordId F)
  put_codec x ring content codec c =
      if not (is_storable c.opts ring content codec)
      then (err (sentinel input), c)
      else with_lock E x (put_locked ring content codec) c

  -- `(*Client).Put`
  unfoldable pub put : Option Ctx → Bytes → Bytes → M Client (RecordId F)
  put x ring content = put_codec x ring content Codec.raw
