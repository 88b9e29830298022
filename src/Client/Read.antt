-- ===== src/Client/Read.antt =====
-- client.go: `readOperation`, `Health`, `Get` and `Query` with their redirects.
use koutendb_go.Common.{
  ℕ, ◌-◌, Bool, ◌||◌, ◌&&◌, not, List, [], Option, none, some, Bytes, codes, str_eq, length, ltb,
  get_or, drop as drop_bytes, if◌then◌else◌,
}
use koutendb_go.Errors.{
  Failure, CtxError, sentinel, ctx, server, protocol, connection, timeout, is_kind,
}
use koutendb_go.Result.{Result, ok, err, M, ◌>>=◌, ◌>>◌, lift}
use koutendb_go.Strings.{join, has_prefix}
use koutendb_go.Uint.{bounded}
use koutendb_go.Floats.{Floats}
use koutendb_go.Identity.{RecordId}
use koutendb_go.Codec.{Payload}
use koutendb_go.Wire.{Crypto, Wire, header}
use koutendb_go.Options.{Options, frame_limit}
use koutendb_go.Environment.{Ctx, Env}
use koutendb_go.Exchange.{exchange}
use koutendb_go.Client.{Client, tick, drop, ensure}
use koutendb_go.Client.Request.{with_lock, request}
use koutendb_go.Client.Put.{tail}

-- The errors on which a read is tried again, unless the options forbid it.
unfoldable pub is_retryable : Options → Failure → Bool
is_retryable o e = not o.disable_read_retry && (is_kind e connection || is_kind e timeout)

-- A round of `readOperation` behind its call of `op`: `again` is the next round, if there is one.
abbrev pub retry_at : {A : Type 0} → Option (M Client A) → Failure → Option CtxError → M Client A
retry_at again e (some ce) c = (err (ctx ce), tick c)
retry_at none e none c = (err e, tick c)
retry_at (some again) e none c = if is_retryable c.opts e then again (tick c) else (err e, tick c)

abbrev pub after_op :
    {A : Type 0} → Ctx → Option (M Client A) → Result A × Client → Result A × Client
after_op x again (ok a, c) = (ok a, c)
after_op x again (err e, c) = retry_at again e (x.err_at c.now) (drop c)

-- The two rounds of the loop of `readOperation`.
unfoldable pub attempts : {A : Type 0} → Ctx → M Client A → M Client A
attempts x op c = after_op x (some λ c'. after_op x none (op c')) (op c)

-- `readOperation`
unfoldable pub read_operation : {A : Type 0} → Env → Option Ctx → (Ctx → M Client A) → M Client A
unfolding attempts
read_operation E x op = with_lock E x (λ x'. attempts x' (op x'))

-- The result of a request without the flag, for reads.
abbrev pub unflagged : {A : Type 0} → (Result A × Bool) × Client → Result A × Client
unflagged ((r, attempted), c) = (r, c)

-- What a reply to a read says: a payload or none, or another identity and peer to ask.
pub data Reply (F : Floats) : Type 0 where
  answered : Option Payload → Reply F
  forwarded : RecordId F → ℕ → Reply F

module _ (F : Floats) (E : Env) (C : Crypto) where
  abbrev pub last_peer : Client → ℕ
  last_peer c = length c.peers - 1

  -- The test of the fields of a health reply, and the text after "OK ".
  unfoldable pub health_fields : ℕ → List Bytes → Result Bytes
  health_fields last p =
      if str_eq (get_or p 0 []) (codes "ERR")
      then err (sentinel server)
      else if ltb (length p) 2
          || not (str_eq (get_or p 0 []) (codes "OK"))
          || not (has_prefix (get_or p 1 []) (codes "node="))
      then err (sentinel protocol)
      else elim (bounded (drop_bytes 5 (get_or p 1 [])) last) [
        | ok _ ↦ ok (join b' ' (tail p))
        | err e ↦ err e
      ]

  unfoldable pub health_reply : Options → ℕ → M Wire Bytes
  health_reply o last = do p ← header C (frame_limit o); lift (health_fields last p)

  unfoldable pub health_op : Ctx → M Client Bytes
  health_op x = ensure E C x 0 >> λ c.
      unflagged (
        request 0 (exchange E C x c.opts (codes "HEALTH") [] (health_reply c.opts (last_peer c))) c)

  -- `(*Client).Health`
  unfoldable pub health : Option Ctx → M Client Bytes
  health x = read_operation E x health_op
