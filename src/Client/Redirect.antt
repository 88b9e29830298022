-- ===== src/Client/Redirect.antt =====
-- client.go: `read` behind `Get` and `Query`: a lookup that follows the servers' redirects.
use koutendb_go.Common.{
  ℕ, zero, suc, Bool, true, false, ◌||◌, ◌&&◌, not, List, [], ◌∷◌, ◌++◌, Option, none, some, Bytes,
  codes, str_eq, length, ltb, get_or, ◌==◌, take, if◌then◌else◌,
}
use koutendb_go.Errors.{sentinel, input, protocol}
use koutendb_go.Result.{ok, err, M, ◌>>=◌, ◌>>◌, pure, lift, guard}
use koutendb_go.Decimal.{decimal}
use koutendb_go.Strings.{replace_all}
use koutendb_go.Uint.{bounded}
use koutendb_go.Floats.{Floats}
use koutendb_go.Identity.{RecordId, parse_fields, valid, to_string}
use koutendb_go.Codec
use koutendb_go.Codec.{Payload}
use koutendb_go.Wire.{Crypto, Wire, header, bytes, expect}
use koutendb_go.Options.{Options, frame_limit, redirect_limit}
use koutendb_go.Environment.{Ctx, Env}
use koutendb_go.Exchange.{exchange}
use koutendb_go.Client.{Client, ensure}
use koutendb_go.Client.Request.{request}
use koutendb_go.Client.Put.{tail}
use koutendb_go.Client.Read.{Reply, answered, forwarded, read_operation, unflagged, last_peer}

-- The text of the selection, if there is one.
abbrev pub within_limit : Options → Option Bytes → Bool
within_limit o none = true
within_limit o (some s) = not (ltb (frame_limit o) (length s))

module _ (F : Floats) (E : Env) (C : Crypto) where
  abbrev pub fields_text : RecordId F → Bytes
  fields_text id = replace_all b':' b' ' (to_string F id)

  -- "GETID %s", or "QRYID %s %d" with the selection as the body.
  abbrev pub read_header : RecordId F → Option Bytes → Bytes
  read_header id none = codes "GETID " ++ fields_text id
  read_header id (some s) = codes "QRYID " ++ (fields_text id ++ (b' ' ∷ decimal (length s)))

  abbrev pub read_body : Option Bytes → Bytes
  read_body none = []
  read_body (some s) = s

  -- The peer that a redirect names, or the one that was asked.
  abbrev pub named_peer : ℕ → ℕ → List Bytes → M Wire ℕ
  named_peer last node p w =
      if length p == 8 then (bounded (get_or p 7 []) last, w) else (ok node, w)

  -- `case "FWD"`, where `left` redirects may still follow.
  unfoldable pub redirect_reply : ℕ → ℕ → ℕ → List Bytes → M Wire (Reply F)
  redirect_reply last left node p = do
    guard (not (left == 0 || not (length p == 7) && not (length p == 8))) (sentinel protocol)
    id ← lift (parse_fields F (take 6 (tail p)))
    peer ← named_peer last node p
    pure (forwarded id peer)

  -- `default`: a value, whose body follows its header.
  unfoldable pub value_reply : Options → ℕ → List Bytes → M Wire (Reply F)
  value_reply o last p = do
    lift (expect p (codes "VAL") 4 false)
    lift (bounded (get_or p 1 []) last)
    n ← lift (bounded (get_or p 2 []) (frame_limit o))
    guard (Codec.valid (get_or p 3 [])) (sentinel protocol)
    b ← bytes C n (frame_limit o)
    pure (answered (some (record { content = b; codec = get_or p 3 [] })))

  -- `case "MISS", "GONE"`
  abbrev pub absent_reply : Bytes → List Bytes → M Wire (Reply F)
  absent_reply tag p = do lift (expect p tag 1 false); pure (answered none)

  -- The switch on the first field.
  unfoldable pub dispatch : Options → ℕ → ℕ → ℕ → List Bytes → M Wire (Reply F)
  dispatch o last left node p w =
      let tag = get_or p 0 [] in
      if str_eq tag (codes "MISS") || str_eq tag (codes "GONE")
      then absent_reply tag p w
      else if str_eq tag (codes "FWD")
      then redirect_reply last left node p w
      else value_reply o last p w

  unfoldable pub read_reply : Options → ℕ → ℕ → ℕ → M Wire (Reply F)
  read_reply o last left node = header C (frame_limit o) >>= dispatch o last left node

  -- One hop: a request to the peer for the identity.
  unfoldable pub hop : Ctx → Option Bytes → ℕ → ℕ → RecordId F → M Client (Reply F)
  hop x selection left node id = ensure E C x node >> λ c. unflagged (
      request node
        (exchange E C x c.opts (read_header id selection) (read_body selection)
          (read_reply c.opts (last_peer F E C c) left node))
        c)

  -- What follows a hop: the payload, or the next hop.
  abbrev pub next_hop :
      (ℕ → RecordId F → M Client (Option Payload)) → Reply F → M Client (Option Payload)
  next_hop again (answered p) c = (ok p, c)
  next_hop again (forwarded id node) c = again node id c

  -- The loop over the hops, with the redirects that are left. A redirect at the last hop falls out of
  -- the loop, to the return behind it.
  unfoldable pub follow : Ctx → Option Bytes → ℕ → ℕ → RecordId F → M Client (Option Payload)
  follow x selection zero node id =
      hop x selection 0 node id >>= next_hop (λ _ _ c. (err (sentinel protocol), c))
  follow x selection (suc left) node id =
      hop x selection (suc left) node id >>= next_hop (follow x selection left)

  abbrev pub lookup_op : Option Bytes → RecordId F → Ctx → M Client (Option Payload)
  lookup_op selection id x c = follow x selection (redirect_limit c.opts) 0 id c

  -- `(*Client).read`, on a client that `Dial` has made.
  unfoldable pub read : Option Ctx → RecordId F → Option Bytes → M Client (Option Payload)
  read x id selection c =
      if not (valid F id) || not (within_limit c.opts selection)
      then (err (sentinel input), c)
      else read_operation E x (lookup_op selection id) c

  -- `(*Client).Get` and `(*Client).Query`; no payload stands for MISS and GONE.
  unfoldable pub get : Option Ctx → RecordId F → M Client (Option Payload)
  get x id = read x id none

  unfoldable pub query : Option Ctx → RecordId F → Bytes → M Client (Option Payload)
  query x id selection = read x id (some selection)
