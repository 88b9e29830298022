-- ===== src/Conformance/Names.antt =====
-- The names that the command gives to errors.
use koutendb_go.Common.{
  Bool, true, false, ◌&&◌, ◌||◌, ◌≡◌, refl, ◌∙◌, not, Bytes, codes, str_eq, if◌then◌else◌, arith,
}
use koutendb_go.Errors.{
  Failure, wrap, is_kind, indeterminate, server, authentication, protocol, version, timeout,
  connection, matches,
}
use koutendb_go.Client.Put.{write_error}
use koutendb_go.Conformance.{kind, first_name}

abbrev unknown_outcome : Bytes
unknown_outcome = codes "IndeterminateWriteException"

names_other :
    (a p v t c s : Bool)
    → str_eq
        (if a
          then codes "AuthenticationException"
          else if p
          then codes "ProtocolException"
          else if v
          then codes "VersionMismatchException"
          else if t
          then codes "ConnectionTimeoutException"
          else if c
          then codes "ConnectionException"
          else if s
          then codes "ServerException"
          else codes "InvalidInputException")
        unknown_outcome
      ≡ false
unfolding str_eq
names_other true p v t c s = refl
names_other false true v t c s = refl
names_other false false true t c s = refl
names_other false false false true c s = refl
names_other false false false false true s = refl
names_other false false false false false true = refl
names_other false false false false false false = refl

kind_indeterminate : (e : Failure) → str_eq (kind e) unknown_outcome ≡ is_kind e indeterminate
unfolding kind first_name str_eq
kind_indeterminate e = go _ (is_kind e indeterminate) (
    names_other (is_kind e authentication) (is_kind e protocol) (is_kind e version)
      (is_kind e timeout) (is_kind e connection) (is_kind e server))
  where
    go :
        (x : Bytes) (b : Bool)
        → str_eq x unknown_outcome ≡ false
        → str_eq (if b then unknown_outcome else x) unknown_outcome ≡ b
    go x true h = refl
    go x false h = h

-- The conformance command names a failed write IndeterminateWriteException exactly if its error was one
-- already, or the request had begun to be sent and the error is neither ErrServer nor
-- ErrAuthentication.
pub kind-write_error :
    (attempted : Bool) (e : Failure)
    → str_eq (kind (write_error attempted e)) (codes "IndeterminateWriteException") ≡ (
        is_kind e indeterminate
        || (attempted && (not (is_kind e server) && not (is_kind e authentication))))
unfolding is_kind matches
kind-write_error attempted e =
    kind_indeterminate (write_error attempted e)
    ∙ go attempted (not (is_kind e server) && not (is_kind e authentication))
  where
    go :
        (a b : Bool)
        → is_kind (if a && b then wrap indeterminate e else e) indeterminate
          ≡ (is_kind e indeterminate || (a && b))
    go true true = ground arith
    go true false = ground arith
    go false b = ground arith
