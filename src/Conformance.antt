-- ===== src/Conformance.antt =====
-- cmd/conformance/main.go: the command that answers requests in JSON lines with a client.
pub mod Session
pub mod Names
pub mod Gate
pub mod Made
pub mod Laws
use koutendb_go.Common.{
  Bool, true, false, ◌&&◌, not, List, [], ◌∷◌, Option, none, some, Bytes, codes, str_eq,
  if◌then◌else◌,
}
use koutendb_go.Common.Int.{ℤ}
use koutendb_go.Errors.{
  Failure, Kind, sentinel, indeterminate, authentication, protocol, version, timeout, connection,
  server, is_kind,
}
use koutendb_go.Floats.{Floats}
use koutendb_go.Json.{Json}
use koutendb_go.Options.{Options, Credentials, TlsOptions}
use koutendb_go.Client.{Client}
use koutendb_go.Environment.{Ctx}

-- `context.Background()`
abbrev pub background : Ctx
background = record { err_at = λ n. none; due = none }

-- The table of `kind`.
abbrev names : List (Kind × Bytes)
names =
    (indeterminate, codes "IndeterminateWriteException")
    ∷ (authentication, codes "AuthenticationException")
    ∷ (protocol, codes "ProtocolException")
    ∷ (version, codes "VersionMismatchException")
    ∷ (timeout, codes "ConnectionTimeoutException")
    ∷ (connection, codes "ConnectionException")
    ∷ (server, codes "ServerException")
    ∷ []

unfoldable pub first_name : List (Kind × Bytes) → Failure → Bytes
first_name [] e = codes "InvalidInputException"
first_name ((k, name) ∷ ps) e = if is_kind e k then name else first_name ps e

-- `kind`
unfoldable pub kind : Failure → Bytes
kind e = first_name names e

module _ (F : Floats) where
  -- `options`
  pub record Settings : Type 0 where
    pub timeout : F.Float
    pub read_timeout : F.Float
    pub write_timeout : F.Float
    pub max_frame_bytes : ℤ
    pub max_redirects : ℤ
    pub retry_reads : Option Bool
    pub username : Bytes
    pub password : Bytes
    pub auth_token : Bytes
    pub secret_key : Bytes
    pub galaxy : Bytes
    pub tls : Bool
    pub tls_ca_file : Bytes
    pub tls_server_name : Bytes
    pub tls_insecure_skip_verify : Bool

  -- `request`
  pub record Request (Value : Type 0) : Type 0 where
    pub op : Bytes
    pub ring : Bytes
    pub id : Bytes
    pub payload : Bytes
    pub codec : Bytes
    pub selection : Bytes
    pub peers : List Bytes
    pub value : Value
    pub options : Settings
    pub timeout : F.Float
    pub read_timeout : F.Float
    pub write_timeout : F.Float

-- What `run` returns beside a nil error, by what it is made from.
pub data Answer (Target : Type 0) : Type 0 where
  nothing : Answer Target
  text : Bytes → Answer Target
  stored : Bytes → Bytes → Answer Target
  document : Target → Answer Target

-- A line of the output.
pub data Response (Target : Type 0) : Type 0 where
  success : Answer Target → Response Target
  failure : Bytes → Bytes → Response Target

-- What the command uses of the language and of the standard library: arithmetic on float64, the base64
-- and JSON packages, and the texts of errors that are not the driver's.
pub record Platform (F : Floats) (J : Json) : Type 0 where
  pub is_zero : F.Float → Bool
  pub one : F.Float
  pub times : F.Float → F.Float → F.Float
  -- `float64(time.Second)`
  pub second : F.Float
  -- the conversion of a float64 to an int64
  pub truncate : F.Float → ℤ
  pub decode_base64 : Bytes → Option Bytes
  pub encode_base64 : Bytes → Bytes
  -- the texts of errors of other packages
  pub error_text : Failure → Bytes
  pub read_request : Bytes → Option (Request F J.Value)
  -- `var v json.RawMessage`
  pub empty_message : J.Target
  -- whether `out.Encode` succeeds
  pub encodes : Response J.Target → Bool
  -- whether the file of certificates can be used
  pub trusted : Bytes → Bool

module _ {F : Floats} {J : Json} (P : Platform F J) where
  -- `duration`
  abbrev duration : F.Float → ℤ
  duration s = P.truncate (P.times s P.second)

  -- A timeout of the request, else one of its options, else a second.
  unfoldable pub chosen : F.Float → F.Float → F.Float
  chosen own general =
      let t = if P.is_zero own then general else own in if P.is_zero t then P.one else t

  abbrev denied : Option Bool → Bool
  denied none = false
  denied (some b) = not b

  -- The options of a client.
  unfoldable pub settings : Request F J.Value → Options
  settings r =
      let o = r.options in
      record {
        connect_timeout = duration (chosen r.timeout o.timeout);
        read_timeout = duration (chosen r.read_timeout o.read_timeout);
        write_timeout = duration (chosen r.write_timeout o.write_timeout);
        max_frame_bytes = o.max_frame_bytes;
        max_redirects = o.max_redirects;
        disable_read_retry = denied o.retry_reads;
        credentials = record {
          username = o.username;
          password = o.password;
          auth_token = o.auth_token;
          secret_key = o.secret_key;
        };
        galaxy = o.galaxy;
        tls =
            if o.tls
            then some (record {
              ca_file = o.tls_ca_file;
              server_name = o.tls_server_name;
              insecure_skip_verify = o.tls_insecure_skip_verify;
            })
            else none;
      }
