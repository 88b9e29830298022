-- ===== src/Options.antt =====
-- options.go: `Credentials`, `TLSOptions` and `Options`, with what is printed of them.
use koutendb_go.Common.{ℕ, Bool, Option, Bytes, codes}
use koutendb_go.Common.Int.{ℤ, pos_part}

pub record Credentials : Type 0 where
  pub username : Bytes
  pub password : Bytes
  pub auth_token : Bytes
  pub secret_key : Bytes

pub record TlsOptions : Type 0 where
  pub ca_file : Bytes
  pub server_name : Bytes
  pub insecure_skip_verify : Bool

-- Durations are in nanoseconds.
pub record Options : Type 0 where
  pub connect_timeout : ℤ
  pub read_timeout : ℤ
  pub write_timeout : ℤ
  pub max_frame_bytes : ℤ
  pub max_redirects : ℤ
  pub disable_read_retry : Bool
  pub credentials : Credentials
  pub galaxy : Bytes
  pub tls : Option TlsOptions

-- The limits that a client works with, which are not negative once the options are normalized.
abbrev pub frame_limit : Options → ℕ
frame_limit o = pos_part o.max_frame_bytes

abbrev pub redirect_limit : Options → ℕ
redirect_limit o = pos_part o.max_redirects

-- `Credentials.String`, `Credentials.GoString` and `Credentials.MarshalJSON`
unfoldable pub credentials_string : Credentials → Bytes
credentials_string c = codes "Credentials([REDACTED])"

unfoldable pub credentials_go_string : Credentials → Bytes
credentials_go_string c = credentials_string c

unfoldable pub credentials_json : Credentials → Bytes
credentials_json c = codes "\"[REDACTED]\""

-- `Options.String`, `Options.GoString` and `Options.MarshalJSON`
unfoldable pub options_string : Options → Bytes
options_string o = codes "Options([REDACTED])"

unfoldable pub options_go_string : Options → Bytes
options_go_string o = options_string o

unfoldable pub options_json : Options → Bytes
options_json o = codes "\"[REDACTED]\""
