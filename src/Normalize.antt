-- ===== src/Normalize.antt =====
-- options.go: `normalize`, behind which `Dial` works with defaults and within bounds.
pub mod Laws
use koutendb_go.Common.{
  ℕ, ◌+◌, ◌*◌, ◌==◌, ltb, leb, Bool, true, false, ◌&&◌, ◌||◌, not, List, [], ◌∷◌, Option, none,
  some, Bytes, codes, length, if◌then◌else◌,
}
use koutendb_go.Common.Int.{ℤ, pos, ltb_ℤ, eqb_ℤ}
use koutendb_go.Errors.{sentinel, input}
use koutendb_go.Result.{Result, ok, err, and_then}
use koutendb_go.Options.{Options, Credentials, TlsOptions}
use koutendb_go.Peers.{all_peers}

abbrev pub max_frame : ℕ
max_frame = 64 * 1024 * 1024

-- `5 * time.Second` and `time.Hour`
abbrev pub five_seconds : ℕ
five_seconds = 5000000000

abbrev pub hour : ℕ
hour = 3600000000000

-- What `tls.Config` is given besides the minimal version: the server's name, whether the checks are
-- off, and the file of the root certificates, if it is not the system's.
pub record TlsConfig : Type 0 where
  pub server_name : Bytes
  pub insecure_skip_verify : Bool
  pub root_cas : Option Bytes

abbrev pub or_default : ℕ → ℤ → ℤ
or_default d z = if eqb_ℤ z (pos 0) then pos d else z

-- The body of the loop over the timeouts.
unfoldable pub timeout : ℤ → Result ℤ
timeout z =
    let d = or_default five_seconds z in
    if ltb_ℤ d (pos 0) || ltb_ℤ (pos hour) d then err (sentinel input) else ok d

unfoldable pub within_limits : ℤ → ℤ → Bool
within_limits frame redirects = not (
    ltb_ℤ frame (pos 1)
    || ltb_ℤ (pos max_frame) frame
    || ltb_ℤ redirects (pos 0)
    || ltb_ℤ (pos 32) redirects)

abbrev pub is_blank : Bytes → Bool
is_blank [] = true
is_blank (b ∷ s) = false

-- An authentication token stands for a user name and a password.
unfoldable pub with_token : Credentials → Credentials
with_token c =
    if is_blank c.username && not (is_blank c.auth_token)
    then record c { username = codes "token"; password = c.auth_token }
    else c

unfoldable pub all_visible : Bytes → Bool
all_visible [] = true
all_visible (b ∷ s) = not (leb b 32 || b == 127) && all_visible s

abbrev pub is_field : Bytes → Bool
is_field s = not (ltb 1024 (length s)) && all_visible s

-- The tests of the credentials and the galaxy.
unfoldable pub are_allowed : Credentials → Bytes → Bool
are_allowed c galaxy =
    is_field c.username
    && is_field c.password
    && is_field galaxy
    && not (
        ltb 4096 (length c.secret_key)
        || is_blank c.username && (not (is_blank c.password) || not (is_blank c.secret_key)))

-- `trusted` says whether a file can be read and has certificates.
unfoldable pub tls_config : (Bytes → Bool) → Option TlsOptions → Result (Option TlsConfig)
tls_config trusted none = ok none
tls_config trusted (some t) =
    if is_blank t.ca_file
    then ok (
        some (record {
          server_name = t.server_name;
          insecure_skip_verify = t.insecure_skip_verify;
          root_cas = none;
        }))
    else if trusted t.ca_file
    then ok (
        some (record {
          server_name = t.server_name;
          insecure_skip_verify = t.insecure_skip_verify;
          root_cas = some t.ca_file;
        }))
    else err (sentinel input)

-- The tests behind the timeouts, and the TLS configuration.
unfoldable pub checked : (Bytes → Bool) → Options → Result (Options × Option TlsConfig)
checked trusted o =
    if within_limits o.max_frame_bytes o.max_redirects && are_allowed o.credentials o.galaxy
    then and_then (tls_config trusted o.tls) (λ t. ok (o, t))
    else err (sentinel input)

-- `normalize`. An error comes without the options, which `Dial` does not read then.
unfoldable pub normalize :
    (Bytes → Bool) → List Bytes → Options → Result (Options × Option TlsConfig)
normalize trusted peers o =
    if length peers == 0 || ltb 64 (length peers) || not (all_peers peers)
    then err (sentinel input)
    else and_then (timeout o.connect_timeout) λ connect. and_then (timeout o.read_timeout) λ read.
      and_then (timeout o.write_timeout) λ write. checked trusted (record o {
        connect_timeout = connect;
        read_timeout = read;
        write_timeout = write;
        max_frame_bytes = or_default max_frame o.max_frame_bytes;
        max_redirects = or_default 8 o.max_redirects;
        credentials = with_token o.credentials;
      })
