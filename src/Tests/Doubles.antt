-- ===== src/Tests/Doubles.antt =====
-- Stand-ins for the parameters of the model: whole numbers for floats, a box that is only padding, and
-- surroundings in which every write takes all bytes.
use koutendb_go.Common.{
  ℕ, refl, ap, inl, true, false, [], ◌∷◌, ◌++◌, none, some, Bytes, length, take, drop, replicate,
  ltb, All, arith,
}
use koutendb_go.Common.Int.{pos}
use koutendb_go.Decimal.{decimal, value, IsDigit}
use koutendb_go.Decimal.RoundTrip.{value-decimal, decimal-IsDigit}
use koutendb_go.Floats
use koutendb_go.Floats.{Floats, IsNumberByte}
use koutendb_go.Wire
use koutendb_go.Wire.{Crypto, Wire}
use koutendb_go.Options.{Options}
use koutendb_go.Environment.{Ctx, Env, wrote, dialed}

abbrev pub floats : Floats
floats = record {
  Float = ℕ;
  parse_float = λ s. some (value 0 s);
  format_float = decimal;
  is_nan = λ n. false;
  is_inf = λ n. false;
  is_positive = λ n. ltb 0 n;
}

digits-IsNumberByte : (s : Bytes) → All IsDigit s → All IsNumberByte s
digits-IsNumberByte [] _ = tt
digits-IsNumberByte (c ∷ s) (h, hs) = (inl h, digits-IsNumberByte s hs)

pub floats-IsLawful : Floats.IsLawful floats
floats-IsLawful = record {
  parse-format = λ n _ _. ap some (value-decimal n);
  format-IsNumberByte = λ n _ _. digits-IsNumberByte (decimal n) (decimal-IsDigit n);
}

abbrev pub padding : Bytes
padding = replicate 16 0

abbrev pub crypto : Crypto
crypto = record {
  sum256 = λ s. take 32 (s ++ replicate 32 0);
  seal = λ key nonce m. padding ++ m;
  open_box = λ key nonce box. some (drop 16 box);
}

pub crypto-IsLawful : Wire.IsLawful crypto
crypto-IsLawful = record {
  open_box-seal = λ key nonce m. refl;
  length-seal = λ key nonce m. omega arith;
}

abbrev pub some_nonce : Bytes
some_nonce = replicate 24 7

abbrev pub plain_wire : Bytes → Wire
plain_wire s = record {
  inbox = s;
  ends = false;
  outbox = [];
  is_open = true;
  key = none;
  plain = [];
}

abbrev pub sealed_wire : Bytes → Wire
sealed_wire s = record {
  inbox = s;
  ends = false;
  outbox = [];
  is_open = true;
  key = some (replicate 32 1);
  plain = [];
}

abbrev pub env : Env
env = record {
  time = λ n. n;
  nonce = λ n. some some_nonce;
  set_deadline = λ n t. none;
  write = λ n s. wrote (length s);
  done_first = λ n. false;
  dial = λ node n. dialed (plain_wire []);
}

abbrev pub context : Ctx
context = record { err_at = λ n. none; due = none }

abbrev pub options : Options
options = record {
  connect_timeout = pos 5;
  read_timeout = pos 5;
  write_timeout = pos 5;
  max_frame_bytes = pos 64;
  max_redirects = pos 3;
  disable_read_retry = false;
  credentials = record { username = []; password = []; auth_token = []; secret_key = [] };
  galaxy = [];
  tls = none;
}
