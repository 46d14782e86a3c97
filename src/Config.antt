-- ===== src/Config.antt =====
-- config.go: the settings that come from the environment.
pub mod Checked
pub mod Numbers
use osb_opengauss_go.Prelude.{
  ℕ, zero, suc, ◌+◌, ◌-◌, ◌*◌, ◌^◌, ◌≡◌, Bool, true, false, ◌&&◌, ◌||◌, not, [], ◌∷◌, ◌++◌, Text,
  codes, ltb, leb, ◌==◌, if◌then◌else◌, length, List, ℤ, pos, negsuc, text_eq, quoted,
}
use osb_opengauss_go.Result.{Fault, message, Result, ok, err, ◌>>=◌, ◌>>◌, fail_if}

pub record Config : Type 0 where
  pub db_host : Text
  pub db_port : ℤ
  pub db_user : Text
  pub db_password : Text
  pub db_admin_name : Text
  pub db_sslmode : Text
  pub db_conn_timeout : ℤ
  pub plans_file : Text
  pub template_dir : Text
  pub tablespace_prefix : Text
  pub broker_username : Text
  pub broker_password : Text
  pub state_path : Text
  pub state_dsn : Text
  pub encryption_key : Text
  pub encryption_key_previous : Text
  pub name_prefix : Text
  pub host : Text
  pub port : ℤ

-- os.Getenv; an unset variable reads as the empty text
abbrev pub Environment : Type 0
Environment = Text → Text

unfoldable pub all_bytes : (ℕ → Bool) → Text → Bool
all_bytes p [] = true
all_bytes p (c ∷ s) = p c && all_bytes p s

abbrev pub is_lower : ℕ → Bool
is_lower c = leb b'a' c && leb c b'z'

abbrev pub is_upper : ℕ → Bool
is_upper c = leb b'A' c && leb c b'Z'

abbrev pub is_digit : ℕ → Bool
is_digit c = leb b'0' c && leb c b'9'

-- `^[a-z][a-z0-9_]{0,29}$`
unfoldable pub matches_name_prefix : Text → Bool
unfolding all_bytes
matches_name_prefix [] = false
matches_name_prefix (c ∷ s) =
    is_lower c && all_bytes (λ d. is_lower d || is_digit d || d == b'_') s && leb (length s) 29

-- `^[A-Za-z0-9_-]{1,32}$`
unfoldable pub matches_location_prefix : Text → Bool
unfolding all_bytes
matches_location_prefix s =
    leb 1 (length s)
    && leb (length s) 32
    && all_bytes (λ d. is_upper d || is_lower d || is_digit d || d == b'_' || d == b'-') s

-- strings.Trim(s, "/")
unfoldable pub trim_slash_left : Text → Text
trim_slash_left [] = []
trim_slash_left (c ∷ s) = let rest = trim_slash_left s in if c == b'/' then rest else c ∷ s

unfoldable pub trim_slash_right : Text → Text
trim_slash_right [] = []
trim_slash_right (c ∷ s) =
    let rest = trim_slash_right s in if c == b'/' && text_eq rest [] then [] else c ∷ rest

unfoldable pub trim_slashes : Text → Text
unfolding trim_slash_left trim_slash_right
trim_slashes s = trim_slash_right (trim_slash_left s)

-- strconv.Atoi: an optional sign, then decimal digits, within 64 bits
unfoldable pub read_digits : ℕ → Text → Result Fault ℕ
read_digits n [] = ok n
read_digits n (c ∷ s) =
    let rest = read_digits (n * 10 + (c - b'0')) s in
    if is_digit c then rest else err (message (codes "invalid syntax"))

unfoldable pub read_number : Text → Result Fault ℕ
unfolding read_digits
read_number [] = err (message (codes "invalid syntax"))
read_number (c ∷ s) = read_digits 0 (c ∷ s)

unfoldable pub negated : ℕ → ℤ
negated zero = pos 0
negated (suc n) = negsuc n

unfoldable pub atoi : Text → Result Fault ℤ
unfolding read_number negated
atoi [] = err (message (codes "invalid syntax"))
atoi (c ∷ s) =
    if c == b'-'
    then (do
      n ← read_number s
      fail_if (ltb (2 ^ 63) n) (message (codes "value out of range"))
      ok (negated n))
    else (do
      n ← read_number (if c == b'+' then s else c ∷ s)
      fail_if (leb (2 ^ 63) n) (message (codes "value out of range"))
      ok (pos n))

-- the tests at the end of LoadConfig
unfoldable pub check_config : Config → Result Fault Config
unfolding matches_location_prefix matches_name_prefix
check_config cfg = do
  fail_if (not (matches_location_prefix cfg.tablespace_prefix)) (
      message (
        codes
          "GAUSSDB_TABLESPACE_LOCATION_PREFIX must be a single path segment of 1-32 letters, digits, hyphens or underscores"))
  fail_if (not (matches_name_prefix cfg.name_prefix)) (
      message (
        codes
          "GAUSSDB_NAME_PREFIX must be 1-30 characters: a lowercase letter, then lowercase letters, digits or underscores"))
  fail_if (text_eq cfg.broker_password []) (
      message
        (codes "BROKER_PASSWORD must be set; the broker refuses to start with no API password"))
  fail_if (not (text_eq cfg.encryption_key_previous []) && text_eq cfg.encryption_key []) (
      message (
        codes
          "STATE_ENCRYPTION_KEY_PREVIOUS is set but STATE_ENCRYPTION_KEY is not; rotation needs a new key to rotate to"))
  ok cfg

module _ (environment : Environment) where
  unfoldable pub env : Text → Text → Text
  env key fallback = if text_eq (environment key) [] then fallback else environment key

  unfoldable pub parsed_or : Text → Text → Result Fault ℤ → Result Fault ℤ
  parsed_or key value (ok n) = ok n
  parsed_or key value (err e) =
      err (message (key ++ codes " must be a whole number, got " ++ quoted value))

  unfoldable pub env_int : Text → ℤ → Result Fault ℤ
  unfolding parsed_or atoi
  env_int key fallback =
      if text_eq (environment key) []
      then ok fallback
      else parsed_or key (environment key) (atoi (environment key))

  -- the literal of LoadConfig
  unfoldable pub settings : ℤ → ℤ → ℤ → Config
  unfolding env trim_slashes
  settings db_port conn_timeout broker_port = record {
    db_host = env (codes "GAUSSDB_HOST") (codes "localhost");
    db_port = db_port;
    db_user = env (codes "GAUSSDB_ADMIN_USER") (codes "gaussdb");
    db_password = environment (codes "GAUSSDB_ADMIN_PASSWORD");
    db_admin_name = env (codes "GAUSSDB_ADMIN_DB") (codes "postgres");
    db_sslmode = env (codes "GAUSSDB_SSLMODE") (codes "disable");
    db_conn_timeout = conn_timeout;
    plans_file = env (codes "GAUSSDB_PLANS_FILE") (codes "plans.toml");
    template_dir = environment (codes "TEMPLATE_DIR");
    tablespace_prefix =
        trim_slashes (env (codes "GAUSSDB_TABLESPACE_LOCATION_PREFIX") (codes "broker"));
    broker_username = env (codes "BROKER_USERNAME") (codes "broker");
    broker_password = environment (codes "BROKER_PASSWORD");
    state_path = env (codes "STATE_DB_PATH") (codes "osb-opengauss-state.db");
    state_dsn = environment (codes "STATE_DSN");
    encryption_key = environment (codes "STATE_ENCRYPTION_KEY");
    encryption_key_previous = environment (codes "STATE_ENCRYPTION_KEY_PREVIOUS");
    name_prefix = env (codes "GAUSSDB_NAME_PREFIX") (codes "gdb");
    host = env (codes "BROKER_HOST") (codes "127.0.0.1");
    port = broker_port;
  }

  unfoldable pub load_config : Result Fault Config
  unfolding env_int settings check_config
  load_config = do
    db_port ← env_int (codes "GAUSSDB_PORT") (pos 5432)
    conn_timeout ← env_int (codes "GAUSSDB_CONNECT_TIMEOUT") (pos 10)
    broker_port ← env_int (codes "BROKER_PORT") (pos 5000)
    check_config (settings db_port conn_timeout broker_port)
