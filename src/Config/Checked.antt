-- ===== src/Config/Checked.antt =====
-- What `LoadConfig` guarantees of the settings it returns.
use osb_opengauss_go.Prelude.{
  ◌≡◌, ◌≢◌, refl, subst, Bool, true, false, ◌&&◌, ◌||◌, not, [], ◌∷◌, Text, arith, codes, text_eq,
  text_eq_iff, All, ◌==◌, pos,
}
use osb_opengauss_go.Result.{ok, ok-injective, bind-eq-ok, fail_if-eq-ok}
use osb_opengauss_go.Names.{is_name_byte}
use osb_opengauss_go.Names.Bounds.{IsNameByte, IsIdentifier}
use osb_opengauss_go.Config.{
  Config, Environment, all_bytes, matches_name_prefix, matches_location_prefix, env_int, settings,
  check_config, load_config, is_lower, is_digit,
}

-- Settings that the rest of the program may rely on.
pub record IsChecked (cfg : Config) : Type 0 where
  pub name_prefix : IsIdentifier 30 cfg.name_prefix
  pub location_prefix : matches_location_prefix cfg.tablespace_prefix ≡ true
  pub password : cfg.broker_password ≢ []
  pub rotation : cfg.encryption_key_previous ≢ [] → cfg.encryption_key ≢ []

not-false : (b : Bool) → not b ≡ false → b ≡ true
not-false true h = refl
not-false false h = cc

prefix_bytes :
    (s : Text) → all_bytes (λ d. is_lower d || is_digit d || d == b'_') s ≡ true → All IsNameByte s
unfolding all_bytes is_name_byte
prefix_bytes [] h = tt
prefix_bytes (c ∷ s) h = (ground arith, prefix_bytes s (ground arith))

prefix-IsIdentifier : (s : Text) → matches_name_prefix s ≡ true → IsIdentifier 30 s
unfolding matches_name_prefix
prefix-IsIdentifier [] h = absurd cc
prefix-IsIdentifier (c ∷ s) h =
    (ground arith, ground arith, prefix_bytes s (ground arith), ground arith)

check_config-IsChecked : (cfg checked : Config) → check_config cfg ≡ ok checked → IsChecked checked
unfolding check_config
check_config-IsChecked cfg checked h =
    let (location, h1) =
      fail_if-eq-ok (not (matches_location_prefix cfg.tablespace_prefix)) _ _ h in
    let (name, h2) = fail_if-eq-ok (not (matches_name_prefix cfg.name_prefix)) _ _ h1 in
    let (password, h3) = fail_if-eq-ok (text_eq cfg.broker_password []) _ _ h2 in
    let (rotation, h4) =
      fail_if-eq-ok (not (text_eq cfg.encryption_key_previous []) && text_eq cfg.encryption_key [])
        _ _ h3 in
    subst IsChecked (ok-injective h4) (record {
      name_prefix = prefix-IsIdentifier cfg.name_prefix (not-false _ name);
      location_prefix = not-false _ location;
      password = λ e. ground (arith, text_eq_iff cfg.broker_password []);
      rotation = λ previous e.
          ground
            (arith, text_eq_iff cfg.encryption_key [], text_eq_iff cfg.encryption_key_previous []);
    })

-- Whatever the environment is, settings that `LoadConfig` returns have a name prefix that is an
-- identifier of at most 30 bytes, a tablespace location prefix that is one segment of a path (1 to
-- 32 letters, digits, hyphens and underscores), a password, and, where they have a previous
-- encryption key, an encryption key.
pub load_config-IsChecked :
    (environment : Environment) (cfg : Config) → load_config environment ≡ ok cfg → IsChecked cfg
unfolding load_config
load_config-IsChecked environment cfg h =
    let (db_port, e1, h1) =
      bind-eq-ok (env_int environment (codes "GAUSSDB_PORT") (pos 5432)) _ h in
    let (conn_timeout, e2, h2) =
      bind-eq-ok (env_int environment (codes "GAUSSDB_CONNECT_TIMEOUT") (pos 10)) _ h1 in
    let (broker_port, e3, h3) =
      bind-eq-ok (env_int environment (codes "BROKER_PORT") (pos 5000)) _ h2 in
    check_config-IsChecked (settings environment db_port conn_timeout broker_port) cfg h3
