-- ===== src/Tests/Functions.antt =====
-- The theorems about functions, each at an input.
use osb_opengauss_go.Prelude.{
  List, All, has_prefix, join, map, ℕ, zero, suc, text_eq, contains, ◌≡◌, ◌≢◌, refl, [], ◌∷◌, ◌++◌,
  Text, codes, arith, some, true, pos, format_int, inl, inr,
}
use osb_opengauss_go.Result.{ok}
use osb_opengauss_go.Names.{is_name_byte, Names, names_for, user_for, quote_literal, quote_ident}
use osb_opengauss_go.Names.Bounds.{IsIdentifier}
use osb_opengauss_go.Names.Identifiers.{names_for-IsIdentifier, user_for-IsIdentifier}
use osb_opengauss_go.Names.Quoting.{read_token, read-quote_literal, read-quote_ident}
use osb_opengauss_go.Names.Password.{byte_at, random_password}
use osb_opengauss_go.Names.Strength.{Any, IsUpper, IsStrong, random_password-IsStrong}
use osb_opengauss_go.Names.Rounds.{
  IsMixed, Draws, drawn_all, drawn, Rounds, last, more, random_password_returns,
}
use osb_opengauss_go.Encrypt.{gcm_encryptor, new_encryptor}
use osb_opengauss_go.Encrypt.RoundTrip.{IsFaithful, new_encryptor-IsFaithful}
use osb_opengauss_go.Value.{get_field, end, field, number}
use osb_opengauss_go.Params.{InstanceParams, resolve_instance_params}
use osb_opengauss_go.Params.Bounds.{IsWithin, resolve-IsWithin}
use osb_opengauss_go.Plans.{load_catalog, is_uuid}
use osb_opengauss_go.Plans.Checked.{AreOffered, load_catalog-AreOffered}
use osb_opengauss_go.Config.{load_config, Environment, env_int}
use osb_opengauss_go.Config.Checked.{IsChecked, load_config-IsChecked}
use osb_opengauss_go.Broker.{int_eq}
use osb_opengauss_go.Tests.Sample.{
  varied, zeros, sample_hash, sample_source, sample_gcm, sample_float, sample_plan,
  sample-HasQuotas, sample_toml, sample_catalog, sample_environment, sample_config,
}
use osb_opengauss_go.Templates.{is_space, split_sql}
use osb_opengauss_go.Templates.Lines.{sentence}
use osb_opengauss_go.Templates.Split.{Item, script, IsItem, split_sql-script}
use osb_opengauss_go.Config.Numbers.{env_int-format_int}

abbrev prefix : Text
prefix = codes "gdb"

prefix-IsIdentifier : IsIdentifier 30 prefix
unfolding is_name_byte
prefix-IsIdentifier = (omega arith, omega arith, (refl, (refl, tt)), omega arith)

names_for-IsIdentifier_example :
    (n : Names) × (names_for sample_hash (codes "instance-1") prefix (codes "My Shop!") ≡ ok n)
    × IsIdentifier 63 n.database
    × IsIdentifier 63 n.group_role
    × IsIdentifier 63 n.tablespace
names_for-IsIdentifier_example =
    names_for-IsIdentifier sample_hash (codes "instance-1") prefix (codes "My Shop!")
      prefix-IsIdentifier

user_for-IsIdentifier_example :
    (u : Text) × (user_for sample_hash (codes "binding-1") prefix [] ≡ ok u) × IsIdentifier 63 u
user_for-IsIdentifier_example =
    user_for-IsIdentifier sample_hash (codes "binding-1") prefix [] prefix-IsIdentifier

read-quote_literal_example :
    (body : Text) × (quote_literal (codes "it's") ≡ b'\'' ∷ body)
    × (read_token b'\'' (body ++ codes ";") ≡ some (codes "it's", codes ";"))
read-quote_literal_example =
    read-quote_literal (codes "it's") (codes ";") (λ e. absurd (omega arith))

read-quote_ident_example :
    (body : Text) × (quote_ident (codes "a\"b") ≡ b'"' ∷ body)
    × (read_token b'"' (body ++ codes " OWNER") ≡ some (codes "a\"b", codes " OWNER"))
read-quote_ident_example =
    read-quote_ident (codes "a\"b") (codes " OWNER") (λ e. absurd (omega arith))

abbrev letters : ℕ → Text
letters zero = []
letters (suc k) = b'a' ∷ letters k

abbrev password : Text
password = b'A' ∷ b'a' ∷ b'0' ∷ b'!' ∷ letters 24

letters-Draws : (k : ℕ) (s : Text) → Draws sample_source s k (letters k) (zeros k ++ s)
unfolding byte_at
letters-Draws zero s = drawn_all
letters-Draws (suc k) s = drawn 0 refl (letters-Draws k s)

varied-Draws : Draws sample_source [] 28 password varied
unfolding byte_at
varied-Draws = drawn 26 refl (drawn 0 refl (drawn 52 refl (drawn 62 refl (letters-Draws 24 []))))

none-IsUpper : (k : ℕ) → ¬ (Any IsUpper (letters k))
none-IsUpper zero h = h
none-IsUpper (suc k) (inl (low, high)) = omega arith
none-IsUpper (suc k) (inr later) = none-IsUpper k later

password-IsMixed : IsMixed password
password-IsMixed = (
  inl (omega arith, omega arith),
  inr (inl (omega arith, omega arith)),
  inr (inr (inl (omega arith, omega arith))),
  inr (inr (inr (inl (λ h. omega arith, λ h. omega arith, λ h. omega arith)))),
)

two-Rounds : Rounds sample_source password [] 2 (zeros 28 ++ varied)
two-Rounds =
    more (letters 28) (letters-Draws 28 varied) (λ h. none-IsUpper 28 h.0)
      (last varied-Draws password-IsMixed)

random_password_returns_example :
    random_password sample_source 5 (zeros 28 ++ varied) ≡ (ok password, [])
random_password_returns_example =
    random_password_returns sample_source 5 2 (zeros 28 ++ varied) [] password two-Rounds
      (omega arith)

returned : (random_password sample_source 5 varied).0 ≡ ok password
unfolding random_password
returned = refl

random_password-IsStrong_example : IsStrong password
random_password-IsStrong_example = random_password-IsStrong sample_source 5 varied password returned

-- 32 zero bytes
abbrev key_setting : Text
key_setting = codes "AAAAAAAAAAAAAAAAAAAAAAAAAAAAAAAAAAAAAAAAAAA="

abbrev key : Text
key =
    0 ∷ 0 ∷ 0 ∷ 0 ∷ 0 ∷ 0 ∷ 0 ∷ 0 ∷ 0 ∷ 0 ∷ 0 ∷ 0 ∷ 0 ∷ 0 ∷ 0 ∷ 0 ∷ 0 ∷ 0 ∷ 0 ∷ 0 ∷ 0 ∷ 0 ∷ 0 ∷ 0
    ∷ 0 ∷ 0 ∷ 0 ∷ 0 ∷ 0 ∷ 0 ∷ 0 ∷ 0 ∷ []

key_accepted :
    new_encryptor sample_gcm sample_source key_setting
    ≡ ok (gcm_encryptor sample_gcm sample_source key)
unfolding new_encryptor
key_accepted = refl

new_encryptor-IsFaithful_example : IsFaithful (gcm_encryptor sample_gcm sample_source key)
new_encryptor-IsFaithful_example =
    new_encryptor-IsFaithful sample_gcm sample_source key_setting
      (gcm_encryptor sample_gcm sample_source key) key_accepted

abbrev resolved : InstanceParams
resolved = record {
  name = [];
  compatibility = codes "PG";
  encoding = codes "UTF8";
  max_connections = pos 20;
  storage_gb = pos 3;
}

resolves :
    resolve_instance_params sample_float sample_plan
      (field (codes "storage_gb") (number (pos 3)) end)
    ≡ ok resolved
unfolding resolve_instance_params get_field text_eq int_eq
resolves = refl

resolve-IsWithin_example : IsWithin sample_plan resolved
resolve-IsWithin_example =
    resolve-IsWithin sample_float sample_plan (field (codes "storage_gb") (number (pos 3)) end)
      resolved sample-HasQuotas resolves

loads : load_catalog sample_toml (codes "plans.toml") ≡ ok sample_catalog
unfolding load_catalog text_eq contains
loads = refl

load_catalog-AreOffered_example :
    (is_uuid sample_catalog.service.service_id ≡ true)
    × (sample_catalog.plans ≢ [])
    × AreOffered sample_catalog.plans
load_catalog-AreOffered_example =
    load_catalog-AreOffered sample_toml (codes "plans.toml") sample_catalog loads

configured : load_config sample_environment ≡ ok sample_config
unfolding load_config text_eq
configured = refl

load_config-IsChecked_example : IsChecked sample_config
load_config-IsChecked_example = load_config-IsChecked sample_environment sample_config configured

abbrev some_names : Names
some_names = record {
  database = codes "gdb_a";
  group_role = codes "gdb_a_role";
  tablespace = codes "gdb_a_ts";
}

abbrev two_items : List Item
two_items =
    record {
      skipped = codes "-- update.sql; it is executed" ∷ [] ∷ [];
      words = codes "GRANT" ∷ codes "a" ∷ codes "TO" ∷ codes "b" ∷ [];
    }
    ∷ record { skipped = [] ∷ []; words = codes "DROP" ∷ codes "x" ∷ [] }
    ∷ []

two_items-IsItem : All IsItem two_items
unfolding has_prefix is_space join
two_items-IsItem = ground arith

split_sql-script_example : split_sql (script two_items) ≡ map (λ i. sentence i.words) two_items
split_sql-script_example = split_sql-script two_items two_items-IsItem

abbrev port_environment : Environment
port_environment _ = format_int (pos 15432)

env_int-format_int_example :
    env_int port_environment (codes "GAUSSDB_PORT") (pos 5432) ≡ ok (pos 15432)
env_int-format_int_example =
    env_int-format_int port_environment (codes "GAUSSDB_PORT") (pos 15432) (pos 5432) refl
      (omega arith)
