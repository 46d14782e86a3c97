-- ===== src/Tests/Program.antt =====
-- The start of the program, the driver and the state database at concrete inputs.
use osb_opengauss_go.Prelude.{
  ◌⊎◌, ◌≢◌, ℤ, pos, ◌≡◌, ◌≢◌, refl, subst, false, Option, some, List, [], ◌∷◌, ◌++◌, Text, codes,
  text_eq, if◌then◌else◌, has_prefix, contains, format_int, arith, All, ◌<◌,
}
use osb_opengauss_go.Result.{Fault, external, Result, ok, err, ok-injective}
use osb_opengauss_go.World.{World}
use osb_opengauss_go.Base64
use osb_opengauss_go.Encrypt.{noop_encryptor}
use osb_opengauss_go.Config.{Config, Environment, settings}
use osb_opengauss_go.Table.{IsTable}
use osb_opengauss_go.State.Rotate.Progress.{IsColumn}
use osb_opengauss_go.Table.Memory.{Memory, lookup, memory_row, memory_table, memory_table-IsTable}
use osb_opengauss_go.State.{InstanceRecord, BindingRecord}
use osb_opengauss_go.State.Open.{Tables, Host, open_store}
use osb_opengauss_go.State.Open.Files.{IsPrivate}
use osb_opengauss_go.State.Open.Opened.{IsRemote, open_store-IsOpened}
use osb_opengauss_go.Driver.{Server, exec, database_or_admin, conn_url}
use osb_opengauss_go.Driver.Calls.{Outcome, exec-Outcome}
use osb_opengauss_go.Driver.Address.{read_address, read_address-conn_url, query_of}
use osb_opengauss_go.Startup.{Platform, Opened, serving, open_all, http_server, main, healthz}
use osb_opengauss_go.Startup.Ready.{IsReady, main-IsReady}
use osb_opengauss_go.Startup.Rotation.{HasBindings, IsMoved, main-IsMoved}
use osb_opengauss_go.Startup.Health.{Probe, healthz-Probe}
use osb_opengauss_go.Driver.{new_db}
use osb_opengauss_go.Tests.Column.{set_credentials, set_credentials-IsColumn}
use osb_opengauss_go.Tests.Sample.{
  sample_gcm, sample_source, sample-IsByteCipher, sample_store, sample_toml, sample_admin,
  sample_broker, sample_json, sample_float, sample_hash, sample_config, sample_catalog,
}
use osb_opengauss_go.Tests.Rotation.{
  new_setting, old_setting, new_key, old_record, stored_binding, stored_under, keyed_store,
}

-- the environment of a broker whose key has changed
abbrev rotating_environment : Environment
rotating_environment key =
    if text_eq key (codes "BROKER_PASSWORD")
    then codes "secret"
    else if text_eq key (codes "STATE_ENCRYPTION_KEY")
    then new_setting
    else if text_eq key (codes "STATE_ENCRYPTION_KEY_PREVIOUS")
    then old_setting
    else []

abbrev rotating_config : Config
rotating_config = settings rotating_environment (pos 5432) (pos 10) (pos 5000)

abbrev sample_tables : Tables (Memory InstanceRecord) (Memory BindingRecord)
sample_tables = record {
  instances = sample_store.instances;
  bindings = sample_store.bindings;
  set_credentials = sample_store.set_credentials;
}

-- a host that logs the statements and the files that it restricts
abbrev sample_host : Host (List Text) (Memory InstanceRecord) (Memory BindingRecord)
sample_host = record {
  sql_open = λ dsn log. (ok tt, log);
  gorm_open = λ dialector log. (ok sample_tables, log);
  exec = λ ddl log. (ok tt, ddl ∷ log);
  chmod = λ path mode log. (ok tt, path ∷ log);
  handle = λ log. (ok tt, log);
  close_handle = λ log. (ok tt, log);
}

-- a server that logs, and that knows no statement but the one
abbrev sample_server : Server Text (List Text)
sample_server = record {
  connect = λ url log. (ok url, url ∷ log);
  run = λ conn statement log. (
    if text_eq statement (codes "SELECT 1") then ok tt else err (external (codes "syntax error")),
    statement ∷ log,
  );
  query_one = λ conn query log. (ok tt, query ∷ log);
  close = λ conn log. codes "close" ∷ log;
  is_no_rows = λ e. false;
}

abbrev sample_platform :
    Platform (List Text) Text ℤ (Memory InstanceRecord) (Memory BindingRecord) (List Text) Text
sample_platform = record {
  environment = rotating_environment;
  toml = sample_toml;
  gcm = sample_gcm;
  source = sample_source;
  attempts = 4;
  host = sample_host;
  contents =
      λ log. (record { rows = []; faults = [] }, record { rows = old_record ∷ []; faults = [] });
  server = sample_server;
  files = sample_admin.files;
  json = sample_json;
  schemas = sample_broker.schemas;
  float = sample_float;
  hash = sample_hash;
}

abbrev bindings_row : Memory BindingRecord → Text → Option BindingRecord
bindings_row = memory_row (λ r. r.binding_id) (λ r. r.instance_id)

same_tables :
    (t : Tables (Memory InstanceRecord) (Memory BindingRecord))
    → ◌≡◌ {A = Result Fault (Tables (Memory InstanceRecord) (Memory BindingRecord))}
        (ok sample_tables)
        (ok t)
    → sample_tables ≡ t
same_tables t h = ok-injective h

sample-HasBindings : HasBindings sample_platform bindings_row
sample-HasBindings = record {
  table = λ dialector d tables h.
      subst
        (λ (t : Tables (Memory InstanceRecord) (Memory BindingRecord)).
          IsTable (λ r. r.binding_id) (λ r. r.instance_id) bindings_row t.bindings)
        (same_tables tables h) (memory_table-IsTable (λ r. r.binding_id) (λ r. r.instance_id));
  column = λ dialector d tables h.
      subst
        (λ (t : Tables (Memory InstanceRecord) (Memory BindingRecord)).
          IsColumn bindings_row t.set_credentials)
        (same_tables tables h) set_credentials-IsColumn;
}

exec-Outcome_example :
    Outcome sample_server sample_config
      (codes "gdb_a")
      (codes "SELECT 1" ∷ codes "SELEC" ∷ codes "SELECT 1" ∷ [])
      []
      (exec sample_server sample_config
        (codes "gdb_a")
        (codes "SELECT 1" ∷ codes "SELEC" ∷ codes "SELECT 1" ∷ [])
        []).1
      (exec sample_server sample_config
        (codes "gdb_a")
        (codes "SELECT 1" ∷ codes "SELEC" ∷ codes "SELECT 1" ∷ [])
        []).0
exec-Outcome_example =
    exec-Outcome sample_server sample_config (codes "gdb_a")
      (codes "SELECT 1" ∷ codes "SELEC" ∷ codes "SELECT 1" ∷ []) []

healthz-Probe_example :
    Probe sample_server sample_config []
      (healthz (new_db sample_server sample_config) []).1
      (healthz (new_db sample_server sample_config) []).0
healthz-Probe_example = healthz-Probe sample_server sample_config []

abbrev some_log : List Text
some_log = codes "boot" ∷ []

opened_in_file :
    (open_store sample_host sample_config sample_json (noop_encryptor {R = Text}) some_log).0
    ≡ ok sample_store
unfolding open_store text_eq settings
opened_in_file = refl

in_file : sample_config.state_dsn ≡ []
unfolding settings text_eq
in_file = refl

open_store-IsOpened_example :
    (sample_store.encryptor ≡ noop_encryptor)
    × (((sample_config.state_dsn ≡ [])
          × IsPrivate sample_host sample_config some_log
              (open_store sample_host sample_config sample_json
                (noop_encryptor {R = Text})
                some_log).1)
        ⊎ ((sample_config.state_dsn ≢ [])
            × IsRemote sample_host sample_config.state_dsn some_log
                (open_store sample_host sample_config sample_json
                  (noop_encryptor {R = Text})
                  some_log).1))
open_store-IsOpened_example =
    open_store-IsOpened sample_host sample_config sample_json (noop_encryptor {R = Text}) some_log
      sample_store opened_in_file

abbrev odd_config : Config
odd_config = record sample_config { db_user = codes "a:b"; db_password = codes "p@ss/w?" }

odd_host : All (λ b. b < 256) odd_config.db_host
unfolding settings text_eq
odd_host = omega arith

odd_name :
    All (λ b. b < 256) (database_or_admin odd_config (codes "gdb_a"))
    × (database_or_admin odd_config (codes "gdb_a") ≢ [])
    × (has_prefix (database_or_admin odd_config (codes "gdb_a")) (codes "/") ≡ false)
unfolding database_or_admin text_eq has_prefix
odd_name = (omega arith, (λ e. cc), refl)

read_address-conn_url_example : read_address (conn_url odd_config (codes "gdb_a")) ≡ record {
  user = codes "a:b";
  password = codes "p@ss/w?";
  host_port = odd_config.db_host ++ (codes ":" ++ format_int odd_config.db_port);
  database = database_or_admin odd_config (codes "gdb_a");
  query = query_of odd_config;
}
read_address-conn_url_example =
    read_address-conn_url odd_config (codes "gdb_a") (omega arith) (omega arith) odd_host odd_name.0
      odd_name.1 odd_name.2

abbrev opened_all : Opened ℤ (Memory InstanceRecord) (Memory BindingRecord) Text
opened_all = record { cfg = rotating_config; catalog = sample_catalog; store = keyed_store }

-- the record has moved to the new key
abbrev moved_world : World (Memory InstanceRecord) (Memory BindingRecord) (List Text) Text
moved_world = record {
  instances = record { rows = []; faults = [] };
  bindings = record {
    rows = stored_binding (codes "a") (stored_under new_key (codes "pw")) ∷ [];
    faults = [];
  };
  server = [];
  entropy = [];
}

served :
    main sample_platform [] [] [] ≡ serving (http_server sample_platform opened_all) moved_world
unfolding main text_eq contains memory_table Base64.encode set_credentials
served = refl

main-IsReady_example : IsReady sample_platform [] (http_server sample_platform opened_all)
main-IsReady_example =
    main-IsReady sample_platform [] [] [] (http_server sample_platform opened_all) moved_world
      served

old_at :
    bindings_row (sample_platform.contents (open_all sample_platform []).1).1 (codes "a")
    ≡ some old_record
unfolding lookup text_eq
old_at = refl

key_set : (http_server sample_platform opened_all).broker.cfg.encryption_key_previous ≢ []
unfolding http_server settings text_eq
key_set e = cc

main-IsMoved_example :
    IsMoved sample_platform bindings_row keyed_store old_setting (codes "a") old_record moved_world
unfolding http_server settings text_eq
main-IsMoved_example =
    main-IsMoved sample_platform bindings_row sample-HasBindings sample-IsByteCipher [] [] []
      (http_server sample_platform opened_all) moved_world (codes "a") old_record served key_set
      old_at
