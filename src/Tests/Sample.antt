-- ===== src/Tests/Sample.antt =====
-- A broker that is built of small stand-ins for the libraries and the servers.
mod Libraries
pub use Libraries.*
use osb_opengauss_go.Prelude.{
  sym, Bool, Bool-cases, inl, inr, ◌&&◌, ℕ, zero, suc, ◌≡◌, ◌<◌, refl, ap, subst, true, false, List,
  [], ◌∷◌, Text, codes, arith, ltb, if◌then◌else◌, length, All, ℤ, pos, ◌≤ℤ◌, leb_ℤ, pos_part,
  neg_part, ◌+◌, ◌^◌, ◌⊎◌, format_int, text_eq, ◌++◌, drop-length-append, drop, take,
  take-length-append, text_eq_refl, All-append,
}
use osb_opengauss_go.Result.{Fault, external, Result, ok, err, err≢ok, ok-injective}
use osb_opengauss_go.Exec.{Exec}
use osb_opengauss_go.Entropy.{Entropy}
use osb_opengauss_go.Names.{Hash}
use osb_opengauss_go.Encrypt.{Gcm, noop_encryptor}
use osb_opengauss_go.Encrypt.Bytes.{IsByteCipher, drop-IsBytes}
use osb_opengauss_go.Value.{Float64, end, field, number}
use osb_opengauss_go.Params.{Plan, Json}
use osb_opengauss_go.Params.Bounds.{HasQuotas}
use osb_opengauss_go.Plans.{CatalogData, Toml}
use osb_opengauss_go.Config.{Config, Environment, settings}
use osb_opengauss_go.Gaussdb.{Admin}
use osb_opengauss_go.Encrypt.RoundTrip.{noop-IsFaithful}
use osb_opengauss_go.State.Credentials.{IsReadable}
use osb_opengauss_go.World.{World}
use osb_opengauss_go.Table.Memory.{Memory, memory_table, memory_row, memory_table-IsTable}
use osb_opengauss_go.State.{InstanceRecord, BindingRecord, Store}
use osb_opengauss_go.Tests.Column.{set_credentials}
use osb_opengauss_go.Broker.{Broker, int_eq}
use osb_opengauss_go.Broker.Rows.{Views, IsStore}

abbrev pub sample_plan : Plan
sample_plan = record {
  id = codes "0d3f1b6c-5a52-4e0e-9a64-3c1f0a7b9d11";
  name = codes "small";
  display_name = [];
  description = codes "A small database";
  storage_gb = pos 10;
  max_connections = pos 20;
}

abbrev pub sample_catalog : CatalogData
sample_catalog = record {
  service = record {
    service_id = codes "7c2d9a40-1f35-4b8a-8c7e-55f2d6e0a9b3";
    name = codes "opengauss";
    display_name = [];
    description = codes "openGauss databases";
    provider = [];
    docs_url = [];
    support_url = [];
    tags = [];
  };
  plans = sample_plan ∷ [];
}

pub sample-HasQuotas : HasQuotas sample_plan
sample-HasQuotas = record {
  connections = (omega arith, omega arith);
  storage = (omega arith, omega arith);
}

abbrev pub sample_toml : Toml
sample_toml = record {
  read_file = λ path. ok (codes "[[plan]]");
  unmarshal = λ raw. ok sample_catalog;
}

-- only the password of the interface is set
abbrev pub sample_environment : Environment
sample_environment key = if text_eq key (codes "BROKER_PASSWORD") then codes "secret" else []

abbrev pub sample_config : Config
sample_config = settings sample_environment (pos 5432) (pos 10) (pos 5000)

-- a map with one entry under the empty key stands for its value; others are refused
abbrev pub is_bytes : Text → Bool
is_bytes [] = true
is_bytes (c ∷ s) = ltb c 256 && is_bytes s

pub is_bytes_sound : (s : Text) → is_bytes s ≡ true → All (λ b. b < 256) s
is_bytes_sound [] h = tt
is_bytes_sound (c ∷ s) h = (ground arith, is_bytes_sound s (ground arith))

abbrev pub marshal_value : List (Text × Text) → Result Fault Text
marshal_value (([], text) ∷ []) =
    if is_bytes text then ok text else err (external (codes "not bytes"))
marshal_value (([], text) ∷ c ∷ creds) = err (external (codes "more than one entry"))
marshal_value ((d ∷ key, text) ∷ creds) = err (external (codes "a key"))
marshal_value [] = err (external (codes "no entry"))

bytes-marshal_value :
    (creds : List (Text × Text)) (text : Text)
    → marshal_value creds ≡ ok text
    → All (λ b. b < 256) text
bytes-marshal_value (([], s) ∷ []) text h = elim (Bool-cases (is_bytes s)) [
  | inl bytes ↦ subst (All (λ b. b < 256)) (ok-injective (rw bytes at h)) (is_bytes_sound s bytes)
  | inr other ↦ absurd (err≢ok (rw other at h))
]
bytes-marshal_value (([], s) ∷ c ∷ creds) text h = absurd (err≢ok h)
bytes-marshal_value ((d ∷ key, s) ∷ creds) text h = absurd (err≢ok h)
bytes-marshal_value [] text h = absurd (err≢ok h)

unmarshal-marshal_value :
    (creds : List (Text × Text)) (text : Text)
    → marshal_value creds ≡ ok text
    → ◌≡◌ {A = Result Fault (List (Text × Text))} (ok (([], text) ∷ [])) (ok creds)
unmarshal-marshal_value (([], s) ∷ []) text h = elim (Bool-cases (is_bytes s)) [
  | inl bytes ↦ ap (λ (t : Text). ok (([], t) ∷ [])) (sym (ok-injective (rw bytes at h)))
  | inr other ↦ absurd (err≢ok (rw other at h))
]
unmarshal-marshal_value (([], s) ∷ c ∷ creds) text h = absurd (err≢ok h)
unmarshal-marshal_value ((d ∷ key, s) ∷ creds) text h = absurd (err≢ok h)
unmarshal-marshal_value [] text h = absurd (err≢ok h)

abbrev pub sample_json : Json ℤ
sample_json = record {
  unmarshal = λ raw. ok (field (codes "max_connections") (number (pos 5)) end);
  marshal_strings = marshal_value;
  unmarshal_strings = λ text. ok (([], text) ∷ []);
}

-- a server that logs its statements
abbrev pub sample_admin : Admin (List Text) Text
sample_admin = record {
  cfg = sample_config;
  db = record {
    exec = λ name statements log. (ok tt, statements ++ log);
    exists = λ database query argument log. (ok false, log);
    ping = λ log. (ok tt, log);
  };
  files = record { read_file = λ path. err (external path); is_not_exist = λ e. true };
  source = sample_source;
  attempts = 4;
}

abbrev pub sample_store : Store ℤ (Memory InstanceRecord) (Memory BindingRecord) Text
sample_store = record {
  instances = memory_table (λ r. r.instance_id) (λ r. r.service_id);
  bindings = memory_table (λ r. r.binding_id) (λ r. r.instance_id);
  set_credentials = set_credentials;
  encryptor = noop_encryptor;
  json = sample_json;
}

abbrev pub sample_broker : Broker ℤ (Memory InstanceRecord) (Memory BindingRecord) (List Text) Text
sample_broker = record {
  cfg = sample_config;
  catalog = sample_catalog;
  admin = sample_admin;
  store = sample_store;
  schemas = record { validate = λ schema raw. ok [] };
  float = sample_float;
  hash = sample_hash;
}

abbrev pub sample_views : Views (Memory InstanceRecord) (Memory BindingRecord)
sample_views = record {
  instance_row = memory_row (λ r. r.instance_id) (λ r. r.service_id);
  binding_row = memory_row (λ r. r.binding_id) (λ r. r.instance_id);
}

pub sample-IsStore : IsStore sample_views sample_store
sample-IsStore = record {
  instance_laws = memory_table-IsTable (λ r. r.instance_id) (λ r. r.service_id);
  binding_laws = memory_table-IsTable (λ r. r.binding_id) (λ r. r.instance_id);
}

pub sample-IsReadable : IsReadable sample_store
unfolding noop_encryptor
sample-IsReadable = record {
  faithful = noop-IsFaithful;
  bytes = λ plain cipher r small h. subst (All (λ b. b < 256)) (ok-injective h) small;
  bytes-marshal = bytes-marshal_value;
  unmarshal-marshal = unmarshal-marshal_value;
}

-- no record, no statement, and one statement of the instance table that will fail
abbrev pub empty_world : World (Memory InstanceRecord) (Memory BindingRecord) (List Text) Text
empty_world = record {
  instances = record { rows = []; faults = false ∷ true ∷ [] };
  bindings = record { rows = []; faults = [] };
  server = [];
  entropy = [];
}

-- draws that give the password Aa0!aaaaaaaaaaaaaaaaaaaaaaaa
abbrev pub varied : Text
varied = 26 ∷ 0 ∷ 52 ∷ 62 ∷ zeros 24

-- no record and no statement, and nothing that will fail
abbrev pub fresh_world : World (Memory InstanceRecord) (Memory BindingRecord) (List Text) Text
fresh_world = record {
  instances = record { rows = []; faults = [] };
  bindings = record { rows = []; faults = [] };
  server = [];
  entropy = varied;
}
