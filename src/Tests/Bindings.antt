-- ===== src/Tests/Bindings.antt =====
-- A binding that is made, fetched and asked for again.
use osb_opengauss_go.Prelude.{
  ℤ, ◌≡◌, refl, sym, ap, Bool, true, false, Bool-cases, ◌&&◌, inl, inr, some, List, [], ◌∷◌, ◌++◌,
  Text, codes, pos, text_eq, text_eq_sound, format_int, if◌then◌else◌, All, In, ◌==◌, ◌<◌, arith,
}
use osb_opengauss_go.Result.{Fault, external, Result, ok, err, err≢ok, ok-injective, is_not_found}
use osb_opengauss_go.World.{World}
use osb_opengauss_go.Names.{names_for, user_for}
use osb_opengauss_go.Names.Password.{random_password}
use osb_opengauss_go.Config.{settings}
use osb_opengauss_go.Value.{get_field}
use osb_opengauss_go.Encrypt.{noop_encryptor}
use osb_opengauss_go.Gaussdb
use osb_opengauss_go.Base64
use osb_opengauss_go.Params.Schemas.{parse_params}
use osb_opengauss_go.Params.{Json, name_of}
use osb_opengauss_go.State.{
  InstanceRecord, BindingRecord, Store, Credentials, get_instance, get_binding, get_row,
  put_binding,
}
use osb_opengauss_go.State.Credentials.{IsReadable}
use osb_opengauss_go.Table.Memory.{Memory, memory_table}
use osb_opengauss_go.Broker.{Broker, Binding, BindingDetails, Details, credentials_for}
use osb_opengauss_go.Broker.Handlers.{bind, fetch_binding}
use osb_opengauss_go.Broker.Fetches.{bind_fetched, bind_repeated}
use osb_opengauss_go.Broker.Rows.{rows, IsStore}
use osb_opengauss_go.Broker.Outcomes.{Served, Ends, Bound}
use osb_opengauss_go.Broker.BindingSteps.{bind-Ends}
use osb_opengauss_go.Broker.Uri.{read_userinfo, read_userinfo-credentials_for}
use osb_opengauss_go.Tests.Sample.{
  sample_broker, sample_store, sample_json, sample_config, sample_catalog, sample_plan,
  sample_views, sample-IsStore, sample-IsReadable, fresh_world,
}

pairs_eq : Credentials → Credentials → Bool
pairs_eq [] [] = true
pairs_eq [] (p ∷ ps) = false
pairs_eq (p ∷ ps) [] = false
pairs_eq ((k, v) ∷ ps) ((l, w) ∷ qs) = text_eq k l && text_eq v w && pairs_eq ps qs

pairs_eq_sound : (ps qs : Credentials) → pairs_eq ps qs ≡ true → ps ≡ qs
unfolding pairs_eq
pairs_eq_sound [] [] h = refl
pairs_eq_sound [] (q ∷ qs) h = cc
pairs_eq_sound (p ∷ ps) [] h = cc
pairs_eq_sound ((k, v) ∷ ps) ((l, w) ∷ qs) h =
    ground (arith, text_eq_sound k l, text_eq_sound v w, pairs_eq_sound ps qs)

-- the credentials of the binding
abbrev bound_credentials : Credentials
bound_credentials =
    credentials_for sample_config (codes "gdb_000000000000") (codes "gdbu_000000000000")
      (codes "Aa0!aaaaaaaaaaaaaaaaaaaaaaaa")

marshal_bound : Credentials → Result Fault Text
marshal_bound creds =
    if pairs_eq creds bound_credentials then ok (codes "{}") else err (external (codes "not known"))

-- a codec that knows these credentials only
abbrev bound_json : Json ℤ
bound_json = record sample_json {
  marshal_strings = marshal_bound;
  unmarshal_strings = λ text. ok bound_credentials;
}

abbrev bound_store : Store ℤ (Memory InstanceRecord) (Memory BindingRecord) Text
bound_store = record sample_store { json = bound_json }

abbrev bound_broker : Broker ℤ (Memory InstanceRecord) (Memory BindingRecord) (List Text) Text
bound_broker = record sample_broker { store = bound_store }

marshals :
    (creds : Credentials) (text : Text)
    → marshal_bound creds ≡ ok text
    → (creds ≡ bound_credentials) × (codes "{}" ≡ text)
unfolding marshal_bound
marshals creds text h = elim (Bool-cases (pairs_eq creds bound_credentials)) [
  | inl same ↦ (pairs_eq_sound creds bound_credentials same, ok-injective (rw same at h))
  | inr other ↦ absurd (err≢ok (rw other at h))
]

bound-IsReadable : IsReadable bound_store
bound-IsReadable = record {
  faithful = sample-IsReadable.faithful;
  bytes = sample-IsReadable.bytes;
  bytes-marshal = λ creds text h. rw (← (marshals creds text h).1) (omega arith);
  unmarshal-marshal = λ creds text h. ap ok (sym (marshals creds text h).0);
}

abbrev recorded : InstanceRecord
recorded = record {
  instance_id = codes "instance-1";
  service_id = sample_catalog.service.service_id;
  plan_id = sample_plan.id;
  database = codes "gdb_000000000000";
  params = record {
    name = [];
    compatibility = codes "PG";
    encoding = codes "UTF8";
    max_connections = pos 5;
    storage_gb = pos 10;
  };
}

abbrev unbound : World (Memory InstanceRecord) (Memory BindingRecord) (List Text) Text
unbound = record fresh_world { instances = record { rows = recorded ∷ []; faults = [] } }

abbrev bind_details : Details
bind_details = record {
  service_id = sample_catalog.service.service_id;
  plan_id = sample_plan.id;
  raw_parameters = [];
}

abbrev made : Binding
made = record { already_exists = false; credentials = bound_credentials }

binds :
    (bind bound_broker (codes "instance-1") (codes "binding-1") bind_details unbound).0 ≡ ok made
unfolding bind text_eq get_instance memory_table parse_params get_binding is_not_found names_for
    settings user_for Gaussdb.bind random_password put_binding marshal_bound pairs_eq format_int
    name_of get_field noop_encryptor
binds = refl

abbrev bound : World (Memory InstanceRecord) (Memory BindingRecord) (List Text) Text
bound = (bind bound_broker (codes "instance-1") (codes "binding-1") bind_details unbound).1

bound-IsStore : IsStore sample_views bound_store
bound-IsStore = record {
  instance_laws = sample-IsStore.instance_laws;
  binding_laws = sample-IsStore.binding_laws;
}

bind-Ends_example :
    Ends
      (rows sample_views unbound)
      (Served bound_broker bind_details (
        Bound bound_broker
          (codes "instance-1")
          (codes "binding-1")
          bind_details
          (rows sample_views unbound)))
      (rows sample_views bound)
      (bind bound_broker (codes "instance-1") (codes "binding-1") bind_details unbound).0
bind-Ends_example =
    bind-Ends bound_broker sample_views bound-IsStore (codes "instance-1") (codes "binding-1")
      bind_details unbound

abbrev bound_record : BindingRecord
bound_record = record {
  binding_id = codes "binding-1";
  instance_id = codes "instance-1";
  username = codes "gdbu_000000000000";
  params = record { name = [] };
  credentials = Base64.encode (codes "{}");
}

bound_rows :
    (bound.bindings ≡ record { rows = bound_record ∷ []; faults = [] })
    × (bound.instances ≡ record { rows = recorded ∷ []; faults = [] })
unfolding bind text_eq get_instance memory_table parse_params get_binding is_not_found names_for
    settings user_for Gaussdb.bind random_password put_binding marshal_bound pairs_eq format_int
    name_of get_field noop_encryptor
bound_rows = (refl, refl)

looked_up :
    (get_row bound_store.bindings
      (codes "cannot read binding " ++ codes "binding-1")
      (codes "binding-1")
      (record { rows = bound_record ∷ []; faults = [] })).0
    ≡ ok (some bound_record)
unfolding get_row memory_table text_eq
looked_up = refl

looked_up_bound :
    (get_row bound_store.bindings
      (codes "cannot read binding " ++ codes "binding-1")
      (codes "binding-1")
      bound.bindings).0
    ≡ ok (some bound_record)
looked_up_bound = rw bound_rows.0 looked_up

bind_fetched_example :
    (answer : BindingDetails) × ((fetch_binding bound_broker (codes "binding-1") bound).0
      ≡ ok answer)
    × (answer.credentials ≡ bound_credentials)
bind_fetched_example =
    bind_fetched bound_broker sample_views.binding_row sample-IsStore.binding_laws bound-IsReadable
      (codes "instance-1") (codes "binding-1") bind_details unbound bound made (some bound_record)
      binds refl looked_up_bound

known : (get_instance bound_store (codes "instance-1") bound).0 ≡ ok (some recorded)
unfolding get_instance memory_table text_eq
known = rw bound_rows.1 refl

bind_repeated_example :
    bind bound_broker (codes "instance-1") (codes "binding-1") bind_details bound ≡ (
      ok (record { already_exists = true; credentials = bound_credentials }),
      (get_binding bound_store
          (codes "binding-1")
          (get_instance bound_store (codes "instance-1") bound).1).1,
    )
unfolding get_instance
bind_repeated_example =
    bind_repeated bound_broker sample_views.binding_row sample-IsStore.binding_laws bound-IsReadable
      (codes "instance-1") (codes "binding-1") bind_details unbound bound made recorded
      (some bound_record) binds known refl looked_up_bound

plain_user : All (λ c. (c < 256) × ((c == b' ') ≡ false)) (codes "gdbu_x")
plain_user = ground arith

plain_password : All (λ c. (c < 256) × ((c == b' ') ≡ false)) (codes "p@s:w/d")
plain_password = ground arith

read_userinfo-credentials_for_example :
    (uri : Text) × In
      (codes "uri", uri)
      (credentials_for sample_config (codes "gdb_a") (codes "gdbu_x") (codes "p@s:w/d"))
    × (read_userinfo uri ≡ (codes "gdbu_x", codes "p@s:w/d"))
read_userinfo-credentials_for_example =
    read_userinfo-credentials_for sample_config (codes "gdb_a") (codes "gdbu_x") (codes "p@s:w/d")
      plain_user plain_password
