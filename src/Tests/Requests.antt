-- ===== src/Tests/Requests.antt =====
-- The theorems about the handlers, on a broker with one plan and a server that logs.
use osb_opengauss_go.Prelude.{
  ◌≡◌, refl, text_eq, ◌++◌, List, [], ◌∷◌, Text, codes, pos, some, true, false,
}
use osb_opengauss_go.Result.{ok}
use osb_opengauss_go.State.{
  InstanceRecord, BindingRecord, Credentials, get_instance, put_instance, put_binding, get_binding,
  get_row, bindings_for_instance, delete_instance, delete_binding,
}
use osb_opengauss_go.State.Credentials.{put_info, get_binding-put_binding}
use osb_opengauss_go.Encrypt.{noop_encryptor}
use osb_opengauss_go.Base64
use osb_opengauss_go.Table.Memory.{Memory, memory_table, lookup}
use osb_opengauss_go.Result.{is_not_found}
use osb_opengauss_go.Value.{get_field}
use osb_opengauss_go.World.{World}
use osb_opengauss_go.Names.{names_for}
use osb_opengauss_go.Names.Password.{random_password}
use osb_opengauss_go.Config.{settings}
use osb_opengauss_go.Gaussdb
use osb_opengauss_go.Params.{Plan, InstanceParams, resolve_instance_params}
use osb_opengauss_go.Params.Schemas.{parse_params}
use osb_opengauss_go.Broker.Refusals.{Refuses, deprovision-Refuses}
use osb_opengauss_go.Broker.Repeats.{IsAccepted, Matches, provision-recorded, provision-repeated}
use osb_opengauss_go.Broker.{Details, int_eq}
use osb_opengauss_go.Broker.Rows.{rows}
use osb_opengauss_go.Broker.Spec.{IsConsistent}
use osb_opengauss_go.Broker.Outcomes.{Served, Ends, Provisioned, Updated, Deprovisioned, Unbound}
use osb_opengauss_go.Broker.Handlers.{provision, update, deprovision, unbind}
use osb_opengauss_go.Broker.InstanceSteps.{provision-Ends, update-Ends}
use osb_opengauss_go.Broker.RemovalSteps.{deprovision-Ends}
use osb_opengauss_go.Broker.BindingSteps.{unbind-Ends}
use osb_opengauss_go.Broker.Requests.{
  Request, provision_request, bind_request, deprovision_request, update_request, serve_all,
}
use osb_opengauss_go.Broker.Invariant.{serve_all-IsConsistent}
use osb_opengauss_go.Tests.Sample.{
  sample_broker, sample_store, sample_views, sample-IsStore, sample-IsReadable, sample-HasQuotas,
  sample_plan, sample_catalog, empty_world, fresh_world,
}

abbrev id : Text
id = codes "instance-1"

abbrev other : Text
other = codes "binding-1"

abbrev details : Details
details = record {
  service_id = sample_catalog.service.service_id;
  plan_id = sample_plan.id;
  raw_parameters = codes "{\"max_connections\": 5}";
}

empty-IsConsistent : IsConsistent sample_broker (rows sample_views empty_world)
unfolding rows lookup
empty-IsConsistent = record { keyed = λ k r h. cc; planned = λ k r h. cc; anchored = λ k r h. cc }

abbrev requests : List Request
requests =
    provision_request id details
    ∷ bind_request id other details
    ∷ update_request id details
    ∷ deprovision_request id details
    ∷ []

serve_all-IsConsistent_example :
    IsConsistent sample_broker (rows sample_views (serve_all sample_broker requests empty_world))
serve_all-IsConsistent_example =
    serve_all-IsConsistent sample_broker sample_views sample-IsStore (sample-HasQuotas, tt) requests
      empty_world empty-IsConsistent

abbrev provisioned_record : InstanceRecord
provisioned_record = record {
  instance_id = id;
  service_id = sample_catalog.service.service_id;
  plan_id = sample_plan.id;
  database = codes "gdb_000000000000";
  params = record {
    name = [];
    compatibility = codes "PG";
    encoding = codes "UTF8";
    max_connections = pos 5;
    storage_gb = pos 10;
  };
}

abbrev provisioned_world : World (Memory InstanceRecord) (Memory BindingRecord) (List Text) Text
provisioned_world = (provision sample_broker id details fresh_world).1

provisions :
    (provision sample_broker id details fresh_world).0 ≡ ok (record { already_exists = false })
unfolding provision parse_params resolve_instance_params get_field get_instance memory_table
    is_not_found names_for settings Gaussdb.provision random_password put_instance
provisions = refl

provision-Ends_example :
    Ends
      (rows sample_views fresh_world)
      (Served sample_broker details
        (Provisioned sample_broker id details (rows sample_views fresh_world)))
      (rows sample_views provisioned_world)
      (provision sample_broker id details fresh_world).0
provision-Ends_example =
    provision-Ends sample_broker sample_views sample-IsStore (sample-HasQuotas, tt) id details
      fresh_world

-- one instance and no binding
abbrev served_world : World (Memory InstanceRecord) (Memory BindingRecord) (List Text) Text
served_world = record fresh_world {
  instances = record { rows = provisioned_record ∷ []; faults = [] };
}

updates : (update sample_broker id details served_world).0 ≡ ok tt
unfolding update parse_params text_eq get_instance memory_table resolve_instance_params get_field
    int_eq names_for settings Gaussdb.update put_instance
updates = refl

update-Ends_example :
    Ends
      (rows sample_views served_world)
      (Served sample_broker details
        (λ u t. Updated sample_broker id details (rows sample_views served_world) t))
      (rows sample_views (update sample_broker id details served_world).1)
      (update sample_broker id details served_world).0
update-Ends_example =
    update-Ends sample_broker sample_views sample-IsStore (sample-HasQuotas, tt) id details
      served_world

deprovisions : (deprovision sample_broker id details served_world).0 ≡ ok tt
unfolding deprovision text_eq get_instance memory_table bindings_for_instance names_for settings
    Gaussdb.deprovision delete_instance
deprovisions = refl

deprovision-Ends_example :
    Ends
      (rows sample_views served_world)
      (Served sample_broker details (λ u t. Deprovisioned id (rows sample_views served_world) t))
      (rows sample_views (deprovision sample_broker id details served_world).1)
      (deprovision sample_broker id details served_world).0
deprovision-Ends_example =
    deprovision-Ends sample_broker sample_views sample-IsStore id details served_world

looked_up : (get_instance sample_store id provisioned_world).0 ≡ ok (some provisioned_record)
unfolding provision parse_params resolve_instance_params get_field get_instance memory_table
    is_not_found names_for settings Gaussdb.provision random_password put_instance
looked_up = refl

provision-recorded_example :
    (p : Plan) × (spec : InstanceParams) × (r : InstanceRecord) × IsAccepted sample_broker id
      details p spec
    × ((rows sample_views provisioned_world).instances id ≡ some r)
    × Matches sample_broker id details p spec r
provision-recorded_example =
    provision-recorded sample_broker id details sample_views sample-IsStore fresh_world
      (record { already_exists = false }) provisions

provision-repeated_example :
    provision sample_broker id details provisioned_world
    ≡ (ok (record { already_exists = true }), (get_instance sample_store id provisioned_world).1)
provision-repeated_example =
    provision-repeated sample_broker id details sample_views sample-IsStore fresh_world
      (record { already_exists = false }) provisioned_world (some provisioned_record) provisions
      refl looked_up

abbrev bound_record : BindingRecord
bound_record = record {
  binding_id = other;
  instance_id = id;
  username = codes "gdbu_000000000000";
  params = record { name = [] };
  credentials = codes "e30=";
}

abbrev bound_world : World (Memory InstanceRecord) (Memory BindingRecord) (List Text) Text
bound_world = record fresh_world {
  instances = record { rows = provisioned_record ∷ []; faults = [] };
  bindings = record { rows = bound_record ∷ []; faults = [] };
}

is_bound : (rows sample_views bound_world).bindings other ≡ some bound_record
unfolding rows lookup text_eq
is_bound = refl

unbinds : (unbind sample_broker id other details bound_world).0 ≡ ok tt
unfolding unbind text_eq get_instance memory_table get_binding Base64.decode noop_encryptor
    names_for settings Gaussdb.unbind delete_binding
unbinds = refl

unbind-Ends_example :
    Ends
      (rows sample_views bound_world)
      (Served sample_broker details (λ u t. Unbound id other (rows sample_views bound_world) t))
      (rows sample_views (unbind sample_broker id other details bound_world).1)
      (unbind sample_broker id other details bound_world).0
unbind-Ends_example =
    unbind-Ends sample_broker sample_views sample-IsStore id other details bound_world

deprovision-Refuses_example :
    Refuses sample_views (rows sample_views bound_world) (deprovision sample_broker id details)
deprovision-Refuses_example =
    deprovision-Refuses sample_broker sample_views sample-IsStore (rows sample_views bound_world) id
      details other bound_record is_bound refl

abbrev secret : Credentials
secret = ([], codes "secret") ∷ []

abbrev written_world : World (Memory InstanceRecord) (Memory BindingRecord) (List Text) Text
written_world =
    (put_binding sample_store other (codes "gdbu_x") id (record { name = [] }) secret fresh_world).1

puts :
    (put_binding sample_store other (codes "gdbu_x") id (record { name = [] }) secret fresh_world).0
    ≡ ok tt
unfolding put_binding memory_table noop_encryptor is_not_found
puts = refl

abbrev written_record : BindingRecord
written_record = record {
  binding_id = other;
  instance_id = id;
  username = codes "gdbu_x";
  params = record { name = [] };
  credentials = Base64.encode (codes "secret");
}

looked_up_binding :
    (get_row sample_store.bindings
      (codes "cannot read binding " ++ other)
      other
      written_world.bindings).0
    ≡ ok (some written_record)
unfolding put_binding get_row memory_table noop_encryptor is_not_found text_eq
looked_up_binding = refl

get_binding-put_binding_example :
    (get_binding sample_store other written_world).0
    ≡ ok (some (put_info (codes "gdbu_x") id (record { name = [] }) secret))
get_binding-put_binding_example =
    get_binding-put_binding sample_store sample_views.binding_row sample-IsStore.binding_laws
      sample-IsReadable other (codes "gdbu_x") id (record { name = [] }) secret fresh_world
      written_world (some written_record) puts refl looked_up_binding
