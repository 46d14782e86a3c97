-- ===== src/Broker.antt =====
-- broker.go: the Open Service Broker operations.
pub mod Handlers
pub mod Rows
pub mod Access
pub mod Writes
pub mod Spec
pub mod Outcomes
pub mod Rules
pub mod Served
pub mod Lookups
pub mod PlanLookups
pub mod Requests
pub mod Entries
pub mod Invariant
pub mod InstanceSteps
pub mod RemovalSteps
pub mod BindingSteps
pub mod Repeats
pub mod Answers
pub mod Fetches
pub mod Uri
pub mod Offer
pub mod Refusals
use osb_opengauss_go.Prelude.{
  ℕ, zero, ◌+◌, ◌-◌, ◌/◌, ◌%◌, Bool, true, false, ◌&&◌, ◌||◌, not, Option, none, some, List, [],
  ◌∷◌, ◌++◌, Text, codes, leb, ltb, ◌==◌, if◌then◌else◌, ℤ, leb_ℤ, text_eq, format_int, quoted,
  length,
}
use osb_opengauss_go.Result.{Fault, is_already_exists, error_text, Result, ok, err, map_err}
use osb_opengauss_go.Exec.{Exec, pure, raise, lift, attempt, relabel, guard_not, ◌>>=◌, ◌>>◌}
use osb_opengauss_go.World.{World}
use osb_opengauss_go.Url.{query_escape}
use osb_opengauss_go.Names.{Hash, Names, names_for, user_for}
use osb_opengauss_go.Value.{Float64, Fields, get_field, sprint}
use osb_opengauss_go.Params.{
  Plan, InstanceParams, BindingParams, JsonSchema, name_of, resolve_instance_params,
}
use osb_opengauss_go.Params.Schemas.{
  instance_schema, updatable_schema, binding_schema, parse_params,
}
use osb_opengauss_go.Plans.{CatalogData, Service, catalog}
use osb_opengauss_go.Config.{Config}
use osb_opengauss_go.State.{
  Store, InstanceRecord, BindingInfo, Credentials, put_instance, get_instance, delete_instance,
  put_binding, get_binding, delete_binding, bindings_for_instance,
}
use osb_opengauss_go.Gaussdb.{Admin}
use osb_opengauss_go.Gaussdb

-- The errors of the broker's operations: those of apiresponses, and any other.
pub data Error : Type 0 where
  err_instance_already_exists : Error
  err_instance_not_found : Error
  err_plan_change_not_supported : Error
  err_binding_already_exists : Error
  err_binding_not_found : Error
  -- NewFailureResponse(errors.New(message), status, key)
  failure_response : Text → ℕ → Text → Error
  fault : Fault → Error

unfoldable pub invalid_input : Text → Error
invalid_input text = failure_response text 400 (codes "validate-parameters")

unfoldable pub map_admin_error : Error → Fault → Error
unfolding is_already_exists
map_admin_error conflict e = if is_already_exists e then conflict else fault e

-- the Broker, with the libraries that it calls
pub record Broker (F I B S R : Type 0) : Type 0 where
  pub cfg : Config
  pub catalog : CatalogData
  pub admin : Admin S R
  pub store : Store F I B R
  pub schemas : JsonSchema F
  pub float : Float64 F
  pub hash : Hash

-- the fields of a request that the operations read
pub record Details : Type 0 where
  pub service_id : Text
  pub plan_id : Text
  pub raw_parameters : Text

-- domain.ProvisionedServiceSpec
pub record ProvisionedServiceSpec : Type 0 where
  pub already_exists : Bool

-- domain.Binding; no credentials is the empty list
pub record Binding : Type 0 where
  pub already_exists : Bool
  pub credentials : Credentials

-- domain.GetInstanceDetailsSpec
pub record InstanceDetails : Type 0 where
  pub service_id : Text
  pub plan_id : Text
  pub parameters : InstanceParams

-- domain.GetBindingSpec
pub record BindingDetails : Type 0 where
  pub credentials : Credentials
  pub parameters : BindingParams

-- domain.LastOperationState; the broker reports the one
pub data LastOperation : Type 0 where
  succeeded : Text → LastOperation

-- Broker.Services
unfoldable pub services : {F I B S R : Type 0} → Broker F I B S R → List (Service F)
unfolding catalog
services b = catalog b.catalog

-- `==` on InstanceParams and BindingParams
unfoldable pub int_eq : ℤ → ℤ → Bool
int_eq a b = leb_ℤ a b && leb_ℤ b a

unfoldable pub same_params : InstanceParams → InstanceParams → Bool
unfolding int_eq text_eq
same_params a b =
    text_eq a.name b.name
    && text_eq a.compatibility b.compatibility
    && text_eq a.encoding b.encoding
    && int_eq a.max_connections b.max_connections
    && int_eq a.storage_gb b.storage_gb

unfoldable pub find_plan : List Plan → Text → Result Error Plan
unfolding invalid_input
find_plan [] plan_id = err (invalid_input (codes "unknown plan_id " ++ quoted plan_id))
find_plan (p ∷ ps) plan_id = if text_eq p.id plan_id then ok p else find_plan ps plan_id

-- Broker.credentials; the entries are in the order of their keys
unfoldable pub credentials_for : Config → Text → Text → Text → Credentials
unfolding query_escape
credentials_for c database username password =
    let plain =
      codes "postgresql://"
      ++ query_escape username
      ++ codes ":"
      ++ query_escape password
      ++ codes "@"
      ++ c.db_host
      ++ codes ":"
      ++ format_int c.db_port
      ++ codes "/"
      ++ database in
    let uri =
      if text_eq c.db_sslmode (codes "disable")
      then plain
      else plain ++ codes "?sslmode=" ++ query_escape c.db_sslmode in
    (codes "database", database)
    ∷ (codes "hostname", c.db_host)
    ∷ (codes "password", password)
    ∷ (codes "port", format_int c.db_port)
    ∷ (codes "sslmode", c.db_sslmode)
    ∷ (codes "uri", uri)
    ∷ (codes "username", username)
    ∷ []

module _ {S A : Type 0} where
  -- a call whose error is returned as it is
  abbrev pub call : Exec S Fault A → Exec S Error A
  call m = relabel fault m

  -- a pure step whose error becomes a 400 response
  abbrev pub checked : Result Fault A → Exec S Error A
  checked r = lift (map_err (λ e. invalid_input (error_text e)) r)

  -- `if x == nil { return e }`
  abbrev pub require : Error → Option A → Exec S Error A
  require e none = raise e
  require e (some a) = pure a
