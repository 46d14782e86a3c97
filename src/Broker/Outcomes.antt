-- ===== src/Broker/Outcomes.antt =====
-- What each handler that writes has done when it returns: its result, and the records before and
-- after. A handler that fails has changed no record.
use osb_opengauss_go.Prelude.{
  [], ◌⊎◌, ◌≡◌, ◌≢◌, true, false, Option, none, some, Text, if◌then◌else◌, text_eq,
}
use osb_opengauss_go.Result.{Result, ok, err}
use osb_opengauss_go.Names.{Names, names_for, user_for}
use osb_opengauss_go.Value.{Fields}
use osb_opengauss_go.Params.{Plan, InstanceParams, name_of}
use osb_opengauss_go.Params.Bounds.{IsWithin}
use osb_opengauss_go.Params.Schemas.{
  instance_schema, updatable_schema, binding_schema, parse_params,
}
use osb_opengauss_go.State.{InstanceRecord, BindingRecord}
use osb_opengauss_go.Broker.{
  Broker, find_plan, Details, ProvisionedServiceSpec, Binding, credentials_for,
}
use osb_opengauss_go.Broker.Rows.{Rows}
use osb_opengauss_go.Broker.Handlers.{requested_params}
use osb_opengauss_go.Broker.Spec.{requoted, IsPlanned}

-- the same records
abbrev pub Same : Rows → Rows → Type 0
Same s t = ((j : Text) → t.instances j ≡ s.instances j) × ((j : Text) → t.bindings j ≡ s.bindings j)

-- `t` is `s` with the instance of one id given anew, or removed
abbrev pub SetsInstance : Text → Option InstanceRecord → Rows → Rows → Type 0
SetsInstance id o s t =
    ((j : Text) → t.instances j ≡ (if text_eq id j then o else s.instances j))
    × ((j : Text) → t.bindings j ≡ s.bindings j)

-- `t` is `s` with the binding of one id given anew, or removed
abbrev pub SetsBinding : Text → Option BindingRecord → Rows → Rows → Type 0
SetsBinding id o s t =
    ((j : Text) → t.instances j ≡ s.instances j)
    × ((j : Text) → t.bindings j ≡ (if text_eq id j then o else s.bindings j))

-- An operation that began on `s` and ended on `t`: an error means that nothing has changed, a
-- result that `Q` holds of it.
abbrev pub Ends : {E A : Type 0} → Rows → (A → Rows → Type 0) → Rows → Result E A → Type 0
Ends s Q t (ok a) = Q a t
Ends s Q t (err e) = Same s t

module _ {F I B S R : Type 0} (b : Broker F I B S R) where
  -- the record that Provision stores for a request
  pub record IsRequested (id : Text) (details : Details) (r : InstanceRecord) : Type 0 where
    pub keyed : r.instance_id ≡ id
    pub service : r.service_id ≡ b.catalog.service.service_id
    pub named_plan : r.plan_id ≡ details.plan_id
    pub plan : Plan
    pub found : find_plan b.catalog.plans details.plan_id ≡ ok plan
    pub resolved :
        requested_params b (instance_schema plan) plan details.raw_parameters ≡ ok r.params
    pub planned : IsPlanned b r

  pub data Provisioned (id : Text) (details : Details) (s : Rows) (a : ProvisionedServiceSpec)
      (t : Rows) : Type 0 where
    existed :
        (r : InstanceRecord)
        → a.already_exists ≡ true
        → s.instances id ≡ some r
        → Same s t
        → Provisioned id details s a t
    recorded :
        (r : InstanceRecord)
        → a.already_exists ≡ false
        → s.instances id ≡ none
        → IsRequested id details r
        → SetsInstance id (some r) s t
        → Provisioned id details s a t

  pub record Updated (id : Text) (details : Details) (s : Rows) (t : Rows) : Type 0 where
    pub old : InstanceRecord
    pub there : s.instances id ≡ some old
    pub plan : Plan
    pub same_plan : (details.plan_id ≡ []) ⊎ (details.plan_id ≡ old.plan_id)
    pub found : find_plan b.catalog.plans old.plan_id ≡ ok plan
    pub requested : InstanceParams
    pub resolved :
        requested_params b (updatable_schema plan) plan details.raw_parameters ≡ ok requested
    pub within : IsWithin plan requested
    pub set :
        SetsInstance id
          (some (record old { instance_id = id; params = requoted old.params requested }))
          s
          t

  -- the binding that Bind answers and the record that it stores for a request
  pub record IsIssued (instance_id id : Text) (details : Details) (i : InstanceRecord) (a : Binding)
      (r : BindingRecord) : Type 0 where
    pub keyed : r.binding_id ≡ id
    pub owner : r.instance_id ≡ instance_id
    pub params : Fields F
    pub parsed :
        parse_params b.store.json b.schemas binding_schema details.raw_parameters ≡ ok params
    pub named : r.params.name ≡ name_of b.float params
    pub user : user_for b.hash id b.cfg.name_prefix r.params.name ≡ ok r.username
    pub names : Names
    pub database : names_for b.hash instance_id b.cfg.name_prefix i.params.name ≡ ok names
    pub password : Text
    pub answered : a.credentials ≡ credentials_for b.cfg names.database r.username password

  pub data Bound (instance_id id : Text) (details : Details) (s : Rows) (a : Binding) (t : Rows)
      : Type 0 where
    existed :
        (r : BindingRecord)
        → a.already_exists ≡ true
        → s.bindings id ≡ some r
        → r.instance_id ≡ instance_id
        → Same s t
        → Bound instance_id id details s a t
    recorded :
        (r : BindingRecord) (i : InstanceRecord)
        → a.already_exists ≡ false
        → s.bindings id ≡ none
        → s.instances instance_id ≡ some i
        → IsIssued instance_id id details i a r
        → SetsBinding id (some r) s t
        → Bound instance_id id details s a t

-- the request names the service of the catalog, and `Q` holds
abbrev pub Served :
    {F I B S R A : Type 0} → Broker F I B S R → Details → (A → Rows → Type 0) → A → Rows → Type 0
Served b details Q a t = (details.service_id ≡ b.catalog.service.service_id) × Q a t

-- the instance was recorded and had no binding, and is forgotten
pub record Deprovisioned (id : Text) (s : Rows) (t : Rows) : Type 0 where
  pub old : InstanceRecord
  pub there : s.instances id ≡ some old
  pub free : (k : Text) (r : BindingRecord) → s.bindings k ≡ some r → r.instance_id ≢ id
  pub set : SetsInstance id none s t

-- the binding was recorded, of the instance that the request names, and is forgotten
pub record Unbound (instance_id id : Text) (s : Rows) (t : Rows) : Type 0 where
  pub bound : BindingRecord
  pub there : s.bindings id ≡ some bound
  pub owner : bound.instance_id ≡ instance_id
  pub instance_record : InstanceRecord
  pub recorded : s.instances instance_id ≡ some instance_record
  pub set : SetsBinding id none s t
