-- ===== src/Broker/Handlers.antt =====
-- broker.go: the handlers. Each runs under the broker's lock, so it is one step on the world.
use osb_opengauss_go.Prelude.{
  true, false, ◌&&◌, not, Option, none, some, List, [], Text, codes, if◌then◌else◌, text_eq, length,
  ltb, quoted, ◌++◌,
}
use osb_opengauss_go.Result.{Fault, Result, ok, err, map_err}
use osb_opengauss_go.Result
use osb_opengauss_go.Exec.{Exec, pure, raise, lift, relabel, guard_not, ◌>>=◌, ◌>>◌}
use osb_opengauss_go.World.{World}
use osb_opengauss_go.Names.{Names, names_for, user_for}
use osb_opengauss_go.Value.{Fields}
use osb_opengauss_go.Params.{Plan, InstanceParams, BindingParams, name_of, resolve_instance_params}
use osb_opengauss_go.Params.Schemas.{
  instance_schema, updatable_schema, binding_schema, parse_params,
}
use osb_opengauss_go.State.{
  InstanceRecord, BindingInfo, put_instance, get_instance, delete_instance, put_binding,
  get_binding, delete_binding, bindings_for_instance,
}
use osb_opengauss_go.Gaussdb
use osb_opengauss_go.Broker.{
  Error, err_instance_already_exists, err_instance_not_found, err_plan_change_not_supported,
  err_binding_already_exists, err_binding_not_found, fault, invalid_input, map_admin_error, Broker,
  Details, ProvisionedServiceSpec, Binding, InstanceDetails, BindingDetails, LastOperation,
  succeeded, same_params, find_plan, credentials_for, call, checked, require,
}

-- only the two quotas of the stored parameters change
unfoldable pub with_quotas : InstanceParams → InstanceParams → InstanceParams
with_quotas stored requested = record stored {
  max_connections = requested.max_connections;
  storage_gb = requested.storage_gb;
}

module _ {F I B S R : Type 0} (b : Broker F I B S R) where
  abbrev pub Handler : Type 0 → Type 0
  Handler A = Exec (World I B S R) Error A

  unfoldable pub plan : Text → Result Error Plan
  unfolding find_plan
  plan plan_id = find_plan b.catalog.plans plan_id

  -- Broker.names
  unfoldable pub names : Text → Text → Result Error Names
  names instance_id name = map_err fault (names_for b.hash instance_id b.cfg.name_prefix name)

  -- the test of the service id, with which every mutating operation begins
  unfoldable pub check_service : Text → Handler (Unit {0})
  unfolding invalid_input
  check_service service_id =
      guard_not (not (text_eq service_id b.catalog.service.service_id))
        (invalid_input (codes "unknown service_id " ++ quoted service_id))

  -- parseParams and ResolveInstanceParams; the error of either becomes a 400 response
  unfoldable pub requested_params : Fields F → Plan → Text → Result Fault InstanceParams
  requested_params schema p raw =
      Result.◌>>=◌ (parse_params b.store.json b.schemas schema raw)
        λ params. resolve_instance_params b.float p params

  -- the rest of Provision, for an instance that is not recorded yet
  unfoldable pub provision_new : Text → Plan → InstanceParams → Handler ProvisionedServiceSpec
  unfolding names map_admin_error
  provision_new instance_id p spec = do
    n ← lift (names instance_id spec.name)
    relabel (map_admin_error err_instance_already_exists) (Gaussdb.provision b.admin n spec)
    call (
        put_instance b.store instance_id (record {
          instance_id = [];
          service_id = b.catalog.service.service_id;
          plan_id = p.id;
          database = n.database;
          params = spec;
        }))
    pure (record { already_exists = false })

  unfoldable pub provision_over :
      Text → Plan → InstanceParams → Option InstanceRecord → Handler ProvisionedServiceSpec
  unfolding provision_new same_params
  provision_over instance_id p spec none = provision_new instance_id p spec
  provision_over instance_id p spec (some existing) =
      if text_eq existing.plan_id p.id && same_params existing.params spec
      then pure (record { already_exists = true })
      else raise err_instance_already_exists

  unfoldable pub provision : Text → Details → Handler ProvisionedServiceSpec
  unfolding check_service plan requested_params provision_over
  provision instance_id details = do
    check_service details.service_id
    p ← lift (plan details.plan_id)
    spec ← checked (requested_params (instance_schema p) p details.raw_parameters)
    existing ← call (get_instance b.store instance_id)
    provision_over instance_id p spec existing

  -- the rest of Update, for the record that was found
  unfoldable pub update_found : Text → Details → InstanceRecord → Handler (Unit {0})
  unfolding plan requested_params with_quotas names
  update_found instance_id details existing = do
    guard_not (not (text_eq details.plan_id []) && not (text_eq details.plan_id existing.plan_id))
        err_plan_change_not_supported
    p ← lift (plan existing.plan_id)
    requested ← checked (requested_params (updatable_schema p) p details.raw_parameters)
    let params = with_quotas existing.params requested
    n ← lift (names instance_id params.name)
    call (Gaussdb.update b.admin n params)
    call (put_instance b.store instance_id (record existing { params = params }))

  unfoldable pub update : Text → Details → Handler (Unit {0})
  unfolding check_service update_found
  update instance_id details = do
    check_service details.service_id
    found ← call (get_instance b.store instance_id)
    existing ← require err_instance_not_found found
    update_found instance_id details existing

  -- `if len(bindings) > 0`
  unfoldable pub refuse_bound : List BindingInfo → Handler (Unit {0})
  unfolding invalid_input
  refuse_bound bindings = guard_not (ltb 0 (length bindings)) (
      invalid_input
        (codes "service instance still has bindings; unbind them before deprovisioning"))

  unfoldable pub deprovision : Text → Details → Handler (Unit {0})
  unfolding check_service refuse_bound names
  deprovision instance_id details = do
    check_service details.service_id
    found ← call (get_instance b.store instance_id)
    instance_record ← require err_instance_not_found found
    bindings ← call (bindings_for_instance b.store instance_id)
    refuse_bound bindings
    n ← lift (names instance_id instance_record.params.name)
    call (Gaussdb.deprovision b.admin n)
    call (delete_instance b.store instance_id)

  -- the rest of Bind, for a binding that is not recorded yet
  unfoldable pub bind_new : Text → Text → InstanceRecord → BindingParams → Handler Binding
  unfolding names map_admin_error credentials_for
  bind_new instance_id binding_id instance_record spec = do
    n ← lift (names instance_id instance_record.params.name)
    username ← lift (map_err fault (user_for b.hash binding_id b.cfg.name_prefix spec.name))
    password ←
        relabel (map_admin_error err_binding_already_exists) (Gaussdb.bind b.admin n username)
    let creds = credentials_for b.cfg n.database username password
    call (put_binding b.store binding_id username instance_id spec creds)
    pure (record { already_exists = false; credentials = creds })

  unfoldable pub bind_over :
      Text → Text → InstanceRecord → BindingParams → Option BindingInfo → Handler Binding
  unfolding bind_new
  bind_over instance_id binding_id instance_record spec none =
      bind_new instance_id binding_id instance_record spec
  bind_over instance_id binding_id instance_record spec (some existing) =
      if text_eq existing.instance_id instance_id && text_eq existing.params.name spec.name
      then pure (record { already_exists = true; credentials = existing.credentials })
      else raise err_binding_already_exists

  unfoldable pub bind : Text → Text → Details → Handler Binding
  unfolding check_service bind_over
  bind instance_id binding_id details = do
    check_service details.service_id
    found ← call (get_instance b.store instance_id)
    instance_record ← require err_instance_not_found found
    params ← checked (parse_params b.store.json b.schemas binding_schema details.raw_parameters)
    let spec : BindingParams = record { name = name_of b.float params }
    existing ← call (get_binding b.store binding_id)
    bind_over instance_id binding_id instance_record spec existing

  -- `if instance == nil || binding == nil || binding.InstanceID != instanceID`
  unfoldable pub bound_to :
      Text → Option InstanceRecord → Option BindingInfo → Option (InstanceRecord × BindingInfo)
  bound_to instance_id none binding = none
  bound_to instance_id (some i) none = none
  bound_to instance_id (some i) (some info) =
      if text_eq info.instance_id instance_id then some (i, info) else none

  unfoldable pub unbind : Text → Text → Details → Handler (Unit {0})
  unfolding check_service bound_to names
  unbind instance_id binding_id details = do
    check_service details.service_id
    instance_record ← call (get_instance b.store instance_id)
    binding ← call (get_binding b.store binding_id)
    pair ← require err_binding_not_found (bound_to instance_id instance_record binding)
    n ← lift (names instance_id pair.0.params.name)
    call (Gaussdb.unbind b.admin n pair.1.username)
    call (delete_binding b.store binding_id)

  -- Broker.GetInstance
  unfoldable pub fetch_instance : Text → Handler InstanceDetails
  fetch_instance instance_id = do
    found ← call (get_instance b.store instance_id)
    r ← require err_instance_not_found found
    pure (record { service_id = r.service_id; plan_id = r.plan_id; parameters = r.params })

  -- Broker.GetBinding
  unfoldable pub fetch_binding : Text → Handler BindingDetails
  fetch_binding binding_id = do
    found ← call (get_binding b.store binding_id)
    info ← require err_binding_not_found found
    pure (record { credentials = info.credentials; parameters = info.params })

  unfoldable pub last_operation : Text → Handler LastOperation
  last_operation instance_id = do
    found ← call (get_instance b.store instance_id)
    r ← require err_instance_not_found found
    pure (succeeded (codes "synchronous operation"))

  unfoldable pub last_binding_operation : Text → Handler LastOperation
  last_binding_operation binding_id = do
    found ← call (get_binding b.store binding_id)
    info ← require err_binding_not_found found
    pure (succeeded (codes "synchronous operation"))
