-- ===== src/Broker/InstanceSteps.antt =====
-- Provision and Update: what each has done to the records when it returns, whatever its request holds
-- and whichever call fails.
use osb_opengauss_go.Prelude.{
  true, false, ◌≡◌, refl, sym, ◌∙◌, subst, not, ◌&&◌, Option, none, some, [], Text, All, text_eq,
}
use osb_opengauss_go.Result.{ok, map_err-eq-ok}
use osb_opengauss_go.World.{World}
use osb_opengauss_go.Exec.{guard_not-eq-ok, lift, relabel, guard_not}
use osb_opengauss_go.Gaussdb
use osb_opengauss_go.Params.Schemas.{instance_schema, updatable_schema}
use osb_opengauss_go.Gaussdb.Frame.{provision-Leaves, update-Leaves}
use osb_opengauss_go.Names.{names_for}
use osb_opengauss_go.Params.{Plan, InstanceParams}
use osb_opengauss_go.Params.Bounds.{HasQuotas}
use osb_opengauss_go.State.{InstanceRecord, get_instance, put_instance}
use osb_opengauss_go.Broker.{
  Broker, find_plan, Details, require, call, checked, fault, map_admin_error,
  err_instance_already_exists, err_instance_not_found, err_plan_change_not_supported,
}
use osb_opengauss_go.Broker.Rows.{Rows, Views, rows, IsStore, keeps_rules, Keeps-Leaves}
use osb_opengauss_go.Broker.Access.{get_instance-Keeps}
use osb_opengauss_go.Broker.Lookups.{Does-check_service, found_row, required}
use osb_opengauss_go.Broker.Writes.{put_instance-Ends}
use osb_opengauss_go.Broker.Outcomes.{
  Served, SetsInstance, Ends, IsRequested, Provisioned, existed, recorded, Updated,
}
use osb_opengauss_go.Broker.Spec.{requoted}
use osb_opengauss_go.Broker.Rules.{
  Does, Same-eq, Does-pure, Does-raise, Does-if, Does-map, Does-from, Does-relabel, Does-bind,
  Does-return,
}
use osb_opengauss_go.Broker.Handlers.{
  plan, names, requested_params, provision_new, provision_over, provision, with_quotas,
  update_found, update,
}
use osb_opengauss_go.Broker.PlanLookups.{plan_kept, plan_found, plan_lem, IsWithin-plan}

module _ {F I B S R : Type 0} (b : Broker F I B S R) (v : Views I B) (laws : IsStore v b.store)
    (quotas : All HasQuotas b.catalog.plans) where
  module _ (s : Rows) where
    put_instance-Does :
        (id : Text) (r : InstanceRecord)
        → Does {S = S} v s
            (λ u t. SetsInstance id (some (record r { instance_id = id })) s t)
            (call (put_instance b.store id r))
    put_instance-Does id r = Does-relabel v s _ fault _ (
        Does-from v (λ q u t. SetsInstance id (some (record r { instance_id = id })) q t)
          (put_instance b.store id r) (put_instance-Ends b.store v laws id r) s)

    module _ (id : Text) (details : Details) where
      provision_new-Does :
          (p : Plan) (spec : InstanceParams)
          → s.instances id ≡ none
          → find_plan b.catalog.plans details.plan_id ≡ ok p
          → requested_params b (instance_schema p) p details.raw_parameters ≡ ok spec
          → Does v s (Provisioned b id details s) (provision_new b id p spec)
      unfolding provision_new
      provision_new-Does p spec free found resolved =
          let (q, same) = plan_found b b.catalog.plans details.plan_id p quotas found in
          Does-bind v s (Provisioned b id details s) (lift (names b id spec.name)) _
            (search keeps_rules)
            λ w1 n e1 named.
              Does-bind v s (Provisioned b id details s)
                (relabel (map_admin_error err_instance_already_exists)
                  (Gaussdb.provision b.admin n spec))
                _ (search (keeps_rules, Keeps-Leaves, provision-Leaves b.admin n spec))
                λ w2 u e2 r2.
                  let r : InstanceRecord = record {
                    instance_id = id;
                    service_id = b.catalog.service.service_id;
                    plan_id = p.id;
                    database = n.database;
                    params = spec;
                  } in
                  let request : IsRequested b id details r = record {
                    keyed = refl;
                    service = refl;
                    named_plan = same;
                    plan = p;
                    found = found;
                    resolved = resolved;
                    planned = record {
                      plan = p;
                      found = subst (λ i. find_plan b.catalog.plans i ≡ ok p) (sym same) found;
                      within =
                          IsWithin-plan b quotas (instance_schema p) details.plan_id
                            details.raw_parameters p spec found resolved;
                      names = n;
                      named =
                          map_err-eq-ok fault (names_for b.hash id b.cfg.name_prefix spec.name)
                            (unfold names in named);
                      database = refl;
                    };
                  } in
                  Does-return v s (Provisioned b id details s)
                    (call (put_instance b.store id (record r { instance_id = [] })))
                    (λ _. record { already_exists = false })
                    (Does-map v s _ _ _ (λ _ t set. recorded r refl free request set)
                      (put_instance-Does id (record r { instance_id = [] })))

      provision_over-Does :
          (p : Plan) (spec : InstanceParams) (existing : Option InstanceRecord)
          → s.instances id ≡ existing
          → find_plan b.catalog.plans details.plan_id ≡ ok p
          → requested_params b (instance_schema p) p details.raw_parameters ≡ ok spec
          → Does v s (Provisioned b id details s) (provision_over b id p spec existing)
      unfolding provision_over
      provision_over-Does p spec none free found resolved =
          provision_new-Does p spec free found resolved
      provision_over-Does p spec (some r) there found resolved =
          Does-if v s (Provisioned b id details s) _ _ _
            (λ same.
              Does-pure v s (Provisioned b id details s) (record { already_exists = true })
                (existed r refl there (Same-eq s s refl)))
            (Does-raise v s (Provisioned b id details s) err_instance_already_exists)

      provision-Does :
          Does v s (Served b details (Provisioned b id details s)) (provision b id details)
      unfolding provision
      provision-Does = Does-check_service b v s details (Provisioned b id details s) _ (
          Does-bind v s _ (lift (plan b details.plan_id)) _ (search keeps_rules) λ w1 p e1 r1.
            Does-bind v s _
              (checked (requested_params b (instance_schema p) p details.raw_parameters)) _
              (search keeps_rules)
              λ w2 spec e2 r2.
                Does-bind v s _ (call (get_instance b.store id)) _
                  (search (keeps_rules, get_instance-Keeps b.store v laws))
                  λ w3 existing e3 r3.
                    provision_over-Does p spec existing (found_row b v laws s id w3 existing e3 r3)
                      (plan_lem b details.plan_id p r1) (map_err-eq-ok _ _ r2))

      update_found-Does :
          (old : InstanceRecord)
          → s.instances id ≡ some old
          → Does v s (λ u t. Updated b id details s t) (update_found b id details old)
      unfolding update_found with_quotas
      update_found-Does old there =
          Does-bind v s (λ u t. Updated b id details s t)
            (guard_not
              (not (text_eq details.plan_id []) && not (text_eq details.plan_id old.plan_id))
              err_plan_change_not_supported)
            _ (search keeps_rules)
            λ w0 u e0 r0.
              Does-bind v s (λ u t. Updated b id details s t) (lift (plan b old.plan_id)) _
                (search keeps_rules)
                λ w1 p e1 r1.
                  Does-bind v s (λ u t. Updated b id details s t)
                    (checked (requested_params b (updatable_schema p) p details.raw_parameters)) _
                    (search keeps_rules)
                    λ w2 requested e2 r2.
                      let params : InstanceParams = requoted old.params requested in
                      let found = plan_lem b old.plan_id p r1 in
                      Does-bind v s (λ u t. Updated b id details s t)
                        (lift (names b id params.name)) _ (search keeps_rules)
                        λ w3 n e3 r3.
                          Does-bind v s (λ u t. Updated b id details s t)
                            (call (Gaussdb.update b.admin n params)) _
                            (search (keeps_rules, Keeps-Leaves, update-Leaves b.admin n params))
                            λ w4 u4 e4 r4.
                              Does-map v s (λ u t. Updated b id details s t) _ _
                                (λ _ t set. record {
                                  old = old;
                                  there = there;
                                  same_plan =
                                      plan_kept details.plan_id old.plan_id
                                        (guard_not-eq-ok _ _ w0 r0);
                                  plan = p;
                                  found = found;
                                  requested = requested;
                                  resolved = map_err-eq-ok _ _ r2;
                                  within =
                                      IsWithin-plan b quotas (updatable_schema p) old.plan_id
                                        details.raw_parameters p requested found
                                        (map_err-eq-ok _ _ r2);
                                  set = set;
                                })
                                (put_instance-Does id (record old { params = params }))

      update-Does :
          Does v s (Served b details (λ u t. Updated b id details s t)) (update b id details)
      unfolding update
      update-Does =
          Does-check_service b v s details (λ u t. Updated b id details s t) _
            (Does-bind v s _ (call (get_instance b.store id)) _
              (search (keeps_rules, get_instance-Keeps b.store v laws))
              λ w1 o e1 r1.
                Does-bind v s _ (require err_instance_not_found o) _ (search keeps_rules)
                  λ w2 old e2 r2.
                    update_found-Does old
                      (found_row b v laws s id w1 o e1 r1 ∙ required _ o w2 old r2))

  -- Provision, whatever the request holds and whichever call fails. An error leaves every record
  -- as it was. A result means that the request names the catalog's service. It either says that
  -- the instance existed already, and then a record stood under the id and nothing changed; or it
  -- says that it did not, and then the id was free and now has one record: of the catalog's
  -- service and of the plan that the request names, with the parameters that the request resolves
  -- to under that plan's schema, within the plan, and with the database that the id and the name
  -- give. All other records are as before. The plans are assumed to have quotas from 1 to below
  -- 2^53, and the tables to be tables.
  pub provision-Ends :
      (id : Text) (details : Details) (w : World I B S R)
      → Ends
          (rows v w)
          (Served b details (Provisioned b id details (rows v w)))
          (rows v (provision b id details w).1)
          (provision b id details w).0
  provision-Ends id details w = (provision-Does (rows v w) id details).at w refl

  -- Update, whatever the request holds and whichever call fails. An error leaves every record as
  -- it was. A result means that the request names the catalog's service, and no plan or the
  -- recorded one, that an instance was recorded under the id, and that its record now has the two
  -- quotas that the request resolves to under the update schema of the recorded plan, which are
  -- within that plan, and is otherwise as it was, as are all other records. The plans are assumed
  -- to have quotas from 1 to below 2^53, and the tables to be tables.
  pub update-Ends :
      (id : Text) (details : Details) (w : World I B S R)
      → Ends
          (rows v w)
          (Served b details (λ u t. Updated b id details (rows v w) t))
          (rows v (update b id details w).1)
          (update b id details w).0
  update-Ends id details w = (update-Does (rows v w) id details).at w refl
