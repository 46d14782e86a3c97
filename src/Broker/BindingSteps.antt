-- ===== src/Broker/BindingSteps.antt =====
-- Bind and Unbind: what each has done to the records when it returns, whatever its request holds and
-- whichever call fails.
use osb_opengauss_go.Prelude.{
  arith, true, false, refl, sym, text_eq_sound, ◌≡◌, ◌∙◌, subst, Option, none, some, Text,
}
use osb_opengauss_go.Result.{ok, map_err, map_err-eq-ok}
use osb_opengauss_go.Exec.{lift, relabel}
use osb_opengauss_go.World.{World}
use osb_opengauss_go.Value.{Fields}
use osb_opengauss_go.Names.{user_for}
use osb_opengauss_go.Gaussdb
use osb_opengauss_go.Gaussdb.Frame.{bind-Leaves, unbind-Leaves}
use osb_opengauss_go.Params.{BindingParams, name_of}
use osb_opengauss_go.Params.Schemas.{binding_schema, parse_params}
use osb_opengauss_go.State.{
  InstanceRecord, BindingInfo, Credentials, get_instance, get_binding, put_binding, delete_binding,
}
use osb_opengauss_go.Broker.{
  Broker, fault, Details, call, checked, require, map_admin_error, err_instance_not_found,
  err_binding_not_found, err_binding_already_exists, credentials_for,
}
use osb_opengauss_go.Broker.Rows.{Rows, Views, rows, IsStore, keeps_rules, Keeps-Leaves}
use osb_opengauss_go.Broker.Access.{Shows, get_instance-Keeps, get_binding-Keeps}
use osb_opengauss_go.Broker.Writes.{binding_record, Written, put_binding-Ends, delete_binding-Ends}
use osb_opengauss_go.Broker.Outcomes.{
  Served, Ends, SetsBinding, IsIssued, Bound, existed, recorded, Unbound,
}
use osb_opengauss_go.Broker.Rules.{
  Does, Same-eq, Does-pure, Does-raise, Does-if, Does-map, Does-from, Does-relabel, Does-bind,
  Does-return,
}
use osb_opengauss_go.Broker.Lookups.{
  Does-check_service, found_row, required, shown_row, bound_to_lem,
}
use osb_opengauss_go.Broker.Handlers.{names, bind_new, bind_over, bind, bound_to, unbind}

module _ {F I B S R : Type 0} (b : Broker F I B S R) (v : Views I B) (laws : IsStore v b.store)
    (s : Rows) where
  put_binding-Does :
      (id username instance_id : Text) (params : BindingParams) (creds : Credentials)
      → Does {S = S} v s
          (Written id username instance_id params s)
          (call (put_binding b.store id username instance_id params creds))
  put_binding-Does id username instance_id params creds = Does-relabel v s _ fault _ (
      Does-from v (Written id username instance_id params)
        (put_binding b.store id username instance_id params creds)
        (put_binding-Ends b.store v laws id username instance_id params creds) s)

  module _ (instance_id id : Text) (details : Details) where
    bind_new-Does :
        (i : InstanceRecord) (params : Fields F)
        → s.bindings id ≡ none
        → s.instances instance_id ≡ some i
        → parse_params b.store.json b.schemas binding_schema details.raw_parameters ≡ ok params
        → Does v s
            (Bound b instance_id id details s)
            (bind_new b instance_id id i (record { name = name_of b.float params }))
    unfolding bind_new
    bind_new-Does i params free there parsed =
        let spec : BindingParams = record { name = name_of b.float params } in
        Does-bind v s (Bound b instance_id id details s) (lift (names b instance_id i.params.name))
          _ (search keeps_rules)
          λ w0 n e0 r0.
            Does-bind v s (Bound b instance_id id details s)
              (lift (map_err fault (user_for b.hash id b.cfg.name_prefix spec.name))) _
              (search keeps_rules)
              λ w1 username e1 r1.
                Does-bind v s (Bound b instance_id id details s)
                  (relabel (map_admin_error err_binding_already_exists)
                    (Gaussdb.bind b.admin n username))
                  _ (search (keeps_rules, Keeps-Leaves, bind-Leaves b.admin n username))
                  λ w2 password e2 r2.
                    let creds = credentials_for b.cfg n.database username password in
                    let issued : (stored : Text)
                        → IsIssued b instance_id id details i
                            (record { already_exists = false; credentials = creds })
                            (binding_record id username instance_id spec stored) =
                      λ stored. record {
                        keyed = refl;
                        owner = refl;
                        params = params;
                        parsed = parsed;
                        named = refl;
                        user = map_err-eq-ok fault _ r1;
                        names = n;
                        database = map_err-eq-ok fault _ (unfold names in r0);
                        password = password;
                        answered = refl;
                      } in
                    Does-return v s (Bound b instance_id id details s)
                      (call (put_binding b.store id username instance_id spec creds))
                      (λ _. record { already_exists = false; credentials = creds })
                      (Does-map v s _ _ _
                        (λ _ t (stored, set).
                          recorded (binding_record id username instance_id spec stored) i refl free
                            there (issued stored) set)
                        (put_binding-Does id username instance_id spec creds))

    bind_over-Does :
        (i : InstanceRecord) (params : Fields F) (o : Option BindingInfo)
        → Shows (s.bindings id) o
        → s.instances instance_id ≡ some i
        → parse_params b.store.json b.schemas binding_schema details.raw_parameters ≡ ok params
        → Does v s
            (Bound b instance_id id details s)
            (bind_over b instance_id id i (record { name = name_of b.float params }) o)
    unfolding bind_over
    bind_over-Does i params none free there parsed = bind_new-Does i params free there parsed
    bind_over-Does i params (some info) (r, taken, shown) there parsed =
        Does-if v s (Bound b instance_id id details s) _ _ _
          (λ same.
            Does-pure v s (Bound b instance_id id details s)
              (record { already_exists = true; credentials = info.credentials })
              (existed r refl taken
                (sym shown ∙ text_eq_sound info.instance_id instance_id (ground arith))
                (Same-eq s s refl)))
          (Does-raise v s (Bound b instance_id id details s) err_binding_already_exists)

    bind-Does :
        Does v s
          (Served b details (Bound b instance_id id details s))
          (bind b instance_id id details)
    unfolding bind
    bind-Does = Does-check_service b v s details (Bound b instance_id id details s) _ (
        Does-bind v s _ (call (get_instance b.store instance_id)) _
          (search (keeps_rules, get_instance-Keeps b.store v laws))
          λ w1 o e1 r1.
            Does-bind v s _ (require err_instance_not_found o) _ (search keeps_rules) λ w2 i e2 r2.
              Does-bind v s _
                (checked
                  (parse_params b.store.json b.schemas binding_schema details.raw_parameters))
                _ (search keeps_rules)
                λ w3 params e3 r3.
                  Does-bind v s _ (call (get_binding b.store id)) _
                    (search (keeps_rules, get_binding-Keeps b.store v laws))
                    λ w4 existing e4 r4.
                      bind_over-Does i params existing (shown_row b v laws s id w4 existing e4 r4)
                        (found_row b v laws s instance_id w1 o e1 r1
                          ∙ required err_instance_not_found o w2 i r2)
                        (map_err-eq-ok _ _ r3))

    unbind-Does :
        Does v s
          (Served b details (λ u t. Unbound instance_id id s t))
          (unbind b instance_id id details)
    unfolding unbind
    unbind-Does =
        Does-check_service b v s details (λ u t. Unbound instance_id id s t) _
          (Does-bind v s _ (call (get_instance b.store instance_id)) _
            (search (keeps_rules, get_instance-Keeps b.store v laws))
            λ w1 o e1 r1.
              Does-bind v s _ (call (get_binding b.store id)) _
                (search (keeps_rules, get_binding-Keeps b.store v laws))
                λ w2 existing e2 r2.
                  Does-bind v s _
                    (require err_binding_not_found (bound_to b instance_id o existing)) _
                    (search keeps_rules)
                    λ w3 pair e3 r3.
                      Does-bind v s _ (lift (names b instance_id pair.0.params.name)) _
                        (search keeps_rules)
                        λ w4 n e4 r4.
                          Does-bind v s _ (call (Gaussdb.unbind b.admin n pair.1.username)) _
                            (search
                              (keeps_rules, Keeps-Leaves, unbind-Leaves b.admin n pair.1.username))
                            λ w5 u5 e5 r5.
                              let (has, taken, owner) =
                                bound_to_lem b instance_id o existing pair
                                  (required err_binding_not_found _ w3 pair r3) in
                              let (r, there, shown) =
                                subst (Shows (s.bindings id)) taken
                                  (shown_row b v laws s id w2 existing e2 r2) in
                              Does-map v s (λ u t. Unbound instance_id id s t)
                                (λ u t. SetsBinding id none s t) _
                                (λ _ t set. record {
                                  bound = r;
                                  there = there;
                                  owner = sym shown ∙ owner;
                                  instance_record = pair.0;
                                  recorded = found_row b v laws s instance_id w1 o e1 r1 ∙ has;
                                  set = set;
                                })
                                (Does-relabel v s _ fault _ (
                                  Does-from v (λ q u t. SetsBinding id none q t)
                                    (delete_binding b.store id)
                                    (delete_binding-Ends b.store v laws id) s)))

module _ {F I B S R : Type 0} (b : Broker F I B S R) (v : Views I B)
    (laws : IsStore v b.store) where
  -- Bind, whatever the request holds and whichever call fails. An error leaves every record as it
  -- was. A result means that the request names the catalog's service. It either says that the
  -- binding existed already, and then a record of the same instance stood under the id and
  -- nothing changed; or it says that it did not, and then the instance is recorded, the id was
  -- free and now has one record: of that instance, with the name that the request gives and the
  -- user that the id and the name give, which the answered credentials name beside the instance's
  -- database. All other records are as before. The tables are assumed to be tables.
  pub bind-Ends :
      (instance_id id : Text) (details : Details) (w : World I B S R)
      → Ends
          (rows v w)
          (Served b details (Bound b instance_id id details (rows v w)))
          (rows v (bind b instance_id id details w).1)
          (bind b instance_id id details w).0
  bind-Ends instance_id id details w =
      (bind-Does b v laws (rows v w) instance_id id details).at w refl

  -- Unbind, whatever the request holds and whichever call fails. An error leaves every record as
  -- it was. A result means that the request names the catalog's service, that the instance of the
  -- request is recorded, that a binding of that instance was recorded under the id, and that this
  -- record, and no other, is gone. The tables are assumed to be tables.
  pub unbind-Ends :
      (instance_id id : Text) (details : Details) (w : World I B S R)
      → Ends
          (rows v w)
          (Served b details (λ u t. Unbound instance_id id (rows v w) t))
          (rows v (unbind b instance_id id details w).1)
          (unbind b instance_id id details w).0
  unbind-Ends instance_id id details w =
      (unbind-Does b v laws (rows v w) instance_id id details).at w refl
