-- ===== src/Broker/Answers.antt =====
-- Bind, when it succeeds: the record that it leaves, or that was there, has what the request asks
-- for and the credentials that are answered.
use osb_opengauss_go.Prelude.{
  ◌≡◌, sym, ap, ◌∙◌, subst, not, true, false, ◌&&◌, Option, none, some, Text, codes, ◌++◌, text_eq,
  text_eq_refl, Bool-cases, inl, inr,
}
use osb_opengauss_go.Result.{Result, ok, err≢ok, ok-injective, map_err, map_err-eq-ok}
use osb_opengauss_go.Exec.{lift, relabel, bind-eq-ok, relabel-eq-ok, guard_not-eq-ok, continue_end}
use osb_opengauss_go.World.{World, on_bindings}
use osb_opengauss_go.Names.{user_for}
use osb_opengauss_go.Value.{Fields}
use osb_opengauss_go.Gaussdb
use osb_opengauss_go.Params.{BindingParams, name_of}
use osb_opengauss_go.Params.Schemas.{binding_schema, parse_params}
use osb_opengauss_go.State.{
  InstanceRecord, BindingRecord, BindingInfo, get_row, read_binding, get_instance, get_binding,
  put_binding,
}
use osb_opengauss_go.State.Rows.{get_row-reads, get_row-ok}
use osb_opengauss_go.State.Credentials.{IsReadable, stored_row, put_info}
use osb_opengauss_go.Table.{IsTable}
use osb_opengauss_go.Broker.{
  Error, Broker, Binding, Details, call, checked, fault, require, map_admin_error,
  err_instance_not_found, err_binding_already_exists, credentials_for,
}
use osb_opengauss_go.Broker.Lookups.{required}
use osb_opengauss_go.Broker.Handlers.{names, check_service, bind_new, bind_over, bind}

module _ {F I B S R : Type 0} (b : Broker F I B S R) (row : B → Text → Option BindingRecord)
    (laws : IsTable (λ r. r.binding_id) (λ r. r.instance_id) row b.store.bindings)
    (readable : IsReadable b.store) (instance_id binding_id : Text) (d : Details) where
  -- the request passes the tests that come before the lookup of the binding, in the world `w`
  pub record IsAdmitted (i : InstanceRecord) (params : Fields F) (w : World I B S R) : Type 0 where
    pub service : not (text_eq d.service_id b.catalog.service.service_id) ≡ false
    pub known : (get_instance b.store instance_id w).0 ≡ ok (some i)
    pub parsed : parse_params b.store.json b.schemas binding_schema d.raw_parameters ≡ ok params

  abbrev pub behind_instance : World I B S R → World I B S R
  behind_instance w = (get_instance b.store instance_id w).1

  abbrev pub spec_of : Fields F → BindingParams
  spec_of params = record { name = name_of b.float params }

  pub bind_admitted :
      (i : InstanceRecord) (params : Fields F) (w : World I B S R) (o : Option BindingInfo)
      → IsAdmitted i params w
      → (get_binding b.store binding_id (behind_instance w)).0 ≡ ok o
      → bind b instance_id binding_id d w
        ≡ bind_over b instance_id binding_id i
            (spec_of params)
            o
            (get_binding b.store binding_id (behind_instance w)).1
  unfolding bind check_service
  bind_admitted i params w o a found = rw (a.service, a.known, a.parsed, found)

  admitted :
      (w : World I B S R) (x : Binding)
      → (bind b instance_id binding_id d w).0 ≡ ok x
      → (i : InstanceRecord) × (params : Fields F) × (o : Option BindingInfo) × IsAdmitted i params
          w
        × ((get_binding b.store binding_id (behind_instance w)).0 ≡ ok o)
  unfolding bind check_service
  admitted w x h =
      let (u, tested, h1) = bind-eq-ok (check_service b d.service_id) _ w h in
      let service = guard_not-eq-ok _ _ w tested in
      let (found, looked, h2) =
        bind-eq-ok (call (get_instance b.store instance_id)) _ w (rw service at h) in
      let w1 = behind_instance w in
      let (i, some_i, h3) = bind-eq-ok (require err_instance_not_found found) _ w1 h2 in
      let is_i = required err_instance_not_found found w1 i some_i in
      let (params, parsed, h4) =
        bind-eq-ok (checked (parse_params b.store.json b.schemas binding_schema d.raw_parameters)) _
          w1 (rw is_i at h3) in
      let (o, seen, h5) = bind-eq-ok (call (get_binding b.store binding_id)) _ w1 h4 in
      (
        i,
        params,
        o,
        record {
          service = service;
          known = relabel-eq-ok fault (get_instance b.store instance_id) w looked ∙ ap ok is_i;
          parsed = map_err-eq-ok _ _ parsed;
        },
        relabel-eq-ok fault (get_binding b.store binding_id) w1 seen,
      )

  -- what the record says is what the request asks for, and what was answered
  pub record Answers (spec : BindingParams) (o : Option BindingRecord) (x : Binding) : Type 0 where
    pub info : BindingInfo
    pub read : read_binding b.store o ≡ ok (some info)
    pub asked : (text_eq info.instance_id instance_id && text_eq info.params.name spec.name) ≡ true
    pub answered : info.credentials ≡ x.credentials

  bind_new-Answers :
      (i : InstanceRecord) (spec : BindingParams) (w : World I B S R) (x : Binding)
      → (bind_new b instance_id binding_id i spec w).0 ≡ ok x
      → Answers spec (row (bind_new b instance_id binding_id i spec w).1.bindings binding_id) x
  unfolding bind_new
  bind_new-Answers i spec w x h =
      let (n, named, h1) = bind-eq-ok (lift (names b instance_id i.params.name)) _ w h in
      let (username, user, h2) =
        bind-eq-ok (lift (map_err fault (user_for b.hash binding_id b.cfg.name_prefix spec.name))) _
          w h1 in
      let (password, made, h3) =
        bind-eq-ok
          (relabel (map_admin_error err_binding_already_exists) (Gaussdb.bind b.admin n username)) _
          w h2 in
      let w1 = (Gaussdb.bind b.admin n username w).1 in
      let creds = credentials_for b.cfg n.database username password in
      let (z, put, h4) =
        bind-eq-ok (call (put_binding b.store binding_id username instance_id spec creds)) _ w1
          h3 in
      let (r, there, read) =
        stored_row b.store row laws readable binding_id username instance_id spec creds w1 (
          relabel-eq-ok fault (put_binding b.store binding_id username instance_id spec creds) w1
            put) in
      rw (named, user, made, put)
        (record {
          info = put_info username instance_id spec creds;
          read = rw there read;
          asked = rw (text_eq_refl instance_id, text_eq_refl spec.name);
          answered = ap (λ (y : Binding). y.credentials) (ok-injective h4);
        })

  get_binding-reads :
      (w : World I B S R) (o : Option BindingInfo)
      → (get_binding b.store binding_id w).0 ≡ ok o
      → read_binding b.store (row w.bindings binding_id) ≡ ok o
  unfolding get_binding
  get_binding-reads w o h =
      let (found, looked, h') =
        bind-eq-ok
          (on_bindings
            (get_row b.store.bindings (codes "cannot read binding " ++ binding_id) binding_id))
          _ w h in
      subst (λ q. read_binding b.store q ≡ ok o)
        (sym (get_row-ok b.store.bindings laws binding_id _ w.bindings found looked)) h'

  get_binding_row :
      (w : World I B S R)
      → row (get_binding b.store binding_id w).1.bindings binding_id ≡ row w.bindings binding_id
  unfolding get_binding
  get_binding_row w =
      let text = codes "cannot read binding " ++ binding_id in
      let same = get_row-reads b.store.bindings laws binding_id text w.bindings binding_id in
      continue_end (λ (q : World I B S R). row q.bindings binding_id ≡ row w.bindings binding_id)
        (get_row b.store.bindings text binding_id w.bindings).0 _
        (record w { bindings = (get_row b.store.bindings text binding_id w.bindings).1 })
        (λ found _. same) (λ e _. same)

  bind_over-Answers :
      (i : InstanceRecord) (spec : BindingParams) (w : World I B S R) (o : Option BindingInfo)
      (x : Binding)
      → read_binding b.store (row w.bindings binding_id) ≡ ok o
      → (bind_over b instance_id binding_id i spec o w).0 ≡ ok x
      → Answers spec (row (bind_over b instance_id binding_id i spec o w).1.bindings binding_id) x
  unfolding bind_over
  bind_over-Answers i spec w none x read h = bind_new-Answers i spec w x h
  bind_over-Answers i spec w (some info) x read h =
      elim (Bool-cases
        (text_eq info.instance_id instance_id && text_eq info.params.name spec.name)) [
          | inl same ↦ rw same (record {
            info = info;
            read = read;
            asked = same;
            answered = ap (λ (y : Binding). y.credentials) (ok-injective (rw same at h));
          })
          | inr differs ↦ absurd (err≢ok (rw differs at h))
        ]

  pub bind-Answers :
      (w : World I B S R) (x : Binding)
      → (bind b instance_id binding_id d w).0 ≡ ok x
      → (i : InstanceRecord) × (params : Fields F) × IsAdmitted i params w
        × Answers (spec_of params) (row (bind b instance_id binding_id d w).1.bindings binding_id) x
  bind-Answers w x h =
      let (i, params, o, a, found) = admitted w x h in
      let w1 = behind_instance w in
      let runs = bind_admitted i params w o a found in
      let read =
        subst (λ q. read_binding b.store q ≡ ok o) (sym (get_binding_row w1))
          (get_binding-reads w1 o found) in
      (
        i,
        params,
        a,
        subst
            (λ (q : Result Error Binding × World I B S R).
              Answers (spec_of params) (row q.1.bindings binding_id) x)
            (sym runs)
            (bind_over-Answers i (spec_of params) (get_binding b.store binding_id w1).1 o x read
              (ap (λ (q : Result Error Binding × World I B S R). q.0) (sym runs) ∙ h)),
      )
