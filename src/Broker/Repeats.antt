-- ===== src/Broker/Repeats.antt =====
-- Provision, when it succeeds: what it has recorded, and what the same request answers again.
use osb_opengauss_go.Prelude.{
  ◌≡◌, refl, sym, ap, ◌∙◌, not, true, false, ◌&&◌, Option, none, some, Text, text_eq, text_eq_refl,
  Bool-cases, inl, inr, arith,
}
use osb_opengauss_go.Result.{ok, err≢ok, map_err-eq-ok}
use osb_opengauss_go.Exec.{lift, relabel, bind-eq-ok, relabel-eq-ok, guard_not-eq-ok}
use osb_opengauss_go.World.{World}
use osb_opengauss_go.Gaussdb
use osb_opengauss_go.Params.{Plan, InstanceParams}
use osb_opengauss_go.Params.Schemas.{instance_schema}
use osb_opengauss_go.State.{InstanceRecord, get_instance, put_instance}
use osb_opengauss_go.State.Rows.{put_row-ok}
use osb_opengauss_go.Broker.{
  Broker, Details, ProvisionedServiceSpec, call, checked, fault, same_params, int_eq,
  map_admin_error, err_instance_already_exists,
}
use osb_opengauss_go.Broker.Rows.{Rows, Views, rows, IsStore}
use osb_opengauss_go.Broker.Access.{get_instance-Keeps, get_instance-ok}
use osb_opengauss_go.Broker.Handlers.{
  plan, names, check_service, requested_params, provision_new, provision_over, provision,
}

module _ {F I B S R : Type 0} (b : Broker F I B S R) (id : Text) (d : Details) where
  -- the request passes the tests that come before the lookup of the instance
  pub record IsAccepted (p : Plan) (spec : InstanceParams) : Type 0 where
    pub service : not (text_eq d.service_id b.catalog.service.service_id) ≡ false
    pub planned : plan b d.plan_id ≡ ok p
    pub resolved : requested_params b (instance_schema p) p d.raw_parameters ≡ ok spec

  provision_accepted :
      (p : Plan) (spec : InstanceParams) (w : World I B S R) (o : Option InstanceRecord)
      → IsAccepted p spec
      → (get_instance b.store id w).0 ≡ ok o
      → provision b id d w ≡ provision_over b id p spec o (get_instance b.store id w).1
  unfolding provision check_service
  provision_accepted p spec w o a found = rw (a.service, a.planned, a.resolved, found)

  accepted :
      (w : World I B S R) (x : ProvisionedServiceSpec)
      → (provision b id d w).0 ≡ ok x
      → (p : Plan) × (spec : InstanceParams) × (o : Option InstanceRecord) × IsAccepted p spec
        × ((get_instance b.store id w).0 ≡ ok o)
  unfolding provision check_service
  accepted w x h =
      let (u, tested, h1) = bind-eq-ok (check_service b d.service_id) _ w h in
      let service = guard_not-eq-ok _ _ w tested in
      let (p, planned, h2) = bind-eq-ok (lift (plan b d.plan_id)) _ w (rw service at h) in
      let (spec, resolved, h3) =
        bind-eq-ok (checked (requested_params b (instance_schema p) p d.raw_parameters)) _ w h2 in
      let (o, found, h4) = bind-eq-ok (call (get_instance b.store id)) _ w h3 in
      (
        p,
        spec,
        o,
        record { service = service; planned = planned; resolved = map_err-eq-ok _ _ resolved },
        relabel-eq-ok fault (get_instance b.store id) w found,
      )

  abbrev pub Matches : Plan → InstanceParams → InstanceRecord → Type 0
  Matches p spec r = (text_eq r.plan_id p.id && same_params r.params spec) ≡ true

  same_params_refl : (s : InstanceParams) → same_params s s ≡ true
  unfolding same_params int_eq
  same_params_refl s =
      ground (arith, text_eq_refl s.name, text_eq_refl s.compatibility, text_eq_refl s.encoding)

  module _ (v : Views I B) (laws : IsStore v b.store) (p : Plan) (spec : InstanceParams) where
    put_recorded :
        (r : InstanceRecord) (w : World I B S R)
        → (put_instance b.store id r w).0 ≡ ok tt
        → (rows v (put_instance b.store id r w).1).instances id
          ≡ some (record r { instance_id = id })
    unfolding put_instance rows
    put_recorded r w h =
        put_row-ok b.store.instances laws.instance_laws id (record r { instance_id = id })
          w.instances id refl h
        ∙ rw text_eq_refl

    provision_new-recorded :
        (w : World I B S R) (x : ProvisionedServiceSpec)
        → (provision_new b id p spec w).0 ≡ ok x
        → (r : InstanceRecord) × ((rows v (provision_new b id p spec w).1).instances id ≡ some r)
          × Matches p spec r
    unfolding provision_new
    provision_new-recorded w x h =
        let (n, named, h1) = bind-eq-ok (lift (names b id spec.name)) _ w h in
        let (u, made, h2) =
          bind-eq-ok
            (relabel (map_admin_error err_instance_already_exists)
              (Gaussdb.provision b.admin n spec))
            _ w h1 in
        let (z, put, h3) = bind-eq-ok (call (put_instance b.store id _)) _ _ h2 in
        rw (named, made, put)
          (
            _,
            put_recorded _ _ (relabel-eq-ok fault (put_instance b.store id _) _ put),
            rw (text_eq_refl, same_params_refl),
          )

    provision_over-recorded :
        (o : Option InstanceRecord) (w : World I B S R) (x : ProvisionedServiceSpec)
        → (rows v w).instances id ≡ o
        → (provision_over b id p spec o w).0 ≡ ok x
        → (r : InstanceRecord) × ((rows v (provision_over b id p spec o w).1).instances id ≡ some r)
          × Matches p spec r
    unfolding provision_over
    provision_over-recorded none w x there h = provision_new-recorded w x h
    provision_over-recorded (some r) w x there h =
        elim (Bool-cases (text_eq r.plan_id p.id && same_params r.params spec)) [
          | inl same ↦ rw same (r, there, same)
          | inr differs ↦ absurd (err≢ok (rw differs at h))
        ]

  again :
      (p : Plan) (spec : InstanceParams) (r : InstanceRecord) (w : World I B S R)
      → Matches p spec r
      → provision_over b id p spec (some r) w ≡ (ok (record { already_exists = true }), w)
  unfolding provision_over
  again p spec r w same = rw same

  -- A Provision that succeeds leaves a record under the id: its plan is the one of the catalog that
  -- the request names, and its parameters are those that the request resolves to in that plan.
  pub provision-recorded :
      (v : Views I B) (laws : IsStore v b.store) (w : World I B S R) (x : ProvisionedServiceSpec)
      → (provision b id d w).0 ≡ ok x
      → (p : Plan) × (spec : InstanceParams) × (r : InstanceRecord) × IsAccepted p spec
        × ((rows v (provision b id d w).1).instances id ≡ some r)
        × Matches p spec r
  provision-recorded v laws w x h =
      let (p, spec, o, a, found) = accepted w x h in
      let w1 : World I B S R = (get_instance b.store id w).1 in
      let runs = provision_accepted p spec w o a found in
      let there =
        ap (λ (q : Rows). q.instances id) ((get_instance-Keeps b.store v laws id).at w)
        ∙ get_instance-ok b.store v laws id w o found in
      let (r, recorded, same) =
        provision_over-recorded v laws p spec o w1 x there (ap (λ q. q.0) (sym runs) ∙ h) in
      (p, spec, r, a, ap (λ q. (rows v q.1).instances id) runs ∙ recorded, same)

  -- After a Provision that succeeds, in any later state with the same record under the id, in which
  -- the lookup of the instance succeeds, the same request succeeds: it answers that the instance
  -- exists, and does nothing but the lookup.
  pub provision-repeated :
      (v : Views I B) (laws : IsStore v b.store) (w : World I B S R) (x : ProvisionedServiceSpec)
      (later : World I B S R) (o : Option InstanceRecord)
      → (provision b id d w).0 ≡ ok x
      → (rows v later).instances id ≡ (rows v (provision b id d w).1).instances id
      → (get_instance b.store id later).0 ≡ ok o
      → provision b id d later
        ≡ (ok (record { already_exists = true }), (get_instance b.store id later).1)
  provision-repeated v laws w x later o h still found =
      let (p, spec, r, a, recorded, same) = provision-recorded v laws w x h in
      let seen = sym (get_instance-ok b.store v laws id later o found) ∙ still ∙ recorded in
      provision_accepted p spec later o a found
      ∙ ap (λ q. provision_over b id p spec q (get_instance b.store id later).1) seen
      ∙ again p spec r (get_instance b.store id later).1 same
