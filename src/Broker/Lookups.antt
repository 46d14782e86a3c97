-- ===== src/Broker/Lookups.antt =====
-- How a handler begins: the test of the service id, and the lookups of the instance and the binding.
use osb_opengauss_go.Prelude.{
  arith, refl, subst, text_eq, text_eq_sound, Bool-cases, inl, inr, ◌≡◌, sym, ap, ◌∙◌, Option, none,
  some, Text,
}
use osb_opengauss_go.Result.{ok, err≢ok, ok-injective}
use osb_opengauss_go.Exec.{Exec, guard_not-eq-ok, ◌>>◌, relabel-eq-ok}
use osb_opengauss_go.World.{World}
use osb_opengauss_go.State.{InstanceRecord, BindingInfo, get_instance, get_binding}
use osb_opengauss_go.Broker.{Details, Broker, Error, fault, call, require}
use osb_opengauss_go.Broker.Rows.{Rows, Views, rows, IsStore, Keeps, keeps_rules}
use osb_opengauss_go.Broker.Access.{Shows, get_instance-ok, get_binding-ok}
use osb_opengauss_go.Broker.Outcomes.{Served}
use osb_opengauss_go.Broker.Rules.{Does, Does-map, Does-bind}
use osb_opengauss_go.Broker.Handlers.{check_service, bound_to}

module _ {F I B S R : Type 0} (b : Broker F I B S R) (v : Views I B) where
  pub check_service-Keeps : (service_id : Text) → Keeps v (check_service b service_id)
  unfolding check_service
  check_service-Keeps service_id = search keeps_rules

  check_service_lem :
      (service_id : Text) (w : World I B S R) (u : Unit {0})
      → (check_service b service_id w).0 ≡ ok u
      → service_id ≡ b.catalog.service.service_id
  unfolding check_service
  check_service_lem service_id w u h =
      let same = guard_not-eq-ok _ _ w h in
      text_eq_sound service_id b.catalog.service.service_id (ground arith)

  -- a handler begins with the test of the service id
  pub Does-check_service :
      {A : Type 0} (s : Rows) (details : Details) (Q : A → Rows → Type 0)
      (m : Exec (World I B S R) Error A)
      → Does v s Q m
      → Does v s (Served b details Q) (check_service b details.service_id >> m)
  Does-check_service s details Q m h =
      Does-bind v s (Served b details Q) (check_service b details.service_id) (λ _. m)
        (check_service-Keeps details.service_id)
        λ w u e r.
          Does-map v s (Served b details Q) Q m
            (λ a t q. (check_service_lem details.service_id w u r, q)) h

module _ {S A : Type 0} where
  pub required : (e : Error) (o : Option A) (w : S) (r : A) → (require e o w).0 ≡ ok r → o ≡ some r
  required e none w r h = absurd (err≢ok h)
  required e (some x) w r h = ap some (ok-injective h)

module _ {F I B S R : Type 0} (b : Broker F I B S R) (v : Views I B) (laws : IsStore v b.store)
    (s : Rows) where
  pub found_row :
      (id : Text) (w : World I B S R) (o : Option InstanceRecord)
      → rows v w ≡ s
      → (call (get_instance b.store id) w).0 ≡ ok o
      → s.instances id ≡ o
  found_row id w o e h =
      ap (λ (q : Rows). q.instances id) (sym e)
      ∙ get_instance-ok b.store v laws id w o (relabel-eq-ok fault (get_instance b.store id) w h)

  pub shown_row :
      (id : Text) (w : World I B S R) (o : Option BindingInfo)
      → rows v w ≡ s
      → (call (get_binding b.store id) w).0 ≡ ok o
      → Shows (s.bindings id) o
  shown_row id w o e h =
      subst (λ (q : Rows). Shows (q.bindings id) o) e
        (get_binding-ok b.store v laws id w o (relabel-eq-ok fault (get_binding b.store id) w h))

module _ {F I B S R : Type 0} (b : Broker F I B S R) where
  pub bound_to_lem :
      (instance_id : Text) (o : Option InstanceRecord) (existing : Option BindingInfo)
      (pair : InstanceRecord × BindingInfo)
      → bound_to b instance_id o existing ≡ some pair
      → (o ≡ some pair.0) × (existing ≡ some pair.1) × (pair.1.instance_id ≡ instance_id)
  unfolding bound_to
  bound_to_lem instance_id none existing pair h = cc
  bound_to_lem instance_id (some i) none pair h = cc
  bound_to_lem instance_id (some i) (some info) pair h =
      elim (Bool-cases (text_eq info.instance_id instance_id)) [
        | inl same ↦
            let e0 : some (i, info) ≡ some pair = rw same at h in
            let e : (i, info) ≡ pair = cc in
            subst
              (λ (q : InstanceRecord × BindingInfo).
                (some i ≡ some q.0) × (some info ≡ some q.1) × (q.1.instance_id ≡ instance_id))
              e (refl, refl, text_eq_sound info.instance_id instance_id same)
        | inr differs ↦ (let e : none ≡ some pair = rw differs at h in cc)
      ]
