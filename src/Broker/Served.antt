-- ===== src/Broker/Served.antt =====
-- One request takes the records by one step of the specification: the outcomes of the handlers as
-- steps, and the requests that only read.
use osb_opengauss_go.Prelude.{if◌then◌else◌, text_eq, ◌≡◌, sym, subst, All, Text, some}
use osb_opengauss_go.Result.{Result, ok, err}
use osb_opengauss_go.Exec.{Exec}
use osb_opengauss_go.World.{World}
use osb_opengauss_go.Params.Bounds.{HasQuotas}
use osb_opengauss_go.Broker.{Broker, Details, ProvisionedServiceSpec, Binding}
use osb_opengauss_go.Broker.Rows.{Rows, Views, rows, IsStore, Keeps, keeps_rules}
use osb_opengauss_go.Broker.Access.{get_instance-Keeps, get_binding-Keeps}
use osb_opengauss_go.Broker.Spec.{Step, stay, provisioned, updated, deprovisioned, bound, unbound}
use osb_opengauss_go.Broker.Outcomes.{
  Served, Ends, Provisioned, existed, recorded, Updated, Deprovisioned, Bound, Unbound,
}
use osb_opengauss_go.Broker.Rules.{Same-eq}
use osb_opengauss_go.Broker.InstanceSteps.{provision-Ends, update-Ends}
use osb_opengauss_go.Broker.RemovalSteps.{deprovision-Ends}
use osb_opengauss_go.Broker.BindingSteps.{bind-Ends, unbind-Ends}
use osb_opengauss_go.Broker.Handlers.{
  provision, update, deprovision, bind, unbind, fetch_instance, fetch_binding, last_operation,
  last_binding_operation,
}
use osb_opengauss_go.Broker.Requests.{
  Request, provision_request, update_request, deprovision_request, bind_request, unbind_request,
  fetch_instance_request, fetch_binding_request, last_operation_request,
  last_binding_operation_request, serve,
}

module _ {F I B S R : Type 0} (b : Broker F I B S R) (s t : Rows) where
  Ends-Step :
      {E A : Type 0} (Q : A → Rows → Type 0) (r : Result E A)
      → ((a : A) → Q a t → Step b s t)
      → Ends s Q t r
      → Step b s t
  Ends-Step Q (ok a) h end = h a end
  Ends-Step Q (err e) h (instances, bindings) = stay instances bindings

  Provisioned-Step :
      (id : Text) (details : Details) (a : ProvisionedServiceSpec)
      → Provisioned b id details s a t
      → Step b s t
  Provisioned-Step id details a (existed r flag there (instances, bindings)) =
      stay instances bindings
  Provisioned-Step id details a (recorded r flag free request (set, bindings)) =
      provisioned r (rw request.keyed free) request.planned
        (subst (λ k. (j : Text) → t.instances j ≡ (if text_eq k j then some r else s.instances j))
          (sym request.keyed) set)
        bindings

  Updated-Step : (id : Text) (details : Details) → Updated b id details s t → Step b s t
  Updated-Step id details h =
      updated id h.old h.requested h.plan h.there h.found h.within h.set.0 h.set.1

  Deprovisioned-Step : (id : Text) → Deprovisioned id s t → Step b s t
  Deprovisioned-Step id h = deprovisioned id h.free h.set.0 h.set.1

  Bound-Step :
      (instance_id id : Text) (details : Details) (a : Binding)
      → Bound b instance_id id details s a t
      → Step b s t
  Bound-Step instance_id id details a (existed r flag there owner (instances, bindings)) =
      stay instances bindings
  Bound-Step instance_id id details a (recorded r i flag free there issued (instances, set)) =
      bound r i (rw issued.keyed free) (rw issued.owner there) instances (
        subst (λ k. (j : Text) → t.bindings j ≡ (if text_eq k j then some r else s.bindings j))
          (sym issued.keyed) set)

  Unbound-Step : (instance_id id : Text) → Unbound instance_id id s t → Step b s t
  Unbound-Step instance_id id h = unbound id h.set.0 h.set.1

-- requests that only read the records
module _ {F I B S R : Type 0} (b : Broker F I B S R) (v : Views I B)
    (laws : IsStore v b.store) where
  fetch_instance-Keeps : (id : Text) → Keeps v (fetch_instance b id)
  unfolding fetch_instance
  fetch_instance-Keeps id = search (keeps_rules, get_instance-Keeps b.store v laws)

  fetch_binding-Keeps : (id : Text) → Keeps v (fetch_binding b id)
  unfolding fetch_binding
  fetch_binding-Keeps id = search (keeps_rules, get_binding-Keeps b.store v laws)

  last_operation-Keeps : (id : Text) → Keeps v (last_operation b id)
  unfolding last_operation
  last_operation-Keeps id = search (keeps_rules, get_instance-Keeps b.store v laws)

  last_binding_operation-Keeps : (id : Text) → Keeps v (last_binding_operation b id)
  unfolding last_binding_operation
  last_binding_operation-Keeps id = search (keeps_rules, get_binding-Keeps b.store v laws)

  Keeps-Step :
      {E A : Type 0} (m : Exec (World I B S R) E A)
      → Keeps v m
      → (w : World I B S R) → Step b (rows v w) (rows v (m w).1)
  Keeps-Step m h w =
      let (instances, bindings) = Same-eq (rows v w) (rows v (m w).1) (h.at w) in
      stay instances bindings

  module _ (quotas : All HasQuotas b.catalog.plans) where
    pub serve-Step : (r : Request) (w : World I B S R) → Step b (rows v w) (rows v (serve b r w))
    unfolding serve
    serve-Step (provision_request id d) w =
        Ends-Step b _ _ (Served b d (Provisioned b id d (rows v w))) (provision b id d w).0
          (λ a q. Provisioned-Step b _ _ id d a q.1) (provision-Ends b v laws quotas id d w)
    serve-Step (update_request id d) w =
        Ends-Step b _ _ (Served b d (λ u t. Updated b id d (rows v w) t)) (update b id d w).0
          (λ _ q. Updated-Step b _ _ id d q.1) (update-Ends b v laws quotas id d w)
    serve-Step (deprovision_request id d) w =
        Ends-Step b _ _ (Served b d (λ u t. Deprovisioned id (rows v w) t)) (deprovision b id d w).0
          (λ _ q. Deprovisioned-Step b _ _ id q.1) (deprovision-Ends b v laws id d w)
    serve-Step (bind_request instance_id id d) w =
        Ends-Step b _ _ (Served b d (Bound b instance_id id d (rows v w)))
          (bind b instance_id id d w).0 (λ a q. Bound-Step b _ _ instance_id id d a q.1)
          (bind-Ends b v laws instance_id id d w)
    serve-Step (unbind_request instance_id id d) w =
        Ends-Step b _ _ (Served b d (λ u t. Unbound instance_id id (rows v w) t))
          (unbind b instance_id id d w).0 (λ _ q. Unbound-Step b _ _ instance_id id q.1)
          (unbind-Ends b v laws instance_id id d w)
    serve-Step (fetch_instance_request id) w = Keeps-Step _ (fetch_instance-Keeps id) w
    serve-Step (fetch_binding_request id) w = Keeps-Step _ (fetch_binding-Keeps id) w
    serve-Step (last_operation_request id) w = Keeps-Step _ (last_operation-Keeps id) w
    serve-Step (last_binding_operation_request id) w =
        Keeps-Step _ (last_binding_operation-Keeps id) w
