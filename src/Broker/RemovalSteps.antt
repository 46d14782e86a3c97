-- ===== src/Broker/RemovalSteps.antt =====
-- Deprovision: what it has done to the records when it returns.
use osb_opengauss_go.Prelude.{
  ◌≡◌, refl, ◌∙◌, subst, ◌≢◌, false, ltb, length, none, some, List, Text,
}
use osb_opengauss_go.Result.{ok}
use osb_opengauss_go.Exec.{lift, guard_not-eq-ok, relabel-eq-ok}
use osb_opengauss_go.World.{World}
use osb_opengauss_go.Gaussdb
use osb_opengauss_go.Gaussdb.Frame.{deprovision-Leaves}
use osb_opengauss_go.State.{
  BindingRecord, BindingInfo, get_instance, delete_instance, bindings_for_instance,
}
use osb_opengauss_go.Broker.{Broker, Details, require, call, fault, err_instance_not_found}
use osb_opengauss_go.Broker.Rows.{Rows, Views, rows, IsStore, Keeps, keeps_rules, Keeps-Leaves}
use osb_opengauss_go.Broker.Access.{
  get_instance-Keeps, bindings_for_instance-Keeps, bindings_for_instance-none,
}
use osb_opengauss_go.Broker.Lookups.{Does-check_service, found_row, required}
use osb_opengauss_go.Broker.Writes.{delete_instance-Ends}
use osb_opengauss_go.Broker.Outcomes.{Served, SetsInstance, Ends, Deprovisioned}
use osb_opengauss_go.Broker.Rules.{Does, Does-map, Does-from, Does-relabel, Does-bind}
use osb_opengauss_go.Broker.Handlers.{names, refuse_bound, deprovision}

module _ {F I B S R : Type 0} (b : Broker F I B S R) (v : Views I B) (laws : IsStore v b.store)
    (s : Rows) where
  none_bound :
      (infos : List BindingInfo) (w : World I B S R) (u : Unit {0})
      → (refuse_bound b infos w).0 ≡ ok u
      → ltb 0 (length infos) ≡ false
  unfolding refuse_bound
  none_bound infos w u h = guard_not-eq-ok _ _ w h

  -- what `len(bindings) == 0` says of the records
  none_of :
      (id : Text) (w : World I B S R) (infos : List BindingInfo)
      → rows v w ≡ s
      → (call (bindings_for_instance b.store id) w).0 ≡ ok infos
      → (w' : World I B S R) (u : Unit {0}) → (refuse_bound b infos w').0 ≡ ok u
      → (k : Text) (r : BindingRecord) → s.bindings k ≡ some r
      → r.instance_id ≢ id
  none_of id w infos e read w' u empty =
      subst
        (λ (q : Rows). (k : Text) (r : BindingRecord) → q.bindings k ≡ some r → r.instance_id ≢ id)
        e
        (bindings_for_instance-none b.store v laws id w infos
          (relabel-eq-ok fault (bindings_for_instance b.store id) w read)
          (none_bound infos w' u empty))

  refuse_bound-Keeps : (infos : List BindingInfo) → Keeps v (refuse_bound b infos)
  unfolding refuse_bound
  refuse_bound-Keeps infos = search keeps_rules

  deprovision-Does :
      (id : Text) (details : Details)
      → Does v s (Served b details (λ u t. Deprovisioned id s t)) (deprovision b id details)
  unfolding deprovision
  deprovision-Does id details =
      Does-check_service b v s details (λ u t. Deprovisioned id s t) _
        (Does-bind v s _ (call (get_instance b.store id)) _
          (search (keeps_rules, get_instance-Keeps b.store v laws))
          λ w1 o e1 r1.
            Does-bind v s _ (require err_instance_not_found o) _ (search keeps_rules)
              λ w2 old e2 r2.
                Does-bind v s _ (call (bindings_for_instance b.store id)) _
                  (search (keeps_rules, bindings_for_instance-Keeps b.store v laws))
                  λ w3 infos e3 r3.
                    Does-bind v s _ (refuse_bound b infos) _ (refuse_bound-Keeps infos)
                      λ w4 u4 e4 r4.
                        Does-bind v s _ (lift (names b id old.params.name)) _ (search keeps_rules)
                          λ w5 n e5 r5.
                            Does-bind v s _ (call (Gaussdb.deprovision b.admin n)) _
                              (search (keeps_rules, Keeps-Leaves, deprovision-Leaves b.admin n))
                              λ w6 u6 e6 r6.
                                Does-map v s (λ u t. Deprovisioned id s t)
                                  (λ u t. SetsInstance id none s t) _
                                  (λ _ t set. record {
                                    old = old;
                                    there =
                                        found_row b v laws s id w1 o e1 r1
                                        ∙ required err_instance_not_found o w2 old r2;
                                    free = none_of id w3 infos e3 r3 w4 u4 r4;
                                    set = set;
                                  })
                                  (Does-relabel v s _ fault _ (
                                    Does-from v (λ q u t. SetsInstance id none q t)
                                      (delete_instance b.store id)
                                      (delete_instance-Ends b.store v laws id) s)))

module _ {F I B S R : Type 0} (b : Broker F I B S R) (v : Views I B)
    (laws : IsStore v b.store) where
  -- Deprovision, whatever the request holds and whichever call fails. An error leaves every
  -- record as it was. A result means that the request names the catalog's service, that an
  -- instance was recorded under the id, that no binding record was one of it, and that its
  -- record, and no other, is gone. The tables are assumed to be tables.
  pub deprovision-Ends :
      (id : Text) (details : Details) (w : World I B S R)
      → Ends
          (rows v w)
          (Served b details (λ u t. Deprovisioned id (rows v w) t))
          (rows v (deprovision b id details w).1)
          (deprovision b id details w).0
  deprovision-Ends id details w = (deprovision-Does b v laws (rows v w) id details).at w refl
