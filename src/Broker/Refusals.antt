-- ===== src/Broker/Refusals.antt =====
-- Deprovision, where bindings are left: it refuses, and touches neither the records nor the server.
use osb_opengauss_go.Prelude.{
  ◌≡◌, refl, ap, ◌∙◌, false, true, Bool, ltb, length, none, some, Option, List, Text,
}
use osb_opengauss_go.Result.{Result, ok, err}
use osb_opengauss_go.Exec.{Exec, guard_not, continue, lift, guard_not-eq-ok, relabel-eq-ok, ◌>>=◌}
use osb_opengauss_go.World.{World}
use osb_opengauss_go.State.{
  BindingRecord, BindingInfo, get_instance, read_bindings, bindings_for_instance,
}
use osb_opengauss_go.Broker.{Broker, Details, Error, require, call, fault, err_instance_not_found}
use osb_opengauss_go.Broker.Rows.{Rows, Views, rows, IsStore, Keeps, keeps_rules}
use osb_opengauss_go.Broker.Access.{
  get_instance-Keeps, bindings_for_instance-Keeps, bindings_for_instance-none,
}
use osb_opengauss_go.Broker.Lookups.{check_service-Keeps}
use osb_opengauss_go.Broker.Handlers.{check_service, refuse_bound, deprovision}

module _ {I B S R E A : Type 0} (v : Views I B) (s : Rows) where
  -- from the records `s` the method ends in an error, with the records and the server as they were
  pub record Refuses (m : Exec (World I B S R) E A) : Type 0 where
    pub at :
        (w : World I B S R)
        → rows v w ≡ s
        → (e : E) × ((m w).0 ≡ err e) × (rows v (m w).1 ≡ s) × ((m w).1.server ≡ w.server)

module _ {I B S R E A C : Type 0} (v : Views I B) (s : Rows) where
  Refuses-continue :
      (r : Result E A) (f : A → Exec (World I B S R) E C)
      → ((a : A) → r ≡ ok a → Refuses v s (f a))
      → Refuses v s (λ w. continue r f w)
  Refuses-continue (ok a) f h = h a refl
  Refuses-continue (err e) f h = record { at = λ w same. (e, refl, same, refl) }

  Refuses-bind :
      (m : Exec (World I B S R) E A) (f : A → Exec (World I B S R) E C)
      → Keeps v m
      → ((w : World I B S R) → (m w).1.server ≡ w.server)
      → ((w : World I B S R) (a : A) → rows v w ≡ s → (m w).0 ≡ ok a → Refuses v s (f a))
      → Refuses v s (m >>= f)
  Refuses-bind m f keeps quiet rest = record {
    at = λ w same.
        let (e, failed, kept, still) =
          (Refuses-continue (m w).0 f (λ a r. rest w a same r)).at (m w).1 (keeps.at w ∙ same) in
        (e, failed, kept, still ∙ quiet w);
  }

module _ {I B S R E : Type 0} where
  guard_quiet : (c : Bool) (e : E) (w : World I B S R) → (guard_not c e w).1.server ≡ w.server
  guard_quiet true e w = refl
  guard_quiet false e w = refl

module _ {I B S R A : Type 0} where
  require_quiet :
      (e : Error) (o : Option A) (w : World I B S R) → (require e o w).1.server ≡ w.server
  require_quiet e none w = refl
  require_quiet e (some a) w = refl

module _ {W E A C : Type 0} where
  continue-lift :
      (r : Result E A) (f : A → Result E C) (w : W) → (continue r (λ a. lift (f a)) w).1 ≡ w
  continue-lift (ok a) f w = refl
  continue-lift (err e) f w = refl

module _ {F I B S R : Type 0} (b : Broker F I B S R) where
  check_service_quiet : (i : Text) (w : World I B S R) → (check_service b i w).1.server ≡ w.server
  unfolding check_service
  check_service_quiet i w = guard_quiet _ _ w

  get_instance_quiet :
      (id : Text) (w : World I B S R) → (call (get_instance b.store id) w).1.server ≡ w.server
  unfolding get_instance
  get_instance_quiet id w = refl

  bindings_for_instance_quiet :
      (id : Text) (w : World I B S R)
      → (call (bindings_for_instance b.store id) w).1.server ≡ w.server
  unfolding bindings_for_instance
  bindings_for_instance_quiet id w =
      ap (λ (x : World I B S R). x.server) (continue-lift _ (read_bindings b.store) _)

  refuse_bound_quiet :
      (infos : List BindingInfo) (w : World I B S R) → (refuse_bound b infos w).1.server ≡ w.server
  unfolding refuse_bound
  refuse_bound_quiet infos w = guard_quiet _ _ w

  refused_bound :
      (infos : List BindingInfo) (w : World I B S R) (u : Unit {0})
      → (refuse_bound b infos w).0 ≡ ok u
      → ltb 0 (length infos) ≡ false
  unfolding refuse_bound
  refused_bound infos w u h = guard_not-eq-ok _ _ w h

  module _ (v : Views I B) (laws : IsStore v b.store) (s : Rows) where
    refuse_bound-Keeps : (infos : List BindingInfo) → Keeps v (refuse_bound b infos)
    unfolding refuse_bound
    refuse_bound-Keeps infos = search keeps_rules

    -- Where a binding record of the instance is left, Deprovision ends in an error, whatever the
    -- request holds and whichever call fails, and neither the records nor the database server have
    -- changed.
    pub deprovision-Refuses :
        (id : Text) (details : Details) (k : Text) (r : BindingRecord)
        → s.bindings k ≡ some r
        → r.instance_id ≡ id
        → Refuses v s (deprovision b id details)
    unfolding deprovision
    deprovision-Refuses id details k r there same =
        Refuses-bind v s (check_service b details.service_id) _
          (check_service-Keeps b v details.service_id) (check_service_quiet details.service_id)
          λ w0 u e0 r0.
            Refuses-bind v s (call (get_instance b.store id)) _
              (search (keeps_rules, get_instance-Keeps b.store v laws)) (get_instance_quiet id)
              λ w1 o e1 r1.
                Refuses-bind v s (require err_instance_not_found o) _ (search keeps_rules)
                  (require_quiet err_instance_not_found o)
                  λ w2 old e2 r2.
                    Refuses-bind v s (call (bindings_for_instance b.store id)) _
                      (search (keeps_rules, bindings_for_instance-Keeps b.store v laws))
                      (bindings_for_instance_quiet id)
                      λ w3 infos e3 r3.
                        Refuses-bind v s (refuse_bound b infos) _ (refuse_bound-Keeps infos)
                          (refuse_bound_quiet infos)
                          λ w4 u4 e4 r4. absurd (
                            bindings_for_instance-none b.store v laws id w3 infos
                              (relabel-eq-ok fault (bindings_for_instance b.store id) w3 r3)
                              (refused_bound infos w4 u4 r4) k r
                              (ap (λ (q : Rows). q.bindings k) e3 ∙ there) same)
