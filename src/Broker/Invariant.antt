-- ===== src/Broker/Invariant.antt =====
-- The records stay consistent, whatever requests are served and whichever calls fail.
use osb_opengauss_go.Prelude.{◌≡◌, sym, ◌∙◌, subst, some, List, [], ◌∷◌, Text, All}
use osb_opengauss_go.Result.{ok, ok-injective}
use osb_opengauss_go.World.{World}
use osb_opengauss_go.Names.{names_for}
use osb_opengauss_go.Params.{Plan, InstanceParams}
use osb_opengauss_go.Params.Bounds.{HasQuotas, IsWithin}
use osb_opengauss_go.State.{InstanceRecord, BindingRecord}
use osb_opengauss_go.Broker.{Broker, find_plan}
use osb_opengauss_go.Broker.Rows.{Rows, Views, rows, IsStore}
use osb_opengauss_go.Broker.Spec.{
  requoted, IsPlanned, IsConsistent, Step, stay, provisioned, updated, deprovisioned, bound,
  unbound,
}
use osb_opengauss_go.Broker.Served.{serve-Step}
use osb_opengauss_go.Broker.Requests.{Request, serve, serve_all}
use osb_opengauss_go.Broker.Entries.{still_there, after_setting, after_removing, kept}

module _ {F I B S R : Type 0} (b : Broker F I B S R) where
  requoted-IsPlanned :
      (id : Text) (old : InstanceRecord) (requested : InstanceParams) (p : Plan)
      → IsPlanned b old
      → old.instance_id ≡ id
      → find_plan b.catalog.plans old.plan_id ≡ ok p
      → IsWithin p requested
      → IsPlanned b (record old { instance_id = id; params = requoted old.params requested })
  requoted-IsPlanned id old requested p h same found within =
      let plan_same : h.plan ≡ p = ok-injective (sym h.found ∙ found) in
      let old_within : IsWithin p old.params =
        subst (λ q. IsWithin q old.params) plan_same h.within in
      record {
        plan = p;
        found = found;
        within = record {
          compatibility = old_within.compatibility;
          encoding = old_within.encoding;
          some_connections = within.some_connections;
          within_connections = within.within_connections;
          some_storage = within.some_storage;
          within_storage = within.within_storage;
        };
        names = h.names;
        named =
            subst (λ i. names_for b.hash i b.cfg.name_prefix old.params.name ≡ ok h.names) same
              h.named;
        database = h.database;
      }

  module _ (s t : Rows) (c : IsConsistent b s) where
    anchored_still :
        ((k : Text) (r : InstanceRecord)
          → s.instances k ≡ some r
          → (x : InstanceRecord) × (t.instances k ≡ some x))
        → (k : Text) (r : BindingRecord) → s.bindings k ≡ some r
        → (x : InstanceRecord) × (t.instances r.instance_id ≡ some x)
    anchored_still keep k r h = let (i, there) = c.anchored k r h in keep r.instance_id i there

    Step-IsConsistent : Step b s t → IsConsistent b t
    Step-IsConsistent (stay same_instances same_bindings) = record {
      keyed = λ k r h. c.keyed k r (sym (same_instances k) ∙ h);
      planned = λ k r h. c.planned k r (sym (same_instances k) ∙ h);
      anchored = λ k r h.
          anchored_still (λ j i e. (i, same_instances j ∙ e)) k r (sym (same_bindings k) ∙ h);
    }
    Step-IsConsistent (provisioned new free planned set same_bindings) = record {
      keyed = λ k r.
          after_setting (λ x. x.instance_id ≡ k) s.instances t.instances new.instance_id new k r
            (set k) (λ e. e) (c.keyed k r);
      planned = λ k r.
          after_setting (IsPlanned b) s.instances t.instances new.instance_id new k r (set k)
            (λ e. planned) (c.planned k r);
      anchored = λ k r h.
          anchored_still
            (λ j i. still_there s.instances t.instances new.instance_id new j i (set j)) k r
            (sym (same_bindings k) ∙ h);
    }
    Step-IsConsistent (updated id old requested p there found within set same_bindings) =
        let new = record old { instance_id = id; params = requoted old.params requested } in
        record {
          keyed = λ k r.
              after_setting (λ x. x.instance_id ≡ k) s.instances t.instances id new k r (set k)
                (λ e. e) (c.keyed k r);
          planned = λ k r.
              after_setting (IsPlanned b) s.instances t.instances id new k r (set k)
                (λ e.
                  requoted-IsPlanned id old requested p (c.planned id old there)
                    (c.keyed id old there) found within)
                (c.planned k r);
          anchored = λ k r h.
              anchored_still (λ j i. still_there s.instances t.instances id new j i (set j)) k r
                (sym (same_bindings k) ∙ h);
        }
    Step-IsConsistent (deprovisioned id free set same_bindings) =
        let before : (k : Text) (r : InstanceRecord)
            → t.instances k ≡ some r
            → s.instances k ≡ some r =
          λ k r. after_removing s.instances t.instances id k r (set k) in
        record {
          keyed = λ k r h. c.keyed k r (before k r h);
          planned = λ k r h. c.planned k r (before k r h);
          anchored = λ k r h.
              let was = sym (same_bindings k) ∙ h in
              let (i, there) = c.anchored k r was in
              (i, (set r.instance_id ∙ kept s.instances id r.instance_id (free k r was)) ∙ there);
        }
    Step-IsConsistent (bound new i free there same_instances set) = record {
      keyed = λ k r h. c.keyed k r (sym (same_instances k) ∙ h);
      planned = λ k r h. c.planned k r (sym (same_instances k) ∙ h);
      anchored = λ k r.
          after_setting (λ x. (y : InstanceRecord) × (t.instances x.instance_id ≡ some y))
            s.bindings t.bindings new.binding_id new k r (set k)
            (λ e. (i, same_instances new.instance_id ∙ there))
            (anchored_still (λ j x e. (x, same_instances j ∙ e)) k r);
    }
    Step-IsConsistent (unbound id same_instances set) = record {
      keyed = λ k r h. c.keyed k r (sym (same_instances k) ∙ h);
      planned = λ k r h. c.planned k r (sym (same_instances k) ∙ h);
      anchored = λ k r h.
          anchored_still (λ j x e. (x, same_instances j ∙ e)) k r
            (after_removing s.bindings t.bindings id k r (set k) h);
    }

module _ {F I B S R : Type 0} (b : Broker F I B S R) (v : Views I B)
    (laws : IsStore v b.store) where
  module _ (quotas : All HasQuotas b.catalog.plans) where
    -- Whatever requests the platform sends, and whichever calls of the store, of the server and of
    -- the random source fail in between: if every instance record stands under its id, names a plan
    -- of the catalog, has parameters within that plan and the database that its id and name give,
    -- and every binding record is one of a recorded instance, then all of this holds afterwards. The
    -- store's tables are assumed to be tables, and every plan of the catalog to have quotas from
    -- 1 to below 2^53.
    pub serve_all-IsConsistent :
        (requests : List Request) (w : World I B S R)
        → IsConsistent b (rows v w)
        → IsConsistent b (rows v (serve_all b requests w))
    unfolding serve_all
    serve_all-IsConsistent [] w c = c
    serve_all-IsConsistent (r ∷ rs) w c =
        serve_all-IsConsistent rs (serve b r w)
          (Step-IsConsistent b (rows v w) (rows v (serve b r w)) c (serve-Step b v laws quotas r w))
