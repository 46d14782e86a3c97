-- ===== src/Broker/Spec.antt =====
-- The steps by which operations may change the records, and the invariant of the records.
use osb_opengauss_go.Prelude.{◌≡◌, ◌≢◌, none, some, Text, if◌then◌else◌, text_eq}
use osb_opengauss_go.Result.{ok}
use osb_opengauss_go.Names.{Names, names_for}
use osb_opengauss_go.Params.{Plan, InstanceParams}
use osb_opengauss_go.Params.Bounds.{IsWithin}
use osb_opengauss_go.State.{InstanceRecord, BindingRecord}
use osb_opengauss_go.Broker.{Broker, find_plan}
use osb_opengauss_go.Broker.Rows.{Rows}

-- the parameters of an instance, with the quotas of others
abbrev pub requoted : InstanceParams → InstanceParams → InstanceParams
requoted old requested = record {
  name = old.name;
  compatibility = old.compatibility;
  encoding = old.encoding;
  max_connections = requested.max_connections;
  storage_gb = requested.storage_gb;
}

module _ {F I B S R : Type 0} (b : Broker F I B S R) where
  -- An instance record that agrees with the catalog: its plan is one of the plans, its parameters
  -- are within that plan, and its database is the one that its id and its name give.
  pub record IsPlanned (r : InstanceRecord) : Type 0 where
    pub plan : Plan
    pub found : find_plan b.catalog.plans r.plan_id ≡ ok plan
    pub within : IsWithin plan r.params
    pub names : Names
    pub named : names_for b.hash r.instance_id b.cfg.name_prefix r.params.name ≡ ok names
    pub database : r.database ≡ names.database

  -- What an operation may do to the records.
  pub data Step (s t : Rows) : Type 0 where
    -- nothing
    stay :
        ((j : Text) → t.instances j ≡ s.instances j)
        → ((j : Text) → t.bindings j ≡ s.bindings j)
        → Step s t
    -- record an instance under an id that was free
    provisioned :
        (r : InstanceRecord)
        → s.instances r.instance_id ≡ none
        → IsPlanned r
        → ((j : Text) → t.instances j ≡ (if text_eq r.instance_id j then some r else s.instances j))
        → ((j : Text) → t.bindings j ≡ s.bindings j)
        → Step s t
    -- change the two quotas of an instance, within its plan
    updated :
        (id : Text) (old : InstanceRecord) (requested : InstanceParams) (p : Plan)
        → s.instances id ≡ some old
        → find_plan b.catalog.plans old.plan_id ≡ ok p
        → IsWithin p requested
        → ((j : Text)
            → t.instances j ≡ (
                if text_eq id j
                then some (record old { instance_id = id; params = requoted old.params requested })
                else s.instances j))
        → ((j : Text) → t.bindings j ≡ s.bindings j)
        → Step s t
    -- forget an instance that has no binding
    deprovisioned :
        (id : Text)
        → ((k : Text) (r : BindingRecord) → s.bindings k ≡ some r → r.instance_id ≢ id)
        → ((j : Text) → t.instances j ≡ (if text_eq id j then none else s.instances j))
        → ((j : Text) → t.bindings j ≡ s.bindings j)
        → Step s t
    -- record a binding, under an id that was free, of an instance that is there
    bound :
        (r : BindingRecord) (i : InstanceRecord)
        → s.bindings r.binding_id ≡ none
        → s.instances r.instance_id ≡ some i
        → ((j : Text) → t.instances j ≡ s.instances j)
        → ((j : Text) → t.bindings j ≡ (if text_eq r.binding_id j then some r else s.bindings j))
        → Step s t
    -- forget a binding
    unbound :
        (id : Text)
        → ((j : Text) → t.instances j ≡ s.instances j)
        → ((j : Text) → t.bindings j ≡ (if text_eq id j then none else s.bindings j))
        → Step s t

  -- The invariant: every instance record stands under its id and agrees with the catalog, and every
  -- binding record is one of an instance that is recorded.
  pub record IsConsistent (s : Rows) : Type 0 where
    pub keyed : (k : Text) (r : InstanceRecord) → s.instances k ≡ some r → r.instance_id ≡ k
    pub planned : (k : Text) (r : InstanceRecord) → s.instances k ≡ some r → IsPlanned r
    pub anchored :
        (k : Text) (r : BindingRecord)
        → s.bindings k ≡ some r
        → (i : InstanceRecord) × (s.instances r.instance_id ≡ some i)
