-- ===== src/Broker/Access.antt =====
-- The store's methods as the handlers meet them: on the abstract records.
use osb_opengauss_go.Prelude.{
  ◌≡◌, refl, sym, ap, ◌∙◌, subst, ◌≢◌, Option, none, some, List, [], ◌∷◌, ◌++◌, Text, codes, false,
  length, ℕ, suc, arith, ltb,
}
use osb_opengauss_go.Result.{
  Fault, wrapped, Result, ok, err, err≢ok, ok-injective, map_err, annotate,
}
use osb_opengauss_go.Result
use osb_opengauss_go.Exec.{Exec, relabel, bind-eq-ok, relabel-eq-ok}
use osb_opengauss_go.World.{World, on_bindings}
use osb_opengauss_go.State.{
  InstanceRecord, BindingRecord, BindingInfo, Store, get_row, get_instance, get_binding,
  bindings_for_instance, decrypt_credentials, binding_info, read_binding, read_bindings,
}
use osb_opengauss_go.State.Rows.{get_row-reads, get_row-ok}
use osb_opengauss_go.Broker.Rows.{
  Views, rows, IsStore, Keeps, Keeps-on_instances, Keeps-on_bindings, keeps_rules,
}

-- what was read tells whether there is a record, and of which instance
abbrev pub Shows : Option BindingRecord → Option BindingInfo → Type 0
Shows o none = o ≡ none
Shows o (some info) = (r : BindingRecord) × (o ≡ some r) × (info.instance_id ≡ r.instance_id)

module _ {F I B R : Type 0} (store : Store F I B R) where
  binding_info-ok :
      (r : BindingRecord) (info : BindingInfo)
      → binding_info store r ≡ ok info
      → info.instance_id ≡ r.instance_id
  unfolding binding_info
  binding_info-ok r info h =
      let (creds, read, made) =
        Result.bind-eq-ok (decrypt_credentials store r.binding_id r.credentials) _ h in
      sym (ap (λ (i : BindingInfo). i.instance_id) (ok-injective made))

  read_binding-Shows :
      (o : Option BindingRecord) (i : Option BindingInfo) → read_binding store o ≡ ok i → Shows o i
  unfolding read_binding
  read_binding-Shows none i h = subst (Shows none) (ok-injective h) refl
  read_binding-Shows (some r) i h =
      let (info, read, made) = Result.bind-eq-ok (binding_info store r) _ h in
      subst (Shows (some r)) (ok-injective made) (r, refl, binding_info-ok r info read)

  read_bindings-length :
      (l : List BindingRecord) (infos : List BindingInfo)
      → read_bindings store l ≡ ok infos
      → length infos ≡ length l
  unfolding read_bindings
  read_bindings-length [] infos h = ap length (sym (ok-injective h))
  read_bindings-length (r ∷ rs) infos h =
      let (info, read, h1) = Result.bind-eq-ok (binding_info store r) _ h in
      let (rest, others, h2) = Result.bind-eq-ok (read_bindings store rs) _ h1 in
      ap length (sym (ok-injective h2)) ∙ ap suc (read_bindings-length rs rest others)

module _ {F I B R : Type 0} (store : Store F I B R) (v : Views I B) (laws : IsStore v store) where
  no_row :
      (id : Text) (l : List BindingRecord) (d : B) (n : ℕ)
      → (store.bindings.find_where id d).0 ≡ ok l
      → n ≡ length l
      → ltb 0 n ≡ false
      → (k : Text) (r : BindingRecord) → v.binding_row d k ≡ some r
      → r.instance_id ≢ id
  no_row id [] d n found len empty k r there same =
      laws.binding_laws.find_where-complete id d [] k r found there same
  no_row id (x ∷ xs) d n found len empty k r there same = absurd (ground arith)

module _ {F I B S R : Type 0} (store : Store F I B R) (v : Views I B) (laws : IsStore v store) where
  pub get_instance-Keeps : (id : Text) → Keeps {S = S} v (get_instance store id)
  unfolding get_instance
  get_instance-Keeps id =
      Keeps-on_instances v (get_row store.instances (codes "cannot read instance " ++ id) id)
        (get_row-reads store.instances laws.instance_laws id (codes "cannot read instance " ++ id))

  pub get_instance-ok :
      (id : Text) (w : World I B S R) (o : Option InstanceRecord)
      → (get_instance store id w).0 ≡ ok o
      → (rows v w).instances id ≡ o
  unfolding get_instance rows
  get_instance-ok id w o h = get_row-ok store.instances laws.instance_laws id _ w.instances o h

  pub get_binding-Keeps : (id : Text) → Keeps {S = S} v (get_binding store id)
  unfolding get_binding
  get_binding-Keeps id = search (
    keeps_rules,
    Keeps-on_bindings v (get_row store.bindings (codes "cannot read binding " ++ id) id)
        (get_row-reads store.bindings laws.binding_laws id _),
  )

  pub get_binding-ok :
      (id : Text) (w : World I B S R) (o : Option BindingInfo)
      → (get_binding store id w).0 ≡ ok o
      → Shows ((rows v w).bindings id) o
  unfolding get_binding rows
  get_binding-ok id w o h =
      let (found, looked, h') =
        bind-eq-ok (on_bindings (get_row store.bindings (codes "cannot read binding " ++ id) id)) _
          w h in
      subst (λ q. Shows q o)
        (sym (get_row-ok store.bindings laws.binding_laws id _ w.bindings found looked))
        (read_binding-Shows store found o h')

  pub bindings_for_instance-Keeps : (id : Text) → Keeps {S = S} v (bindings_for_instance store id)
  unfolding bindings_for_instance
  bindings_for_instance-Keeps id = search (
    keeps_rules,
    Keeps-on_bindings v (store.bindings.find_where id) (laws.binding_laws.find_where-reads id),
  )

  -- An empty list of bindings is read only where no record is one of the instance.
  pub bindings_for_instance-none :
      (id : Text) (w : World I B S R) (infos : List BindingInfo)
      → (bindings_for_instance store id w).0 ≡ ok infos
      → ltb 0 (length infos) ≡ false
      → (k : Text) (r : BindingRecord) → (rows v w).bindings k ≡ some r
      → r.instance_id ≢ id
  unfolding bindings_for_instance rows
  bindings_for_instance-none id w infos h empty =
      let listing : Exec (World I B S R) Fault (List BindingRecord) =
        relabel (λ e. wrapped (codes "cannot list bindings of instance " ++ id) e)
          (on_bindings (store.bindings.find_where id)) in
      let (l, found, h') = bind-eq-ok listing _ w h in
      no_row store v laws id l w.bindings (length infos)
        (relabel-eq-ok (λ e. wrapped (codes "cannot list bindings of instance " ++ id) e)
          (on_bindings (store.bindings.find_where id)) w found)
        (read_bindings-length store l infos h') empty
