-- ===== src/Broker/Writes.antt =====
-- The store's writes on the abstract records: each is done, or changes nothing.
use osb_opengauss_go.Prelude.{refl, codes, none, some, Text}
use osb_opengauss_go.Result.{wrapped, map_err}
use osb_opengauss_go.World.{World, on_bindings}
use osb_opengauss_go.Base64
use osb_opengauss_go.Params.{BindingParams}
use osb_opengauss_go.State.{
  InstanceRecord, BindingRecord, Credentials, Store, put_row, put_instance, delete_instance,
  put_binding, delete_binding,
}
use osb_opengauss_go.State.Rows.{put_row-ok, put_row-err}
use osb_opengauss_go.Broker.Rows.{Rows, Views, rows, IsStore}
use osb_opengauss_go.Broker.Outcomes.{SetsInstance, SetsBinding, Ends}
use osb_opengauss_go.Broker.Rules.{Ends-cases, Ends-continue}

-- the record that PutBinding writes, with the encrypted credentials
abbrev pub binding_record : Text → Text → Text → BindingParams → Text → BindingRecord
binding_record id username instance_id params stored = record {
  binding_id = id;
  instance_id = instance_id;
  username = username;
  params = params;
  credentials = stored;
}

-- the record is written, with some text for the encrypted credentials
abbrev pub Written : Text → Text → Text → BindingParams → Rows → Unit {0} → Rows → Type 0
Written id username instance_id params s u t =
    (stored : Text) × SetsBinding id (some (binding_record id username instance_id params stored)) s
      t

module _ {F I B S R : Type 0} (store : Store F I B R) (v : Views I B) (laws : IsStore v store) where
  module _ (id : Text) (r : InstanceRecord) (w : World I B S R) where
    pub put_instance-Ends :
        Ends
          (rows v w)
          (λ u t. SetsInstance id (some (record r { instance_id = id })) (rows v w) t)
          (rows v (put_instance store id r w).1)
          (put_instance store id r w).0
    unfolding put_instance rows
    put_instance-Ends =
        Ends-cases (rows v w)
          (λ u t. SetsInstance id (some (record r { instance_id = id })) (rows v w) t)
          (rows v (put_instance store id r w).1) (put_instance store id r w).0
          (λ u done. (
            λ j.
                put_row-ok store.instances laws.instance_laws id (record r { instance_id = id })
                  w.instances j refl done,
            λ j. refl,
          ))
          (λ e failed. (
            λ j.
                put_row-err store.instances laws.instance_laws id (record r { instance_id = id })
                  w.instances e j failed,
            λ j. refl,
          ))

  module _ (id : Text) (w : World I B S R) where
    pub delete_instance-Ends :
        Ends
          (rows v w)
          (λ u t. SetsInstance id none (rows v w) t)
          (rows v (delete_instance store id w).1)
          (delete_instance store id w).0
    unfolding delete_instance rows
    delete_instance-Ends =
        Ends-cases (rows v w) (λ u t. SetsInstance id none (rows v w) t)
          (rows v (delete_instance store id w).1) (delete_instance store id w).0
          (λ u done. (λ j. laws.instance_laws.delete-ok id w.instances j done, λ j. refl))
          (λ e failed. (λ j. laws.instance_laws.delete-err id w.instances e j failed, λ j. refl))

    pub delete_binding-Ends :
        Ends
          (rows v w)
          (λ u t. SetsBinding id none (rows v w) t)
          (rows v (delete_binding store id w).1)
          (delete_binding store id w).0
    unfolding delete_binding rows
    delete_binding-Ends =
        Ends-cases (rows v w) (λ u t. SetsBinding id none (rows v w) t)
          (rows v (delete_binding store id w).1) (delete_binding store id w).0
          (λ u done. (λ j. refl, λ j. laws.binding_laws.delete-ok id w.bindings j done))
          (λ e failed. (λ j. refl, λ j. laws.binding_laws.delete-err id w.bindings e j failed))

  module _ (id username instance_id : Text) (params : BindingParams) (creds : Credentials) where
    write_binding :
        (w : World I B S R) (r' : R) (stored : Text)
        → let after = record w { entropy = r' } in
          let m =
            on_bindings
              (put_row store.bindings id (binding_record id username instance_id params stored)) in
          Ends
            (rows v w)
            (Written id username instance_id params (rows v w))
            (rows v (m after).1)
            (m after).0
    unfolding rows
    write_binding w r' stored =
        let row = binding_record id username instance_id params stored in
        let m = on_bindings (put_row store.bindings id row) in
        let after = record w { entropy = r' } in
        Ends-cases (rows v w) (Written id username instance_id params (rows v w))
          (rows v (m after).1) (m after).0
          (λ u done. (
            stored,
            (
              λ j. refl,
              λ j. put_row-ok store.bindings laws.binding_laws id row w.bindings j refl done,
            ),
          ))
          (λ e failed. (
            λ j. refl,
            λ j. put_row-err store.bindings laws.binding_laws id row w.bindings e j failed,
          ))

    pub put_binding-Ends :
        (w : World I B S R)
        → Ends
            (rows v w)
            (Written id username instance_id params (rows v w))
            (rows v (put_binding store id username instance_id params creds w).1)
            (put_binding store id username instance_id params creds w).0
    unfolding put_binding rows
    put_binding-Ends w =
        Ends-continue v (rows v w) (Written id username instance_id params (rows v w))
          (store.json.marshal_strings creds) _ w (λ j. refl, λ j. refl)
          (λ plain _.
            let (out, r') = store.encryptor.encrypt plain w.entropy in
            Ends-continue v (rows v w) (Written id username instance_id params (rows v w))
              (map_err (λ e. wrapped (codes "cannot encrypt credentials") e) out) _
              (record w { entropy = r' }) (λ j. refl, λ j. refl)
              (λ encrypted _. write_binding w r' (Base64.encode encrypted)))
