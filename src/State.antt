-- ===== src/State.antt =====
-- state.go: the store of instance and binding records, over the two tables.
pub mod Rows
pub mod Credentials
pub mod Rotate
pub mod Open
use osb_opengauss_go.Prelude.{
  ℕ, suc, ◌+◌, Bool, true, false, Option, none, some, List, [], ◌∷◌, ◌++◌, Text, codes,
  if◌then◌else◌,
}
use osb_opengauss_go.Result.{Fault, wrapped, Result, ok, err, annotate, is_not_found}
use osb_opengauss_go.Result
use osb_opengauss_go.Exec.{Exec, pure, raise, lift, attempt, relabel, ◌>>=◌, ◌>>◌}
use osb_opengauss_go.Params.{InstanceParams, BindingParams, Json}
use osb_opengauss_go.Encrypt.{Encryptor}
use osb_opengauss_go.Base64
use osb_opengauss_go.Table.{Table}
use osb_opengauss_go.World.{World, on_instances, on_bindings, on_entropy}

pub record InstanceRecord : Type 0 where
  pub instance_id : Text
  pub service_id : Text
  pub plan_id : Text
  pub database : Text
  pub params : InstanceParams

pub record BindingRecord : Type 0 where
  pub binding_id : Text
  pub instance_id : Text
  pub username : Text
  pub params : BindingParams
  pub credentials : Text

-- map[string]string, its entries in the order of json.Marshal
abbrev pub Credentials : Type 0
Credentials = List (Text × Text)

pub record BindingInfo : Type 0 where
  pub instance_id : Text
  pub username : Text
  pub params : BindingParams
  pub credentials : Credentials

-- Store, with the JSON codec that its columns go through. `set_credentials k c` is the statement
-- db.Model(&BindingRecord{}).Where("binding_id = ?", k).Update("credentials", c).
pub record Store (F I B R : Type 0) : Type 0 where
  pub instances : Table I InstanceRecord
  pub bindings : Table B BindingRecord
  pub set_credentials : Text → Text → Exec B Fault (Unit {0})
  pub encryptor : Encryptor R
  pub json : Json F

-- nil for a row that is not there; any other error is reported with `text`
unfoldable pub read_found : {Row : Type 0} → Text → Result Fault Row → Result Fault (Option Row)
read_found text (ok r) = ok (some r)
read_found text (err e) = if is_not_found e then ok none else err (wrapped text e)

module _ {D Row : Type 0} where
  -- the switch on the error of `First` in PutInstance and PutBinding
  unfoldable pub write_found : Table D Row → Text → Row → Result Fault Row → Exec D Fault (Unit {0})
  write_found t k r (ok _) = t.updates k r
  write_found t k r (err e) = if is_not_found e then t.create r else raise e

  unfoldable pub put_row : Table D Row → Text → Row → Exec D Fault (Unit {0})
  unfolding write_found
  put_row t k r = do found ← attempt (t.first k); write_found t k r found

  unfoldable pub get_row : Table D Row → Text → Text → Exec D Fault (Option Row)
  unfolding read_found
  get_row t text k = do found ← attempt (t.first k); lift (read_found text found)

module _ {F I B R : Type 0} (store : Store F I B R) where
  unfoldable pub decrypt_credentials : Text → Text → Result Fault Credentials
  decrypt_credentials binding_id stored =
      Result.◌>>=◌
        (annotate (codes "cannot decode credentials of binding " ++ binding_id)
          (Base64.decode stored))
        λ ciphertext.
          Result.◌>>=◌
            (annotate (codes "cannot decrypt credentials of binding " ++ binding_id)
              (store.encryptor.decrypt ciphertext))
            λ plain.
              annotate (codes "corrupted credentials of binding " ++ binding_id)
                (store.json.unmarshal_strings plain)

  unfoldable pub binding_info : BindingRecord → Result Fault BindingInfo
  unfolding decrypt_credentials
  binding_info r = Result.◌>>=◌ (decrypt_credentials r.binding_id r.credentials) λ creds.
      ok (record {
        instance_id = r.instance_id;
        username = r.username;
        params = r.params;
        credentials = creds;
      })

  -- the rest of GetBinding, for the record that was read
  unfoldable pub read_binding : Option BindingRecord → Result Fault (Option BindingInfo)
  unfolding binding_info
  read_binding none = ok none
  read_binding (some r) = Result.◌>>=◌ (binding_info r) λ info. ok (some info)

  -- the loop over the records: the first that cannot be decrypted is an error
  unfoldable pub read_bindings : List BindingRecord → Result Fault (List BindingInfo)
  unfolding binding_info
  read_bindings [] = ok []
  read_bindings (r ∷ rs) =
      Result.◌>>=◌ (binding_info r) λ info. Result.◌>>=◌ (read_bindings rs) λ rest. ok (info ∷ rest)

module _ {F I B S R : Type 0} (store : Store F I B R) where
  unfoldable pub put_instance : Text → InstanceRecord → Exec (World I B S R) Fault (Unit {0})
  unfolding put_row
  put_instance instance_id r =
      on_instances (put_row store.instances instance_id (record r { instance_id = instance_id }))

  unfoldable pub get_instance : Text → Exec (World I B S R) Fault (Option InstanceRecord)
  unfolding get_row
  get_instance instance_id =
      on_instances
        (get_row store.instances (codes "cannot read instance " ++ instance_id) instance_id)

  unfoldable pub delete_instance : Text → Exec (World I B S R) Fault (Unit {0})
  delete_instance instance_id = on_instances (store.instances.delete instance_id)

  unfoldable pub put_binding :
      Text → Text → Text → BindingParams → Credentials → Exec (World I B S R) Fault (Unit {0})
  unfolding put_row
  put_binding binding_id username instance_id params credentials = do
    plain ← lift (store.json.marshal_strings credentials)
    encrypted ←
        relabel (λ e. wrapped (codes "cannot encrypt credentials") e)
          (on_entropy (store.encryptor.encrypt plain))
    on_bindings (
        put_row store.bindings binding_id (record {
          binding_id = binding_id;
          instance_id = instance_id;
          username = username;
          params = params;
          credentials = Base64.encode encrypted;
        }))

  unfoldable pub get_binding : Text → Exec (World I B S R) Fault (Option BindingInfo)
  unfolding get_row read_binding
  get_binding binding_id = do
    found ←
        on_bindings (get_row store.bindings (codes "cannot read binding " ++ binding_id) binding_id)
    lift (read_binding store found)

  unfoldable pub delete_binding : Text → Exec (World I B S R) Fault (Unit {0})
  delete_binding binding_id = on_bindings (store.bindings.delete binding_id)

  unfoldable pub bindings_for_instance : Text → Exec (World I B S R) Fault (List BindingInfo)
  unfolding read_bindings
  bindings_for_instance instance_id = do
    records ←
        relabel (λ e. wrapped (codes "cannot list bindings of instance " ++ instance_id) e)
          (on_bindings (store.bindings.find_where instance_id))
    lift (read_bindings store records)
