-- ===== src/State/Credentials.antt =====
-- What GetBinding reads of a binding that PutBinding has written.
use osb_opengauss_go.Prelude.{
  ◌≡◌, refl, sym, ◌∙◌, Option, some, Text, codes, ◌++◌, All, ◌<◌, text_eq_refl,
}
use osb_opengauss_go.Result.{ok, wrapped}
use osb_opengauss_go.Exec.{lift, relabel, bind-eq-ok, relabel-eq-ok}
use osb_opengauss_go.World.{World, on_entropy}
use osb_opengauss_go.Base64
use osb_opengauss_go.Base64.RoundTrip.{decode-encode}
use osb_opengauss_go.Encrypt.RoundTrip.{IsFaithful}
use osb_opengauss_go.Params.{BindingParams}
use osb_opengauss_go.Table.{IsTable}
use osb_opengauss_go.State.{
  BindingRecord, BindingInfo, Credentials, Store, get_row, put_binding, get_binding, read_binding,
  binding_info, decrypt_credentials,
}
use osb_opengauss_go.State.Rows.{put_row-ok, get_row-ok}

-- What the store relies on to read its credentials back: the encryptor reads what it has written
-- and turns bytes into bytes, and the JSON library writes bytes and reads the maps that it has
-- written.
pub record IsReadable {F I B R : Type 0} (store : Store F I B R) : Type 0 where
  pub faithful : IsFaithful store.encryptor
  pub bytes :
      (plain cipher : Text) (r : R)
      → All (λ b. b < 256) plain
      → (store.encryptor.encrypt plain r).0 ≡ ok cipher
      → All (λ b. b < 256) cipher
  pub bytes-marshal :
      (creds : Credentials) (text : Text)
      → store.json.marshal_strings creds ≡ ok text
      → All (λ b. b < 256) text
  pub unmarshal-marshal :
      (creds : Credentials) (text : Text)
      → store.json.marshal_strings creds ≡ ok text
      → store.json.unmarshal_strings text ≡ ok creds

-- what the caller put
abbrev pub put_info : Text → Text → BindingParams → Credentials → BindingInfo
put_info username instance_id params creds = record {
  instance_id = instance_id;
  username = username;
  params = params;
  credentials = creds;
}

-- the row that it becomes
abbrev put_record : Text → Text → Text → BindingParams → Text → BindingRecord
put_record id username instance_id params cipher = record {
  binding_id = id;
  instance_id = instance_id;
  username = username;
  params = params;
  credentials = Base64.encode cipher;
}

module _ {F I B R : Type 0} (store : Store F I B R) (row : B → Text → Option BindingRecord)
    (laws : IsTable (λ r. r.binding_id) (λ r. r.instance_id) row store.bindings)
    (readable : IsReadable store) (id username instance_id : Text) (params : BindingParams)
    (creds : Credentials) where
  decrypts :
      (plain cipher : Text) (r : R)
      → store.json.marshal_strings creds ≡ ok plain
      → (store.encryptor.encrypt plain r).0 ≡ ok cipher
      → decrypt_credentials store id (Base64.encode cipher) ≡ ok creds
  unfolding decrypt_credentials
  decrypts plain cipher r marshalled encrypted = rw (
    decode-encode cipher
        (readable.bytes plain cipher r (readable.bytes-marshal creds plain marshalled) encrypted),
    readable.faithful.decrypt-encrypt r plain cipher encrypted,
    readable.unmarshal-marshal creds plain marshalled,
  )

  pub stored_row :
      {S : Type 0} (w : World I B S R)
      → (put_binding store id username instance_id params creds w).0 ≡ ok tt
      → (r : BindingRecord) × (row
            (put_binding store id username instance_id params creds w).1.bindings
            id
          ≡ some r)
        × (read_binding store (some r) ≡ ok (some (put_info username instance_id params creds)))
  unfolding put_binding read_binding binding_info
  stored_row w h =
      let (plain, marshalled, h1) = bind-eq-ok (lift (store.json.marshal_strings creds)) _ w h in
      let (cipher, encrypted, h2) =
        bind-eq-ok
          (relabel (λ e. wrapped (codes "cannot encrypt credentials") e)
            (on_entropy (store.encryptor.encrypt plain)))
          _ w h1 in
      rw (marshalled, encrypted)
        (
          put_record id username instance_id params cipher,
          put_row-ok store.bindings laws id (put_record id username instance_id params cipher)
                w.bindings id refl h2
              ∙ rw text_eq_refl,
          rw (
              decrypts plain cipher w.entropy marshalled
                (relabel-eq-ok _ (on_entropy (store.encryptor.encrypt plain)) w encrypted)),
        )

  -- After a PutBinding that succeeds, in any later state with the same row under the id, in which
  -- the lookup of the row succeeds, GetBinding returns the instance, the user name, the parameters
  -- and the credentials that were put.
  pub get_binding-put_binding :
      {S : Type 0} (w later : World I B S R) (found : Option BindingRecord)
      → (put_binding store id username instance_id params creds w).0 ≡ ok tt
      → row later.bindings id
        ≡ row (put_binding store id username instance_id params creds w).1.bindings id
      → (get_row store.bindings (codes "cannot read binding " ++ id) id later.bindings).0 ≡ ok found
      → (get_binding store id later).0 ≡ ok (some (put_info username instance_id params creds))
  unfolding get_binding
  get_binding-put_binding w later found h still looked =
      let (r, there, read) = stored_row w h in
      let seen : found ≡ some r =
        sym (get_row-ok store.bindings laws id _ later.bindings found looked) ∙ still ∙ there in
      rw (looked, seen, read)
