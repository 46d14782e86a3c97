-- ===== src/Startup/Rotation.antt =====
-- Rotation of the keys at the start.
use osb_opengauss_go.Prelude.{
  ℕ, ◌≡◌, ◌≢◌, sym, ◌∙◌, subst, ap, Option, some, Text, [], codes, false, text_eq, text_eq_iff,
  arith,
}
use osb_opengauss_go.Result.{Result, ok, map_err-eq-ok}
use osb_opengauss_go.Exec.{lift, bind-eq-ok}
use osb_opengauss_go.World.{World}
use osb_opengauss_go.Encrypt.{Encryptor, new_previous_key_decryptor}
use osb_opengauss_go.Encrypt.RoundTrip.{new_encryptor-IsFaithful}
use osb_opengauss_go.Encrypt.Bytes.{
  IsByteCipher, new_encryptor-IsBytes, new_previous_key_decryptor-IsBytes,
}
use osb_opengauss_go.Config.{Config}
use osb_opengauss_go.Table.{IsTable}
use osb_opengauss_go.State.{BindingRecord, Store}
use osb_opengauss_go.State.Open.{Dialector, Tables}
use osb_opengauss_go.State.Open.Files.{open_store-eq-ok, open_store-encryptor}
use osb_opengauss_go.State.Rotate.{rotate_bindings}
use osb_opengauss_go.State.Rotate.Reading.{with_credentials, IsCurrent, Reads, IsRotatable}
use osb_opengauss_go.State.Rotate.Progress.{IsColumn}
use osb_opengauss_go.State.Rotate.Loop.{rotate_bindings-IsCurrent}
use osb_opengauss_go.Startup.{
  Platform, Exit, Opened, HttpServer, serving, must, open_all, rotate_at_start, http_server,
  new_broker, world_of, main,
}
use osb_opengauss_go.Startup.Ready.{Built, open_all-Built, main-eq-serving}

-- The binding records of a host: what each way of opening it gives is the table of these rows.
pub record HasBindings {D C F I B S R : Type 0} (p : Platform D C F I B S R)
    (row : B → Text → Option BindingRecord) : Type 0 where
  pub table :
      (dialector : Dialector) (d : D) (tables : Tables I B)
      → (p.host.gorm_open dialector d).0 ≡ ok tables
      → IsTable (λ r. r.binding_id) (λ r. r.instance_id) row tables.bindings
  pub column :
      (dialector : Dialector) (d : D) (tables : Tables I B)
      → (p.host.gorm_open dialector d).0 ≡ ok tables
      → IsColumn row tables.set_credentials

module _ {D C F I B S R : Type 0} (p : Platform D C F I B S R)
    (row : B → Text → Option BindingRecord) where
  -- the current key reads the credentials of the record with the key `k`, which are those that one
  -- of the keys read in `r`, and the record is else the same
  pub record IsMoved (store : Store F I B R) (setting : Text) (k : Text) (r : BindingRecord)
      (w : World I B S R) : Type 0 where
    pub previous : Encryptor R
    pub made : new_previous_key_decryptor p.gcm p.source setting ≡ ok previous
    pub found : BindingRecord
    pub plain : Text
    pub at : row w.bindings k ≡ some found
    pub others : found ≡ with_credentials found.credentials r
    pub before : Reads store previous r plain
    pub after : IsCurrent store previous found plain

  rotation_end :
      (cfg : Config) (store : Store F I B R) (v : World I B S R) (previous : Encryptor R)
      → text_eq cfg.encryption_key_previous [] ≡ false
      → new_previous_key_decryptor p.gcm p.source cfg.encryption_key_previous ≡ ok previous
      → (rotate_at_start p cfg store v).1 ≡ (rotate_bindings store previous v).1
  unfolding rotate_at_start
  rotation_end cfg store v previous some_key made = rw (some_key, made)

  rotation_of :
      (cfg : Config) (store : Store F I B R) (n : ℕ) (v : World I B S R)
      → text_eq cfg.encryption_key_previous [] ≡ false
      → (rotate_at_start p cfg store v).0 ≡ ok n
      → (previous : Encryptor R) × (new_previous_key_decryptor p.gcm p.source
            cfg.encryption_key_previous
          ≡ ok previous)
        × ((rotate_bindings store previous v).0 ≡ ok n)
  unfolding rotate_at_start
  rotation_of cfg store n v some_key h =
      let (previous, decoded, h1) =
        bind-eq-ok
          (lift (
            must (codes "invalid previous encryption key") (λ e. e)
              (new_previous_key_decryptor p.gcm p.source cfg.encryption_key_previous)))
          _ v (rw some_key at h) in
      (
        previous,
        map_err-eq-ok _ (new_previous_key_decryptor p.gcm p.source cfg.encryption_key_previous)
            decoded,
        map_err-eq-ok _ (rotate_bindings store previous v).0 h1,
      )

  module _ (bindings : HasBindings p row) (cipher : IsByteCipher p.gcm p.source) where
    Built-IsRotatable :
        (d : D) (o : Opened F I B R) (previous : Encryptor R)
        → Built p d o
        → new_previous_key_decryptor p.gcm p.source o.cfg.encryption_key_previous ≡ ok previous
        → IsRotatable o.store previous
    Built-IsRotatable d o previous built made =
        let same =
          open_store-encryptor p.host o.cfg p.json built.encryptor d o.store built.opening in
        record {
          faithful = rw same (
              new_encryptor-IsFaithful p.gcm p.source o.cfg.encryption_key built.encryptor
                built.encrypt);
          bytes-encrypt = λ plain text r bytes h.
              new_encryptor-IsBytes p.gcm p.source cipher o.cfg.encryption_key plain text
                built.encryptor r built.encrypt bytes (rw same at h);
          bytes-decrypt = λ plain text bytes h.
              new_previous_key_decryptor-IsBytes p.gcm p.source cipher o.cfg.encryption_key_previous
                plain text previous made bytes h;
        }

    Built-IsTable :
        (d : D) (o : Opened F I B R)
        → Built p d o
        → IsTable (λ r. r.binding_id) (λ r. r.instance_id) row o.store.bindings
    Built-IsTable d o built =
        let (dialector, d1, tables, opened, same) =
          open_store-eq-ok p.host o.cfg p.json built.encryptor d o.store built.opening in
        subst
          (λ (q : Store F I B R). IsTable (λ r. r.binding_id) (λ r. r.instance_id) row q.bindings)
          same (bindings.table dialector d1 tables opened)

    Built-IsColumn :
        (d : D) (o : Opened F I B R) → Built p d o → IsColumn row o.store.set_credentials
    Built-IsColumn d o built =
        let (dialector, d1, tables, opened, same) =
          open_store-eq-ok p.host o.cfg p.json built.encryptor d o.store built.opening in
        subst (λ (q : Store F I B R). IsColumn row q.set_credentials) same
          (bindings.column dialector d1 tables opened)

    -- Where main comes to serve under settings that have a previous key, the credentials of each
    -- binding record that the state database held when it was opened were read by one of the two
    -- keys; the record is there, all but its credentials unchanged, and the current key reads them.
    pub main-IsMoved :
        (d : D) (s : S) (r : R) (server : HttpServer F I B S R) (w : World I B S R) (k : Text)
        (x : BindingRecord)
        → main p d s r ≡ serving server w
        → server.broker.cfg.encryption_key_previous ≢ []
        → row (p.contents (open_all p d).1).1 k ≡ some x
        → IsMoved server.broker.store server.broker.cfg.encryption_key_previous k x w
    unfolding http_server new_broker
    main-IsMoved d s r server w k x h some_key at =
        let (o, n, opened, rotated, same) = main-eq-serving p d s r server w h in
        rw same (moved o n (open_all-Built p d o opened) (rw same at some_key) rotated)
      where
        moved :
            (o : Opened F I B R) (n : ℕ)
            → Built p d o
            → o.cfg.encryption_key_previous ≢ []
            → rotate_at_start p o.cfg o.store (world_of p (open_all p d).1 s r) ≡ (ok n, w)
            → IsMoved o.store o.cfg.encryption_key_previous k x w
        moved o n built some_key rotated =
            let v = world_of p (open_all p d).1 s r in
            let key_set : text_eq o.cfg.encryption_key_previous [] ≡ false =
              ground (arith, text_eq_iff o.cfg.encryption_key_previous []) in
            let (previous, made, done) =
              rotation_of o.cfg o.store n v key_set
                (ap (λ (q : Result Exit ℕ × World I B S R). q.0) rotated) in
            let (found, plain, place, others, before, after) =
              rotate_bindings-IsCurrent o.store previous row (Built-IsColumn d o built)
                (Built-IsRotatable d o previous built made) (Built-IsTable d o built) v n k x done
                at in
            record {
              previous = previous;
              made = made;
              found = found;
              plain = plain;
              at =
                  subst (λ (u : World I B S R). row u.bindings k ≡ some found)
                    (sym (rotation_end o.cfg o.store v previous key_set made)
                      ∙ ap (λ (q : Result Exit ℕ × World I B S R). q.1) rotated)
                    place;
              others = others;
              before = before;
              after = after;
            }
