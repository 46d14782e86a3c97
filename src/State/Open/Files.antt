-- ===== src/State/Open/Files.antt =====
-- What is known of the state database once it is open.
use osb_opengauss_go.Prelude.{
  ℕ, ◌/◌, ◌%◌, refl, ◌≡◌, sym, ap, true, List, [], ◌∷◌, Text, codes, text_eq, text_eq_refl,
  has_prefix,
}
use osb_opengauss_go.Result.{Result, ok, ok-injective, wrapped, map_err-eq-ok}
use osb_opengauss_go.Exec.{relabel, bind-eq-ok}
use osb_opengauss_go.Config.{Config}
use osb_opengauss_go.Encrypt.{Encryptor}
use osb_opengauss_go.Params.{Json}
use osb_opengauss_go.State.{Store}
use osb_opengauss_go.State.Open.{
  Dialector, sqlite, Tables, Host, state_schema, owner_only, state_dialector, create_tables,
  restrict_file, open_store,
}

pub pair-ok : {S E A : Type 0} (q : Result E A × S) {a : A} → q.0 ≡ ok a → q ≡ (ok a, q.1)
pair-ok (r, s) h = ap (λ x. (x, s)) h

module _ {D I B : Type 0} (host : Host D I B) where
  -- the statements were run, one after another, and none failed
  pub data Ran : List Text → D → D → Type 0 where
    none_left : {d : D} → Ran [] d d
    ran :
        {ddl : Text} {rest : List Text} {d d' d'' : D}
        → host.exec ddl d ≡ (ok tt, d')
        → Ran rest d' d''
        → Ran (ddl ∷ rest) d d''

  -- Both tables are created where they are missing, under the keys that the store looks up.
  pub record HasSchema (d d' : D) : Type 0 where
    pub instances_ddl : Text
    pub bindings_ddl : Text
    pub instances_key :
        has_prefix instances_ddl
          (codes "CREATE TABLE IF NOT EXISTS instance_records (\n\t\tinstance_id TEXT PRIMARY KEY,")
        ≡ true
    pub bindings_key :
        has_prefix bindings_ddl
          (codes "CREATE TABLE IF NOT EXISTS binding_records (\n\t\tbinding_id   TEXT PRIMARY KEY,")
        ≡ true
    pub create : Ran (instances_ddl ∷ bindings_ddl ∷ []) d d'

  -- What opening the database in a file has done: the permission bits of the file are read and write
  -- for its owner, and none for anyone else.
  pub record IsPrivate (cfg : Config) (d d' : D) : Type 0 where
    pub tables : Tables I B
    pub opened : D
    pub created : D
    pub open_file : host.gorm_open (sqlite cfg.state_path) d ≡ (ok tables, opened)
    pub schema : HasSchema opened created
    pub mode : ℕ
    pub of_owner : mode / 64 ≡ 6
    pub of_others : mode % 64 ≡ 0
    pub restrict : host.chmod cfg.state_path mode created ≡ (ok tt, d')

  create_tables-Ran :
      (l : List Text) (d : D)
      → (create_tables host l d).0 ≡ ok tt
      → Ran l d (create_tables host l d).1
  unfolding create_tables
  create_tables-Ran [] d h = none_left
  create_tables-Ran (ddl ∷ rest) d h =
      let (u, done, rest_done) =
        bind-eq-ok (relabel (λ e. wrapped (codes "cannot create state tables") e) (host.exec ddl)) _
          d h in
      let first = map_err-eq-ok _ (host.exec ddl d).0 done in
      rw first (
        ran (pair-ok (host.exec ddl d) first)
          (create_tables-Ran rest (host.exec ddl d).1 rest_done))

  module _ {F R : Type 0} (cfg : Config) (json : Json F) (encryptor : Encryptor R) (d : D) where
    -- what an OpenStore that succeeds returns: the opened tables, with the encryptor that it was given
    pub open_store-eq-ok :
        (store : Store F I B R)
        → (open_store host cfg json encryptor d).0 ≡ ok store
        → (dialector : Dialector) × (d1 : D) × (tables : Tables I B) × ((host.gorm_open dialector
              d1).0
            ≡ ok tables)
          × (record {
            instances = tables.instances;
            bindings = tables.bindings;
            set_credentials = tables.set_credentials;
            encryptor = encryptor;
            json = json;
          }
              ≡ store)
    unfolding open_store
    open_store-eq-ok store h =
        let (dialector, chosen, h1) = bind-eq-ok (state_dialector host cfg) _ d h in
        let d1 = (state_dialector host cfg d).1 in
        let (tables, gorm, h2) =
          bind-eq-ok
            (relabel (λ e. wrapped (codes "cannot open state database") e)
              (host.gorm_open dialector))
            _ d1 h1 in
        let opened = map_err-eq-ok _ (host.gorm_open dialector d1).0 gorm in
        let d2 = (host.gorm_open dialector d1).1 in
        let (u, made, h3) = bind-eq-ok (create_tables host state_schema) _ d2 h2 in
        let (u', closed, h4) =
          bind-eq-ok (restrict_file host cfg) _ (create_tables host state_schema d2).1 h3 in
        (dialector, d1, tables, opened, ok-injective h4)

    pub open_store-encryptor :
        (store : Store F I B R)
        → (open_store host cfg json encryptor d).0 ≡ ok store
        → store.encryptor ≡ encryptor
    open_store-encryptor store h =
        let (dialector, d1, tables, opened, same) = open_store-eq-ok store h in
        sym (ap (λ (q : Store F I B R). q.encryptor) same)

    pub created_schema :
        (d1 : D)
        → (create_tables host state_schema d1).0 ≡ ok tt
        → HasSchema d1 (create_tables host state_schema d1).1
    unfolding has_prefix
    created_schema d1 made = record {
      instances_ddl = _;
      bindings_ddl = _;
      instances_key = refl;
      bindings_key = refl;
      create = create_tables-Ran state_schema d1 made;
    }

    pub open_store-IsPrivate :
        (store : Store F I B R)
        → cfg.state_dsn ≡ []
        → (open_store host cfg json encryptor d).0 ≡ ok store
        → IsPrivate cfg d (open_store host cfg json encryptor d).1
    unfolding open_store state_dialector restrict_file
    open_store-IsPrivate store empty h =
        let in_file : text_eq cfg.state_dsn [] ≡ true = rw empty (text_eq_refl []) in
        let (tables, gorm, h1) =
          bind-eq-ok
            (relabel (λ e. wrapped (codes "cannot open state database") e)
              (host.gorm_open (sqlite cfg.state_path)))
            _ d (rw in_file at h) in
        let opened = map_err-eq-ok _ (host.gorm_open (sqlite cfg.state_path) d).0 gorm in
        let d1 = (host.gorm_open (sqlite cfg.state_path) d).1 in
        let (u, made, h2) = bind-eq-ok (create_tables host state_schema) _ d1 h1 in
        let d2 = (create_tables host state_schema d1).1 in
        let (u', closed, h3) =
          bind-eq-ok
            (relabel (λ e. wrapped (codes "cannot restrict state file permissions") e)
              (host.chmod cfg.state_path owner_only))
            _ d2 h2 in
        let restricted = map_err-eq-ok _ (host.chmod cfg.state_path owner_only d2).0 closed in
        rw (in_file, opened, made, restricted)
          (record {
            tables = tables;
            opened = d1;
            created = d2;
            open_file = pair-ok (host.gorm_open (sqlite cfg.state_path) d) opened;
            schema = created_schema d1 made;
            mode = owner_only;
            of_owner = refl;
            of_others = refl;
            restrict = pair-ok (host.chmod cfg.state_path owner_only d2) restricted;
          })
