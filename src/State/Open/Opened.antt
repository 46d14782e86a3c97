-- ===== src/State/Open/Opened.antt =====
-- What is known of the state database once OpenStore has returned it, whichever driver it is.
use osb_opengauss_go.Prelude.{
  ◌≡◌, ◌≢◌, refl, sym, subst, true, false, [], Text, codes, text_eq, text_eq_iff, has_prefix, arith,
  ◌⊎◌, inl, inr, Bool-cases,
}
use osb_opengauss_go.Result.{ok, err≢ok, ok-injective, wrapped, map_err-eq-ok}
use osb_opengauss_go.Exec.{relabel, bind-eq-ok}
use osb_opengauss_go.Config.{Config}
use osb_opengauss_go.Encrypt.{Encryptor}
use osb_opengauss_go.Params.{Json}
use osb_opengauss_go.State.{Store}
use osb_opengauss_go.State.Open.{
  Dialector, gaussdb, postgres, Tables, Host, state_schema, state_dialector, create_tables,
  restrict_file, open_store,
}
use osb_opengauss_go.State.Open.Files.{
  HasSchema, IsPrivate, pair-ok, created_schema, open_store-encryptor, open_store-IsPrivate,
}

module _ {D I B : Type 0} (host : Host D I B) where
  -- the driver that a STATE_DSN asks for, and what choosing it has done
  pub data Dials (dsn : Text) (d : D) : Dialector → D → Type 0 where
    to_gaussdb :
        {d' : D}
        → has_prefix dsn (codes "gaussdb://") ≡ true
        → host.sql_open dsn d ≡ (ok tt, d')
        → Dials dsn d (gaussdb dsn) d'
    to_postgres :
        (has_prefix dsn (codes "postgres://") ≡ true)
          ⊎ (has_prefix dsn (codes "postgresql://") ≡ true)
        → Dials dsn d (postgres dsn) d

  -- What opening the database of a STATE_DSN has done: no file is touched.
  pub record IsRemote (dsn : Text) (d d' : D) : Type 0 where
    pub dialector : Dialector
    pub dialled : D
    pub dials : Dials dsn d dialector dialled
    pub tables : Tables I B
    pub opened : D
    pub open_server : host.gorm_open dialector dialled ≡ (ok tables, opened)
    pub schema : HasSchema host opened d'

  module _ {F R : Type 0} (cfg : Config) (json : Json F) (encryptor : Encryptor R) (d : D) where
    state_dialector-Dials :
        (dialector : Dialector)
        → cfg.state_dsn ≢ []
        → (state_dialector host cfg d).0 ≡ ok dialector
        → Dials cfg.state_dsn d dialector (state_dialector host cfg d).1
    unfolding state_dialector
    state_dialector-Dials dialector some_dsn h =
        elim (Bool-cases (has_prefix cfg.state_dsn (codes "gaussdb://"))) [
          | inl g ↦
              let (u, looked, made) =
                bind-eq-ok (host.sql_open cfg.state_dsn) _ d (rw (not_empty, g) at h) in
              let done = pair-ok (host.sql_open cfg.state_dsn d) looked in
              subst (λ (x : Dialector). Dials cfg.state_dsn d x (state_dialector host cfg d).1)
                (ok-injective made) (rw (not_empty, g, looked) (to_gaussdb g done))
          | inr no_g ↦ elim (Bool-cases (has_prefix cfg.state_dsn (codes "postgres://"))) [
            | inl p ↦
                subst (λ (x : Dialector). Dials cfg.state_dsn d x (state_dialector host cfg d).1)
                  (ok-injective (rw (not_empty, no_g, p) at h))
                  (rw (not_empty, no_g, p) (to_postgres (inl p)))
            | inr no_p ↦ elim (Bool-cases (has_prefix cfg.state_dsn (codes "postgresql://"))) [
              | inl q ↦
                  subst (λ (x : Dialector). Dials cfg.state_dsn d x (state_dialector host cfg d).1)
                    (ok-injective (rw (not_empty, no_g, no_p, q) at h))
                    (rw (not_empty, no_g, no_p, q) (to_postgres (inr q)))
              | inr no_q ↦ absurd (err≢ok (rw (not_empty, no_g, no_p, no_q) at h))
            ]
          ]
        ]
      where
        not_empty : text_eq cfg.state_dsn [] ≡ false
        not_empty = ground (arith, text_eq_iff cfg.state_dsn [])

    restrict_file_remote : cfg.state_dsn ≢ [] → (d3 : D) → (restrict_file host cfg d3).1 ≡ d3
    unfolding restrict_file
    restrict_file_remote some_dsn d3 = rw not_empty refl
      where
        not_empty : text_eq cfg.state_dsn [] ≡ false
        not_empty = ground (arith, text_eq_iff cfg.state_dsn [])

    open_store-IsRemote :
        (store : Store F I B R)
        → cfg.state_dsn ≢ []
        → (open_store host cfg json encryptor d).0 ≡ ok store
        → IsRemote cfg.state_dsn d (open_store host cfg json encryptor d).1
    unfolding open_store
    open_store-IsRemote store some_dsn h =
        let (dialector, chosen, h1) = bind-eq-ok (state_dialector host cfg) _ d h in
        let d1 = (state_dialector host cfg d).1 in
        let (tables, gorm, h2) =
          bind-eq-ok
            (relabel (λ e. wrapped (codes "cannot open state database") e)
              (host.gorm_open dialector))
            _ d1 h1 in
        let opened = map_err-eq-ok _ (host.gorm_open dialector d1).0 gorm in
        let d2 = (host.gorm_open dialector d1).1 in
        let (u, made, h3) = bind-eq-ok (create_tables host state_schema) _ d2 h2 in
        let d3 = (create_tables host state_schema d2).1 in
        let (u', closed, h4) = bind-eq-ok (restrict_file host cfg) _ d3 h3 in
        rw (chosen, opened, made, closed)
          (subst (λ x. IsRemote cfg.state_dsn d x) (sym (restrict_file_remote some_dsn d3))
            (record {
              dialector = dialector;
              dialled = d1;
              dials = state_dialector-Dials dialector some_dsn chosen;
              tables = tables;
              opened = d2;
              open_server = pair-ok (host.gorm_open dialector d1) opened;
              schema = created_schema host cfg json encryptor d d2 made;
            }))

    -- An OpenStore that succeeds returns a store with the encryptor that it was given. With no
    -- STATE_DSN it has opened the file of the settings, has then created both tables, and has last
    -- given the file the permissions of its owner to read and write, and no others. With a STATE_DSN
    -- it has opened the driver of the scheme, gaussdb, postgres or postgresql, and created both
    -- tables, and nothing else: no other scheme is accepted, and the permissions of no file change.
    pub open_store-IsOpened :
        (store : Store F I B R)
        → (open_store host cfg json encryptor d).0 ≡ ok store
        → (store.encryptor ≡ encryptor)
          × (((cfg.state_dsn ≡ []) × IsPrivate host cfg d (open_store host cfg json encryptor d).1)
              ⊎ ((cfg.state_dsn ≢ [])
                  × IsRemote cfg.state_dsn d (open_store host cfg json encryptor d).1))
    open_store-IsOpened store h = (
      open_store-encryptor host cfg json encryptor d store h,
      elim (Bool-cases (text_eq cfg.state_dsn [])) [
        | inl empty ↦
            let none = (text_eq_iff cfg.state_dsn []).0 empty in
            inl (none, open_store-IsPrivate host cfg json encryptor d store none h)
        | inr differs ↦
            let some_dsn : cfg.state_dsn ≢ [] = λ e. ground (arith, text_eq_iff cfg.state_dsn []) in
            inr (some_dsn, open_store-IsRemote store some_dsn h)
      ],
    )
