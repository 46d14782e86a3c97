-- ===== src/State/Open.antt =====
-- state.go: opening and closing the state database.
pub mod Files
pub mod Opened
use osb_opengauss_go.Prelude.{
  ℕ, Bool, true, false, ◌||◌, List, [], ◌∷◌, ◌++◌, Text, codes, if◌then◌else◌, text_eq, has_prefix,
  quoted,
}
use osb_opengauss_go.Result.{Fault, message, wrapped, Result, ok, err}
use osb_opengauss_go.Exec.{Exec, pure, raise, relabel, ◌>>=◌, ◌>>◌}
use osb_opengauss_go.Config.{Config}
use osb_opengauss_go.Encrypt.{Encryptor}
use osb_opengauss_go.Params.{Json}
use osb_opengauss_go.Table.{Table}
use osb_opengauss_go.State.{InstanceRecord, BindingRecord, Store}

-- gorm.Dialector: sqlite.Open(path), postgres.New over a gaussdb connection, postgres.Open(dsn)
pub data Dialector : Type 0 where
  sqlite gaussdb postgres : Text → Dialector

-- the two tables of an opened database
pub record Tables (I B : Type 0) : Type 0 where
  pub instances : Table I InstanceRecord
  pub bindings : Table B BindingRecord
  pub set_credentials : Text → Text → Exec B Fault (Unit {0})

-- What opening a database calls, on a host with states `D`: database/sql, GORM and os.
pub record Host (D I B : Type 0) : Type 0 where
  -- sql.Open("gaussdb", dsn)
  pub sql_open : Text → Exec D Fault (Unit {0})
  -- gorm.Open(dialector, ...)
  pub gorm_open : Dialector → Exec D Fault (Tables I B)
  -- db.Exec(ddl)
  pub exec : Text → Exec D Fault (Unit {0})
  -- os.Chmod(path, mode)
  pub chmod : Text → ℕ → Exec D Fault (Unit {0})
  -- db.DB()
  pub handle : Exec D Fault (Unit {0})
  -- sqlDB.Close()
  pub close_handle : Exec D Fault (Unit {0})

abbrev pub state_schema : List Text
state_schema =
    codes
      "CREATE TABLE IF NOT EXISTS instance_records (\n\t\tinstance_id TEXT PRIMARY KEY,\n\t\tservice_id  TEXT NOT NULL,\n\t\tplan_id     TEXT NOT NULL,\n\t\tdatabase    TEXT NOT NULL,\n\t\tparams      TEXT NOT NULL\n\t)"
    ∷ codes
        "CREATE TABLE IF NOT EXISTS binding_records (\n\t\tbinding_id   TEXT PRIMARY KEY,\n\t\tinstance_id  TEXT NOT NULL,\n\t\tusername     TEXT NOT NULL,\n\t\tparams       TEXT NOT NULL,\n\t\tcredentials  TEXT NOT NULL\n\t)"
    ∷ []

-- 0o600
abbrev pub owner_only : ℕ
owner_only = 384

module _ {D I B : Type 0} (host : Host D I B) where
  unfoldable pub state_dialector : Config → Exec D Fault Dialector
  unfolding has_prefix
  state_dialector cfg =
      if text_eq cfg.state_dsn []
      then pure (sqlite cfg.state_path)
      else if has_prefix cfg.state_dsn (codes "gaussdb://")
      then (do host.sql_open cfg.state_dsn; pure (gaussdb cfg.state_dsn))
      else if has_prefix cfg.state_dsn (codes "postgres://")
          || has_prefix cfg.state_dsn (codes "postgresql://")
      then pure (postgres cfg.state_dsn)
      else raise (
          message (
            codes "STATE_DSN must be a postgres:// or gaussdb:// URL, got "
            ++ quoted cfg.state_dsn))

  -- `for _, ddl := range stateSchema`
  unfoldable pub create_tables : List Text → Exec D Fault (Unit {0})
  create_tables [] = pure tt
  create_tables (ddl ∷ rest) = do
    relabel (λ e. wrapped (codes "cannot create state tables") e) (host.exec ddl)
    create_tables rest

  -- restricts the SQLite file to the broker's own user
  unfoldable pub restrict_file : Config → Exec D Fault (Unit {0})
  restrict_file cfg =
      if text_eq cfg.state_dsn []
      then relabel (λ e. wrapped (codes "cannot restrict state file permissions") e)
          (host.chmod cfg.state_path owner_only)
      else pure tt

  unfoldable pub open_store :
      {F R : Type 0} → Config → Json F → Encryptor R → Exec D Fault (Store F I B R)
  unfolding state_dialector create_tables restrict_file
  open_store cfg json encryptor = do
    dialector ← state_dialector cfg
    tables ←
        relabel (λ e. wrapped (codes "cannot open state database") e) (host.gorm_open dialector)
    create_tables state_schema
    restrict_file cfg
    pure (record {
      instances = tables.instances;
      bindings = tables.bindings;
      set_credentials = tables.set_credentials;
      encryptor = encryptor;
      json = json;
    })

  -- Store.Close
  unfoldable pub close_store : Exec D Fault (Unit {0})
  close_store = do host.handle; host.close_handle
