-- ===== src/Gaussdb.antt =====
-- gaussdb.go: the life cycle of a tenant's objects, over the DB interface.
pub mod Frame
pub mod Undo
use osb_opengauss_go.Prelude.{
  ℕ, Bool, true, false, [], ◌∷◌, ◌++◌, List, Text, codes, ℤ, pos, format_int, quoted, if◌then◌else◌,
}
use osb_opengauss_go.Result.{Fault, already_exists, Result, ok, err}
use osb_opengauss_go.Exec.{Exec, pure, raise, lift, or_undo, ◌>>=◌, ◌>>◌}
use osb_opengauss_go.Entropy.{Entropy}
use osb_opengauss_go.World.{World, on_server, on_entropy}
use osb_opengauss_go.Names.{Names, quote_ident, quote_literal}
use osb_opengauss_go.Names.Password.{random_password}
use osb_opengauss_go.Params.{InstanceParams}
use osb_opengauss_go.Config.{Config}
use osb_opengauss_go.Templates.{TemplateVars, FileSystem, load_template, render_template}

-- The DB interface, over the states `S` of the server.
pub record Db (S : Type 0) : Type 0 where
  pub exec : Text → List Text → Exec S Fault (Unit {0})
  pub exists : Text → Text → Text → Exec S Fault Bool
  pub ping : Exec S Fault (Unit {0})

-- Admin, with what it takes from its surroundings: the files of TEMPLATE_DIR, the entropy source,
-- and the rounds that `randomPassword` is given.
pub record Admin (S R : Type 0) : Type 0 where
  pub cfg : Config
  pub db : Db S
  pub files : FileSystem
  pub source : Entropy R
  pub attempts : ℕ

-- NewAdmin
unfoldable pub new_admin : {S R : Type 0} → Config → Db S → FileSystem → Entropy R → ℕ → Admin S R
new_admin cfg db files source attempts = record {
  cfg = cfg;
  db = db;
  files = files;
  source = source;
  attempts = attempts;
}

unfoldable pub quota_string : ℤ → Text
quota_string gb = format_int gb ++ codes "G"

-- InstanceParams{}
abbrev pub no_params : InstanceParams
no_params = record {
  name = [];
  compatibility = [];
  encoding = [];
  max_connections = pos 0;
  storage_gb = pos 0;
}

unfoldable pub build_vars : Config → Names → InstanceParams → TemplateVars
unfolding quote_ident quote_literal quota_string
build_vars cfg names spec = record {
  database = quote_ident names.database;
  group_role = quote_ident names.group_role;
  tablespace = quote_ident names.tablespace;
  admin_user = quote_ident cfg.db_user;
  username = [];
  password = [];
  group_password = [];
  encoding = quote_literal spec.encoding;
  compatibility = quote_literal spec.compatibility;
  storage_quota = quote_literal (quota_string spec.storage_gb);
  table_prefix = quote_literal (cfg.tablespace_prefix ++ codes "/" ++ names.tablespace);
  database_literal = quote_literal names.database;
  username_literal = [];
  max_connections = spec.max_connections;
}

module _ {I B S R : Type 0} (a : Admin S R) where
  unfoldable pub exec_template : Text → Text → TemplateVars → Exec (World I B S R) Fault (Unit {0})
  unfolding load_template render_template
  exec_template rel_path database vars = do
    tmpl ← lift (load_template a.files a.cfg.template_dir rel_path)
    statements ← lift (render_template tmpl vars)
    on_server (a.db.exec database statements)

  unfoldable pub ensure_absent : Text → Text → Text → Exec (World I B S R) Fault (Unit {0})
  ensure_absent table column name = do
    exists ← on_server (a.db.exists table column name)
    if exists
        then raise (already_exists (table ++ codes " " ++ quoted name ++ codes " already exists"))
        else pure tt

  -- Admin.Deprovision
  unfoldable pub deprovision : Names → Exec (World I B S R) Fault (Unit {0})
  unfolding exec_template build_vars
  deprovision names =
      exec_template (codes "opengauss/admin-db/deprovision.sql") a.cfg.db_admin_name
        (build_vars a.cfg names no_params)

  -- Admin.Provision
  unfoldable pub provision : Names → InstanceParams → Exec (World I B S R) Fault (Unit {0})
  unfolding ensure_absent exec_template build_vars deprovision
  provision names spec = do
    ensure_absent (codes "pg_database") (codes "datname") names.database
    ensure_absent (codes "pg_roles") (codes "rolname") names.group_role
    ensure_absent (codes "pg_tablespace") (codes "spcname") names.tablespace
    password ← on_entropy (random_password a.source a.attempts)
    let vars : TemplateVars = record (build_vars a.cfg names spec) {
      group_password = quote_literal password;
    }
    or_undo (exec_template (codes "opengauss/admin-db/provision.sql") a.cfg.db_admin_name vars)
        (deprovision names)
    or_undo (exec_template (codes "opengauss/tenant-db/provision.sql") names.database vars)
        (deprovision names)

  -- Admin.Unbind
  unfoldable pub unbind : Names → Text → Exec (World I B S R) Fault (Unit {0})
  unfolding exec_template build_vars
  unbind names username = do
    let vars : TemplateVars = record (build_vars a.cfg names no_params) {
      username = quote_ident username;
      username_literal = quote_literal username;
    }
    exec_template (codes "opengauss/tenant-db/unbind.sql") names.database vars
    exec_template (codes "opengauss/admin-db/unbind.sql") a.cfg.db_admin_name vars

  -- Admin.Bind
  unfoldable pub bind : Names → Text → Exec (World I B S R) Fault Text
  unfolding ensure_absent exec_template build_vars unbind
  bind names username = do
    ensure_absent (codes "pg_roles") (codes "rolname") username
    password ← on_entropy (random_password a.source a.attempts)
    let vars : TemplateVars = record (build_vars a.cfg names no_params) {
      username = quote_ident username;
      password = quote_literal password;
    }
    or_undo (exec_template (codes "opengauss/admin-db/bind.sql") a.cfg.db_admin_name vars)
        (unbind names username)
    or_undo (exec_template (codes "opengauss/tenant-db/bind.sql") names.database vars)
        (unbind names username)
    pure password

  -- Admin.Update
  unfoldable pub update : Names → InstanceParams → Exec (World I B S R) Fault (Unit {0})
  unfolding exec_template build_vars
  update names spec =
      exec_template (codes "opengauss/admin-db/update.sql") a.cfg.db_admin_name
        (build_vars a.cfg names spec)
