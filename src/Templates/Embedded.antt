-- ===== src/Templates/Embedded.antt =====
-- The SQL templates under templates/opengauss, as go:embed puts them into the binary.
use osb_opengauss_go.Prelude.{List, [], ◌∷◌, ◌++◌, Text, codes, text_eq, if◌then◌else◌}
use osb_opengauss_go.Result.{Fault, external, Result, ok, err}

-- a file of these lines
unfoldable pub lines : List Text → Text
lines [] = []
lines (l ∷ ls) = l ++ 10 ∷ lines ls

-- admin-db/provision.sql
unfoldable pub admin_provision : Text
unfolding lines
admin_provision = lines (
    codes "-- provision.sql: creates the tenant's group role, tablespace and database."
    ∷ codes "-- Executed on the admin database (usually postgres)."
    ∷ codes ""
    ∷ codes "CREATE ROLE {{.GroupRole}} NOLOGIN PASSWORD {{.GroupPassword}};"
    ∷ codes ""
    ∷ codes "-- Temporary membership: CREATE DATABASE OWNER and CREATE TABLESPACE OWNER"
    ∷ codes "-- require the executing user to be a member of the owner role."
    ∷ codes "GRANT {{.GroupRole}} TO {{.AdminUser}};"
    ∷ codes ""
    ∷ codes "CREATE TABLESPACE {{.Tablespace}} OWNER {{.GroupRole}}"
    ∷ codes "  RELATIVE LOCATION {{.TablePrefix}} MAXSIZE {{.StorageQuota}};"
    ∷ codes ""
    ∷ codes "CREATE DATABASE {{.Database}} OWNER {{.GroupRole}}"
    ∷ codes "  TEMPLATE template0"
    ∷ codes "  ENCODING {{.Encoding}}"
    ∷ codes "  DBCOMPATIBILITY {{.Compatibility}}"
    ∷ codes "  TABLESPACE {{.Tablespace}}"
    ∷ codes "  CONNECTION LIMIT {{.MaxConnections}};"
    ∷ codes ""
    ∷ codes "-- Lock connection isolation: only the group role and the broker admin"
    ∷ codes "-- may connect to this database."
    ∷ codes "REVOKE CONNECT ON DATABASE {{.Database}} FROM PUBLIC;"
    ∷ codes "GRANT CONNECT ON DATABASE {{.Database}} TO {{.GroupRole}};"
    ∷ codes "GRANT CONNECT ON DATABASE {{.Database}} TO {{.AdminUser}};"
    ∷ codes ""
    ∷ codes "-- Drop the temporary membership used for CREATE DATABASE OWNER."
    ∷ codes "REVOKE {{.GroupRole}} FROM {{.AdminUser}};"
    ∷ [])

-- admin-db/deprovision.sql
unfoldable pub admin_deprovision : Text
unfolding lines
admin_deprovision = lines (
    codes "-- deprovision.sql: removes the whole tenant (database, tablespace, role)."
    ∷ codes "-- Executed on the admin database."
    ∷ codes ""
    ∷ codes "-- DROP DATABASE requires membership in the owner role."
    ∷ codes "GRANT {{.GroupRole}} TO {{.AdminUser}};"
    ∷ codes ""
    ∷ codes
        "SELECT pg_terminate_backend(pid) FROM pg_stat_activity WHERE datname = {{.DatabaseLiteral}};"
    ∷ codes ""
    ∷ codes "DROP DATABASE IF EXISTS {{.Database}};"
    ∷ codes ""
    ∷ codes "DROP TABLESPACE IF EXISTS {{.Tablespace}};"
    ∷ codes ""
    ∷ codes "REVOKE {{.GroupRole}} FROM {{.AdminUser}};"
    ∷ codes ""
    ∷ codes "DROP ROLE IF EXISTS {{.GroupRole}};"
    ∷ [])

-- admin-db/update.sql
unfoldable pub admin_update : Text
unfolding lines
admin_update = lines (
    codes "-- update.sql: changes the connection limit and the storage cap."
    ∷ codes "-- Executed on the admin database."
    ∷ codes ""
    ∷ codes "-- ALTER DATABASE requires membership in the owner role."
    ∷ codes "GRANT {{.GroupRole}} TO {{.AdminUser}};"
    ∷ codes ""
    ∷ codes "ALTER DATABASE {{.Database}} CONNECTION LIMIT = {{.MaxConnections}};"
    ∷ codes ""
    ∷ codes "-- Resize the tenant's storage cap. If the new quota is below current"
    ∷ codes "-- usage the change still succeeds, but writes are blocked until usage"
    ∷ codes "-- drops under the new limit."
    ∷ codes "ALTER TABLESPACE {{.Tablespace}} RESIZE MAXSIZE {{.StorageQuota}};"
    ∷ codes ""
    ∷ codes "REVOKE {{.GroupRole}} FROM {{.AdminUser}};"
    ∷ [])

-- admin-db/bind.sql
unfoldable pub admin_bind : Text
unfolding lines
admin_bind = lines (
    codes "-- bind.sql: creates a read-write login user and joins it to the group role."
    ∷ codes "-- Executed on the admin database."
    ∷ codes ""
    ∷ codes "CREATE USER {{.Username}} LOGIN PASSWORD {{.Password}};"
    ∷ codes ""
    ∷ codes "GRANT {{.GroupRole}} TO {{.Username}};"
    ∷ [])

-- admin-db/unbind.sql
unfoldable pub admin_unbind : Text
unfolding lines
admin_unbind = lines (
    codes "-- unbind.sql: removes the user's auto-created schema and the user itself."
    ∷ codes "-- Executed on the admin database."
    ∷ codes ""
    ∷ codes "-- openGauss auto-creates a same-named schema for new users in the"
    ∷ codes "-- database where they are created; clean it up."
    ∷ codes "DROP SCHEMA IF EXISTS {{.Username}} CASCADE;"
    ∷ codes ""
    ∷ codes "DROP USER IF EXISTS {{.Username}};"
    ∷ [])

-- tenant-db/provision.sql
unfoldable pub tenant_provision : Text
unfolding lines
tenant_provision = lines (
    codes "-- provision.sql: sets up the tenant database's shared public schema."
    ∷ codes "-- Executed on the newly created tenant database."
    ∷ codes ""
    ∷ codes "-- Object isolation: ordinary users only see objects they may access."
    ∷ codes "ALTER DATABASE {{.Database}} ENABLE PRIVATE OBJECT;"
    ∷ codes ""
    ∷ codes "-- The tenant's group role gets full access to the shared namespace."
    ∷ codes "GRANT USAGE, CREATE ON SCHEMA public TO {{.GroupRole}};"
    ∷ codes ""
    ∷ codes "-- Allow the group role to create additional schemas (opt-in namespaces)."
    ∷ codes "GRANT CREATE ON DATABASE {{.Database}} TO {{.GroupRole}};"
    ∷ [])

-- tenant-db/bind.sql
unfoldable pub tenant_bind : Text
unfolding lines
tenant_bind = lines (
    codes "-- bind.sql: sets up per-binding default privileges so everything the user"
    ∷ codes "-- creates in public is visible to the whole group."
    ∷ codes "-- Executed on the tenant database."
    ∷ codes ""
    ∷ codes "ALTER DEFAULT PRIVILEGES FOR ROLE {{.Username}}"
    ∷ codes "  IN SCHEMA public"
    ∷ codes "  GRANT SELECT, INSERT, UPDATE, DELETE ON TABLES TO {{.GroupRole}};"
    ∷ codes ""
    ∷ codes "ALTER DEFAULT PRIVILEGES FOR ROLE {{.Username}}"
    ∷ codes "  IN SCHEMA public"
    ∷ codes "  GRANT USAGE, SELECT ON SEQUENCES TO {{.GroupRole}};"
    ∷ [])

-- tenant-db/unbind.sql
unfoldable pub tenant_unbind : Text
unfolding lines
tenant_unbind = lines (
    codes "-- unbind.sql: terminates the user's sessions and drops everything it owns."
    ∷ codes "-- Executed on the tenant database."
    ∷ codes ""
    ∷ codes
        "SELECT pg_terminate_backend(pid) FROM pg_stat_activity WHERE usename = {{.UsernameLiteral}};"
    ∷ codes ""
    ∷ codes "DROP OWNED BY {{.Username}} CASCADE;"
    ∷ [])

-- embeddedTemplates.ReadFile("templates/" + relPath)
unfoldable pub read_embedded : Text → Result Fault Text
unfolding admin_provision admin_deprovision admin_update admin_bind admin_unbind tenant_provision
    tenant_bind tenant_unbind
read_embedded path =
    if text_eq path (codes "opengauss/admin-db/provision.sql")
    then ok admin_provision
    else if text_eq path (codes "opengauss/admin-db/deprovision.sql")
    then ok admin_deprovision
    else if text_eq path (codes "opengauss/admin-db/update.sql")
    then ok admin_update
    else if text_eq path (codes "opengauss/admin-db/bind.sql")
    then ok admin_bind
    else if text_eq path (codes "opengauss/admin-db/unbind.sql")
    then ok admin_unbind
    else if text_eq path (codes "opengauss/tenant-db/provision.sql")
    then ok tenant_provision
    else if text_eq path (codes "opengauss/tenant-db/bind.sql")
    then ok tenant_bind
    else if text_eq path (codes "opengauss/tenant-db/unbind.sql")
    then ok tenant_unbind
    else err (external (codes "file does not exist"))
