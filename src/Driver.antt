-- ===== src/Driver.antt =====
-- driver.go: the access to the database server, with one connection for each call.
pub mod Calls
pub mod Address
use osb_opengauss_go.Prelude.{
  ℕ, suc, Bool, true, false, List, [], ◌∷◌, ◌++◌, Text, codes, join, format_int, format_nat, length,
  text_eq, has_prefix, if◌then◌else◌,
}
use osb_opengauss_go.Result.{Fault, wrapped, Result, ok, err}
use osb_opengauss_go.Exec.{Exec, pure, relabel, ◌>>=◌, ◌>>◌}
use osb_opengauss_go.Names.{quote_literal}
use osb_opengauss_go.Config.{Config}
use osb_opengauss_go.Url.{query_escape, escape, in_userinfo, in_host, in_path}
use osb_opengauss_go.Gaussdb.{Db}

-- github.com/HuaweiCloudDeveloper/gaussdb-go, with connections `C` to a server with states `S`. A
-- call that runs into its context's deadline is one that fails.
pub record Server (C S : Type 0) : Type 0 where
  -- gaussdb.Connect(ctx, url)
  pub connect : Text → Exec S Fault C
  -- conn.Exec(ctx, statement)
  pub run : C → Text → Exec S Fault (Unit {0})
  -- conn.QueryRow(ctx, query).Scan(&one)
  pub query_one : C → Text → Exec S Fault (Unit {0})
  -- conn.Close(ctx); its error is dropped
  pub close : C → S → S
  -- err == gaussdb.ErrNoRows
  pub is_no_rows : Fault → Bool

-- u.String(): a path that does not begin with a slash gets one, behind a host
unfoldable pub rooted : Text → Text
rooted [] = []
rooted (c ∷ s) = if has_prefix (c ∷ s) (codes "/") then c ∷ s else b'/' ∷ c ∷ s

-- u.EscapedPath()
unfoldable pub escaped_path : Text → Text
unfolding escape
escaped_path path = if text_eq path (codes "*") then path else escape in_path path

-- the database of a call: GAUSSDB_ADMIN_DB for the empty text
unfoldable pub database_or_admin : Config → Text → Text
database_or_admin cfg database = if text_eq database [] then cfg.db_admin_name else database

unfoldable pub conn_url : Config → Text → Text
unfolding join escape query_escape escaped_path rooted database_or_admin
conn_url cfg database =
    join
      (codes "gaussdb://"
        ∷ escape in_userinfo cfg.db_user
        ∷ codes ":"
        ∷ escape in_userinfo cfg.db_password
        ∷ codes "@"
        ∷ escape in_host (cfg.db_host ++ (codes ":" ++ format_int cfg.db_port))
        ∷ rooted (escaped_path (database_or_admin cfg database))
        ∷ codes "?connect_timeout="
        ∷ query_escape (format_int cfg.db_conn_timeout)
        ∷ codes "&sslmode="
        ∷ query_escape cfg.db_sslmode
        ∷ [])
      []

-- what is reported for the statement with the index `i` of `n`, in place of its text
unfoldable pub statement_fault : ℕ → ℕ → Fault → Fault
statement_fault i n e =
    wrapped
      (codes "statement " ++ format_nat (suc i) ++ codes " of " ++ format_nat n ++ codes " failed")
      e

module _ {C S : Type 0} (server : Server C S) where
  -- `defer conn.Close(context.Background())`
  abbrev pub closing : {A : Type 0} → C → Exec S Fault A → Exec S Fault A
  closing conn m s = let (r, s') = m s in (r, server.close conn s')

  -- `for i, statement := range statements`
  unfoldable pub run_statements : C → ℕ → ℕ → List Text → Exec S Fault (Unit {0})
  unfolding statement_fault
  run_statements conn n i [] = pure tt
  run_statements conn n i (statement ∷ rest) = do
    relabel (statement_fault i n) (server.run conn statement)
    run_statements conn n (suc i) rest

  -- gaussdbDB.Exec
  unfoldable pub exec : Config → Text → List Text → Exec S Fault (Unit {0})
  unfolding conn_url run_statements
  exec cfg database statements = do
    conn ← server.connect (conn_url cfg database)
    closing conn (run_statements conn (length statements) 0 statements)

  -- the results of Exists
  unfoldable pub found_one : Result Fault (Unit {0}) → Result Fault Bool
  found_one (ok u) = ok true
  found_one (err e) = if server.is_no_rows e then ok false else err e

  -- gaussdbDB.Exists
  unfoldable pub exists : Config → Text → Text → Text → Exec S Fault Bool
  unfolding conn_url quote_literal found_one
  exists cfg table column name = do
    conn ← server.connect (conn_url cfg [])
    closing conn λ s.
        let (r, s') =
          server.query_one conn
            (codes "SELECT 1 FROM "
              ++ table
              ++ codes " WHERE "
              ++ column
              ++ codes " = "
              ++ quote_literal name)
            s in
        (found_one r, s')

  -- gaussdbDB.Ping
  unfoldable pub ping : Config → Exec S Fault (Unit {0})
  unfolding conn_url
  ping cfg = do
    conn ← server.connect (conn_url cfg [])
    closing conn (server.query_one conn (codes "SELECT 1"))

  -- NewDB
  unfoldable pub new_db : Config → Db S
  unfolding exec exists ping
  new_db cfg = record { exec = exec cfg; exists = exists cfg; ping = ping cfg }
