-- ===== src/Startup/Health.antt =====
-- The health probe over the driver.
use osb_opengauss_go.Prelude.{◌≡◌, refl, inl, inr, [], ◌∷◌, codes}
use osb_opengauss_go.Result.{Fault, error_text, ok, err, Result-cases}
use osb_opengauss_go.Config.{Config}
use osb_opengauss_go.Driver.Calls.{pair-eq}
use osb_opengauss_go.Driver.{Server, conn_url, ping, new_db}
use osb_opengauss_go.Startup.{Response, health_answer, healthz}

abbrev healthy : Response
healthy = record { status = 200; body = (codes "status", codes "ok") ∷ [] }

abbrev unreachable : Fault → Response
unreachable e = record {
  status = 503;
  body = (codes "error", error_text e) ∷ (codes "status", codes "unreachable") ∷ [];
}

module _ {C S : Type 0} (server : Server C S) (cfg : Config) (s : S) where
  -- How the probe may end: 200 behind a connection over which SELECT 1 was answered, and 503 with
  -- the error of the connection or of the query; an opened connection is closed.
  pub data Probe (s' : S) : Response → Type 0 where
    unconnected :
        (e : Fault) → server.connect (conn_url cfg []) s ≡ (err e, s') → Probe s' (unreachable e)
    unanswered :
        (conn : C) (opened last : S) (e : Fault)
        → server.connect (conn_url cfg []) s ≡ (ok conn, opened)
        → server.query_one conn (codes "SELECT 1") opened ≡ (err e, last)
        → server.close conn last ≡ s'
        → Probe s' (unreachable e)
    answered :
        (conn : C) (opened last : S)
        → server.connect (conn_url cfg []) s ≡ (ok conn, opened)
        → server.query_one conn (codes "SELECT 1") opened ≡ (ok tt, last)
        → server.close conn last ≡ s'
        → Probe s' healthy

  -- Whatever the server does, /healthz answers 200 and "ok" just where it could open a connection
  -- and the server answered SELECT 1 over it, and else 503 with the text of the error of the one or
  -- the other; an opened connection is closed.
  pub healthz-Probe : Probe (healthz (new_db server cfg) s).1 (healthz (new_db server cfg) s).0
  unfolding healthz health_answer new_db ping
  healthz-Probe = elim (Result-cases (server.connect (conn_url cfg []) s).0) [
    | inr (e, h) ↦ rw h (unconnected e (pair-eq _ h))
    | inl (conn, h) ↦ rw h (query_Probe conn _ (pair-eq _ h))
  ]
    where
      query_Probe :
          (conn : C) (opened : S)
          → server.connect (conn_url cfg []) s ≡ (ok conn, opened)
          → Probe
              (server.close conn (server.query_one conn (codes "SELECT 1") opened).1)
              (health_answer (server.query_one conn (codes "SELECT 1") opened).0)
      query_Probe conn opened h =
          elim (Result-cases (server.query_one conn (codes "SELECT 1") opened).0) [
            | inr (e, asked) ↦ rw asked (unanswered conn opened _ e h (pair-eq _ asked) refl)
            | inl (u, asked) ↦ rw asked (answered conn opened _ h (pair-eq _ asked) refl)
          ]
