-- ===== src/Startup.antt =====
-- main.go: how the program is put together and started, and the health probe.
pub mod Ready
pub mod Rotation
pub mod Health
use osb_opengauss_go.Prelude.{
  ℕ, Bool, true, false, List, [], ◌∷◌, ◌++◌, Text, codes, format_int, text_eq, if◌then◌else◌,
}
use osb_opengauss_go.Result.{Fault, error_text, Result, ok, err, map_err}
use osb_opengauss_go.Exec.{Exec, pure, lift, relabel, ◌>>=◌}
use osb_opengauss_go.Entropy.{Entropy}
use osb_opengauss_go.World.{World}
use osb_opengauss_go.Names.{Hash}
use osb_opengauss_go.Encrypt.{Encryptor, Gcm, new_encryptor, new_previous_key_decryptor}
use osb_opengauss_go.Value.{Float64}
use osb_opengauss_go.Params.{Json, JsonSchema}
use osb_opengauss_go.Config.{Config, Environment, load_config}
use osb_opengauss_go.Plans.{CatalogData, Toml, load_catalog}
use osb_opengauss_go.State.{Store}
use osb_opengauss_go.State.Open.{Host, open_store, close_store}
use osb_opengauss_go.State.Rotate.{rotate_bindings}
use osb_opengauss_go.Templates.{FileSystem}
use osb_opengauss_go.Gaussdb.{Db, Admin, new_admin}
use osb_opengauss_go.Driver.{Server, new_db}
use osb_opengauss_go.Broker.{Broker}

-- What the program runs on: the environment, and the libraries that it calls. `contents` is what
-- the two tables hold on the host.
pub record Platform (D C F I B S R : Type 0) : Type 0 where
  pub environment : Environment
  pub toml : Toml
  pub gcm : Gcm
  pub source : Entropy R
  pub attempts : ℕ
  pub host : Host D I B
  pub contents : D → I × B
  pub server : Server C S
  pub files : FileSystem
  pub json : Json F
  pub schemas : JsonSchema F
  pub float : Float64 F
  pub hash : Hash

-- `must`: the text that is logged, with the error, before the program exits with the code 1
abbrev pub Exit : Type 0
Exit = Text × Fault

abbrev pub must : {E A : Type 0} → Text → (E → Fault) → Result E A → Result Exit A
must text fault r = map_err (λ e. (text, fault e)) r

-- what main has built when the store is open
pub record Opened (F I B R : Type 0) : Type 0 where
  pub cfg : Config
  pub catalog : CatalogData
  pub store : Store F I B R

-- the http.Server, with what newHandler gives to brokerapi
pub record HttpServer (F I B S R : Type 0) : Type 0 where
  pub address : Text
  pub username : Text
  pub password : Text
  pub broker : Broker F I B S R

-- How main comes to an end, or to serve.
pub data Started (F I B S R : Type 0) : Type 0 where
  exited : Exit → Started F I B S R
  exited_open : Exit → World I B S R → Started F I B S R
  serving : HttpServer F I B S R → World I B S R → Started F I B S R

module _ {D C F I B S R : Type 0} (p : Platform D C F I B S R) where
  -- up to the store
  unfoldable pub open_all : Exec D Exit (Opened F I B R)
  unfolding load_config load_catalog new_encryptor open_store
  open_all = do
    cfg ← lift (must (codes "invalid configuration") (λ e. e) (load_config p.environment))
    data' ← lift (must (codes "invalid catalog file") (λ e. e) (load_catalog p.toml cfg.plans_file))
    encryptor ← lift (
        must (codes "invalid encryption key") (λ e. e)
          (new_encryptor p.gcm p.source cfg.encryption_key))
    store ←
        relabel (λ e. (codes "cannot open state file", e)) (open_store p.host cfg p.json encryptor)
    pure (record { cfg = cfg; catalog = data'; store = store })

  -- `if cfg.EncryptionKeyPrevious != ""`; the result is the number that is logged
  unfoldable pub rotate_at_start : Config → Store F I B R → Exec (World I B S R) Exit ℕ
  unfolding new_previous_key_decryptor rotate_bindings
  rotate_at_start cfg store = if text_eq cfg.encryption_key_previous [] then pure 0 else (do
    previous ← lift (
        must (codes "invalid previous encryption key") (λ e. e)
          (new_previous_key_decryptor p.gcm p.source cfg.encryption_key_previous))
    relabel (λ (n, e). (codes "cannot rotate binding credentials to the new key", e))
        (rotate_bindings store previous))

  -- NewBroker over NewAdmin over NewDB
  unfoldable pub new_broker : Opened F I B R → Broker F I B S R
  unfolding new_db new_admin
  new_broker o = record {
    cfg = o.cfg;
    catalog = o.catalog;
    admin = new_admin o.cfg (new_db p.server o.cfg) p.files p.source p.attempts;
    store = o.store;
    schemas = p.schemas;
    float = p.float;
    hash = p.hash;
  }

  unfoldable pub http_server : Opened F I B R → HttpServer F I B S R
  unfolding new_broker
  http_server o = record {
    address = o.cfg.host ++ (codes ":" ++ format_int o.cfg.port);
    username = o.cfg.broker_username;
    password = o.cfg.broker_password;
    broker = new_broker o;
  }

  unfoldable pub rotated_started :
      Opened F I B R → Result Exit ℕ × World I B S R → Started F I B S R
  unfolding http_server
  rotated_started o (err e, w) = exited_open e w
  rotated_started o (ok n, w) = serving (http_server o) w

  -- the world that the broker starts in
  abbrev pub world_of : D → S → R → World I B S R
  world_of d s r = record {
    instances = (p.contents d).0;
    bindings = (p.contents d).1;
    server = s;
    entropy = r;
  }

  unfoldable pub opened_started : S → R → Result Exit (Opened F I B R) × D → Started F I B S R
  unfolding rotate_at_start rotated_started
  opened_started s r (err e, d) = exited e
  opened_started s r (ok o, d) = rotated_started o (rotate_at_start o.cfg o.store (world_of d s r))

  -- main, to the point where it serves
  unfoldable pub main : D → S → R → Started F I B S R
  unfolding open_all opened_started
  main d s r = opened_started s r (open_all d)

-- What ends the serving: a signal, or an error of ListenAndServe.
pub data Stop : Type 0 where
  signalled : Stop
  listen_failed : Fault → Stop

-- The rest of main. `defer store.Close()` runs behind a signal; os.Exit runs nothing that is deferred.
-- server.Shutdown touches no state of the program, and its error is dropped.
unfoldable pub stop_serving : {D I B : Type 0} → Host D I B → Stop → Exec D Exit (Unit {0})
unfolding close_store
stop_serving host signalled d = (ok tt, (close_store host d).1)
stop_serving host (listen_failed e) d = (err (codes "server failed", e), d)

-- The answer of /healthz: the status, and the body's entries in the order of their keys.
pub record Response : Type 0 where
  pub status : ℕ
  pub body : List (Text × Text)

unfoldable pub health_answer : Result Fault (Unit {0}) → Response
unfolding error_text
health_answer (ok u) = record { status = 200; body = (codes "status", codes "ok") ∷ [] }
health_answer (err e) = record {
  status = 503;
  body = (codes "error", error_text e) ∷ (codes "status", codes "unreachable") ∷ [];
}

unfoldable pub healthz : {S : Type 0} → Db S → S → Response × S
unfolding health_answer
healthz db s = let (r, s') = db.ping s in (health_answer r, s')
