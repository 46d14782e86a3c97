-- ===== src/Startup/Ready.antt =====
-- What is known of a broker that serves.
use osb_opengauss_go.Prelude.{ℕ, ◌≡◌, ◌≢◌, refl, subst, ap, [], codes}
use osb_opengauss_go.Result.{Result, ok, err, ok-injective, map_err-eq-ok}
use osb_opengauss_go.Exec.{lift, relabel, bind-eq-ok}
use osb_opengauss_go.World.{World}
use osb_opengauss_go.Encrypt.{Encryptor, new_encryptor}
use osb_opengauss_go.Encrypt.RoundTrip.{IsFaithful, new_encryptor-IsFaithful}
use osb_opengauss_go.Config.{load_config}
use osb_opengauss_go.Config.Checked.{IsChecked, load_config-IsChecked}
use osb_opengauss_go.Plans.{load_catalog}
use osb_opengauss_go.Plans.Checked.{
  IsNamed, AreOffered, load_catalog-AreOffered, load_catalog-IsNamed,
}
use osb_opengauss_go.State.Open.{open_store}
use osb_opengauss_go.State.Open.Files.{IsPrivate, open_store-IsPrivate, open_store-encryptor}
use osb_opengauss_go.Startup.{
  Platform, Exit, Opened, HttpServer, serving, must, open_all, rotate_at_start, new_broker,
  http_server, rotated_started, opened_started, world_of, main,
}

module _ {D C F I B S R : Type 0} (p : Platform D C F I B S R) where
  -- what main has built before it looks at the stored bindings
  pub record Built (d : D) (o : Opened F I B R) : Type 0 where
    pub load : load_config p.environment ≡ ok o.cfg
    pub parse : load_catalog p.toml o.cfg.plans_file ≡ ok o.catalog
    pub encryptor : Encryptor R
    pub encrypt : new_encryptor p.gcm p.source o.cfg.encryption_key ≡ ok encryptor
    pub opening : (open_store p.host o.cfg p.json encryptor d).0 ≡ ok o.store
    pub behind : (open_all p d).1 ≡ (open_store p.host o.cfg p.json encryptor d).1

  open_all_host :
      (d : D) (o : Opened F I B R) (encryptor : Encryptor R)
      → load_config p.environment ≡ ok o.cfg
      → load_catalog p.toml o.cfg.plans_file ≡ ok o.catalog
      → new_encryptor p.gcm p.source o.cfg.encryption_key ≡ ok encryptor
      → (open_store p.host o.cfg p.json encryptor d).0 ≡ ok o.store
      → (open_all p d).1 ≡ (open_store p.host o.cfg p.json encryptor d).1
  unfolding open_all
  open_all_host d o encryptor load parse encrypt opening = rw (load, parse, encrypt, opening)

  pub open_all-Built : (d : D) (o : Opened F I B R) → (open_all p d).0 ≡ ok o → Built d o
  unfolding open_all
  open_all-Built d o h =
      let (cfg, loaded, h1) =
        bind-eq-ok
          (lift (must (codes "invalid configuration") (λ e. e) (load_config p.environment))) _ d
          h in
      let load = map_err-eq-ok _ (load_config p.environment) loaded in
      let (data', parsed, h2) =
        bind-eq-ok
          (lift (must (codes "invalid catalog file") (λ e. e) (load_catalog p.toml cfg.plans_file)))
          _ d h1 in
      let parse = map_err-eq-ok _ (load_catalog p.toml cfg.plans_file) parsed in
      let (encryptor, made, h3) =
        bind-eq-ok
          (lift (
            must (codes "invalid encryption key") (λ e. e)
              (new_encryptor p.gcm p.source cfg.encryption_key)))
          _ d h2 in
      let encrypt = map_err-eq-ok _ (new_encryptor p.gcm p.source cfg.encryption_key) made in
      let (store, opened, h4) =
        bind-eq-ok
          (relabel (λ e. (codes "cannot open state file", e))
            (open_store p.host cfg p.json encryptor))
          _ d h3 in
      let opening = map_err-eq-ok _ (open_store p.host cfg p.json encryptor d).0 opened in
      subst (Built d) (ok-injective h4) (record {
        load = load;
        parse = parse;
        encryptor = encryptor;
        encrypt = encrypt;
        opening = opening;
        behind =
            open_all_host d (record { cfg = cfg; catalog = data'; store = store }) encryptor load
              parse encrypt opening;
      })

  same_serving :
      (a b : HttpServer F I B S R) (v w : World I B S R)
      → serving a v ≡ serving b w
      → (b ≡ a) × (v ≡ w)
  same_serving a b v w h = (cc, cc)

  rotated-eq-serving :
      (o : Opened F I B R) (q : Result Exit ℕ × World I B S R) (server : HttpServer F I B S R)
      (w : World I B S R)
      → rotated_started p o q ≡ serving server w
      → (n : ℕ) × (q ≡ (ok n, w)) × (server ≡ http_server p o)
  unfolding rotated_started
  rotated-eq-serving o (err e, v) server w h = absurd cc
  rotated-eq-serving o (ok n, v) server w h =
      let (server_same, world_same) = same_serving (http_server p o) server v w h in
      (n, ap (λ (x : World I B S R). (ok n, x)) world_same, server_same)

  opened-eq-serving :
      (s : S) (r : R) (q : Result Exit (Opened F I B R) × D) (server : HttpServer F I B S R)
      (w : World I B S R)
      → opened_started p s r q ≡ serving server w
      → (o : Opened F I B R) × (n : ℕ) × (q.0 ≡ ok o)
        × (rotate_at_start p o.cfg o.store (world_of p q.1 s r) ≡ (ok n, w))
        × (server ≡ http_server p o)
  unfolding opened_started
  opened-eq-serving s r (err e, d) server w h = absurd cc
  opened-eq-serving s r (ok o, d) server w h =
      let (n, rotated, same) = rotated-eq-serving o _ server w h in (o, n, refl, rotated, same)

  -- Inversion of a start that ends in serving.
  pub main-eq-serving :
      (d : D) (s : S) (r : R) (server : HttpServer F I B S R) (w : World I B S R)
      → main p d s r ≡ serving server w
      → (o : Opened F I B R) × (n : ℕ) × ((open_all p d).0 ≡ ok o)
        × (rotate_at_start p o.cfg o.store (world_of p (open_all p d).1 s r) ≡ (ok n, w))
        × (server ≡ http_server p o)
  unfolding main
  main-eq-serving d s r server w h = opened-eq-serving s r (open_all p d) server w h

  -- what holds of a server that main starts, which it has opened the store for on the host `d`
  pub record IsReady (d : D) (server : HttpServer F I B S R) : Type 0 where
    pub checked : IsChecked server.broker.cfg
    pub service : IsNamed server.broker.catalog.service
    pub some_plan : server.broker.catalog.plans ≢ []
    pub offered : AreOffered server.broker.catalog.plans
    pub faithful : IsFaithful server.broker.store.encryptor
    pub password : server.password ≢ []
    pub restricted :
        server.broker.cfg.state_dsn ≡ [] → IsPrivate p.host server.broker.cfg d (open_all p d).1

  Built-IsReady : (d : D) (o : Opened F I B R) → Built d o → IsReady d (http_server p o)
  unfolding http_server new_broker
  Built-IsReady d o built =
      let checked = load_config-IsChecked p.environment o.cfg built.load in
      let (uuid, some_plan, offered) =
        load_catalog-AreOffered p.toml o.cfg.plans_file o.catalog built.parse in
      record {
        checked = checked;
        service = load_catalog-IsNamed p.toml o.cfg.plans_file o.catalog built.parse;
        some_plan = some_plan;
        offered = offered;
        faithful =
            rw (open_store-encryptor p.host o.cfg p.json built.encryptor d o.store built.opening) (
              new_encryptor-IsFaithful p.gcm p.source o.cfg.encryption_key built.encryptor
                built.encrypt);
        password = checked.password;
        restricted = λ empty. rw built.behind (
            open_store-IsPrivate p.host o.cfg p.json built.encryptor d o.store empty built.opening);
      }

  -- Where main comes to serve: the settings have passed their checks; the catalog's service has a
  -- UUID, a name and a description; there are plans, each with a UUID, a name, a description and
  -- quotas of at least 1, no two with the same id or name; the interface has a password; the
  -- encryptor reads what it writes; and without a STATE_DSN the two tables were created in the file
  -- of the settings, which then got the permissions of its owner to read and write, and no others.
  pub main-IsReady :
      (d : D) (s : S) (r : R) (server : HttpServer F I B S R) (w : World I B S R)
      → main p d s r ≡ serving server w
      → IsReady d server
  main-IsReady d s r server w h =
      let (o, n, opened, rotated, same) = main-eq-serving d s r server w h in
      rw same (Built-IsReady d o (open_all-Built d o opened))
