-- ===== src/Tests/Undoing.antt =====
-- What is taken back on the server, at concrete inputs.
use osb_opengauss_go.Prelude.{◌≡◌, refl, text_eq, ◌⊎◌, ◌++◌, Text, List, [], ◌∷◌, codes, pos, false}
use osb_opengauss_go.Result.{external, ok, err}
use osb_opengauss_go.Names.{Names}
use osb_opengauss_go.Names.Password.{random_password}
use osb_opengauss_go.Config.{settings}
use osb_opengauss_go.Params.{InstanceParams}
use osb_opengauss_go.Gaussdb.{Admin, provision, bind, deprovision, unbind}
use osb_opengauss_go.Gaussdb.Undo.{Probed, EndsUndone, provision_undone, bind_undone}
use osb_opengauss_go.Tests.Sample.{sample_admin, fresh_world}

-- a server that logs, and refuses each batch
abbrev refusing_admin : Admin (List Text) Text
refusing_admin = record sample_admin {
  db = record {
    exec =
        λ database statements log. (err (external (codes "permission denied")), statements ++ log);
    exists = λ table column name log. (ok false, codes "probe" ∷ log);
    ping = λ log. (ok tt, log);
  };
}

abbrev tenant : Names
tenant = record {
  database = codes "gdb_a";
  group_role = codes "gdb_a_role";
  tablespace = codes "gdb_a_ts";
}

abbrev small : InstanceParams
small = record {
  name = [];
  compatibility = codes "PG";
  encoding = codes "UTF8";
  max_connections = pos 20;
  storage_gb = pos 3;
}

not_provisioned :
    (provision refusing_admin tenant small fresh_world).0
    ≡ err (external (codes "permission denied"))
unfolding provision random_password settings text_eq
not_provisioned = refl

not_bound :
    (bind refusing_admin tenant (codes "gdb_u") fresh_world).0
    ≡ err (external (codes "permission denied"))
unfolding bind random_password settings text_eq
not_bound = refl

provision_undone_example :
    Probed refusing_admin.db fresh_world.server
      (provision refusing_admin tenant small fresh_world).1.server
    ⊎ EndsUndone refusing_admin
        (deprovision refusing_admin tenant)
        (provision refusing_admin tenant small fresh_world).1
provision_undone_example =
    provision_undone refusing_admin tenant small fresh_world (external (codes "permission denied"))
      not_provisioned

bind_undone_example :
    Probed refusing_admin.db fresh_world.server
      (bind refusing_admin tenant (codes "gdb_u") fresh_world).1.server
    ⊎ EndsUndone refusing_admin
        (unbind refusing_admin tenant (codes "gdb_u"))
        (bind refusing_admin tenant (codes "gdb_u") fresh_world).1
bind_undone_example =
    bind_undone refusing_admin tenant (codes "gdb_u") fresh_world
      (external (codes "permission denied")) not_bound
