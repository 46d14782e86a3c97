-- ===== src/World.antt =====
-- What the broker's operations change: the two tables of the state database, the openGauss server
-- and the entropy source. The types of their states are parameters. No statement of the program
-- reads or writes both tables, so each has a state of its own.
pub mod Frame
use osb_opengauss_go.Exec.{Exec}

pub record World (I B S R : Type 0) : Type 0 where
  pub instances : I
  pub bindings : B
  pub server : S
  pub entropy : R

module _ {I B S R E A : Type 0} where
  abbrev pub on_instances : Exec I E A → Exec (World I B S R) E A
  on_instances m w = let (r, s) = m w.instances in (r, record w { instances = s })

  abbrev pub on_bindings : Exec B E A → Exec (World I B S R) E A
  on_bindings m w = let (r, s) = m w.bindings in (r, record w { bindings = s })

  abbrev pub on_server : Exec S E A → Exec (World I B S R) E A
  on_server m w = let (r, s) = m w.server in (r, record w { server = s })

  abbrev pub on_entropy : Exec R E A → Exec (World I B S R) E A
  on_entropy m w = let (r, s) = m w.entropy in (r, record w { entropy = s })
