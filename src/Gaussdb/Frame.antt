-- ===== src/Gaussdb/Frame.antt =====
-- No method of Admin touches the state database, however it ends.
use osb_opengauss_go.Prelude.{Text}
use osb_opengauss_go.World.Frame.{Leaves, leaves_rules}
use osb_opengauss_go.Names.{Names}
use osb_opengauss_go.Params.{InstanceParams}
use osb_opengauss_go.Templates.{TemplateVars}
use osb_opengauss_go.Gaussdb.{
  Admin, exec_template, ensure_absent, provision, bind, unbind, deprovision, update,
}

module _ {I B S R : Type 0} (a : Admin S R) where
  exec_template-Leaves :
      (rel_path database : Text) (vars : TemplateVars)
      → Leaves (exec_template {I = I} {B = B} a rel_path database vars)
  unfolding exec_template
  exec_template-Leaves rel_path database vars = search leaves_rules

  ensure_absent-Leaves :
      (table column name : Text) → Leaves (ensure_absent {I = I} {B = B} a table column name)
  unfolding ensure_absent
  ensure_absent-Leaves table column name = search leaves_rules

  ruleset admin_rules = (leaves_rules, exec_template-Leaves, ensure_absent-Leaves)

  pub deprovision-Leaves : (names : Names) → Leaves (deprovision {I = I} {B = B} a names)
  unfolding deprovision
  deprovision-Leaves names = exec_template-Leaves _ _ _

  pub unbind-Leaves :
      (names : Names) (username : Text) → Leaves (unbind {I = I} {B = B} a names username)
  unfolding unbind
  unbind-Leaves names username = search admin_rules

  pub update-Leaves :
      (names : Names) (spec : InstanceParams) → Leaves (update {I = I} {B = B} a names spec)
  unfolding update
  update-Leaves names spec = exec_template-Leaves _ _ _

  pub provision-Leaves :
      (names : Names) (spec : InstanceParams) → Leaves (provision {I = I} {B = B} a names spec)
  unfolding provision
  provision-Leaves names spec = search admin_rules depth 9

  pub bind-Leaves :
      (names : Names) (username : Text) → Leaves (bind {I = I} {B = B} a names username)
  unfolding bind
  bind-Leaves names username = search (admin_rules, unbind-Leaves) depth 9
