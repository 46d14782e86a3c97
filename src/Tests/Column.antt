-- ===== src/Tests/Column.antt =====
-- The one-column update of the table in memory.
use osb_opengauss_go.Prelude.{◌≡◌, List, [], ◌∷◌, Text, arith, if◌then◌else◌, text_eq, text_eq_iff}
use osb_opengauss_go.Result.{Fault, ok, err}
use osb_opengauss_go.Exec.{Exec}
use osb_opengauss_go.Table.Memory.{Memory, statement, lookup, memory_row}
use osb_opengauss_go.State.{BindingRecord}
use osb_opengauss_go.State.Rotate.Reading.{with_credentials}
use osb_opengauss_go.State.Rotate.Progress.{IsColumn, recredited}

abbrev recredit : Text → Text → List BindingRecord → List BindingRecord
recredit k text [] = []
recredit k text (x ∷ xs) =
    (if text_eq x.binding_id k then with_credentials text x else x) ∷ recredit k text xs

unfoldable pub set_credentials : Text → Text → Exec (Memory BindingRecord) Fault (Unit {0})
unfolding statement
set_credentials k text =
    statement (λ r. r.binding_id) (λ r. r.instance_id) λ rows. (ok tt, recredit k text rows)

lookup-recredit :
    (k text : Text) (rows : List BindingRecord) (j : Text)
    → lookup (λ r. r.binding_id) (λ r. r.instance_id) (recredit k text rows) j ≡ (
        if text_eq k j
        then recredited text (lookup (λ r. r.binding_id) (λ r. r.instance_id) rows j)
        else lookup (λ r. r.binding_id) (λ r. r.instance_id) rows j)
unfolding lookup
lookup-recredit k text [] j = ground arith
lookup-recredit k text (x ∷ xs) j = ground (
  arith,
  lookup-recredit k text xs j,
  text_eq_iff x.binding_id k,
  text_eq_iff x.binding_id j,
  text_eq_iff k j,
)

set-ok :
    (k text : Text) (d : Memory BindingRecord) (j : Text)
    → (set_credentials k text d).0 ≡ ok tt
    → memory_row (λ r. r.binding_id) (λ r. r.instance_id) (set_credentials k text d).1 j ≡ (
        if text_eq k j
        then recredited text (memory_row (λ r. r.binding_id) (λ r. r.instance_id) d j)
        else memory_row (λ r. r.binding_id) (λ r. r.instance_id) d j)
unfolding set_credentials statement
set-ok k text d j h = ground (arith, lookup-recredit k text d.rows j)

set-err :
    (k text : Text) (d : Memory BindingRecord) (e : Fault) (j : Text)
    → (set_credentials k text d).0 ≡ err e
    → memory_row (λ r. r.binding_id) (λ r. r.instance_id) (set_credentials k text d).1 j
      ≡ memory_row (λ r. r.binding_id) (λ r. r.instance_id) d j
unfolding set_credentials statement
set-err k text d e j h = ground arith

pub set_credentials-IsColumn :
    IsColumn (memory_row (λ r. r.binding_id) (λ r. r.instance_id)) set_credentials
set_credentials-IsColumn = record { set-ok = set-ok; set-err = set-err }
