-- ===== src/Table.antt =====
-- A table of the state database as GORM offers it, and what the program relies on.
pub mod Memory
use osb_opengauss_go.Prelude.{
  ◌≡◌, true, Option, none, some, List, Text, if◌then◌else◌, text_eq, All, In,
}
use osb_opengauss_go.Result.{Fault, Result, ok, err, is_not_found}
use osb_opengauss_go.Exec.{Exec}

-- The operations on a table with states `D` and rows `Row`.
pub record Table (D Row : Type 0) : Type 0 where
  -- db.First(&record, "key = ?", k)
  pub first : Text → Exec D Fault Row
  -- db.Model(&Row{}).Where("key = ?", k).Select("*").Updates(record)
  pub updates : Text → Row → Exec D Fault (Unit {0})
  -- db.Create(&record)
  pub create : Row → Exec D Fault (Unit {0})
  -- db.Delete(&Row{}, "key = ?", k)
  pub delete : Text → Exec D Fault (Unit {0})
  -- db.Where("instance_id = ?", i).Find(&records)
  pub find_where : Text → Exec D Fault (List Row)
  -- db.Find(&records)
  pub find : Exec D Fault (List Row)

abbrev pub replace_by : {Row : Type 0} → Row → Option Row → Option Row
replace_by r none = none
replace_by r (some _) = some r

-- `row d k` is the row that the table holds under a key: one at most. A statement that fails has changed nothing; one
-- that succeeds has done what SQL says.
pub record IsTable {D Row : Type 0} (key group : Row → Text) (row : D → Text → Option Row)
    (t : Table D Row) : Type 0 where
  pub row-key : (d : D) (k : Text) (r : Row) → row d k ≡ some r → key r ≡ k
  pub first-reads : (k : Text) (d : D) (j : Text) → row (t.first k d).1 j ≡ row d j
  pub first-ok : (k : Text) (d : D) (r : Row) → (t.first k d).0 ≡ ok r → row d k ≡ some r
  pub first-missing :
      (k : Text) (d : D) (e : Fault)
      → (t.first k d).0 ≡ err e
      → is_not_found e ≡ true
      → row d k ≡ none
  pub updates-ok :
      (k : Text) (r : Row) (d : D) (j : Text)
      → key r ≡ k
      → (t.updates k r d).0 ≡ ok tt
      → row (t.updates k r d).1 j ≡ (if text_eq k j then replace_by r (row d j) else row d j)
  pub updates-err :
      (k : Text) (r : Row) (d : D) (e : Fault) (j : Text)
      → (t.updates k r d).0 ≡ err e
      → row (t.updates k r d).1 j ≡ row d j
  pub create-ok :
      (r : Row) (d : D) (j : Text)
      → (t.create r d).0 ≡ ok tt
      → row (t.create r d).1 j ≡ (if text_eq (key r) j then some r else row d j)
  pub create-err :
      (r : Row) (d : D) (e : Fault) (j : Text)
      → (t.create r d).0 ≡ err e
      → row (t.create r d).1 j ≡ row d j
  pub delete-ok :
      (k : Text) (d : D) (j : Text)
      → (t.delete k d).0 ≡ ok tt
      → row (t.delete k d).1 j ≡ (if text_eq k j then none else row d j)
  pub delete-err :
      (k : Text) (d : D) (e : Fault) (j : Text)
      → (t.delete k d).0 ≡ err e
      → row (t.delete k d).1 j ≡ row d j
  pub find_where-reads : (i : Text) (d : D) (j : Text) → row (t.find_where i d).1 j ≡ row d j
  pub find_where-complete :
      (i : Text) (d : D) (l : List Row) (k : Text) (r : Row)
      → (t.find_where i d).0 ≡ ok l
      → row d k ≡ some r
      → group r ≡ i
      → In r l
  pub find_where-sound :
      (i : Text) (d : D) (l : List Row)
      → (t.find_where i d).0 ≡ ok l
      → All (λ r. (row d (key r) ≡ some r) × (group r ≡ i)) l
  pub find-reads : (d : D) (j : Text) → row (t.find d).1 j ≡ row d j
  pub find-complete :
      (d : D) (l : List Row) (k : Text) (r : Row) → (t.find d).0 ≡ ok l → row d k ≡ some r → In r l
  pub find-sound :
      (d : D) (l : List Row) → (t.find d).0 ≡ ok l → All (λ r. row d (key r) ≡ some r) l
