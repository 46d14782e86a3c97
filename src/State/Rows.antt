-- ===== src/State/Rows.antt =====
-- What the store's reads and writes do to the rows of a table.
use osb_opengauss_go.Prelude.{
  ◌≡◌, refl, ◌∙◌, true, Option, none, some, Text, arith, if◌then◌else◌, text_eq, text_eq_iff,
  Bool-cases, inl, inr,
}
use osb_opengauss_go.Result.{Fault, Result, ok, err, is_not_found, err≢ok, ok-injective}
use osb_opengauss_go.Table.{Table, IsTable, replace_by}
use osb_opengauss_go.State.{write_found, put_row, read_found, get_row}

module _ {D Row : Type 0} {key group : Row → Text} {row : D → Text → Option Row} (t : Table D Row)
    (laws : IsTable key group row t) (k : Text) where
  -- the write that follows a lookup; `d` is the state before the lookup and `d'` the one after
  write_found-ok :
      (r : Row) (d d' : D) (found : Result Fault Row) (j : Text)
      → key r ≡ k
      → ((j : Text) → row d' j ≡ row d j)
      → ((x : Row) → found ≡ ok x → row d k ≡ some x)
      → (write_found t k r found d').0 ≡ ok tt
      → row (write_found t k r found d').1 j ≡ (if text_eq k j then some r else row d j)
  unfolding write_found
  write_found-ok r d d' (ok x) j e same there h = laws.updates-ok k r d' j e h ∙ over
    where
      over :
          (if text_eq k j then replace_by r (row d' j) else row d' j)
          ≡ (if text_eq k j then some r else row d j)
      over = ground (arith, same j, same k, text_eq_iff k j, there x refl)
  write_found-ok r d d' (err e0) j e same there h = elim (Bool-cases (is_not_found e0)) [
    | inl missing ↦ rw missing (laws.create-ok r d' j (rw missing at h) ∙ rw (e, same j))
    | inr broken ↦ absurd (err≢ok (rw broken at h))
  ]

  write_found-err :
      (r : Row) (d' : D) (found : Result Fault Row) (e : Fault) (j : Text)
      → (write_found t k r found d').0 ≡ err e
      → row (write_found t k r found d').1 j ≡ row d' j
  unfolding write_found
  write_found-err r d' (ok x) e j h = laws.updates-err k r d' e j h
  write_found-err r d' (err e0) e j h = elim (Bool-cases (is_not_found e0)) [
    | inl missing ↦ rw missing (laws.create-err r d' e j (rw missing at h))
    | inr broken ↦ rw broken
  ]

  -- A write that succeeds has put the record under its key, and has changed no other row.
  pub put_row-ok :
      (r : Row) (d : D) (j : Text)
      → key r ≡ k
      → (put_row t k r d).0 ≡ ok tt
      → row (put_row t k r d).1 j ≡ (if text_eq k j then some r else row d j)
  unfolding put_row
  put_row-ok r d j e h =
      write_found-ok r d (t.first k d).1 (t.first k d).0 j e (laws.first-reads k d)
        (laws.first-ok k d) h

  -- A write that fails has changed no row.
  pub put_row-err :
      (r : Row) (d : D) (e : Fault) (j : Text)
      → (put_row t k r d).0 ≡ err e
      → row (put_row t k r d).1 j ≡ row d j
  unfolding put_row
  put_row-err r d e j h =
      write_found-err r (t.first k d).1 (t.first k d).0 e j h ∙ laws.first-reads k d j

  pub get_row-reads : (text : Text) (d : D) (j : Text) → row (get_row t text k d).1 j ≡ row d j
  unfolding get_row
  get_row-reads text d j = laws.first-reads k d j

  read_found-ok :
      (text : Text) (d : D) (found : Result Fault Row) (o : Option Row)
      → ((x : Row) → found ≡ ok x → row d k ≡ some x)
      → ((e : Fault) → found ≡ err e → is_not_found e ≡ true → row d k ≡ none)
      → read_found text found ≡ ok o
      → row d k ≡ o
  unfolding read_found
  read_found-ok text d (ok x) o there missing h = there x refl ∙ ok-injective h
  read_found-ok text d (err e) o there missing h = elim (Bool-cases (is_not_found e)) [
    | inl absent ↦ missing e refl absent ∙ ok-injective (rw absent at h)
    | inr broken ↦ absurd (err≢ok (rw broken at h))
  ]

  -- A read that succeeds returns the row, or nothing if there is none.
  pub get_row-ok :
      (text : Text) (d : D) (o : Option Row) → (get_row t text k d).0 ≡ ok o → row d k ≡ o
  unfolding get_row
  get_row-ok text d o h =
      read_found-ok text d (t.first k d).0 o (laws.first-ok k d) (laws.first-missing k d) h
