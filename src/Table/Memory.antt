-- ===== src/Table/Memory.antt =====
-- A table in memory: rows in a list, and a plan of which statements fail. It meets what is asked
-- of a table, so the theorems about one can be applied.
use osb_opengauss_go.Prelude.{
  ◌≡◌, refl, sym, ap, subst, ◌∙◌, inl, inr, Bool, true, false, not, Option, none, some, List, [],
  ◌∷◌, Text, codes, arith, if◌then◌else◌, text_eq, text_eq_iff, text_eq_refl, text_eq_sound, filter,
  All, In, Bool-cases,
}
use osb_opengauss_go.Result.{Fault, record_not_found, external, Result, ok, err, is_not_found}
use osb_opengauss_go.Exec.{Exec}
use osb_opengauss_go.Table.{Table, IsTable, replace_by}

pub record Memory (Row : Type 0) : Type 0 where
  pub rows : List Row
  -- whether each statement to come fails
  pub faults : List Bool

module _ {Row : Type 0} (key group : Row → Text) where
  unfoldable pub lookup : List Row → Text → Option Row
  lookup [] k = none
  lookup (r ∷ rs) k = if text_eq (key r) k then some r else lookup rs k

  put_over : Text → Row → List Row → List Row
  put_over k r [] = []
  put_over k r (x ∷ xs) = (if text_eq (key x) k then r else x) ∷ put_over k r xs

  -- the rows that no earlier row hides
  visible : List Row → List Row
  visible [] = []
  visible (r ∷ rs) = r ∷ filter (λ x. not (text_eq (key r) (key x))) (visible rs)

  in_group : Text → Row → Bool
  in_group i r = text_eq (group r) i

  -- one statement: it fails as planned, or does its work
  unfoldable pub statement :
      {A : Type 0} → (List Row → Result Fault A × List Row) → Exec (Memory Row) Fault A
  statement work d = elim d.faults [
    | [] ↦ let (a, rows) = work d.rows in (a, record { rows = rows; faults = [] })
    | fault ∷ rest ↦
        if fault
        then (err (external (codes "database is locked")), record { rows = d.rows; faults = rest })
        else (let (a, rows) = work d.rows in (a, record { rows = rows; faults = rest }))
  ]

  found : Option Row → Result Fault Row
  found none = err (record_not_found (codes "record not found"))
  found (some r) = ok r

  insert : Row → List Row → Option Row → Result Fault (Unit {0}) × List Row
  insert r rows none = (ok tt, r ∷ rows)
  insert r rows (some _) = (err (external (codes "UNIQUE constraint failed")), rows)

  unfoldable pub memory_table : Table (Memory Row) Row
  unfolding statement found lookup put_over insert visible in_group
  memory_table = record {
    first = λ k. statement λ rows. (found (lookup rows k), rows);
    updates = λ k r. statement λ rows. (ok tt, put_over k r rows);
    create = λ r. statement λ rows. insert r rows (lookup rows (key r));
    delete = λ k. statement λ rows. (ok tt, filter (λ x. not (text_eq (key x) k)) rows);
    find_where = λ i. statement λ rows. (ok (filter (in_group i) (visible rows)), rows);
    find = statement λ rows. (ok (visible rows), rows);
  }

  pub lookup-key : (rows : List Row) (k : Text) (r : Row) → lookup rows k ≡ some r → key r ≡ k
  unfolding lookup
  lookup-key [] k r h = cc
  lookup-key (x ∷ xs) k r h = elim (Bool-cases (text_eq (key x) k)) [
    | inl same ↦ ground (arith, text_eq_sound (key x) k)
    | inr other ↦ lookup-key xs k r (rw other at h)
  ]

  lookup-put_over :
      (k : Text) (r : Row) (rows : List Row) (j : Text)
      → key r ≡ k
      → lookup (put_over k r rows) j
        ≡ (if text_eq k j then replace_by r (lookup rows j) else lookup rows j)
  unfolding lookup put_over
  lookup-put_over k r [] j e = ground arith
  lookup-put_over k r (x ∷ xs) j e = ground (
    arith,
    lookup-put_over k r xs j e,
    text_eq_iff (key x) k,
    text_eq_iff (key x) j,
    text_eq_iff k j,
    text_eq_iff (key r) j,
  )

  lookup-filter :
      (k : Text) (rows : List Row) (j : Text)
      → lookup (filter (λ x. not (text_eq (key x) k)) rows) j
        ≡ (if text_eq k j then none else lookup rows j)
  unfolding lookup
  lookup-filter k [] j = ground arith
  lookup-filter k (x ∷ xs) j =
      ground
        (arith, lookup-filter k xs j, text_eq_iff (key x) k, text_eq_iff (key x) j, text_eq_iff k j)

  All-filter :
      (P : Row → Type 0) (p : Row → Bool) (xs : List Row)
      → All P xs
      → All (λ x. P x × (p x ≡ true)) (filter p xs)
  All-filter P p [] h = tt
  All-filter P p (x ∷ xs) (hx, hs) = elim (Bool-cases (p x)) [
    | inl keep ↦ rw keep ((hx, keep), All-filter P p xs hs)
    | inr drop ↦ rw drop (All-filter P p xs hs)
  ]

  All-map : (P Q : Row → Type 0) (f : (x : Row) → P x → Q x) (xs : List Row) → All P xs → All Q xs
  All-map P Q f [] h = tt
  All-map P Q f (x ∷ xs) (hx, hs) = (f x hx, All-map P Q f xs hs)

  In-filter : (p : Row → Bool) (r : Row) (xs : List Row) → In r xs → p r ≡ true → In r (filter p xs)
  In-filter p r [] h keep = h
  In-filter p r (x ∷ xs) (inl e) keep = rw (ap p (sym e) ∙ keep) (inl e)
  In-filter p r (x ∷ xs) (inr m) keep = elim (Bool-cases (p x)) [
    | inl kx ↦ rw kx (inr (In-filter p r xs m keep))
    | inr dx ↦ rw dx (In-filter p r xs m keep)
  ]

  visible_sound : (rows : List Row) → All (λ r. lookup rows (key r) ≡ some r) (visible rows)
  unfolding lookup visible
  visible_sound [] = tt
  visible_sound (r ∷ rs) = (
    rw text_eq_refl,
    All-map _ _ (λ x (found, other). rw (not-true _ other) found) _
        (All-filter _ (λ x. not (text_eq (key r) (key x))) (visible rs) (visible_sound rs)),
  )
    where
      not-true : (b : Bool) → not b ≡ true → b ≡ false
      not-true true h = cc
      not-true false h = refl

  visible_complete :
      (rows : List Row) (k : Text) (r : Row) → lookup rows k ≡ some r → In r (visible rows)
  unfolding lookup visible
  visible_complete [] k r h = cc
  visible_complete (x ∷ xs) k r h = elim (Bool-cases (text_eq (key x) k)) [
    | inl same ↦ inl (ground arith)
    | inr other ↦
        let h' = rw other at h in
        inr (
          In-filter _ r (visible xs) (visible_complete xs k r h')
            (rw (lookup-key xs k r h', other)))
  ]

  abbrev pub memory_row : Memory Row → Text → Option Row
  memory_row d k = lookup d.rows k

  module _ (k : Text) (d : Memory Row) where
    first-reads : (j : Text) → memory_row (memory_table.first k d).1 j ≡ memory_row d j
    unfolding memory_table
    first-reads j = ground arith

    first-ok : (r : Row) → (memory_table.first k d).0 ≡ ok r → memory_row d k ≡ some r
    unfolding memory_table
    first-ok r h = ground arith

    first-missing :
        (e : Fault)
        → (memory_table.first k d).0 ≡ err e
        → is_not_found e ≡ true
        → memory_row d k ≡ none
    unfolding memory_table is_not_found
    first-missing e h m = ground arith

    delete-ok :
        (j : Text)
        → (memory_table.delete k d).0 ≡ ok tt
        → memory_row (memory_table.delete k d).1 j ≡ (if text_eq k j then none else memory_row d j)
    unfolding memory_table
    delete-ok j h = ground (arith, lookup-filter k d.rows j)

    delete-err :
        (e : Fault) (j : Text)
        → (memory_table.delete k d).0 ≡ err e
        → memory_row (memory_table.delete k d).1 j ≡ memory_row d j
    unfolding memory_table
    delete-err e j h = ground arith

    updates-ok :
        (r : Row) (j : Text)
        → key r ≡ k
        → (memory_table.updates k r d).0 ≡ ok tt
        → memory_row (memory_table.updates k r d).1 j
          ≡ (if text_eq k j then replace_by r (memory_row d j) else memory_row d j)
    unfolding memory_table
    updates-ok r j e h = ground (arith, lookup-put_over k r d.rows j e)

    updates-err :
        (r : Row) (e : Fault) (j : Text)
        → (memory_table.updates k r d).0 ≡ err e
        → memory_row (memory_table.updates k r d).1 j ≡ memory_row d j
    unfolding memory_table
    updates-err r e j h = ground arith

    find_where-reads : (j : Text) → memory_row (memory_table.find_where k d).1 j ≡ memory_row d j
    unfolding memory_table
    find_where-reads j = ground arith

  module _ (r : Row) (d : Memory Row) where
    create-ok :
        (j : Text)
        → (memory_table.create r d).0 ≡ ok tt
        → memory_row (memory_table.create r d).1 j
          ≡ (if text_eq (key r) j then some r else memory_row d j)
    unfolding memory_table
    create-ok j h = ground arith

    create-err :
        (e : Fault) (j : Text)
        → (memory_table.create r d).0 ≡ err e
        → memory_row (memory_table.create r d).1 j ≡ memory_row d j
    unfolding memory_table
    create-err e j h = ground arith

  module _ (d : Memory Row) where
    find-reads : (j : Text) → memory_row (memory_table.find d).1 j ≡ memory_row d j
    unfolding memory_table
    find-reads j = ground arith

    find-list : (l : List Row) → (memory_table.find d).0 ≡ ok l → visible d.rows ≡ l
    unfolding memory_table
    find-list l h = ground arith

    find_where-list :
        (i : Text) (l : List Row)
        → (memory_table.find_where i d).0 ≡ ok l
        → filter (in_group i) (visible d.rows) ≡ l
    unfolding memory_table
    find_where-list i l h = ground arith

  pub memory_table-IsTable : IsTable key group memory_row memory_table
  memory_table-IsTable = record {
    row-key = λ d k r h. lookup-key d.rows k r h;
    first-reads = first-reads;
    first-ok = first-ok;
    first-missing = first-missing;
    updates-ok = λ k r d j e h. updates-ok k d r j e h;
    updates-err = λ k r d e j h. updates-err k d r e j h;
    create-ok = create-ok;
    create-err = create-err;
    delete-ok = delete-ok;
    delete-err = delete-err;
    find_where-reads = find_where-reads;
    find_where-complete = λ i d l k r h m g. subst (In r) (find_where-list d i l h) (
        In-filter (in_group i) r _ (visible_complete d.rows k r m)
          (unfold in_group in rw (g, text_eq_refl)));
    find_where-sound = λ i d l h.
        subst (All (λ r. (memory_row d (key r) ≡ some r) × (group r ≡ i))) (find_where-list d i l h)
          (All-map _ _ (λ x (found, same). (found, unfold in_group in text_eq_sound _ _ same)) _
            (All-filter _ (in_group i) (visible d.rows) (visible_sound d.rows)));
    find-reads = find-reads;
    find-complete = λ d l k r h m. subst (In r) (find-list d l h) (visible_complete d.rows k r m);
    find-sound = λ d l h.
        subst (All (λ r. memory_row d (key r) ≡ some r)) (find-list d l h) (visible_sound d.rows);
  }
