-- ===== src/State/Rotate/Loop.antt =====
-- The whole of RotateBindings: it loses no credentials, whichever call fails, and when it succeeds
-- the current key reads all of them.
use osb_opengauss_go.Prelude.{
  ◌≡◌, refl, sym, ap, ◌∙◌, subst, inl, inr, Option, some, List, [], ◌∷◌, Text, codes, ℕ, suc,
  if◌then◌else◌, All, In,
}
use osb_opengauss_go.Result.{Fault, Result, ok, wrapped, map_err, map_err-eq-ok}
use osb_opengauss_go.Exec.{relabel, continue_end, bind-eq-ok, relabel-eq-ok}
use osb_opengauss_go.World.{World, on_bindings}
use osb_opengauss_go.Encrypt.{Encryptor}
use osb_opengauss_go.Table.{IsTable}
use osb_opengauss_go.State.{BindingRecord, Store}
use osb_opengauss_go.State.Rotate.{rotate_record, rotate_records, rotate_bindings}
use osb_opengauss_go.State.Rotate.Reading.{
  with_credentials, IsCurrent, Reads, unique_Reads, self_Keeps, IsRotatable,
}
use osb_opengauss_go.State.Rotate.Progress.{
  IsColumn, Advance, Holds, HasCurrent, rotate_record-Advances, Advance-Holds, Advance-HasCurrent,
  Advance-ok, Advance-Reads, same_value,
}

All-In : {A : Type 0} (P : A → Type 0) (xs : List A) (x : A) → All P xs → In x xs → P x
All-In P [] x h m = absurd m
All-In P (y ∷ ys) x (hy, hs) (inl e) = subst P (sym e) hy
All-In P (y ∷ ys) x (hy, hs) (inr m) = All-In P ys x hs m

module _ {F I B R : Type 0} (store : Store F I B R) (previous : Encryptor R)
    (row : B → Text → Option BindingRecord) (column : IsColumn row store.set_credentials)
    (rotatable : IsRotatable store previous) where
  module _ (d0 : B) where
    -- the records that the loop goes through are those of the rows at the start
    abbrev Listed : List BindingRecord → Type 0
    Listed = All (λ x. row d0 x.binding_id ≡ some x)

    module _ {S : Type 0} where
      rotate_records-Holds :
          (n : ℕ) (l : List BindingRecord) (w : World I B S R)
          → Listed l
          → Holds store previous row d0 w.bindings
          → Holds store previous row d0 (rotate_records store previous n l w).1.bindings
      unfolding rotate_records
      rotate_records-Holds n [] w listed h = h
      rotate_records-Holds n (x ∷ xs) w (there, listed) h =
          let w1 = (rotate_record store previous x w).1 in
          let h1 =
            Advance-Holds store previous row rotatable x d0 w.bindings w1.bindings there
              (rotate_record-Advances store previous row column x w) h in
          continue_end (λ (q : World I B S R). Holds store previous row d0 q.bindings)
            (map_err (λ e. (n, e)) (rotate_record store previous x w).0) _ w1
            (λ m _. rotate_records-Holds (if m then suc n else n) xs w1 listed h1) (λ e _. h1)

      rotate_records-HasCurrent :
          (k : Text) (n : ℕ) (l : List BindingRecord) (w : World I B S R)
          → HasCurrent store previous row k w.bindings
          → HasCurrent store previous row k (rotate_records store previous n l w).1.bindings
      unfolding rotate_records
      rotate_records-HasCurrent k n [] w h = h
      rotate_records-HasCurrent k n (x ∷ xs) w h =
          let w1 = (rotate_record store previous x w).1 in
          let h1 =
            Advance-HasCurrent store previous row rotatable x w.bindings w1.bindings k
              (rotate_record-Advances store previous row column x w) h in
          continue_end (λ (q : World I B S R). HasCurrent store previous row k q.bindings)
            (map_err (λ e. (n, e)) (rotate_record store previous x w).0) _ w1
            (λ m _. rotate_records-HasCurrent k (if m then suc n else n) xs w1 h1) (λ e _. h1)

      -- the record was readable, and in the world `q` the current key reads its row
      abbrev Arrived : World I B S R → BindingRecord → Type 0
      Arrived q x =
          HasCurrent store previous row x.binding_id q.bindings
          × ((plain : Text) × Reads store previous x plain)

      rotate_records-ok :
          (n total : ℕ) (l : List BindingRecord) (w : World I B S R)
          → Listed l
          → Holds store previous row d0 w.bindings
          → (rotate_records store previous n l w).0 ≡ ok total
          → All (Arrived (rotate_records store previous n l w).1) l
      unfolding rotate_records
      rotate_records-ok n total [] w listed h done = tt
      rotate_records-ok n total (x ∷ xs) w (there, listed) h done =
          let w1 = (rotate_record store previous x w).1 in
          let (m, round, rest) =
            bind-eq-ok (relabel (λ e. (n, e)) (rotate_record store previous x)) _ w done in
          let ended = relabel-eq-ok (λ e. (n, e)) (rotate_record store previous x) w round in
          let step = rotate_record-Advances store previous row column x w in
          let step' = subst (Advance store previous row x w.bindings w1.bindings) ended step in
          let h1 =
            Advance-Holds store previous row rotatable x d0 w.bindings w1.bindings there step h in
          let n1 : ℕ = if m then suc n else n in
          let now =
            Advance-ok store previous row rotatable x d0 w.bindings w1.bindings there m step' h in
          let runs : rotate_records store previous n (x ∷ xs) w
              ≡ rotate_records store previous n1 xs w1 =
            rw round in
          subst (λ (q : Result (ℕ × Fault) ℕ × World I B S R). All (Arrived q.1) (x ∷ xs))
            (sym runs)
            (
              (
                rotate_records-HasCurrent x.binding_id n1 xs w1 now,
                Advance-Reads store previous row x w.bindings w1.bindings m step',
              ),
              rotate_records-ok n1 total xs w1 listed h1 rest,
            )

  module _ {S : Type 0} where
    rotate_records_idle :
        (l : List BindingRecord) (w : World I B S R)
        → All (λ x. (plain : Text) × IsCurrent store previous x plain) l
        → rotate_records store previous 0 l w ≡ (ok 0, w)
    unfolding rotate_records rotate_record
    rotate_records_idle [] w h = refl
    rotate_records_idle (x ∷ xs) w ((plain, current), h) =
        rw (current.decoded, current.decrypted) (rotate_records_idle xs w h)

  module _ {S : Type 0} (laws : IsTable (λ r. r.binding_id) (λ r. r.instance_id) row store.bindings)
      (w : World I B S R) where
    read_Holds :
        (l : List BindingRecord) (n : ℕ)
        → (store.bindings.find w.bindings).0 ≡ ok l
        → Holds store previous row w.bindings
            (rotate_records store previous n l
              (record w { bindings = (store.bindings.find w.bindings).1 })).1.bindings
    read_Holds l n found =
        rotate_records-Holds w.bindings n l _ (laws.find-sound w.bindings l found)
          (λ k r at. (r, laws.find-reads w.bindings k ∙ at, self_Keeps store previous r))

    -- However RotateBindings ends, and whichever call fails in between: each binding record that was
    -- there is there, all but its credentials unchanged, and what one of the keys read of them, the
    -- current one first, one of the keys reads still; what the current key read it reads still.
    pub rotate_bindings-Holds :
        Holds store previous row w.bindings (rotate_bindings store previous w).1.bindings
    unfolding rotate_bindings
    rotate_bindings-Holds =
        continue_end (λ (q : World I B S R). Holds store previous row w.bindings q.bindings)
          (map_err (λ e. (0, wrapped (codes "cannot read bindings for rotation") e))
            (store.bindings.find w.bindings).0)
          _ (record w { bindings = (store.bindings.find w.bindings).1 })
          (λ l found. read_Holds l 0 (map_err-eq-ok _ _ found))
          (λ e _ k r at. (r, laws.find-reads w.bindings k ∙ at, self_Keeps store previous r))

    -- When RotateBindings succeeds, every binding record that was there had credentials that one of
    -- the keys read, is there still with all else unchanged, and the current key reads of it just
    -- what was read before.
    pub rotate_bindings-IsCurrent :
        (n : ℕ) (k : Text) (r : BindingRecord)
        → (rotate_bindings store previous w).0 ≡ ok n
        → row w.bindings k ≡ some r
        → (r' : BindingRecord) × (plain : Text) × (row
              (rotate_bindings store previous w).1.bindings
              k
            ≡ some r')
          × (r' ≡ with_credentials r'.credentials r)
          × Reads store previous r plain
          × IsCurrent store previous r' plain
    unfolding rotate_bindings
    rotate_bindings-IsCurrent n k r done at =
        let (l, found, rest) =
          bind-eq-ok
            (relabel (λ e. (0, wrapped (codes "cannot read bindings for rotation") e))
              (on_bindings store.bindings.find))
            _ w done in
        let listed = map_err-eq-ok _ (store.bindings.find w.bindings).0 found in
        let w1 : World I B S R = record w { bindings = (store.bindings.find w.bindings).1 } in
        let runs : rotate_bindings store previous w ≡ rotate_records store previous 0 l w1 =
          rw found in
        let all =
          rotate_records-ok w.bindings 0 n l w1 (laws.find-sound w.bindings l listed)
            (λ j q there. (q, laws.find-reads w.bindings j ∙ there, self_Keeps store previous q))
            rest in
        let ((r'', now, here, current), (plain, reads)) =
          All-In _ l r all (laws.find-complete w.bindings l k r listed at) in
        let (r', there, keeps) = read_Holds l 0 listed k r at in
        let own : r'' ≡ r' = same_value (
          sym here
          ∙ ap (row (rotate_records store previous 0 l w1).1.bindings)
              (laws.row-key w.bindings k r at)
          ∙ there) in
        let current' = subst (λ q. IsCurrent store previous q now) own current in
        let same =
          unique_Reads store previous r' now plain (inl current') (keeps.reads plain reads) in
        (
          r',
          plain,
          ap (λ q. row q.1.bindings k) runs ∙ there,
          keeps.others,
          reads,
          subst (IsCurrent store previous r') same current',
        )

    -- Where the current key reads every binding record and the records can be listed, RotateBindings
    -- does nothing but list them, and reports that none has moved.
    pub rotate_bindings_idle :
        (l : List BindingRecord)
        → ((k : Text) (r : BindingRecord)
            → row w.bindings k ≡ some r
            → (plain : Text) × IsCurrent store previous r plain)
        → (store.bindings.find w.bindings).0 ≡ ok l
        → rotate_bindings store previous w
          ≡ (ok 0, record w { bindings = (store.bindings.find w.bindings).1 })
    unfolding rotate_bindings
    rotate_bindings_idle l readable found =
        rw found (rotate_records_idle l _ (settled l (laws.find-sound w.bindings l found)))
      where
        settled :
            (xs : List BindingRecord)
            → All (λ x. row w.bindings x.binding_id ≡ some x) xs
            → All (λ x. (plain : Text) × IsCurrent store previous x plain) xs
        settled [] h = tt
        settled (x ∷ xs) (hx, hs) = (readable x.binding_id x hx, settled xs hs)
