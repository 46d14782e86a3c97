-- ===== src/State/Rotate/Progress.antt =====
-- RotateBindings loses no credentials, whichever call fails, and when it succeeds the current key
-- reads all of them.
use osb_opengauss_go.Prelude.{
  ◌≡◌, refl, sym, ap, ◌∙◌, subst, inl, inr, Option, none, some, ◌++◌, Text, codes, if◌then◌else◌,
  text_eq, text_eq_sound, text_eq_refl, Bool, true, false, Bool-cases,
}
use osb_opengauss_go.Result.{
  Fault, Result, ok, err, annotate, wrapped, annotate-eq-ok, map_err-eq-ok,
}
use osb_opengauss_go.Exec.{Exec, lift, relabel, ◌>>=◌}
use osb_opengauss_go.Result.{Result-cases}
use osb_opengauss_go.World.{World, on_entropy}
use osb_opengauss_go.Base64
use osb_opengauss_go.Encrypt.{Encryptor}
use osb_opengauss_go.State.{BindingRecord, Store}
use osb_opengauss_go.State.Rotate.{write_credentials, rotate_text, rotate_record}
use osb_opengauss_go.State.Rotate.Reading.{
  with_credentials, IsCurrent, IsPrevious, Reads, unique_Reads, Keeps, IsRotatable, moved-IsCurrent,
}

abbrev pub recredited : Text → Option BindingRecord → Option BindingRecord
recredited text none = none
recredited text (some r) = some (with_credentials text r)

pub same_value : {A : Type 0} {x y : A} → some x ≡ some y → x ≡ y
same_value e = cc

-- `Update("credentials", text)` on the row with a key: one that fails has changed nothing.
pub record IsColumn {B : Type 0} (row : B → Text → Option BindingRecord)
    (set : Text → Text → Exec B Fault (Unit {0})) : Type 0 where
  pub set-ok :
      (k text : Text) (d : B) (j : Text)
      → (set k text d).0 ≡ ok tt
      → row (set k text d).1 j ≡ (if text_eq k j then recredited text (row d j) else row d j)
  pub set-err :
      (k text : Text) (d : B) (e : Fault) (j : Text)
      → (set k text d).0 ≡ err e
      → row (set k text d).1 j ≡ row d j

module _ {F I B R : Type 0} (store : Store F I B R) (previous : Encryptor R)
    (row : B → Text → Option BindingRecord) where
  -- each row of the state `d` is there in the state `d'`, perhaps with its credentials moved
  abbrev pub Holds : B → B → Type 0
  Holds d d' =
      (k : Text) (r : BindingRecord)
      → row d k ≡ some r
      → (r' : BindingRecord) × (row d' k ≡ some r') × Keeps store previous r r'

  -- the row with the key is there, and the current key reads it
  abbrev pub HasCurrent : Text → B → Type 0
  HasCurrent k d =
      (r : BindingRecord) × (plain : Text) × (row d k ≡ some r) × IsCurrent store previous r plain

  -- What the body of the loop does to the rows, for the record `x` and by its result.
  pub data Advance (x : BindingRecord) (d d' : B) : Result Fault Bool → Type 0 where
    failed : (e : Fault) → ((j : Text) → row d' j ≡ row d j) → Advance x d d' (err e)
    already :
        (plain : Text)
        → IsCurrent store previous x plain
        → ((j : Text) → row d' j ≡ row d j)
        → Advance x d d' (ok false)
    moved :
        (plain cipher : Text) (s : R)
        → IsPrevious store previous x plain
        → (store.encryptor.encrypt plain s).0 ≡ ok cipher
        → ((j : Text)
            → row d' j ≡ (
                if text_eq x.binding_id j
                then recredited (Base64.encode cipher) (row d j)
                else row d j))
        → Advance x d d' (ok true)

  module _ (column : IsColumn row store.set_credentials) (x : BindingRecord) where
    module _ {S : Type 0} where
      -- the method, from the world `w`, ends as the body of the loop may end that began on the rows `d`
      abbrev pub Advances : B → Exec (World I B S R) Fault Bool → World I B S R → Type 0
      Advances d m w = Advance x d (m w).1.bindings (m w).0

      Advances-bind :
          {A : Type 0} (d : B) (m : Exec (World I B S R) Fault A)
          (f : A → Exec (World I B S R) Fault Bool) (w : World I B S R)
          → (m w).1.bindings ≡ d
          → ((a : A) → (m w).0 ≡ ok a → Advances d (f a) (m w).1)
          → Advances d (m >>= f) w
      Advances-bind d m f w same rest = elim (Result-cases (m w).0) [
        | inl (a, h) ↦ rw h (rest a h)
        | inr (e, h) ↦ rw h (failed e (λ j. ap (λ (q : B). row q j) same))
      ]

      write_Advances :
          (w : World I B S R) (plain cipher : Text) (s : R)
          → IsPrevious store previous x plain
          → (store.encryptor.encrypt plain s).0 ≡ ok cipher
          → Advances w.bindings (write_credentials store x cipher) w
      unfolding write_credentials
      write_Advances w plain cipher s old encrypted =
          elim (Result-cases
            (store.set_credentials x.binding_id (Base64.encode cipher) w.bindings).0) [
              | inl (u, h) ↦ rw h (
                  moved plain cipher s old encrypted
                    λ j. column.set-ok x.binding_id (Base64.encode cipher) w.bindings j h)
              | inr (e, h) ↦ rw h (
                  failed _ λ j. column.set-err x.binding_id (Base64.encode cipher) w.bindings e j h)
            ]

      text_Advances :
          (w : World I B S R) (cipher : Text) (read : Result Fault Text)
          → Base64.decode x.credentials ≡ ok cipher
          → store.encryptor.decrypt cipher ≡ read
          → Advances w.bindings (rotate_text store previous x cipher read) w
      unfolding rotate_text
      text_Advances w cipher (ok plain) decoded h =
          already plain (record { cipher = cipher; decoded = decoded; decrypted = h }) (λ j. refl)
      text_Advances w cipher (err e) decoded h =
          Advances-bind w.bindings
            (lift (
              annotate
                (codes "cannot decrypt credentials of binding "
                  ++ (x.binding_id ++ codes " with either key"))
                (previous.decrypt cipher)))
            _ w refl
            λ plain read.
              Advances-bind w.bindings
                (relabel
                  (λ e.
                    wrapped (codes "cannot re-encrypt credentials of binding " ++ x.binding_id) e)
                  (on_entropy (store.encryptor.encrypt plain)))
                _ w refl
                λ new encrypted.
                  write_Advances
                    (record w { entropy = (store.encryptor.encrypt plain w.entropy).1 }) plain new
                    w.entropy
                    (record {
                      cipher = cipher;
                      decoded = decoded;
                      fault = e;
                      unread = h;
                      decrypted = annotate-eq-ok _ _ read;
                    })
                    (map_err-eq-ok _ _ encrypted)

      pub rotate_record-Advances :
          (w : World I B S R) → Advances w.bindings (rotate_record store previous x) w
      unfolding rotate_record
      rotate_record-Advances w =
          Advances-bind w.bindings
            (lift (
              annotate (codes "cannot decode credentials of binding " ++ x.binding_id)
                (Base64.decode x.credentials)))
            _ w refl
            λ cipher decoded.
              text_Advances w cipher (store.encryptor.decrypt cipher) (annotate-eq-ok _ _ decoded)
                refl

  -- the row with the key after new credentials were set
  set_row :
      (d d' : B) (text k : Text) (r : BindingRecord)
      → row d' k ≡ recredited text (row d k)
      → row d k ≡ some r
      → row d' k ≡ some (with_credentials text r)
  set_row d d' text k r set at = set ∙ ap (recredited text) at

  module _ (rotatable : IsRotatable store previous) (x : BindingRecord) where
    Keeps-moved :
        (r r' : BindingRecord) (plain cipher : Text) (s : R)
        → Keeps store previous r r'
        → IsPrevious store previous r plain
        → (store.encryptor.encrypt plain s).0 ≡ ok cipher
        → Keeps store previous r (with_credentials (Base64.encode cipher) r')
    Keeps-moved r r' plain cipher s keeps old encrypted =
        let new : BindingRecord = with_credentials (Base64.encode cipher) r' in
        let current = moved-IsCurrent store previous rotatable r r' plain cipher s old encrypted in
        let reads : (p : Text) → Reads store previous r p → IsCurrent store previous new p = λ p h.
          subst (IsCurrent store previous new) (unique_Reads store previous r plain p (inr old) h)
            current in
        record {
          others = ap (with_credentials (Base64.encode cipher)) keeps.others;
          reads = λ p h. inl (reads p h);
          current = λ p h. reads p (inl h);
        }

    pub Advance-HasCurrent :
        (d d' : B) (k : Text) {out : Result Fault Bool}
        → Advance x d d' out
        → HasCurrent k d
        → HasCurrent k d'
    Advance-HasCurrent d d' k (failed e same) (r, plain, at, current) =
        (r, plain, same k ∙ at, current)
    Advance-HasCurrent d d' k (already _ _ same) (r, plain, at, current) =
        (r, plain, same k ∙ at, current)
    Advance-HasCurrent d d' k (moved plain cipher s old encrypted set) (r, p, at, current) =
        elim (Bool-cases (text_eq x.binding_id k)) [
          | inl here ↦ (
            with_credentials (Base64.encode cipher) r,
            plain,
            set_row d d' (Base64.encode cipher) k r (rw here at (set k)) at,
            moved-IsCurrent store previous rotatable x r plain cipher s old encrypted,
          )
          | inr other ↦ (r, p, (rw other at (set k)) ∙ at, current)
        ]

    module _ (d0 d d' : B) (there : row d0 x.binding_id ≡ some x) where
      -- what the loop keeps
      pub Advance-Holds : {out : Result Fault Bool} → Advance x d d' out → Holds d0 d → Holds d0 d'
      Advance-Holds (failed e same) h k r at =
          let (r', at', keeps) = h k r at in (r', same k ∙ at', keeps)
      Advance-Holds (already plain current same) h k r at =
          let (r', at', keeps) = h k r at in (r', same k ∙ at', keeps)
      Advance-Holds (moved plain cipher s old encrypted set) h k r at =
          let (r', at', keeps) = h k r at in
          elim (Bool-cases (text_eq x.binding_id k)) [
            | inl here ↦
                let own : x ≡ r =
                  same_value (sym there ∙ ap (row d0) (text_eq_sound x.binding_id k here) ∙ at) in
                (
                  with_credentials (Base64.encode cipher) r',
                  set_row d d' (Base64.encode cipher) k r' (rw here at (set k)) at',
                  Keeps-moved r r' plain cipher s keeps
                      (subst (λ q. IsPrevious store previous q plain) own old) encrypted,
                )
            | inr other ↦ (r', (rw other at (set k)) ∙ at', keeps)
          ]

      -- what a round of the loop that succeeds reaches
      pub Advance-ok : (m : Bool) → Advance x d d' (ok m) → Holds d0 d → HasCurrent x.binding_id d'
      Advance-ok m (already plain current same) h =
          let (r', at', keeps) = h x.binding_id x there in
          (r', plain, same x.binding_id ∙ at', keeps.current plain current)
      Advance-ok m (moved plain cipher s old encrypted set) h =
          let (r', at', keeps) = h x.binding_id x there in
          (
            with_credentials (Base64.encode cipher) r',
            plain,
            set_row d d' (Base64.encode cipher) x.binding_id r'
                (rw text_eq_refl at (set x.binding_id)) at',
            moved-IsCurrent store previous rotatable x r' plain cipher s old encrypted,
          )

  pub Advance-Reads :
      (x : BindingRecord) (d d' : B) (m : Bool)
      → Advance x d d' (ok m)
      → (plain : Text) × Reads store previous x plain
  Advance-Reads x d d' m (already plain current same) = (plain, inl current)
  Advance-Reads x d d' m (moved plain cipher s old encrypted set) = (plain, inr old)
