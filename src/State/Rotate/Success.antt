-- ===== src/State/Rotate/Success.antt =====
-- RotateBindings succeeds where one of the keys reads each record and no call fails.
use osb_opengauss_go.Prelude.{
  ◌≡◌, ap, ◌∙◌, inl, inr, Option, some, List, [], ◌∷◌, Text, ℕ, suc, ◌+◌, true, false, All, arith,
}
use osb_opengauss_go.Result.{ok}
use osb_opengauss_go.World.{World}
use osb_opengauss_go.Base64
use osb_opengauss_go.Encrypt.{Encryptor}
use osb_opengauss_go.Table.{IsTable}
use osb_opengauss_go.State.{BindingRecord, Store}
use osb_opengauss_go.State.Rotate.{rotate_record, rotate_records, rotate_bindings}
use osb_opengauss_go.State.Rotate.Reading.{IsCurrent, IsPrevious, Reads}

-- The calls of a rotation that may fail do not.
pub record IsUnfailing {F I B R : Type 0} (store : Store F I B R) : Type 0 where
  pub encrypts :
      (plain : Text) (r : R) → (cipher : Text) × ((store.encryptor.encrypt plain r).0 ≡ ok cipher)
  pub writes : (k text : Text) (d : B) → (store.set_credentials k text d).0 ≡ ok tt

module _ {F I B R : Type 0} (store : Store F I B R) (previous : Encryptor R) where
  -- the number of the records that only the previous key reads
  pub data Stale : List BindingRecord → ℕ → Type 0 where
    none_left : Stale [] 0
    current :
        {x : BindingRecord} {xs : List BindingRecord} {n : ℕ} {plain : Text}
        → IsCurrent store previous x plain
        → Stale xs n
        → Stale (x ∷ xs) n
    stale :
        {x : BindingRecord} {xs : List BindingRecord} {n : ℕ} {plain : Text}
        → IsPrevious store previous x plain
        → Stale xs n
        → Stale (x ∷ xs) (suc n)

  Stale-count :
      (l : List BindingRecord)
      → All (λ x. (plain : Text) × Reads store previous x plain) l
      → (n : ℕ) × Stale l n
  Stale-count [] h = (0, none_left)
  Stale-count (x ∷ xs) ((plain, inl h), hs) =
      let (n, rest) = Stale-count xs hs in (n, current h rest)
  Stale-count (x ∷ xs) ((plain, inr h), hs) =
      let (n, rest) = Stale-count xs hs in (suc n, stale h rest)

  module _ {S : Type 0} (unfailing : IsUnfailing store) where
    record_current :
        (x : BindingRecord) (plain : Text) (w : World I B S R)
        → IsCurrent store previous x plain
        → (rotate_record store previous x w).0 ≡ ok false
    unfolding rotate_record
    record_current x plain w h = rw (h.decoded, h.decrypted)

    record_stale :
        (x : BindingRecord) (plain : Text) (w : World I B S R)
        → IsPrevious store previous x plain
        → (rotate_record store previous x w).0 ≡ ok true
    unfolding rotate_record
    record_stale x plain w h =
        let (cipher, encrypted) = unfailing.encrypts plain w.entropy in
        rw (
          h.decoded,
          h.unread,
          h.decrypted,
          encrypted,
          unfailing.writes x.binding_id (Base64.encode cipher) w.bindings,
        )

    rotate_records_count :
        (l : List BindingRecord) (n m : ℕ) (w : World I B S R)
        → Stale l m
        → (rotate_records store previous n l w).0 ≡ ok (n + m)
    unfolding rotate_records
    rotate_records_count [] n _ w none_left = ap ok (omega arith)
    rotate_records_count (x ∷ xs) n m w (current h rest) =
        rw (record_current x _ w h)
          (rotate_records_count xs n m (rotate_record store previous x w).1 rest)
    rotate_records_count (x ∷ xs) n _ w (stale {n = m} h rest) = rw (record_stale x _ w h) (
        rotate_records_count xs (suc n) m (rotate_record store previous x w).1 rest
        ∙ ap ok (omega arith))

    -- Where one of the keys reads the credentials of every binding record, the records can be listed,
    -- and neither the current encryptor nor a rewriting fails, RotateBindings succeeds, and returns
    -- the number of the records that only the previous key could read.
    pub rotate_bindings_succeeds :
        (row : B → Text → Option BindingRecord)
        (laws : IsTable (λ r. r.binding_id) (λ r. r.instance_id) row store.bindings)
        (w : World I B S R) (l : List BindingRecord)
        → ((k : Text) (r : BindingRecord)
            → row w.bindings k ≡ some r
            → (plain : Text) × Reads store previous r plain)
        → (store.bindings.find w.bindings).0 ≡ ok l
        → (n : ℕ) × Stale l n × ((rotate_bindings store previous w).0 ≡ ok n)
    unfolding rotate_bindings
    rotate_bindings_succeeds row laws w l readable found =
        let (n, stale_rows) = Stale-count l (each l (laws.find-sound w.bindings l found)) in
        (n, stale_rows, rw found (rotate_records_count l 0 n _ stale_rows ∙ ap ok (omega arith)))
      where
        each :
            (l : List BindingRecord)
            → All (λ x. row w.bindings x.binding_id ≡ some x) l
            → All (λ x. (plain : Text) × Reads store previous x plain) l
        each [] h = tt
        each (x ∷ xs) (at, hs) = (readable x.binding_id x at, each xs hs)
