-- ===== src/State/Rotate.antt =====
-- state.go: Store.RotateBindings, which moves the credentials to the current key.
pub mod Reading
pub mod Progress
pub mod Loop
pub mod Success
use osb_opengauss_go.Prelude.{
  ℕ, suc, Bool, true, false, List, [], ◌∷◌, ◌++◌, Text, codes, if◌then◌else◌,
}
use osb_opengauss_go.Result.{Fault, wrapped, Result, ok, err, annotate}
use osb_opengauss_go.Exec.{Exec, pure, lift, relabel, ◌>>=◌, ◌>>◌}
use osb_opengauss_go.Base64
use osb_opengauss_go.Encrypt.{Encryptor}
use osb_opengauss_go.World.{World, on_bindings, on_entropy}
use osb_opengauss_go.State.{BindingRecord, Store}

module _ {F I B S R : Type 0} (store : Store F I B R) where
  -- the write of the new credentials, behind which the record has moved
  unfoldable pub write_credentials : BindingRecord → Text → Exec (World I B S R) Fault Bool
  write_credentials r reencrypted = do
    relabel (λ e. wrapped (codes "cannot rewrite credentials of binding " ++ r.binding_id) e)
        (on_bindings (store.set_credentials r.binding_id (Base64.encode reencrypted)))
    pure true

module _ {F I B S R : Type 0} (store : Store F I B R) (previous : Encryptor R) where
  -- for a record whose ciphertext the current key could or could not read; whether it has moved
  unfoldable pub rotate_text :
      BindingRecord → Text → Result Fault Text → Exec (World I B S R) Fault Bool
  unfolding write_credentials
  rotate_text r ciphertext (ok plain) = pure false
  rotate_text r ciphertext (err _) = do
    plain ← lift (
        annotate
          (codes "cannot decrypt credentials of binding "
            ++ (r.binding_id ++ codes " with either key"))
          (previous.decrypt ciphertext))
    reencrypted ←
        relabel (λ e. wrapped (codes "cannot re-encrypt credentials of binding " ++ r.binding_id) e)
          (on_entropy (store.encryptor.encrypt plain))
    write_credentials store r reencrypted

  -- the body of the loop
  unfoldable pub rotate_record : BindingRecord → Exec (World I B S R) Fault Bool
  unfolding rotate_text
  rotate_record r = do
    ciphertext ← lift (
        annotate (codes "cannot decode credentials of binding " ++ r.binding_id)
          (Base64.decode r.credentials))
    rotate_text r ciphertext (store.encryptor.decrypt ciphertext)

  -- the loop; an error comes with the number of the records that have moved
  unfoldable pub rotate_records : ℕ → List BindingRecord → Exec (World I B S R) (ℕ × Fault) ℕ
  unfolding rotate_record
  rotate_records rotated [] = pure rotated
  rotate_records rotated (r ∷ rs) = do
    moved ← relabel (λ e. (rotated, e)) (rotate_record r)
    rotate_records (if moved then suc rotated else rotated) rs

  unfoldable pub rotate_bindings : Exec (World I B S R) (ℕ × Fault) ℕ
  unfolding rotate_records
  rotate_bindings = do
    records ←
        relabel (λ e. (0, wrapped (codes "cannot read bindings for rotation") e))
          (on_bindings store.bindings.find)
    rotate_records 0 records
