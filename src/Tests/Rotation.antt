-- ===== src/Tests/Rotation.antt =====
-- The rotation of the keys at concrete inputs.
use osb_opengauss_go.Prelude.{
  ℤ, ℕ, ◌≡◌, refl, subst, inl, inr, Bool, true, false, Bool-cases, Option, none, some, List, [],
  ◌∷◌, ◌++◌, Text, codes, text_eq,
}
use osb_opengauss_go.Result.{external, ok}
use osb_opengauss_go.World.{World}
use osb_opengauss_go.Base64
use osb_opengauss_go.Encrypt.{Encryptor, gcm_encryptor, new_encryptor, new_previous_key_decryptor}
use osb_opengauss_go.Encrypt.RoundTrip.{new_encryptor-IsFaithful}
use osb_opengauss_go.Encrypt.Bytes.{new_encryptor-IsBytes, new_previous_key_decryptor-IsBytes}
use osb_opengauss_go.Table.Memory.{
  Memory, memory_row, memory_table, memory_table-IsTable, statement, lookup,
}
use osb_opengauss_go.State.{InstanceRecord, BindingRecord, Store}
use osb_opengauss_go.State.Rotate.{rotate_bindings}
use osb_opengauss_go.State.Rotate.Reading.{
  IsCurrent, IsPrevious, Reads, IsRotatable, with_credentials,
}
use osb_opengauss_go.State.Rotate.Progress.{Holds, same_value}
use osb_opengauss_go.State.Rotate.Loop.{
  rotate_bindings-Holds, rotate_bindings-IsCurrent, rotate_bindings_idle,
}
use osb_opengauss_go.State.Rotate.Success.{IsUnfailing, Stale, rotate_bindings_succeeds}
use osb_opengauss_go.Tests.Column.{set_credentials, set_credentials-IsColumn}
use osb_opengauss_go.Tests.Sample.{
  zeros, sample_gcm, sample_source, sample_store, sample-IsByteCipher,
}

-- 32 zero bytes, and 32 bytes that are one
abbrev pub new_setting : Text
new_setting = codes "AAAAAAAAAAAAAAAAAAAAAAAAAAAAAAAAAAAAAAAAAAA="

abbrev pub old_setting : Text
old_setting = codes "AQEBAQEBAQEBAQEBAQEBAQEBAQEBAQEBAQEBAQEBAQE="

abbrev pub new_key : Text
new_key = zeros 32

abbrev pub old_key : Text
old_key =
    1 ∷ 1 ∷ 1 ∷ 1 ∷ 1 ∷ 1 ∷ 1 ∷ 1 ∷ 1 ∷ 1 ∷ 1 ∷ 1 ∷ 1 ∷ 1 ∷ 1 ∷ 1 ∷ 1 ∷ 1 ∷ 1 ∷ 1 ∷ 1 ∷ 1 ∷ 1 ∷ 1
    ∷ 1 ∷ 1 ∷ 1 ∷ 1 ∷ 1 ∷ 1 ∷ 1 ∷ 1 ∷ []

abbrev pub new_accepted : Encryptor Text
new_accepted = gcm_encryptor sample_gcm sample_source new_key

abbrev previous : Encryptor Text
previous = gcm_encryptor sample_gcm sample_source old_key

new_key_accepted : new_encryptor sample_gcm sample_source new_setting ≡ ok new_accepted
unfolding new_encryptor
new_key_accepted = refl

old_key_accepted : new_previous_key_decryptor sample_gcm sample_source old_setting ≡ ok previous
unfolding new_previous_key_decryptor
old_key_accepted = refl

abbrev pub keyed_store : Store ℤ (Memory InstanceRecord) (Memory BindingRecord) Text
keyed_store = record sample_store { encryptor = new_accepted }

keyed-IsRotatable : IsRotatable keyed_store previous
keyed-IsRotatable = record {
  faithful =
      new_encryptor-IsFaithful sample_gcm sample_source new_setting new_accepted new_key_accepted;
  bytes-encrypt = λ plain cipher r bytes h.
      new_encryptor-IsBytes sample_gcm sample_source sample-IsByteCipher new_setting plain cipher
        new_accepted r new_key_accepted bytes h;
  bytes-decrypt = λ plain cipher bytes h.
      new_previous_key_decryptor-IsBytes sample_gcm sample_source sample-IsByteCipher old_setting
        plain cipher previous old_key_accepted bytes h;
}

-- the text that a key stores for `plain`
abbrev pub stored_under : Text → Text → Text
stored_under key plain = Base64.encode (zeros 12 ++ (key ++ plain))

abbrev pub stored_binding : Text → Text → BindingRecord
stored_binding id credentials = record {
  binding_id = id;
  instance_id = codes "i";
  username = codes "u";
  params = record { name = [] };
  credentials = credentials;
}

-- one record that the old key has written, and one that the new key has
abbrev pub old_record : BindingRecord
old_record = stored_binding (codes "a") (stored_under old_key (codes "pw"))

abbrev new_record : BindingRecord
new_record = stored_binding (codes "b") (stored_under new_key (codes "qw"))

abbrev keys_world :
    List BindingRecord
    → List Bool
    → World (Memory InstanceRecord) (Memory BindingRecord) (List Text) Text
keys_world rows faults = record {
  instances = record { rows = []; faults = [] };
  bindings = record { rows = rows; faults = faults };
  server = [];
  entropy = [];
}

abbrev both_keys : World (Memory InstanceRecord) (Memory BindingRecord) (List Text) Text
both_keys = keys_world (old_record ∷ new_record ∷ []) []

rotated_both : (rotate_bindings keyed_store previous both_keys).0 ≡ ok 1
unfolding rotate_bindings memory_table Base64.decode Base64.encode gcm_encryptor text_eq
    set_credentials
rotated_both = refl

-- a record that neither key can read stops the rotation, behind one that has moved
abbrev broken_keys : World (Memory InstanceRecord) (Memory BindingRecord) (List Text) Text
broken_keys = keys_world (old_record ∷ stored_binding (codes "b") [] ∷ []) []

stopped_behind :
    (rotate_bindings keyed_store previous broken_keys).1.bindings.rows
    ≡ stored_binding (codes "a") (stored_under new_key (codes "pw"))
      ∷ stored_binding (codes "b") []
      ∷ []
unfolding rotate_bindings memory_table Base64.decode Base64.encode gcm_encryptor text_eq
    set_credentials
stopped_behind = refl

abbrev bindings_row : Memory BindingRecord → Text → Option BindingRecord
bindings_row = memory_row (λ r. r.binding_id) (λ r. r.instance_id)

-- the first rewriting fails
abbrev locked_keys : World (Memory InstanceRecord) (Memory BindingRecord) (List Text) Text
locked_keys = keys_world (old_record ∷ new_record ∷ []) (false ∷ true ∷ [])

rotate_bindings-Holds_example :
    Holds keyed_store previous bindings_row locked_keys.bindings
      (rotate_bindings keyed_store previous locked_keys).1.bindings
rotate_bindings-Holds_example =
    rotate_bindings-Holds keyed_store previous bindings_row set_credentials-IsColumn
      keyed-IsRotatable (memory_table-IsTable (λ r. r.binding_id) (λ r. r.instance_id)) locked_keys

old_found : bindings_row both_keys.bindings (codes "a") ≡ some old_record
unfolding lookup text_eq
old_found = refl

rotate_bindings-IsCurrent_example :
    (r' : BindingRecord) × (plain : Text) × (bindings_row
        (rotate_bindings keyed_store previous both_keys).1.bindings
        (codes "a")
      ≡ some r')
    × (r' ≡ with_credentials r'.credentials old_record)
    × Reads keyed_store previous old_record plain
    × IsCurrent keyed_store previous r' plain
rotate_bindings-IsCurrent_example =
    rotate_bindings-IsCurrent keyed_store previous bindings_row set_credentials-IsColumn
      keyed-IsRotatable (memory_table-IsTable (λ r. r.binding_id) (λ r. r.instance_id)) both_keys 1
      (codes "a") old_record rotated_both old_found

abbrev new_only : World (Memory InstanceRecord) (Memory BindingRecord) (List Text) Text
new_only = keys_world (new_record ∷ []) []

new_IsCurrent : IsCurrent keyed_store previous new_record (codes "qw")
unfolding Base64.decode Base64.encode gcm_encryptor text_eq
new_IsCurrent = record {
  cipher = zeros 12 ++ (new_key ++ codes "qw");
  decoded = refl;
  decrypted = refl;
}

only_new :
    (k : Text) (r : BindingRecord)
    → bindings_row new_only.bindings k ≡ some r
    → (plain : Text) × IsCurrent keyed_store previous r plain
unfolding lookup
only_new k r h = elim (Bool-cases (text_eq (codes "b") k)) [
  | inl same ↦ (
    codes "qw",
    subst (λ x. IsCurrent keyed_store previous x (codes "qw")) (same_value (rw same at h))
        new_IsCurrent,
  )
  | inr other ↦ absurd (no_value (rw other at h))
]
  where
    no_value : {x : BindingRecord} → none ≡ some x → ⊥
    no_value e = cc

listed :
    ((memory_table (λ r. r.binding_id) (λ r. r.instance_id)).find new_only.bindings).0
    ≡ ok (new_record ∷ [])
unfolding memory_table
listed = refl

rotate_bindings_idle_example : rotate_bindings keyed_store previous new_only ≡ (ok 0, new_only)
unfolding memory_table
rotate_bindings_idle_example =
    rotate_bindings_idle keyed_store previous bindings_row set_credentials-IsColumn
      keyed-IsRotatable (memory_table-IsTable (λ r. r.binding_id) (λ r. r.instance_id)) new_only
      (new_record ∷ []) only_new listed

-- the same store over a database that is never locked
abbrev tireless_store : Store ℤ (Memory InstanceRecord) (Memory BindingRecord) Text
tireless_store = record keyed_store {
  set_credentials = λ k text d. set_credentials k text (record d { faults = [] });
}

tireless-IsUnfailing : IsUnfailing tireless_store
unfolding gcm_encryptor set_credentials statement
tireless-IsUnfailing = record {
  encrypts = λ plain r. (zeros 12 ++ (new_key ++ plain), refl);
  writes = λ k text d. refl;
}

old_IsPrevious : IsPrevious tireless_store previous old_record (codes "pw")
unfolding Base64.decode Base64.encode gcm_encryptor text_eq
old_IsPrevious = record {
  cipher = zeros 12 ++ (old_key ++ codes "pw");
  decoded = refl;
  fault = external (codes "message authentication failed");
  unread = refl;
  decrypted = refl;
}

abbrev old_only : World (Memory InstanceRecord) (Memory BindingRecord) (List Text) Text
old_only = keys_world (old_record ∷ []) []

only_old :
    (k : Text) (r : BindingRecord)
    → bindings_row old_only.bindings k ≡ some r
    → (plain : Text) × Reads tireless_store previous r plain
unfolding lookup
only_old k r h = elim (Bool-cases (text_eq (codes "a") k)) [
  | inl same ↦ (
    codes "pw",
    inr (
        subst (λ x. IsPrevious tireless_store previous x (codes "pw")) (same_value (rw same at h))
          old_IsPrevious),
  )
  | inr other ↦ absurd (no_value (rw other at h))
]
  where
    no_value : {x : BindingRecord} → none ≡ some x → ⊥
    no_value e = cc

listed_old :
    ((memory_table (λ r. r.binding_id) (λ r. r.instance_id)).find old_only.bindings).0
    ≡ ok (old_record ∷ [])
unfolding memory_table
listed_old = refl

rotate_bindings_succeeds_example :
    (n : ℕ) × Stale tireless_store previous (old_record ∷ []) n
    × ((rotate_bindings tireless_store previous old_only).0 ≡ ok n)
rotate_bindings_succeeds_example =
    rotate_bindings_succeeds tireless_store previous tireless-IsUnfailing bindings_row
      (memory_table-IsTable (λ r. r.binding_id) (λ r. r.instance_id)) old_only (old_record ∷ [])
      only_old listed_old
