-- ===== src/State/Rotate/Reading.antt =====
-- What the keys read of a binding record, and what a rewriting of its credentials keeps.
use osb_opengauss_go.Prelude.{◌≡◌, refl, sym, ◌∙◌, ◌⊎◌, inl, inr, Text}
use osb_opengauss_go.Result.{Fault, ok, err, ok-injective}
use osb_opengauss_go.Base64
use osb_opengauss_go.Base64.Bytes.{IsBytes, decode-IsBytes}
use osb_opengauss_go.Base64.RoundTrip.{decode-encode}
use osb_opengauss_go.Encrypt.{Encryptor}
use osb_opengauss_go.Encrypt.RoundTrip.{IsFaithful}
use osb_opengauss_go.State.{BindingRecord, Store}

abbrev pub with_credentials : Text → BindingRecord → BindingRecord
with_credentials text r = record r { credentials = text }

module _ {F I B R : Type 0} (store : Store F I B R) (previous : Encryptor R) where
  -- the current key reads the credentials, as `plain`
  pub record IsCurrent (r : BindingRecord) (plain : Text) : Type 0 where
    pub cipher : Text
    pub decoded : Base64.decode r.credentials ≡ ok cipher
    pub decrypted : store.encryptor.decrypt cipher ≡ ok plain

  -- only the previous key reads them
  pub record IsPrevious (r : BindingRecord) (plain : Text) : Type 0 where
    pub cipher : Text
    pub decoded : Base64.decode r.credentials ≡ ok cipher
    pub fault : Fault
    pub unread : store.encryptor.decrypt cipher ≡ err fault
    pub decrypted : previous.decrypt cipher ≡ ok plain

  -- one of the keys reads them, the current one if it can
  abbrev pub Reads : BindingRecord → Text → Type 0
  Reads r plain = IsCurrent r plain ⊎ IsPrevious r plain

  same_cipher :
      (r : BindingRecord) (c d : Text)
      → Base64.decode r.credentials ≡ ok c
      → Base64.decode r.credentials ≡ ok d
      → c ≡ d
  same_cipher r c d h k = ok-injective (sym h ∙ k)

  pub unique_Reads : (r : BindingRecord) (p q : Text) → Reads r p → Reads r q → p ≡ q
  unique_Reads r p q (inl a) (inl b) = cc
  unique_Reads r p q (inl a) (inr b) = cc
  unique_Reads r p q (inr a) (inl b) = cc
  unique_Reads r p q (inr a) (inr b) = cc

  -- The record `r'` has the credentials of `r`, under one of the keys, and all else alike; what the
  -- current key could read it can read still.
  pub record Keeps (r r' : BindingRecord) : Type 0 where
    pub others : r' ≡ with_credentials r'.credentials r
    pub reads : (plain : Text) → Reads r plain → Reads r' plain
    pub current : (plain : Text) → IsCurrent r plain → IsCurrent r' plain

  pub self_Keeps : (r : BindingRecord) → Keeps r r
  self_Keeps r = record { others = refl; reads = λ p h. h; current = λ p h. h }

-- What the rotation relies on: the current encryptor reads what it has written, and the encryptors
-- turn bytes into bytes.
pub record IsRotatable {F I B R : Type 0} (store : Store F I B R) (previous : Encryptor R)
    : Type 0 where
  pub faithful : IsFaithful store.encryptor
  pub bytes-encrypt :
      (plain cipher : Text) (r : R)
      → IsBytes plain
      → (store.encryptor.encrypt plain r).0 ≡ ok cipher
      → IsBytes cipher
  pub bytes-decrypt :
      (plain cipher : Text) → IsBytes cipher → previous.decrypt cipher ≡ ok plain → IsBytes plain

module _ {F I B R : Type 0} (store : Store F I B R) (previous : Encryptor R)
    (rotatable : IsRotatable store previous) where
  -- the new credentials of a record that only the previous key could read
  pub moved-IsCurrent :
      (r y : BindingRecord) (plain cipher : Text) (s : R)
      → IsPrevious store previous r plain
      → (store.encryptor.encrypt plain s).0 ≡ ok cipher
      → IsCurrent store previous (with_credentials (Base64.encode cipher) y) plain
  moved-IsCurrent r y plain cipher s old encrypted = record {
    cipher = cipher;
    decoded = decode-encode cipher (
        rotatable.bytes-encrypt plain cipher s
          (rotatable.bytes-decrypt plain old.cipher
            (decode-IsBytes r.credentials old.cipher old.decoded) old.decrypted)
          encrypted);
    decrypted = rotatable.faithful.decrypt-encrypt s plain cipher encrypted;
  }
