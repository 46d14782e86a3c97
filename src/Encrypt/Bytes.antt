-- ===== src/Encrypt/Bytes.antt =====
-- The encryptors turn bytes into bytes.
use osb_opengauss_go.Prelude.{
  ℕ, zero, suc, ◌<◌, ◌≡◌, subst, [], ◌∷◌, ◌++◌, Text, codes, ltb, length, take, drop, All-append,
  Bool-cases, inl, inr, ◌==◌, if◌then◌else◌,
}
use osb_opengauss_go.Result.{Fault, Result, ok, err, err≢ok, ok-injective, annotate-eq-ok}
use osb_opengauss_go.Result
use osb_opengauss_go.Exec.{lift, bind-eq-ok}
use osb_opengauss_go.Entropy.{Entropy}
use osb_opengauss_go.Base64.{decode}
use osb_opengauss_go.Base64.Bytes.{IsBytes, decode-IsBytes}
use osb_opengauss_go.Encrypt.{
  Encryptor, Gcm, noop_encryptor, gcm_encrypt, gcm_decrypt, gcm_encryptor, parse_key, new_encryptor,
  new_previous_key_decryptor,
}

-- What the cipher and the entropy source return are bytes.
pub record IsByteCipher {R : Type 0} (gcm : Gcm) (source : Entropy R) : Type 0 where
  pub bytes-seal :
      (key nonce plain : Text)
      → IsBytes key
      → IsBytes nonce
      → IsBytes plain
      → IsBytes (gcm.seal key nonce plain)
  pub bytes-open :
      (key nonce cipher plain : Text)
      → IsBytes cipher
      → gcm.open_sealed key nonce cipher ≡ ok plain
      → IsBytes plain
  pub bytes-read : (n : ℕ) (r : R) (b : Text) → (source.read n r).0 ≡ ok b → IsBytes b

pub drop-IsBytes : (n : ℕ) (s : Text) → IsBytes s → IsBytes (drop n s)
drop-IsBytes zero s h = h
drop-IsBytes (suc n) [] h = tt
drop-IsBytes (suc n) (c ∷ s) (_, h) = drop-IsBytes n s h

parse_key-IsBytes : (setting name key : Text) → parse_key setting name ≡ ok key → IsBytes key
unfolding parse_key
parse_key-IsBytes setting name key h =
    let (raw, decoded, sized) =
      Result.bind-eq-ok (Result.annotate (name ++ codes " is not valid base64") (decode setting)) _
        h in
    subst IsBytes (same_key raw _ sized)
      (decode-IsBytes setting raw (annotate-eq-ok _ (decode setting) decoded))
  where
    same_key :
        (raw : Text) (e : Fault) → (if length raw == 32 then ok raw else err e) ≡ ok key → raw ≡ key
    same_key raw e h = elim (Bool-cases (length raw == 32)) [
      | inl sized ↦ ok-injective (rw sized at h)
      | inr unsized ↦ absurd (err≢ok (rw unsized at h))
    ]

module _ {R : Type 0} (gcm : Gcm) (source : Entropy R) (laws : IsByteCipher gcm source) where
  gcm_encrypt-IsBytes :
      (key plain cipher : Text) (r : R)
      → IsBytes key
      → IsBytes plain
      → (gcm_encrypt gcm source key plain r).0 ≡ ok cipher
      → IsBytes cipher
  unfolding gcm_encrypt
  gcm_encrypt-IsBytes key plain cipher r key_bytes plain_bytes h =
      let (u, keyed, h') = bind-eq-ok (lift (gcm.new_gcm key)) _ r h in
      let (nonce, drawn, h'') = bind-eq-ok (source.read gcm.nonce_size) _ r h' in
      let nonce_bytes = laws.bytes-read gcm.nonce_size r nonce drawn in
      subst IsBytes (ok-injective h'') (
        All-append (λ b. b < 256) nonce (gcm.seal key nonce plain) nonce_bytes
          (laws.bytes-seal key nonce plain key_bytes nonce_bytes plain_bytes))

  gcm_decrypt-IsBytes :
      (key plain cipher : Text)
      → IsBytes cipher
      → gcm_decrypt gcm source key cipher ≡ ok plain
      → IsBytes plain
  unfolding gcm_decrypt
  gcm_decrypt-IsBytes key plain cipher cipher_bytes h =
      let (u, keyed, h') = Result.bind-eq-ok (gcm.new_gcm key) _ h in
      elim (Bool-cases (ltb (length cipher) gcm.nonce_size)) [
        | inl short ↦ absurd (err≢ok (rw short at h'))
        | inr long ↦
            laws.bytes-open key (take gcm.nonce_size cipher) (drop gcm.nonce_size cipher) plain
              (drop-IsBytes gcm.nonce_size cipher cipher_bytes) (rw long at h')
      ]

  pub new_encryptor-IsBytes :
      (setting plain cipher : Text) (e : Encryptor R) (r : R)
      → new_encryptor gcm source setting ≡ ok e
      → IsBytes plain
      → (e.encrypt plain r).0 ≡ ok cipher
      → IsBytes cipher
  unfolding new_encryptor noop_encryptor gcm_encryptor
  new_encryptor-IsBytes [] plain cipher e r made plain_bytes h =
      subst IsBytes (ok-injective (rw (← ok-injective made) at h)) plain_bytes
  new_encryptor-IsBytes (c ∷ s) plain cipher e r made plain_bytes h =
      let (key, parsed, made') =
        Result.bind-eq-ok (parse_key (c ∷ s) (codes "STATE_ENCRYPTION_KEY")) _ made in
      gcm_encrypt-IsBytes key plain cipher r
        (parse_key-IsBytes (c ∷ s) (codes "STATE_ENCRYPTION_KEY") key parsed) plain_bytes
        (rw (← ok-injective made') at h)

  pub new_previous_key_decryptor-IsBytes :
      (setting plain cipher : Text) (e : Encryptor R)
      → new_previous_key_decryptor gcm source setting ≡ ok e
      → IsBytes cipher
      → e.decrypt cipher ≡ ok plain
      → IsBytes plain
  unfolding new_previous_key_decryptor gcm_encryptor
  new_previous_key_decryptor-IsBytes setting plain cipher e made cipher_bytes h =
      let (key, parsed, made') =
        Result.bind-eq-ok (parse_key setting (codes "STATE_ENCRYPTION_KEY_PREVIOUS")) _ made in
      gcm_decrypt-IsBytes key plain cipher cipher_bytes (rw (← ok-injective made') at h)
