-- ===== src/Encrypt.antt =====
-- encrypt.go: the encryptors of binding credentials.
pub mod RoundTrip
pub mod Bytes
use osb_opengauss_go.Prelude.{
  ℕ, ◌≡◌, Bool, [], ◌∷◌, ◌++◌, Text, codes, ltb, ◌==◌, if◌then◌else◌, length, take, drop, text_eq,
  format_nat, not, All, ◌<◌, true,
}
use osb_opengauss_go.Result.{Fault, message, wrapped, Result, ok, err, annotate, fail_if}
use osb_opengauss_go.Result
use osb_opengauss_go.Exec.{Exec, pure, lift, ◌>>=◌, ◌>>◌}
use osb_opengauss_go.Entropy.{Entropy}
use osb_opengauss_go.Base64.{decode}

-- The Encryptor interface; encrypting may read the entropy source, whose states are `R`.
pub record Encryptor (R : Type 0) : Type 0 where
  pub encrypt : Text → Exec R Fault Text
  pub decrypt : Text → Result Fault Text

-- crypto/aes and crypto/cipher: `cipher.NewGCM` of an AES block cipher under a key, and its AEAD.
pub record Gcm : Type 0 where
  -- aes.NewCipher(key), cipher.NewGCM(block)
  pub new_gcm : Text → Result Fault (Unit {0})
  pub nonce_size : ℕ
  -- gcm.Seal(nil, nonce, plaintext, nil)
  pub seal : Text → Text → Text → Text
  -- gcm.Open(nil, nonce, ciphertext, nil)
  pub open_sealed : Text → Text → Text → Result Fault Text
  -- what was sealed is opened under the same key and nonce
  pub open-seal :
      (key nonce plaintext : Text) → open_sealed key nonce (seal key nonce plaintext) ≡ ok plaintext

module _ {R : Type 0} where
  unfoldable pub noop_encryptor : Encryptor R
  noop_encryptor = record { encrypt = λ p. pure p; decrypt = λ c. ok c }

  module _ (gcm : Gcm) (source : Entropy R) (key : Text) where
    -- the nonce stands in front of the ciphertext
    unfoldable pub gcm_encrypt : Text → Exec R Fault Text
    gcm_encrypt plaintext = do
      lift (gcm.new_gcm key)
      nonce ← source.read gcm.nonce_size
      pure (nonce ++ gcm.seal key nonce plaintext)

    unfoldable pub gcm_decrypt : Text → Result Fault Text
    gcm_decrypt ciphertext = Result.◌>>=◌ (gcm.new_gcm key) λ _.
        if ltb (length ciphertext) gcm.nonce_size
        then err (message (codes "ciphertext too short"))
        else gcm.open_sealed key (take gcm.nonce_size ciphertext) (drop gcm.nonce_size ciphertext)

    unfoldable pub gcm_encryptor : Encryptor R
    unfolding gcm_encrypt gcm_decrypt
    gcm_encryptor = record { encrypt = gcm_encrypt; decrypt = gcm_decrypt }

-- parseKey: a base64 text of 32 bytes
unfoldable pub parse_key : Text → Text → Result Fault Text
unfolding decode
parse_key key_b64 env_name =
    Result.◌>>=◌ (annotate (env_name ++ codes " is not valid base64") (decode key_b64)) λ key.
      if length key == 32
      then ok key
      else err
          (message (env_name ++ codes " must decode to 32 bytes, got " ++ format_nat (length key)))

module _ {R : Type 0} (gcm : Gcm) (source : Entropy R) where
  unfoldable pub new_encryptor : Text → Result Fault (Encryptor R)
  unfolding parse_key gcm_encryptor noop_encryptor
  new_encryptor [] = ok noop_encryptor
  new_encryptor (c ∷ s) =
      Result.◌>>=◌ (parse_key (c ∷ s) (codes "STATE_ENCRYPTION_KEY"))
        λ key. ok (gcm_encryptor gcm source key)

  unfoldable pub new_previous_key_decryptor : Text → Result Fault (Encryptor R)
  unfolding parse_key gcm_encryptor
  new_previous_key_decryptor key_b64 =
      Result.◌>>=◌ (parse_key key_b64 (codes "STATE_ENCRYPTION_KEY_PREVIOUS"))
        λ key. ok (gcm_encryptor gcm source key)
