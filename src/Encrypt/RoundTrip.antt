-- ===== src/Encrypt/RoundTrip.antt =====
-- What an encryptor has written it can read.
use osb_opengauss_go.Prelude.{
  ◌≡◌, sym, subst, false, [], ◌∷◌, ◌++◌, Text, arith, ltb, length, length-append,
  take-length-append, drop-length-append, codes,
}
use osb_opengauss_go.Result.{Fault, Result, ok, err, ok-injective}
use osb_opengauss_go.Result
use osb_opengauss_go.Exec.{lift, bind-eq-ok}
use osb_opengauss_go.Entropy.{Entropy}
use osb_opengauss_go.Encrypt.{
  Encryptor, Gcm, noop_encryptor, gcm_encrypt, gcm_decrypt, gcm_encryptor, parse_key, new_encryptor,
}

-- The contract of an encryptor: it decrypts each text that it has encrypted.
pub record IsFaithful {R : Type 0} (e : Encryptor R) : Type 0 where
  pub decrypt-encrypt :
      (r : R) (plain cipher : Text)
      → (e.encrypt plain r).0 ≡ ok cipher
      → e.decrypt cipher ≡ ok plain

pub noop-IsFaithful : {R : Type 0} → IsFaithful {R = R} noop_encryptor
unfolding noop_encryptor
noop-IsFaithful = record { decrypt-encrypt = λ r plain cipher h. sym h }

not_short : (xs ys : Text) → ltb (length (xs ++ ys)) (length xs) ≡ false
not_short xs ys = ground (arith, length-append xs ys)

module _ {R : Type 0} (gcm : Gcm) (source : Entropy R) (key : Text) where
  decrypt-sealed :
      (nonce plain : Text)
      → gcm.new_gcm key ≡ ok tt
      → length nonce ≡ gcm.nonce_size
      → gcm_decrypt gcm source key (nonce ++ gcm.seal key nonce plain) ≡ ok plain
  unfolding gcm_decrypt
  decrypt-sealed nonce plain keyed size =
      let cipher : Text = gcm.seal key nonce plain in
      rw (
        keyed,
        ← size,
        not_short nonce cipher,
        take-length-append nonce cipher,
        drop-length-append nonce cipher,
        gcm.open-seal key nonce plain,
      )

  pub gcm-IsFaithful : IsFaithful (gcm_encryptor gcm source key)
  unfolding gcm_encryptor gcm_encrypt
  gcm-IsFaithful = record {
    decrypt-encrypt = λ r plain cipher h.
        let (u, keyed, h') = bind-eq-ok (lift (gcm.new_gcm key)) _ r h in
        let (nonce, drawn, h'') = bind-eq-ok (source.read gcm.nonce_size) _ r h' in
        subst (λ t. gcm_decrypt gcm source key t ≡ ok plain) (ok-injective h'')
          (decrypt-sealed nonce plain keyed (source.length-read gcm.nonce_size r nonce drawn));
  }

module _ {R : Type 0} (gcm : Gcm) (source : Entropy R) where
  -- The encryptor that `NewEncryptor` returns, for whatever setting it accepts, decrypts each text
  -- that it has encrypted, whatever nonce it drew: the empty setting's keeps texts as they are, and
  -- a key's seals them.
  pub new_encryptor-IsFaithful :
      (setting : Text) (e : Encryptor R) → new_encryptor gcm source setting ≡ ok e → IsFaithful e
  unfolding new_encryptor
  new_encryptor-IsFaithful [] e h = subst IsFaithful (ok-injective h) noop-IsFaithful
  new_encryptor-IsFaithful (c ∷ s) e h =
      let (key, parsed, made) =
        Result.bind-eq-ok (parse_key (c ∷ s) (codes "STATE_ENCRYPTION_KEY")) _ h in
      subst IsFaithful (ok-injective made) (gcm-IsFaithful gcm source key)
