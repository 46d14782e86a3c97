-- ===== src/Tests/Sample/Libraries.antt =====
-- Small stand-ins for the libraries: the hash, the entropy source, the cipher and float64.
use osb_opengauss_go.Prelude.{
  Bool-cases, inl, inr, ℕ, zero, suc, ◌≡◌, ◌<◌, refl, subst, true, [], ◌∷◌, Text, codes, arith, ltb,
  if◌then◌else◌, length, All, ℤ, ◌≤ℤ◌, leb_ℤ, pos_part, neg_part, ◌+◌, ◌^◌, ◌⊎◌, format_int,
  text_eq, ◌++◌, drop-length-append, drop, take, take-length-append, text_eq_refl, All-append,
}
use osb_opengauss_go.Result.{Fault, external, Result, ok, err, err≢ok, ok-injective}
use osb_opengauss_go.Exec.{Exec}
use osb_opengauss_go.Entropy.{Entropy}
use osb_opengauss_go.Names.{Hash}
use osb_opengauss_go.Encrypt.{Gcm}
use osb_opengauss_go.Encrypt.Bytes.{IsByteCipher, drop-IsBytes}
use osb_opengauss_go.Value.{Float64}
use osb_opengauss_go.Broker.{int_eq}

abbrev pub zeros : ℕ → Text
zeros zero = []
zeros (suc n) = 0 ∷ zeros n

pub length-zeros : (n : ℕ) → length (zeros n) ≡ n
length-zeros zero = refl
length-zeros (suc n) = ground (arith, length-zeros n)

pub bytes-zeros : (n : ℕ) → All (λ b. b < 256) (zeros n)
bytes-zeros zero = tt
bytes-zeros (suc n) = (omega arith, bytes-zeros n)

-- a hash that is always zero
abbrev pub sample_hash : Hash
sample_hash = record {
  sum256 = λ s. zeros 32;
  length-sum256 = λ s. length-zeros 32;
  bytes-sum256 = λ s. bytes-zeros 32;
}

-- one number that is drawn from a list; one that is too large is a failed read
abbrev pub draw : ℕ → Exec Text Fault ℕ
draw n [] = (err (external (codes "EOF")), [])
draw n (c ∷ s) = (if ltb c n then ok c else err (external (codes "short read")), s)

pub draw-lt : (n : ℕ) (r : Text) (v : ℕ) → (draw n r).0 ≡ ok v → v < n
draw-lt n [] v h = absurd (err≢ok h)
draw-lt n (c ∷ s) v h = ground arith

-- numbers from a list, bytes that are zero
abbrev pub sample_source : Entropy Text
sample_source = record {
  int = draw;
  read = λ n r. (ok (zeros n), r);
  int-lt = λ n r v some_values h. draw-lt n r v h;
  length-read = λ n r b h. subst (λ t. length t ≡ n) (ok-injective h) (length-zeros n);
}

abbrev pub open_under : Text → Text → Result Fault Text
open_under key cipher =
    if text_eq (take (length key) cipher) key
    then ok (drop (length key) cipher)
    else err (external (codes "message authentication failed"))

pub open_under-append : (key plain : Text) → open_under key (key ++ plain) ≡ ok plain
open_under-append key plain =
    rw (take-length-append key plain, drop-length-append key plain, text_eq_refl key)

pub open_under-bytes :
    (key cipher plain : Text)
    → All (λ b. b < 256) cipher
    → open_under key cipher ≡ ok plain
    → All (λ b. b < 256) plain
open_under-bytes key cipher plain bytes h =
    elim (Bool-cases (text_eq (take (length key) cipher) key)) [
      | inl same ↦
          subst (All (λ b. b < 256)) (ok-injective (rw same at h))
            (drop-IsBytes (length key) cipher bytes)
      | inr other ↦ absurd (err≢ok (rw other at h))
    ]

-- a cipher that puts the key in front, and looks for it there
abbrev pub sample_gcm : Gcm
sample_gcm = record {
  new_gcm = λ key. ok tt;
  nonce_size = 12;
  seal = λ key nonce plain. key ++ plain;
  open_sealed = λ key nonce cipher. open_under key cipher;
  open-seal = λ key nonce plain. open_under-append key plain;
}

pub sample-IsByteCipher : IsByteCipher sample_gcm sample_source
sample-IsByteCipher = record {
  bytes-seal = λ key nonce plain key_bytes _ plain_bytes.
      All-append (λ b. b < 256) key plain key_bytes plain_bytes;
  bytes-open = λ key nonce cipher plain bytes h. open_under-bytes key cipher plain bytes h;
  bytes-read = λ n r b h. subst (All (λ b. b < 256)) (ok-injective h) (bytes-zeros n);
}

-- whole numbers for float64
pub le-eq_left : (a b c : ℤ) → int_eq a b ≡ true → leb_ℤ a c ≡ true → leb_ℤ b c ≡ true
unfolding int_eq
le-eq_left a b c e h = ground arith

pub le-eq_right : (a b c : ℤ) → int_eq a b ≡ true → leb_ℤ c a ≡ true → leb_ℤ c b ≡ true
unfolding int_eq
le-eq_right a b c e h = ground arith

pub le_exact :
    (a b : ℤ)
    → ((pos_part a + neg_part a < 2 ^ 53) ⊎ (pos_part b + neg_part b < 2 ^ 53))
    → leb_ℤ a b ≡ true
    → a ≤ℤ b
le_exact a b small h = ground arith

abbrev pub sample_float : Float64 ℤ
sample_float = record {
  of_int = λ n. n;
  to_int = λ v. v;
  eq = int_eq;
  le = leb_ℤ;
  format = format_int;
  le-eq_left = le-eq_left;
  le-eq_right = le-eq_right;
  le-of_int = le_exact;
}
