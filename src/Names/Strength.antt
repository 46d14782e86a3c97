-- ===== src/Names/Strength.antt =====
-- What `randomPassword` returns, and when it returns.
use osb_opengauss_go.Prelude.{
  ℕ, zero, suc, ◌≤◌, ◌<◌, ◌≡◌, refl, ap, subst, ◌⊎◌, Bool, true, false, ◌&&◌, not, [], ◌∷◌, Text,
  arith, leb, ◌==◌, length, All, Bool-cases, inl, inr,
}
use osb_opengauss_go.Result.{panic, error_text, ok, ok-injective}
use osb_opengauss_go.Exec.{bind-eq-ok, relabel-eq-ok}
use osb_opengauss_go.Entropy.{Entropy}
use osb_opengauss_go.Names.Password.{
  password_alphabet, byte_at, Classes, classify, classes_from, no_classes, is_complete, draw_index,
  fill_password, random_password,
}

abbrev pub Any : (ℕ → Type 0) → Text → Type 0
Any P [] = ⊥
Any P (c ∷ s) = P c ⊎ Any P s

abbrev pub IsUpper : ℕ → Type 0
IsUpper c = (b'A' ≤ c) × (c ≤ b'Z')

abbrev pub IsLower : ℕ → Type 0
IsLower c = (b'a' ≤ c) × (c ≤ b'z')

abbrev pub IsDigit : ℕ → Type 0
IsDigit c = (b'0' ≤ c) × (c ≤ b'9')

abbrev pub IsSpecial : ℕ → Type 0
IsSpecial c = ¬ (IsUpper c) × ¬ (IsLower c) × ¬ (IsDigit c)

-- A printable ASCII byte that is no blank, quote, backslash or semicolon.
unfoldable pub is_inert : ℕ → Bool
is_inert c =
    leb b'!' c
    && leb c b'~'
    && not (c == b'\'')
    && not (c == b'"')
    && not (c == b'\\')
    && not (c == b';')

abbrev pub IsInert : ℕ → Type 0
IsInert c = is_inert c ≡ true

all_bytes : (ℕ → Bool) → Text → Bool
all_bytes p [] = true
all_bytes p (c ∷ s) = p c && all_bytes p s

all_bytes_sound : (p : ℕ → Bool) (s : Text) → all_bytes p s ≡ true → All (λ c. p c ≡ true) s
unfolding all_bytes
all_bytes_sound p [] h = tt
all_bytes_sound p (c ∷ s) h = elim (Bool-cases (p c)) [
  | inl yes_c ↦ (yes_c, all_bytes_sound p s (ground arith))
  | inr no_c ↦ absurd (ground arith)
]

alphabet-IsInert : All IsInert password_alphabet
unfolding all_bytes is_inert
alphabet-IsInert = all_bytes_sound is_inert password_alphabet refl

byte_at-All : (P : ℕ → Type 0) (s : Text) (i : ℕ) → All P s → i < length s → P (byte_at s i)
unfolding byte_at
byte_at-All P [] i h lt = absurd (omega arith)
byte_at-All P (c ∷ s) zero (hc, hs) lt = hc
byte_at-All P (c ∷ s) (suc i) (hc, hs) lt = byte_at-All P s i hs (omega arith)

abbrev pub IsStrong : Text → Type 0
IsStrong p =
    (length p ≡ 28)
    × All IsInert p
    × Any IsUpper p
    × Any IsLower p
    × Any IsDigit p
    × Any IsSpecial p

-- each flag that is set was set before, or by a byte of its class
module _ (c : ℕ) (k : Classes) where
  classify_sound :
      ((classify k c).has_upper ≡ true → (k.has_upper ≡ true) ⊎ IsUpper c)
      × ((classify k c).has_lower ≡ true → (k.has_lower ≡ true) ⊎ IsLower c)
      × ((classify k c).has_digit ≡ true → (k.has_digit ≡ true) ⊎ IsDigit c)
      × ((classify k c).has_special ≡ true → (k.has_special ≡ true) ⊎ IsSpecial c)
  unfolding classify
  classify_sound = (λ h. ground arith, λ h. ground arith, λ h. ground arith, λ h. ground arith)

flag_sound :
    (flag : Classes → Bool) (P : ℕ → Type 0)
    → ((c : ℕ) (k : Classes) → flag (classify k c) ≡ true → (flag k ≡ true) ⊎ P c)
    → (s : Text) (k : Classes) → flag (classes_from k s) ≡ true
    → (flag k ≡ true) ⊎ Any P s
unfolding classes_from
flag_sound flag P step [] k h = inl h
flag_sound flag P step (c ∷ s) k h = elim (flag_sound flag P step s (classify k c) h) [
  | inl before ↦ elim (step c k before) [ inl old ↦ inl old | inr here ↦ inr (inl here) ]
  | inr later ↦ inr (inr later)
]

pub is_complete_sound :
    (p : Text)
    → is_complete p ≡ true
    → Any IsUpper p × Any IsLower p × Any IsDigit p × Any IsSpecial p
unfolding is_complete
is_complete_sound p h = (
  found (λ k. k.has_upper) IsUpper (λ c k. (classify_sound c k).0) (ground arith) refl,
  found (λ k. k.has_lower) IsLower (λ c k. (classify_sound c k).1) (ground arith) refl,
  found (λ k. k.has_digit) IsDigit (λ c k. (classify_sound c k).2) (ground arith) refl,
  found (λ k. k.has_special) IsSpecial (λ c k. (classify_sound c k).3) (ground arith) refl,
)
  where
    found :
        (flag : Classes → Bool) (P : ℕ → Type 0)
        → ((c : ℕ) (k : Classes) → flag (classify k c) ≡ true → (flag k ≡ true) ⊎ P c)
        → flag (classes_from no_classes p) ≡ true
        → flag no_classes ≡ false
        → Any P p
    found flag P step e off = elim (flag_sound flag P step p no_classes e) [
      | inl on ↦ cc
      | inr any ↦ any
    ]

module _ {R : Type 0} (source : Entropy R) where
  draw_index-lt : (r : R) (n : ℕ) → (draw_index source r).0 ≡ ok n → n < length password_alphabet
  unfolding draw_index
  draw_index-lt r n h =
      source.int-lt (length password_alphabet) r n (omega arith)
        (relabel-eq-ok (λ e. panic (error_text e)) (source.int (length password_alphabet)) r h)

  fill_password-shape :
      (k : ℕ) (r : R) (p : Text)
      → (fill_password source k r).0 ≡ ok p
      → (length p ≡ k) × All IsInert p
  unfolding fill_password
  fill_password-shape zero r p h =
      subst (λ t. (length t ≡ 0) × All IsInert t) (ok-injective h) (refl, tt)
  fill_password-shape (suc k) r p h =
      let (n, drawn, h') = bind-eq-ok (draw_index source) _ r h in
      let (rest, filled, h'') = bind-eq-ok (fill_password source k) _ _ h' in
      let (len, inert) = fill_password-shape k _ rest filled in
      subst (λ t. (length t ≡ suc k) × All IsInert t) (ok-injective h'')
        (
          ap suc len,
          (
            byte_at-All IsInert password_alphabet n alphabet-IsInert (draw_index-lt r n drawn),
            inert,
          ),
        )

  -- A password that is returned has 28 bytes, all of them printable, with no blank, quote,
  -- backslash or semicolon, and at least one upper-case letter, one lower-case letter, one digit
  -- and one other character.
  pub random_password-IsStrong :
      (fuel : ℕ) (r : R) (p : Text) → (random_password source fuel r).0 ≡ ok p → IsStrong p
  unfolding random_password
  random_password-IsStrong zero r p h = absurd (cc)
  random_password-IsStrong (suc fuel) r p h =
      let (q, filled, h') = bind-eq-ok (fill_password source 28) _ r h in
      elim (Bool-cases (is_complete q)) [
        | inl done ↦
            let (len, inert) = fill_password-shape 28 r q filled in
            let (upper, lower, digit, special) = is_complete_sound q done in
            subst IsStrong (ok-injective (rw done at h')) (len, inert, upper, lower, digit, special)
        | inr again ↦ random_password-IsStrong fuel _ p (rw again at h')
      ]
