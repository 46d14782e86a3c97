-- ===== src/Names/Rounds.antt =====
-- When the loop of `randomPassword` ends, told by the bytes that are drawn and by what is among them.
use osb_opengauss_go.Prelude.{
  ℕ, zero, suc, ◌≤◌, ◌≡◌, refl, ◌⊎◌, Bool, true, false, [], ◌∷◌, Text, arith, length, Bool-cases,
  inl, inr,
}
use osb_opengauss_go.Result.{ok}
use osb_opengauss_go.Entropy.{Entropy}
use osb_opengauss_go.Names.Password.{
  password_alphabet, byte_at, Classes, classify, classes_from, no_classes, is_complete, draw_index,
  fill_password, random_password,
}
use osb_opengauss_go.Names.Strength.{Any, IsUpper, IsLower, IsDigit, IsSpecial, is_complete_sound}

-- a byte of each of the four classes is in the text
abbrev pub IsMixed : Text → Type 0
IsMixed p = Any IsUpper p × Any IsLower p × Any IsDigit p × Any IsSpecial p

module _ (c : ℕ) (k : Classes) where
  classify_complete :
      ((k.has_upper ≡ true) ⊎ IsUpper c → (classify k c).has_upper ≡ true)
      × ((k.has_lower ≡ true) ⊎ IsLower c → (classify k c).has_lower ≡ true)
      × ((k.has_digit ≡ true) ⊎ IsDigit c → (classify k c).has_digit ≡ true)
      × ((k.has_special ≡ true) ⊎ IsSpecial c → (classify k c).has_special ≡ true)
  unfolding classify
  classify_complete = (λ h. ground arith, λ h. ground arith, λ h. ground arith, λ h. ground arith)

flag_complete :
    (flag : Classes → Bool) (P : ℕ → Type 0)
    → ((c : ℕ) (k : Classes) → (flag k ≡ true) ⊎ P c → flag (classify k c) ≡ true)
    → (s : Text) (k : Classes) → (flag k ≡ true) ⊎ Any P s
    → flag (classes_from k s) ≡ true
unfolding classes_from
flag_complete flag P step [] k (inl on) = on
flag_complete flag P step [] k (inr none) = absurd none
flag_complete flag P step (c ∷ s) k (inl on) =
    flag_complete flag P step s (classify k c) (inl (step c k (inl on)))
flag_complete flag P step (c ∷ s) k (inr (inl here)) =
    flag_complete flag P step s (classify k c) (inl (step c k (inr here)))
flag_complete flag P step (c ∷ s) k (inr (inr later)) =
    flag_complete flag P step s (classify k c) (inr later)

is_complete_mixed : (p : Text) → IsMixed p → is_complete p ≡ true
unfolding is_complete
is_complete_mixed p (upper, lower, digit, special) = rw (
  flag_complete (λ k. k.has_upper) IsUpper (λ c k. (classify_complete c k).0) p no_classes
      (inr upper),
  flag_complete (λ k. k.has_lower) IsLower (λ c k. (classify_complete c k).1) p no_classes
      (inr lower),
  flag_complete (λ k. k.has_digit) IsDigit (λ c k. (classify_complete c k).2) p no_classes
      (inr digit),
  flag_complete (λ k. k.has_special) IsSpecial (λ c k. (classify_complete c k).3) p no_classes
      (inr special),
)

is_complete_unmixed : (p : Text) → ¬ (IsMixed p) → is_complete p ≡ false
is_complete_unmixed p lacks = elim (Bool-cases (is_complete p)) [
  | inl done ↦ absurd (lacks (is_complete_sound p done))
  | inr again ↦ again
]

module _ {R : Type 0} (source : Entropy R) where
  -- The source gives indices into the alphabet, one after another, from `r` to `s`; `p` is what
  -- stands at them.
  pub data Draws (s : R) : ℕ → Text → R → Type 0 where
    drawn_all : Draws s 0 [] s
    drawn :
        {k : ℕ} {p : Text} {r r' : R} (n : ℕ)
        → source.int (length password_alphabet) r ≡ (ok n, r')
        → Draws s k p r'
        → Draws s (suc k) (byte_at password_alphabet n ∷ p) r

  fill_password-Draws :
      {s : R} {k : ℕ} {p : Text} {r : R} → Draws s k p r → fill_password source k r ≡ (ok p, s)
  unfolding fill_password draw_index
  fill_password-Draws drawn_all = refl
  fill_password-Draws (drawn n e rest) = rw (e, fill_password-Draws rest)

  -- `n` rounds of 28 draws each, from a source on: only the last of them gives a text with bytes of
  -- all four classes, `p`, and it leaves the source at `s`.
  pub data Rounds (p : Text) (s : R) : ℕ → R → Type 0 where
    last : {r : R} → Draws s 28 p r → IsMixed p → Rounds p s 1 r
    more :
        {n : ℕ} {r r' : R} (q : Text)
        → Draws r' 28 q r
        → ¬ (IsMixed q)
        → Rounds p s n r'
        → Rounds p s (suc n) r

  -- Where the source, 28 draws from the alphabet at a time, first gives bytes of all four classes
  -- (upper case, lower case, digit, other) in round `n`, the password is what that round drew, the
  -- source is left where that round left it, and fuel for `n` rounds is enough.
  pub random_password_returns :
      (fuel n : ℕ) (r s : R) (p : Text)
      → Rounds p s n r
      → n ≤ fuel
      → random_password source fuel r ≡ (ok p, s)
  unfolding random_password
  random_password_returns zero n r s p (last e mixed) fits = absurd (omega arith)
  random_password_returns zero n r s p (more q e lacks rounds) fits = absurd (omega arith)
  random_password_returns (suc fuel) n r s p (last e mixed) fits =
      rw (fill_password-Draws e, is_complete_mixed p mixed)
  random_password_returns (suc fuel) n r s p (more q e lacks rounds) fits =
      rw (fill_password-Draws e, is_complete_unmixed q lacks)
        (random_password_returns fuel _ _ s p rounds (omega arith))
