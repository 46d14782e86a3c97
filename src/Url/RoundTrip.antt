-- ===== src/Url/RoundTrip.antt =====
-- An escaped text reads back, and has none of the bytes that delimit the parts of a URL.
use osb_opengauss_go.Prelude.{
  ℕ, ◌+◌, ◌*◌, ◌/◌, ◌%◌, ◌<◌, ◌≡◌, ◌⊎◌, inl, inr, refl, sym, ap, ◌∙◌, Bool, true, false, Bool-cases,
  [], ◌∷◌, ◌++◌, Text, ◌==◌, All, arith,
}
use osb_opengauss_go.Url.{
  upper_hex, escape, hex_value, awaited_next, emit, unescape_from, unescape, cut_at,
}

pub hex_value-upper_hex : (d : ℕ) → d < 16 → hex_value (upper_hex d) ≡ d
unfolding hex_value upper_hex
hex_value-upper_hex d h = ground arith

-- the byte that two digits stand for
digits_value :
    (c : ℕ) → c < 256 → hex_value (upper_hex (c / 16)) * 16 + hex_value (upper_hex (c % 16)) ≡ c
digits_value c h =
    rw (hex_value-upper_hex (c / 16) (omega arith), hex_value-upper_hex (c % 16) (omega arith))
      (omega arith)

-- a kept byte is none that is not kept
kept_other : (keep : ℕ → Bool) (c x : ℕ) → keep c ≡ true → keep x ≡ false → (c == x) ≡ false
kept_other keep c x kept unkept = elim (Bool-cases (c == x)) [
  | inl same ↦ absurd (true≢false (sym kept ∙ ap keep (eq_sound c x same) ∙ unkept))
  | inr other ↦ other
]
  where
    eq_sound : (c x : ℕ) → (c == x) ≡ true → c ≡ x
    eq_sound c x h = ground arith

    true≢false : true ≡ false → ⊥
    true≢false h = cc

module _ (keep : ℕ → Bool) where
  -- A text of bytes reads back from its escape, when the percent sign is not kept.
  pub unescape-escape :
      (s : Text) → keep b'%' ≡ false → All (λ b. b < 256) s → unescape (escape keep s) ≡ s
  unfolding unescape escape unescape_from awaited_next emit
  unescape-escape [] percent bytes = refl
  unescape-escape (c ∷ s) percent (byte, bytes) = elim (Bool-cases (keep c)) [
    | inl kept ↦ rw (kept, kept_other keep c b'%' kept percent, unescape-escape s percent bytes)
    | inr escaped ↦ rw (escaped, unescape-escape s percent bytes, digits_value c byte)
  ]

-- a byte that is no percent sign and no hexadecimal digit
abbrev pub IsDelimiter : ℕ → Type 0
IsDelimiter x = ((37 < x) × (x < 48)) ⊎ ((57 < x) × (x < 65))

abbrev pub Absent : ℕ → Text → Type 0
Absent x s = All (λ c. (c == x) ≡ false) s

hex_other : (x d : ℕ) → IsDelimiter x → d < 16 → (upper_hex d == x) ≡ false
unfolding upper_hex
hex_other x d delimiter h = ground arith

percent_other : (x : ℕ) → IsDelimiter x → (b'%' == x) ≡ false
percent_other x delimiter = ground arith

-- A delimiter that is not kept does not occur in an escaped text.
pub escape-Absent :
    (keep : ℕ → Bool) (x : ℕ) (s : Text)
    → IsDelimiter x
    → keep x ≡ false
    → All (λ b. b < 256) s
    → Absent x (escape keep s)
unfolding escape
escape-Absent keep x [] delimiter unkept bytes = tt
escape-Absent keep x (c ∷ s) delimiter unkept (byte, bytes) = elim (Bool-cases (keep c)) [
  | inl kept ↦
      rw kept (kept_other keep c x kept unkept, escape-Absent keep x s delimiter unkept bytes)
  | inr escaped ↦ rw escaped (
    percent_other x delimiter,
    (
      hex_other x (c / 16) delimiter (omega arith),
      (hex_other x (c % 16) delimiter (omega arith), escape-Absent keep x s delimiter unkept bytes),
    ),
  )
]

-- The first occurrence of a byte that the text in front of it does not have.
pub cut_at-append : (x : ℕ) (s t : Text) → Absent x s → cut_at x (s ++ x ∷ t) ≡ (s, t)
unfolding cut_at
cut_at-append x [] t absent = ground arith
cut_at-append x (c ∷ s) t (other, absent) = rw (other, cut_at-append x s t absent)
