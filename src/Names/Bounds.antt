-- ===== src/Names/Bounds.antt =====
-- Every derived name is an identifier that openGauss accepts unquoted.
use osb_opengauss_go.Prelude.{
  ℕ, suc, ◌+◌, ◌-◌, ◌*◌, ◌/◌, ◌%◌, ◌≤◌, ◌<◌, ◌≡◌, refl, true, [], ◌∷◌, ◌++◌, Text, arith, ltb,
  Bool-cases, inl, inr, length, length-append, length-take, take, filter, All, All-append, All-take,
  pos, sub_ℕ,
}
use osb_opengauss_go.Result.{ok}
use osb_opengauss_go.Names.{Hash, hex_digit, encode_hex, short_hash, is_name_byte, cut, name_or}

-- a lower-case letter, a digit or an underscore
abbrev pub IsNameByte : ℕ → Type 0
IsNameByte c = is_name_byte c ≡ true

-- The identifiers of at most `n` bytes that need no quotes.
abbrev pub IsIdentifier : ℕ → Text → Type 0
IsIdentifier n [] = ⊥
IsIdentifier n (c ∷ s) = (b'a' ≤ c) × (c ≤ b'z') × All IsNameByte s × (suc (length s) ≤ n)

pub filter-IsNameByte : (s : Text) → All IsNameByte (filter is_name_byte s)
filter-IsNameByte [] = tt
filter-IsNameByte (c ∷ s) = elim (Bool-cases (is_name_byte c)) [
  | inl keep ↦ rw keep (keep, filter-IsNameByte s)
  | inr drop ↦ rw drop (filter-IsNameByte s)
]

-- What is kept of a custom name fits its budget, and holds no byte that an identifier cannot.
pub cut-length :
    (s : Text) (n : ℕ)
    → All IsNameByte s
    → (t : Text) × (cut s (pos n) ≡ ok t) × All IsNameByte t × (length t ≤ n)
unfolding cut
cut-length s n h = elim (Bool-cases (ltb n (length s))) [
  | inl long ↦ (take n s, rw long, All-take _ n s h, omega (arith, length-take n s))
  | inr short ↦ (s, rw short, h, ground arith)
]

hex_digit-IsNameByte : (d : ℕ) → d < 16 → IsNameByte (hex_digit d)
unfolding hex_digit is_name_byte
hex_digit-IsNameByte d h = ground arith

encode_hex-IsNameByte : (s : Text) → All (λ b. b < 256) s → All IsNameByte (encode_hex s)
unfolding encode_hex
encode_hex-IsNameByte [] h = tt
encode_hex-IsNameByte (b ∷ s) (hb, hs) = (
  hex_digit-IsNameByte (b / 16) (omega arith),
  (hex_digit-IsNameByte (b % 16) (omega arith), encode_hex-IsNameByte s hs),
)

length-encode_hex : (s : Text) → length (encode_hex s) ≡ 2 * length s
unfolding encode_hex
length-encode_hex [] = refl
length-encode_hex (b ∷ s) = omega (arith, length-encode_hex s)

module _ (h : Hash) (id : Text) where
  short_hash-IsNameByte : All IsNameByte (short_hash h id)
  unfolding short_hash
  short_hash-IsNameByte = encode_hex-IsNameByte _ (All-take _ 6 (h.sum256 id) (h.bytes-sum256 id))

  length-short_hash : length (short_hash h id) ≡ 12
  unfolding short_hash
  length-short_hash = omega (
    arith,
    length-encode_hex (take 6 (h.sum256 id)),
    length-take 6 (h.sum256 id),
    h.length-sum256 id,
  )

  pub name_or-bounds :
      (name : Text) (n : ℕ)
      → All IsNameByte name
      → length name ≤ n
      → 12 ≤ n
      → All IsNameByte (name_or name (short_hash h id))
        × (length (name_or name (short_hash h id)) ≤ n)
  unfolding name_or
  name_or-bounds [] n hn fits room = (short_hash-IsNameByte, omega (arith, length-short_hash))
  name_or-bounds (c ∷ s) n hn fits room = (hn, fits)

pub IsIdentifier-append :
    (m n : ℕ) (s t : Text)
    → IsIdentifier m s
    → All IsNameByte t
    → length s + length t ≤ n
    → IsIdentifier n (s ++ t)
IsIdentifier-append m n [] t hs ht fits = absurd hs
IsIdentifier-append m n (c ∷ s) t (lo, hi, rest, _) ht fits =
    (lo, hi, All-append _ s t rest ht, omega (arith, length-append s t))

pub length-IsIdentifier : (m : ℕ) (s : Text) → IsIdentifier m s → length s ≤ m
length-IsIdentifier m [] h = absurd h
length-IsIdentifier m (c ∷ s) (_, _, _, fits) = fits

pub IsIdentifier-weaken : (m n : ℕ) (s : Text) → IsIdentifier m s → m ≤ n → IsIdentifier n s
IsIdentifier-weaken m n [] h le = absurd h
IsIdentifier-weaken m n (c ∷ s) (lo, hi, rest, fits) le = (lo, hi, rest, omega arith)

-- the budget that is left for a name
pub budget : (p k : ℕ) → p + k ≤ 63 → sub_ℕ 63 (p + k) ≡ pos (63 - (p + k))
budget p k h = ground arith
