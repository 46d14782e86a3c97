-- ===== src/Names.antt =====
-- names.go: the names of the database objects, quoting, and passwords.
pub mod Bounds
pub mod Identifiers
pub mod Quoting
pub mod Password
pub mod Strength
pub mod Rounds
use osb_opengauss_go.Prelude.{
  ℕ, zero, suc, ◌+◌, ◌-◌, ◌/◌, ◌%◌, ◌<◌, ◌≡◌, Bool, true, false, ◌&&◌, ◌||◌, List, [], ◌∷◌, ◌++◌,
  Text, codes, ltb, leb, ◌==◌, if◌then◌else◌, length, take, filter, All, ℤ, pos, negsuc, sub_ℕ,
  replace_byte,
}
use osb_opengauss_go.Result.{Fault, panic, Result, ok, err, ◌>>=◌}

-- sha256.Sum256, with the shape of its digest
pub record Hash : Type 0 where
  pub sum256 : Text → Text
  pub length-sum256 : (s : Text) → length (sum256 s) ≡ 32
  pub bytes-sum256 : (s : Text) → All (λ b. b < 256) (sum256 s)

pub record Names : Type 0 where
  pub database : Text
  pub group_role : Text
  pub tablespace : Text

abbrev pub max_identifier : ℕ
max_identifier = 63

-- one digit of hex.EncodeToString
unfoldable pub hex_digit : ℕ → ℕ
hex_digit d = if ltb d 10 then b'0' + d else b'a' + d - 10

unfoldable pub encode_hex : Text → Text
unfolding hex_digit
encode_hex [] = []
encode_hex (b ∷ s) = hex_digit (b / 16) ∷ hex_digit (b % 16) ∷ encode_hex s

module _ (h : Hash) where
  unfoldable pub short_hash : Text → Text
  unfolding encode_hex
  short_hash id = encode_hex (take 6 (h.sum256 id))

-- strings.ToLower, up to the bytes above ASCII that `sanitize_name` then drops: of the letters
-- above ASCII, U+0130 (bytes 196 176) has the lower case i and U+212A (226 132 170) has k; the
-- others have one above ASCII, and are kept as they stand here.
unfoldable pub lower_byte : ℕ → ℕ
lower_byte c = if leb b'A' c && leb c b'Z' then c + 32 else c

unfoldable pub to_lower : Text → Text
unfolding lower_byte
to_lower [] = []
to_lower (c ∷ []) = lower_byte c ∷ []
to_lower (c ∷ d ∷ []) = if c == 196 && d == 176 then b'i' ∷ [] else lower_byte c ∷ to_lower (d ∷ [])
to_lower (c ∷ d ∷ e ∷ s) =
    let two = b'i' ∷ to_lower (e ∷ s) in
    let three = b'k' ∷ to_lower s in
    let one = lower_byte c ∷ to_lower (d ∷ e ∷ s) in
    if c == 196 && d == 176 then two else if c == 226 && d == 132 && e == 170 then three else one

-- a byte that `[^a-z0-9_]` does not match
unfoldable pub is_name_byte : ℕ → Bool
is_name_byte c = (leb b'a' c && leb c b'z') || (leb b'0' c && leb c b'9') || c == b'_'

-- cleaned[:maxLen] where the text is longer; Go panics at a negative bound
unfoldable pub cut : Text → ℤ → Result Fault Text
cut s (pos n) = ok (if ltb n (length s) then take n s else s)
cut s (negsuc n) = err (panic (codes "slice bounds out of range"))

unfoldable pub sanitize_name : Text → ℤ → Result Fault Text
unfolding to_lower is_name_byte cut
sanitize_name name max_len = cut (filter is_name_byte (to_lower name)) max_len

-- `name` if it is not empty, or else the hash of the id
unfoldable pub name_or : Text → Text → Text
name_or [] hash = hash
name_or (c ∷ s) hash = c ∷ s

unfoldable pub with_suffixes : Text → Names
with_suffixes base = record {
  database = base;
  group_role = base ++ codes "_grp";
  tablespace = base ++ codes "_ts";
}

module _ (h : Hash) where
  unfoldable pub names_for : Text → Text → Text → Result Fault Names
  unfolding with_suffixes sanitize_name name_or short_hash
  names_for instance_id prefix custom_name = do
    name ← sanitize_name custom_name (sub_ℕ max_identifier (length prefix + 5))
    ok (with_suffixes (prefix ++ b'_' ∷ name_or name (short_hash h instance_id)))

  unfoldable pub user_for : Text → Text → Text → Result Fault Text
  unfolding sanitize_name name_or short_hash
  user_for binding_id prefix custom_name = do
    name ← sanitize_name custom_name (sub_ℕ max_identifier (length prefix + 2))
    ok (prefix ++ b'u' ∷ b'_' ∷ name_or name (short_hash h binding_id))

unfoldable pub quote_ident : Text → Text
unfolding replace_byte
quote_ident name = b'"' ∷ (replace_byte b'"' (codes "\"\"") name ++ codes "\"")

unfoldable pub quote_literal : Text → Text
unfolding replace_byte
quote_literal value = b'\'' ∷ (replace_byte b'\'' (codes "''") value ++ codes "'")
