-- ===== src/Prelude/Strings.antt =====
-- Go strings and byte slices: lists of bytes, and the operations of package strings that the
-- program calls.
use Prim.Native.Nat.{ℕ, zero, suc, ◌+◌, ◌-◌, ◌/◌, ◌%◌}
use Prim.Native.Char.{code}
use Prim.Native.String.{String}
use mathlib.Core.Path.{◌≡◌, refl}
use mathlib.Core.Logic.{◌↔◌}
use mathlib.Core.Bool.{Bool, true, false, ◌&&◌, ◌||◌, not}
use mathlib.Core.List.{List, [], ◌∷◌, ◌++◌}
use native.Mathlib.Omega.{arith}
use osb_opengauss_go.Prelude.Tests.{ltb, leb, ◌==◌, if◌then◌else◌}
use osb_opengauss_go.Prelude.Int.{ℤ, pos, negsuc}

abbrev pub Text : Type 0
Text = List ℕ

-- the bytes of an ASCII literal
abbrev pub codes : String → Text
codes String.[] = []
codes (String.◌∷◌ c s) = code c ∷ codes s

-- `s == t` on Go strings
unfoldable pub text_eq : Text → Text → Bool
text_eq [] [] = true
text_eq [] (d ∷ t) = false
text_eq (c ∷ s) [] = false
text_eq (c ∷ s) (d ∷ t) = (c == d) && text_eq s t

pub text_eq_sound : (s t : Text) → text_eq s t ≡ true → s ≡ t
unfolding text_eq
text_eq_sound [] [] h = refl
text_eq_sound [] (d ∷ t) h = ground arith
text_eq_sound (c ∷ s) [] h = ground arith
text_eq_sound (c ∷ s) (d ∷ t) h = ground (arith, text_eq_sound s t)

pub text_eq_refl : (s : Text) → text_eq s s ≡ true
unfolding text_eq
text_eq_refl [] = refl
text_eq_refl (c ∷ s) = ground (arith, text_eq_refl s)

pub text_eq_iff : (s t : Text) → (text_eq s t ≡ true) ↔ (s ≡ t)
text_eq_iff s t = (text_eq_sound s t, λ e. subst_eq s t e)
  where
    subst_eq : (s t : Text) → s ≡ t → text_eq s t ≡ true
    subst_eq s t e = rw (← e) (text_eq_refl s)

-- strings.HasPrefix(s, p)
unfoldable pub has_prefix : Text → Text → Bool
has_prefix s [] = true
has_prefix [] (d ∷ p) = false
has_prefix (c ∷ s) (d ∷ p) = (c == d) && has_prefix s p

-- slices.Contains(list, s)
unfoldable pub contains : List Text → Text → Bool
unfolding text_eq
contains [] s = false
contains (x ∷ xs) s = text_eq x s || contains xs s

-- strings.Join(parts, sep)
unfoldable pub join : List Text → Text → Text
join [] sep = []
join (p ∷ []) sep = p
join (p ∷ q ∷ ps) sep = p ++ (sep ++ join (q ∷ ps) sep)

-- strings.ReplaceAll(s, old, new) where `old` is the one byte `b`
unfoldable pub replace_byte : ℕ → Text → Text → Text
replace_byte b new [] = []
replace_byte b new (c ∷ s) =
    let rest = replace_byte b new s in if c == b then new ++ rest else c ∷ rest

-- strings.Split(s, sep) where `sep` is the one byte `b`: there is always a first part
unfoldable pub split_parts : ℕ → Text → Text × List Text
split_parts b [] = ([], [])
split_parts b (c ∷ s) =
    let (part, rest) = split_parts b s in if c == b then ([], part ∷ rest) else (c ∷ part, rest)

unfoldable pub split : Text → ℕ → List Text
unfolding split_parts
split s b = let (part, rest) = split_parts b s in part ∷ rest

-- the decimal digits of a number, `%d`; a number has fewer digits than its value plus one
unfoldable pub digits : ℕ → ℕ → Text → Text
digits zero n out = out
digits (suc f) n out =
    let more = digits f (n / 10) ((b'0' + n % 10) ∷ out) in
    if n / 10 == 0 then (b'0' + n % 10) ∷ out else more

unfoldable pub format_nat : ℕ → Text
unfolding digits
format_nat n = digits (suc n) n []

unfoldable pub format_int : ℤ → Text
unfolding format_nat
format_int (pos n) = format_nat n
format_int (negsuc n) = b'-' ∷ format_nat (suc n)

-- `%q`, for the bytes of ASCII; those above are printed as they stand, as Go prints the printable
-- characters that they spell.
unfoldable pub hex_byte : ℕ → ℕ
hex_byte d = if ltb d 10 then b'0' + d else b'a' + d - 10

-- a b t n v f r
unfoldable pub escape_letter : ℕ → ℕ
escape_letter zero = b'a'
escape_letter (suc zero) = b'b'
escape_letter (suc (suc zero)) = b't'
escape_letter (suc (suc (suc zero))) = b'n'
escape_letter (suc (suc (suc (suc zero)))) = b'v'
escape_letter (suc (suc (suc (suc (suc zero))))) = b'f'
escape_letter (suc (suc (suc (suc (suc (suc _)))))) = b'r'

unfoldable pub quote_byte : ℕ → Text
unfolding hex_byte escape_letter
quote_byte c =
    if c == b'"' || c == b'\\'
    then b'\\' ∷ c ∷ []
    else if leb 32 c && not (c == 127)
    then c ∷ []
    else if leb 7 c && leb c 13
    then b'\\' ∷ escape_letter (c - 7) ∷ []
    else b'\\' ∷ b'x' ∷ hex_byte (c / 16) ∷ hex_byte (c % 16) ∷ []

unfoldable pub quote_bytes : Text → Text
unfolding quote_byte
quote_bytes [] = []
quote_bytes (c ∷ s) = quote_byte c ++ quote_bytes s

unfoldable pub quoted : Text → Text
unfolding quote_bytes
quoted s = b'"' ∷ (quote_bytes s ++ codes "\"")
