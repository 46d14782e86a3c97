-- ===== src/Url.antt =====
-- net/url: the escapes of the parts of a URL, with what the reader of a URL makes of them.
pub mod RoundTrip
use osb_opengauss_go.Prelude.{
  ℕ, ◌+◌, ◌-◌, ◌*◌, ◌/◌, ◌%◌, Bool, true, false, ◌&&◌, ◌||◌, List, [], ◌∷◌, Text, codes, leb, ltb,
  ◌==◌, if◌then◌else◌, contains,
}

unfoldable pub is_unreserved : ℕ → Bool
is_unreserved c =
    (leb b'A' c && leb c b'Z')
    || (leb b'a' c && leb c b'z')
    || (leb b'0' c && leb c b'9')
    || c == b'-'
    || c == b'_'
    || c == b'.'
    || c == b'~'

unfoldable pub upper_hex : ℕ → ℕ
upper_hex d = if ltb d 10 then b'0' + d else b'A' + d - 10

-- url.QueryEscape
unfoldable pub query_escape : Text → Text
unfolding is_unreserved upper_hex
query_escape [] = []
query_escape (c ∷ s) =
    let rest = query_escape s in
    if is_unreserved c
    then c ∷ rest
    else if c == b' '
    then b'+' ∷ rest
    else b'%' ∷ upper_hex (c / 16) ∷ upper_hex (c % 16) ∷ rest

-- one of the bytes of a set
unfoldable pub one_of_bytes : Text → ℕ → Bool
one_of_bytes [] c = false
one_of_bytes (x ∷ xs) c = x == c || one_of_bytes xs c

-- the bytes that each part of a URL keeps, besides the unreserved ones
unfoldable pub in_userinfo : ℕ → Bool
unfolding is_unreserved one_of_bytes
in_userinfo c = is_unreserved c || one_of_bytes (codes "$&+,;=") c

unfoldable pub in_host : ℕ → Bool
unfolding is_unreserved one_of_bytes
in_host c = is_unreserved c || one_of_bytes (codes "!$&'()*+,;=:[]<>\"") c

unfoldable pub in_path : ℕ → Bool
unfolding is_unreserved one_of_bytes
in_path c = is_unreserved c || one_of_bytes (codes "$&+,/:;=@") c

-- a text in which the bytes that are not kept are escaped
unfoldable pub escape : (ℕ → Bool) → Text → Text
unfolding upper_hex
escape keep [] = []
escape keep (c ∷ s) =
    let rest = escape keep s in
    if keep c then c ∷ rest else b'%' ∷ upper_hex (c / 16) ∷ upper_hex (c % 16) ∷ rest

-- Reading: the digits of an escape that are still to come, and the first of them.
pub data Awaited : Type 0 where
  none_awaited two_awaited : Awaited
  one_awaited : ℕ → Awaited

unfoldable pub hex_value : ℕ → ℕ
hex_value c = if ltb c b'A' then c - b'0' else c - b'A' + 10

unfoldable pub awaited_next : Awaited → ℕ → Awaited
unfolding hex_value
awaited_next none_awaited c = if c == b'%' then two_awaited else none_awaited
awaited_next two_awaited c = one_awaited (hex_value c)
awaited_next (one_awaited d) c = none_awaited

unfoldable pub emit : Awaited → ℕ → Text → Text
unfolding hex_value
emit none_awaited c rest = if c == b'%' then rest else c ∷ rest
emit two_awaited c rest = rest
emit (one_awaited d) c rest = (d * 16 + hex_value c) ∷ rest

unfoldable pub unescape_from : Awaited → Text → Text
unfolding awaited_next emit
unescape_from a [] = []
unescape_from a (c ∷ s) = emit a c (unescape_from (awaited_next a c) s)

-- the text that was escaped
unfoldable pub unescape : Text → Text
unfolding unescape_from
unescape s = unescape_from none_awaited s

-- what stands in front of the first byte `x`, and what follows it
unfoldable pub cut_at : ℕ → Text → Text × Text
cut_at x [] = ([], [])
cut_at x (c ∷ s) =
    let (before, after) = cut_at x s in if c == x then ([], s) else (c ∷ before, after)
