-- ===== src/Base64.antt =====
-- encoding/base64, the padded standard alphabet, as encrypt.go and state.go use it. The position
-- that a decoding error names is left out.
pub mod RoundTrip
pub mod Bytes
use osb_opengauss_go.Prelude.{
  ℕ, ◌+◌, ◌-◌, ◌*◌, ◌/◌, ◌%◌, Bool, ◌&&◌, ◌||◌, not, Option, none, some, [], ◌∷◌, ◌++◌, Text, codes,
  ltb, leb, ◌==◌, if◌then◌else◌, filter,
}
use osb_opengauss_go.Result.{Fault, external, Result, ok, err, ◌>>=◌}

-- the digit of a sextet
unfoldable pub digit : ℕ → ℕ
digit n =
    if ltb n 26
    then b'A' + n
    else if ltb n 52
    then b'a' + (n - 26)
    else if ltb n 62
    then b'0' + (n - 52)
    else if n == 62
    then b'+'
    else b'/'

abbrev pub corrupt : {A : Type 0} → Result Fault A
corrupt = err (external (codes "illegal base64 data"))

unfoldable pub sextet : ℕ → Result Fault ℕ
sextet c =
    if leb b'A' c && leb c b'Z'
    then ok (c - b'A')
    else if leb b'a' c && leb c b'z'
    then ok (c - b'a' + 26)
    else if leb b'0' c && leb c b'9'
    then ok (c - b'0' + 52)
    else if c == b'+'
    then ok 62
    else if c == b'/'
    then ok 63
    else corrupt

-- StdEncoding.EncodeToString
unfoldable pub encode : Text → Text
unfolding digit
encode [] = []
encode (a ∷ []) = digit (a / 4) ∷ digit (a % 4 * 16) ∷ b'=' ∷ b'=' ∷ []
encode (a ∷ b ∷ []) = digit (a / 4) ∷ digit (a % 4 * 16 + b / 16) ∷ digit (b % 16 * 4) ∷ b'=' ∷ []
encode (a ∷ b ∷ c ∷ s) =
    digit (a / 4)
    ∷ digit (a % 4 * 16 + b / 16)
    ∷ digit (b % 16 * 4 + c / 64)
    ∷ digit (c % 64)
    ∷ encode s

-- the last four digits, of which one or two may be padding
unfoldable pub decode_last : ℕ → ℕ → ℕ → ℕ → Result Fault Text
unfolding sextet
decode_last p q r s = do
  w ← sextet p
  x ← sextet q
  if r == b'=' && s == b'=' then ok ((w * 4 + x / 16) ∷ []) else do
    y ← sextet r
    if s == b'='
        then ok ((w * 4 + x / 16) ∷ (x % 16 * 16 + y / 4) ∷ [])
        else do z ← sextet s; ok ((w * 4 + x / 16) ∷ (x % 16 * 16 + y / 4) ∷ (y % 4 * 64 + z) ∷ [])

unfoldable pub decode_quads : Text → Result Fault Text
unfolding decode_last
decode_quads [] = ok []
decode_quads (p ∷ []) = corrupt
decode_quads (p ∷ q ∷ []) = corrupt
decode_quads (p ∷ q ∷ r ∷ []) = corrupt
decode_quads (p ∷ q ∷ r ∷ s ∷ []) = decode_last p q r s
decode_quads (p ∷ q ∷ r ∷ s ∷ t ∷ rest) = do
  w ← sextet p
  x ← sextet q
  y ← sextet r
  z ← sextet s
  more ← decode_quads (t ∷ rest)
  ok ((w * 4 + x / 16) ∷ (x % 16 * 16 + y / 4) ∷ (y % 4 * 64 + z) ∷ more)

-- StdEncoding.DecodeString, which passes over line breaks
unfoldable pub decode : Text → Result Fault Text
unfolding decode_quads
decode s = decode_quads (filter (λ c. not (c == 10) && not (c == 13)) s)
