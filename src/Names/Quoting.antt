-- ===== src/Names/Quoting.antt =====
-- `quoteIdent` and `quoteLiteral` against the SQL lexer's reading of a quoted token.
use mathlib.Core.List.{cons-ne-nil}
use osb_opengauss_go.Prelude.{
  ℕ, ◌≡◌, refl, ◌≢◌, [], ◌∷◌, ◌++◌, append_assoc, Text, arith, Option, none, some, ◌==◌,
  if◌then◌else◌, replace_byte, Bool-cases, inl, inr,
}
use osb_opengauss_go.Names.{quote_ident, quote_literal}

abbrev push : ℕ → Option (Text × Text) → Option (Text × Text)
push c none = none
push c (some (value, rest)) = some (c ∷ value, rest)

-- The rest of a token quoted by `q`, behind its opening quote: a doubled quote stands for one, and
-- a single one ends the token. The result is the token's value and the text behind it.
unfoldable pub read_token : ℕ → Text → Option (Text × Text)
read_token q [] = none
read_token q (c ∷ []) = if c == q then some ([], []) else none
read_token q (c ∷ d ∷ s) =
    let doubled = push q (read_token q s) in
    let plain = push c (read_token q (d ∷ s)) in
    if c == q then (if d == q then doubled else some ([], d ∷ s)) else plain

-- no quote begins the text
abbrev pub NoQuote : ℕ → Text → Type 0
NoQuote q [] = Unit
NoQuote q (c ∷ s) = c ≢ q

module _ (q : ℕ) (rest : Text) (end : NoQuote q rest) where
  read_end : read_token q (q ∷ rest) ≡ some ([], rest)
  unfolding read_token
  read_end = go rest end
    where
      go : (r : Text) → NoQuote q r → read_token q (q ∷ r) ≡ some ([], r)
      go [] h = ground arith
      go (c ∷ r) h = ground arith

  read_doubled : (s : Text) → read_token q (q ∷ q ∷ s) ≡ push q (read_token q s)
  unfolding read_token
  read_doubled s = ground arith

  read_plain : (c : ℕ) (s : Text) → c ≢ q → s ≢ [] → read_token q (c ∷ s) ≡ push c (read_token q s)
  unfolding read_token
  read_plain c [] h ne = absurd (ne refl)
  read_plain c (d ∷ s) h ne = ground arith

  append-ne-nil : (s : Text) → s ++ q ∷ rest ≢ []
  append-ne-nil [] = cons-ne-nil _ _
  append-ne-nil (c ∷ s) = cons-ne-nil _ _

  -- Every byte of the value is read back, and the token ends at the closing quote.
  read-replace :
      (v : Text) → read_token q (replace_byte q (q ∷ q ∷ []) v ++ q ∷ rest) ≡ some (v, rest)
  unfolding replace_byte
  read-replace [] = read_end
  read-replace (c ∷ v) = elim (Bool-cases (c == q)) [
    | inl quote ↦ rw (quote, read_doubled, read-replace v) (ground arith)
    | inr other ↦ rw (
      other,
      read_plain c (replace_byte q (q ∷ q ∷ []) v ++ q ∷ rest) (ground arith) (append-ne-nil _),
      read-replace v,
    )
  ]

-- Behind the opening quote of `quoteLiteral(value)`, whatever bytes the value holds and whatever
-- text that begins with no single quote follows, the lexer reads one token: its value is `value`,
-- and what follows is left unread.
pub read-quote_literal :
    (value rest : Text)
    → NoQuote b'\'' rest
    → (body : Text) × (quote_literal value ≡ b'\'' ∷ body)
      × (read_token b'\'' (body ++ rest) ≡ some (value, rest))
unfolding quote_literal
read-quote_literal value rest end = (_, refl, rw append_assoc (read-replace b'\'' rest end value))

-- Behind the opening quote of `quoteIdent(name)`, whatever bytes the name holds and whatever text
-- that begins with no double quote follows, the lexer reads one token: its value is `name`, and
-- what follows is left unread.
pub read-quote_ident :
    (name rest : Text)
    → NoQuote b'"' rest
    → (body : Text) × (quote_ident name ≡ b'"' ∷ body)
      × (read_token b'"' (body ++ rest) ≡ some (name, rest))
unfolding quote_ident
read-quote_ident name rest end = (_, refl, rw append_assoc (read-replace b'"' rest end name))
