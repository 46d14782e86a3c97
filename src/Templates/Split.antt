-- ===== src/Templates/Split.antt =====
-- How splitSQL reads statements that stand one to a line, each with its semicolon.
use osb_opengauss_go.Prelude.{
  ◌⊎◌, inl, inr, ℕ, ◌≡◌, ◌≢◌, refl, ap, ◌∙◌, Bool, true, false, ◌&&◌, List, [], ◌∷◌, ◌++◌, map,
  append_assoc, All, Text, codes, ◌==◌, text_eq, has_prefix, join, split_parts, split,
}
use osb_opengauss_go.Templates.{
  is_space, trim_left, trim_right, trim_space, push_word, fields_from, fields, clean_lines,
  statements_of, split_sql,
}
use osb_opengauss_go.Templates.Lines.{
  IsWord, sentence, line, IsStatement, split-append, fields-sentence, no_semicolon, no_newline,
  sentence_begins,
}

-- lines that splitSQL passes over, and the line of a statement behind them
pub record Item : Type 0 where
  pub skipped : List Text
  pub words : List Text

abbrev pub skipped_lines : List Text → Text
skipped_lines [] = []
skipped_lines (l ∷ ls) = l ++ (10 ∷ skipped_lines ls)

-- a template: empty lines and comments, and statements one to a line
abbrev pub script : List Item → Text
script [] = []
script (i ∷ rest) = skipped_lines i.skipped ++ (line i.words ++ (10 ∷ script rest))

-- an empty line, or a comment
abbrev pub IsSkipped : Text → Type 0
IsSkipped l = All (λ c. (c == 10) ≡ false) l × ((l ≡ []) ⊎ ((t : Text) × (l ≡ b'-' ∷ b'-' ∷ t)))

abbrev pub IsItem : Item → Type 0
IsItem i = All IsSkipped i.skipped × IsStatement i.words

-- the first loop
and_false : (c : Bool) → (c && false) ≡ false
and_false true = refl
and_false false = refl

ends_somewhere : (s : Text) (c : ℕ) → text_eq (s ++ c ∷ []) [] ≡ false
unfolding text_eq
ends_somewhere [] c = refl
ends_somewhere (d ∷ s) c = refl

trim_right-semicolon : (s : Text) → trim_right (s ++ b';' ∷ []) ≡ s ++ b';' ∷ []
unfolding trim_right is_space
trim_right-semicolon [] = refl
trim_right-semicolon (c ∷ s) =
    rw (trim_right-semicolon s, ends_somewhere s b';', and_false (is_space c))

trim_left-word : (c : ℕ) (s : Text) → is_space c ≡ false → trim_left (c ∷ s) ≡ c ∷ s
unfolding trim_left
trim_left-word c s h = rw h

trim_space-line :
    (words : List Text) → words ≢ [] → All IsWord words → trim_space (line words) ≡ line words
unfolding trim_space
trim_space-line words some_word h =
    let (c, t, begins, no_space) = sentence_begins words some_word h in
    let left : trim_left (line words) ≡ line words =
      rw begins (trim_left-word c (t ++ b';' ∷ []) no_space) in
    ap trim_right left ∙ trim_right-semicolon (sentence words)

lines : List Item → List Text
lines [] = [] ∷ []
lines (i ∷ rest) = i.skipped ++ (line i.words ∷ lines rest)

split-skipped_lines :
    (ls : List Text) (s : Text)
    → All IsSkipped ls
    → split (skipped_lines ls ++ s) 10 ≡ ls ++ split s 10
split-skipped_lines [] s h = refl
split-skipped_lines (l ∷ ls) s ((no_newline, _), h) =
    ap (λ t. split t 10) (append_assoc l (10 ∷ skipped_lines ls) s)
    ∙ split-append 10 refl l (skipped_lines ls ++ s) no_newline
    ∙ ap (λ r. l ∷ r) (split-skipped_lines ls s h)

split-script : (l : List Item) → All IsItem l → split (script l) 10 ≡ lines l
unfolding lines split split_parts
split-script [] h = refl
split-script (i ∷ rest) ((skipped, (some_word, hw, plain)), h) =
    split-skipped_lines i.skipped (line i.words ++ (10 ∷ script rest)) skipped
    ∙ ap (λ r. i.skipped ++ r)
        (split-append 10 refl (line i.words) (script rest) (no_newline i.words hw)
          ∙ ap (λ r. line i.words ∷ r) (split-script rest h))

clean_lines-comment :
    (t : Text) (ls : List Text) → clean_lines ((b'-' ∷ b'-' ∷ t) ∷ ls) ≡ clean_lines ls
unfolding clean_lines trim_space trim_left trim_right is_space text_eq has_prefix
clean_lines-comment t ls = refl

clean_lines-empty : (ls : List Text) → clean_lines ([] ∷ ls) ≡ clean_lines ls
unfolding clean_lines trim_space text_eq
clean_lines-empty ls = refl

clean_lines-skipped :
    (ls rest : List Text) → All IsSkipped ls → clean_lines (ls ++ rest) ≡ clean_lines rest
clean_lines-skipped [] rest h = refl
clean_lines-skipped (l ∷ ls) rest ((_, inl empty), h) =
    ap (λ s. clean_lines (s ∷ (ls ++ rest))) empty
    ∙ clean_lines-empty (ls ++ rest)
    ∙ clean_lines-skipped ls rest h
clean_lines-skipped (l ∷ ls) rest ((_, inr (t, comment)), h) =
    ap (λ s. clean_lines (s ∷ (ls ++ rest))) comment
    ∙ clean_lines-comment t (ls ++ rest)
    ∙ clean_lines-skipped ls rest h

clean_lines-line :
    (words : List Text) (ls : List Text)
    → IsStatement words
    → clean_lines (line words ∷ ls) ≡ line words ∷ clean_lines ls
unfolding clean_lines trim_space text_eq
clean_lines-line words ls (some_word, hw, plain) =
    rw (trim_space-line words some_word hw, ends_somewhere (sentence words) b';', plain)

clean_lines-lines :
    (l : List Item) → All IsItem l → clean_lines (lines l) ≡ map (λ i. line i.words) l
unfolding lines clean_lines trim_space text_eq
clean_lines-lines [] h = refl
clean_lines-lines (i ∷ rest) ((skipped, statement), h) =
    clean_lines-skipped i.skipped (line i.words ∷ lines rest) skipped
    ∙ clean_lines-line i.words (lines rest) statement
    ∙ ap (λ r. line i.words ∷ r) (clean_lines-lines rest h)

-- the second loop
sentence_some :
    (words : List Text) → words ≢ [] → All IsWord words → text_eq (sentence words) [] ≡ false
unfolding text_eq
sentence_some words some_word h =
    let (c, t, begins, no_space) = sentence_begins words some_word h in
    ap (λ s. text_eq s []) begins

first_statement :
    (text s : Text) (r : List Text)
    → join (fields text) (codes " ") ≡ s
    → text_eq s [] ≡ false
    → statements_of (text ∷ r) ≡ s ∷ statements_of r
unfolding statements_of
first_statement text s r e some_text = rw (e, some_text)

statements_of-sentence :
    (words : List Text) (r : List Text)
    → words ≢ []
    → All IsWord words
    → statements_of (sentence words ∷ r) ≡ sentence words ∷ statements_of r
unfolding join
statements_of-sentence words r some_word h =
    first_statement (sentence words) (sentence words) r
      (ap (λ l. join l (codes " ")) (fields-sentence words h)) (sentence_some words some_word h)

-- a newline in front of a statement is white space
newline_skipped : (s : Text) → statements_of (split (10 ∷ s) b';') ≡ statements_of (split s b';')
unfolding statements_of split split_parts fields fields_from is_space push_word
newline_skipped s = refl

statements_of-join :
    (l : List Item)
    → All IsItem l
    → statements_of (split (join (map (λ i. line i.words) l) (codes "\n")) b';')
      ≡ map (λ i. sentence i.words) l
unfolding join statements_of split split_parts fields fields_from push_word text_eq
statements_of-join [] h = refl
statements_of-join (i ∷ []) ((skipped, (some_word, hw, plain)), h) =
    ap statements_of (split-append b';' refl (sentence i.words) [] (no_semicolon i.words hw))
    ∙ statements_of-sentence i.words (split [] b';') some_word hw
statements_of-join (i ∷ next ∷ rest) ((skipped, (some_word, hw, plain)), h) =
    let others : Text = join (map (λ q. line q.words) (next ∷ rest)) (codes "\n") in
    ap (λ s. statements_of (split s b';'))
      (append_assoc (sentence i.words) (b';' ∷ []) (10 ∷ others))
    ∙ ap statements_of
        (split-append b';' refl (sentence i.words) (10 ∷ others) (no_semicolon i.words hw))
    ∙ statements_of-sentence i.words (split (10 ∷ others) b';') some_word hw
    ∙ ap (λ r. sentence i.words ∷ r) (newline_skipped others ∙ statements_of-join (next ∷ rest) h)

-- A text of statements, each on a line with a semicolon behind it, of words without white space and
-- semicolons, one blank apart, the first not beginning with two hyphens, and in front of each any
-- empty lines and comments: splitSQL finds in it just these statements, in order, and the comments
-- may hold anything but a newline.
pub split_sql-script :
    (l : List Item) → All IsItem l → split_sql (script l) ≡ map (λ i. sentence i.words) l
unfolding split_sql
split_sql-script l h = rw (split-script l h, clean_lines-lines l h) (statements_of-join l h)
