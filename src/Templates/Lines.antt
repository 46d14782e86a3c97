-- ===== src/Templates/Lines.antt =====
-- The lines and the statements that splitSQL reads: their words, and the bytes between them.
use osb_opengauss_go.Prelude.{
  ℕ, ◌≡◌, ◌≢◌, refl, ap, ◌∙◌, true, false, List, [], ◌∷◌, ◌++◌, append-nil, append_assoc, All,
  All-append, Text, codes, arith, ◌==◌, has_prefix, join, split_parts, split,
}
use osb_opengauss_go.Templates.{is_space, push_word, fields_from, fields}

-- no white space and no semicolon
abbrev pub IsPlain : ℕ → Type 0
IsPlain c = (is_space c ≡ false) × ((c == b';') ≡ false)

abbrev pub IsWord : Text → Type 0
IsWord w = (w ≢ []) × All IsPlain w

-- the words of a statement, one blank between them
abbrev pub sentence : List Text → Text
unfolding join
sentence words = join words (codes " ")

-- a statement on its line
abbrev pub line : List Text → Text
line words = sentence words ++ b';' ∷ []

-- words that splitSQL takes for a statement: one at least, and not the beginning of a comment
abbrev pub IsStatement : List Text → Type 0
IsStatement words = (words ≢ []) × All IsWord words × (has_prefix (line words) (codes "--") ≡ false)

module _ (b : ℕ) (same : (b == b) ≡ true) where
  split_parts-append :
      (a s : Text)
      → All (λ c. (c == b) ≡ false) a
      → split_parts b (a ++ (b ∷ s)) ≡ (a, (split_parts b s).0 ∷ (split_parts b s).1)
  unfolding split_parts
  split_parts-append [] s h = rw same
  split_parts-append (c ∷ a) s (hc, ha) = rw (split_parts-append a s ha, hc)

  pub split-append :
      (a s : Text) → All (λ c. (c == b) ≡ false) a → split (a ++ (b ∷ s)) b ≡ a ∷ split s b
  unfolding split
  split-append a s h = rw (split_parts-append a s h)

-- the words of a text
fields_from-append :
    (word w s : Text) → All IsPlain w → fields_from word (w ++ s) ≡ fields_from (word ++ w) s
unfolding fields_from
fields_from-append word [] s h = rw append-nil
fields_from-append word (c ∷ w) s ((hc, _), h) =
    rw hc (fields_from-append (word ++ c ∷ []) w s h ∙ (simp append_assoc))

push_word-IsWord : (w : Text) (l : List Text) → IsWord w → push_word w l ≡ w ∷ l
unfolding push_word
push_word-IsWord [] l h = absurd (h.0 refl)
push_word-IsWord (c ∷ w) l h = refl

pub fields-sentence : (words : List Text) → All IsWord words → fields (sentence words) ≡ words
unfolding fields fields_from join is_space push_word
fields-sentence [] h = refl
fields-sentence (w ∷ []) (hw, _) =
    (rw append-nil) ∙ fields_from-append [] w [] hw.1 ∙ push_word-IsWord w [] hw
fields-sentence (w ∷ v ∷ words) (hw, h) =
    fields_from-append [] w (b' ' ∷ sentence (v ∷ words)) hw.1
    ∙ push_word-IsWord w _ hw
    ∙ ap (λ l. w ∷ l) (fields-sentence (v ∷ words) h)

-- the bytes of a line
module _ (P : ℕ → Type 0) (of_word : (c : ℕ) → IsPlain c → P c) (of_blank : P b' ') where
  All-word : (w : Text) → All IsPlain w → All P w
  All-word [] h = tt
  All-word (c ∷ w) (hc, h) = (of_word c hc, All-word w h)

  All-sentence : (words : List Text) → All IsWord words → All P (sentence words)
  unfolding join
  All-sentence [] h = tt
  All-sentence (w ∷ []) (hw, h) = All-word w hw.1
  All-sentence (w ∷ v ∷ words) (hw, h) =
      All-append P w (b' ' ∷ sentence (v ∷ words)) (All-word w hw.1)
        (of_blank, All-sentence (v ∷ words) h)

pub no_semicolon :
    (words : List Text) → All IsWord words → All (λ c. (c == b';') ≡ false) (sentence words)
no_semicolon words h = All-sentence (λ c. (c == b';') ≡ false) (λ c q. q.1) refl words h

plain_no_newline : (c : ℕ) → IsPlain c → (c == 10) ≡ false
unfolding is_space
plain_no_newline c (h, _) = ground arith

pub no_newline : (words : List Text) → All IsWord words → All (λ c. (c == 10) ≡ false) (line words)
no_newline words h =
    All-append (λ c. (c == 10) ≡ false) (sentence words) (b';' ∷ [])
      (All-sentence (λ c. (c == 10) ≡ false) plain_no_newline refl words h) (refl, tt)

pub sentence_begins :
    (words : List Text)
    → words ≢ []
    → All IsWord words
    → (c : ℕ) × (t : Text) × (sentence words ≡ c ∷ t) × (is_space c ≡ false)
unfolding join
sentence_begins [] some_word h = absurd (some_word refl)
sentence_begins ([] ∷ words) some_word (hw, h) = absurd (hw.0 refl)
sentence_begins ((c ∷ w) ∷ []) some_word (hw, h) = (c, w, refl, hw.1.0.0)
sentence_begins ((c ∷ w) ∷ v ∷ words) some_word (hw, h) =
    (c, w ++ (b' ' ∷ sentence (v ∷ words)), refl, hw.1.0.0)
