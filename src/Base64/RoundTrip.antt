-- ===== src/Base64/RoundTrip.antt =====
-- Decoding gives back what was encoded.
use mathlib.Core.List.{cons-ne-nil}
use osb_opengauss_go.Prelude.{
  ℕ, ◌+◌, ◌*◌, ◌/◌, ◌%◌, ◌<◌, ◌≡◌, refl, ◌≢◌, ◌∙◌, ap, Bool, true, false, ◌&&◌, not, [], ◌∷◌, Text,
  arith, ◌==◌, filter, All,
}
use osb_opengauss_go.Result.{ok}
use osb_opengauss_go.Base64.{digit, sextet, encode, decode_last, decode_quads, decode}

module _ (n : ℕ) (h : n < 64) where
  sextet-digit : sextet (digit n) ≡ ok n
  unfolding sextet digit
  sextet-digit = ground arith

  digit-ne-pad : (digit n == b'=') ≡ false
  unfolding digit
  digit-ne-pad = ground arith

  digit_kept : (not (digit n == 10) && not (digit n == 13)) ≡ true
  unfolding digit
  digit_kept = ground arith

abbrev is_kept : ℕ → Bool
is_kept c = not (c == 10) && not (c == 13)

-- an encoded text holds no line break
filter-encode : (s : Text) → All (λ b. b < 256) s → filter is_kept (encode s) ≡ encode s
unfolding encode
filter-encode [] h = refl
filter-encode (a ∷ []) (ha, h) =
    rw (digit_kept (a / 4) (omega arith), digit_kept (a % 4 * 16) (omega arith))
filter-encode (a ∷ b ∷ []) (ha, (hb, h)) = rw (
  digit_kept (a / 4) (omega arith),
  digit_kept (a % 4 * 16 + b / 16) (omega arith),
  digit_kept (b % 16 * 4) (omega arith),
)
filter-encode (a ∷ b ∷ c ∷ s) (ha, (hb, (hc, h))) = rw (
  digit_kept (a / 4) (omega arith),
  digit_kept (a % 4 * 16 + b / 16) (omega arith),
  digit_kept (b % 16 * 4 + c / 64) (omega arith),
  digit_kept (c % 64) (omega arith),
  filter-encode s h,
)

module _ (w x y z : ℕ) (hw : w < 64) (hx : x < 64) (hy : y < 64) (hz : z < 64) where
  three_last :
      decode_last (digit w) (digit x) (digit y) (digit z)
      ≡ ok ((w * 4 + x / 16) ∷ (x % 16 * 16 + y / 4) ∷ (y % 4 * 64 + z) ∷ [])
  unfolding decode_last
  three_last = rw (
    sextet-digit w hw,
    sextet-digit x hx,
    digit-ne-pad y hy,
    sextet-digit y hy,
    digit-ne-pad z hz,
    sextet-digit z hz,
  )

  four_more :
      (t : Text) {u : Text}
      → t ≢ []
      → decode_quads t ≡ ok u
      → decode_quads (digit w ∷ digit x ∷ digit y ∷ digit z ∷ t)
        ≡ ok ((w * 4 + x / 16) ∷ (x % 16 * 16 + y / 4) ∷ (y % 4 * 64 + z) ∷ u)
  unfolding decode_quads
  four_more [] ne e = absurd (ne refl)
  four_more (c ∷ t) ne e =
      rw (sextet-digit w hw, sextet-digit x hx, sextet-digit y hy, sextet-digit z hz, e)

encode-ne-nil : (a : ℕ) (s : Text) → encode (a ∷ s) ≢ []
unfolding encode
encode-ne-nil a [] = cons-ne-nil _ _
encode-ne-nil a (b ∷ []) = cons-ne-nil _ _
encode-ne-nil a (b ∷ c ∷ s) = cons-ne-nil _ _

-- three bytes from the four sextets that they were cut into
module _ (a b c : ℕ) (ha : a < 256) (hb : b < 256) (hc : c < 256) where
  first_byte : a / 4 * 4 + (a % 4 * 16 + b / 16) / 16 ≡ a
  first_byte = omega arith

  second_byte : (a % 4 * 16 + b / 16) % 16 * 16 + (b % 16 * 4 + c / 64) / 4 ≡ b
  second_byte = omega arith

  third_byte : (b % 16 * 4 + c / 64) % 4 * 64 + c % 64 ≡ c
  third_byte = omega arith

decode_quads-encode : (s : Text) → All (λ b. b < 256) s → decode_quads (encode s) ≡ ok s
unfolding encode
decode_quads-encode [] h = unfold decode_quads in refl
decode_quads-encode (a ∷ []) (ha, h) =
    unfold decode_quads decode_last in
    rw (sextet-digit (a / 4) (omega arith), sextet-digit (a % 4 * 16) (omega arith))
      (ap (λ (t : ℕ). ok (t ∷ [])) (omega arith))
decode_quads-encode (a ∷ b ∷ []) (ha, (hb, h)) =
    unfold decode_quads decode_last in
    rw
      (
        sextet-digit (a / 4) (omega arith),
        sextet-digit (a % 4 * 16 + b / 16) (omega arith),
        digit-ne-pad (b % 16 * 4) (omega arith),
        sextet-digit (b % 16 * 4) (omega arith),
      )
      (ground arith)
decode_quads-encode (a ∷ b ∷ c ∷ []) (ha, (hb, (hc, h))) =
    unfold decode_quads in
    rw (
      three_last (a / 4) (a % 4 * 16 + b / 16) (b % 16 * 4 + c / 64) (c % 64) (omega arith)
          (omega arith) (omega arith) (omega arith),
      first_byte a b c ha hb hc,
      second_byte a b c ha hb hc,
      third_byte a b c ha hb hc,
    )
decode_quads-encode (a ∷ b ∷ c ∷ d ∷ s) (ha, (hb, (hc, h))) =
    four_more (a / 4) (a % 4 * 16 + b / 16) (b % 16 * 4 + c / 64) (c % 64) (omega arith)
      (omega arith) (omega arith) (omega arith) (encode (d ∷ s)) (encode-ne-nil d s)
      (decode_quads-encode (d ∷ s) h)
    ∙ rw (first_byte a b c ha hb hc, second_byte a b c ha hb hc, third_byte a b c ha hb hc)

-- Every list of bytes is read back from its base64 encoding.
pub decode-encode : (s : Text) → All (λ b. b < 256) s → decode (encode s) ≡ ok s
unfolding decode
decode-encode s h = rw (filter-encode s h) (decode_quads-encode s h)
