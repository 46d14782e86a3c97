-- ===== src/Base64/Bytes.antt =====
-- What is decoded are bytes.
use osb_opengauss_go.Prelude.{
  ℕ, ◌+◌, ◌*◌, ◌/◌, ◌%◌, ◌<◌, ◌≡◌, subst, Bool, true, false, ◌&&◌, [], ◌∷◌, Text, arith, ◌==◌, All,
  filter, not, if◌then◌else◌,
}
use osb_opengauss_go.Result.{Fault, Result, ◌>>=◌, ok, err≢ok, ok-injective, bind-eq-ok}
use osb_opengauss_go.Base64.{sextet, decode_last, decode_quads, decode}

abbrev pub IsBytes : Text → Type 0
IsBytes s = All (λ b. b < 256) s

sextet-lt : (c n : ℕ) → sextet c ≡ ok n → n < 64
unfolding sextet
sextet-lt c n h = ground arith

triple-IsBytes :
    (w x y z : ℕ)
    → w < 64
    → x < 64
    → y < 64
    → z < 64
    → ((w * 4 + x / 16) < 256) × ((x % 16 * 16 + y / 4) < 256) × ((y % 4 * 64 + z) < 256)
triple-IsBytes w x y z hw hx hy hz = (omega arith, omega arith, omega arith)

-- whatever the result holds are bytes
abbrev Gives : Result Fault Text → Type 0
Gives m = (t : Text) → m ≡ ok t → IsBytes t

Gives-ok : (s : Text) → IsBytes s → Gives (ok s)
Gives-ok s h t e = subst IsBytes (ok-injective e) h

Gives-if : (c : Bool) (m n : Result Fault Text) → Gives m → Gives n → Gives (if c then m else n)
Gives-if true m n hm hn = hm
Gives-if false m n hm hn = hn

Gives-sextet :
    (c : ℕ) (f : ℕ → Result Fault Text) → ((n : ℕ) → n < 64 → Gives (f n)) → Gives (sextet c >>= f)
Gives-sextet c f h t e =
    let (n, found, e') = bind-eq-ok (sextet c) f e in h n (sextet-lt c n found) t e'

decode_last-IsBytes : (p q r s : ℕ) → Gives (decode_last p q r s)
unfolding decode_last
decode_last-IsBytes p q r s = Gives-sextet p _ λ w hw. Gives-sextet q _ λ x hx.
    Gives-if (r == b'=' && s == b'=') _ _ (Gives-ok _ (omega arith, tt)) (
      Gives-sextet r _ λ y hy.
        Gives-if (s == b'=') _ _ (Gives-ok _ (omega arith, (omega arith, tt)))
          (Gives-sextet s _ λ z hz. Gives-ok _ (omega arith, (omega arith, (omega arith, tt)))))

decode_quads-IsBytes : (s t : Text) → decode_quads s ≡ ok t → IsBytes t
unfolding decode_quads
decode_quads-IsBytes [] t h = subst IsBytes (ok-injective h) tt
decode_quads-IsBytes (p ∷ []) t h = absurd (err≢ok h)
decode_quads-IsBytes (p ∷ q ∷ []) t h = absurd (err≢ok h)
decode_quads-IsBytes (p ∷ q ∷ r ∷ []) t h = absurd (err≢ok h)
decode_quads-IsBytes (p ∷ q ∷ r ∷ s ∷ []) t h = decode_last-IsBytes p q r s t h
decode_quads-IsBytes (p ∷ q ∷ r ∷ s ∷ u ∷ rest) t h =
    let (w, hw, h1) = bind-eq-ok (sextet p) _ h in
    let (x, hx, h2) = bind-eq-ok (sextet q) _ h1 in
    let (y, hy, h3) = bind-eq-ok (sextet r) _ h2 in
    let (z, hz, h4) = bind-eq-ok (sextet s) _ h3 in
    let (more, hm, h5) = bind-eq-ok (decode_quads (u ∷ rest)) _ h4 in
    let (a, b, c) =
      triple-IsBytes w x y z (sextet-lt p w hw) (sextet-lt q x hx) (sextet-lt r y hy)
        (sextet-lt s z hz) in
    subst IsBytes (ok-injective h5) (a, (b, (c, decode_quads-IsBytes (u ∷ rest) more hm)))

pub decode-IsBytes : (s t : Text) → decode s ≡ ok t → IsBytes t
unfolding decode
decode-IsBytes s t h = decode_quads-IsBytes (filter (λ c. not (c == 10) && not (c == 13)) s) t h
