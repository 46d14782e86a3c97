-- ===== src/Names/Password.antt =====
-- `randomPassword` of names.go, over the entropy source.
use osb_opengauss_go.Prelude.{
  ℕ, zero, suc, Bool, true, false, ◌&&◌, [], ◌∷◌, Text, codes, leb, if◌then◌else◌, length,
}
use osb_opengauss_go.Result.{Fault, panic, still_running, error_text}
use osb_opengauss_go.Exec.{Exec, pure, raise, relabel, ◌>>=◌}
use osb_opengauss_go.Entropy.{Entropy}

abbrev pub password_alphabet : Text
password_alphabet =
    codes "abcdefghijklmnopqrstuvwxyzABCDEFGHIJKLMNOPQRSTUVWXYZ0123456789!#%*+-=?@^_~"

-- s[i], where the program's index is in range
unfoldable pub byte_at : Text → ℕ → ℕ
byte_at [] i = 0
byte_at (c ∷ s) zero = c
byte_at (c ∷ s) (suc i) = byte_at s i

pub record Classes : Type 0 where
  pub has_upper : Bool
  pub has_lower : Bool
  pub has_digit : Bool
  pub has_special : Bool

abbrev pub no_classes : Classes
no_classes = record { has_upper = false; has_lower = false; has_digit = false; has_special = false }

-- the switch in the loop over the password
unfoldable pub classify : Classes → ℕ → Classes
classify k c =
    if leb b'A' c && leb c b'Z'
    then record k { has_upper = true }
    else if leb b'a' c && leb c b'z'
    then record k { has_lower = true }
    else if leb b'0' c && leb c b'9'
    then record k { has_digit = true }
    else record k { has_special = true }

unfoldable pub classes_from : Classes → Text → Classes
unfolding classify
classes_from k [] = k
classes_from k (c ∷ s) = classes_from (classify k c) s

unfoldable pub is_complete : Text → Bool
unfolding classes_from
is_complete password =
    let k = classes_from no_classes password in
    k.has_upper && k.has_lower && k.has_digit && k.has_special

module _ {R : Type 0} (source : Entropy R) where
  -- an index into the alphabet; a failed read panics
  unfoldable pub draw_index : Exec R Fault ℕ
  draw_index = relabel (λ e. panic (error_text e)) (source.int (length password_alphabet))

  -- `for i := range password`
  unfoldable pub fill_password : ℕ → Exec R Fault Text
  unfolding draw_index byte_at
  fill_password zero = pure []
  fill_password (suc k) = do
    n ← draw_index
    rest ← fill_password k
    pure (byte_at password_alphabet n ∷ rest)

  -- the outer `for`, one unit of fuel for each round
  unfoldable pub random_password : ℕ → Exec R Fault Text
  unfolding fill_password is_complete
  random_password zero = raise still_running
  random_password (suc fuel) = do
    password ← fill_password 28
    let again = random_password fuel
    if is_complete password then pure password else again
