-- ===== src/Result.antt =====
-- Go's `(value, error)` results, and methods that also change state.
-- A `Fault` is a plain Go error. What Go's `panic` does, and a loop that is still running when its
-- fuel is spent, come back as faults of their own: like the others they end the request.
use osb_opengauss_go.Prelude.{◌≡◌, refl, ◌⊎◌, inl, inr, [], ◌++◌, Bool, true, false, Text, codes}

pub data Fault : Type 0 where
  -- errors.New(text), fmt.Errorf with no %w
  message : Text → Fault
  -- fmt.Errorf("text: %w", err)
  wrapped : Text → Fault → Fault
  -- AlreadyExistsError{Message}
  already_exists : Text → Fault
  -- gorm.ErrRecordNotFound
  record_not_found : Text → Fault
  -- an error of a library or of a server, with its message
  external : Text → Fault
  panic : Text → Fault
  still_running : Fault

-- err.Error()
unfoldable pub error_text : Fault → Text
error_text (message t) = t
error_text (wrapped t e) = t ++ codes ": " ++ error_text e
error_text (already_exists t) = t
error_text (record_not_found t) = t
error_text (external t) = t
error_text (panic t) = t
error_text still_running = []

-- errors.As(err, &AlreadyExistsError)
unfoldable pub is_already_exists : Fault → Bool
is_already_exists (already_exists t) = true
is_already_exists (wrapped t e) = is_already_exists e
is_already_exists _ = false

-- errors.Is(err, gorm.ErrRecordNotFound)
unfoldable pub is_not_found : Fault → Bool
is_not_found (record_not_found t) = true
is_not_found (wrapped t e) = is_not_found e
is_not_found _ = false

pub data Result (E A : Type 0) : Type 0 where
  ok : A → Result E A
  err : E → Result E A

-- if err != nil { return fmt.Errorf("text: %w", err) }
abbrev pub annotate : {A : Type 0} → Text → Result Fault A → Result Fault A
annotate t (ok a) = ok a
annotate t (err e) = err (wrapped t e)

abbrev pub map_err : {E F A : Type 0} → (E → F) → Result E A → Result F A
map_err f (ok a) = ok a
map_err f (err e) = err (f e)

-- the chain of steps that each may fail
infixl 5 ◌>>=◌ ◌>>◌
abbrev pub ◌>>=◌ : {E A B : Type 0} → Result E A → (A → Result E B) → Result E B
ok a >>= f = f a
err e >>= f = err e

abbrev pub ◌>>◌ : {E B : Type 0} → Result E (Unit {0}) → Result E B → Result E B
m >> k = m >>= λ _. k

-- An `if` that returns the error.
abbrev pub fail_if : {E : Type 0} → Bool → E → Result E (Unit {0})
fail_if true e = err e
fail_if false e = ok tt

pub ok-injective : {E A : Type 0} {a b : A} → ◌≡◌ {A = Result E A} (ok a) (ok b) → a ≡ b
ok-injective h = cc

-- Inversion of a chain that succeeds.
pub bind-eq-ok :
    {E A B : Type 0} (m : Result E A) (f : A → Result E B) {b : B}
    → (m >>= f) ≡ ok b
    → (a : A) × (m ≡ ok a) × (f a ≡ ok b)
bind-eq-ok (ok a) f h = (a, refl, h)
bind-eq-ok (err e) f h = cc

pub err≢ok : {E A : Type 0} {e : E} {a : A} → ◌≡◌ {A = Result E A} (err e) (ok a) → ⊥
err≢ok h = cc

pub map_err-eq-ok :
    {E F A : Type 0} (g : E → F) (r : Result E A) {a : A} → map_err g r ≡ ok a → r ≡ ok a
map_err-eq-ok g (ok b) h = cc
map_err-eq-ok g (err e) h = cc

pub fail_if-eq-ok :
    {E A : Type 0} (b : Bool) (e : E) (k : Result E A) {a : A}
    → (fail_if b e >> k) ≡ ok a
    → (b ≡ false) × (k ≡ ok a)
fail_if-eq-ok true e k h = cc
fail_if-eq-ok false e k h = (refl, h)

pub annotate-eq-ok :
    {A : Type 0} (t : Text) (r : Result Fault A) {a : A} → annotate t r ≡ ok a → r ≡ ok a
annotate-eq-ok t (ok b) h = cc
annotate-eq-ok t (err e) h = cc

pub Result-cases :
    {E A : Type 0} (r : Result E A) → ((a : A) × (r ≡ ok a)) ⊎ ((e : E) × (r ≡ err e))
Result-cases (ok a) = inl (a, refl)
Result-cases (err e) = inr (e, refl)
