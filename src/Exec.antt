-- ===== src/Exec.antt =====
-- Methods that change state and may fail. What was written before a failure stays written, so the
-- state comes back beside the error too.
use osb_opengauss_go.Prelude.{◌≡◌, refl, Bool, true, false}
use osb_opengauss_go.Result.{Result, ok, err, map_err, map_err-eq-ok}

abbrev pub Exec : Type 0 → Type 0 → Type 0 → Type 0
Exec S E A = S → Result E A × S

module _ {S E A : Type 0} where
  abbrev pub pure : A → Exec S E A
  pure a s = (ok a, s)

  abbrev pub raise : E → Exec S E A
  raise e s = (err e, s)

  abbrev pub lift : Result E A → Exec S E A
  lift r s = (r, s)

abbrev pub continue : {S E A B : Type 0} → Result E A → (A → Exec S E B) → Exec S E B
continue (ok a) f s = f a s
continue (err e) f s = (err e, s)

infixl 5 ◌>>=◌ ◌>>◌
abbrev pub ◌>>=◌ : {S E A B : Type 0} → Exec S E A → (A → Exec S E B) → Exec S E B
◌>>=◌ m f s = continue (m s).0 f (m s).1

abbrev pub ◌>>◌ : {S E B : Type 0} → Exec S E (Unit {0}) → Exec S E B → Exec S E B
m >> k = m >>= λ _. k

-- `v, err := m()`, with the error in hand
abbrev pub attempt : {S E F A : Type 0} → Exec S E A → Exec S F (Result E A)
attempt m s = (ok (m s).0, (m s).1)

-- the same call, its error seen as an error of another kind
abbrev pub relabel : {S E F A : Type 0} → (E → F) → Exec S E A → Exec S F A
relabel g m s = (map_err g (m s).0, (m s).1)

-- `if b { return err }`
abbrev pub guard_not : {S E : Type 0} → Bool → E → Exec S E (Unit {0})
guard_not true e s = (err e, s)
guard_not false e s = (ok tt, s)

-- `if err := m(); err != nil { _ = undo(); return err }`: the undoing's own error is dropped
abbrev pub undone : {S E A B : Type 0} → Result E A → Exec S E B → Exec S E A
undone (ok a) undo s = (ok a, s)
undone (err e) undo s = (err e, (undo s).1)

abbrev pub or_undo : {S E A B : Type 0} → Exec S E A → Exec S E B → Exec S E A
or_undo m undo s = undone (m s).0 undo (m s).1

-- Inversion of a chain that succeeds.
continue-eq-ok :
    {S E A B : Type 0} (r : Result E A) (f : A → Exec S E B) (s : S) {b : B}
    → (continue r f s).0 ≡ ok b
    → (a : A) × (r ≡ ok a) × ((f a s).0 ≡ ok b)
continue-eq-ok (ok a) f s h = (a, refl, h)
continue-eq-ok (err e) f s h = cc

pub bind-eq-ok :
    {S E A B : Type 0} (m : Exec S E A) (f : A → Exec S E B) (s : S) {b : B}
    → ((m >>= f) s).0 ≡ ok b
    → (a : A) × ((m s).0 ≡ ok a) × ((f a (m s).1).0 ≡ ok b)
bind-eq-ok m f s h = continue-eq-ok (m s).0 f (m s).1 h

pub relabel-eq-ok :
    {S E F A : Type 0} (g : E → F) (m : Exec S E A) (s : S) {a : A}
    → (relabel g m s).0 ≡ ok a
    → (m s).0 ≡ ok a
relabel-eq-ok g m s h = map_err-eq-ok g (m s).0 h

-- A chain ends where its rest does, or, if the first part fails, where that did.
pub continue_end :
    {S E A B : Type 0} (P : S → Type 0) (r : Result E A) (f : A → Exec S E B) (s : S)
    → ((a : A) → r ≡ ok a → P (f a s).1)
    → ((e : E) → r ≡ err e → P s)
    → P (continue r f s).1
continue_end P (ok a) f s rest stop = rest a refl
continue_end P (err e) f s rest stop = stop e refl

pub guard_not-eq-ok :
    {S E : Type 0} (c : Bool) (e : E) (s : S) {u : Unit {0}}
    → (guard_not c e s).0 ≡ ok u
    → c ≡ false
guard_not-eq-ok true e s h = cc
guard_not-eq-ok false e s h = refl
