-- ===== src/Broker/Entries.antt =====
-- A map from ids to records, before and after one entry was set or removed.
use osb_opengauss_go.Prelude.{
  ◌≡◌, sym, ◌∙◌, subst, ◌≢◌, Option, none, some, Text, false, if◌then◌else◌, text_eq, text_eq_sound,
  inl, inr, Bool-cases, ◌⊎◌,
}

-- an entry of a map after one key was set: the new value, or an entry of the map before
entry_cases :
    {A : Type 0} (f f' : Text → Option A) (id : Text) (o : Option A) (k : Text) (r : A)
    → f' k ≡ (if text_eq id k then o else f k)
    → f' k ≡ some r
    → ((id ≡ k) × (o ≡ some r)) ⊎ ((text_eq id k ≡ false) × (f k ≡ some r))
entry_cases f f' id o k r set h = elim (Bool-cases (text_eq id k)) [
  | inl here ↦ inl (text_eq_sound id k here, sym (rw here at set) ∙ h)
  | inr other ↦ inr (other, sym (rw other at set) ∙ h)
]

-- an entry that was there is there still, perhaps with another value
pub still_there :
    {A : Type 0} (f f' : Text → Option A) (id : Text) (new : A) (k : Text) (r : A)
    → f' k ≡ (if text_eq id k then some new else f k)
    → f k ≡ some r
    → (x : A) × (f' k ≡ some x)
still_there f f' id new k r set h = elim (Bool-cases (text_eq id k)) [
  | inl here ↦ (new, rw here at set)
  | inr other ↦ (r, (rw other at set) ∙ h)
]

same_value : {A : Type 0} {x y : A} → some x ≡ some y → x ≡ y
same_value e = cc

-- what holds of the new value and of the entries before holds of the entries after
pub after_setting :
    {A : Type 0} (P : A → Type 0) (f f' : Text → Option A) (id : Text) (new : A) (k : Text) (r : A)
    → f' k ≡ (if text_eq id k then some new else f k)
    → (id ≡ k → P new)
    → (f k ≡ some r → P r)
    → f' k ≡ some r
    → P r
after_setting P f f' id new k r set at_new before h =
    elim (entry_cases f f' id (some new) k r set h) [
      | inl (here, e) ↦ subst P (same_value e) (at_new here)
      | inr (_, e) ↦ before e
    ]

-- an entry after one key was removed is an entry of the map before, under another key
pub after_removing :
    {A : Type 0} (f f' : Text → Option A) (id k : Text) (r : A)
    → f' k ≡ (if text_eq id k then none else f k)
    → f' k ≡ some r
    → f k ≡ some r
after_removing f f' id k r set h = elim (entry_cases f f' id none k r set h) [
  | inl (_, e) ↦ cc
  | inr (_, e) ↦ e
]

-- removing one key leaves the entry of another
pub kept :
    {A : Type 0} (f : Text → Option A) (id k : Text)
    → k ≢ id
    → (if text_eq id k then none else f k) ≡ f k
kept f id k apart = elim (Bool-cases (text_eq id k)) [
  | inl here ↦ absurd (apart (sym (text_eq_sound id k here)))
  | inr other ↦ rw other
]
