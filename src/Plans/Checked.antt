-- ===== src/Plans/Checked.antt =====
-- What the tests of the plans file guarantee of a catalog that was loaded.
use osb_opengauss_go.Prelude.{
  ◌≡◌, ◌≢◌, refl, subst, Bool, true, false, ◌||◌, not, [], ◌∷◌, Text, ℕ, ◌+◌, arith, codes, text_eq,
  text_eq_iff, All, length, ◌==◌, inl, inr, List, contains, In, ◌⊎◌, pos, ◌≤ℤ◌, map, ℤ, ltb_ℤ, ◌++◌,
  if◌then◌else◌,
}
use osb_opengauss_go.Result.{Result, ok, err, ok-injective, bind-eq-ok, annotate}
use osb_opengauss_go.Params.{Plan}
use osb_opengauss_go.Plans.{
  CatalogData, ServiceConfig, is_uuid, validate_service, check_plan, check_plans, validate_plans,
  Toml, load_catalog,
}

-- a plan that can be offered
pub record IsOffered (p : Plan) : Type 0 where
  pub uuid : is_uuid p.id ≡ true
  pub named : p.name ≢ []
  pub described : p.description ≢ []
  pub some_storage : pos 1 ≤ℤ p.storage_gb
  pub some_connections : pos 1 ≤ℤ p.max_connections

-- no text stands twice in the list
abbrev pub IsDistinct : List Text → Type 0
IsDistinct [] = Unit {0}
IsDistinct (s ∷ l) = (In s l → ⊥) × IsDistinct l

-- plans that can be offered together
pub record AreOffered (plans : List Plan) : Type 0 where
  pub each : All IsOffered plans
  pub ids : IsDistinct (map (λ p. p.id) plans)
  pub names : IsDistinct (map (λ p. p.name) plans)

if-eq-ok :
    {E A : Type 0} (b : Bool) (e : E) (k : Result E A) {a : A}
    → (if b then err e else k) ≡ ok a
    → (b ≡ false) × (k ≡ ok a)
if-eq-ok true e k h = cc
if-eq-ok false e k h = (refl, h)

In-contains : (l : List Text) (s : Text) → In s l → contains l s ≡ true
unfolding contains
In-contains [] s h = absurd h
In-contains (x ∷ xs) s (inl e) = ground (arith, text_eq_iff x s)
In-contains (x ∷ xs) s (inr h) = ground (arith, In-contains xs s h)

quotas_some : (a b : ℤ) → (ltb_ℤ a (pos 1) || ltb_ℤ b (pos 1)) ≡ false → (pos 1 ≤ℤ a) × (pos 1 ≤ℤ b)
quotas_some a b h = (ground arith, ground arith)

module _ (i : ℕ) (seen_ids seen_names : List Text) (p : Plan) (path : Text) where
  check_plan-IsOffered :
      check_plan i seen_ids seen_names p path ≡ ok tt
      → IsOffered p × (contains seen_ids p.id ≡ false) × (contains seen_names p.name ≡ false)
  unfolding check_plan
  check_plan-IsOffered h =
      let (missing, h1) =
        if-eq-ok (text_eq p.id [] || text_eq p.name [] || text_eq p.description []) _ _ h in
      let (uuid, h2) = if-eq-ok (not (is_uuid p.id)) _ _ h1 in
      let (new_id, h3) = if-eq-ok (contains seen_ids p.id) _ _ h2 in
      let (new_name, h4) = if-eq-ok (contains seen_names p.name) _ _ h3 in
      let (quotas, h5) =
        if-eq-ok (ltb_ℤ p.storage_gb (pos 1) || ltb_ℤ p.max_connections (pos 1)) _ _ h4 in
      (
        record {
          uuid = ground arith;
          named = λ e. ground (arith, text_eq_iff p.name []);
          described = λ e. ground (arith, text_eq_iff p.description []);
          some_storage = (quotas_some p.storage_gb p.max_connections quotas).0;
          some_connections = (quotas_some p.storage_gb p.max_connections quotas).1;
        },
        new_id,
        new_name,
      )

-- keys that are neither `s` nor seen before
unseen :
    (key : Plan → Text) (s : Text) (seen : List Text) (plans : List Plan)
    → All (λ p. contains (s ∷ seen) (key p) ≡ false) plans
    → (In s (map key plans) → ⊥) × All (λ p. contains seen (key p) ≡ false) plans
unfolding contains
unseen key s seen [] h = (λ m. m, tt)
unseen key s seen (p ∷ ps) (hp, hs) =
    let (out, rest) = unseen key s seen ps hs in (other out, (ground arith, rest))
  where
    other : (In s (map key ps) → ⊥) → (s ≡ key p) ⊎ In s (map key ps) → ⊥
    other out (inl e) = ground (arith, text_eq_iff s (key p))
    other out (inr m) = out m

check_plans-AreOffered :
    (i : ℕ) (seen_ids seen_names : List Text) (plans : List Plan) (path : Text)
    → check_plans i seen_ids seen_names plans path ≡ ok tt
    → AreOffered plans
      × All (λ p. contains seen_ids p.id ≡ false) plans
      × All (λ p. contains seen_names p.name ≡ false) plans
unfolding check_plans
check_plans-AreOffered i ids names [] path h = (record { each = tt; ids = tt; names = tt }, tt, tt)
check_plans-AreOffered i ids names (p ∷ plans) path h =
    let (u, h1, h2) = bind-eq-ok (check_plan i ids names p path) _ h in
    let (good, new_id, new_name) = check_plan-IsOffered i ids names p path h1 in
    let (rest, other_ids, other_names) =
      check_plans-AreOffered (i + 1) (p.id ∷ ids) (p.name ∷ names) plans path h2 in
    let (own_id, unseen_ids) = unseen (λ q. q.id) p.id ids plans other_ids in
    let (own_name, unseen_names) = unseen (λ q. q.name) p.name names plans other_names in
    (
      record { each = (good, rest.each); ids = (own_id, rest.ids); names = (own_name, rest.names) },
      (new_id, unseen_ids),
      (new_name, unseen_names),
    )

-- A catalog that `LoadCatalog` returns, whatever the file and the TOML reader are, has a service
-- with a UUID, and at least one plan; each plan has a UUID, a name, a description and quotas of at
-- least 1, and no two plans share an id or a name.
pub load_catalog-AreOffered :
    (toml : Toml) (path : Text) (c : CatalogData)
    → load_catalog toml path ≡ ok c
    → (is_uuid c.service.service_id ≡ true) × (c.plans ≢ []) × AreOffered c.plans
unfolding load_catalog validate_service validate_plans
load_catalog-AreOffered toml path c h =
    let (raw, e1, h1) =
      bind-eq-ok (annotate (codes "plans file not readable") (toml.read_file path)) _ h in
    let (d, e2, h2) =
      bind-eq-ok
        (annotate (codes "plans file " ++ path ++ codes " is not valid TOML") (toml.unmarshal raw))
        _ h1 in
    let (u, service, h3) = bind-eq-ok (validate_service d.service path) _ h2 in
    let (w, plans, h4) = bind-eq-ok (validate_plans d.plans path) _ h3 in
    let (some_plan, checked) = if-eq-ok (length d.plans == 0) _ _ plans in
    let (missing, s1) = if-eq-ok (text_eq d.service.service_id []) _ _ service in
    let (uuid, s2) = if-eq-ok (not (is_uuid d.service.service_id)) _ _ s1 in
    subst (λ k. (is_uuid k.service.service_id ≡ true) × (k.plans ≢ []) × AreOffered k.plans)
      (ok-injective h4)
      (
        not-false _ uuid,
        nonempty d.plans some_plan,
        (check_plans-AreOffered 0 [] [] d.plans path checked).0,
      )
  where
    not-false : (b : Bool) → not b ≡ false → b ≡ true
    not-false true e = refl
    not-false false e = cc

    nonempty : (ps : List Plan) → (length ps == 0) ≡ false → ps ≢ []
    nonempty [] e = cc
    nonempty (p ∷ ps) e = cc

-- a service that can be offered
pub record IsNamed (s : ServiceConfig) : Type 0 where
  pub uuid : is_uuid s.service_id ≡ true
  pub named : s.name ≢ []
  pub described : s.description ≢ []

validate_service-IsNamed :
    (s : ServiceConfig) (path : Text) → validate_service s path ≡ ok tt → IsNamed s
unfolding validate_service
validate_service-IsNamed s path h =
    let (missing, h1) = if-eq-ok (text_eq s.service_id []) _ _ h in
    let (uuid, h2) = if-eq-ok (not (is_uuid s.service_id)) _ _ h1 in
    let (named, h3) = if-eq-ok (text_eq s.name []) _ _ h2 in
    let (described, h4) = if-eq-ok (text_eq s.description []) _ _ h3 in
    record {
      uuid = ground arith;
      named = λ e. ground (arith, text_eq_iff s.name []);
      described = λ e. ground (arith, text_eq_iff s.description []);
    }

pub load_catalog-IsNamed :
    (toml : Toml) (path : Text) (c : CatalogData)
    → load_catalog toml path ≡ ok c
    → IsNamed c.service
unfolding load_catalog
load_catalog-IsNamed toml path c h =
    let (raw, e1, h1) =
      bind-eq-ok (annotate (codes "plans file not readable") (toml.read_file path)) _ h in
    let (d, e2, h2) =
      bind-eq-ok
        (annotate (codes "plans file " ++ path ++ codes " is not valid TOML") (toml.unmarshal raw))
        _ h1 in
    let (u, service, h3) = bind-eq-ok (validate_service d.service path) _ h2 in
    let (w, plans, h4) = bind-eq-ok (validate_plans d.plans path) _ h3 in
    subst (λ (k : CatalogData). IsNamed k.service) (ok-injective h4)
      (validate_service-IsNamed d.service path service)
