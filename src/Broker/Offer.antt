-- ===== src/Broker/Offer.antt =====
-- The published catalog and the plans that the handlers look up.
use osb_opengauss_go.Prelude.{
  ◌≡◌, refl, sym, ap, subst, ◌∙◌, inl, inr, Bool-cases, List, [], ◌∷◌, map, In, Text, text_eq,
  text_eq_iff, text_eq_refl,
}
use osb_opengauss_go.Result.{ok, ok-injective}
use osb_opengauss_go.Params.{Plan}
use osb_opengauss_go.Params.Schemas.{instance_schema, updatable_schema, binding_schema}
use osb_opengauss_go.Plans.{ServicePlan, Service, catalog_plan, catalog}
use osb_opengauss_go.Plans.Checked.{IsDistinct}
use osb_opengauss_go.Broker.{Broker, find_plan, services}
use osb_opengauss_go.Broker.Handlers.{plan}

-- the plan with an id, and what is published of it
abbrev pub Offers : {F : Type 0} → List Plan → ServicePlan F → Type 0
Offers plans s = (p : Plan) × (find_plan plans s.id ≡ ok p) × (s ≡ catalog_plan p)

In-map : {A C : Type 0} (f : A → C) (xs : List A) (x : A) → In x xs → In (f x) (map f xs)
In-map f [] x h = h
In-map f (y ∷ ys) x (inl e) = inl (ap f e)
In-map f (y ∷ ys) x (inr m) = inr (In-map f ys x m)

found-In :
    (plans : List Plan) (id : Text) (p : Plan)
    → find_plan plans id ≡ ok p
    → In p plans × (p.id ≡ id)
unfolding find_plan
found-In [] id p h = absurd cc
found-In (x ∷ xs) id p h = elim (Bool-cases (text_eq x.id id)) [
  | inl same ↦
      let here = ok-injective (rw same at h) in
      (inl (sym here), ap (λ (q : Plan). q.id) (sym here) ∙ (text_eq_iff x.id id).0 same)
  | inr other ↦ let (there, e) = found-In xs id p (rw other at h) in (inr there, e)
]

module _ {F : Type 0} where
  published-id :
      (plans : List Plan) (s : ServicePlan F)
      → In s (map catalog_plan plans)
      → In s.id (map (λ p. p.id) plans)
  unfolding catalog_plan
  published-id [] s h = h
  published-id (p ∷ ps) s (inl e) = inl (ap (λ (q : ServicePlan F). q.id) e)
  published-id (p ∷ ps) s (inr m) = inr (published-id ps s m)

  published-Offers :
      (plans : List Plan) (s : ServicePlan F)
      → IsDistinct (map (λ p. p.id) plans)
      → In s (map catalog_plan plans)
      → Offers plans s
  unfolding find_plan catalog_plan
  published-Offers [] s distinct h = absurd h
  published-Offers (p ∷ ps) s (alone, distinct) (inl e) = (
    p,
    subst (λ (q : ServicePlan F). find_plan (p ∷ ps) q.id ≡ ok p) (sym e) (rw text_eq_refl),
    e,
  )
  published-Offers (p ∷ ps) s (alone, distinct) (inr m) =
      let (q, found, same) = published-Offers ps s distinct m in
      elim (Bool-cases (text_eq p.id s.id)) [
        | inl clash ↦ absurd (
            alone (
              subst (λ t. In t (map (λ x. x.id) ps)) (sym ((text_eq_iff p.id s.id).0 clash))
                (published-id ps s m)))
        | inr other ↦ (q, rw (other, found), same)
      ]

-- what is published of a plan: its own id and texts, and the schemas of the requests for it
pub record IsPublished {F : Type 0} (p : Plan) (s : ServicePlan F) : Type 0 where
  pub id : s.id ≡ p.id
  pub name : s.name ≡ p.name
  pub description : s.description ≡ p.description
  pub to_create : s.instance_create ≡ instance_schema p
  pub to_update : s.instance_update ≡ updatable_schema p
  pub to_bind : s.binding_create ≡ binding_schema

catalog_plan-IsPublished : {F : Type 0} (p : Plan) → IsPublished {F = F} p (catalog_plan p)
unfolding catalog_plan
catalog_plan-IsPublished p = record {
  id = refl;
  name = refl;
  description = refl;
  to_create = refl;
  to_update = refl;
  to_bind = refl;
}

module _ {F I B S R : Type 0} (b : Broker F I B S R) where
  -- Where no two plans of the catalog share an id: a service that Services publishes has the id that
  -- the handlers ask for, and a plan that it offers is one that a request can name. The plan that
  -- its id finds is the one that is published, with its name and description, the schema by which
  -- Provision reads parameters for creating an instance, the schema by which Update reads them for
  -- updating one, and Bind's for a binding.
  pub services-Offers :
      (service : Service F) (s : ServicePlan F)
      → IsDistinct (map (λ p. p.id) b.catalog.plans)
      → In service (services b)
      → In s service.plans
      → (service.id ≡ b.catalog.service.service_id)
        × (p : Plan) × (plan b s.id ≡ ok p)
        × IsPublished p s
  unfolding services catalog plan
  services-Offers service s distinct (inl e) m =
      let (p, found, same) =
        published-Offers b.catalog.plans s distinct (subst (λ (q : Service F). In s q.plans) e m) in
      (
        ap (λ (q : Service F). q.id) e,
        p,
        found,
        subst (IsPublished p) (sym same) (catalog_plan-IsPublished p),
      )
  services-Offers service s distinct (inr h) m = absurd h

  -- A plan that an id finds is published, under that very id, by a service of Services that has the
  -- id and the name of the catalog's service, with the plan's name, description and schemas.
  pub plan-IsPublished :
      (id : Text) (p : Plan)
      → plan b id ≡ ok p
      → (service : Service F) × (s : ServicePlan F) × In service (services b)
        × In s service.plans
        × (service.id ≡ b.catalog.service.service_id)
        × (service.name ≡ b.catalog.service.name)
        × (s.id ≡ id)
        × IsPublished p s
  unfolding services catalog plan catalog_plan
  plan-IsPublished id p found =
      let (there, e) = found-In b.catalog.plans id p found in
      (
        _,
        catalog_plan p,
        inl refl,
        In-map catalog_plan b.catalog.plans p there,
        refl,
        refl,
        e,
        catalog_plan-IsPublished p,
      )
