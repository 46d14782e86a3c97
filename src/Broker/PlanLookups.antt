-- ===== src/Broker/PlanLookups.antt =====
-- The plan that a handler finds, and the parameters that a request resolves to in it.
use osb_opengauss_go.Prelude.{
  arith, false, not, ◌&&◌, ◌⊎◌, ◌≡◌, subst, List, [], ◌∷◌, Text, All, text_eq, text_eq_sound, inl,
  inr, Bool-cases,
}
use osb_opengauss_go.Result.{Fault, Result, ok, err, map_err, err≢ok, ok-injective, map_err-eq-ok}
use osb_opengauss_go.Result
use osb_opengauss_go.Params.Schemas.{parse_params}
use osb_opengauss_go.Value.{Fields}
use osb_opengauss_go.Params.{Plan, InstanceParams}
use osb_opengauss_go.Params.Bounds.{HasQuotas, IsWithin, resolve-IsWithin}
use osb_opengauss_go.Broker.{Broker, find_plan}
use osb_opengauss_go.Broker.Handlers.{plan, requested_params}

pub plan_kept :
    (asked stored : Text)
    → (not (text_eq asked []) && not (text_eq asked stored)) ≡ false
    → (asked ≡ []) ⊎ (asked ≡ stored)
plan_kept asked stored h = ground (arith, text_eq_sound asked [], text_eq_sound asked stored)

module _ {F I B S R : Type 0} (b : Broker F I B S R) where
  pub plan_found :
      (ps : List Plan) (id : Text) (p : Plan)
      → All HasQuotas ps
      → find_plan ps id ≡ ok p
      → HasQuotas p × (p.id ≡ id)
  unfolding find_plan
  plan_found [] id p h e = absurd (err≢ok e)
  plan_found (x ∷ xs) id p (hx, hs) e = elim (Bool-cases (text_eq x.id id)) [
    | inl same ↦
        subst (λ q. HasQuotas q × (q.id ≡ id)) (ok-injective (rw same at e))
          (hx, text_eq_sound x.id id same)
    | inr other ↦ plan_found xs id p hs (rw other at e)
  ]

  pub plan_lem : (id : Text) (p : Plan) → plan b id ≡ ok p → find_plan b.catalog.plans id ≡ ok p
  unfolding plan
  plan_lem id p h = h

module _ {F I B S R : Type 0} (b : Broker F I B S R) (quotas : All HasQuotas b.catalog.plans) where
  pub IsWithin-plan :
      (schema : Fields F) (id raw : Text) (p : Plan) (spec : InstanceParams)
      → find_plan b.catalog.plans id ≡ ok p
      → requested_params b schema p raw ≡ ok spec
      → IsWithin p spec
  unfolding requested_params
  IsWithin-plan schema id raw p spec found h =
      let (params, parsed, resolved) =
        Result.bind-eq-ok (parse_params b.store.json b.schemas schema raw) _ h in
      resolve-IsWithin b.float p params spec (plan_found b b.catalog.plans id p quotas found).0
        resolved
