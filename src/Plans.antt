-- ===== src/Plans.antt =====
-- plans.go: the service catalog and its validation.
pub mod Checked
use osb_opengauss_go.Prelude.{
  ℕ, suc, ◌+◌, Bool, true, false, ◌&&◌, ◌||◌, not, List, [], ◌∷◌, ◌++◌, map, Text, codes, ltb, leb,
  ◌==◌, if◌then◌else◌, length, ℤ, pos, ltb_ℤ, text_eq, contains, quoted, format_nat, format_int,
}
use osb_opengauss_go.Result.{
  Fault, message, wrapped, Result, ok, err, annotate, ◌>>=◌, ◌>>◌, fail_if,
}
use osb_opengauss_go.Value.{Fields}
use osb_opengauss_go.Params.{Plan}
use osb_opengauss_go.Params.Schemas.{instance_schema, updatable_schema, binding_schema}

pub record ServiceConfig : Type 0 where
  pub service_id : Text
  pub name : Text
  pub display_name : Text
  pub description : Text
  pub provider : Text
  pub docs_url : Text
  pub support_url : Text
  pub tags : List Text

pub record CatalogData : Type 0 where
  pub service : ServiceConfig
  pub plans : List Plan

-- uuidPattern, read group by group: the lengths of the runs of hexadecimal digits
unfoldable pub is_hex : ℕ → Bool
is_hex c = (leb b'0' c && leb c b'9') || (leb b'a' c && leb c b'f')

-- Matches a run of `n` digits, and then `groups`, each behind a hyphen, to the end of the text.
unfoldable pub match_groups : ℕ → List ℕ → Text → Bool
unfolding is_hex
match_groups ℕ.zero [] [] = true
match_groups ℕ.zero (g ∷ gs) [] = false
match_groups (suc n) groups [] = false
match_groups ℕ.zero [] (c ∷ s) = false
match_groups ℕ.zero (g ∷ gs) (c ∷ s) = (c == b'-') && match_groups g gs s
match_groups (suc n) groups (c ∷ s) = is_hex c && match_groups n groups s

unfoldable pub is_uuid : Text → Bool
unfolding match_groups
is_uuid = match_groups 8 (4 ∷ 4 ∷ 4 ∷ 12 ∷ [])

unfoldable pub validate_service : ServiceConfig → Text → Result Fault (Unit {0})
unfolding is_uuid
validate_service svc path =
    if text_eq svc.service_id []
    then err (message (codes "plans file " ++ path ++ codes " is missing service_id"))
    else if not (is_uuid svc.service_id)
    then err
        (message (codes "service_id " ++ quoted svc.service_id ++ codes " is not a valid UUID"))
    else if text_eq svc.name []
    then err (message (codes "plans file " ++ path ++ codes " is missing service name"))
    else if text_eq svc.description []
    then err (message (codes "plans file " ++ path ++ codes " is missing service description"))
    else ok tt

-- the switch in the loop of validatePlans
unfoldable pub check_plan : ℕ → List Text → List Text → Plan → Text → Result Fault (Unit {0})
unfolding is_uuid
check_plan i seen_ids seen_names plan path =
    if text_eq plan.id [] || text_eq plan.name [] || text_eq plan.description []
    then err (
        message (
          codes "plan #"
          ++ format_nat (i + 1)
          ++ codes " in "
          ++ path
          ++ codes " is missing id, name or description"))
    else if not (is_uuid plan.id)
    then err (
        message (
          codes "plan "
          ++ quoted plan.name
          ++ codes " id "
          ++ quoted plan.id
          ++ codes " is not a valid UUID"))
    else if contains seen_ids plan.id
    then err (message (codes "duplicate plan id " ++ quoted plan.id ++ codes " in " ++ path))
    else if contains seen_names plan.name
    then err (message (codes "duplicate plan name " ++ quoted plan.name ++ codes " in " ++ path))
    else if ltb_ℤ plan.storage_gb (pos 1) || ltb_ℤ plan.max_connections (pos 1)
    then err (
        message (
          codes "plan "
          ++ quoted plan.name
          ++ codes " in "
          ++ path
          ++ codes ": quota values must be positive integers"))
    else ok tt

-- `for i, plan := range plans`
unfoldable pub check_plans : ℕ → List Text → List Text → List Plan → Text → Result Fault (Unit {0})
unfolding check_plan
check_plans i seen_ids seen_names [] path = ok tt
check_plans i seen_ids seen_names (plan ∷ plans) path = do
  check_plan i seen_ids seen_names plan path
  check_plans (i + 1) (plan.id ∷ seen_ids) (plan.name ∷ seen_names) plans path

unfoldable pub validate_plans : List Plan → Text → Result Fault (Unit {0})
unfolding check_plans
validate_plans plans path =
    if length plans == 0
    then err (message (codes "plans file " ++ path ++ codes " contains no [[plan]] entries"))
    else check_plans 0 [] [] plans path

-- domain.Service and its parts, as far as they are filled in
pub record ServicePlan (F : Type 0) : Type 0 where
  pub id : Text
  pub name : Text
  pub description : Text
  pub display_name : Text
  pub bullets : List Text
  pub instance_create : Fields F
  pub instance_update : Fields F
  pub binding_create : Fields F

pub record Service (F : Type 0) : Type 0 where
  pub id : Text
  pub name : Text
  pub description : Text
  pub bindable : Bool
  pub instances_retrievable : Bool
  pub bindings_retrievable : Bool
  pub tags : List Text
  pub plan_updatable : Bool
  pub plans : List (ServicePlan F)
  pub display_name : Text
  pub provider_display_name : Text
  pub documentation_url : Text
  pub support_url : Text

-- `if displayName == "" { displayName = name }`
unfoldable pub display_or : Text → Text → Text
display_or [] name = name
display_or (c ∷ s) name = c ∷ s

module _ {F : Type 0} where
  unfoldable pub catalog_plan : Plan → ServicePlan F
  unfolding display_or
  catalog_plan plan = record {
    id = plan.id;
    name = plan.name;
    description = plan.description;
    display_name = display_or plan.display_name plan.name;
    bullets =
        (format_int plan.storage_gb ++ codes " GB storage (tablespace MAXSIZE)")
        ∷ (codes "up to " ++ format_int plan.max_connections ++ codes " concurrent connections")
        ∷ [];
    instance_create = instance_schema plan;
    instance_update = updatable_schema plan;
    binding_create = binding_schema;
  }

  unfoldable pub catalog : CatalogData → List (Service F)
  unfolding catalog_plan display_or
  catalog c =
      record {
        id = c.service.service_id;
        name = c.service.name;
        description = c.service.description;
        bindable = true;
        instances_retrievable = true;
        bindings_retrievable = true;
        tags = c.service.tags;
        plan_updatable = true;
        plans = map catalog_plan c.plans;
        display_name = display_or c.service.display_name c.service.name;
        provider_display_name = c.service.provider;
        documentation_url = c.service.docs_url;
        support_url = c.service.support_url;
      }
      ∷ []

-- os.ReadFile and toml.Unmarshal into a CatalogData
pub record Toml : Type 0 where
  pub read_file : Text → Result Fault Text
  pub unmarshal : Text → Result Fault CatalogData

unfoldable pub load_catalog : Toml → Text → Result Fault CatalogData
unfolding validate_service validate_plans
load_catalog toml path = do
  raw ← annotate (codes "plans file not readable") (toml.read_file path)
  c ← annotate (codes "plans file " ++ path ++ codes " is not valid TOML") (toml.unmarshal raw)
  validate_service c.service path
  validate_plans c.plans path
  ok c
