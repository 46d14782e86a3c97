-- ===== src/Params/Schemas.antt =====
-- The JSON schemas of params.go, `ValidateParameters` of validate.go and `parseParams` of broker.go.
use osb_opengauss_go.Prelude.{
  ◌||◌, List, [], ◌∷◌, ◌++◌, Text, codes, if◌then◌else◌, none, some, pos, text_eq, join, ℤ,
}
use osb_opengauss_go.Result.{Fault, message, Result, ok, err, annotate, ◌>>=◌, ◌>>◌}
use osb_opengauss_go.Value.{Value, null, int, str, strings, obj, Fields, end, field, get_field}
use osb_opengauss_go.Params.{Plan, Json, JsonSchema, compatibilities, encodings, raw_parameters}

-- the entries of a Go map literal
abbrev of_list : {F : Type 0} → List (Text × Value F) → Fields F
of_list [] = end
of_list ((k, v) ∷ l) = field k v (of_list l)

abbrev object_schema : {F : Type 0} → Fields F → Fields F
object_schema properties = of_list (
    (codes "$schema", str (codes "http://json-schema.org/draft-04/schema#"))
    ∷ (codes "properties", obj properties)
    ∷ (codes "type", str (codes "object"))
    ∷ [])

abbrev choice : {F : Type 0} → Text → List Text → Text → Fields F
choice default allowed description = of_list (
    (codes "default", str default)
    ∷ (codes "description", str description)
    ∷ (codes "enum", strings allowed)
    ∷ (codes "type", str (codes "string"))
    ∷ [])

abbrev quota : {F : Type 0} → ℤ → Text → Fields F
quota maximum description = of_list (
    (codes "default", int maximum)
    ∷ (codes "description", str description)
    ∷ (codes "maximum", int maximum)
    ∷ (codes "minimum", int (pos 1))
    ∷ (codes "type", str (codes "integer"))
    ∷ [])

abbrev free_text : {F : Type 0} → Text → Fields F
free_text description =
    of_list ((codes "description", str description) ∷ (codes "type", str (codes "string")) ∷ [])

module _ {F : Type 0} where
  unfoldable pub instance_properties : Plan → Fields F
  instance_properties plan = of_list (
      (
        codes "compatibility",
        obj (
            choice (codes "PG") compatibilities
              (codes "openGauss DBCOMPATIBILITY: PG=PostgreSQL, A=Oracle, B=MySQL, C=Teradata.")),
      )
      ∷ (
        codes "encoding",
        obj (
            choice (codes "UTF8") encodings
              (codes "Character set of the logical database (LC_COLLATE/LC_CTYPE stay 'C').")),
      )
      ∷ (
        codes "max_connections",
        obj (quota plan.max_connections (codes "CONNECTION LIMIT of the logical database.")),
      )
      ∷ (codes "name", obj (free_text (codes "Human-readable name for the database.")))
      ∷ (
        codes "storage_gb",
        obj (
            quota plan.storage_gb
              (codes "Storage quota of the logical database (tablespace MAXSIZE).")),
      )
      ∷ [])

  unfoldable pub instance_schema : Plan → Fields F
  unfolding instance_properties
  instance_schema plan = object_schema (instance_properties plan)

  -- properties[key], where a missing key reads as nil
  unfoldable pub entry : Fields F → Text → Value F
  unfolding get_field
  entry m key = elim (get_field m key) [ none ↦ null | some v ↦ v ]

  -- full["properties"].(map[string]any): the literal above has that field, and it is a map
  unfoldable pub properties_of : Fields F → Fields F
  unfolding entry
  properties_of full = elim (entry full (codes "properties")) [ obj m ↦ m | _ ↦ end ]

  unfoldable pub updatable_schema : Plan → Fields F
  unfolding instance_schema properties_of entry
  updatable_schema plan =
      let properties = properties_of (instance_schema plan) in
      object_schema (
        of_list (
          (codes "max_connections", entry properties (codes "max_connections"))
          ∷ (codes "storage_gb", entry properties (codes "storage_gb"))
          ∷ []))

  unfoldable pub binding_schema : Fields F
  binding_schema = object_schema (
      of_list
        ((codes "name", obj (free_text (codes "Human-readable name for the binding user."))) ∷ []))

module _ {F : Type 0} (json : Json F) (schemas : JsonSchema F) where
  -- an empty list of messages is a valid document
  unfoldable pub verdict : List Text → Result Fault (Unit {0})
  verdict [] = ok tt
  verdict (m ∷ ms) = err (message (codes "invalid parameters: " ++ join (m ∷ ms) (codes "; ")))

  unfoldable pub validate_parameters : Fields F → Text → Result Fault (Unit {0})
  unfolding verdict
  validate_parameters schema raw =
      if text_eq raw [] || text_eq raw (codes "null") then ok tt else do
        msgs ← annotate (codes "cannot validate parameters") (schemas.validate schema raw)
        verdict msgs

  unfoldable pub parse_params : Fields F → Text → Result Fault (Fields F)
  unfolding validate_parameters raw_parameters
  parse_params schema raw = do validate_parameters schema raw; raw_parameters json raw
