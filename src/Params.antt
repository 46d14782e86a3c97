-- ===== src/Params.antt =====
-- params.go and validate.go: what a valid request looks like.
pub mod Bounds
pub mod Schemas
use osb_opengauss_go.Prelude.{
  ℕ, ◌≡◌, Bool, true, false, ◌&&◌, ◌||◌, not, Option, none, some, List, [], ◌∷◌, ◌++◌, Text, codes,
  if◌then◌else◌, ℤ, pos, text_eq, contains, join, format_int,
}
use osb_opengauss_go.Result.{
  Fault, message, wrapped, Result, ok, err, annotate, ◌>>=◌, ◌>>◌, fail_if,
}
use osb_opengauss_go.Value.{
  Float64, Value, null, boolean, number, int, str, strings, obj, Fields, end, field, get_field,
  sprint,
}

-- the Plan struct, of plans.go
pub record Plan : Type 0 where
  pub id : Text
  pub name : Text
  pub display_name : Text
  pub description : Text
  pub storage_gb : ℤ
  pub max_connections : ℤ

abbrev pub compatibilities : List Text
compatibilities = codes "PG" ∷ codes "A" ∷ codes "B" ∷ codes "C" ∷ []

abbrev pub encodings : List Text
encodings = codes "UTF8" ∷ codes "GBK" ∷ codes "GB18030" ∷ codes "Latin1" ∷ []

pub record InstanceParams : Type 0 where
  pub name : Text
  pub compatibility : Text
  pub encoding : Text
  pub max_connections : ℤ
  pub storage_gb : ℤ

pub record BindingParams : Type 0 where
  pub name : Text

-- encoding/json, as the program calls it.
pub record Json (F : Type 0) : Type 0 where
  -- json.Unmarshal(raw, &params) into an empty map[string]any
  pub unmarshal : Text → Result Fault (Fields F)
  -- json.Marshal of a map[string]string
  pub marshal_strings : List (Text × Text) → Result Fault Text
  -- json.Unmarshal into a map[string]string
  pub unmarshal_strings : Text → Result Fault (List (Text × Text))

-- gojsonschema: the messages of result.Errors(); the document is valid if there is none.
pub record JsonSchema (F : Type 0) : Type 0 where
  pub validate : Fields F → Text → Result Fault (List Text)

module _ {F : Type 0} (json : Json F) where
  unfoldable pub raw_parameters : Text → Result Fault (Fields F)
  raw_parameters [] = ok end
  raw_parameters (c ∷ raw) =
      annotate (codes "parameters are not a valid JSON object") (json.unmarshal (c ∷ raw))

abbrev pub out_of_bounds : Text → ℤ → Text
out_of_bounds key maximum =
    codes "'" ++ key ++ codes "' must be a whole number between 1 and " ++ format_int maximum

module _ {F : Type 0} (float : Float64 F) where
  unfoldable pub is_bounded : F → ℤ → Bool
  is_bounded v maximum =
      float.eq v (float.of_int (float.to_int v))
      && float.le (float.of_int (pos 1)) v
      && float.le v (float.of_int maximum)

  -- boundedInt, for what the map holds under the key
  unfoldable pub read_bounded : Text → ℤ → ℤ → Option (Value F) → Result Fault ℤ
  unfolding is_bounded
  read_bounded key fallback maximum none = ok fallback
  read_bounded key fallback maximum (some (number v)) =
      if is_bounded v maximum
      then ok (float.to_int v)
      else err (message (out_of_bounds key maximum))
  read_bounded key fallback maximum (some _) = err (message (out_of_bounds key maximum))

  unfoldable pub bounded_int : Fields F → Text → ℤ → ℤ → Result Fault ℤ
  unfolding read_bounded
  bounded_int params key fallback maximum = read_bounded key fallback maximum (get_field params key)

  -- `if v, ok := params[key]; ok { x = fmt.Sprint(v); … }` with the check of the result
  unfoldable pub read_choice : Text → Text → List Text → Option (Value F) → Result Fault Text
  read_choice key fallback allowed none = ok fallback
  read_choice key fallback allowed (some v) =
      if contains allowed (sprint float v)
      then ok (sprint float v)
      else err (
          message (
            codes "'"
            ++ key
            ++ codes "' must be one of ["
            ++ join allowed (codes " ")
            ++ codes "]"))

  unfoldable pub one_of : Fields F → Text → Text → List Text → Result Fault Text
  unfolding read_choice
  one_of params key fallback allowed = read_choice key fallback allowed (get_field params key)

  unfoldable pub name_of : Fields F → Text
  name_of params = elim (get_field params (codes "name")) [ none ↦ [] | some v ↦ sprint float v ]

  unfoldable pub resolve_instance_params : Plan → Fields F → Result Fault InstanceParams
  unfolding one_of name_of bounded_int
  resolve_instance_params plan params = do
    compatibility ← one_of params (codes "compatibility") (codes "PG") compatibilities
    encoding ← one_of params (codes "encoding") (codes "UTF8") encodings
    let name = name_of params
    max_connections ←
        bounded_int params (codes "max_connections") plan.max_connections plan.max_connections
    storage_gb ← bounded_int params (codes "storage_gb") plan.storage_gb plan.storage_gb
    ok (record {
      name = name;
      compatibility = compatibility;
      encoding = encoding;
      max_connections = max_connections;
      storage_gb = storage_gb;
    })
