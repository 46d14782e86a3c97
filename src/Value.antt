-- ===== src/Value.antt =====
-- Go's `any` as far as the program puts it to use: decoded JSON documents, and the JSON schemas
-- that are written as Go literals. A `map[string]any` is a `Fields`, its keys in ascending order
-- where the order can be seen (fmt prints maps so).
use osb_opengauss_go.Prelude.{
  ◌≡◌, ◌<◌, ◌^◌, Bool, true, false, Option, none, some, List, [], ◌++◌, Text, codes, if◌then◌else◌,
  ℤ, pos_part, neg_part, ◌≤ℤ◌, text_eq, join, format_int, ◌+◌, ◌⊎◌,
}

-- `F` stands for float64, whose arithmetic is the language's; the laws are those of IEEE 754.
pub record Float64 (F : Type 0) : Type 0 where
  -- float64(n)
  pub of_int : ℤ → F
  -- int(v)
  pub to_int : F → ℤ
  -- a == b
  pub eq : F → F → Bool
  -- a <= b
  pub le : F → F → Bool
  -- what fmt.Sprint prints
  pub format : F → Text
  -- equal numbers stand in the same order to a third
  pub le-eq_left : (a b c : F) → eq a b ≡ true → le a c ≡ true → le b c ≡ true
  pub le-eq_right : (a b c : F) → eq a b ≡ true → le c a ≡ true → le c b ≡ true
  -- Below 2^53 integers are represented exactly, so the order against one of them is exact.
  pub le-of_int :
      (a b : ℤ)
      → ((pos_part a + neg_part a < 2 ^ 53) ⊎ (pos_part b + neg_part b < 2 ^ 53))
      → le (of_int a) (of_int b) ≡ true
      → a ≤ℤ b

mutual
  pub data Value (F : Type 0) : Type 0 where
    null : Value F
    boolean : Bool → Value F
    number : F → Value F
    int : ℤ → Value F
    str : Text → Value F
    strings : List Text → Value F
    arr : Items F → Value F
    obj : Fields F → Value F

  pub data Items (F : Type 0) : Type 0 where
    nil : Items F
    cons : Value F → Items F → Items F

  pub data Fields (F : Type 0) : Type 0 where
    end : Fields F
    field : Text → Value F → Fields F → Fields F

module _ {F : Type 0} where
  -- `v, ok := m[key]`
  unfoldable pub get_field : Fields F → Text → Option (Value F)
  get_field end key = none
  get_field (field k v m) key = if text_eq k key then some v else get_field m key

module _ {F : Type 0} (float : Float64 F) where
  unfoldable mutual
    -- fmt.Sprint(v)
    pub sprint : Value F → Text
    sprint null = codes "<nil>"
    sprint (boolean true) = codes "true"
    sprint (boolean false) = codes "false"
    sprint (number v) = float.format v
    sprint (int n) = format_int n
    sprint (str s) = s
    sprint (strings l) = codes "[" ++ join l (codes " ") ++ codes "]"
    sprint (arr xs) = codes "[" ++ sprint_items xs ++ codes "]"
    sprint (obj m) = codes "map[" ++ sprint_fields m ++ codes "]"

    pub sprint_items : Items F → Text
    sprint_items nil = []
    sprint_items (cons x nil) = sprint x
    sprint_items (cons x (cons y ys)) = sprint x ++ codes " " ++ sprint_items (cons y ys)

    pub sprint_fields : Fields F → Text
    sprint_fields end = []
    sprint_fields (field k v end) = k ++ codes ":" ++ sprint v
    sprint_fields (field k v (field l w m)) =
        k ++ codes ":" ++ sprint v ++ codes " " ++ sprint_fields (field l w m)
