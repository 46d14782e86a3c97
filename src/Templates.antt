-- ===== src/Templates.antt =====
-- templates.go: loading, rendering and splitting the SQL templates.
pub mod Embedded
pub mod Lines
pub mod Split
use osb_opengauss_go.Prelude.{
  ℕ, ◌+◌, ◌≡◌, Bool, true, false, ◌&&◌, ◌||◌, Option, none, some, List, [], ◌∷◌, ◌++◌, Text, codes,
  leb, ◌==◌, if◌then◌else◌, ℤ, text_eq, has_prefix, join, split, format_int, quoted,
}
use osb_opengauss_go.Result.{Fault, message, external, wrapped, Result, ok, err, annotate, ◌>>=◌}
use osb_opengauss_go.Templates.Embedded.{read_embedded}

pub record TemplateVars : Type 0 where
  pub database : Text
  pub group_role : Text
  pub tablespace : Text
  pub admin_user : Text
  pub username : Text
  pub password : Text
  pub group_password : Text
  pub encoding : Text
  pub compatibility : Text
  pub storage_quota : Text
  pub table_prefix : Text
  pub database_literal : Text
  pub username_literal : Text
  pub max_connections : ℤ

-- white space of ASCII
unfoldable pub is_space : ℕ → Bool
is_space c = (leb 9 c && leb c 13) || c == 32

-- strings.TrimSpace
unfoldable pub trim_left : Text → Text
unfolding is_space
trim_left [] = []
trim_left (c ∷ s) = let rest = trim_left s in if is_space c then rest else c ∷ s

unfoldable pub trim_right : Text → Text
unfolding is_space
trim_right [] = []
trim_right (c ∷ s) =
    let rest = trim_right s in if is_space c && text_eq rest [] then [] else c ∷ rest

unfoldable pub trim_space : Text → Text
unfolding trim_left trim_right
trim_space s = trim_right (trim_left s)

-- text/template, as far as the templates go: text, and actions `{{.Field}}`. Any other action is
-- refused here.
pub data Piece : Type 0 where
  literal : Text → Piece
  action : Text → Piece

unfoldable pub field_name : Text → Result Fault Text
field_name [] = err (external (codes "missing value for command"))
field_name (c ∷ name) = if c == b'.' then ok name else err (external (codes "unexpected action"))

-- `inside` says whether the text stands in an action; `piece` is the piece so far
unfoldable pub parse_pieces : Bool → Text → Text → Result Fault (List Piece)
unfolding field_name trim_space
parse_pieces true piece [] = err (external (codes "unclosed action"))
parse_pieces false piece [] = ok (literal piece ∷ [])
parse_pieces true piece (c ∷ []) = err (external (codes "unclosed action"))
parse_pieces false piece (c ∷ []) = ok (literal (piece ++ c ∷ []) ∷ [])
parse_pieces true piece (c ∷ d ∷ s) =
    let closed = (do
      name ← field_name (trim_space piece)
      rest ← parse_pieces false [] s
      ok (action name ∷ rest)) in
    let inner = parse_pieces true (piece ++ c ∷ []) (d ∷ s) in
    if c == b'}' && d == b'}' then closed else inner
parse_pieces false piece (c ∷ d ∷ s) =
    let opened = (do rest ← parse_pieces true [] s; ok (literal piece ∷ rest)) in
    let outer = parse_pieces false (piece ++ c ∷ []) (d ∷ s) in
    if c == b'{' && d == b'{' then opened else outer

pub record Template : Type 0 where
  pub name : Text
  pub pieces : List Piece

unfoldable pub parse_template : Text → Text → Result Fault Template
unfolding parse_pieces
parse_template name content = do
  pieces ← parse_pieces false [] content
  ok (record { name = name; pieces = pieces })

unfoldable pub get_var : TemplateVars → Text → Option Text
get_var v f =
    if text_eq f (codes "Database")
    then some v.database
    else if text_eq f (codes "GroupRole")
    then some v.group_role
    else if text_eq f (codes "Tablespace")
    then some v.tablespace
    else if text_eq f (codes "AdminUser")
    then some v.admin_user
    else if text_eq f (codes "Username")
    then some v.username
    else if text_eq f (codes "Password")
    then some v.password
    else if text_eq f (codes "GroupPassword")
    then some v.group_password
    else if text_eq f (codes "Encoding")
    then some v.encoding
    else if text_eq f (codes "Compatibility")
    then some v.compatibility
    else if text_eq f (codes "StorageQuota")
    then some v.storage_quota
    else if text_eq f (codes "TablePrefix")
    then some v.table_prefix
    else if text_eq f (codes "DatabaseLiteral")
    then some v.database_literal
    else if text_eq f (codes "UsernameLiteral")
    then some v.username_literal
    else if text_eq f (codes "MaxConnections")
    then some (format_int v.max_connections)
    else none

-- tmpl.Execute
unfoldable pub value_or_missing : Option Text → Result Fault Text
value_or_missing none = err (external (codes "can't evaluate field in type main.TemplateVars"))
value_or_missing (some t) = ok t

unfoldable pub execute : List Piece → TemplateVars → Result Fault Text
unfolding get_var value_or_missing
execute [] vars = ok []
execute (literal t ∷ ps) vars = do rest ← execute ps vars; ok (t ++ rest)
execute (action f ∷ ps) vars = do
  t ← value_or_missing (get_var vars f)
  rest ← execute ps vars
  ok (t ++ rest)

-- strings.Fields; `word` is the word so far
unfoldable pub push_word : Text → List Text → List Text
push_word [] words = words
push_word (c ∷ s) words = (c ∷ s) ∷ words

unfoldable pub fields_from : Text → Text → List Text
unfolding is_space push_word
fields_from word [] = push_word word []
fields_from word (c ∷ s) =
    let ended = push_word word (fields_from [] s) in
    let longer = fields_from (word ++ c ∷ []) s in if is_space c then ended else longer

unfoldable pub fields : Text → List Text
unfolding fields_from
fields s = fields_from [] s

-- the first loop: lines that are neither empty nor comments, trimmed
unfoldable pub clean_lines : List Text → List Text
unfolding trim_space
clean_lines [] = []
clean_lines (line ∷ rest) =
    let line = trim_space line in
    let cleaned = clean_lines rest in
    if text_eq line [] || has_prefix line (codes "--") then cleaned else line ∷ cleaned

-- the second loop: statements that are not empty, their white space collapsed
unfoldable pub statements_of : List Text → List Text
unfolding fields
statements_of [] = []
statements_of (stmt ∷ rest) =
    let stmt = join (fields stmt) (codes " ") in
    let more = statements_of rest in if text_eq stmt [] then more else stmt ∷ more

unfoldable pub split_sql : Text → List Text
unfolding clean_lines statements_of
split_sql sql = statements_of (split (join (clean_lines (split sql 10)) (codes "\n")) b';')

unfoldable pub render_template : Template → TemplateVars → Result Fault (List Text)
unfolding execute split_sql
render_template tmpl vars = do
  sql ← annotate (codes "cannot render template " ++ tmpl.name) (execute tmpl.pieces vars)
  ok (split_sql sql)

-- os.ReadFile and os.IsNotExist
pub record FileSystem : Type 0 where
  pub read_file : Text → Result Fault Text
  pub is_not_exist : Fault → Bool

module _ (files : FileSystem) where
  -- the file in the override directory, if there is one
  unfoldable pub fall_back : Text → Result Fault Text → Result Fault Text
  unfolding read_embedded
  fall_back rel_path (ok content) = ok content
  fall_back rel_path (err e) = if files.is_not_exist e then read_embedded rel_path else err e

  unfoldable pub read_template : Text → Text → Result Fault Text
  unfolding fall_back read_embedded
  read_template [] rel_path = read_embedded rel_path
  read_template (c ∷ dir) rel_path =
      fall_back rel_path (files.read_file ((c ∷ dir) ++ b'/' ∷ rel_path))

  unfoldable pub load_template : Text → Text → Result Fault Template
  unfolding read_template parse_template
  load_template dir rel_path = do
    content ← annotate (codes "cannot load template " ++ rel_path) (read_template dir rel_path)
    parse_template rel_path content
