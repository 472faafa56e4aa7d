-- ===== src/Api/EnvFile.antt =====
-- internal/api/env.go: the .env file of an app, and the two requests that read and write it.
pub mod Parsed
pub mod RoundTrip
pub mod Masked
use simpledeploy.Prelude.{
  ℕ, zero, suc, ◌+◌, Bool, true, false, not, ◌&&◌, ◌||◌, Option, none, some, List, [], ◌∷◌, ◌++◌,
  map, ltb, eqb, if◌then◌else◌, any, length, ◌==◌,
}
use simpledeploy.Prelude.Text.{Text, text_eq, codes, has_prefix, contains_byte, trim_last}
use simpledeploy.Prelude.Lines.{trim_runes, scan_lines}

pub record EnvVar : Type 0 where
  pub key : Text
  pub value : Text
  pub masked : Bool

unfoldable pub can_see_env_values : Text → Bool
can_see_env_values role = role == codes "super_admin" || role == codes "manage"

-- The error of the entry at an index.
pub data EnvError : Type 0 where
  empty_key : ℕ → EnvError
  key_character : ℕ → EnvError
  value_character : ℕ → EnvError
  masked_value : ℕ → EnvError

-- `strings.ContainsAny` for a set of ASCII characters.
abbrev pub contains_any : Text → Text → Bool
contains_any s chars = any (λ b. contains_byte b s) chars

abbrev pub key_forbidden : Text
key_forbidden = b' ' ∷ b'\t' ∷ b'\r' ∷ b'\n' ∷ 0 ∷ b'=' ∷ []

abbrev pub value_forbidden : Text
value_forbidden = b'\r' ∷ b'\n' ∷ 0 ∷ []

unfoldable pub validate_env_var : ℕ → EnvVar → Option EnvError
unfolding contains_byte
validate_env_var i v =
    if v.key == []
    then some (empty_key i)
    else if contains_any v.key key_forbidden
    then some (key_character i)
    else if contains_any v.value value_forbidden
    then some (value_character i)
    else if v.masked
    then some (masked_value i)
    else none

unfoldable pub validate_from : ℕ → List EnvVar → Option EnvError
unfolding validate_env_var
validate_from i [] = none
validate_from i (v ∷ vars) =
    let rest = validate_from (suc i) vars in
    elim (validate_env_var i v) [ some e ↦ some e | none ↦ rest ]

unfoldable pub validate_env_vars : List EnvVar → Option EnvError
unfolding validate_from
validate_env_vars vars = validate_from 0 vars

-- `strings.IndexByte(line, '=')` and the slices around it.
unfoldable pub cut_equals : Text → Option (Text × Text)
cut_equals [] = none
cut_equals (c ∷ s) =
    let rest = cut_equals s in
    if eqb c b'=' then some ([], s) else elim rest [ none ↦ none | some (k, v) ↦ some (c ∷ k, v) ]

abbrev pub to_var : Option (Text × Text) → Option EnvVar
to_var none = none
to_var (some (k, v)) = some (record { key = k; value = v; masked = false })

-- A line of the file, trimmed: blank lines, comments and lines without "=" give nothing.
unfoldable pub read_trimmed : Text → Option EnvVar
unfolding has_prefix cut_equals
read_trimmed line =
    if line == [] || has_prefix line (codes "#") then none else to_var (cut_equals line)

abbrev pub append_var : Option EnvVar → List EnvVar → List EnvVar
append_var none vars = vars
append_var (some v) vars = v ∷ vars

-- The scanner drops a carriage return at the end of a line.
unfoldable pub read_line : Text → Option EnvVar
unfolding read_trimmed trim_runes trim_last
read_line line = read_trimmed (trim_runes (trim_last b'\r' line))

-- `bufio.MaxScanTokenSize`: at a line that fills the buffer the scanner stops with an error.
abbrev pub max_line : ℕ
max_line = 65536

-- The variables, and whether the scanner stopped.
unfoldable pub parse_lines : List Text → List EnvVar × Bool
unfolding read_line
parse_lines [] = ([], false)
parse_lines (line ∷ lines) =
    let rest = parse_lines lines in
    if ltb (length line) max_line then (append_var (read_line line) rest.0, rest.1) else ([], true)

unfoldable pub parse_env_file : Text → List EnvVar × Bool
unfolding parse_lines scan_lines
parse_env_file text = parse_lines (scan_lines text)

unfoldable pub env_file_content : List EnvVar → Text
env_file_content [] = []
env_file_content (v ∷ vars) = v.key ++ (b'=' ∷ (v.value ++ (b'\n' ∷ env_file_content vars)))

-- What opening the file gives.
pub data EnvFile : Type 0 where
  missing : EnvFile
  unreadable : EnvFile
  holds : Text → EnvFile

pub data Response : Type 0 where
  error : ℕ → Response
  listed : List EnvVar → Response
  saved : Response

abbrev pub mask : EnvVar → EnvVar
mask v = record { key = v.key; value = []; masked = true }

abbrev pub sees_values : Option Text → Bool
sees_values none = false
sees_values (some role) = can_see_env_values role

abbrev pub shown : Bool → List EnvVar → List EnvVar
shown true vars = vars
shown false vars = map mask vars

abbrev pub list_env : Option Text → List EnvVar × Bool → Response
list_env role (vars, true) = error 500
list_env role (vars, false) = listed (shown (sees_values role) vars)

-- `path_ok` is whether envFilePath finds no link; the role is none without a user.
unfoldable pub handle_get_env : Bool → Bool → Option Text → EnvFile → Response
unfolding parse_env_file can_see_env_values
handle_get_env false path_ok role file = error 404
handle_get_env true false role file = error 500
handle_get_env true true role missing = listed []
handle_get_env true true role unreadable = error 500
handle_get_env true true role (holds text) = list_env role (parse_env_file text)

-- `check` is the answer of checkEnvAgainstCompose for the new content: none, or the refusal it wrote.
-- `written` is whether the file can be replaced, which happens at once or not at all.
abbrev pub write_env : Bool → Text → EnvFile → Option ℕ → EnvFile × Response
write_env written content file (some code) = (file, error code)
write_env false content file none = (file, error 500)
write_env true content file none = (holds content, saved)

abbrev pub put_valid :
    Bool → Bool → (Text → Option ℕ) → EnvFile → List EnvVar → Option EnvError → EnvFile × Response
put_valid path_ok written check file vars (some e) = (file, error 400)
put_valid false written check file vars none = (file, error 500)
put_valid true written check file vars none =
    write_env written (env_file_content vars) file (check (env_file_content vars))

-- The body is none where it is no JSON of the right form.
unfoldable pub handle_put_env :
    Bool → Option (List EnvVar) → Bool → Bool → (Text → Option ℕ) → EnvFile → EnvFile × Response
unfolding validate_env_vars env_file_content
handle_put_env false body path_ok written check file = (file, error 404)
handle_put_env true none path_ok written check file = (file, error 400)
handle_put_env true (some vars) path_ok written check file =
    put_valid path_ok written check file vars (validate_env_vars vars)
