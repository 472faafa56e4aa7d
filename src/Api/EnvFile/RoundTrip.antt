-- ===== src/Api/EnvFile/RoundTrip.antt =====
-- Saving variables and reading them back.
use simpledeploy.Prelude.{
  ℕ, Bool, true, false, Option, none, some, List, ◌≡◌, refl, All, ◌⊎◌, inl, inr,
}
use simpledeploy.Prelude.Text.{Text}
use simpledeploy.Api.EnvFile.{
  EnvVar, EnvError, EnvFile, holds, Response, error, listed, saved, can_see_env_values,
  validate_env_vars, parse_env_file, env_file_content, put_valid, write_env, handle_get_env,
  handle_put_env,
}
use simpledeploy.Api.EnvFile.Parsed.{
  IsKept, IsWritable, validate_from-IsWritable, scan_lines-content, parse_lines-line_of,
}

parse-content :
    (vars : List EnvVar)
    → All IsWritable vars
    → All IsKept vars
    → parse_env_file (env_file_content vars) ≡ (vars, false)
unfolding parse_env_file
parse-content vars w k = rw (scan_lines-content vars w) (parse_lines-line_of vars w k)

get_holds :
    (role text : Text) (vars : List EnvVar)
    → can_see_env_values role ≡ true
    → parse_env_file text ≡ (vars, false)
    → handle_get_env true true (some role) (holds text) ≡ listed vars
unfolding handle_get_env
get_holds role text vars sees parsed = rw (parsed, sees)

-- The outcome of a request to save: the variables are read back, or nothing is changed.
abbrev pub SavedOrKept : Text → List EnvVar → EnvFile → EnvFile × Response → Type 0
SavedOrKept role vars file (after, answer) =
    ((answer ≡ saved) × (handle_get_env true true (some role) after ≡ listed vars))
    ⊎ ((after ≡ file) × (code : ℕ) × (answer ≡ error code))

write-SavedOrKept :
    (role : Text) (vars : List EnvVar) (file : EnvFile) (written : Bool) (refusal : Option ℕ)
    → can_see_env_values role ≡ true
    → All IsWritable vars
    → All IsKept vars
    → SavedOrKept role vars file (write_env written (env_file_content vars) file refusal)
write-SavedOrKept role vars file written (some code) sees w k = inr (refl, code, refl)
write-SavedOrKept role vars file false none sees w k = inr (refl, 500, refl)
write-SavedOrKept role vars file true none sees w k =
    inl (refl, get_holds role (env_file_content vars) vars sees (parse-content vars w k))

put_valid-SavedOrKept :
    (role : Text) (vars : List EnvVar) (file : EnvFile) (path_ok written : Bool)
    (check : Text → Option ℕ) (verdict : Option EnvError)
    → can_see_env_values role ≡ true
    → (verdict ≡ none → All IsWritable vars)
    → All IsKept vars
    → SavedOrKept role vars file (put_valid path_ok written check file vars verdict)
put_valid-SavedOrKept role vars file path_ok written check (some e) sees w k = inr (refl, 400, refl)
put_valid-SavedOrKept role vars file false written check none sees w k = inr (refl, 500, refl)
put_valid-SavedOrKept role vars file true written check none sees w k =
    write-SavedOrKept role vars file written (check (env_file_content vars)) sees (w refl) k

-- A request to save variables either saves them, and a role that may see values reads back exactly
-- those, or it leaves the file as it was and answers with an error; if no line of a variable starts
-- or ends with white space, starts with "#" or has 64 KiB.
pub handle_put_env-round_trip :
    (role : Text) (vars : List EnvVar) (file : EnvFile) (path_ok written : Bool)
    (check : Text → Option ℕ)
    → can_see_env_values role ≡ true
    → All IsKept vars
    → SavedOrKept role vars file (handle_put_env true (some vars) path_ok written check file)
unfolding handle_put_env
handle_put_env-round_trip role vars file path_ok written check sees k =
    put_valid-SavedOrKept role vars file path_ok written check (validate_env_vars vars) sees
      (λ valid. validate_from-IsWritable 0 vars valid) k
