-- ===== src/Api/EnvTests.antt =====
-- internal/api/env.go at concrete variables.
use simpledeploy.Prelude.{true, false, some, none, List, [], ◌∷◌, ◌≡◌, refl, arith}
use simpledeploy.Prelude.Text.{Text, codes, text_beq, contains_byte, has_prefix, split}
use simpledeploy.Prelude.Lines.{space_at, space_before, trim_by, trim_runes, scan_lines}
use simpledeploy.Api.EnvFile.{
  EnvVar, missing, holds, saved, value_character, can_see_env_values, validate_env_vars,
  validate_from, read_line, parse_lines, parse_env_file, handle_get_env, handle_put_env,
}
use simpledeploy.Api.EnvFile.Parsed.{IsKept}
use simpledeploy.Api.EnvFile.RoundTrip.{SavedOrKept, handle_put_env-round_trip}
use simpledeploy.Api.EnvFile.Masked.{handle_get_env-hides_values}

abbrev var : Text → Text → EnvVar
var k v = record { key = k; value = v; masked = false }

abbrev two_vars : List EnvVar
two_vars = var (codes "PORT") (codes "80") ∷ var (codes "URL") (codes "a=b # c") ∷ []

port_IsKept : IsKept (var (codes "PORT") (codes "80"))
unfolding space_at space_before has_prefix
port_IsKept = record { starts = refl; ends = refl; no_comment = refl; fits = omega arith }

url_IsKept : IsKept (var (codes "URL") (codes "a=b # c"))
unfolding space_at space_before has_prefix
url_IsKept = record { starts = refl; ends = refl; no_comment = refl; fits = omega arith }

manager_sees : can_see_env_values (codes "manage") ≡ true
unfolding can_see_env_values text_beq
manager_sees = refl

viewer_blind : can_see_env_values (codes "viewer") ≡ false
unfolding can_see_env_values text_beq
viewer_blind = refl

handle_put_env-round_trip_example :
    SavedOrKept
      (codes "manage")
      two_vars
      missing
      (handle_put_env true (some two_vars) true true (λ _. none) missing)
handle_put_env-round_trip_example =
    handle_put_env-round_trip (codes "manage") two_vars missing true true (λ _. none) manager_sees
      (port_IsKept, (url_IsKept, tt))

one_key : (parse_env_file (codes "KEY=old\n")).0 ≡ var (codes "KEY") (codes "old") ∷ []
unfolding parse_env_file parse_lines scan_lines split read_line text_beq trim_by
one_key = refl

handle_get_env-hides_values_example :
    handle_get_env true true (some (codes "viewer")) (holds (codes "KEY=old\n"))
    ≡ handle_get_env true true (some (codes "viewer")) (holds (codes "KEY=new\n"))
unfolding parse_env_file parse_lines scan_lines split read_line text_beq trim_by
handle_get_env-hides_values_example =
    handle_get_env-hides_values true true (some (codes "viewer")) (codes "KEY=old\n")
      (codes "KEY=new\n") viewer_blind refl refl

-- A name that starts with "#" may be saved, and is read as a comment.
hash_name_lost :
    handle_put_env true (some (var (codes "#KEY") (codes "1") ∷ [])) true true (λ _. none) missing
    ≡ (holds (codes "#KEY=1\n"), saved)
unfolding handle_put_env validate_from contains_byte text_beq
hash_name_lost = refl

hash_name_unread : parse_env_file (codes "#KEY=1\n") ≡ ([], false)
unfolding parse_env_file parse_lines scan_lines split read_line text_beq trim_by
hash_name_unread = refl

-- White space at the end of a value is lost, also when it is not ASCII.
trailing_space_lost :
    parse_env_file (codes "KEY=1 \n") ≡ (var (codes "KEY") (codes "1") ∷ [], false)
unfolding parse_env_file parse_lines scan_lines split read_line text_beq trim_by
trailing_space_lost = refl

nbsp_trimmed : trim_runes (0xc2 ∷ 0xa0 ∷ b'a' ∷ 0xe3 ∷ 0x80 ∷ 0x80 ∷ []) ≡ b'a' ∷ []
unfolding trim_runes trim_by
nbsp_trimmed = refl

-- A value may not smuggle in a second line.
newline_refused :
    validate_env_vars (var (codes "A") (codes "1\nB=2") ∷ []) ≡ some (value_character 0)
unfolding validate_env_vars validate_from contains_byte text_beq
newline_refused = refl
