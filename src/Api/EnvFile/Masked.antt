-- ===== src/Api/EnvFile/Masked.antt =====
-- Who may not see the values of the variables.
use simpledeploy.Prelude.{Bool, true, false, Option, List, [], ◌∷◌, ◌≡◌, refl, ap, ◌∙◌, arith, map}
use simpledeploy.Prelude.Text.{Text}
use simpledeploy.Api.EnvFile.{
  EnvVar, listed, mask, sees_values, parse_env_file, list_env, handle_get_env, holds,
}

abbrev pub keys_of : List EnvVar → List Text
keys_of vars = map (λ v. v.key) vars

map-mask : (xs ys : List EnvVar) → keys_of xs ≡ keys_of ys → map mask xs ≡ map mask ys
map-mask [] [] h = refl
map-mask [] (y ∷ ys) h = cc
map-mask (x ∷ xs) [] h = cc
map-mask (x ∷ xs) (y ∷ ys) h = ground (arith, map-mask xs ys)

list_env-keys :
    (role : Option Text) (xs ys : List EnvVar) (stopped : Bool)
    → sees_values role ≡ false
    → keys_of xs ≡ keys_of ys
    → list_env role (xs, stopped) ≡ list_env role (ys, stopped)
list_env-keys role xs ys true hidden h = refl
list_env-keys role xs ys false hidden h = rw hidden (ap listed (map-mask xs ys h))

-- Two files with the same names, and for which the scanner both times ends or both times stops, give
-- the same answer to everyone who may not see values: the answer tells nothing of a value.
pub handle_get_env-hides_values :
    (found path_ok : Bool) (role : Option Text) (a b : Text)
    → sees_values role ≡ false
    → keys_of (parse_env_file a).0 ≡ keys_of (parse_env_file b).0
    → (parse_env_file a).1 ≡ (parse_env_file b).1
    → handle_get_env found path_ok role (holds a) ≡ handle_get_env found path_ok role (holds b)
unfolding handle_get_env
handle_get_env-hides_values false path_ok role a b hidden same stop = refl
handle_get_env-hides_values true false role a b hidden same stop = refl
handle_get_env-hides_values true true role a b hidden same stop =
    list_env-keys role (parse_env_file a).0 (parse_env_file b).0 (parse_env_file a).1 hidden same
    ∙ ap (λ s. list_env role ((parse_env_file b).0, s)) stop
