-- ===== src/Mirror/Tests.antt =====
-- internal/mirror at concrete references.
use simpledeploy.Prelude.{◌≡◌, refl, none, some}
use simpledeploy.Prelude.Text.{codes, has_prefix, trim_prefix, contains_byte, text_beq}
use simpledeploy.Mirror.{cut_slash, rewrite_ref}

hub_image :
    rewrite_ref (codes "docker.io/library/nginx:1") (codes "ghcr.io/vazra/")
    ≡ some (codes "ghcr.io/vazra/nginx:1")
unfolding rewrite_ref cut_slash contains_byte has_prefix trim_prefix text_beq
hub_image = refl

other_registry : rewrite_ref (codes "quay.io/a/b") (codes "ghcr.io/vazra/") ≡ none
unfolding rewrite_ref cut_slash contains_byte has_prefix text_beq
other_registry = refl

-- Without a registry "library/" stays.
library_kept :
    rewrite_ref (codes "library/nginx") (codes "ghcr.io/vazra/")
    ≡ some (codes "ghcr.io/vazra/library/nginx")
unfolding rewrite_ref cut_slash contains_byte has_prefix text_beq
library_kept = refl
