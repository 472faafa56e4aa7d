-- ===== src/Compose/ScaleTests.antt =====
-- ScaleEligibility of internal/compose/scalable.go at concrete services.
use simpledeploy.Prelude.{◌≡◌, refl, true, some, [], ◌∷◌}
use simpledeploy.Prelude.Text.{codes, text_beq, contains_byte, to_lower, trim_space, trim_left}
use simpledeploy.Prelude.Dict.{lookup}
use simpledeploy.Paths.{after_slash}
use simpledeploy.Compose.Scalable.{
  ScaledService, before_tag, first_equal, match_stateful_image, host_port, scale_eligibility,
}

-- A database by the start of its name only.
abbrev exporter : ScaledService
exporter = record {
  image = codes "docker.io/prom/postgres-exporter:1";
  host_ports = [] ∷ [];
  volumes = (codes "bind", codes "/x") ∷ [];
  labels = [];
  deploy_mode = [];
}

exporter_scales : scale_eligibility (some exporter) ≡ (true, [])
unfolding scale_eligibility match_stateful_image before_tag first_equal host_port after_slash lookup
    contains_byte to_lower trim_space trim_left text_beq
exporter_scales = refl
