-- ===== src/Proxy/Route.antt =====
-- The routes of internal/proxy/route.go.
use simpledeploy.Prelude.{ℕ, Option, List}
use simpledeploy.Prelude.Text.{Text}
use simpledeploy.Proxy.RateLimit.{RateLimitConfig}

-- `allowed_ips` is nil exactly when it is empty: it is only ever appended to.
pub record Route : Type 0 where
  pub app_slug : Text
  pub app_id : ℕ
  pub domain : Text
  pub upstream : Text
  pub tls : Text
  pub cert_dir : Text
  pub rate_limit : Option RateLimitConfig
  pub allowed_ips : List Text
  pub protocol : Text
  pub path : Text
