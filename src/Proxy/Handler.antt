-- ===== src/Proxy/Handler.antt =====
-- The limit of a request: Allow, AllowFor and extractKey of internal/proxy/ratelimit.go, and the
-- choice in RateLimitHandler.ServeHTTP. A limiter that a request finds is written back to the
-- registry, since the Go map holds a pointer to it.
use simpledeploy.Prelude.{
  ℕ, Bool, true, false, ◌≡◌, refl, Option, none, some, [], if◌then◌else◌, ◌==◌, Bool-cases, inl,
  inr,
}
use simpledeploy.Prelude.Text.{Text, text_eq, text_beq_iff, codes, has_prefix, trim_prefix}
use simpledeploy.Prelude.Dict.{lookup, insert, lookup-insert}
use simpledeploy.Net.{Net}
use simpledeploy.Proxy.Host.{normalize_domain, best_wildcard}
use simpledeploy.Proxy.RateLimit.{DomainLimiter, allow}
use simpledeploy.Proxy.Rules.{Limiters}

-- `header` is `r.Header.Get`, and `host` the Host header.
pub record HttpRequest : Type 0 where
  pub remote_addr : Text
  pub host : Text
  pub path : Text
  pub header : Text → Text

abbrev pub text_or_empty : Option Text → Text
text_or_empty none = []
text_or_empty (some s) = s

module _ (net : Net) (sha256_hex : Text → Text) where
  unfoldable pub extract_key : Text → HttpRequest → Text
  extract_key by r =
      if by == codes "ip"
      then text_or_empty (net.split_host_port r.remote_addr)
      else if has_prefix by (codes "header:")
      then r.header (trim_prefix by (codes "header:"))
      else if by == codes "path"
      then r.path
      else r.remote_addr

  -- The limiter after the request, and whether it passes.
  unfoldable pub limited : HttpRequest → ℕ → DomainLimiter → DomainLimiter × Bool
  unfolding extract_key
  limited r now d = allow sha256_hex d (extract_key d.by r) now

  abbrev pub allow_at : Limiters → Text → HttpRequest → ℕ → Option DomainLimiter → Limiters × Bool
  allow_at reg key r now none = (reg, true)
  allow_at reg key r now (some d) = let (d', ok) = limited r now d in (insert key d' reg, ok)

  unfoldable pub allow_for : Limiters → Text → HttpRequest → ℕ → Limiters × Bool
  unfolding limited
  allow_for reg domain r now =
      let key = normalize_domain net domain in allow_at reg key r now (lookup key reg)

  -- The key that `lookupHost` reads.
  abbrev pub key_or_wildcard : Limiters → Text → Option DomainLimiter → Option Text
  key_or_wildcard reg host none = best_wildcard host reg none
  key_or_wildcard reg host (some d) = some host

  abbrev pub allow_key_of : Limiters → HttpRequest → ℕ → Option Text → Limiters × Bool
  allow_key_of reg r now none = (reg, true)
  allow_key_of reg r now (some key) = allow_at reg key r now (lookup key reg)

  unfoldable pub allow_host : Limiters → Text → HttpRequest → ℕ → Limiters × Bool
  unfolding limited
  allow_host reg host r now =
      let h = normalize_domain net host in
      allow_key_of reg r now (key_or_wildcard reg h (lookup h reg))

  -- `domain` is the field of the handler. A request that does not pass is answered with 429.
  unfoldable pub serve_rate_limit : Limiters → Text → HttpRequest → ℕ → Limiters × Bool
  unfolding allow_for allow_host
  serve_rate_limit reg domain r now =
      if domain == [] then allow_host reg r.host r now else allow_for reg domain r now

  abbrev pub after_request : HttpRequest → ℕ → Option DomainLimiter → Option DomainLimiter
  after_request r now none = none
  after_request r now (some d) = some (limited r now d).0

  abbrev pub passes : HttpRequest → ℕ → Option DomainLimiter → Bool
  passes r now none = true
  passes r now (some d) = (limited r now d).1

  own :
      (reg : Limiters) (key k : Text) (r : HttpRequest) (now : ℕ) (found : Option DomainLimiter)
      → lookup key reg ≡ found
      → (lookup k (allow_at reg key r now found).0
          ≡ (if key == k then after_request r now found else lookup k reg))
        × ((allow_at reg key r now found).1 ≡ passes r now found)
  own reg key k r now none e = elim (Bool-cases (key == k)) [
    | inl same ↦ (rw (same, ← (text_beq_iff key k).0 same) e, refl)
    | inr other ↦ (rw other refl, refl)
  ]
  own reg key k r now (some d) e = (rw lookup-insert refl, refl)

  -- A request on a route with a domain is counted by the limiter of that domain and by no other, and
  -- that limiter alone decides whether it passes; without a limiter it passes.
  pub serve_rate_limit-own :
      (reg : Limiters) (domain k : Text) (r : HttpRequest) (now : ℕ)
      → (domain == []) ≡ false
      → (lookup k (serve_rate_limit reg domain r now).0 ≡ (
          if normalize_domain net domain == k
          then after_request r now (lookup (normalize_domain net domain) reg)
          else lookup k reg))
        × ((serve_rate_limit reg domain r now).1
            ≡ passes r now (lookup (normalize_domain net domain) reg))
  unfolding serve_rate_limit
  serve_rate_limit-own reg domain k r now named =
      let key = normalize_domain net domain in rw named (own reg key k r now (lookup key reg) refl)
