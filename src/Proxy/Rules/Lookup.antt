-- ===== src/Proxy/Rules/Lookup.antt =====
-- Which rule a domain has after the routes are registered.
use simpledeploy.Prelude.{
  Bool, true, false, ◌≡◌, refl, sym, Option, none, some, List, [], ◌∷◌, if◌then◌else◌, ◌==◌, All,
  Bool-cases, inl, inr, beq_self,
}
use simpledeploy.Prelude.Text.{Text, text_eq, text_beq_iff}
use simpledeploy.Prelude.Dict.{Dict, lookup, insert, lookup-insert, IsMap, insert-IsMap}
use simpledeploy.Net.{Net}
use simpledeploy.Proxy.RateLimit.{RateLimitConfig}
use simpledeploy.Proxy.Host.{normalize_domain}
use simpledeploy.Proxy.IpAccess.{ParsedAllowlist, parse_allowlist}
use simpledeploy.Proxy.Route.{Route}
use simpledeploy.Proxy.Rules.{
  Limiters, next_limiter, define_first, non_nil, replace_loop, replace_limiters, replace_rules,
  collect_limits, collect_allow, register_route_rules,
}

abbrev pub or_else {ℓ} : {V : Type ℓ} → Option V → Option V → Option V
or_else none b = b
or_else (some a) b = some a

abbrev pub map_option {ℓ κ} : {V : Type ℓ} {W : Type κ} → (V → W) → Option V → Option W
map_option f none = none
map_option f (some v) = some (f v)

or_else-none : {V : Type 0} (a : Option V) → a ≡ or_else a none
or_else-none none = refl
or_else-none (some a) = refl

-- One round of a loop that keeps the first, and the rounds that follow it.
or_else_step :
    {V : Type 0} (c : Bool) (old new rest : Option V)
    → or_else (if c then or_else old new else old) rest
      ≡ or_else old (if c then or_else new rest else rest)
or_else_step true none new rest = refl
or_else_step true (some v) new rest = refl
or_else_step false old new rest = refl

module _ (net : Net) where
  -- The configuration of the first route on the domain that has one.
  unfoldable pub first_limit : Text → List Route → Option RateLimitConfig
  first_limit key [] = none
  first_limit key (r ∷ rs) =
      let rest = first_limit key rs in
      if normalize_domain net r.domain == key then or_else r.rate_limit rest else rest

  unfoldable pub first_allow : Text → List Route → Option (List Text)
  first_allow key [] = none
  first_allow key (r ∷ rs) =
      let rest = first_allow key rs in
      if normalize_domain net r.domain == key then or_else (non_nil r.allowed_ips) rest else rest

  -- Every key is as `normalizeDomain` leaves it.
  abbrev Fixed {ℓ} : {V : Type ℓ} → Dict Text V → Type 0
  Fixed [] = Unit
  Fixed ((k, v) ∷ m) = (normalize_domain net k ≡ k) × Fixed m

  insert-Fixed :
      {V : Type 0} (k : Text) (v : V) (m : Dict Text V)
      → normalize_domain net k ≡ k
      → Fixed m
      → Fixed (insert k v m)
  unfolding insert
  insert-Fixed k v [] h hm = (h, tt)
  insert-Fixed k v ((j, w) ∷ m) h (hj, hm) = elim (Bool-cases (j == k)) [
    | inl e ↦ rw e (h, hm)
    | inr e ↦ rw e (hj, insert-Fixed k v m h hm)
  ]

  -- What each step of a loop over the routes keeps of the map so far.
  abbrev Good {ℓ} : {V : Type ℓ} → Dict Text V → Type ℓ
  Good m = Fixed m × IsMap m

  define_first-Good :
      {V : Type 0} (k : Text) (old new : Option V) (m : Dict Text V)
      → normalize_domain net k ≡ k
      → Good m
      → Good (define_first k old new m)
  define_first-Good k (some v) new m h g = g
  define_first-Good k none none m h g = g
  define_first-Good k none (some v) m h (f, g) = (insert-Fixed k v m h f, insert-IsMap k v m g)

  lookup-define_first :
      {V : Type 0} (key k : Text) (new : Option V) (m : Dict Text V)
      → lookup k (define_first key (lookup key m) new m)
        ≡ (if key == k then or_else (lookup k m) new else lookup k m)
  lookup-define_first key k new m = elim (Bool-cases (key == k)) [
    | inl e ↦
        let same = (text_beq_iff key k).0 e in
        rw (← same, beq_self key) (at_key (lookup key m) new refl)
    | inr e ↦ rw e (off_key (lookup key m) new e)
  ]
    where
      at_key :
          (old new : Option _)
          → lookup key m ≡ old
          → lookup key (define_first key old new m) ≡ or_else old new
      at_key (some v) new e = e
      at_key none none e = e
      at_key none (some v) e = rw (lookup-insert, beq_self key) refl

      off_key :
          (old new : Option _)
          → (key == k) ≡ false
          → lookup k (define_first key old new m) ≡ lookup k m
      off_key (some v) new e = refl
      off_key none none e = refl
      off_key none (some v) e = rw (lookup-insert, e) refl

  lookup-collect_limits :
      (key : Text) (rs : List Route) (m : Dict Text RateLimitConfig)
      → lookup key (collect_limits net rs m) ≡ or_else (lookup key m) (first_limit key rs)
  unfolding collect_limits first_limit
  lookup-collect_limits key [] m = or_else-none (lookup key m)
  lookup-collect_limits key (r ∷ rs) m =
      let k = normalize_domain net r.domain in
      rw
        (
          lookup-collect_limits key rs (define_first k (lookup k m) r.rate_limit m),
          lookup-define_first k key r.rate_limit m,
        )
        (or_else_step (k == key) (lookup key m) r.rate_limit (first_limit key rs))

  lookup-collect_allow :
      (key : Text) (rs : List Route) (m : Dict Text (List Text))
      → lookup key (collect_allow net rs m) ≡ or_else (lookup key m) (first_allow key rs)
  unfolding collect_allow first_allow
  lookup-collect_allow key [] m = or_else-none (lookup key m)
  lookup-collect_allow key (r ∷ rs) m =
      let k = normalize_domain net r.domain in
      rw
        (
          lookup-collect_allow key rs (define_first k (lookup k m) (non_nil r.allowed_ips) m),
          lookup-define_first k key (non_nil r.allowed_ips) m,
        )
        (or_else_step (k == key) (lookup key m) (non_nil r.allowed_ips) (first_allow key rs))

  -- A second `normalizeDomain` changes no domain of the routes.
  abbrev pub Stable : List Route → Type 0
  Stable rs =
      All
        (λ r. normalize_domain net (normalize_domain net r.domain) ≡ normalize_domain net r.domain)
        rs

  collect_limits-Good :
      (rs : List Route) (m : Dict Text RateLimitConfig)
      → Stable rs
      → Good m
      → Good (collect_limits net rs m)
  unfolding collect_limits
  collect_limits-Good [] m h g = g
  collect_limits-Good (r ∷ rs) m (hr, h) g =
      let k = normalize_domain net r.domain in
      collect_limits-Good rs _ h (define_first-Good k (lookup k m) r.rate_limit m hr g)

  collect_allow-Good :
      (rs : List Route) (m : Dict Text (List Text))
      → Stable rs
      → Good m
      → Good (collect_allow net rs m)
  unfolding collect_allow
  collect_allow-Good [] m h g = g
  collect_allow-Good (r ∷ rs) m (hr, h) g =
      let k = normalize_domain net r.domain in
      collect_allow-Good rs _ h (define_first-Good k (lookup k m) (non_nil r.allowed_ips) m hr g)

  lookup-replace_loop :
      (cur : Limiters) (key : Text) (cfgs : Dict Text RateLimitConfig) (next : Limiters)
      → Good cfgs
      → lookup key (replace_loop net cur cfgs next)
        ≡ or_else (map_option (next_limiter (lookup key cur)) (lookup key cfgs)) (lookup key next)
  unfolding replace_loop lookup
  lookup-replace_loop cur key [] next g = refl
  lookup-replace_loop cur key ((k, cfg) ∷ cfgs) next ((hk, f), (fresh, g)) =
      elim (Bool-cases (k == key)) [
        | inl e ↦
            let same = (text_beq_iff k key).0 e in
            let gone : lookup key cfgs ≡ none = rw (← same) fresh in
            rw (lookup-replace_loop cur key cfgs _ (f, g), gone, hk, lookup-insert, e, same) refl
        | inr e ↦ rw (lookup-replace_loop cur key cfgs _ (f, g), hk, lookup-insert, e) refl
      ]

  lookup-replace_rules :
      (key : Text) (rules : Dict Text (List Text)) (next : Dict Text (ParsedAllowlist net))
      → Good rules
      → lookup key (replace_rules net rules next)
        ≡ or_else (map_option (parse_allowlist net) (lookup key rules)) (lookup key next)
  unfolding replace_rules lookup
  lookup-replace_rules key [] next g = refl
  lookup-replace_rules key ((k, entries) ∷ rules) next ((hk, f), (fresh, g)) =
      elim (Bool-cases (k == key)) [
        | inl e ↦
            let same = (text_beq_iff k key).0 e in
            let gone : lookup key rules ≡ none = rw (← same) fresh in
            rw (lookup-replace_rules key rules _ (f, g), gone, hk, lookup-insert, e) refl
        | inr e ↦ rw (lookup-replace_rules key rules _ (f, g), hk, lookup-insert, e) refl
      ]

  -- When a second `normalizeDomain` changes no route's domain, the limiter of a domain is the one of
  -- its first route that has one: the limiter at work, if its configuration is the same, or a new one;
  -- and a domain without one has no limiter.
  pub register-limiter :
      (rs : List Route) (cur : Limiters) (key : Text)
      → Stable rs
      → lookup key (register_route_rules net rs cur).0
        ≡ map_option (next_limiter (lookup key cur)) (first_limit key rs)
  unfolding register_route_rules replace_limiters lookup
  register-limiter rs cur key h =
      rw
        (
          lookup-replace_loop cur key (collect_limits net rs []) []
              (collect_limits-Good rs [] h (tt, tt)),
          lookup-collect_limits key rs [],
        )
        (sym (or_else-none _))

  -- When a second `normalizeDomain` changes no route's domain, the allowlist of a domain is the one of
  -- its first route that has entries, and a domain without entries has no allowlist.
  pub register-allowlist :
      (rs : List Route) (cur : Limiters) (key : Text)
      → Stable rs
      → lookup key (register_route_rules net rs cur).1
        ≡ map_option (parse_allowlist net) (first_allow key rs)
  unfolding register_route_rules lookup
  register-allowlist rs cur key h =
      rw
        (
          lookup-replace_rules key (collect_allow net rs []) []
              (collect_allow-Good rs [] h (tt, tt)),
          lookup-collect_allow key rs [],
        )
        (sym (or_else-none _))
