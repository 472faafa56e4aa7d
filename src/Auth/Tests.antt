-- ===== src/Auth/Tests.antt =====
-- internal/auth at concrete inputs.
use mathlib.Core.List.{reverse}
use simpledeploy.Prelude.{
  ℕ, ◌+◌, ◌≡◌, ◌⊎◌, refl, true, false, none, some, List, [], ◌∷◌, if◌then◌else◌, ◌==◌, string_eq,
}
use simpledeploy.Prelude.Text.{Text, text_eq, text_beq, codes, split, trim_space}
use simpledeploy.Prelude.Dict.{lookup, insert, erase}
use simpledeploy.Net.{Net}
use simpledeploy.Auth.Lockout.{
  minute, is_locked, lock_minutes, new, record_failure, record_success, fail_entry,
}
use simpledeploy.Auth.Lockout.History.{Attempt, failure, success, run}
use simpledeploy.Auth.RateLimiter.{RateLimiter}
use simpledeploy.Auth.RateLimiter.Window.{Request}
use simpledeploy.Auth.RealIp.{is_trusted, direct_ip, last_untrusted, real_ip, request_is_https}
use simpledeploy.Auth.RealIp
use simpledeploy.Auth.RealIp.Spoofing.{FirstUntrusted, real_ip_source}

-- Three failures of "bob" at a threshold of 2, with another user's and a success between.
abbrev attempts : List Attempt
attempts =
    failure "bob" 300
    ∷ failure "eve" 250
    ∷ failure "bob" 200
    ∷ failure "bob" 100
    ∷ success "bob"
    ∷ failure "bob" 50
    ∷ []

bob_is_locked : is_locked (run 2 attempts) "bob" (300 + minute) ≡ true
unfolding is_locked run new record_failure record_success fail_entry lock_minutes lookup insert
    erase
bob_is_locked = refl

-- A limit of 2 in a window of 100, after a first request of "a".
abbrev limiter : RateLimiter
limiter = record {
  limit = 2;
  window = 100;
  buckets = ("a", record { tokens = 1; last_reset = 10 }) ∷ [];
}

abbrev requests : List Request
requests =
    record { key = "a"; at = 20 }
    ∷ record { key = "b"; at = 30 }
    ∷ record { key = "a"; at = 40 }
    ∷ []

-- A network where "10.0.0.1:443" splits, and no address parses.
abbrev plain_net : Net
plain_net = record {
  Ip = ℕ;
  IpNet = ℕ;
  split_host_port = λ s. if s == codes "10.0.0.1:443" then some (codes "10.0.0.1") else none;
  parse_ip = λ s. none;
  parse_cidr = λ s. none;
  net_contains = λ n i. false;
  ip_equal = λ i j. false;
}

abbrev proxies : List Text
proxies = codes "10.0.0.1" ∷ codes "10.0.0.2" ∷ []

abbrev behind_proxy : RealIp.Request
behind_proxy = record {
  remote_addr = codes "10.0.0.1:443";
  tls = false;
  forwarded_for = codes "6.6.6.6, 9.9.9.9, 10.0.0.2";
  forwarded_proto = codes "https";
}

found : real_ip plain_net behind_proxy proxies ≡ codes "9.9.9.9"
unfolding real_ip is_trusted direct_ip last_untrusted split trim_space text_beq
found = refl

abbrev unknown_peer : RealIp.Request
unknown_peer = record behind_proxy { remote_addr = codes "8.8.8.8:1" }

real_ip_source_example :
    (real_ip plain_net behind_proxy proxies ≡ direct_ip plain_net behind_proxy)
    ⊎ ((is_trusted plain_net (direct_ip plain_net behind_proxy) proxies ≡ true)
        × FirstUntrusted plain_net proxies
            (reverse (split b',' behind_proxy.forwarded_for))
            (real_ip plain_net behind_proxy proxies))
real_ip_source_example = real_ip_source plain_net behind_proxy proxies
