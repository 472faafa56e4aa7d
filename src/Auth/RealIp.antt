-- ===== src/Auth/RealIp.antt =====
-- internal/auth/realip.go: the client's address behind trusted proxies. Package net is a parameter.
pub mod Spoofing
use mathlib.Core.List.{reverse}
use simpledeploy.Prelude.{
  Bool, true, false, not, ◌&&◌, ◌||◌, Option, none, some, List, [], ◌∷◌, if◌then◌else◌, ◌==◌,
}
use simpledeploy.Prelude.Text.{Text, text_eq, codes, split, trim_space, contains_byte, to_lower}
use simpledeploy.Net.{Net}

-- What is read of an `http.Request`: the peer, TLS, and two headers.
pub record Request : Type 0 where
  pub remote_addr : Text
  pub tls : Bool
  pub forwarded_for : Text
  pub forwarded_proto : Text

abbrev pub or_direct : Text → Option Text → Text
or_direct direct none = direct
or_direct direct (some ip) = ip

module _ (net : Net) where
  open net use {Ip, split_host_port, parse_ip, parse_cidr, net_contains}

  abbrev in_range : Option Ip → Text → Bool
  in_range none t = false
  in_range (some ip) t =
      contains_byte b'/' t && elim (parse_cidr t) [ none ↦ false | some n ↦ net_contains n ip ]

  matches_any : Text → Option Ip → List Text → Bool
  matches_any ip parsed [] = false
  matches_any ip parsed (t ∷ ts) = t == ip || in_range parsed t || matches_any ip parsed ts

  unfoldable pub is_trusted : Text → List Text → Bool
  unfolding matches_any
  is_trusted ip trusted = matches_any ip (parse_ip ip) trusted

  unfoldable pub direct_ip : Request → Text
  direct_ip r = elim (split_host_port r.remote_addr) [ none ↦ r.remote_addr | some h ↦ h ]

  -- The loop over the parts, from the last to the first.
  unfoldable pub last_untrusted : List Text → List Text → Option Text
  last_untrusted trusted [] = none
  last_untrusted trusted (p ∷ ps) =
      let rest = last_untrusted trusted ps in
      let ip = trim_space p in
      if ip == [] then rest else if not (is_trusted ip trusted) then some ip else rest

  unfoldable pub real_ip : Request → List Text → Text
  real_ip r [] = direct_ip r
  real_ip r (t ∷ ts) =
      if not (is_trusted (direct_ip r) (t ∷ ts))
      then direct_ip r
      else if r.forwarded_for == []
      then direct_ip r
      else or_direct (direct_ip r) (last_untrusted (t ∷ ts) (reverse (split b',' r.forwarded_for)))

  unfoldable pub request_is_https : Request → List Text → Bool
  request_is_https r trusted =
      if r.tls
      then true
      else if not (is_trusted (direct_ip r) trusted)
      then false
      else to_lower (trim_space r.forwarded_proto) == codes "https"
