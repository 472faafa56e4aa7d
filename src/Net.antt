-- ===== src/Net.antt =====
-- Package net of Go, as the parameter of what calls it: IP addresses, CIDR ranges, host:port.
use simpledeploy.Prelude.{Bool, Option}
use simpledeploy.Prelude.Text.{Text}

pub record Net : Type 1 where
  -- `net.IP` and `*net.IPNet`
  pub Ip : Type 0
  pub IpNet : Type 0
  -- the host of `net.SplitHostPort`; `none` is its error
  pub split_host_port : Text → Option Text
  -- `net.ParseIP`; `none` is nil
  pub parse_ip : Text → Option Ip
  -- `net.ParseCIDR`; `none` is its error
  pub parse_cidr : Text → Option IpNet
  -- `(*IPNet).Contains` and `IP.Equal`
  pub net_contains : IpNet → Ip → Bool
  pub ip_equal : Ip → Ip → Bool
