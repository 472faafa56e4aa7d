-- ===== src/Proxy/IpAccess.antt =====
-- internal/proxy/ipaccess.go: the allowlist of a domain.
use simpledeploy.Prelude.{
  Bool, true, false, not, ◌&&◌, ◌||◌, ◌≡◌, refl, arith, Option, none, some, List, [], ◌∷◌,
  if◌then◌else◌, any,
}
use simpledeploy.Prelude.Text.{Text}
use simpledeploy.Net.{Net}

pub record ParsedAllowlist (net : Net) : Type 0 where
  pub ips : List net.Ip
  pub nets : List net.IpNet

abbrev pub is_empty {ℓ} : {A : Type ℓ} → List A → Bool
is_empty [] = true
is_empty (x ∷ xs) = false

module _ (net : Net) where
  -- One entry in front of what the later entries give.
  abbrev pub add_entry :
      Option net.Ip → Option net.IpNet → ParsedAllowlist net → ParsedAllowlist net
  add_entry (some ip) range al = record { ips = ip ∷ al.ips; nets = al.nets }
  add_entry none (some n) al = record { ips = al.ips; nets = n ∷ al.nets }
  add_entry none none al = al

  unfoldable pub parse_allowlist : List Text → ParsedAllowlist net
  parse_allowlist [] = record { ips = []; nets = [] }
  parse_allowlist (e ∷ es) = add_entry (net.parse_ip e) (net.parse_cidr e) (parse_allowlist es)

  abbrev pub allows_ip : ParsedAllowlist net → Option net.Ip → Bool
  allows_ip al none = false
  allows_ip al (some ip) =
      any (λ x. net.ip_equal x ip) al.ips || any (λ n. net.net_contains n ip) al.nets

  abbrev pub allows_host : ParsedAllowlist net → Option Text → Bool
  allows_host al none = false
  allows_host al (some host) = allows_ip al (net.parse_ip host)

  -- The argument is the RemoteAddr of the request.
  unfoldable pub allows : ParsedAllowlist net → Text → Bool
  allows al remote_addr =
      if is_empty al.ips && is_empty al.nets
      then true
      else allows_host al (net.split_host_port remote_addr)

  -- What the entries mean, read one by one.
  abbrev is_entry : Option net.Ip → Option net.IpNet → Bool
  is_entry (some ip) range = true
  is_entry none (some n) = true
  is_entry none none = false

  abbrev covers : net.Ip → Option net.Ip → Option net.IpNet → Bool
  covers client (some ip) range = net.ip_equal ip client
  covers client none (some n) = net.net_contains n client
  covers client none none = false

  abbrev pub valid_entry : Text → Bool
  valid_entry e = is_entry (net.parse_ip e) (net.parse_cidr e)

  abbrev pub entry_covers : net.Ip → Text → Bool
  entry_covers client e = covers client (net.parse_ip e) (net.parse_cidr e)

  abbrev client_of : Option Text → Option net.Ip
  client_of none = none
  client_of (some host) = net.parse_ip host

  abbrev covered : List Text → Option net.Ip → Bool
  covered es none = false
  covered es (some client) = any (entry_covers client) es

  add-empty :
      (ip : Option net.Ip) (range : Option net.IpNet) (al : ParsedAllowlist net)
      → (is_empty (add_entry ip range al).ips && is_empty (add_entry ip range al).nets)
        ≡ (not (is_entry ip range) && (is_empty al.ips && is_empty al.nets))
  add-empty (some ip) range al = refl
  add-empty none (some n) al = ground arith
  add-empty none none al = refl

  parse-empty :
      (es : List Text)
      → (is_empty (parse_allowlist es).ips && is_empty (parse_allowlist es).nets)
        ≡ not (any valid_entry es)
  unfolding parse_allowlist
  parse-empty [] = refl
  parse-empty (e ∷ es) =
      ground
        (arith, add-empty (net.parse_ip e) (net.parse_cidr e) (parse_allowlist es), parse-empty es)

  add-covers :
      (client : net.Ip) (ip : Option net.Ip) (range : Option net.IpNet) (al : ParsedAllowlist net)
      → allows_ip (add_entry ip range al) (some client)
        ≡ (covers client ip range || allows_ip al (some client))
  add-covers client (some ip) range al = ground arith
  add-covers client none (some n) al = ground arith
  add-covers client none none al = refl

  parse-covers :
      (client : net.Ip) (es : List Text)
      → allows_ip (parse_allowlist es) (some client) ≡ any (entry_covers client) es
  unfolding parse_allowlist
  parse-covers client [] = refl
  parse-covers client (e ∷ es) = ground (
    arith,
    add-covers client (net.parse_ip e) (net.parse_cidr e) (parse_allowlist es),
    parse-covers client es,
  )

  host-covered :
      (es : List Text) (host : Option Text)
      → allows_host (parse_allowlist es) host ≡ covered es (client_of host)
  host-covered es none = refl
  host-covered es (some host) = ip-covered (net.parse_ip host)
    where
      ip-covered : (ip : Option net.Ip) → allows_ip (parse_allowlist es) ip ≡ covered es ip
      ip-covered none = refl
      ip-covered (some client) = parse-covers client es

  -- A request passes the parsed list when no entry is an address or a range, and otherwise exactly
  -- when its address can be read and some entry is that address or a range that contains it.
  pub allows-parse_allowlist :
      (es : List Text) (remote_addr : Text)
      → allows (parse_allowlist es) remote_addr
        ≡ (not (any valid_entry es) || covered es (client_of (net.split_host_port remote_addr)))
  unfolding allows
  allows-parse_allowlist es remote_addr =
      ground (arith, parse-empty es, host-covered es (net.split_host_port remote_addr))
