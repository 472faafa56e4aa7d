-- ===== src/Proxy/ResolveTests.antt =====
-- ResolveRoutes and orderRoutes of internal/proxy at concrete inputs.
use simpledeploy.Prelude.{◌≡◌, refl, false, none, some, List, [], ◌∷◌, ◌==◌}
use simpledeploy.Prelude.Text.{
  Text, text_eq, codes, text_beq, text_lt, count_byte, trim_space, trim_left, to_lower, trim_last,
}
use simpledeploy.Net.{Net}
use simpledeploy.Compose.Endpoint.{EndpointConfig}
use simpledeploy.Prelude.Dict.{lookup, insert}
use simpledeploy.Prelude.Sort.{sort_stable, insert_sorted}
use simpledeploy.Proxy.Host.{normalize_domain, domain_less}
use simpledeploy.Proxy.Route.{Route}
use simpledeploy.Proxy.Match.{order_routes, group_loop, emit, route_less}
use simpledeploy.Proxy.Resolve.{AppConfig, Outside, resolve_routes}
use simpledeploy.Proxy.Resolve.Keeps.{AllAgree, resolve_routes-AllAgree}

abbrev no_net : Net
no_net = record {
  Ip = Text;
  IpNet = Text;
  split_host_port = λ t. some t;
  parse_ip = λ t. none;
  parse_cidr = λ t. none;
  net_contains = λ n ip. false;
  ip_equal = λ a b. a == b;
}

abbrev bare_host : Outside
bare_host = record {
  net = no_net;
  upstream_env = [];
  container_ip = λ project service network. none;
  atoi = λ t. 0;
  parse_duration = λ t. none;
}

abbrev site : EndpointConfig
site = record {
  domain = codes "a.io";
  port = codes "80";
  tls = codes "off";
  service = codes "web";
  protocol = [];
  path = [];
  index = 0;
}

-- A twin of the endpoint in another tls mode, and a path of the same domain.
abbrev shop : AppConfig
shop = record {
  name = codes "shop";
  compose_path = codes "/apps/shop/docker-compose.yml";
  services =
      record {
        name = codes "web";
        ports = record { host = codes "8080"; container = codes "80" } ∷ [];
      }
      ∷ [];
  endpoints =
      site
      ∷ record site { tls = codes "auto" }
      ∷ record site { tls = codes "auto"; path = codes "/api/*" }
      ∷ [];
  rate_limit = record { requests = []; window = []; burst = []; by = [] };
  access_allow = [];
}

resolve_routes-AllAgree_example : AllAgree (resolve_routes bare_host shop)
resolve_routes-AllAgree_example = resolve_routes-AllAgree bare_host shop

abbrev route_at : Text → Text → Text → Route
route_at domain protocol path = record {
  app_slug = codes "shop";
  app_id = 1;
  domain = domain;
  upstream = [];
  tls = codes "auto";
  cert_dir = [];
  rate_limit = none;
  allowed_ips = [];
  protocol = protocol;
  path = path;
}

abbrev mixed : List Route
mixed =
    route_at (codes "b.io") (codes "http") []
    ∷ route_at (codes "a.io") (codes "http") []
    ∷ route_at (codes "b.io") (codes "http") (codes "/api/*")
    ∷ route_at (codes "B.io") (codes "grpc") []
    ∷ []

grpc_first :
    order_routes no_net mixed
    ≡ route_at (codes "a.io") (codes "http") []
      ∷ route_at (codes "B.io") (codes "grpc") []
      ∷ route_at (codes "b.io") (codes "http") (codes "/api/*")
      ∷ route_at (codes "b.io") (codes "http") []
      ∷ []
unfolding order_routes group_loop emit route_less normalize_domain domain_less sort_stable
    insert_sorted lookup insert text_beq text_lt count_byte trim_space trim_left to_lower trim_last
grpc_first = refl
