-- ===== src/Gateway/Server/Tests.antt =====
-- A configuration that names a transport twice.
use webircgateway.Base.{◌≡◌, refl, true, false, [], ◌∷◌, ◌++◌, if◌then◌else◌, ok, panic}
use webircgateway.Text.Bytes.{codes, equal}
use webircgateway.Gateway.Access.{string_in_slice}
use webircgateway.Gateway.Client.Tests.{config}
use webircgateway.Gateway.Server.{Gateway, new_gateway, init_http_routes}
use webircgateway.Gateway.Server.Routes.{
  wanted, all_new, is_some_route, info_routes, without_info, init_http_routes_lem,
}

abbrev gateway : Gateway
gateway = record (new_gateway config) {
  config = record config {
    server_transports = codes "kiwiirc" ∷ codes "none" ∷ codes "kiwiirc" ∷ [];
  };
  routes = codes "/" ∷ [];
}

without : without_info gateway.routes ≡ true
unfolding string_in_slice equal
without = refl

-- The second "kiwiirc" is the route of the first.
twice : init_http_routes gateway ≡ panic
unfolding init_http_routes string_in_slice equal
twice = refl

init_http_routes_lem_example :
    let more = wanted gateway.config.server_transports in
    init_http_routes gateway ≡ (
      if all_new gateway.routes more
      then ok (
          if is_some_route more
          then (record gateway { routes = gateway.routes ++ more ++ info_routes }, true)
          else (gateway, false))
      else panic)
init_http_routes_lem_example = init_http_routes_lem gateway without
