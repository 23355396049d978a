-- ===== src/Gateway/Server/Starts.antt =====
-- What Start of pkg/webircgateway/gateway.go leaves as it is, each of its parts in turn.
use webircgateway.Base.{
  ◌≡◌, refl, Bool, true, false, not, Option, none, some, List, [], ◌∷◌, ◌++◌, Outcome, ok, panic,
  diverge, ◌>>=◌, Ensures, Ensures-bind, Ensures-if,
}
use webircgateway.Text.Bytes.{Bytes, codes, is_empty, equal}
use webircgateway.Gateway.Access.{string_in_slice}
use webircgateway.Gateway.Config.{ConfigServer}
use webircgateway.Gateway.Config.Paths.{resolve_path}
use webircgateway.Gateway.Server.{
  Gateway, handle_route, add_transport, add_transports, transport_route, general_routes,
  init_http_routes, maybe_start_static_file_server, served, server_plan, add_server, HttpServer,
  start_server, start_servers, start_wait, start_gateway,
}

-- What the start of a gateway leaves as it is.
unfoldable pub Same : Gateway → Gateway → Type 0
Same g h = (h.config ≡ g.config) × (h.close_wg ≡ g.close_wg) × (h.closed_srvs ≡ g.closed_srvs)

pub any_result : {A : Type 0} (o : Outcome A) → Ensures {0, 0} o (λ _. Unit)
any_result (ok a) = tt
any_result panic = tt
any_result diverge = tt

-- Each part of the start, on the way from a gateway f.
module _ (f : Gateway) where
  handle_route-Same :
      (pattern : Bytes) (g : Gateway) → Same f g → Ensures (handle_route pattern g) (Same f)
  unfolding handle_route Same
  handle_route-Same pattern g s =
      Ensures-if (Same f) (string_in_slice pattern g.routes) panic
        (ok (record g { routes = g.routes ++ pattern ∷ [] })) tt s

  SameFirst : Gateway × Bool → Type 0
  SameFirst (g, b) = Same f g

  add_transport-Same :
      (route : Option Bytes) (r : Gateway × Bool)
      → SameFirst r
      → Ensures (add_transport route r) SameFirst
  unfolding add_transport SameFirst
  add_transport-Same none (g, b) s = s
  add_transport-Same (some route) (g, b) s =
      Ensures-bind (Same f) SameFirst (handle_route route g) (λ g. ok (g, true))
        (handle_route-Same route g s) (λ h s. s)

  add_transports-Same :
      (transports : List Bytes) (r : Gateway × Bool)
      → SameFirst r
      → Ensures (add_transports transports r) SameFirst
  unfolding add_transports
  add_transports-Same [] r s = s
  add_transports-Same (t ∷ transports) r s =
      Ensures-bind SameFirst SameFirst (add_transport (transport_route t) r)
        (add_transports transports) (add_transport-Same (transport_route t) r s)
        (add_transports-Same transports)

  general_routes-Same : (r : Gateway × Bool) → SameFirst r → Ensures (general_routes r) SameFirst
  unfolding general_routes SameFirst
  general_routes-Same (g, false) s = s
  general_routes-Same (g, true) s =
      Ensures-bind (Same f) SameFirst (handle_route (codes "/webirc/info") g) _
        (handle_route-Same (codes "/webirc/info") g s)
        (λ h s.
          Ensures-bind (Same f) SameFirst (handle_route (codes "/webirc/_status") h) _
            (handle_route-Same (codes "/webirc/_status") h s) (λ h s. s))

  init_http_routes-Same : (g : Gateway) → Same f g → Ensures (init_http_routes g) SameFirst
  unfolding init_http_routes SameFirst
  init_http_routes-Same g s =
      Ensures-bind SameFirst SameFirst (add_transports g.config.server_transports (g, false))
        general_routes (add_transports-Same g.config.server_transports (g, false) s)
        general_routes-Same

  maybe_start_static_file_server-Same :
      (g : Gateway) → Same f g → Ensures (maybe_start_static_file_server g) (Same f)
  unfolding maybe_start_static_file_server
  maybe_start_static_file_server-Same g s =
      Ensures-if (Same f) (not (is_empty g.config.webroot)) _ (ok g)
        (Ensures-bind (λ _. Unit) (Same f) (resolve_path g.config g.config.webroot) _
          (any_result (resolve_path g.config g.config.webroot))
          (λ path _. handle_route-Same (codes "/") g s))
        s

  add_server-Same : (srv : Option HttpServer) (g : Gateway) → Same f g → Same f (add_server srv g)
  unfolding add_server Same
  add_server-Same none g s = s
  add_server-Same (some srv) g s = s

  start_servers-Same :
      (loads : Bytes → Bytes → Bool) (confs : List ConfigServer) (g : Gateway)
      → Same f g
      → Ensures (start_servers loads confs g) (Same f)
  unfolding start_servers start_server
  start_servers-Same loads [] g s = s
  start_servers-Same loads (conf ∷ confs) g s =
      Ensures-bind (Same f) (Same f) (start_server loads conf g) (start_servers loads confs)
        (Ensures-bind (λ _. Unit) (Same f) (server_plan g.config conf) _
          (any_result (server_plan g.config conf))
          (λ plan _. add_server-Same (served loads plan) g s))
        (start_servers-Same loads confs)

-- Start leaves the options and adds one to the counter that Close takes from.
pub start_gateway-Same :
    (loads : Bytes → Bytes → Bool) (function : Bytes) (g : Gateway)
    → Ensures (start_gateway loads function g) (Same (start_wait g))
unfolding start_gateway SameFirst
start_gateway-Same loads function g =
    let f = start_wait g in
    let here : Same f f = unfold Same in (refl, refl, refl) in
    Ensures-if (Same f) (equal function (codes "gateway")) _ (ok f)
      (Ensures-bind (SameFirst f) (Same f) (maybe_start_static_file_server f >>= init_http_routes)
        (λ r. start_servers loads g.config.servers (r.0))
        (Ensures-bind (Same f) (SameFirst f) (maybe_start_static_file_server f) init_http_routes
          (maybe_start_static_file_server-Same f f here) (init_http_routes-Same f))
        (λ r s. start_servers-Same f loads g.config.servers (r.0) s))
      here
