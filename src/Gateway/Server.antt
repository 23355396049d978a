-- ===== src/Gateway/Server.antt =====
-- pkg/webircgateway/gateway.go: the routes of the HTTP server, and the servers that are started and closed. Listening and serving are left out, and so is logging.
pub mod Routes
pub mod Status
pub mod Starts
mod Tests
use webircgateway.Base.{
  ℕ, suc, ◌+◌, ◌-◌, ◌/◌, Bool, true, false, not, ◌&&◌, ◌||◌, Option, none, some, List, [], ◌∷◌,
  ◌++◌, ◌==◌, if◌then◌else◌, drop, Outcome, ok, panic, ◌>>=◌, ℤ, pos, negsuc,
}
use webircgateway.Text.Bytes.{Bytes, codes, is_empty, equal, to_lower, has_prefix}
use webircgateway.Text.Index.{index}
use webircgateway.Text.Decimal.{format}
use webircgateway.Gateway.Access.{string_in_slice}
use webircgateway.Gateway.Config.{Config, ConfigServer}
use webircgateway.Gateway.Config.Paths.{resolve_path}

-- Gateway, up to its clients. `served` lists the servers that Close is to end, and `close_wg` is the counter of closeWg.
pub data HttpServer : Type 0 where
  plain_server tls_server acme_server : Bytes → HttpServer

pub record Gateway : Type 0 where
  pub config : Config
  pub routes : List Bytes
  pub http_srvs : List HttpServer
  pub closed_srvs : List HttpServer
  pub close_wg : ℕ

unfoldable pub new_gateway : Config → Gateway
new_gateway config = record {
  config = config;
  routes = [];
  http_srvs = [];
  closed_srvs = [];
  close_wg = 0;
}

-- HttpRouter.Handle, which panics on a pattern that is there already.
unfoldable pub handle_route : Bytes → Gateway → Outcome Gateway
unfolding string_in_slice
handle_route pattern g =
    if string_in_slice pattern g.routes
    then panic
    else ok (record g { routes = g.routes ++ pattern ∷ [] })

-- The route of a transport's Init; none is the default case of the switch.
unfoldable pub transport_route : Bytes → Option Bytes
unfolding equal
transport_route transport =
    if equal transport (codes "kiwiirc")
    then some (codes "/webirc/kiwiirc/")
    else if equal transport (codes "websocket")
    then some (codes "/webirc/websocket/")
    else if equal transport (codes "sockjs")
    then some (codes "/webirc/sockjs/")
    else none

unfoldable pub add_transport : Option Bytes → Gateway × Bool → Outcome (Gateway × Bool)
unfolding handle_route
add_transport none (g, configured) = ok (g, configured)
add_transport (some pattern) (g, configured) = handle_route pattern g >>= λ g. ok (g, true)

-- The loop over the transports, with engineConfigured.
unfoldable pub add_transports : List Bytes → Gateway × Bool → Outcome (Gateway × Bool)
unfolding add_transport transport_route
add_transports [] g = ok g
add_transports (t ∷ transports) g =
    add_transport (transport_route t) g >>= add_transports transports

unfoldable pub general_routes : Gateway × Bool → Outcome (Gateway × Bool)
unfolding handle_route
general_routes (g, false) = ok (g, false)
general_routes (g, true) = do
  g ← handle_route (codes "/webirc/info") g
  g ← handle_route (codes "/webirc/_status") g
  ok (g, true)

-- false for the error that no engine is configured
unfoldable pub init_http_routes : Gateway → Outcome (Gateway × Bool)
unfolding add_transports general_routes
init_http_routes g = add_transports g.config.server_transports (g, false) >>= general_routes

unfoldable pub maybe_start_static_file_server : Gateway → Outcome Gateway
unfolding handle_route resolve_path
maybe_start_static_file_server g =
    let handled = resolve_path g.config g.config.webroot >>= λ path. handle_route (codes "/") g in
    if not (is_empty g.config.webroot) then handled else ok g

-- What startServer does for a server's configuration; refuses for a TLS server without its files.
pub data ServerPlan : Type 0 where
  listens_tcp listens_plain : Bytes → ServerPlan
  listens_tls : Bytes → Bytes → Bytes → ServerPlan
  listens_acme : Bytes → Bytes → ServerPlan
  listens_unix : Bytes → ℕ → ServerPlan
  refuses : ServerPlan

-- The decimal text of a port.
abbrev pub port_text : ℤ → Bytes
port_text (pos n) = format n
port_text (negsuc n) = b'-' ∷ format (suc n)

abbrev pub listen_addr : Bytes → ℤ → Bytes
listen_addr host port = host ++ b':' ∷ port_text port

-- The key pair of a TLS server.
abbrev tls_plan : Config → ConfigServer → Outcome ServerPlan
tls_plan config conf =
    let planned = resolve_path config conf.cert_file >>= λ cert.
    resolve_path config conf.key_file >>= λ key.
    ok (listens_tls (listen_addr conf.local_addr conf.port) cert key) in
    if is_empty conf.cert_file || is_empty conf.key_file then ok refuses else planned

-- The choice that startServer makes.
unfoldable pub server_plan : Config → ConfigServer → Outcome ServerPlan
server_plan config conf =
    if has_prefix (to_lower conf.local_addr) (codes "tcp:")
    then ok (listens_tcp (listen_addr (drop 4 conf.local_addr) conf.port))
    else if conf.tls && is_empty conf.lets_encrypt_cache_dir
    then tls_plan config conf
    else if conf.tls && not (is_empty conf.lets_encrypt_cache_dir)
    then ok (listens_acme (listen_addr conf.local_addr conf.port) conf.lets_encrypt_cache_dir)
    else if has_prefix (to_lower conf.local_addr) (codes "unix:")
    then ok (listens_unix (drop 5 conf.local_addr) conf.bind_mode)
    else ok (listens_plain (listen_addr conf.local_addr conf.port))

-- The server that Close can end: none for a tcp or unix listener, or where the key pair does not load.
pub served : (Bytes → Bytes → Bool) → ServerPlan → Option HttpServer
served loads (listens_tcp addr) = none
served loads (listens_plain addr) = some (plain_server addr)
served loads (listens_tls addr cert key) = if loads cert key then some (tls_server addr) else none
served loads (listens_acme addr dir) = some (acme_server addr)
served loads (listens_unix path mode) = none
served loads refuses = none

unfoldable pub add_server : Option HttpServer → Gateway → Gateway
add_server none g = g
add_server (some srv) g = record g { http_srvs = g.http_srvs ++ srv ∷ [] }

-- The first argument tells whether a key pair loads.
unfoldable pub start_server : (Bytes → Bytes → Bool) → ConfigServer → Gateway → Outcome Gateway
unfolding server_plan served add_server
start_server loads conf g =
    server_plan g.config conf >>= λ plan. ok (add_server (served loads plan) g)

-- Start's closeWg.Add(1)
abbrev pub start_wait : Gateway → Gateway
start_wait g = record g { close_wg = g.close_wg + 1 }

-- The goroutines of Start, in the order in which they reach their list of servers.
unfoldable pub start_servers :
    (Bytes → Bytes → Bool) → List ConfigServer → Gateway → Outcome Gateway
unfolding start_server
start_servers loads [] g = ok g
start_servers loads (conf ∷ confs) g = start_server loads conf g >>= start_servers loads confs

-- Start; what initHttpRoutes reports is not looked at. The proxy's own Start listens for ever.
unfoldable pub start_gateway : (Bytes → Bytes → Bool) → Bytes → Gateway → Outcome Gateway
unfolding maybe_start_static_file_server init_http_routes start_servers
start_gateway loads function g =
    let serving = maybe_start_static_file_server (start_wait g) >>= init_http_routes >>= λ r.
    start_servers loads g.config.servers (r.0) in
    if equal function (codes "gateway") then serving else ok (start_wait g)

-- Close, behind its hook: the deferred Done panics on a counter of 0.
unfoldable pub close_gateway : Gateway → Outcome Gateway
close_gateway g =
    if g.close_wg == 0
    then panic
    else ok (record g { closed_srvs = g.closed_srvs ++ g.http_srvs; close_wg = g.close_wg - 1 })
