-- ===== src/Gateway/Upstream.antt =====
-- pkg/webircgateway/client.go: how a client gets its upstream connection.
pub mod States
pub mod Connects
use webircgateway.Base.{
  ℕ, Bool, true, false, not, ◌&&◌, Option, none, some, List, [], ◌∷◌, ◌++◌, ltb, if◌then◌else◌,
  Outcome, ok, ◌>>=◌,
}
use webircgateway.Dict.{Dict}
use webircgateway.Text.Bytes.{Bytes, codes, is_empty, has_prefix, contains}
use webircgateway.Identd.Server.{add_ident, remove_ident}
use webircgateway.Gateway.Config.{ConfigProxy, ConfigUpstream, empty_upstream}
use webircgateway.Gateway.Client.{
  Client, ClientState, send_client_signal, send_irc_error, start_shutdown,
}
use webircgateway.Gateway.Access.{find_upstream, find_webirc_password, is_irc_address_allowed}
use webircgateway.Gateway.Errors.{type_of_err, dial_reason, proxy_reason}
use webircgateway.Gateway.Replace.{make_client_replacements}
use webircgateway.Gateway.World.{
  World, Outside, DirectDial, direct_fails, direct_connects, with_client, on_client,
}
use webircgateway.Proxy.Connection.{make_kiwi_proxy_connection, dial, net_error, DialError}

-- client.SendClientSignal("state", "closed", why) and client.StartShutdown(reason)
unfoldable pub close_client : Bytes → Bytes → Client → Outcome Client
close_client why reason c =
    send_client_signal (codes "state") (codes "closed" ∷ why ∷ []) c >>= start_shutdown reason

-- upstream.Write, on a connection that is not nil
unfoldable pub written : Bytes → Option (List Bytes) → Option (List Bytes)
written line none = none
written line (some lines) = some (lines ++ line ∷ [])

unfoldable pub write_upstream : Bytes → Client → Client
write_upstream line c = record c { upstream = written line c.upstream }

pub tags_onto : Bytes → Dict Bytes → Bytes
tags_onto str [] = str
tags_onto str ((key, val) ∷ tags) =
    let spaced = if not (is_empty str) then str ++ b' ' ∷ [] else str in
    tags_onto (if is_empty val then spaced ++ key else spaced ++ (key ++ b'=' ∷ val)) tags

unfoldable pub build_webirc_tags : Client → Bytes
unfolding tags_onto
build_webirc_tags c = tags_onto [] c.tags

abbrev first_set : Bytes → Bytes → Bytes
first_set a b = if is_empty a then b else a

module _ (o : Outside) where
  -- The params of the WEBIRC line behind the password.
  unfoldable pub webirc_params : Client → List Bytes
  webirc_params c =
      let name =
        first_set c.upstream_config.gateway_name
          (first_set o.config.gateway_name (codes "webircgateway")) in
      let tags = build_webirc_tags c in
      let host =
        if is_empty o.config.client_hostname
        then c.remote_hostname
        else make_client_replacements o.scan_ipv4 o.config.client_hostname c in
      let addr =
        if has_prefix c.remote_addr (codes ":") then b'0' ∷ c.remote_addr else c.remote_addr in
      name ∷ host ∷ addr ∷ (if contains tags (codes " ") then b':' ∷ tags else tags) ∷ []

  pub spaced_line : Bytes → List Bytes → Bytes
  spaced_line line [] = line ++ b'\n' ∷ []
  spaced_line line (p ∷ ps) = spaced_line (line ++ b' ' ∷ p) ps

  unfoldable pub write_webirc_lines : Client → Client
  unfolding write_upstream spaced_line
  write_webirc_lines c =
      if is_empty c.upstream_config.webirc_password
      then c
      else write_upstream
          (spaced_line (codes "WEBIRC") (c.upstream_config.webirc_password ∷ webirc_params c)) c

  unfoldable pub maybe_send_pass : Client → Client
  unfolding write_upstream
  maybe_send_pass c =
      if is_empty c.upstream_config.server_password
      then c
      else write_upstream (codes "PASS " ++ (c.upstream_config.server_password ++ b'\n' ∷ []))
          (record c { sent_pass = true })

  unfoldable pub configure_upstream : Client → ConfigUpstream
  configure_upstream c = record empty_upstream {
    hostname = c.dest_host;
    port = c.dest_port;
    tls = c.dest_tls;
    timeout = o.config.gateway_timeout;
    throttle = o.config.gateway_throttle;
    webirc_password = find_webirc_password o.config c.dest_host;
    protocol = o.config.gateway_protocol;
    local_addr = o.config.gateway_local_addr;
  }

  -- A dial that failed: the client is told why and shut down, and there is no connection.
  pub dial_failed : Bytes → World → Outcome (World × Bool)
  dial_failed why w =
      on_client (close_client why (codes "err_connecting_upstream")) w >>= λ w. ok (w, false)

  -- The ports go to identd before the TLS handshake.
  pub register_ports : ℕ → ℕ → World → World
  register_ports local_port remote_port w =
      let c = w.client in
      if o.config.identd
      then record w {
        client = record c {
          irc_state = record (c.irc_state) { local_port = local_port; remote_port = remote_port };
        };
        idents = add_ident local_port remote_port c.irc_state.username w.idents;
      }
      else w

  pub dial_directly : DirectDial → World → Outcome (World × Bool)
  dial_directly (direct_fails e) w = dial_failed (dial_reason (type_of_err (some (net_error e)))) w
  dial_directly (direct_connects local_port remote_port) w =
      let u = w.client.upstream_config in
      let w = register_ports local_port remote_port w in
      if u.tls && not (o.tls_ok u) then dial_failed (codes "err_tls") w else ok (w, true)

  pub dialed_proxy : Option DialError → World → Outcome (World × Bool)
  dialed_proxy none w = ok (w, true)
  dialed_proxy (some e) w = dial_failed (proxy_reason (type_of_err (some e))) w

  -- Directly, or through the proxy of the upstream's configuration.
  pub connect_by : Option ConfigProxy → World → Outcome (World × Bool)
  connect_by none w = dial_directly (o.direct w.client.upstream_config) w
  connect_by (some p) w =
      dialed_proxy (dial (o.proxy_answer w.client.upstream_config) make_kiwi_proxy_connection).1 w

  -- The Boolean tells whether there is a connection.
  unfoldable pub make_upstream_connection : World → Outcome (World × Bool)
  unfolding dial_failed register_ports dial_directly dialed_proxy connect_by
  make_upstream_connection w = connect_by w.client.upstream_config.proxy w

  -- The upstream to connect to, or none behind the client's shutdown: one of those configured, or the one that
  -- the client asked for.
  unfoldable pub configured_upstream : Client → Outcome (Client × Option ConfigUpstream)
  configured_upstream c = find_upstream o.pick o.config >>= λ u. elim u [
    | none ↦ do
      c ← send_irc_error (codes "The server has not been configured") c
      c ← start_shutdown (codes "err_no_upstream") c
      ok (c, none)
    | some u ↦ ok (c, some u)
  ]

  unfoldable pub requested_upstream : Client → Outcome (Client × Option ConfigUpstream)
  requested_upstream c =
      if not (is_irc_address_allowed o.matches o.config c.dest_host)
      then (do
        d ← send_irc_error (codes "Not allowed to connect to " ++ c.dest_host) c
        d ← close_client (codes "err_forbidden") (codes "err_no_upstream") d
        ok (d, none))
      else ok (c, some (configure_upstream c))

  unfoldable pub choose_upstream : Client → Outcome (Client × Option ConfigUpstream)
  choose_upstream c = if is_empty c.dest_host then configured_upstream c else requested_upstream c

  -- What follows a connection that was made.
  pub register : World → Outcome World
  register w =
      let c : Client = record (w.client) { state = ClientState.registering; upstream = some [] } in
      send_client_signal (codes "state") (codes "connected" ∷ [])
        (maybe_send_pass (write_webirc_lines c))
      >>= λ c. ok (with_client w c)

  pub connect_chosen : World → Client × Option ConfigUpstream → Outcome World
  connect_chosen w (c, none) = ok (with_client w c)
  connect_chosen w (c, some u) =
      let (c, halt) = o.connection_pre (record c { upstream_config = u }) in
      if halt
      then on_client (close_client (codes "err_forbidden") (codes "err_connecting_upstream"))
          (with_client w c)
      else (make_upstream_connection (with_client w (record c { state = ClientState.connecting }))
          >>= λ r. if r.1 then register r.0 else ok r.0)

  unfoldable pub connect_upstream : World → Outcome World
  unfolding register connect_chosen
  connect_upstream w =
      choose_upstream (record (w.client) { upstream_started = true }) >>= connect_chosen w

-- readUpstream behind the connection's end: UpstreamRecv is closed, and the ident is removed.
unfoldable pub upstream_ended : World → World
upstream_ended w =
    let c : Client = record (w.client) { upstream = none } in
    if ltb 0 c.irc_state.remote_port
    then record w {
      client = c;
      idents = remove_ident c.irc_state.local_port c.irc_state.remote_port w.idents;
    }
    else record w { client = c }
