-- ===== src/Gateway/Server/Status.antt =====
-- The status page of pkg/webircgateway/gateway.go, and isPrivateIP of utils.go, which guards it.
use webircgateway.Base.{Bool, false, not, Option, none, some, List, [], ◌∷◌, ◌++◌, if◌then◌else◌}
use webircgateway.Text.Bytes.{Bytes, codes}
use webircgateway.Gateway.Access.{Net, Request, any_range, get_remote_address}
use webircgateway.Gateway.Client.{Client, ClientState}
use webircgateway.Gateway.Config.{Config}
use webircgateway.Gateway.Hooks.{Registry, HookStatus, dispatch_status}
use webircgateway.Gateway.Server.{port_text}

abbrev state_text : ClientState → Bytes
state_text ClientState.idle = codes "idle"
state_text ClientState.connecting = codes "connecting"
state_text ClientState.registering = codes "registering"
state_text ClientState.connected = codes "connected"
state_text ClientState.ending = codes "ending"

-- The line of a client on the status page.
pub status_line : Client → Bytes
status_line c =
    c.upstream_config.hostname
    ++ (b':' ∷ port_text c.upstream_config.port)
    ++ (b' ' ∷ state_text c.state)
    ++ (b' ' ∷ c.irc_state.nick)
    ++ (b'!' ∷ c.irc_state.username)
    ++ (b' ' ∷ c.remote_addr)
    ++ (b' ' ∷ c.remote_hostname)

module _ {W : Type 0} (hooks : Registry W) where
  abbrev pub told : HookStatus → Bytes
  told h = if not h.halt then h.line ++ b'\n' ∷ [] else []

  -- The loop over the clients, each line through the hook; then what is written.
  unfoldable pub status_page : List Client → W → Bytes × W
  unfolding status_line
  status_page [] w = ([], w)
  status_page (c ∷ clients) w =
      let (h, w') =
        dispatch_status hooks (codes "status.client")
          (record { halt = false; line = status_line c }, w) in
      let (out, v) = status_page clients w' in (told h ++ out, v)

abbrev private_blocks : List Bytes
private_blocks =
    codes "127.0.0.0/8"
    ∷ codes "10.0.0.0/8"
    ∷ codes "172.16.0.0/12"
    ∷ codes "192.168.0.0/16"
    ∷ codes "::1/128"
    ∷ codes "fe80::/10"
    ∷ []

-- isPrivateIP of utils.go
unfoldable pub is_private_ip : (net : Net) → Option (net.Ip) → Bool
unfolding any_range
is_private_ip net ip = any_range net private_blocks ip

-- The status page's handler: none is the answer 403.
unfoldable pub status_response :
    {W : Type 0} → (net : Net) → Config → Registry W → Request → List Client → W → Option Bytes × W
unfolding is_private_ip status_page
status_response net config hooks req clients w =
    let (out, v) = status_page hooks clients w in
    if not (is_private_ip net (get_remote_address net config req)) then (none, w) else (some out, v)
