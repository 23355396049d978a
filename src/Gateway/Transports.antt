-- ===== src/Gateway/Transports.antt =====
-- How the transports of pkg/webircgateway make a client of a connection: its address, its host name, its tags.
pub mod Hostname
pub mod Wire
pub mod Delivery
mod Tests
pub mod Kiwiirc
use webircgateway.Base.{
  ℕ, Bool, true, false, not, ◌&&◌, Option, none, some, List, [], ◌∷◌, ◌==◌, if◌then◌else◌, Outcome,
  ok, panic, ◌>>=◌,
}
use webircgateway.Text.Bytes.{Bytes, codes, equal, to_lower, trim}
use webircgateway.Dict.{insert}
use webircgateway.Dnsbl.{Dns}
use webircgateway.Gateway.Config.{Config}
use webircgateway.Gateway.Access.{
  is_client_origin_allowed, Net, Request, get_remote_address, is_request_secure,
}
use webircgateway.Gateway.Client.{Client, new_client}
use webircgateway.Gateway.Ready.{ready}

-- What DNS answers on an address: its names, none for an error; and on a name: its addresses as texts.
pub record Resolver : Type 0 where
  pub lookup_addr : Bytes → Option (List Bytes)
  pub lookup_ip : Bytes → Option (List Bytes)

-- len(addr) == 1 && addr[0].String() == remote
abbrev pub is_only : Option (List Bytes) → Bytes → Bool
is_only none remote = false
is_only (some []) remote = false
is_only (some (a ∷ [])) remote = equal a remote
is_only (some (a ∷ b ∷ addrs)) remote = false

module _ (res : Resolver) where
  -- A name counts only if it resolves back to the address.
  pub confirmed : Bytes → Bytes → Bytes
  confirmed remote name =
      let potential = trim (λ c. c == b'.') name in
      if is_only (res.lookup_ip potential) remote then potential else remote

  pub first_name : Bytes → Option (List Bytes) → Outcome Bytes
  unfolding confirmed
  first_name remote none = ok remote
  first_name remote (some []) = panic
  first_name remote (some (name ∷ names)) = ok (confirmed remote name)

  -- RemoteHostname in the handlers of the tcp, websocket and sockjs transports: clientHostnames[0] panics on no names.
  unfoldable pub remote_hostname : Bytes → Outcome Bytes
  unfolding first_name
  remote_hostname remote = first_name remote (res.lookup_addr remote)

  pub guarded_name : Bytes → Option (List Bytes) → Bytes
  unfolding confirmed
  guarded_name remote none = remote
  guarded_name remote (some []) = remote
  guarded_name remote (some (name ∷ names)) = confirmed remote name

  -- RemoteHostname in makeChannel of the kiwiirc transport, which looks at the number of names first.
  unfoldable pub kiwi_hostname : Bytes → Bytes
  unfolding guarded_name
  kiwi_hostname remote = guarded_name remote (res.lookup_addr remote)

-- A connection as the transports see it: the text of its address, its port, and its Origin header, with whether
-- the websocket library fails to parse that.
pub record Arrival : Type 0 where
  pub conn_addr : Bytes
  pub port : Bytes
  pub origin : Bytes
  pub origin_fails : Bool
  pub request : Request

module _ (res : Resolver) (dns : Dns) (net : Net) (glob : Bytes → Bytes → Bool)
    (addr_text : Option (net.Ip) → Bytes) (config : Config) where
  -- The client with its address, name and tags, ready.
  pub introduce : Bytes → Bytes → Bool → Bytes → Client → Outcome Client
  introduce addr name secure port c =
      let tags = if secure then insert c.tags (codes "secure") [] else c.tags in
      ready dns config (record c {
        remote_addr = addr;
        remote_hostname = name;
        tags = insert tags (codes "remote-port") port;
      })

  -- handleConn: the address keeps its port.
  unfoldable pub open_tcp : Arrival → ℕ → Outcome Client
  unfolding introduce
  open_tcp a id = do
    name ← remote_hostname res a.conn_addr
    introduce a.conn_addr name false a.port (new_client config id)

  pub open_request : Arrival → ℕ → Outcome Client
  unfolding introduce
  open_request a id =
      let addr = addr_text (get_remote_address net config a.request) in
      do
        name ← remote_hostname res addr
        introduce addr name (is_request_secure net config a.request) a.port (new_client config id)

  -- checkOrigin refuses a handshake before there is a client, also with the library's error; then websocketHandler.
  unfoldable pub open_websocket : Arrival → ℕ → Outcome (Option Client)
  unfolding open_request
  open_websocket a id =
      let opened = open_request a id >>= λ c. ok (some c) in
      if is_client_origin_allowed glob config a.origin && not a.origin_fails
      then opened
      else ok none

  -- sessionHandler of sockjs makes its client first; with a refused origin it leaves that client as it is.
  unfoldable pub open_sockjs : Arrival → ℕ → Outcome (Client × Bool)
  unfolding open_request
  open_sockjs a id =
      let opened = open_request a id >>= λ c. ok (c, true) in
      if is_client_origin_allowed glob config (to_lower a.origin)
      then opened
      else ok (new_client config id, false)

  -- makeChannel of kiwiirc, likewise.
  unfoldable pub open_kiwiirc : Arrival → ℕ → Outcome (Client × Bool)
  unfolding introduce
  open_kiwiirc a id =
      let addr = addr_text (get_remote_address net config a.request) in
      let opened =
        introduce addr (kiwi_hostname res addr) (is_request_secure net config a.request) a.port
          (new_client config id)
        >>= λ c. ok (c, true) in
      if is_client_origin_allowed glob config (to_lower a.origin)
      then opened
      else ok (new_client config id, false)
