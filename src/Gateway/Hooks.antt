-- ===== src/Gateway/Hooks.antt =====
-- pkg/webircgateway/hooks.go: the callbacks registered for an event, and their dispatch. The client and the upstream's
-- configuration, to which a hook points, are part of the world W that a callback changes. A hook's ID is left out.
pub mod Order
mod Tests
use webircgateway.Base.{Bool, Option, none, some, List, [], ◌∷◌, ◌++◌}
use webircgateway.Text.Bytes.{Bytes}
use webircgateway.Irc.Message.{Message}
use webircgateway.Dict.{Dict, lookup, insert}

pub record HookIrcConnectionPre : Type 0 where
  pub halt : Bool

pub record HookIrcLine : Type 0 where
  pub halt : Bool
  pub line : Bytes
  pub message : Option Message
  pub to_server : Bool

pub record HookClientState : Type 0 where
  pub halt : Bool
  pub connected : Bool

pub record HookClientInit : Type 0 where
  pub halt : Bool
  pub connected : Bool

pub record HookStatus : Type 0 where
  pub halt : Bool
  pub line : Bytes

pub record HookGatewayClosing : Type 0 where
  pub halt : Bool

-- A registered value: a function of one of the hooks' types, which may change the hook and the world W behind the
-- pointers, or any other value.
pub data Callback (W : Type 0) : Type 0 where
  connection_pre : (HookIrcConnectionPre × W → HookIrcConnectionPre × W) → Callback W
  irc_line : (HookIrcLine × W → HookIrcLine × W) → Callback W
  client_state : (HookClientState × W → HookClientState × W) → Callback W
  client_init : (HookClientInit × W → HookClientInit × W) → Callback W
  status : (HookStatus × W → HookStatus × W) → Callback W
  gateway_closing : (HookGatewayClosing × W → HookGatewayClosing × W) → Callback W
  other : Callback W

-- hooksRegistered
abbrev pub Registry : Type 0 → Type 0
Registry W = Dict (List (Callback W))

abbrev pub call_if : {S : Type 0} → Option (S → S) → S → S
call_if none s = s
call_if (some f) s = f s

module _ {W : Type 0} where
  abbrev pub or_empty : Option (List (Callback W)) → List (Callback W)
  or_empty none = []
  or_empty (some callbacks) = callbacks

  unfoldable pub hook_register : Bytes → Callback W → Registry W → Registry W
  hook_register name p r = insert r name (or_empty (lookup r name) ++ p ∷ [])

  unfoldable pub get_callbacks : Registry W → Bytes → List (Callback W)
  get_callbacks r event = or_empty (lookup r event)

  -- p.(func(*Hook)), for each type of hook
  abbrev pub as_connection_pre :
      Callback W → Option (HookIrcConnectionPre × W → HookIrcConnectionPre × W)
  as_connection_pre (connection_pre f) = some f
  as_connection_pre (irc_line f) = none
  as_connection_pre (client_state f) = none
  as_connection_pre (client_init f) = none
  as_connection_pre (status f) = none
  as_connection_pre (gateway_closing f) = none
  as_connection_pre other = none

  abbrev pub as_irc_line : Callback W → Option (HookIrcLine × W → HookIrcLine × W)
  as_irc_line (connection_pre f) = none
  as_irc_line (irc_line f) = some f
  as_irc_line (client_state f) = none
  as_irc_line (client_init f) = none
  as_irc_line (status f) = none
  as_irc_line (gateway_closing f) = none
  as_irc_line other = none

  abbrev pub as_client_state : Callback W → Option (HookClientState × W → HookClientState × W)
  as_client_state (connection_pre f) = none
  as_client_state (irc_line f) = none
  as_client_state (client_state f) = some f
  as_client_state (client_init f) = none
  as_client_state (status f) = none
  as_client_state (gateway_closing f) = none
  as_client_state other = none

  abbrev pub as_client_init : Callback W → Option (HookClientInit × W → HookClientInit × W)
  as_client_init (connection_pre f) = none
  as_client_init (irc_line f) = none
  as_client_init (client_state f) = none
  as_client_init (client_init f) = some f
  as_client_init (status f) = none
  as_client_init (gateway_closing f) = none
  as_client_init other = none

  abbrev pub as_status : Callback W → Option (HookStatus × W → HookStatus × W)
  as_status (connection_pre f) = none
  as_status (irc_line f) = none
  as_status (client_state f) = none
  as_status (client_init f) = none
  as_status (status f) = some f
  as_status (gateway_closing f) = none
  as_status other = none

  abbrev pub as_gateway_closing :
      Callback W → Option (HookGatewayClosing × W → HookGatewayClosing × W)
  as_gateway_closing (connection_pre f) = none
  as_gateway_closing (irc_line f) = none
  as_gateway_closing (client_state f) = none
  as_gateway_closing (client_init f) = none
  as_gateway_closing (status f) = none
  as_gateway_closing (gateway_closing f) = some f
  as_gateway_closing other = none

  -- The loop of each Dispatch, with the type assertion of its hook.
  unfoldable pub call_each :
      {S : Type 0} → (Callback W → Option (S → S)) → List (Callback W) → S → S
  call_each as_hook [] s = s
  call_each as_hook (p ∷ ps) s = call_each as_hook ps (call_if (as_hook p) s)

  module _ (r : Registry W) (event : Bytes) where
    unfoldable pub dispatch_connection_pre : HookIrcConnectionPre × W → HookIrcConnectionPre × W
    unfolding call_each get_callbacks
    dispatch_connection_pre = call_each as_connection_pre (get_callbacks r event)

    unfoldable pub dispatch_irc_line : HookIrcLine × W → HookIrcLine × W
    unfolding call_each get_callbacks
    dispatch_irc_line = call_each as_irc_line (get_callbacks r event)

    unfoldable pub dispatch_client_state : HookClientState × W → HookClientState × W
    unfolding call_each get_callbacks
    dispatch_client_state = call_each as_client_state (get_callbacks r event)

    unfoldable pub dispatch_client_init : HookClientInit × W → HookClientInit × W
    unfolding call_each get_callbacks
    dispatch_client_init = call_each as_client_init (get_callbacks r event)

    unfoldable pub dispatch_status : HookStatus × W → HookStatus × W
    unfolding call_each get_callbacks
    dispatch_status = call_each as_status (get_callbacks r event)

    unfoldable pub dispatch_gateway_closing : HookGatewayClosing × W → HookGatewayClosing × W
    unfolding call_each get_callbacks
    dispatch_gateway_closing = call_each as_gateway_closing (get_callbacks r event)
