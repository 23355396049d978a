-- ===== src/Gateway/FromClient.antt =====
-- ProcessLineFromClient of pkg/webircgateway/client_command_handlers.go, from CAP on, whose lines are in Caps: what a
-- client says to a gateway that plays the part of a server for message tags and EXTJWT tokens.
pub mod Caps
pub mod Tokens
pub mod Relay
pub mod ClientTags
use webircgateway.Base.{
  ℕ, zero, suc, ◌+◌, ◌*◌, Bool, false, ◌&&◌, ◌||◌, Option, none, some, List, [], ◌∷◌, ◌++◌, map,
  ltb, if◌then◌else◌, length, take, drop, Outcome, ok, diverge, ◌>>=◌, or_panic,
}
use webircgateway.Text.Bytes.{Bytes, codes, is_empty, equal, to_lower, equal_fold}
use webircgateway.Dict.{Dict}
use webircgateway.Irc.Message.{
  Message, ParseError, get_param, parse_line, to_line, new_message, Mask,
}
use webircgateway.Irc.State.{StateChannel, get_channel, has_channel}
use webircgateway.Gateway.Client.{Client, send_data, send_irc_fail}
use webircgateway.Gateway.MessageTags.{
  can_message_contain_client_tags, add_tags_from_message, is_client_tag,
}
use webircgateway.Gateway.World.{World, Outside, Claims, on_client}
use webircgateway.Gateway.Registration.{
  Flow, goes_on, returns, drops, then_on, is_command, before_upstream,
}
use webircgateway.Gateway.FromClient.Caps.{on_client_ls, on_client_req}

-- A TAGMSG for one of the gateway's clients: on the same network, and the target or in its channel.
unfoldable pub deliver : Bytes → Bytes → Bytes → Client → Outcome Client
deliver host target line c =
    if equal (to_lower c.upstream_config.hostname) host
      && (equal_fold target c.irc_state.nick || has_channel c.irc_state target)
    then send_data line c
    else ok c

unfoldable pub deliver_all : Bytes → Bytes → Bytes → List Client → Outcome (List Client)
deliver_all host target line [] = ok []
deliver_all host target line (c ∷ cs) = do
  c ← deliver host target line c
  cs ← deliver_all host target line cs
  ok (c ∷ cs)

-- The line that the others see: the sender's nick alone is its source.
unfoldable pub tagmsg_line : Message → Mask → Bytes → Bytes
tagmsg_line m p nick =
    to_line (record m { prefix = some (record p { nick = nick; username = []; hostname = [] }) })

-- The sender is a client of the gateway too, and its peers are told behind it.
pub relay_to : Bytes → Message → World → Mask → Outcome Flow
relay_to target m w p = do
  let sent = tagmsg_line m p w.client.irc_state.nick
  let host = to_lower w.client.upstream_config.hostname
  c ← deliver host target sent w.client
  peers ← deliver_all host target sent w.peers
  ok (drops (record w { client = c; peers = peers }))

pub relay_tags : Message → List Bytes → World → Outcome Flow
relay_tags m [] w = ok (drops w)
relay_tags m (target ∷ params) w = or_panic m.prefix >>= relay_to target m w

unfoldable pub on_tagmsg : Message → Bytes → World → Outcome Flow
unfolding relay_tags relay_to
on_tagmsg m line w =
    if w.client.messagetags && equal m.command (codes "TAGMSG")
    then relay_tags m m.params w
    else ok (goes_on m line w)

unfoldable pub drop_client_tags : Dict Bytes → Dict Bytes
drop_client_tags [] = []
drop_client_tags ((name, value) ∷ tags) =
    let rest = drop_client_tags tags in if is_client_tag name then rest else (name, value) ∷ rest

module _ (o : Outside) where
  -- The client's own tags are stored, and do not go upstream.
  unfoldable pub on_client_tags : Message → Bytes → World → Outcome Flow
  on_client_tags m line w =
      let c = w.client in
      let stored =
        add_tags_from_message o.digest o.now c.upstream_config.hostname c.irc_state.nick m
          w.tag_manager in
      let m' : Message = record m { tags = drop_client_tags m.tags } in
      if c.messagetags && can_message_contain_client_tags m
      then ok (goes_on m' (to_line m') (record w { tag_manager = stored }))
      else ok (goes_on m line w)

abbrev pub max_extjwt_size : ℕ
max_extjwt_size = 200

-- The loop that splits a token: the lines of its parts, and what is left of it. Each round takes 200 bytes,
-- so its length is enough fuel.
unfoldable pub send_parts : ℕ → Message → Bytes → Client → Outcome (Client × Bytes)
send_parts zero m token c = diverge
send_parts (suc fuel) m token c =
    let part =
      to_line (record m { params = m.params ++ codes "*" ∷ take max_extjwt_size token ∷ [] }) in
    let rest = λ (c : Client). send_parts fuel m (drop max_extjwt_size token) c in
    if ltb max_extjwt_size (length token) then send_data part c >>= rest else ok (c, token)

unfoldable pub send_token : Message → Bytes → Client → Outcome Client
send_token m token c = do
  r ← send_parts (suc (length token)) m token c
  send_data (to_line (record m { params = m.params ++ r.1 ∷ [] })) r.0

-- A param that names nothing: missing, empty or "*"
abbrev pub is_any : Bytes → Bool
is_any p = is_empty p || equal p (codes "*")

module _ (o : Outside) where
  unfoldable pub claims_of : Client → Claims
  claims_of c = record {
    exp = o.now + 60;
    iss =
        if is_empty c.upstream_config.network_common_address
        then c.upstream_config.hostname
        else c.upstream_config.network_common_address;
    sub = c.irc_state.nick;
    account = c.irc_state.account;
    channel = [];
    joined = 0;
    cmodes = [];
  }

  abbrev pub channel_claims : StateChannel → Claims → Claims
  channel_claims ch claims = record claims {
    channel = ch.name;
    joined = ch.joined;
    cmodes = map (λ t. t.0) ch.modes;
  }

  abbrev pub server_line : Client → Bytes → List Bytes → Message
  server_line c command params = record new_message {
    prefix = some c.server_message_prefix;
    command = command;
    params = params;
  }

  pub sign_and_send : Bytes → Claims → Client → Outcome Client
  sign_and_send target claims c = elim (o.sign claims) [
    | none ↦
        send_irc_fail
          (codes "EXTJWT" ∷ codes "UNKNOWN_ERROR" ∷ codes "Failed to generate token" ∷ []) c
    | some token ↦ send_token (server_line c (codes "EXTJWT") (target ∷ codes "*" ∷ [])) token c
  ]

  pub with_service : Bytes → Bytes → Claims → Client → Outcome Client
  with_service service target claims c =
      if is_any service
      then sign_and_send target claims c
      else send_irc_fail (codes "EXTJWT" ∷ codes "NO_SUCH_SERVICE" ∷ codes "No such service" ∷ []) c

  -- The target is the client itself, or a channel that it is in.
  unfoldable pub issue_token : Bytes → Bytes → Client → Outcome Client
  unfolding sign_and_send with_service
  issue_token target service c =
      if is_any target
      then with_service service (codes "*") (claims_of c) c
      else elim (get_channel c.irc_state target) [
        | none ↦
            send_data
              (to_line (
                server_line c (codes "403")
                  (c.irc_state.nick ∷ target ∷ codes "No such channel" ∷ [])))
              c
        | some ch ↦ with_service service target (channel_claims ch (claims_of c)) c
      ]

  unfoldable pub on_extjwt : Message → Bytes → World → Outcome Flow
  on_extjwt m line w =
      if w.client.ext_jwt && is_command m (codes "EXTJWT")
      then (on_client (issue_token (get_param m 0 []) (get_param m 1 [])) w >>= λ w. ok (drops w))
      else ok (goes_on m line w)

  unfoldable pub process_client_message : Message → Bytes → World → Outcome Flow
  process_client_message m line w =
      then_on
        (then_on
          (then_on (then_on (then_on (before_upstream o m line w) on_client_ls) on_client_req)
            on_tagmsg)
          (on_client_tags o))
        on_extjwt

  pub flow_result : Flow → World × Bytes × Bool
  flow_result (goes_on m line w) = (w, line, false)
  flow_result (returns line err w) = (w, line, err)

  pub process_client_parsed :
      Bytes → World → Message × Option ParseError → Outcome (World × Bytes × Bool)
  process_client_parsed line w (m, some e) = ok (w, line, false)
  process_client_parsed line w (m, none) =
      process_client_message m line w >>= λ f. ok (flow_result f)

  -- The line to send on, and whether there is an error.
  unfoldable pub process_line_from_client : Bytes → World → Outcome (World × Bytes × Bool)
  unfolding process_client_parsed flow_result
  process_line_from_client line w = parse_line line >>= process_client_parsed line w
