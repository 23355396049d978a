-- ===== src/Gateway/Lines/Tests.antt =====
-- Runs of a client that connects, waits for its captcha, asks for a host or a token, or tags a message.
use webircgateway.Base.{
  ◌⊎◌, inl, ◌-◌, ◌≡◌, refl, true, false, ◌||◌, none, some, List, [], ◌∷◌, ◌++◌, arith, length, ok,
  pos, Returns,
}
use webircgateway.Text.Bytes.{Bytes, codes, equal, to_upper}
use webircgateway.Dict.{Dict}
use webircgateway.Irc.Message.{Mask, empty_mask, to_line, Message, new_message}
use webircgateway.Recaptcha.{read_fails}
use webircgateway.Gateway.Config.{Config, empty_upstream}
use webircgateway.Gateway.Client.{Client, new_client}
use webircgateway.Gateway.Client.Lifecycle.{IsLive, new_client-IsLive}
use webircgateway.Gateway.Client.Tests.{config, client}
use webircgateway.Gateway.MessageTags.{MessageTagManager, new_manager}
use webircgateway.Gateway.MessageTags.{can_message_contain_client_tags}
use webircgateway.Gateway.MessageTags.Laws.{IsPlainPart}
use webircgateway.Gateway.FromClient.ClientTags.{Stored, on_client_tags_lem}
use webircgateway.Gateway.World.{World, Outside, direct_connects, with_client}
use webircgateway.Gateway.Upstream.{connect_upstream}
use webircgateway.Gateway.Upstream.States.{IsOpen}
use webircgateway.Gateway.Upstream.Connects.{Settled, connect_upstream-Settled}
use webircgateway.Gateway.Registration.{goes_on, before_upstream, is_command, on_host, drops}
use webircgateway.Gateway.Registration.Address.{address_text, on_host-address}
use webircgateway.Gateway.FromClient.{on_tagmsg, on_client_tags, send_token}
use webircgateway.Gateway.FromClient.Relay.{Heard, EachHeard, on_tagmsg_lem}
use webircgateway.Gateway.FromClient.Tokens.{part_signals, data_signal, SplitsInto, send_token_lem}
use webircgateway.Gateway.Registration.Waiting.{Waits, WaitsOn}
use webircgateway.Gateway.Registration.Verification.{Grants, before_upstream-WaitsOn}
use webircgateway.Proxy.Connection.{reads}

abbrev guarded : Config
guarded = record config {
  requires_verification = true;
  upstreams = empty_upstream ∷ [];
  identd = true;
}

abbrev outside : Outside
outside = record {
  config = guarded;
  matches = equal;
  pick = λ n. n - 1;
  now = 100;
  connection_pre = λ c. (c, false);
  line_hook = λ up m line c. (c, line, false);
  direct = λ u. direct_connects 40000 6667;
  tls_ok = λ u. true;
  proxy_answer = λ u. reads (codes "1");
  scan_ipv4 = λ s. [];
  digest = length;
  valid_utf8 = λ s. true;
  charset = λ name. none;
  recaptcha = record {
    post_form = λ url secret response. read_fails [];
    unmarshal = λ text. inl [];
  };
  sign = λ claims. none;
}

abbrev world : World
world = record { client = client; peers = []; tag_manager = new_manager; idents = []; pending = [] }

client-IsOpen : IsOpen client
unfolding new_client
client-IsOpen = record { live = new_client-IsLive config 2; serving = refl; unconnected = refl }

connect_upstream-Settled_example : Returns (connect_upstream outside world) (Settled outside)
connect_upstream-Settled_example =
    connect_upstream-Settled outside world (λ n h. omega arith) (λ c h. h) client-IsOpen

abbrev unverified : World
unverified = record world { client = new_client guarded 3 }

waiting : Waits (new_client guarded 3)
unfolding new_client
waiting = record {
  live = new_client-IsLive guarded 3;
  required = refl;
  unverified = refl;
  unstarted = refl;
}

abbrev user : Message
user = record new_message {
  command = codes "USER";
  params = codes "me" ∷ codes "0" ∷ codes "*" ∷ codes "Me" ∷ [];
}

before_upstream-WaitsOn_example :
    Returns (before_upstream outside user (codes "USER me 0 * Me") unverified) WaitsOn
    ⊎ Grants outside user
before_upstream-WaitsOn_example =
    before_upstream-WaitsOn outside user (codes "USER me 0 * Me") unverified waiting

abbrev choosing : Outside
choosing = record outside { config = record guarded { gateway = true } }

abbrev host : Message
host = record new_message {
  command = codes "HOST";
  params = address_text (codes "irc.example") true 6697 ∷ [];
}

host_command : is_command host (codes "HOST") ≡ true
unfolding equal to_upper
host_command = refl

not_started : world.client.upstream_started ≡ false
unfolding new_client
not_started = refl

on_host-address_example :
    on_host choosing host (codes "HOST irc.example:+6697") world
    ≡ ok (
        drops (
          with_client world (record (world.client) {
            dest_host = codes "irc.example";
            dest_port = pos 6697;
            dest_tls = true || world.client.dest_tls;
          })))
on_host-address_example =
    on_host-address choosing host (codes "HOST irc.example:+6697") world (codes "irc.example") true
      6697 [] host_command refl refl not_started (omega arith)

serving : client.shutting_down ≡ false
unfolding new_client
serving = refl

send_token_lem_example :
    (parts : List Bytes) × (last : Bytes) × (send_token new_message (codes "abc") client
      ≡ ok (record client {
        signals =
            (client.signals ++ part_signals new_message parts)
            ++ data_signal new_message (last ∷ []) ∷ [];
      }))
    × SplitsInto (codes "abc") parts last
send_token_lem_example =
    send_token_lem new_message (codes "abc") client (new_client-IsLive config 2) serving

abbrev wrapping : World
wrapping = record world { client = record client { messagetags = true } }

abbrev typing : Message
typing = record new_message {
  tags = (codes "+typing", codes "done") ∷ (codes "time", codes "1") ∷ [];
  command = codes "PRIVMSG";
  params = codes "#chan" ∷ codes "hello" ∷ [];
}

holds_tags : can_message_contain_client_tags typing ≡ true
unfolding can_message_contain_client_tags equal
holds_tags = refl

on_client_tags_lem_example :
    (kept : Dict Bytes) × (t : MessageTagManager) × (on_client_tags outside typing
        (codes "PRIVMSG #chan hello")
        wrapping
      ≡ (let m' : Message = record typing { tags = kept } in
          ok (goes_on m' (to_line m') (record wrapping { tag_manager = t }))))
    × IsPlainPart typing.tags kept
    × Stored outside typing wrapping t
on_client_tags_lem_example =
    on_client_tags_lem outside typing (codes "PRIVMSG #chan hello") wrapping refl holds_tags

abbrev meeting : World
meeting = record wrapping { peers = new_client config 7 ∷ [] }

abbrev tag_message : Message
tag_message = record new_message {
  prefix = some empty_mask;
  command = codes "TAGMSG";
  params = codes "#chan" ∷ [];
}

wrapping-IsLive : IsLive wrapping.client
wrapping-IsLive = let live = new_client-IsLive config 2 in live

on_tagmsg_lem_example :
    (c : Client) × (cs : List Client) × (on_tagmsg tag_message (codes "TAGMSG #chan") meeting
      ≡ ok (drops (record meeting { client = c; peers = cs })))
    × (let host = meeting.client.upstream_config.hostname in
        let source : Mask = record empty_mask {
          nick = meeting.client.irc_state.nick;
          username = [];
          hostname = [];
        } in
        let sent = to_line (record tag_message { prefix = some source }) in
        Heard host (codes "#chan") sent meeting.client c
        × EachHeard host (codes "#chan") sent meeting.peers cs)
on_tagmsg_lem_example =
    on_tagmsg_lem tag_message (codes "TAGMSG #chan") meeting empty_mask (codes "#chan") [] refl refl
      refl refl wrapping-IsLive (new_client-IsLive config 7, tt)
