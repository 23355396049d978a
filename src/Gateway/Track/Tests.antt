-- ===== src/Gateway/Track/Tests.antt =====
-- A mode of the client's own nick on a channel that it has not joined.
use webircgateway.Base.{◌≡◌, refl, true, some, [], ◌∷◌}
use webircgateway.Text.Bytes.{Bytes, codes, equal_fold, has_prefix}
use webircgateway.Irc.Message.{Mask, Message, new_message}
use webircgateway.Gateway.Client.Lifecycle.{new_client-IsLive}
use webircgateway.Gateway.Client.Tests.{client, config}
use webircgateway.Gateway.Track.{track}
use webircgateway.Gateway.Track.Modes.{Decided, LiveAs}
use webircgateway.Gateway.Track.Nick.{breaks, nick_after, track_lem}

abbrev server : Mask
server = record {
  nick = codes "irc.example";
  username = [];
  hostname = [];
  mask = codes "irc.example";
}

abbrev op : Message
op = record new_message {
  prefix = some server;
  command = codes "MODE";
  params = codes "#chan" ∷ codes "+o" ∷ [] ∷ [];
}

breaks-op : breaks op client ≡ true
unfolding breaks webircgateway.Gateway.Track.Modes.short_isupport
    webircgateway.Gateway.Track.has_command webircgateway.Gateway.Track.Modes.nil_mode
    webircgateway.Irc.State.get_channel webircgateway.Dict.lookup
    webircgateway.Gateway.Client.new_client webircgateway.Text.Bytes.has_prefix
    webircgateway.Irc.Message.get_param webircgateway.Gateway.Track.Modes.names_nick
    webircgateway.Text.Bytes.equal_fold
breaks-op = refl

track_lem_example :
    Decided
      (breaks op client)
      (track 5 op client)
      (LiveAs (nick_after op server client.irc_state.nick))
track_lem_example = track_lem 5 op server client refl (new_client-IsLive config 2)
