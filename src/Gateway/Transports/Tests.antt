-- ===== src/Gateway/Transports/Tests.antt =====
-- The transports at concrete clients, resolvers and sessions.
use webircgateway.Base.{
  ◌≡◌, ◌⊎◌, refl, true, false, none, some, List, [], ◌∷◌, ◌++◌, map, ok, panic, Returns,
}
use webircgateway.Text.Bytes.{codes}
use webircgateway.Text.Index.{index}
use webircgateway.Dict.{lookup, insert, EachValue}
use webircgateway.Gateway.Client.{Client, new_client}
use webircgateway.Gateway.Client.Lifecycle.{LifeOp, run, sent_by, closes, new_client-IsLive}
use webircgateway.Gateway.Client.Tests.{config}
use webircgateway.Gateway.Transports.{Resolver, remote_hostname, kiwi_hostname}
use webircgateway.Gateway.Transports.Hostname.{Confirmed, remote_hostname_lem}
use webircgateway.Gateway.Transports.Wire.{tcp_wire}
use webircgateway.Gateway.Transports.Delivery.{write_line, data_texts, ending, delivery_lem}
use webircgateway.Gateway.Transports.Kiwiirc.{
  new_channel, Session, new_session, on_message, on_read_error,
}
use webircgateway.Gateway.Transports.Kiwiirc.Steps.{Reach, opened, after, reads}
use webircgateway.Gateway.Transports.Kiwiirc.Safe.{Decided, CanFinish, Reach-safe}

-- A resolver without names, and no error.
abbrev nameless : Resolver
nameless = record { lookup_addr = λ a. some []; lookup_ip = λ n. none }

remote_hostname_lem_example :
    Confirmed nameless (codes "10.0.0.1") (kiwi_hostname nameless (codes "10.0.0.1"))
    × (((nameless.lookup_addr (codes "10.0.0.1") ≡ some [])
          × (remote_hostname nameless (codes "10.0.0.1") ≡ panic))
        ⊎ (remote_hostname nameless (codes "10.0.0.1")
            ≡ ok (kiwi_hostname nameless (codes "10.0.0.1"))))
remote_hostname_lem_example = remote_hostname_lem nameless (codes "10.0.0.1")

abbrev calls : List LifeOp
calls =
    LifeOp.signal (codes "data") (codes "one" ∷ [])
    ∷ LifeOp.shutdown (codes "dnsbl")
    ∷ LifeOp.signal (codes "data") (codes "two" ∷ [])
    ∷ []

abbrev client : Client
client = new_client config 3

unshut : client.shutting_down ≡ false
unfolding new_client
unshut = refl

silent : client.signals ≡ []
unfolding new_client
silent = refl

delivery_lem_example : Returns (run calls client) (λ d.
    tcp_wire d.signals d.signals_closed
    ≡ map write_line (data_texts (sent_by calls)) ++ ending (closes calls))
delivery_lem_example = delivery_lem calls client (new_client-IsLive config 3) unshut silent

abbrev one_channel : Session
one_channel = record new_session {
  channels = (codes "c1", new_channel client) ∷ [];
  frames = codes ":c1" ∷ [];
}

opens : on_message (client, true) (codes ":c1") new_session ≡ ok (some one_channel)
unfolding on_message index insert lookup
opens = refl

Reach-one_channel : Reach one_channel
Reach-one_channel =
    after (opened refl) (reads (client, true) (codes ":c1") refl (new_client-IsLive config 3) opens)

Reach-safe_example :
    Decided (client, true) (codes " x") one_channel
    × ((t : Session) × (on_read_error one_channel ≡ ok t))
    × EachValue CanFinish one_channel.channels
Reach-safe_example =
    Reach-safe one_channel (client, true) (codes " x") Reach-one_channel
      (new_client-IsLive config 3)
