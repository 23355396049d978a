-- ===== src/Gateway/Client/Tests.antt =====
-- A client's lifetime at concrete calls.
use webircgateway.Base.{◌≡◌, refl, true, false, List, [], ◌∷◌, ◌++◌, if◌then◌else◌, ok, pos}
use webircgateway.Text.Bytes.{codes}
use webircgateway.Gateway.Config.{Config, new_config}
use webircgateway.Gateway.Client.{Client, new_client}
use webircgateway.Gateway.Client.Lifecycle.{
  LifeOp, run, run_lem, sent_by, closes, shut, new_client-IsLive,
}

abbrev pub config : Config
config = record new_config {
  gateway = true;
  gateway_throttle = pos 2;
  gateway_timeout = pos 10;
  gateway_protocol = codes "tcp";
}

abbrev calls : List LifeOp
calls =
    LifeOp.signal (codes "data") (codes "one" ∷ [])
    ∷ LifeOp.shutdown (codes "client_closed")
    ∷ LifeOp.signal (codes "data") (codes "two" ∷ [])
    ∷ LifeOp.shutdown (codes "dnsbl")
    ∷ []

abbrev pub client : Client
client = new_client config 2

fresh : client.shutting_down ≡ false
unfolding new_client
fresh = refl

run_lem_example :
    run calls client
    ≡ ok (
        let d = record client { signals = client.signals ++ sent_by calls } in
        if closes calls then shut d else d)
run_lem_example = run_lem calls client (new_client-IsLive config 2) fresh
