-- ===== src/Program/Tests.antt =====
-- A process whose file names one server, and the signals that it gets.
use webircgateway.Base.{ℕ, List, ◌≡◌, refl, true, false, some, [], ◌∷◌, ok, pos}
use webircgateway.Text.Bytes.{codes, equal, to_lower, has_prefix, has_suffix}
use webircgateway.Text.Decimal.{format}
use webircgateway.Text.Octal.{parse_octal}
use webircgateway.Text.Paths.{clean, abs}
use webircgateway.Text.Index.{split}
use webircgateway.Gateway.Config.{Config, new_config, empty_server}
use webircgateway.Gateway.Config.Load.{load}
use webircgateway.Gateway.Config.Tests.{sources, section_of}
use webircgateway.Gateway.Server.{Gateway, new_gateway, plain_server}
use webircgateway.Gateway.Config.Valid.{IsValid}
use webircgateway.Program.{
  sigint, sighup, ProcessEvent, received, alive, held, on_events, Process, startless, runs, main,
}
use webircgateway.Program.Signals.{phases, serving, over, reloaded, realise, signals_lem}

abbrev process : Process
process = record {
  cwd = codes "/srv";
  sources = record sources {
    parse_file =
        λ path. some (section_of (codes "server.1") (codes "bind") (codes "10.0.0.1") ∷ []);
  };
  open_plugin = λ path. startless;
  loads_key_pair = λ cert key. true;
}

abbrev options : Config
options = record new_config {
  config_file = codes "/srv/a.conf";
  servers =
      record empty_server { local_addr = codes "10.0.0.1"; bind_mode = 493; port = pos 80 } ∷ [];
}

abbrev serving_gateway : Gateway
serving_gateway = record (new_gateway options) {
  http_srvs = plain_server (codes "10.0.0.1:80") ∷ [];
  close_wg = 1;
}

starts : main process false (codes "a.conf") (codes "gateway") ≡ ok (runs serving_gateway [])
unfolding main load abs clean split format equal has_prefix has_suffix to_lower parse_octal
    new_gateway
starts = refl

-- A reload, then one SIGINT that ends the process, and a second one that comes too late.
abbrev events : List ProcessEvent
events = received sighup ∷ received sigint ∷ received sigint ∷ []

reloads_and_ends : phases events (serving 0 (held (codes "gateway") [])) ≡ over 1
unfolding phases held equal
reloads_and_ends = refl

signals_lem_example :
    (on_events process.sources events (alive (held (codes "gateway") []) serving_gateway)
      ≡ realise process.sources serving_gateway
          (phases events (serving 0 (held (codes "gateway") []))))
    × ((r : ℕ) → IsValid (reloaded process.sources r serving_gateway.config))
signals_lem_example =
    signals_lem process false (codes "a.conf") (codes "gateway") serving_gateway [] events starts
