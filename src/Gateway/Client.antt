-- ===== src/Gateway/Client.antt =====
-- pkg/webircgateway/client.go: the client record, and its signals and shutdown. A method that takes
-- shuttingDownLock holds it for its whole body, so each is one step. Logging is left out.
pub mod Lifecycle
pub mod Tests
use webircgateway.Base.{
  ℕ, ◌-◌, Bool, true, false, not, Option, none, List, [], ◌∷◌, ◌++◌, ◌==◌, if◌then◌else◌, Outcome,
  ok, panic, ◌>>=◌, ℤ, pos,
}
use webircgateway.Text.Bytes.{Bytes, codes}
use webircgateway.Text.Index.{index}
use webircgateway.Dict.{Dict}
use webircgateway.Irc.Message.{Mask, Message, empty_mask, to_line}
use webircgateway.Irc.State.{State, new_state}
use webircgateway.Gateway.Config.{ConfigUpstream, empty_upstream, Config}

pub data ClientState : Type 0 where
  idle connecting registering connected ending : ClientState

-- ClientSignal, an array of three strings
abbrev pub Signal : Type 0
Signal = Bytes × Bytes × Bytes

-- `signals` lists what was sent on the channel Signals so far, `signals_closed` tells whether it is closed,
-- and `end_wg` is the counter of EndWG. `upstream` is the connection, nil or the data written to it.
-- `throttle` is the limit of ThrottledRecv, none for rate.Inf.
pub record Client : Type 0 where
  pub id : ℕ
  pub state : ClientState
  pub end_wg : ℕ
  pub shutting_down : Bool
  pub seen_quit : Bool
  pub throttle : Option ℤ
  pub upstream : Option (List Bytes)
  pub upstream_started : Bool
  pub upstream_config : ConfigUpstream
  pub remote_addr : Bytes
  pub remote_hostname : Bytes
  pub dest_host : Bytes
  pub dest_port : ℤ
  pub dest_tls : Bool
  pub irc_state : State
  pub encoding : Bytes
  pub tags : Dict Bytes
  pub requires_verification : Bool
  pub verified : Bool
  pub sent_pass : Bool
  pub signals : List Signal
  pub signals_closed : Bool
  pub messagetags : Bool
  pub metadata : Bool
  pub ext_jwt : Bool
  pub requested_message_tags_cap : Bytes
  pub server_message_prefix : Mask

-- NewClient, up to the goroutines and the hook; it adds 1 to EndWG.
unfoldable pub new_client : Config → ℕ → Client
new_client config id = record {
  id = id;
  state = ClientState.idle;
  end_wg = 1;
  shutting_down = false;
  seen_quit = false;
  throttle = none;
  upstream = none;
  upstream_started = false;
  upstream_config = empty_upstream;
  remote_addr = [];
  remote_hostname = [];
  dest_host = [];
  dest_port = pos 0;
  dest_tls = false;
  irc_state = new_state;
  encoding = codes "UTF-8";
  tags = [];
  requires_verification = config.requires_verification;
  verified = false;
  sent_pass = false;
  signals = [];
  signals_closed = false;
  messagetags = false;
  metadata = false;
  ext_jwt = true;
  requested_message_tags_cap = [];
  server_message_prefix = empty_mask;
}

-- c.Signals <- s; a send on a closed channel panics.
pub send : Signal → Client → Outcome Client
send s c = if c.signals_closed then panic else ok (record c { signals = c.signals ++ s ∷ [] })

-- close(c.Signals); closing twice panics.
pub close_signals : Client → Outcome Client
close_signals c = if c.signals_closed then panic else ok (record c { signals_closed = true })

-- c.EndWG.Done(); a negative counter panics.
pub end_wg_done : Client → Outcome Client
end_wg_done c = if c.end_wg == 0 then panic else ok (record c { end_wg = c.end_wg - 1 })

unfoldable pub start_shutdown : Bytes → Client → Outcome Client
unfolding close_signals end_wg_done
start_shutdown reason c =
    if not c.shutting_down
    then (close_signals (record c { shutting_down = true; state = ClientState.ending })
        >>= end_wg_done)
    else ok c

-- The switch on len(args)
send_args : Bytes → List Bytes → Client → Outcome Client
send_args signal [] c = send (signal, [], []) c
send_args signal (a ∷ []) c = send (signal, a, []) c
send_args signal (a ∷ b ∷ []) c = send (signal, a, b) c
send_args signal (a ∷ b ∷ d ∷ args) c = ok c

unfoldable pub send_client_signal : Bytes → List Bytes → Client → Outcome Client
unfolding send_args send
send_client_signal signal args c = if not c.shutting_down then send_args signal args c else ok c

unfoldable pub send_data : Bytes → Client → Outcome Client
unfolding send_client_signal
send_data line c = send_client_signal (codes "data") (line ∷ []) c

unfoldable pub send_irc_error : Bytes → Client → Outcome Client
unfolding send_data
send_irc_error message c = send_data (codes "ERROR :" ++ message) c

unfoldable pub send_irc_fail : List Bytes → Client → Outcome Client
unfolding send_data to_line
send_irc_fail params c =
    send_data
      (to_line
        (record { raw = []; tags = []; prefix = none; command = codes "FAIL"; params = params }))
      c
