-- ===== src/Gateway/Registration/Waiting.antt =====
-- Clients that wait for their verification: the state, and what keeps it.
use webircgateway.Base.{ℕ, ◌≡◌, refl, Bool, true, false, List, if◌then◌else◌, Outcome, Returns}
use webircgateway.Text.Bytes.{Bytes}
use webircgateway.Irc.Message.{Message}
use webircgateway.Gateway.Client.{Client, send_client_signal, start_shutdown}
use webircgateway.Gateway.Client.Lifecycle.{
  LiveParts, send_client_signal_lem, start_shutdown_lem, shut,
}
use webircgateway.Gateway.World.{World}
use webircgateway.Gateway.Registration.{Flow, goes_on, returns, then_on}

abbrev pub flow_world : Flow → World
flow_world (goes_on m line w) = w
flow_world (returns line e w) = w

-- A live client that is to be verified, is not, and has no upstream.
pub record WaitingParts (signals_closed shutting_down : Bool) (end_wg : ℕ)
    (requires_verification verified upstream_started : Bool) : Type 0 where
  pub live : LiveParts signals_closed shutting_down end_wg
  pub required : requires_verification ≡ true
  pub unverified : verified ≡ false
  pub unstarted : upstream_started ≡ false

abbrev pub Waits : Client → Type 0
Waits c =
    WaitingParts c.signals_closed c.shutting_down c.end_wg c.requires_verification c.verified
      c.upstream_started

abbrev pub WaitsOn : Flow → Type 0
WaitsOn f = Waits (flow_world f).client

pub Waits-if : (b : Bool) (c d : Client) → Waits c → Waits d → Waits (if b then c else d)
Waits-if true c d h k = h
Waits-if false c d h k = k

pub Waits-send :
    (s : Bytes) (args : List Bytes) (c : Client)
    → Waits c
    → Returns (send_client_signal s args c) Waits
Waits-send s args c h =
    (_, send_client_signal_lem s args c h.live, Waits-if c.shutting_down c _ h (h))

pub Waits-shutdown :
    (reason : Bytes) (c : Client) → Waits c → Returns (start_shutdown reason c) Waits
Waits-shutdown reason c h = (
  _,
  start_shutdown_lem reason c h.live,
  Waits-if c.shutting_down c (shut c) h (record {
    live = record { closed = refl; counted = refl };
    required = h.required;
    unverified = h.unverified;
    unstarted = h.unstarted;
  }),
)

pub then_on-WaitsOn :
    (f : Outcome Flow) (next : Message → Bytes → World → Outcome Flow)
    → Returns f WaitsOn
    → ((m : Message) (line : Bytes) (w : World) → Waits w.client → Returns (next m line w) WaitsOn)
    → Returns (then_on f next) WaitsOn
unfolding then_on
then_on-WaitsOn f next (goes_on m line w, e, h) go = rw e (go m line w h)
then_on-WaitsOn f next (returns line r w, e, h) go = rw e (_, refl, h)
