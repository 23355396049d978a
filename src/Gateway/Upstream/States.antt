-- ===== src/Gateway/Upstream/States.antt =====
-- The states of a client around its upstream connection, and the calls that keep or change them.
use webircgateway.Base.{
  ℕ, ◌≡◌, refl, ap, Bool, true, false, Option, none, some, List, [], ◌∷◌, ◌++◌, if◌then◌else◌,
  Outcome, Returns, Returns-bind,
}
use webircgateway.Text.Bytes.{Bytes, codes}
use webircgateway.Gateway.Client.{
  Client, ClientState, send_client_signal, send_irc_error, start_shutdown, send_data,
}
use webircgateway.Gateway.Client.Lifecycle.{IsLive, LiveParts, send_live, shutdown_live}
use webircgateway.Gateway.World.{World, with_client, on_client}
use webircgateway.Gateway.Upstream.{written, close_client, write_upstream}

-- A client that is live and has no upstream yet.
pub record OpenParts (signals_closed shutting_down : Bool) (end_wg : ℕ)
    (upstream : Option (List Bytes)) : Type 0 where
  pub live : LiveParts signals_closed shutting_down end_wg
  pub serving : shutting_down ≡ false
  pub unconnected : upstream ≡ none

abbrev pub IsOpen : Client → Type 0
IsOpen c = OpenParts c.signals_closed c.shutting_down c.end_wg c.upstream

-- A client that was shut down without an upstream.
pub record IsRefused (c : Client) : Type 0 where
  pub live : IsLive c
  pub ended : c.shutting_down ≡ true
  pub state_is : c.state ≡ ClientState.ending
  pub unconnected : c.upstream ≡ none

-- A client that registers over its connection.
pub record RegisteringParts (signals_closed shutting_down : Bool) (end_wg : ℕ) (state : ClientState)
    (upstream : Option (List Bytes)) : Type 0 where
  pub live : LiveParts signals_closed shutting_down end_wg
  pub serving : shutting_down ≡ false
  pub state_is : state ≡ ClientState.registering
  pub connected : (lines : List Bytes) × (upstream ≡ some lines)

abbrev pub IsRegistering : Client → Type 0
IsRegistering c = RegisteringParts c.signals_closed c.shutting_down c.end_wg c.state c.upstream

pub IsOpen-send :
    (s : Bytes) (args : List Bytes) (c : Client)
    → IsOpen c
    → Returns (send_client_signal s args c) IsOpen
IsOpen-send s args c h = (_, send_live s args c h.live h.serving, h)

pub IsOpen-shutdown :
    (reason : Bytes) (c : Client) → IsOpen c → Returns (start_shutdown reason c) IsRefused
IsOpen-shutdown reason c h = (
  _,
  shutdown_live reason c h.live h.serving,
  record {
    live = record { closed = refl; counted = refl };
    ended = refl;
    state_is = refl;
    unconnected = h.unconnected;
  },
)

pub close_client-IsRefused :
    (why reason : Bytes) (c : Client) → IsOpen c → Returns (close_client why reason c) IsRefused
unfolding close_client
close_client-IsRefused why reason c h =
    Returns-bind _ _ (IsOpen-send _ _ c h) (IsOpen-shutdown reason)

pub send_irc_error-IsOpen :
    (message : Bytes) (c : Client) → IsOpen c → Returns (send_irc_error message c) IsOpen
unfolding send_irc_error send_data
send_irc_error-IsOpen message c h =
    IsOpen-send (codes "data") ((codes "ERROR :" ++ message) ∷ []) c h

pub IsRegistering-send :
    (s : Bytes) (args : List Bytes) (c : Client)
    → IsRegistering c
    → Returns (send_client_signal s args c) IsRegistering
IsRegistering-send s args c h = (_, send_live s args c h.live h.serving, h)

pub IsRegistering-if :
    (b : Bool) (c d : Client)
    → IsRegistering c
    → IsRegistering d
    → IsRegistering (if b then c else d)
IsRegistering-if true c d h k = h
IsRegistering-if false c d h k = k

pub write_upstream-IsRegistering :
    (line : Bytes) (c : Client) → IsRegistering c → IsRegistering (write_upstream line c)
unfolding write_upstream written
write_upstream-IsRegistering line c h =
    let (lines, e) = h.connected in
    record {
      live = h.live;
      serving = h.serving;
      state_is = h.state_is;
      connected = (lines ++ line ∷ [], ap (written line) e);
    }

pub IsOpen-if :
    (b : Bool) (v w : World)
    → IsOpen v.client
    → IsOpen w.client
    → IsOpen (if b then v else w).client
IsOpen-if true v w h k = h
IsOpen-if false v w h k = k

pub on_client-Returns :
    {P : Client → Type 0} (f : Client → Outcome Client) (w : World)
    → Returns (f w.client) P
    → Returns (on_client f w) (λ w. P w.client)
unfolding on_client
on_client-Returns f w h = Returns-bind _ _ h (λ c p. (with_client w c, refl, p))
