-- ===== src/Gateway/Transports/Kiwiirc.antt =====
-- pkg/webircgateway/transport_kiwiirc.go: a session with many channels, each a client of its own. What takes
-- ClosedLock holds it to its end, so it is one step.
pub mod Steps
pub mod Sound
pub mod Messages
pub mod Safe
use webircgateway.Base.{
  ℕ, ◌+◌, Bool, true, false, not, ◌||◌, Option, none, some, List, [], ◌∷◌, ◌++◌, map, ltb,
  if◌then◌else◌, length, drop, Outcome, ok, panic, ◌>>=◌,
}
use webircgateway.Text.Bytes.{Bytes, codes, equal, trim, is_newline}
use webircgateway.Text.Index.{index, slice}
use webircgateway.Dict.{Dict, lookup, insert}
use webircgateway.Gateway.Client.{Client, Signal, start_shutdown}
use webircgateway.Gateway.Throttle.{capacity}

-- TransportKiwiircChannel. `heard` counts the signals that listenForSignals has received, and `listening` tells whether
-- it is still in its loop. `recv` is the client's channel Recv, oldest line first.
pub record Channel : Type 0 where
  pub client : Client
  pub heard : ℕ
  pub listening : Bool
  pub closed : Bool
  pub recv : List Bytes
  pub recv_closed : Bool
  pub wait_closed : Bool

abbrev pub new_channel : Client → Channel
new_channel c = record {
  client = c;
  heard = 0;
  listening = true;
  closed = false;
  recv = [];
  recv_closed = false;
  wait_closed = false;
}

-- A session with its map of channels, the frames sent on it, and whether the goroutine that reads it is in its loop.
pub record Session : Type 0 where
  pub channels : Dict Channel
  pub frames : List Bytes
  pub conn_closed : Bool
  pub reading : Bool

abbrev pub new_session : Session
new_session = record { channels = []; frames = []; conn_closed = false; reading = true }

-- session.Send, which fails on a closed session.
abbrev pub send_frame : Bytes → Session → Session
send_frame frame s = if s.conn_closed then s else record s { frames = s.frames ++ frame ∷ [] }

-- handleIncomingLine. A send on a closed channel panics; none is a send that waits for room.
unfoldable pub handle_incoming_line : Bytes → Channel → Outcome (Option Channel)
handle_incoming_line line ch =
    if not ch.closed
    then (if ch.recv_closed
        then panic
        else if ltb (length ch.recv) capacity
        then ok (some (record ch { recv = ch.recv ++ line ∷ [] }))
        else ok none)
    else ok (some ch)

-- A message of the form ":chanId". What makeChannel gives is an argument: a client, and whether there is a channel;
-- without one it has closed the session.
unfoldable pub open_channel : Client × Bool → Bytes → Option Channel → Session → Session
open_channel made id (some ch) s = send_frame (b':' ∷ id) (record s { conn_closed = true })
open_channel (c, false) id none s = record s { conn_closed = true }
open_channel (c, true) id none s =
    send_frame (b':' ∷ id) (record s { channels = insert s.channels id (new_channel c) })

unfoldable pub store : Session → Bytes → Option Channel → Option Session
store s id none = none
store s id (some ch) = some (record s { channels = insert s.channels id ch })

-- A message of the form ":chanId data".
unfoldable pub pass_data : Bytes → Bytes → Option Channel → Session → Outcome (Option Session)
unfolding handle_incoming_line store
pass_data id line none s = ok (some s)
pass_data id line (some ch) s = handle_incoming_line line ch >>= λ r. ok (store s id r)

unfoldable pub route : Client × Bool → Bytes → Option ℕ → Session → Outcome (Option Session)
unfolding open_channel pass_data
route made msg none s =
    ok (some (open_channel made (drop 1 msg) (lookup s.channels (drop 1 msg)) s))
route made msg (some id_end) s =
    slice msg 1 id_end >>= λ id. pass_data id (drop (id_end + 1) msg) (lookup s.channels id) s

-- One message of the session.
unfoldable pub on_message : Client × Bool → Bytes → Session → Outcome (Option Session)
unfolding route
on_message made [] s = ok (some s)
on_message made (b ∷ msg) s = route made (b ∷ msg) (index (b ∷ msg) b' ') s

-- The loop over the channels once the session has failed.
unfoldable pub close_all : Dict Channel → Outcome (Dict Channel)
close_all [] = ok []
close_all ((id, ch) ∷ channels) = do
  c ← start_shutdown (codes "client_closed") ch.client
  rest ← close_all channels
  ok ((id, record ch { closed = true; client = c }) ∷ rest)

unfoldable pub on_read_error : Session → Outcome Session
on_read_error s =
    close_all s.channels >>= λ channels. ok (record s { channels = channels; reading = false })

-- What listenForSignals sends for a signal.
unfoldable pub signal_frames : Bytes → Signal → List Bytes
signal_frames id (kind, text, reason) =
    let state =
      if equal kind (codes "state")
      then (if equal text (codes "connected")
          then (b':' ∷ (id ++ codes " control connected")) ∷ []
          else if equal text (codes "closed")
          then (b':' ∷ (id ++ codes " control closed " ++ reason)) ∷ []
          else [])
      else [] in
    if equal kind (codes "data")
    then state ++ (b':' ∷ (id ++ b' ' ∷ trim is_newline text)) ∷ []
    else state

pub send_frames : List Bytes → Session → Session
send_frames [] s = s
send_frames (f ∷ fs) s = send_frames fs (send_frame f s)

-- The end of listenForSignals; closing a closed channel panics.
unfoldable pub finish : Channel → Outcome Channel
finish ch =
    if ch.recv_closed || ch.wait_closed
    then panic
    else ok (record ch { closed = true; recv_closed = true; wait_closed = true; listening = false })
