-- ===== src/Gateway/Transports/Wire.antt =====
-- What the tcp, websocket and sockjs transports of pkg/webircgateway write for a client's signals, and how their readers
-- fill the client's channel Recv.
use webircgateway.Base.{ℕ, Bool, true, ◌&&◌, List, [], ◌∷◌, ◌++◌, ltb, if◌then◌else◌, length}
use webircgateway.Text.Bytes.{Bytes, codes, equal, trim_left, trim, is_newline}
use mathlib.Core.List.{reverse}
use webircgateway.Gateway.Throttle.{capacity}
use webircgateway.Gateway.Client.{Signal}

-- What a transport does to its connection.
pub data WireOp : Type 0 where
  writes : Bytes → WireOp
  closes_conn : WireOp

-- The handling of one signal in handleConn, websocketHandler and the sessionHandler of sockjs.
abbrev pub tcp_signal : Signal → List WireOp
tcp_signal (kind, text, reason) =
    if equal kind (codes "data") then writes (text ++ b'\n' ∷ []) ∷ [] else []

abbrev pub closed_state : Signal → List WireOp
closed_state (kind, text, reason) =
    if equal kind (codes "state") && equal text (codes "closed") then closes_conn ∷ [] else []

abbrev pub trimmed_signal : Signal → List WireOp
trimmed_signal (kind, text, reason) =
    (if equal kind (codes "data") then writes (trim is_newline text) ∷ [] else [])
    ++ closed_state (kind, text, reason)

-- The loop over Signals; a connection is closed once the channel is.
unfoldable pub tcp_wire : List Signal → Bool → List WireOp
tcp_wire [] closed = if closed then closes_conn ∷ [] else []
tcp_wire (s ∷ signals) closed = tcp_signal s ++ tcp_wire signals closed

unfoldable pub websocket_wire : List Signal → Bool → List WireOp
websocket_wire [] closed = if closed then closes_conn ∷ [] else []
websocket_wire (s ∷ signals) closed = trimmed_signal s ++ websocket_wire signals closed

-- sockjs leaves its session as it is.
unfoldable pub sockjs_wire : List Signal → List WireOp
sockjs_wire [] = []
sockjs_wire (s ∷ signals) = trimmed_signal s ++ sockjs_wire signals

-- What a read gives: bytes, or an error.
pub data ReadResult : Type 0 where
  got : Bytes → ReadResult
  failed : ReadResult

-- The channel Recv as the reader leaves it.
pub record Recv : Type 0 where
  pub queue : List Bytes
  pub closed : Bool

-- select with a default case: a full queue drops the line.
abbrev pub offer : Bytes → Recv → Recv
offer line r =
    if ltb (length r.queue) capacity then record r { queue = r.queue ++ line ∷ [] } else r

abbrev pub trim_right : (ℕ → Bool) → Bytes → Bytes
trim_right p s = reverse (trim_left p (reverse s))

-- The readers, with what each read gives; a read error ends the loop and closes Recv.
unfoldable pub tcp_reader : List ReadResult → Recv → Recv
tcp_reader [] r = r
tcp_reader (got line ∷ reads) r = tcp_reader reads (offer (trim_right is_newline line) r)
tcp_reader (failed ∷ reads) r = record r { closed = true }

unfoldable pub message_reader : List ReadResult → Recv → Recv
message_reader [] r = r
message_reader (got [] ∷ reads) r = message_reader reads r
message_reader (got (b ∷ msg) ∷ reads) r = message_reader reads (offer (b ∷ msg) r)
message_reader (failed ∷ reads) r = record r { closed = true }
