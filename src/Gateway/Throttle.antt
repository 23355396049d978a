-- ===== src/Gateway/Throttle.antt =====
-- ThrottledStringChannel of pkg/webircgateway/utils.go: a goroutine that moves lines from one channel of 50 to
-- another, each when the rate limit lets it through. How long it waits for the limit is left open.
pub mod Order
pub mod Drains
mod Tests
use webircgateway.Base.{
  ℕ, ◌<◌, ◌≡◌, Bool, true, false, Option, none, some, List, [], ◌∷◌, ◌++◌, length,
}
use webircgateway.Text.Bytes.{Bytes}
use webircgateway.Text.Index.{index}

-- make(chan string, 50), here and for Recv in client.go
abbrev pub capacity : ℕ
capacity = 50

-- The two channels, oldest line first, and the line that the goroutine holds between them. `sent` and `received`
-- list what was sent on the one and received from the other so far.
pub record Throttled : Type 0 where
  pub sent : List Bytes
  pub waiting : List Bytes
  pub waiting_closed : Bool
  pub held : Option Bytes
  pub ready : List Bytes
  pub ready_closed : Bool
  pub received : List Bytes

abbrev pub new_throttled_string_channel : Throttled
new_throttled_string_channel = record {
  sent = [];
  waiting = [];
  waiting_closed = false;
  held = none;
  ready = [];
  ready_closed = false;
  received = [];
}

-- What the goroutine and the reader do: run takes a line and waits, hands it on where there is room, and closes its
-- channel behind the last line of a closed one; the reader receives.
pub data Moves (s : Throttled) : Throttled → Type 0 where
  takes :
      {t : Throttled} (line : Bytes) (rest : List Bytes)
      → s.held ≡ none
      → s.waiting ≡ line ∷ rest
      → t ≡ record s { waiting = rest; held = some line }
      → Moves s t
  hands_on :
      {t : Throttled} (line : Bytes)
      → s.held ≡ some line
      → length s.ready < capacity
      → t ≡ record s { held = none; ready = s.ready ++ line ∷ [] }
      → Moves s t
  closes :
      {t : Throttled}
      → s.held ≡ none
      → s.waiting ≡ []
      → s.waiting_closed ≡ true
      → s.ready_closed ≡ false
      → t ≡ record s { ready_closed = true }
      → Moves s t
  receives :
      {t : Throttled} (line : Bytes) (rest : List Bytes)
      → s.ready ≡ line ∷ rest
      → t ≡ record s { ready = rest; received = s.received ++ line ∷ [] }
      → Moves s t

-- What the sender may do too: send where there is room, and close once.
pub data Step (s : Throttled) : Throttled → Type 0 where
  moves : {t : Throttled} → Moves s t → Step s t
  sends :
      {t : Throttled} (line : Bytes)
      → s.waiting_closed ≡ false
      → length s.waiting < capacity
      → t ≡ record s { sent = s.sent ++ line ∷ []; waiting = s.waiting ++ line ∷ [] }
      → Step s t
  ends :
      {t : Throttled} → s.waiting_closed ≡ false → t ≡ record s { waiting_closed = true } → Step s t

pub data Reach : Throttled → Type 0 where
  start : {s : Throttled} → s ≡ new_throttled_string_channel → Reach s
  next : {s t : Throttled} → Reach s → Step s t → Reach t
