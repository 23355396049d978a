-- ===== src/Gateway/Transports/Kiwiirc/Steps.antt =====
-- The steps of a kiwiirc session, in whatever order its goroutines take them.
use webircgateway.Base.{◌+◌, ◌≡◌, Bool, true, some, List, ◌∷◌, length, get_elem?, ok}
use webircgateway.Text.Bytes.{Bytes}
use webircgateway.Dict.{lookup, insert, erase}
use webircgateway.Gateway.Client.{Client, Signal}
use webircgateway.Gateway.Client.Lifecycle.{IsLive, LifeOp, apply}
use webircgateway.Gateway.Transports.Kiwiirc.{
  Channel, Session, new_session, on_message, on_read_error, signal_frames, send_frames, finish,
}

abbrev pub with_channel : Session → Bytes → Channel → Session
with_channel s id ch = record s { channels = insert s.channels id ch }

-- What may happen to a session: the reader takes a message or an error; a client is sent a signal or shut down by the
-- rest of the gateway, or takes a line; and each channel's listener passes a signal on, ends behind the last one, and
-- is then removed from the map.
pub data Step (s : Session) : Session → Type 0 where
  reads :
      {t : Session} (made : Client × Bool) (msg : Bytes)
      → s.reading ≡ true
      → IsLive (made.0)
      → on_message made msg s ≡ ok (some t)
      → Step s t
  fails : {t : Session} → s.reading ≡ true → on_read_error s ≡ ok t → Step s t
  acts :
      {t : Session} (id : Bytes) (ch : Channel) (op : LifeOp) (c : Client)
      → lookup s.channels id ≡ some ch
      → apply op ch.client ≡ ok c
      → t ≡ with_channel s id (record ch { client = c })
      → Step s t
  works :
      {t : Session} (id : Bytes) (ch : Channel) (line : Bytes) (rest : List Bytes)
      → lookup s.channels id ≡ some ch
      → ch.recv ≡ line ∷ rest
      → t ≡ with_channel s id (record ch { recv = rest })
      → Step s t
  hears :
      {t : Session} (id : Bytes) (ch : Channel) (signal : Signal)
      → lookup s.channels id ≡ some ch
      → ch.listening ≡ true
      → get_elem? ch.client.signals ch.heard ≡ some signal
      → t
        ≡ with_channel
            (send_frames (signal_frames id signal) s)
            id
            (record ch { heard = ch.heard + 1 })
      → Step s t
  ends :
      {t : Session} (id : Bytes) (ch ch' : Channel)
      → lookup s.channels id ≡ some ch
      → ch.listening ≡ true
      → ch.heard ≡ length ch.client.signals
      → ch.client.signals_closed ≡ true
      → finish ch ≡ ok ch'
      → t ≡ with_channel s id ch'
      → Step s t
  removes :
      {t : Session} (id : Bytes) (ch : Channel)
      → lookup s.channels id ≡ some ch
      → ch.wait_closed ≡ true
      → t ≡ record s { channels = erase s.channels id }
      → Step s t

pub data Reach : Session → Type 0 where
  opened : {s : Session} → s ≡ new_session → Reach s
  after : {s t : Session} → Reach s → Step s t → Reach t
