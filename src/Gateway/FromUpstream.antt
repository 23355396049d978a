-- ===== src/Gateway/FromUpstream.antt =====
-- ProcessLineFromUpstream of pkg/webircgateway/client_command_handlers.go.
use webircgateway.Base.{ℕ, Option, none, some, Outcome, ok, ◌>>=◌}
use webircgateway.Text.Bytes.{Bytes}
use webircgateway.Irc.Message.{Message, parse_line, ParseError}
use webircgateway.Gateway.Client.{Client}
use webircgateway.Gateway.MessageTags.{MessageTagManager}
use webircgateway.Gateway.Track.{track}
use webircgateway.Gateway.Rewrite.{rewrite}

-- The body behind ParseLine, for a message and the line that it was read from.
unfoldable pub process_message :
    (Bytes → ℕ) → MessageTagManager → ℕ → Bytes → Client → Message → Outcome (Client × Bytes)
process_message digest manager now text c m = do
  c ← track now m c
  l ← rewrite digest manager (record { message = m; text = text; client = c })
  ok (l.client, l.text)

unfoldable pub process_parsed :
    (Bytes → ℕ)
    → MessageTagManager
    → ℕ
    → Bytes
    → Client
    → Message × Option ParseError
    → Outcome (Client × Bytes)
process_parsed digest manager now text c (m, some e) = ok (c, text)
process_parsed digest manager now text c (m, none) = process_message digest manager now text c m

unfoldable pub process_line_from_upstream :
    (Bytes → ℕ) → MessageTagManager → ℕ → Bytes → Client → Outcome (Client × Bytes)
process_line_from_upstream digest manager now text c =
    parse_line text >>= process_parsed digest manager now text c
