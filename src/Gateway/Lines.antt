-- ===== src/Gateway/Lines.antt =====
-- pkg/webircgateway/client.go: what a client's worker does with one line. The worker's recover is left out: a
-- panic stays the outcome panic.
mod Tests
use webircgateway.Base.{
  ◌*◌, Bool, true, false, not, ◌&&◌, ◌||◌, Option, none, some, List, [], ◌∷◌, ◌++◌, if◌then◌else◌,
  Outcome, ok, panic, ◌>>=◌,
}
use webircgateway.Text.Bytes.{Bytes, codes, is_empty, equal, to_upper, has_prefix}
use webircgateway.Irc.Message.{parse_line}
use webircgateway.Gateway.Client.{
  Client, ClientState, send_client_signal, send_data, start_shutdown,
}
use webircgateway.Gateway.FromClient.{process_line_from_client}
use webircgateway.Gateway.FromUpstream.{process_line_from_upstream}
use webircgateway.Gateway.Upstream.{write_upstream}
use webircgateway.Gateway.World.{World, Outside, with_client, on_client}

-- What the worker takes from its channels: a line of the client or that channel's end, the next line for the
-- upstream, a line of the upstream or its end.
pub data Event : Type 0 where
  client_line : Bytes → Event
  client_gone : Event
  pending_line : Event
  upstream_line : Bytes → Event
  upstream_gone : Event

is_ending : ClientState → Bool
is_ending ClientState.ending = true
is_ending _ = false

module _ (o : Outside) where
  -- ensureUtf8 and utf8ToOther of utils.go
  unfoldable pub ensure_utf8 : Bytes → Bytes → Bytes
  ensure_utf8 s from_encoding =
      if o.valid_utf8 s
      then s
      else elim (o.charset from_encoding) [ none ↦ [] | some codec ↦ codec.decode s ]

  unfoldable pub utf8_to_other : Bytes → Bytes → Bytes
  utf8_to_other s to_encoding =
      if equal to_encoding (codes "UTF-8") && o.valid_utf8 s
      then s
      else elim (o.charset to_encoding) [ none ↦ [] | some codec ↦ codec.encode s ]

  -- The data behind the overrides of processLineToUpstream.
  unfoldable pub overridden : Bytes → Client → Bytes
  overridden text c =
      if has_prefix text (codes "USER ")
      then codes "USER " ++ (c.irc_state.username ++ (codes " 0 * :" ++ c.irc_state.real_name))
      else text

  unfoldable pub notes_quit : Bytes → Client → Client
  notes_quit text c =
      if not (has_prefix text (codes "USER ")) && has_prefix (to_upper text) (codes "QUIT ")
      then record c { seen_quit = true }
      else c

  pub write_encoded : Bytes → Client → Client
  write_encoded text c =
      let encoded = utf8_to_other text c.encoding in
      if is_empty encoded then c else write_upstream (encoded ++ codes "\r\n") c

  pub send_hooked : Client × Bytes × Bool → Client
  send_hooked (c, text, true) = c
  send_hooked (c, text, false) = write_encoded text c

  unfoldable pub process_line_to_upstream : Bytes → Client → Outcome Client
  unfolding write_encoded send_hooked
  process_line_to_upstream text c =
      let text' = overridden text c in
      if has_prefix text (codes "PASS ") && c.sent_pass
      then ok c
      else (parse_line text' >>= λ r.
          ok (send_hooked (o.line_hook true r.0 text' (notes_quit text c))))

  pub tell_client : World → Client × Bytes → Outcome World
  tell_client w (c, text) =
      if is_empty text then ok (with_client w c) else on_client (send_data text) (with_client w c)

  pub handle_hooked : World → Client × Bytes × Bool → Outcome World
  handle_hooked w (c, text, true) = ok (with_client w c)
  handle_hooked w (c, text, false) =
      let decoded = ensure_utf8 text c.encoding in
      if is_empty text || is_empty decoded
      then ok (with_client w c)
      else (process_line_from_upstream o.digest w.tag_manager o.now decoded c >>= tell_client w)

  unfoldable pub handle_line_from_upstream : Bytes → World → Outcome World
  unfolding handle_hooked tell_client
  handle_line_from_upstream text w = do
    r ← parse_line text
    handle_hooked w (o.line_hook false r.0 text w.client)

  -- A line of the client goes on to the channel UpstreamSend.
  pub queue_line : World × Bytes × Bool → World
  queue_line (w, line, err) =
      if not err && not (is_empty line) then record w { pending = w.pending ++ line ∷ [] } else w

  -- The client's channel is closed: QUIT is sent for it, if that is configured.
  unfoldable pub on_client_gone : Client → Outcome Client
  unfolding is_ending
  on_client_gone c =
      let quits =
        not c.seen_quit && not (is_empty o.config.send_quit_on_client_close) && is_ending c.state in
      let quit = codes "QUIT :" ++ o.config.send_quit_on_client_close in
      (if quits then process_line_to_upstream quit c else ok c)
      >>= start_shutdown (codes "client_closed")

  -- A line that waits is taken only while there is an upstream connection.
  pub send_pending : Option (List Bytes) → List Bytes → World → Outcome World
  send_pending (some lines) (line ∷ pending) w =
      on_client (process_line_to_upstream line) (record w { pending = pending })
  send_pending _ _ w = ok w

  -- The Boolean tells whether the worker ends.
  unfoldable pub handle_data_line : Event → World → Outcome (World × Bool)
  unfolding send_pending queue_line
  handle_data_line (client_line line) w =
      process_line_from_client o line w >>= λ r. ok (queue_line r, false)
  handle_data_line client_gone w = on_client on_client_gone w >>= λ w. ok (w, true)
  handle_data_line pending_line w =
      send_pending w.client.upstream w.pending w >>= λ w. ok (w, false)
  handle_data_line (upstream_line text) w = handle_line_from_upstream text w >>= λ w. ok (w, false)
  handle_data_line upstream_gone w =
      on_client
        (λ c.
          send_client_signal (codes "state") (codes "closed" ∷ []) c
          >>= start_shutdown (codes "upstream_closed"))
        w
      >>= λ w. ok (w, true)
