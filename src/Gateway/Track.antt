-- ===== src/Gateway/Track.antt =====
-- The parts of ProcessLineFromUpstream (pkg/webircgateway/client_command_handlers.go) that follow the client's
-- registration, nick, account and channels. A read out of range or through nil panics. The time is an
-- argument.
pub mod Parts
pub mod Modes
pub mod Nick
mod Tests
use webircgateway.Base.{
  ℕ, ◌+◌, ◌-◌, Bool, true, false, not, ◌&&◌, ◌||◌, Option, none, some, List, [], ◌∷◌, ltb, ◌==◌,
  if◌then◌else◌, length, get_elem?, take, drop, Outcome, ok, panic, ◌>>=◌, or_panic,
}
use webircgateway.Text.Bytes.{Bytes, codes, equal, equal_fold, has_prefix}
use webircgateway.Text.Index.{byte_text}
use webircgateway.Dict.{lookup, insert, erase}
use webircgateway.Irc.Message.{Message, get_param, to_line}
use webircgateway.Irc.Isupport.{Isupport, add_token, add_tokens, has_token}
use webircgateway.Irc.State.{
  State, StateChannel, new_state_channel, get_channel, set_channel, remove_channel, clear_channels,
}
use webircgateway.Gateway.Client.{Client, ClientState, send_data}

-- pLen > 0 && m.Command == command
unfoldable pub has_command : Message → Bytes → Bool
unfolding equal
has_command m command = ltb 0 (length m.params) && equal m.command command

-- m.Params[idx]
unfoldable pub param : Message → ℕ → Outcome Bytes
param m idx = or_panic (get_elem? m.params idx)

-- m.Prefix.Nick
unfoldable pub source_nick : Message → Outcome Bytes
source_nick m = or_panic m.prefix >>= λ p. ok p.nick

abbrev pub with_irc : Client → State → Client
with_irc c s = record c { irc_state = s }

abbrev pub with_nick : Client → Bytes → Client
with_nick c nick = with_irc c (record (c.irc_state) { nick = nick })

abbrev pub with_isupport : Client → Isupport → Client
with_isupport c i = with_irc c (record (c.irc_state) { isupport = i })

-- A part that acts on a command whose source is the client's own nick.
unfoldable pub if_own : Message → Bytes → (Client → Outcome Client) → Client → Outcome Client
unfolding source_nick equal
if_own m command act c =
    if has_command m command
    then (source_nick m >>= λ nick. if equal nick c.irc_state.nick then act c else ok c)
    else ok c

unfoldable pub on_nick : Message → Client → Outcome Client
on_nick m = if_own m (codes "NICK") (λ c. param m 0 >>= λ nick. ok (with_nick c nick))

unfoldable pub on_welcome : Message → Client → Outcome Client
on_welcome m c =
    if has_command m (codes "001")
    then (param m 0 >>= λ nick. or_panic m.prefix >>= λ p. ok (record (with_nick c nick) {
      state = ClientState.connected;
      server_message_prefix = p;
      throttle = some c.upstream_config.throttle;
    }))
    else ok c

-- params[lo:hi]
unfoldable pub slice_params : List Bytes → ℕ → ℕ → Outcome (List Bytes)
slice_params ps lo hi =
    if ltb hi lo || ltb (length ps) hi then panic else ok (take (hi - lo) (drop lo ps))

unfoldable pub on_isupport : Message → Client → Outcome Client
unfolding slice_params
on_isupport m c =
    if has_command m (codes "005")
    then (slice_params m.params 1 (length m.params - 1) >>= λ pairs. ok (
        with_isupport c
          (add_tokens (record (c.irc_state.isupport) { received = true; tags = m.tags }) pairs)))
    else ok c

-- The 005 line that the gateway sends of its own, for these params.
unfoldable pub injected_message : Client → List Bytes → Message
injected_message c params = record {
  raw = [];
  tags = elim (lookup c.irc_state.isupport.tags (codes "time")) [
    | none ↦ []
    | some time ↦ (codes "time", time) ∷ []
  ];
  prefix = some c.server_message_prefix;
  command = codes "005";
  params = params;
}

abbrev pub supported_text : Bytes
supported_text = codes "are supported by this server"

unfoldable pub inject_isupport : Message → Client → Outcome Client
unfolding injected_message
inject_isupport m c =
    let i : Isupport = record (c.irc_state.isupport) { injected = true } in
    let nick = c.irc_state.nick in
    let silent = with_isupport (record c { ext_jwt = false }) i in
    let told = with_isupport c (add_token i (codes "EXTJWT=1")) in
    if c.irc_state.isupport.received
      && not c.irc_state.isupport.injected
      && not (equal m.command (codes "005"))
    then (if has_token i (codes "EXTJWT")
        then ok silent
        else send_data
            (to_line (injected_message told (nick ∷ codes "EXTJWT=1" ∷ supported_text ∷ []))) told)
    else ok c

unfoldable pub on_join : ℕ → Message → Client → Outcome Client
on_join now m =
    if_own m (codes "JOIN")
      (λ c. ok (with_irc c (set_channel c.irc_state (new_state_channel (get_param m 0 []) now))))

unfoldable pub on_part : Message → Client → Outcome Client
on_part m =
    if_own m (codes "PART") (λ c. ok (with_irc c (remove_channel c.irc_state (get_param m 0 []))))

unfoldable pub on_quit : Message → Client → Outcome Client
on_quit m = if_own m (codes "QUIT") (λ c. ok (with_irc c (clear_channels c.irc_state)))

abbrev pub with_account : Client → Bytes → Client
with_account c account = with_irc c (record (c.irc_state) { account = account })

unfoldable pub on_account : Message → Client → Client
on_account m c =
    let logged_in = if has_command m (codes "900") then with_account c (get_param m 2 []) else c in
    if equal m.command (codes "901") then with_account logged_in [] else logged_in

-- channel.Modes[mode] = "" or delete(channel.Modes, mode), through a pointer that may be nil
unfoldable pub change_mode : Bool → Bytes → Option StateChannel → Outcome (Option StateChannel)
change_mode adding mode none = panic
change_mode true mode (some ch) = ok (some (record ch { modes = insert ch.modes mode [] }))
change_mode false mode (some ch) = ok (some (record ch { modes = erase ch.modes mode }))

-- The loop over the mode letters. paramIdx is already at the letter's own param when it is read.
unfoldable pub mode_loop :
    Message → Bytes → Bytes → Bool → ℕ → Option StateChannel → Outcome (Option StateChannel)
mode_loop m nick [] adding idx channel = ok channel
mode_loop m nick (b ∷ modes) adding idx channel =
    let plus = mode_loop m nick modes true idx channel in
    let minus = mode_loop m nick modes false idx channel in
    let rest = λ (ch : Option StateChannel). mode_loop m nick modes adding (idx + 1) ch in
    if b == b'+'
    then plus
    else if b == b'-'
    then minus
    else if equal_fold (get_param m (idx + 1) []) nick
    then change_mode adding (byte_text b) channel >>= rest
    else rest channel

-- The channel of the state is a pointer: what the loop writes to it stands in the state.
pub write_back : State → Option StateChannel → State
write_back s none = s
write_back s (some ch) = set_channel s ch

unfoldable pub on_mode : ℕ → Message → Client → Outcome Client
unfolding write_back
on_mode now m c =
    let name = get_param m 0 [] in
    let channel : Option StateChannel = elim (get_channel c.irc_state name) [
      | none ↦ none
      | some old ↦ some (new_state_channel name now)
    ] in
    let s = write_back c.irc_state channel in
    if has_command m (codes "MODE") && has_prefix name (codes "#")
    then (mode_loop m s.nick (get_param m 1 []) false 1 channel >>= λ ch.
        ok (with_irc c (write_back s ch)))
    else ok c

-- The parts that change the client alone, in their order.
unfoldable pub track : ℕ → Message → Client → Outcome Client
track now m c = do
  c ← on_nick m c
  c ← on_welcome m c
  c ← on_isupport m c
  c ← inject_isupport m c
  c ← on_join now m c
  c ← on_part m c
  c ← on_quit m c
  on_mode now m (on_account m c)
