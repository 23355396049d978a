-- ===== src/Gateway/Registration.antt =====
-- ProcessLineFromClient of pkg/webircgateway/client_command_handlers.go, up to the HOST command: what a client
-- says before its upstream is connected.
pub mod Waiting
pub mod Verification
pub mod Address
use webircgateway.Base.{
  ℕ, ◌+◌, Bool, true, false, not, ◌&&◌, Option, none, some, [], ◌∷◌, ltb, if◌then◌else◌, length,
  get_elem?, take, drop, Outcome, ok, ◌>>=◌, ℤ, pos,
}
use webircgateway.Text.Bytes.{Bytes, codes, is_empty, equal, to_upper, has_prefix}
use webircgateway.Text.Atoi.{atoi, last_index}
use webircgateway.Irc.Message.{Message, to_line}
use webircgateway.Recaptcha.{R, verify_response}
use webircgateway.Gateway.Config.{Config}
use webircgateway.Gateway.Client.{Client, send_irc_error, start_shutdown}
use webircgateway.Gateway.Replace.{make_client_replacements}
use webircgateway.Gateway.Rewrite.{set_param}
use webircgateway.Gateway.World.{Codec, World, Outside, with_client, on_client}
use webircgateway.Gateway.Track.{param, with_nick, with_irc}
use webircgateway.Gateway.Upstream.{close_client, connect_upstream}

-- A part of the function goes on with the message and the line, or returns a line, with an error or none.
pub data Flow : Type 0 where
  goes_on : Message → Bytes → World → Flow
  returns : Bytes → Bool → World → Flow

-- return "", nil
abbrev pub drops : World → Flow
drops w = returns [] false w

unfoldable pub then_on : Outcome Flow → (Message → Bytes → World → Outcome Flow) → Outcome Flow
then_on f next = f >>= λ f. elim f [
  | goes_on m line w ↦ next m line w
  | returns line e w ↦ ok (returns line e w)
]

-- strings.ToUpper(message.Command) == command
abbrev pub is_command : Message → Bytes → Bool
is_command m command = equal (to_upper m.command) command

-- A port that may stand behind a "+", for this host. TLS stays as it was where the port has no "+".
unfoldable pub parse_port : Bytes → Bool → Bytes → Bytes × ℤ × Bool
parse_port host tls port =
    if has_prefix port (codes "+")
    then (host, elim (atoi (drop 1 port)) [ none ↦ pos 6697 | some n ↦ n ], true)
    else (host, elim (atoi port) [ none ↦ pos 6667 | some n ↦ n ], tls)

pub parse_at : Bytes → Bool → Option ℕ → Bytes × ℤ × Bool
parse_at addr tls none = (addr, pos 6667, false)
parse_at addr tls (some sep) = parse_port (take sep addr) tls (drop (sep + 1) addr)

-- addr as HOST takes it apart: host, port, TLS
unfoldable pub parse_host : Bytes → Bool → Bytes × ℤ × Bool
unfolding parse_at
parse_host addr tls = parse_at addr tls (last_index addr b':')

abbrev pub captcha_of : Config → R
captcha_of config = record {
  url = config.re_captcha_url;
  secret = config.re_captcha_secret;
  last_errors = [];
}

unfoldable pub reject_captcha : Client → Outcome Client
reject_captcha c = do
  c ← send_irc_error (codes "Invalid captcha") c
  close_client (codes "bad_captcha") (codes "unverifed") c

module _ (o : Outside) where
  unfoldable pub maybe_connect_upstream : World → Outcome World
  maybe_connect_upstream w =
      let c = w.client in
      let verified = not (c.requires_verification && not c.verified) in
      if not c.upstream_started
        && not (is_empty c.irc_state.username)
        && not (is_empty c.irc_state.nick)
        && verified
      then connect_upstream o w
      else ok w

  -- Whether the service verifies the first param, where there is one.
  unfoldable pub captcha_verified : Option Bytes → Bool
  unfolding verify_response
  captcha_verified none = false
  captcha_verified (some response) = (verify_response o.recaptcha response (captcha_of o.config)).1

  unfoldable pub on_captcha : Message → Bytes → World → Outcome Flow
  unfolding captcha_verified reject_captcha
  on_captcha m line w =
      let verified = captcha_verified (get_elem? m.params 0) in
      if not w.client.verified && is_command m (codes "CAPTCHA")
      then (if not verified
          then (on_client reject_captcha w >>= λ w. ok (drops w))
          else (maybe_connect_upstream (with_client w (record (w.client) { verified = true }))
              >>= λ w. ok (drops w)))
      else ok (goes_on m line w)

  pub nick_given : Option Bytes → Client → Client
  nick_given none c = c
  nick_given (some nick) c = with_nick c nick

  unfoldable pub on_client_nick : Message → Bytes → World → Outcome Flow
  unfolding nick_given
  on_client_nick m line w =
      let named = with_client w (nick_given (get_elem? m.params 0) w.client) in
      if is_command m (codes "NICK") && not w.client.upstream_started
      then (maybe_connect_upstream named >>= λ w. ok (goes_on m line w))
      else ok (goes_on m line w)

  abbrev pub replaced : Bytes → ℕ → Client → Message → Message
  replaced format idx c m =
      if is_empty format then m else set_param m idx (make_client_replacements o.scan_ipv4 format c)

  unfoldable pub on_user : Message → Bytes → World → Outcome Flow
  on_user m line w =
      let c = w.client in
      let m' = replaced o.config.client_realname 3 c (replaced o.config.client_username 0 c m) in
      if is_command m (codes "USER") && not c.upstream_started
      then (if ltb (length m.params) 4 then ok (returns line true w) else (do
        username ← param m' 0
        realname ← param m' 3
        w ← maybe_connect_upstream (
            with_client w
              (with_irc c (record (c.irc_state) { username = username; real_name = realname })))
        ok (goes_on m' (to_line m') w)))
      else ok (goes_on m line w)

  pub charset_found : Bytes → Option Codec → Client → Client
  charset_found name none c = c
  charset_found name (some codec) c = record c { encoding = name }

  pub encoding_given : Option Bytes → Client → Client
  encoding_given none c = c
  encoding_given (some name) c = charset_found name (o.charset name) c

  unfoldable pub on_encoding : Message → Bytes → World → Outcome Flow
  unfolding encoding_given charset_found
  on_encoding m line w =
      if is_command m (codes "ENCODING")
      then ok (drops (with_client w (encoding_given (get_elem? m.params 0) w.client)))
      else ok (goes_on m line w)

  pub host_given : Bytes → World → Outcome Flow
  host_given [] w =
      on_client
        (λ c. send_irc_error (codes "Missing host") c >>= start_shutdown (codes "missing_host")) w
      >>= λ w. ok (drops w)
  host_given (b ∷ addr) w =
      let (host, port, tls) = parse_host (b ∷ addr) w.client.dest_tls in
      ok (
        drops (
          with_client w (record (w.client) { dest_host = host; dest_port = port; dest_tls = tls })))

  pub host_param : Option Bytes → World → Outcome Flow
  host_param none w = ok (drops w)
  host_param (some addr) w = host_given addr w

  unfoldable pub on_host : Message → Bytes → World → Outcome Flow
  unfolding host_given host_param
  on_host m line w =
      if is_command m (codes "HOST") && not w.client.upstream_started
      then (if not o.config.gateway then ok (drops w) else host_param (get_elem? m.params 0) w)
      else ok (goes_on m line w)

  -- The commands of a client that is still to be connected, in their order.
  unfoldable pub before_upstream : Message → Bytes → World → Outcome Flow
  before_upstream m line w =
      then_on (then_on (then_on (then_on (on_captcha m line w) on_client_nick) on_user) on_encoding)
        on_host
