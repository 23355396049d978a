-- ===== src/Gateway/World.antt =====
-- A client among the gateway's others, with what they share, and the world outside the program.
use webircgateway.Base.{ℕ, Bool, Option, List, Outcome, ok, ◌>>=◌, ℤ}
use webircgateway.Dict.{Dict}
use webircgateway.Text.Bytes.{Bytes}
use webircgateway.Irc.Message.{Message}
use webircgateway.Gateway.Config.{Config, ConfigUpstream}
use webircgateway.Gateway.Client.{Client}
use webircgateway.Gateway.MessageTags.{MessageTagManager}
use webircgateway.Recaptcha.{Service}
use webircgateway.Proxy.Errors.{NetError}
use webircgateway.Proxy.Connection.{Answer}

-- `peers` are the other clients of Gateway.Clients, in the order in which they are met. `pending` is
-- what waits in the client's channel UpstreamSend, and `idents` the entries of the identd server.
pub record World : Type 0 where
  pub client : Client
  pub peers : List Client
  pub tag_manager : MessageTagManager
  pub idents : Dict Bytes
  pub pending : List Bytes

-- What net.Dialer answers: an error, or a connection with its local and remote port.
pub data DirectDial : Type 0 where
  direct_fails : NetError → DirectDial
  direct_connects : ℕ → ℕ → DirectDial

-- An encoding that charset.Lookup found.
pub record Codec : Type 0 where
  pub encode : Bytes → Bytes
  pub decode : Bytes → Bytes

-- The claims of an EXTJWT token.
pub record Claims : Type 0 where
  pub exp : ℕ
  pub iss : Bytes
  pub sub : Bytes
  pub account : Bytes
  pub channel : Bytes
  pub joined : ℕ
  pub cmodes : List Bytes

-- The configuration, and code that is not of this repository: glob matches, random numbers, the time, plugins
-- (a hook returns the client, what it made of its data, and whether to go on), the network, fmt's Sscanf of
-- "%d.%d.%d.%d", hashes, charsets, the captcha service and the signing of tokens.
pub record Outside : Type 0 where
  pub config : Config
  pub matches : Bytes → Bytes → Bool
  pub pick : ℕ → ℕ
  pub now : ℕ
  pub connection_pre : Client → Client × Bool
  pub line_hook : Bool → Message → Bytes → Client → Client × Bytes × Bool
  pub direct : ConfigUpstream → DirectDial
  pub tls_ok : ConfigUpstream → Bool
  pub proxy_answer : ConfigUpstream → Answer
  pub scan_ipv4 : Bytes → List ℤ
  pub digest : Bytes → ℕ
  pub valid_utf8 : Bytes → Bool
  pub charset : Bytes → Option Codec
  pub recaptcha : Service
  pub sign : Claims → Option Bytes

abbrev pub with_client : World → Client → World
with_client w c = record w { client = c }

-- A method of the client, in the world.
unfoldable pub on_client : (Client → Outcome Client) → World → Outcome World
on_client f w = f w.client >>= λ c. ok (with_client w c)
