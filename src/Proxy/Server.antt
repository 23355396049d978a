-- ===== src/Proxy/Server.antt =====
-- pkg/proxy/server.go: the handshake of the proxy with a gateway and its connection to the destination. JSON and
-- addresses are those of Go's packages: what the line decodes to over the default values, and whether
-- the addresses resolve, are arguments.
use webircgateway.Base.{
  Bool, true, false, not, ◌||◌, Option, none, some, [], ◌++◌, ◌==◌, if◌then◌else◌, ℤ, pos, negsuc,
}
use webircgateway.Text.Bytes.{Bytes, codes, is_empty}
use webircgateway.Proxy.Errors.{
  NetError, ErrType, timeout, unknown_host, refused, no_type, type_of_err,
}

pub record HandshakeMeta : Type 0 where
  pub host : Bytes
  pub port : ℤ
  pub tls : Bool
  pub username : Bytes
  pub interface : Bytes

abbrev pub response_error : Bytes
response_error = codes "0"

abbrev pub response_ok : Bytes
response_ok = codes "1"

abbrev pub response_reset : Bytes
response_reset = codes "2"

abbrev pub response_refused : Bytes
response_refused = codes "3"

abbrev pub response_unknown_host : Bytes
response_unknown_host = codes "4"

abbrev pub response_timeout : Bytes
response_timeout = codes "5"

-- How a step of the proxy ends: it goes on, or it returns an error.
pub data Ended : Type 0 where
  goes_on fails : Ended

-- What is written to the gateway, and how the step ends.
abbrev pub Replied : Type 0
Replied = Bytes × Ended

abbrev pub is_zero : ℤ → Bool
is_zero (pos n) = n == 0
is_zero (negsuc n) = false

-- Handshake. `line` is none where the read fails, and holds none where the JSON is refused.
unfoldable pub handshake_meta : Bool → Bool → HandshakeMeta → Replied
handshake_meta binds resolves meta =
    if is_empty meta.host || is_zero meta.port || is_empty meta.username || is_empty meta.interface
    then (response_error, fails)
    else if not binds
    then (response_error, fails)
    else if not resolves
    then (response_unknown_host, fails)
    else ([], goes_on)

unfoldable pub handshake : Option (Option HandshakeMeta) → Bool → Bool → Replied
unfolding handshake_meta
handshake none binds resolves = ([], fails)
handshake (some none) binds resolves = (response_error, fails)
handshake (some (some meta)) binds resolves = handshake_meta binds resolves meta

-- The switch on errType, which leaves the response empty for "".
unfoldable pub response_of : ErrType → Bytes
response_of timeout = response_timeout
response_of unknown_host = response_unknown_host
response_of refused = response_refused
response_of no_type = []

-- ConnectUpstream. `dialed` is the error of the dial, if there is one, and `tls` is none where no TLS is asked
-- for, and otherwise whether its handshake succeeds.
unfoldable pub connect_upstream : Option NetError → Option Bool → Replied
connect_upstream (some e) tls = (response_of (type_of_err (some e)), fails)
connect_upstream none (some false) = (response_reset, fails)
connect_upstream none (some true) = (response_ok, goes_on)
connect_upstream none none = (response_ok, goes_on)

-- Run, up to Pipe: all that is written to the gateway, and whether the pipe starts.
unfoldable pub run_on : Replied → Replied → Replied
run_on (written, fails) next = (written, fails)
run_on (written, goes_on) (more, ended) = (written ++ more, ended)

unfoldable pub run :
    Option (Option HandshakeMeta) → Bool → Bool → Option NetError → Option Bool → Replied
unfolding run_on
run line binds resolves dialed tls =
    run_on (handshake line binds resolves) (connect_upstream dialed tls)
