-- ===== src/Gateway/Config/Sections.antt =====
-- The sections of the configuration file of pkg/webircgateway/config.go, and what Load reads from the ones that set
-- options of their own or describe an upstream. Log lines are left out.
use webircgateway.Base.{
  Bool, false, not, ◌&&◌, Option, List, [], ◌∷◌, leb, ◌==◌, if◌then◌else◌, drop, ℤ, pos, negsuc,
}
use webircgateway.Text.Bytes.{Bytes, codes, is_empty, to_lower, trim, has_prefix, contains}
use webircgateway.Text.Bytes.{Bytes, codes, is_empty, to_lower, trim, has_prefix, contains}
use webircgateway.Dict.{Dict, insert}
use webircgateway.Gateway.Access.{string_in_slice_or_default}
use webircgateway.Gateway.Config.{ConfigUpstream, empty_upstream, Config}

-- A key of a section as the ini library gives it: its text, and its Must methods at their defaults.
pub record IniKey : Type 0 where
  pub text : Bytes
  pub must_string : Bytes → Bytes
  pub must_int : ℤ → ℤ
  pub must_bool : Bool → Bool

pub record Section : Type 0 where
  pub name : Bytes
  pub key_strings : List Bytes
  pub key : Bytes → IniKey

-- What Load reads from: the output of a command, none for an error; ini.LoadSources of the output and of a file; the
-- environment; whether glob.Compile takes a pattern; and the range of net.ParseCIDR.
pub record Sources : Type 0 where
  pub command : Bytes → Option Bytes
  pub parse : Bytes → Option (List Section)
  pub parse_file : Bytes → Option (List Section)
  pub getenv : Bytes → Bytes
  pub is_glob : Bytes → Bool
  pub parse_cidr : Bytes → Option Bytes

abbrev pub gateway_protocols : List Bytes
gateway_protocols = codes "tcp" ∷ codes "tcp4" ∷ codes "tcp6" ∷ []

abbrev pub upstream_protocols : List Bytes
upstream_protocols = codes "tcp" ∷ codes "tcp4" ∷ codes "tcp6" ∷ codes "unix" ∷ []

abbrev pub text_of : Section → Bytes → Bytes → Bytes
text_of s name def = (s.key name).must_string def

abbrev pub int_of : Section → Bytes → ℤ → ℤ
int_of s name def = (s.key name).must_int def

abbrev pub bool_of : Section → Bytes → Bool → Bool
bool_of s name def = (s.key name).must_bool def

-- A gateway name with a space in it is dropped.
unfoldable pub spaceless : Bytes → Bytes
spaceless name = if contains name (codes " ") then [] else name

abbrev pub is_log_level : ℤ → Bool
is_log_level (pos n) = leb 1 n && leb n 3
is_log_level (negsuc n) = false

unfoldable pub read_default : Section → Config → Config
unfolding spaceless
read_default s c =
    let level = int_of s (codes "logLevel") (pos 3) in
    record c {
      log_level = if is_log_level level then level else pos 3;
      identd = bool_of s (codes "identd") false;
      gateway_name = spaceless (text_of s (codes "gateway_name") []);
      secret = text_of s (codes "secret") [];
      send_quit_on_client_close =
          text_of s (codes "send_quit_on_client_close") (codes "Connection closed");
    }

unfoldable pub read_verify : Section → Config → Config
read_verify s c =
    let captcha_secret = text_of s (codes "recaptcha_secret") [] in
    let captcha_key = text_of s (codes "recaptcha_key") [] in
    let captcha : Config =
      if not (is_empty captcha_secret) && not (is_empty captcha_key)
      then record c {
        requires_verification = bool_of s (codes "required") false;
        re_captcha_secret = captcha_secret;
      }
      else c in
    record captcha {
      re_captcha_url =
          text_of s (codes "recaptcha_url")
            (codes "https://www.google.com/recaptcha/api/siteverify");
    }

unfoldable pub read_gateway : Section → Config → Config
unfolding string_in_slice_or_default
read_gateway s c = record c {
  gateway = bool_of s (codes "enabled") false;
  gateway_timeout = int_of s (codes "timeout") (pos 10);
  gateway_throttle = int_of s (codes "throttle") (pos 2);
  gateway_protocol =
      string_in_slice_or_default (text_of s (codes "protocol") []) (codes "tcp") gateway_protocols;
  gateway_local_addr = text_of s (codes "localaddr") [];
}

unfoldable pub webirc_passwords : Section → List Bytes → Dict Bytes → Dict Bytes
webirc_passwords s [] m = m
webirc_passwords s (addr ∷ addrs) m = webirc_passwords s addrs (insert m addr (text_of s addr []))

unfoldable pub read_upstream : Section → ConfigUpstream
unfolding spaceless string_in_slice_or_default
read_upstream s =
    let protocol =
      string_in_slice_or_default (text_of s (codes "protocol") []) (codes "tcp")
        upstream_protocols in
    let hostname = text_of s (codes "hostname") (codes "127.0.0.1") in
    let is_unix = has_prefix (to_lower hostname) (codes "unix:") in
    record empty_upstream {
      protocol = if is_unix then codes "unix" else protocol;
      hostname = if is_unix then drop 5 hostname else hostname;
      port = if is_unix then pos 0 else int_of s (codes "port") (pos 6667);
      tls = if is_unix then false else bool_of s (codes "tls") false;
      timeout = int_of s (codes "timeout") (pos 10);
      throttle = int_of s (codes "throttle") (pos 2);
      webirc_password = text_of s (codes "webirc") [];
      server_password = text_of s (codes "serverpassword") [];
      local_addr = text_of s (codes "localaddr") [];
      gateway_name = spaceless (text_of s (codes "gateway_name") []);
      network_common_address = text_of s (codes "network_common_address") [];
    }

abbrev pub trimmed : Bytes → Bytes
trimmed = trim (λ c. c == b'\n')
