-- ===== src/Gateway/Config.antt =====
-- pkg/webircgateway/config.go: the options, and how Load reads them. A compiled glob is kept as the
-- pattern's text, and a network range as the text that it was parsed from.
pub mod Paths
pub mod Sections
pub mod Servers
pub mod Load
pub mod Valid
pub mod Keeps
pub mod Order
pub mod Tests
pub mod Loaded
use webircgateway.Base.{ℕ, zero, Bool, false, Option, none, List, [], ℤ, pos}
use webircgateway.Text.Bytes.{Bytes}
use webircgateway.Dict.{Dict}

pub record ConfigProxy : Type 0 where
  pub kind : Bytes
  pub hostname : Bytes
  pub port : ℤ
  pub tls : Bool
  pub username : Bytes
  pub interface : Bytes

pub record ConfigUpstream : Type 0 where
  pub network_common_address : Bytes
  pub hostname : Bytes
  pub port : ℤ
  pub tls : Bool
  pub timeout : ℤ
  pub throttle : ℤ
  pub webirc_password : Bytes
  pub server_password : Bytes
  pub gateway_name : Bytes
  pub proxy : Option ConfigProxy
  pub protocol : Bytes
  pub local_addr : Bytes

-- ConfigUpstream{}
abbrev pub empty_upstream : ConfigUpstream
empty_upstream = record {
  network_common_address = [];
  hostname = [];
  port = pos 0;
  tls = false;
  timeout = pos 0;
  throttle = pos 0;
  webirc_password = [];
  server_password = [];
  gateway_name = [];
  proxy = none;
  protocol = [];
  local_addr = [];
}

-- A bind mode has 32 bits.
pub record ConfigServer : Type 0 where
  pub local_addr : Bytes
  pub bind_mode : ℕ
  pub port : ℤ
  pub tls : Bool
  pub cert_file : Bytes
  pub key_file : Bytes
  pub lets_encrypt_cache_dir : Bytes

-- ConfigServer{}
abbrev pub empty_server : ConfigServer
empty_server = record {
  local_addr = [];
  bind_mode = 0;
  port = pos 0;
  tls = false;
  cert_file = [];
  key_file = [];
  lets_encrypt_cache_dir = [];
}

pub record Config : Type 0 where
  pub config_file : Bytes
  pub log_level : ℤ
  pub gateway : Bool
  pub gateway_name : Bytes
  pub gateway_whitelist : List Bytes
  pub gateway_throttle : ℤ
  pub gateway_timeout : ℤ
  pub gateway_webirc_password : Dict Bytes
  pub gateway_protocol : Bytes
  pub gateway_local_addr : Bytes
  pub proxy : ConfigServer
  pub upstreams : List ConfigUpstream
  pub servers : List ConfigServer
  pub server_transports : List Bytes
  pub remote_origins : List Bytes
  pub reverse_proxies : List Bytes
  pub webroot : Bytes
  pub client_realname : Bytes
  pub client_username : Bytes
  pub client_hostname : Bytes
  pub identd : Bool
  pub requires_verification : Bool
  pub send_quit_on_client_close : Bytes
  pub re_captcha_url : Bytes
  pub re_captcha_secret : Bytes
  pub re_captcha_key : Bytes
  pub secret : Bytes
  pub plugins : List Bytes
  pub dnsbl_servers : List Bytes
  pub dnsbl_action : Bytes

-- NewConfig: every option has Go's zero value.
abbrev pub new_config : Config
new_config = record {
  config_file = [];
  log_level = pos 0;
  gateway = false;
  gateway_name = [];
  gateway_whitelist = [];
  gateway_throttle = pos 0;
  gateway_timeout = pos 0;
  gateway_webirc_password = [];
  gateway_protocol = [];
  gateway_local_addr = [];
  proxy = empty_server;
  upstreams = [];
  servers = [];
  server_transports = [];
  remote_origins = [];
  reverse_proxies = [];
  webroot = [];
  client_realname = [];
  client_username = [];
  client_hostname = [];
  identd = false;
  requires_verification = false;
  send_quit_on_client_close = [];
  re_captcha_url = [];
  re_captcha_secret = [];
  re_captcha_key = [];
  secret = [];
  plugins = [];
  dnsbl_servers = [];
  dnsbl_action = [];
}
