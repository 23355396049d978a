-- ===== src/Gateway/Config/Load.antt =====
-- Load of pkg/webircgateway/config.go: the loop over the sections, and the lists they fill. Log lines are left out.
use webircgateway.Base.{
  Bool, false, ◌&&◌, ◌||◌, Option, none, some, List, [], ◌∷◌, ◌++◌, map, if◌then◌else◌, drop,
}
use webircgateway.Text.Bytes.{Bytes, codes, equal, has_prefix, has_suffix}
use webircgateway.Text.Bytes.{Bytes, codes, equal, has_prefix, has_suffix}
use webircgateway.Gateway.Config.{ConfigServer, empty_server, Config}
use webircgateway.Gateway.Config.Sections.{
  Section, Sources, text_of, bool_of, read_default, read_verify, read_gateway, webirc_passwords,
  read_upstream, trimmed,
}
use webircgateway.Gateway.Config.Servers.{read_server, read_proxy}

pub data LoadError : Type 0 where
  command_fails sources_fail cache_syntax : LoadError

abbrev pub is_server : Section → Bool
is_server s = has_prefix s.name (codes "server.")

abbrev pub is_upstream : Section → Bool
is_upstream s = has_prefix s.name (codes "upstream.")

unfoldable pub read_passwords : Section → Config → Config
read_passwords s c = record c {
  gateway_webirc_password = webirc_passwords s s.key_strings c.gateway_webirc_password;
}

unfoldable pub read_clients : Section → Config → Config
read_clients s c = record c {
  client_username = text_of s (codes "username") [];
  client_realname = text_of s (codes "realname") [];
  client_hostname = text_of s (codes "hostname") [];
}

unfoldable pub read_fileserving : Section → Config → Config
read_fileserving s c =
    if bool_of s (codes "enabled") false
    then record c { webroot = text_of s (codes "webroot") [] }
    else c

-- The tests on a section's name in front of the one for a server, with what each does.
unfoldable pub option_tests : Section → List (Bool × (Config → Config))
unfolding read_default read_verify read_gateway read_passwords read_clients read_fileserving
option_tests s =
    (has_prefix s.name (codes "DEFAULT"), read_default s)
    ∷ (equal s.name (codes "verify"), read_verify s)
    ∷ (equal s.name (codes "dnsbl"), λ c. record c { dnsbl_action = text_of s (codes "action") [] })
    ∷ (
      equal s.name (codes "dnsbl.servers"),
      λ c. record c { dnsbl_servers = c.dnsbl_servers ++ s.key_strings },
    )
    ∷ (equal s.name (codes "gateway"), read_gateway s)
    ∷ (equal s.name (codes "gateway.webirc"), read_passwords s)
    ∷ (has_prefix s.name (codes "clients"), read_clients s)
    ∷ (has_prefix s.name (codes "fileserving"), read_fileserving s)
    ∷ []

unfoldable pub run_tests : List (Bool × (Config → Config)) → Config → Config
run_tests [] c = c
run_tests ((b, read) ∷ tests) c = run_tests tests (if b then read c else c)

abbrev pub is_old_cache : ConfigServer → Bool
is_old_cache server = has_suffix server.lets_encrypt_cache_dir (codes ".cache")

-- "Clear the existing config"
abbrev pub cleared : Config → Config
cleared c = record c {
  gateway = false;
  gateway_webirc_password = [];
  proxy = empty_server;
  upstreams = [];
  servers = [];
  server_transports = [];
  remote_origins = [];
  gateway_whitelist = [];
  reverse_proxies = [];
  webroot = [];
  re_captcha_url = [];
  re_captcha_secret = [];
  re_captcha_key = [];
  requires_verification = false;
  secret = [];
  send_quit_on_client_close = [];
  client_realname = [];
  client_username = [];
  client_hostname = [];
  dnsbl_servers = [];
  dnsbl_action = [];
}

module _ (src : Sources) where
  unfoldable pub globs : List Bytes → List Bytes
  globs [] = []
  globs (origin ∷ origins) =
      let rest = globs origins in if src.is_glob origin then origin ∷ rest else rest

  unfoldable pub ranges : List Bytes → List Bytes
  ranges [] = []
  ranges (cidr ∷ cidrs) =
      let rest = ranges cidrs in elim (src.parse_cidr cidr) [ none ↦ rest | some r ↦ r ∷ rest ]

  -- The tests behind it.
  unfoldable pub list_tests : Section → List (Bool × (Config → Config))
  unfolding read_proxy read_upstream globs ranges
  list_tests s =
      (equal s.name (codes "proxy"), λ c. record c { proxy = read_proxy src s })
      ∷ (is_upstream s, λ c. record c { upstreams = c.upstreams ++ read_upstream s ∷ [] })
      ∷ (
        equal s.name (codes "engines") || equal s.name (codes "transports"),
        λ c. record c { server_transports = c.server_transports ++ map trimmed s.key_strings },
      )
      ∷ (
        has_prefix s.name (codes "plugins"),
        λ c. record c { plugins = c.plugins ++ map trimmed s.key_strings },
      )
      ∷ (
        has_prefix s.name (codes "allowed_origins"),
        λ c. record c { remote_origins = c.remote_origins ++ globs s.key_strings },
      )
      ∷ (
        has_prefix s.name (codes "gateway.whitelist"),
        λ c. record c { gateway_whitelist = c.gateway_whitelist ++ globs s.key_strings },
      )
      ∷ (
        has_prefix s.name (codes "reverse_proxies"),
        λ c. record c { reverse_proxies = c.reverse_proxies ++ ranges s.key_strings },
      )
      ∷ []

  -- The loop over the sections, with the error that a return leaves.
  unfoldable pub read_sections : List Section → Config → Config × Option LoadError
  unfolding option_tests list_tests run_tests read_server
  read_sections [] c = (c, none)
  read_sections (s ∷ sections) c =
      let o = run_tests (option_tests s) c in
      let server = read_server src s in
      let served = if is_server s then record o { servers = o.servers ++ server ∷ [] } else o in
      let rest = read_sections sections (run_tests (list_tests s) served) in
      if is_server s && is_old_cache server then (o, some LoadError.cache_syntax) else rest

  unfoldable pub read_all : Option (List Section) → Config → Config × Option LoadError
  unfolding read_sections
  read_all none c = (c, some LoadError.sources_fail)
  read_all (some sections) c = read_sections sections (cleared c)

  -- A command's output is parsed only if the command succeeds.
  unfoldable pub read_output : Option Bytes → Config → Config × Option LoadError
  unfolding read_all
  read_output none c = (c, some LoadError.command_fails)
  read_output (some output) c = read_all (src.parse output) c

  unfoldable pub load : Config → Config × Option LoadError
  unfolding read_output read_all
  load c =
      if has_prefix c.config_file (codes "$ ")
      then read_output (src.command (drop 2 c.config_file)) c
      else read_all (src.parse_file c.config_file) c
