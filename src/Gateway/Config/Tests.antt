-- ===== src/Gateway/Config/Tests.antt =====
-- Load of a small file whose second server section is of the old syntax.
use webircgateway.Base.{◌≡◌, refl, true, none, some, List, [], ◌∷◌, if◌then◌else◌, ok}
use webircgateway.Text.Bytes.{Bytes, codes, is_empty, equal, has_prefix}
use webircgateway.Text.Index.{slice, split}
use webircgateway.Text.Paths.{clean, dir}
use webircgateway.Text.Atoi.{last_index}
use webircgateway.Gateway.Config.Paths.{resolve_path}
use webircgateway.Gateway.Config.{new_config}
use webircgateway.Gateway.Config.Sections.{IniKey, Section, Sources}
use webircgateway.Gateway.Config.Load.{load}
use webircgateway.Gateway.Config.Valid.{IsValid}
use webircgateway.Gateway.Config.Loaded.{load-IsValid, new_config-IsValid}

abbrev key_of : Bytes → IniKey
key_of t = record {
  text = t;
  must_string = λ def. if is_empty t then def else t;
  must_int = λ def. def;
  must_bool = λ def. def;
}

-- A section with one key.
abbrev pub section_of : Bytes → Bytes → Bytes → Section
section_of name key value = record {
  name = name;
  key_strings = key ∷ [];
  key = λ k. if equal k key then key_of value else key_of [];
}

abbrev file : List Section
file =
    section_of (codes "DEFAULT") (codes "gateway_name") (codes "web")
    ∷ section_of (codes "upstream.1") (codes "hostname") (codes "irc.example")
    ∷ section_of (codes "plugins") (codes "stats.so") []
    ∷ section_of (codes "server.1") (codes "letsencrypt_cache") (codes "./certs.cache")
    ∷ section_of (codes "upstream.2") (codes "hostname") (codes "irc.late")
    ∷ []

abbrev pub sources : Sources
sources = record {
  command = λ c. none;
  parse = λ o. none;
  parse_file = λ path. some file;
  getenv = λ v. [];
  is_glob = λ g. true;
  parse_cidr = λ r. some r;
}

load-IsValid_example : IsValid ((load sources new_config).0)
load-IsValid_example = load-IsValid sources new_config new_config-IsValid

resolve_beside :
    resolve_path (record new_config { config_file = codes "/etc/irc/a.conf" }) (codes "../www/./x")
    ≡ ok (codes "/etc/www/x")
unfolding resolve_path slice clean dir last_index split has_prefix equal
resolve_beside = refl
