-- ===== src/Gateway/Config/Servers.antt =====
-- confKeyAsString, confKeyAsInt and confKeyAsBool of pkg/webircgateway/config.go, whose value may name an environment
-- variable, and the servers that Load reads with them.
use webircgateway.Base.{
  ℕ, ◌-◌, Bool, false, not, ◌&&◌, ◌||◌, Option, none, some, [], ltb, if◌then◌else◌, length, drop, ℤ,
  pos, negsuc,
}
use webircgateway.Text.Bytes.{Bytes, codes, equal, has_prefix}
use webircgateway.Text.Bytes.{Bytes, codes, equal, has_prefix}
use webircgateway.Text.Atoi.{atoi}
use webircgateway.Text.Octal.{parse_octal}
use webircgateway.Gateway.Config.{ConfigServer, empty_server}
use webircgateway.Gateway.Config.Sections.{IniKey, Section, Sources}

abbrev is_variable : Bytes → Bool
is_variable str = ltb 1 (length str) && has_prefix str (codes "$")

-- uint32(mode), for the conversion to a file mode
abbrev pub file_mode : ℤ → ℕ
file_mode (pos n) = n
file_mode (negsuc n) = 4294967295 - n

module _ (src : Sources) where
  unfoldable pub conf_key_as_string : IniKey → Bytes → Bytes
  conf_key_as_string key def =
      if is_variable key.text then src.getenv (drop 1 key.text) else key.must_string def

  abbrev or_default : ℤ → Option ℤ → ℤ
  or_default def none = def
  or_default def (some n) = n

  unfoldable pub conf_key_as_int : IniKey → ℤ → ℤ
  conf_key_as_int key def =
      if is_variable key.text
      then or_default def (atoi (src.getenv (drop 1 key.text)))
      else key.must_int def

  abbrev is_no : Bytes → Bool
  is_no value = equal value (codes "0") || equal value (codes "false") || equal value (codes "no")

  unfoldable pub conf_key_as_bool : IniKey → Bool → Bool
  unfolding equal
  conf_key_as_bool key def =
      if is_variable key.text then not (is_no (src.getenv (drop 1 key.text))) else key.must_bool def

  unfoldable pub read_server : Section → ConfigServer
  unfolding conf_key_as_string conf_key_as_int conf_key_as_bool
  read_server s = record {
    local_addr = conf_key_as_string (s.key (codes "bind")) (codes "127.0.0.1");
    bind_mode = elim (parse_octal (conf_key_as_string (s.key (codes "bind_mode")) [])) [
      | none ↦ 493
      | some mode ↦ file_mode mode
    ];
    port = conf_key_as_int (s.key (codes "port")) (pos 80);
    tls = conf_key_as_bool (s.key (codes "tls")) false;
    cert_file = conf_key_as_string (s.key (codes "cert")) [];
    key_file = conf_key_as_string (s.key (codes "key")) [];
    lets_encrypt_cache_dir = conf_key_as_string (s.key (codes "letsencrypt_cache")) [];
  }

  unfoldable pub read_proxy : Section → ConfigServer
  unfolding conf_key_as_string conf_key_as_int
  read_proxy s = record empty_server {
    local_addr = conf_key_as_string (s.key (codes "bind")) (codes "0.0.0.0");
    port = conf_key_as_int (s.key (codes "port")) (pos 7999);
  }
