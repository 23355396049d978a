-- ===== src/Gateway/Config/Loaded.antt =====
-- Load keeps the options valid, whatever the sources.
use webircgateway.Base.{
  ◌≡◌, inl, inr, refl, true, false, ◌&&◌, Option, none, some, List, [], ◌∷◌, ◌++◌, arith,
  if◌then◌else◌, Bool-cases, drop, All, All-append,
}
use webircgateway.Text.Bytes.{Bytes, codes, has_prefix, contains}
use webircgateway.Text.Bytes.{Bytes, codes, has_prefix, contains}
use webircgateway.Gateway.Config.{new_config, ConfigUpstream, ConfigServer, Config}
use webircgateway.Gateway.Config.Sections.{bool_of, Section, Sources, read_upstream}
use webircgateway.Gateway.Config.Servers.{read_server}
use webircgateway.Gateway.Config.Load.{
  cleared, load, read_all, read_output, read_fileserving, is_server, is_old_cache, option_tests,
  list_tests, run_tests, read_sections, read_passwords, read_clients, read_fileserving,
}
use webircgateway.Gateway.Config.Valid.{
  IsValid, IsUpstream, KeepsValid, run_tests-IsValid, read_default-IsValid, read_verify-IsValid,
  read_gateway-IsValid, read_upstream-IsUpstream,
}

read_fileserving-IsValid : (s : Section) → KeepsValid (true, read_fileserving s)
unfolding read_fileserving
read_fileserving-IsValid s c v = elim (Bool-cases (bool_of s (codes "enabled") false)) [
  | inl e ↦ rw e v
  | inr e ↦ rw e v
]

add_upstream-IsValid :
    (u : ConfigUpstream) (c : Config)
    → IsUpstream u
    → IsValid c
    → IsValid (record c { upstreams = c.upstreams ++ u ∷ [] })
add_upstream-IsValid u c h v = record {
  level = v.level;
  name = v.name;
  protocol = v.protocol;
  each_upstream = All-append IsUpstream c.upstreams (u ∷ []) v.each_upstream (h, tt);
  each_server = v.each_server;
  captcha = v.captcha;
}

add_server-IsValid :
    (server : ConfigServer) (c : Config)
    → is_old_cache server ≡ false
    → IsValid c
    → IsValid (record c { servers = c.servers ++ server ∷ [] })
add_server-IsValid server c h v = record {
  level = v.level;
  name = v.name;
  protocol = v.protocol;
  each_upstream = v.each_upstream;
  each_server =
      All-append (λ server. is_old_cache server ≡ false) c.servers (server ∷ []) v.each_server
        (h, tt);
  captcha = v.captcha;
}

option_tests-KeepsValid : (s : Section) → All KeepsValid (option_tests s)
unfolding option_tests read_passwords read_clients read_fileserving
option_tests-KeepsValid s = (
  read_default-IsValid s,
  (
    read_verify-IsValid s,
    (
      (λ c v. v),
      (
        (λ c v. v),
        (read_gateway-IsValid s, ((λ c v. v), ((λ c v. v), (read_fileserving-IsValid s, tt)))),
      ),
    ),
  ),
)

module _ (src : Sources) where
  list_tests-KeepsValid : (s : Section) → All KeepsValid (list_tests src s)
  unfolding list_tests
  list_tests-KeepsValid s = (
    (λ c v. v),
    (
      (λ c v. add_upstream-IsValid (read_upstream s) c (read_upstream-IsUpstream s) v),
      ((λ c v. v), ((λ c v. v), ((λ c v. v), ((λ c v. v), ((λ c v. v), tt))))),
    ),
  )

  with_server-IsValid :
      (s : Section) (c : Config)
      → is_server s && is_old_cache (read_server src s) ≡ false
      → IsValid c
      → IsValid
          (if is_server s then record c { servers = c.servers ++ read_server src s ∷ [] } else c)
  with_server-IsValid s c e v = elim (Bool-cases (is_server s)) [
    | inl t ↦ rw t (add_server-IsValid (read_server src s) c (ground arith) v)
    | inr f ↦ rw f v
  ]

  read_sections-IsValid :
      (sections : List Section) (c : Config)
      → IsValid c
      → IsValid ((read_sections src sections c).0)
  unfolding read_sections
  read_sections-IsValid [] c v = v
  read_sections-IsValid (s ∷ sections) c v =
      let o = run_tests (option_tests s) c in
      let read = run_tests-IsValid (option_tests s) c (option_tests-KeepsValid s) v in
      elim (Bool-cases (is_server s && is_old_cache (read_server src s))) [
        | inl e ↦ rw e read
        | inr e ↦ rw e (
            read_sections-IsValid sections _ (
              run_tests-IsValid (list_tests src s) _ (list_tests-KeepsValid s)
                (with_server-IsValid s o e read)))
      ]

cleared-IsValid : (c : Config) → IsValid c → IsValid (cleared c)
cleared-IsValid c v = record {
  level = v.level;
  name = v.name;
  protocol = v.protocol;
  each_upstream = tt;
  each_server = tt;
  captcha = inl refl;
}

module _ (src : Sources) where
  read_all-IsValid :
      (read : Option (List Section)) (c : Config) → IsValid c → IsValid ((read_all src read c).0)
  unfolding read_all
  read_all-IsValid none c v = v
  read_all-IsValid (some sections) c v =
      read_sections-IsValid src sections (cleared c) (cleared-IsValid c v)

  read_output-IsValid :
      (output : Option Bytes) (c : Config) → IsValid c → IsValid ((read_output src output c).0)
  unfolding read_output
  read_output-IsValid none c v = v
  read_output-IsValid (some output) c v = read_all-IsValid (src.parse output) c v

  -- Load, whether it succeeds or fails half-way, leaves valid options valid: the log level is at most 3, the gateway's name has
  -- no space, its protocol is empty or one of the three, every upstream has a name without a space and one of the four
  -- protocols, no server has a cache of the old syntax, and a captcha is required only where its secret is given.
  pub load-IsValid : (c : Config) → IsValid c → IsValid ((load src c).0)
  unfolding load
  load-IsValid c v = elim (Bool-cases (has_prefix c.config_file (codes "$ "))) [
    | inl e ↦ rw e (read_output-IsValid (src.command (drop 2 c.config_file)) c v)
    | inr e ↦ rw e (read_all-IsValid (src.parse_file c.config_file) c v)
  ]

pub new_config-IsValid : IsValid new_config
unfolding contains
new_config-IsValid = record {
  level = omega arith;
  name = refl;
  protocol = inl refl;
  each_upstream = tt;
  each_server = tt;
  captcha = inl refl;
}
