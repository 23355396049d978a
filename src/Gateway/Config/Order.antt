-- ===== src/Gateway/Config/Order.antt =====
-- Load reads the servers, the upstreams and the plugins in the order of their sections.
use webircgateway.Base.{
  ◌≡◌, Bool, false, ◌&&◌, ◌||◌, Option, none, some, List, [], ◌∷◌, ◌++◌, map, if◌then◌else◌,
}
use webircgateway.Text.Bytes.{Bytes, codes, has_prefix}
use webircgateway.Gateway.Config.{Config}
use webircgateway.Gateway.Config.Sections.{Section, Sources, read_upstream, trimmed}
use webircgateway.Gateway.Config.Servers.{read_server}
use webircgateway.Gateway.Config.Load.{
  is_upstream, option_tests, list_tests, run_tests, LoadError, is_server, is_old_cache,
}

-- The items that pass a test.
unfoldable pub filter {ℓ} : {A : Type ℓ} → (A → Bool) → List A → List A
filter test [] = []
filter test (x ∷ xs) = let rest = filter test xs in if test x then x ∷ rest else rest

abbrev pub is_plugins : Section → Bool
is_plugins s = has_prefix s.name (codes "plugins")

unfoldable pub plugins_of : List Section → List Bytes
plugins_of [] = []
plugins_of (s ∷ sections) =
    let rest = plugins_of sections in
    if is_plugins s then map trimmed s.key_strings ++ rest else rest

module _ (src : Sources) where
  -- A server whose cache is of the old syntax ends Load.
  abbrev pub is_old : Section → Bool
  is_old s = is_server s && is_old_cache (read_server src s)

  -- The sections in front of the first such server.
  unfoldable pub kept : List Section → List Section
  kept [] = []
  kept (s ∷ sections) = let rest = kept sections in if is_old s then [] else s ∷ rest

  unfoldable pub is_stopped : List Section → Bool
  is_stopped [] = false
  is_stopped (s ∷ sections) = is_old s || is_stopped sections

  -- What Load has read of these sections behind what was there.
  pub record Reads (sections : List Section) (c : Config) (r : Config × Option LoadError)
      : Type 0 where
    pub servers :
        (r.0).servers ≡ c.servers ++ map (read_server src) (filter is_server (kept sections))
    pub upstreams :
        (r.0).upstreams ≡ c.upstreams ++ map read_upstream (filter is_upstream (kept sections))
    pub plugins : (r.0).plugins ≡ c.plugins ++ plugins_of (kept sections)
    pub error : r.1 ≡ (if is_stopped sections then some LoadError.cache_syntax else none)

  add_server : Section → Config → Config
  add_server s c = record c { servers = c.servers ++ read_server src s ∷ [] }

  -- The configuration behind a section that does not stop Load.
  next : Section → Config → Config
  next s c =
      let o = run_tests (option_tests s) c in
      run_tests (list_tests src s)
        (if is_server s then record o { servers = o.servers ++ read_server src s ∷ [] } else o)
