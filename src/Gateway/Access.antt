-- ===== src/Gateway/Access.antt =====
-- pkg/webircgateway/gateway_utils.go and the string tests of utils.go: who may connect, where to, and the
-- address that a request is taken to come from. Globs, IP addresses and network ranges are those of
-- other packages, and parameters here.
pub mod Laws
use webircgateway.Base.{
  ℕ, Bool, true, false, not, ◌||◌, Option, none, some, List, [], ◌∷◌, ◌==◌, if◌then◌else◌, length,
  get_elem?, Outcome, ok, ◌>>=◌, or_panic,
}
use webircgateway.Text.Bytes.{
  Bytes, codes, equal, is_empty, to_lower, equal_fold, trim, is_space, contains,
}
use webircgateway.Text.Index.{index, slice, split}
use webircgateway.Dict.{lookup}
use webircgateway.Gateway.Config.{Config, ConfigUpstream, empty_upstream}

-- containsOneOf
unfoldable pub contains_one_of : Bytes → List Bytes → Bool
contains_one_of s [] = false
contains_one_of s (x ∷ xs) = contains s x || contains_one_of s xs

-- stringInSlice
unfoldable pub string_in_slice : Bytes → List Bytes → Bool
string_in_slice s [] = false
string_in_slice s (v ∷ slice) = equal v s || string_in_slice s slice

-- stringInSliceOrDefault
unfoldable pub string_in_slice_or_default : Bytes → Bytes → List Bytes → Bytes
unfolding string_in_slice
string_in_slice_or_default s def valid = if string_in_slice s valid then s else def

-- The loop over the patterns, up to the first match.
any_match : (Bytes → Bytes → Bool) → List Bytes → Bytes → Bool
any_match matches [] text = false
any_match matches (p ∷ ps) text = matches p text || any_match matches ps text

abbrev pub is_nil {ℓ} : {A : Type ℓ} → List A → Bool
is_nil [] = true
is_nil (x ∷ xs) = false

-- `matches p s` is p.Match(s) of a compiled glob p.
unfoldable pub is_client_origin_allowed : (Bytes → Bytes → Bool) → Config → Bytes → Bool
unfolding any_match
is_client_origin_allowed matches config origin =
    if is_nil config.remote_origins
    then true
    else if is_empty origin
    then true
    else any_match matches config.remote_origins origin

unfoldable pub is_irc_address_allowed : (Bytes → Bytes → Bool) → Config → Bytes → Bool
unfolding any_match
is_irc_address_allowed matches config addr =
    if is_nil config.gateway_whitelist
    then true
    else any_match matches config.gateway_whitelist addr

-- `pick n` is rand.Intn(n). An index out of range panics.
unfoldable pub find_upstream : (ℕ → ℕ) → Config → Outcome (Option ConfigUpstream)
find_upstream pick config =
    if length config.upstreams == 0
    then ok none
    else (or_panic (get_elem? config.upstreams (pick (length config.upstreams))) >>= λ u.
        ok (some u))

abbrev or_empty : Option Bytes → Bytes
or_empty none = []
or_empty (some v) = v

unfoldable pub find_webirc_password : Config → Bytes → Bytes
find_webirc_password config host = or_empty (lookup config.gateway_webirc_password (to_lower host))

-- The parts of package net that the gateway calls: addresses, ParseIP, IPNet.Contains and SplitHostPort.
pub record Net : Type 1 where
  pub Ip : Type 0
  pub loopback : Ip
  pub parse_ip : Bytes → Option Ip
  pub contains_ip : Bytes → Option Ip → Bool
  pub host_of : Bytes → Bytes

-- The fields of an http.Request that are read. A missing header reads as "".
pub record Request : Type 0 where
  pub remote_addr : Bytes
  pub forwarded_for : Bytes
  pub forwarded_proto : Bytes
  pub over_tls : Bool

module _ (net : Net) where
  open net use {Ip, loopback, parse_ip, contains_ip, host_of}

  -- none is the nil address of a text that is none
  unfoldable pub remote_ip_from_request : Request → Option Ip
  remote_ip_from_request req =
      if equal req.remote_addr (codes "@")
      then some loopback
      else parse_ip (host_of req.remote_addr)

  unfoldable pub any_range : List Bytes → Option Ip → Bool
  any_range [] ip = false
  any_range (r ∷ rs) ip = contains_ip r ip || any_range rs ip

  unfoldable pub is_trusted_proxy : Config → Option Ip → Bool
  is_trusted_proxy config ip = any_range config.reverse_proxies ip

  -- ips[0], which strings.Split always has
  first_part : List Bytes → Bytes
  first_part [] = []
  first_part (p ∷ ps) = p

  pub forwarded : Bytes → Bytes
  forwarded header = trim is_space (first_part (split header b','))

  pub or_else : Option Ip → Option Ip → Option Ip
  or_else none ip = ip
  or_else (some a) ip = some a

  unfoldable pub get_remote_address : Config → Request → Option Ip
  get_remote_address config req =
      let remote = remote_ip_from_request req in
      if not (is_trusted_proxy config remote)
      then remote
      else let ip_str = forwarded req.forwarded_for in
        if not (is_empty ip_str) then or_else (parse_ip ip_str) remote else remote

  pub is_request_secure : Config → Request → Bool
  is_request_secure config req =
      if not (is_trusted_proxy config (remote_ip_from_request req))
      then req.over_tls
      else equal_fold req.forwarded_proto (codes "https")
