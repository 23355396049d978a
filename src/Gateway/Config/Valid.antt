-- ===== src/Gateway/Config/Valid.antt =====
-- Load keeps the options within what the rest of the gateway takes for granted.
use webircgateway.Base.{
  ◌≤◌, ◌≡◌, ◌⊎◌, inl, inr, refl, Bool, true, false, not, ◌&&◌, List, [], ◌∷◌, arith, if◌then◌else◌,
  Bool-cases, All, ℤ, pos, negsuc,
}
use webircgateway.Text.Bytes.{Bytes, codes, is_empty, equal, to_lower, has_prefix, contains}
use webircgateway.Gateway.Access.{string_in_slice, string_in_slice_or_default}
use webircgateway.Gateway.Config.{ConfigUpstream, ConfigServer, Config}
use webircgateway.Gateway.Config.Sections.{
  Section, text_of, bool_of, int_of, spaceless, gateway_protocols, upstream_protocols, is_log_level,
  read_default, read_verify, read_gateway, read_upstream,
}
use webircgateway.Gateway.Config.Load.{is_old_cache, run_tests}

-- 0 is the level of a configuration that was never loaded.
abbrev pub LevelWithin : ℤ → Type 0
LevelWithin (pos n) = n ≤ 3
LevelWithin (negsuc n) = ⊥

abbrev pub SpaceFree : Bytes → Type 0
SpaceFree name = contains name (codes " ") ≡ false

pub record IsUpstream (u : ConfigUpstream) : Type 0 where
  pub name : SpaceFree u.gateway_name
  pub protocol : string_in_slice u.protocol upstream_protocols ≡ true

pub record ValidOptions (log_level : ℤ) (gateway_name gateway_protocol : Bytes)
    (upstreams : List ConfigUpstream) (servers : List ConfigServer) (required : Bool)
    (captcha_secret : Bytes) : Type 0 where
  pub level : LevelWithin log_level
  pub name : SpaceFree gateway_name
  pub protocol :
      (gateway_protocol ≡ []) ⊎ (string_in_slice gateway_protocol gateway_protocols ≡ true)
  pub each_upstream : All IsUpstream upstreams
  pub each_server : All (λ server. is_old_cache server ≡ false) servers
  pub captcha : (required ≡ false) ⊎ (is_empty captcha_secret ≡ false)

-- What the rest of the gateway may take for granted of its options.
abbrev pub IsValid : Config → Type 0
IsValid c =
    ValidOptions c.log_level c.gateway_name c.gateway_protocol c.upstreams c.servers
      c.requires_verification c.re_captcha_secret

spaceless-SpaceFree : (name : Bytes) → SpaceFree (spaceless name)
unfolding spaceless contains
spaceless-SpaceFree name = elim (Bool-cases (contains name (codes " "))) [
  | inl e ↦ rw e refl
  | inr e ↦ rw (e, e) refl
]

string_in_slice_or_default-valid :
    (s def : Bytes) (valid : List Bytes)
    → string_in_slice def valid ≡ true
    → string_in_slice (string_in_slice_or_default s def valid) valid ≡ true
unfolding string_in_slice_or_default
string_in_slice_or_default-valid s def valid h = elim (Bool-cases (string_in_slice s valid)) [
  | inl e ↦ rw (e, e) refl
  | inr e ↦ rw e h
]

-- A test's reader keeps the options valid.
abbrev pub KeepsValid : Bool × (Config → Config) → Type 0
KeepsValid (b, read) = (c : Config) → IsValid c → IsValid (read c)

pub run_tests-IsValid :
    (tests : List (Bool × (Config → Config))) (c : Config)
    → All KeepsValid tests
    → IsValid c
    → IsValid (run_tests tests c)
unfolding run_tests
run_tests-IsValid [] c h v = v
run_tests-IsValid ((true, read) ∷ tests) c (k, h) v = run_tests-IsValid tests (read c) h (k c v)
run_tests-IsValid ((false, read) ∷ tests) c (k, h) v = run_tests-IsValid tests c h v

level_lem : (n : ℤ) → LevelWithin (if is_log_level n then n else pos 3)
level_lem (pos n) = ground arith
level_lem (negsuc n) = omega arith

pub read_default-IsValid : (s : Section) (c : Config) → IsValid c → IsValid (read_default s c)
unfolding read_default
read_default-IsValid s c v = record {
  level = level_lem (int_of s (codes "logLevel") (pos 3));
  name = spaceless-SpaceFree _;
  protocol = v.protocol;
  each_upstream = v.each_upstream;
  each_server = v.each_server;
  captcha = v.captcha;
}

if-IsValid :
    (b : Bool) (x y : Config) → (b ≡ true → IsValid x) → IsValid y → IsValid (if b then x else y)
if-IsValid true x y hx hy = hx refl
if-IsValid false x y hx hy = hy

given_secret : (a b : Bytes) → not (is_empty a) && not (is_empty b) ≡ true → is_empty a ≡ false
given_secret [] b e = absurd (ground arith)
given_secret (c ∷ a) b e = refl

pub read_verify-IsValid : (s : Section) (c : Config) → IsValid c → IsValid (read_verify s c)
unfolding read_verify
read_verify-IsValid s c v =
    let captcha_secret = text_of s (codes "recaptcha_secret") [] in
    let captcha_key = text_of s (codes "recaptcha_key") [] in
    let captcha : Config = record c {
      requires_verification = bool_of s (codes "required") false;
      re_captcha_secret = captcha_secret;
    } in
    let test = not (is_empty captcha_secret) && not (is_empty captcha_key) in
    if-IsValid test captcha c
      (λ e. record {
        level = v.level;
        name = v.name;
        protocol = v.protocol;
        each_upstream = v.each_upstream;
        each_server = v.each_server;
        captcha = inr (given_secret captcha_secret captcha_key e);
      })
      v

gateway_tcp : string_in_slice (codes "tcp") gateway_protocols ≡ true
unfolding string_in_slice equal
gateway_tcp = refl

upstream_tcp : string_in_slice (codes "tcp") upstream_protocols ≡ true
unfolding string_in_slice equal
upstream_tcp = refl

upstream_unix : string_in_slice (codes "unix") upstream_protocols ≡ true
unfolding string_in_slice equal
upstream_unix = refl

either-valid :
    (b : Bool) (x y : Bytes) (valid : List Bytes)
    → string_in_slice x valid ≡ true
    → string_in_slice y valid ≡ true
    → string_in_slice (if b then x else y) valid ≡ true
either-valid true x y valid hx hy = hx
either-valid false x y valid hx hy = hy

pub read_gateway-IsValid : (s : Section) (c : Config) → IsValid c → IsValid (read_gateway s c)
unfolding read_gateway
read_gateway-IsValid s c v = record {
  level = v.level;
  name = v.name;
  protocol = inr (
      string_in_slice_or_default-valid (text_of s (codes "protocol") []) (codes "tcp")
        gateway_protocols gateway_tcp);
  each_upstream = v.each_upstream;
  each_server = v.each_server;
  captcha = v.captcha;
}

pub read_upstream-IsUpstream : (s : Section) → IsUpstream (read_upstream s)
unfolding read_upstream
read_upstream-IsUpstream s = record {
  name = spaceless-SpaceFree _;
  protocol =
      let protocol = text_of s (codes "protocol") [] in
      let hostname = text_of s (codes "hostname") (codes "127.0.0.1") in
      either-valid (has_prefix (to_lower hostname) (codes "unix:")) (codes "unix")
        (string_in_slice_or_default protocol (codes "tcp") upstream_protocols) upstream_protocols
        upstream_unix
        (string_in_slice_or_default-valid protocol (codes "tcp") upstream_protocols upstream_tcp);
}
