-- ===== src/Gateway/Access/Laws.antt =====
-- What the access checks of the gateway decide.
use webircgateway.Base.{
  ℕ, ◌<◌, ◌≡◌, ◌↔◌, ◌⊎◌, inl, inr, refl, ap, Bool, true, false, Option, none, some, List, [], ◌∷◌,
  arith, ◌==◌, if◌then◌else◌, Bool-cases, length, get_elem?, Outcome, ok, ◌>>=◌, or_panic,
  get_elem?-lt,
}
use webircgateway.Text.Bytes.{Bytes, codes, is_empty, equal}
use webircgateway.Gateway.Config.{Config, ConfigUpstream}
use webircgateway.Gateway.Access.{
  any_match, is_client_origin_allowed, is_irc_address_allowed, find_upstream, Net, Request,
  remote_ip_from_request, is_nil, or_else, is_trusted_proxy, get_remote_address, is_request_secure,
  forwarded,
}

-- One of the patterns matches the text.
abbrev pub Matches : (Bytes → Bytes → Bool) → List Bytes → Bytes → Type 0
Matches matches [] text = ⊥
Matches matches (p ∷ ps) text = (matches p text ≡ true) ⊎ Matches matches ps text

any_match_iff :
    (matches : Bytes → Bytes → Bool) (ps : List Bytes) (text : Bytes)
    → (any_match matches ps text ≡ true) ↔ Matches matches ps text
unfolding any_match
any_match_iff matches [] text = (λ h. absurd (cc), λ h. absurd h)
any_match_iff matches (p ∷ ps) text =
    let (to, from) = any_match_iff matches ps text in
    elim (Bool-cases (matches p text)) [
      | inl e ↦ rw e (λ h. inl refl, λ h. refl)
      | inr e ↦ rw e (λ h. inr (to h), λ h. elim h [ inl f ↦ cc | inr r ↦ from r ])
    ]

allowed_iff :
    (matches : Bytes → Bytes → Bool) (ps : List Bytes) (text : Bytes)
    → ((if is_nil ps then true else any_match matches ps text) ≡ true)
      ↔ ((ps ≡ []) ⊎ Matches matches ps text)
allowed_iff matches [] text = (λ h. inl refl, λ h. refl)
allowed_iff matches (p ∷ ps) text =
    let (to, from) = any_match_iff matches (p ∷ ps) text in
    (λ h. inr (to h), λ h. elim h [ inl e ↦ absurd (cc) | inr r ↦ from r ])

-- A destination is allowed exactly when the whitelist is empty or one of its patterns matches it.
pub is_irc_address_allowed_iff :
    (matches : Bytes → Bytes → Bool) (config : Config) (addr : Bytes)
    → (is_irc_address_allowed matches config addr ≡ true)
      ↔ ((config.gateway_whitelist ≡ []) ⊎ Matches matches config.gateway_whitelist addr)
unfolding is_irc_address_allowed
is_irc_address_allowed_iff matches config addr = allowed_iff matches config.gateway_whitelist addr

-- An origin is allowed exactly when no origins are configured, the header is missing, or one of the
-- configured patterns matches it.
pub is_client_origin_allowed_iff :
    (matches : Bytes → Bytes → Bool) (config : Config) (origin : Bytes)
    → (is_client_origin_allowed matches config origin ≡ true) ↔ (
        (origin ≡ [])
        ⊎ ((config.remote_origins ≡ []) ⊎ Matches matches config.remote_origins origin))
unfolding is_client_origin_allowed
is_client_origin_allowed_iff matches config [] =
    (λ h. inl refl, λ h. origin_missing config.remote_origins)
  where
    origin_missing : (os : List Bytes) → (if is_nil os then true else true) ≡ true
    origin_missing [] = refl
    origin_missing (x ∷ xs) = refl
is_client_origin_allowed_iff matches config (c ∷ origin) =
    let (to, from) = allowed_iff matches config.remote_origins (c ∷ origin) in
    (λ h. inr (to h), λ h. elim h [ inl e ↦ absurd (cc) | inr r ↦ from r ])

-- What a choice among these upstreams returns.
abbrev pub Chosen : List ConfigUpstream → Outcome (Option ConfigUpstream) → Type 0
Chosen us o =
    ((us ≡ []) × (o ≡ ok none))
    ⊎ ((u : ConfigUpstream) × (i : ℕ) × (get_elem? us i ≡ some u) × (o ≡ ok (some u)))

choose :
    (us : List ConfigUpstream) (i : ℕ)
    → (0 < length us → i < length us)
    → Chosen us
        (if length us == 0 then ok none else (or_panic (get_elem? us i) >>= λ u. ok (some u)))
choose [] i h = inl (refl, refl)
choose (u ∷ us) i h =
    let (a, e) = get_elem?-lt (u ∷ us) i (h (omega arith)) in
    let some_left : (length (u ∷ us) == 0) ≡ false = ground arith in
    inr (a, i, e, rw some_left (rw e))

-- With a random index below its bound findUpstream never panics: it reports that there is none exactly
-- where none is configured, and otherwise returns one of those configured.
pub find_upstream_lem :
    (pick : ℕ → ℕ) (config : Config)
    → ((n : ℕ) → 0 < n → pick n < n)
    → Chosen config.upstreams (find_upstream pick config)
unfolding find_upstream
find_upstream_lem pick config h =
    choose config.upstreams (pick (length config.upstreams)) (h (length config.upstreams))

module _ (net : Net) (config : Config) (req req' : Request) where
  -- Two requests over the same connection, whose remote address is in no trusted range, are taken to
  -- come from the same address and to be secure alike, whatever their headers say.
  pub untrusted_headers :
      req.remote_addr ≡ req'.remote_addr
      → req.over_tls ≡ req'.over_tls
      → is_trusted_proxy net config (remote_ip_from_request net req) ≡ false
      → (get_remote_address net config req ≡ get_remote_address net config req')
        × (is_request_secure net config req ≡ is_request_secure net config req')
  unfolding get_remote_address is_request_secure
  untrusted_headers ea et h = (simp (h, h', same), simp (h, h', et))
    where
      same : remote_ip_from_request net req ≡ remote_ip_from_request net req'
      same =
          unfold remote_ip_from_request in
          ap (λ a. if equal a (codes "@") then some net.loopback else net.parse_ip (net.host_of a))
            ea

      h' : is_trusted_proxy net config (remote_ip_from_request net req') ≡ false
      h' = rw same at h

  -- Behind a trusted proxy the address is the first entry of the X-Forwarded-For header, without the spaces
  -- around it, where that is an IP address, and otherwise the address of the proxy.
  pub trusted_header :
      is_trusted_proxy net config (remote_ip_from_request net req) ≡ true
      → get_remote_address net config req ≡ (
          let entry = forwarded net req.forwarded_for in
          if is_empty entry
          then remote_ip_from_request net req
          else or_else net (net.parse_ip entry) (remote_ip_from_request net req))
  unfolding get_remote_address
  trusted_header h = elim (Bool-cases (is_empty (forwarded net req.forwarded_for))) [
    | inl e ↦ simp (h, e)
    | inr e ↦ simp (h, e)
  ]
