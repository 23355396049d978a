-- ===== src/Proxy/Protocol.antt =====
-- The two sides of the proxy protocol together: what a gateway makes of the proxy's response.
use webircgateway.Base.{
  ◌≡◌, ◌≢◌, ◌↔◌, ◌⊎◌, inl, inr, refl, Bool, true, false, not, ◌||◌, Option, none, some, [], ◌∷◌,
  if◌then◌else◌, Bool-cases,
}
use webircgateway.Text.Bytes.{Bytes, is_empty}
use webircgateway.Proxy.Errors.{
  NetError, ErrType, timeout, unknown_host, refused, no_type, type_of_err,
}
use webircgateway.Proxy.Connection.{
  KiwiProxyConnection, make_kiwi_proxy_connection, dial, connected, reads, DialError,
}
use webircgateway.Proxy.Server.{
  Replied, handshake_meta, is_zero, run_on, response_error, response_unknown_host, HandshakeMeta,
  run, handshake, connect_upstream, goes_on, fails, response_of,
}
use webircgateway.Gateway.Errors.{type_of_err as gateway_type_of_err}

-- The gateway dials a proxy that writes this. A proxy that writes nothing leaves the connection open, and the
-- gateway's Read waits: none.
abbrev pub dialed_by : Bytes → Option (KiwiProxyConnection × Option DialError)
dialed_by [] = none
dialed_by (b ∷ written) = some (dial (reads (b ∷ written)) make_kiwi_proxy_connection)

-- Dial returns, and leaves the gateway connected.
abbrev pub Connects : Bytes → Type 0
Connects written =
    (r : KiwiProxyConnection × Option DialError) × (dialed_by written ≡ some r)
    × ((r.0).state ≡ connected)

-- Dial returns an error that the gateway puts into this class.
abbrev pub FailsAs : ErrType → Bytes → Type 0
FailsAs t written =
    (r : KiwiProxyConnection × Option DialError) × (dialed_by written ≡ some r)
    × (r.1 ≢ none)
    × (gateway_type_of_err r.1 ≡ t)

-- What the gateway gets of a dial error of this class.
abbrev pub Answered : ErrType → Bytes → Type 0
Answered t written =
    ((t ≡ no_type) × (dialed_by written ≡ none)) ⊎ ((t ≢ no_type) × FailsAs t written)

response_of-Answered : (t : ErrType) → Answered t (response_of t)
unfolding response_of gateway_type_of_err dial
response_of-Answered timeout = inr (cc, (_, refl, cc, refl))
response_of-Answered unknown_host = inr (cc, (_, refl, cc, refl))
response_of-Answered refused = inr (cc, (_, refl, cc, refl))
response_of-Answered no_type = inl (refl, refl)

response_of-ne-Connects : (t : ErrType) → Connects (response_of t) → ⊥
unfolding response_of dial
response_of-ne-Connects timeout (r, e, c) = cc
response_of-ne-Connects unknown_host (r, e, c) = cc
response_of-ne-Connects refused (r, e, c) = cc
response_of-ne-Connects no_type (r, e, c) = cc

-- A dial error of the proxy reaches the gateway with its class: behind a handshake that went on, the gateway's
-- Dial returns an error that it classifies as the proxy did, where the proxy has a class for it. For an error
-- without a class, and only then, the proxy writes nothing and the gateway's Dial waits for an answer.
pub classified_error :
    (line : Option (Option HandshakeMeta)) (binds resolves : Bool) (e : NetError)
    (tls : Option Bool)
    → handshake line binds resolves ≡ ([], goes_on)
    → Answered (type_of_err (some e)) (run line binds resolves (some e) tls).0
classified_error line binds resolves e tls h =
    unfold run connect_upstream in rw h (response_of-Answered (type_of_err (some e)))

-- How a handshake ends: it goes on and has written nothing, or it fails with a response that leaves the
-- gateway unconnected.
abbrev EndsOk : Replied → Type 0
EndsOk r = (r ≡ ([], goes_on)) ⊎ ((r.1 ≡ fails) × ¬ Connects r.0)

handshake_meta-EndsOk :
    (binds resolves : Bool) (meta : HandshakeMeta) → EndsOk (handshake_meta binds resolves meta)
unfolding handshake_meta dial
handshake_meta-EndsOk binds resolves meta =
    elim (Bool-cases (
      is_empty meta.host
      || is_zero meta.port
      || is_empty meta.username
      || is_empty meta.interface)) [
        | inl e ↦ rw e (inr (refl, λ (r, e, c). cc))
        | inr e ↦ rw e (go binds resolves)
      ]
  where
    go :
        (b r : Bool)
        → EndsOk (
            if not b
            then (response_error, fails)
            else if not r
            then (response_unknown_host, fails)
            else ([], goes_on))
    go false r = inr (refl, λ (r, e, c). cc)
    go true false = inr (refl, λ (r, e, c). cc)
    go true true = inl refl

handshake-EndsOk :
    (line : Option (Option HandshakeMeta)) (binds resolves : Bool)
    → EndsOk (handshake line binds resolves)
unfolding handshake dial
handshake-EndsOk none binds resolves = inr (refl, λ (r, e, c). cc)
handshake-EndsOk (some none) binds resolves = inr (refl, λ (r, e, c). cc)
handshake-EndsOk (some (some meta)) binds resolves = handshake_meta-EndsOk binds resolves meta

connect_upstream_iff :
    (dialed : Option NetError) (tls : Option Bool)
    → Connects (connect_upstream dialed tls).0 ↔ ((connect_upstream dialed tls).1 ≡ goes_on)
unfolding connect_upstream dial
connect_upstream_iff (some e) tls =
    (λ h. absurd (response_of-ne-Connects (type_of_err (some e)) h), λ h. absurd (cc))
connect_upstream_iff none none = (λ h. refl, λ h. (_, refl, refl))
connect_upstream_iff none (some true) = (λ h. refl, λ h. (_, refl, refl))
connect_upstream_iff none (some false) = (λ (r, e, c). absurd (cc), λ h. absurd (cc))

run_failed :
    (r next : Replied)
    → r.1 ≡ fails
    → ¬ Connects r.0
    → Connects (run_on r next).0 ↔ ((run_on r next).1 ≡ goes_on)
unfolding run_on
run_failed (w, fails) next h ne = (λ k. absurd (ne k), λ k. absurd (cc))
run_failed (w, goes_on) next h ne = absurd (cc)

-- The gateway is connected through the proxy exactly when the proxy starts its pipe, behind every handshake,
-- every answer to its dial and every outcome of TLS.
pub connected_iff :
    (line : Option (Option HandshakeMeta)) (binds resolves : Bool) (dialed : Option NetError)
    (tls : Option Bool)
    → Connects (run line binds resolves dialed tls).0
      ↔ ((run line binds resolves dialed tls).1 ≡ goes_on)
unfolding run
connected_iff line binds resolves dialed tls = elim (handshake-EndsOk line binds resolves) [
  | inl e ↦ rw e (connect_upstream_iff dialed tls)
  | inr (f, ne) ↦ run_failed (handshake line binds resolves) (connect_upstream dialed tls) f ne
]
