-- ===== src/Gateway/Registration/Verification.antt =====
-- A client that is to be verified gets no upstream before it is.
use webircgateway.Base.{
  ℕ, ◌≡◌, ◌⊎◌, inl, inr, refl, ◌∙◌, Bool, true, false, not, ◌&&◌, Option, none, some, [], ◌∷◌,
  arith, ltb, if◌then◌else◌, Bool-cases, length, get_elem?, Outcome, ok, Returns, Returns-if,
  length-set, get_elem?-lt,
}
use webircgateway.Text.Bytes.{Bytes, codes, is_empty}
use webircgateway.Irc.Message.{Message}
use webircgateway.Gateway.Client.{Client, send_irc_error, send_data}
use webircgateway.Gateway.Track.{param}
use webircgateway.Gateway.World.{Codec, World, Outside, with_client, on_client}
use webircgateway.Gateway.Registration.{
  nick_given, charset_found, encoding_given, host_param, is_command, maybe_connect_upstream,
  reject_captcha, captcha_of, captcha_verified, on_captcha, on_client_nick, on_user, replaced,
  on_encoding, host_given, on_host, before_upstream, on_client,
}
use webircgateway.Recaptcha.{Accepts, verify_response-Accepts}
use webircgateway.Gateway.Upstream.{close_client}
use webircgateway.Gateway.Registration.Waiting.{
  Waits, WaitsOn, Waits-send, Waits-shutdown, then_on-WaitsOn,
}

gate_shut :
    (a b : Bool) (x y : Outcome World)
    → (if not false && a && b && not (true && not false) then x else y) ≡ y
gate_shut true true x y = refl
gate_shut true false x y = refl
gate_shut false b x y = refl

reject_captcha-Waits : (c : Client) → Waits c → Returns (reject_captcha c) Waits
unfolding reject_captcha send_irc_error send_data close_client
reject_captcha-Waits c h =
    let (d, p, k) = Waits-send (codes "data") (codes "ERROR :Invalid captcha" ∷ []) c h in
    let (e, q, l) = Waits-send (codes "state") (codes "closed" ∷ codes "bad_captcha" ∷ []) d k in
    let (f, r, z) = Waits-shutdown (codes "unverifed") e l in rw p (rw q (f, r, z))

module _ (o : Outside) where
  maybe_connect_upstream-Waits : (w : World) → Waits w.client → maybe_connect_upstream o w ≡ ok w
  unfolding maybe_connect_upstream
  maybe_connect_upstream-Waits w h =
      simp (h.required, h.unverified, h.unstarted)
        (gate_shut (not (is_empty w.client.irc_state.username))
          (not (is_empty w.client.irc_state.nick)) _ _)

  nick_given-Waits : (n : Option Bytes) (c : Client) → Waits c → Waits (nick_given o n c)
  unfolding nick_given
  nick_given-Waits none c h = h
  nick_given-Waits (some nick) c h = h

  on_client_nick-WaitsOn :
      (m : Message) (line : Bytes) (w : World)
      → Waits w.client
      → Returns (on_client_nick o m line w) WaitsOn
  unfolding on_client_nick
  on_client_nick-WaitsOn m line w h =
      Returns-if (is_command m (codes "NICK") && not w.client.upstream_started) _ _
        (λ e.
          let k = nick_given-Waits (get_elem? m.params 0) w.client h in
          rw
            (maybe_connect_upstream-Waits
              (with_client w (nick_given o (get_elem? m.params 0) w.client)) k)
            (_, refl, k))
        (λ e. (_, refl, h))

  charset_found-Waits :
      (name : Bytes) (codec : Option Codec) (c : Client)
      → Waits c
      → Waits (charset_found o name codec c)
  unfolding charset_found
  charset_found-Waits name none c h = h
  charset_found-Waits name (some codec) c h = h

  encoding_given-Waits : (n : Option Bytes) (c : Client) → Waits c → Waits (encoding_given o n c)
  unfolding encoding_given
  encoding_given-Waits none c h = h
  encoding_given-Waits (some name) c h = charset_found-Waits name (o.charset name) c h

  on_encoding-WaitsOn :
      (m : Message) (line : Bytes) (w : World)
      → Waits w.client
      → Returns (on_encoding o m line w) WaitsOn
  unfolding on_encoding
  on_encoding-WaitsOn m line w h =
      Returns-if (is_command m (codes "ENCODING")) _ _
        (λ e. (_, refl, encoding_given-Waits (get_elem? m.params 0) w.client h)) (λ e. (_, refl, h))

  replaced-length :
      (format : Bytes) (i : ℕ) (c : Client) (m : Message)
      → length (replaced o format i c m).params ≡ length m.params
  replaced-length format i c m = elim (Bool-cases (is_empty format)) [
    | inl e ↦ rw e refl
    | inr e ↦ rw e (length-set m.params i _)
  ]

  on_user-WaitsOn :
      (m : Message) (line : Bytes) (w : World)
      → Waits w.client
      → Returns (on_user o m line w) WaitsOn
  unfolding on_user param
  on_user-WaitsOn m line w h =
      Returns-if (is_command m (codes "USER") && not w.client.upstream_started) _ _
        (λ e.
          Returns-if (ltb (length m.params) 4) _ _ (λ f. (_, refl, h))
            (λ f.
              let m' =
                replaced o o.config.client_realname 3 w.client
                  (replaced o o.config.client_username 0 w.client m) in
              let l =
                replaced-length o.config.client_realname 3 w.client
                  (replaced o o.config.client_username 0 w.client m)
                ∙ replaced-length o.config.client_username 0 w.client m in
              let (username, p) = get_elem?-lt m'.params 0 (ground arith) in
              let (realname, q) = get_elem?-lt m'.params 3 (ground arith) in
              (let k : Waits (record (w.client) {
                irc_state = record (w.client.irc_state) {
                  username = username;
                  real_name = realname;
                };
              }) =
                  h in
                rw p (
                  rw q (
                    rw
                      (maybe_connect_upstream-Waits
                        (with_client w (record (w.client) {
                          irc_state = record (w.client.irc_state) {
                            username = username;
                            real_name = realname;
                          };
                        }))
                        k)
                      (_, refl, k))))))
        (λ e. (_, refl, h))

  host_given-WaitsOn :
      (addr : Bytes) (w : World) → Waits w.client → Returns (host_given o addr w) WaitsOn
  unfolding host_given on_client send_irc_error send_data
  host_given-WaitsOn [] w h =
      let (c, e, k) = Waits-send (codes "data") (codes "ERROR :Missing host" ∷ []) w.client h in
      let (d, f, l) = Waits-shutdown (codes "missing_host") c k in rw e (rw f (_, refl, l))
  host_given-WaitsOn (b ∷ addr) w h = (_, refl, h)

  host_param-WaitsOn :
      (addr : Option Bytes) (w : World) → Waits w.client → Returns (host_param o addr w) WaitsOn
  unfolding host_param
  host_param-WaitsOn none w h = (_, refl, h)
  host_param-WaitsOn (some addr) w h = host_given-WaitsOn addr w h

  on_host-WaitsOn :
      (m : Message) (line : Bytes) (w : World)
      → Waits w.client
      → Returns (on_host o m line w) WaitsOn
  unfolding on_host
  on_host-WaitsOn m line w h =
      Returns-if (is_command m (codes "HOST") && not w.client.upstream_started) _ _
        (λ e.
          Returns-if (not o.config.gateway) _ _ (λ f. (_, refl, h))
            (λ f. host_param-WaitsOn (get_elem? m.params 0) w h))
        (λ e. (_, refl, h))

  -- The line is a CAPTCHA whose first param the service accepts.
  unfoldable pub Grants : Message → Type 0
  Grants m =
      (is_command m (codes "CAPTCHA") ≡ true)
      × (response : Bytes) × (get_elem? m.params 0 ≡ some response)
      × Accepts o.recaptcha (captcha_of o.config) response

  captcha_verified-Grants :
      (m : Message) (param : Option Bytes)
      → is_command m (codes "CAPTCHA") ≡ true
      → get_elem? m.params 0 ≡ param
      → captcha_verified o param ≡ true
      → Grants m
  unfolding captcha_verified Grants
  captcha_verified-Grants m none e p v = absurd (ground arith)
  captcha_verified-Grants m (some response) e p v =
      (e, response, p, verify_response-Accepts o.recaptcha (captcha_of o.config) response v)

  rejected-WaitsOn :
      (m : Message) (line : Bytes) (w : World)
      → is_command m (codes "CAPTCHA") ≡ true
      → captcha_verified o (get_elem? m.params 0) ≡ false
      → Waits w.client
      → Returns (on_captcha o m line w) WaitsOn
  unfolding on_captcha on_client
  rejected-WaitsOn m line w e v h =
      let (c, p, k) = reject_captcha-Waits w.client h in
      simp (h.unverified, e, v) (rw p (_, refl, k))

  on_captcha-WaitsOn :
      (m : Message) (line : Bytes) (w : World)
      → Waits w.client
      → Returns (on_captcha o m line w) WaitsOn ⊎ Grants m
  on_captcha-WaitsOn m line w h = elim (Bool-cases (is_command m (codes "CAPTCHA"))) [
    | inl e ↦ elim (Bool-cases (captcha_verified o (get_elem? m.params 0))) [
      | inl v ↦ inr (captcha_verified-Grants m (get_elem? m.params 0) e refl v)
      | inr v ↦ inl (rejected-WaitsOn m line w e v h)
    ]
    | inr e ↦ inl (unfold on_captcha in simp (e, h.unverified) (_, refl, h))
  ]

-- For a live client that is to be verified, is not, and has started no upstream connection, the part of
-- ProcessLineFromClient from CAPTCHA to HOST returns and leaves the client live, unverified and without an upstream
-- connection started, or else the line is a CAPTCHA whose first param the captcha service accepts: the POST of the
-- configured secret and that param gets a body that decodes to a success.
pub before_upstream-WaitsOn :
    (o : Outside) (m : Message) (line : Bytes) (w : World)
    → Waits w.client
    → Returns (before_upstream o m line w) WaitsOn ⊎ Grants o m
unfolding before_upstream
before_upstream-WaitsOn o m line w h = elim (on_captcha-WaitsOn o m line w h) [
  | inr granted ↦ inr granted
  | inl returned ↦ inl (
      then_on-WaitsOn _ _
        (then_on-WaitsOn _ _
          (then_on-WaitsOn _ _ (then_on-WaitsOn _ _ returned (on_client_nick-WaitsOn o))
            (on_user-WaitsOn o))
          (on_encoding-WaitsOn o))
        (on_host-WaitsOn o))
]
