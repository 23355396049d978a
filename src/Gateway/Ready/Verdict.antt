-- ===== src/Gateway/Ready/Verdict.antt =====
-- Ready decides on a new client as the operator's options and the blocklists say.
use webircgateway.Base.{
  ◌≡◌, inl, inr, refl, ap, ◌∙◌, Bool, true, false, not, ◌&&◌, some, List, [], ◌∷◌, ◌++◌,
  append_assoc, arith, ◌==◌, if◌then◌else◌, Bool-cases, length, All, ok, ◌>>=◌,
}
use webircgateway.Text.Bytes.{Bytes, codes, is_empty, equal}
use webircgateway.Text.Bytes.{Bytes, codes, is_empty, equal}
use webircgateway.Dnsbl.{Dns, ResultList}
use webircgateway.Dnsbl.Lookup.{any, lists, AddressSized, lookup_lem}
use webircgateway.Gateway.Config.{Config}
use webircgateway.Gateway.Client.{
  Client, ClientState, send_client_signal, send_irc_error, start_shutdown, send_data,
}
use webircgateway.Gateway.Client.Lifecycle.{IsLive, send_live, start_shutdown_lem, shut}
use webircgateway.Gateway.Ready.{
  Action, captcha_needed, act_on, check_dns_bl, is_valid_action, may_need_captcha, ready,
}

-- What becomes of a new client.
pub data Verdict : Type 0 where
  passes asks asks_and_requires refuses : Verdict

-- Whether the blocklists are asked about a client.
abbrev pub is_checked : Config → Client → Bool
is_checked config c =
    not (length config.dnsbl_servers == 0)
    && not (is_empty c.remote_addr)
    && not c.verified
    && is_valid_action config.dnsbl_action

abbrev pub passes_or_asks : Config → Client → Verdict
passes_or_asks config c =
    if config.requires_verification && not c.verified then Verdict.asks else Verdict.passes

-- What the operator's options say of a client that the blocklists have or do not have.
abbrev pub verdict : Config → Bool → Client → Verdict
verdict config listed c =
    if is_checked config c && listed
    then (if equal config.dnsbl_action (codes "deny")
        then Verdict.refuses
        else Verdict.asks_and_requires)
    else passes_or_asks config c

abbrev pub settle : Verdict → Client → Client
settle Verdict.passes c = c
settle Verdict.asks c = record c {
  signals = c.signals ++ (codes "data", codes "CAPTCHA NEEDED", []) ∷ [];
}
settle Verdict.asks_and_requires c = record c {
  requires_verification = true;
  signals = c.signals ++ (codes "data", codes "CAPTCHA NEEDED", []) ∷ [];
}
settle Verdict.refuses c = record c {
  signals =
      c.signals
      ++ (codes "data", codes "ERROR :Blocked by DNSBL", [])
        ∷ (codes "state", codes "closed", codes "dnsbl_listed")
        ∷ [];
  shutting_down = true;
  state = ClientState.ending;
  signals_closed = true;
  end_wg = 0;
}

-- The end of act_on for each decision.
module _ (c : Client) (h : IsLive c) (live : c.shutting_down ≡ false) where
  asked : captcha_needed c ≡ ok (settle Verdict.asks c)
  asked = send_live (codes "data") (codes "CAPTCHA NEEDED" ∷ []) c h live

  asked_and_required :
      captcha_needed (record c { requires_verification = true })
      ≡ ok (settle Verdict.asks_and_requires c)
  asked_and_required =
      send_live (codes "data") (codes "CAPTCHA NEEDED" ∷ [])
        (record c { requires_verification = true }) (h) live

  refused :
      (send_irc_error (codes "Blocked by DNSBL") c
        >>= send_client_signal (codes "state") (codes "closed" ∷ codes "dnsbl_listed" ∷ [])
        >>= start_shutdown (codes "dnsbl"))
      ≡ ok (settle Verdict.refuses c)
  unfolding send_irc_error send_data
  refused =
      let c1 : Client = record c {
        signals = c.signals ++ (codes "data", codes "ERROR :Blocked by DNSBL", []) ∷ [];
      } in
      let c2 : Client = record c1 {
        signals = c1.signals ++ (codes "state", codes "closed", codes "dnsbl_listed") ∷ [];
      } in
      let h1 : IsLive c1 = h in
      let h2 : IsLive c2 = h in
      let told = send_live (codes "data") (codes "ERROR :Blocked by DNSBL" ∷ []) c h live in
      let closed =
        send_live (codes "state") (codes "closed" ∷ codes "dnsbl_listed" ∷ []) c1 h1 live in
      let shut_down : start_shutdown (codes "dnsbl") c2 ≡ ok (shut c2) =
        start_shutdown_lem (codes "dnsbl") c2 h2 ∙ rw live refl in
      rw told (
        rw closed
          (shut_down ∙ ap (λ l. ok (record (shut c) { signals = l })) (append_assoc c.signals _ _)))

  not_taken :
      (config : Config)
      → may_need_captcha config (Action.nothing, c) ≡ ok (settle (passes_or_asks config c) c)
  unfolding may_need_captcha
  not_taken config = elim (Bool-cases (config.requires_verification && not c.verified)) [
    | inl e ↦ rw e asked
    | inr e ↦ rw e refl
  ]

  listed_lem :
      (config : Config) (r : ResultList)
      → is_valid_action config.dnsbl_action ≡ true
      → r.listed ≡ true
      → act_on config r c >>= may_need_captcha config
        ≡ ok (
            settle
              (if equal config.dnsbl_action (codes "deny")
                then Verdict.refuses
                else Verdict.asks_and_requires)
              c)
  unfolding act_on may_need_captcha
  listed_lem config r valid l = elim (Bool-cases (equal config.dnsbl_action (codes "deny"))) [
    | inl e ↦ rw (l, e) (rw refused refl)
    | inr e ↦
        let verify : equal config.dnsbl_action (codes "verify") ≡ true = ground arith in
        rw (l, e, verify) (rw asked_and_required refl)
  ]

  unlisted_lem :
      (config : Config) (r : ResultList)
      → r.listed ≡ false
      → act_on config r c >>= may_need_captcha config ≡ ok (settle (passes_or_asks config c) c)
  unfolding act_on
  unlisted_lem config r l = rw l (not_taken config)

  act_on_lem :
      (config : Config) (r : ResultList)
      → is_checked config c ≡ true
      → act_on config r c >>= may_need_captcha config ≡ ok (settle (verdict config r.listed c) c)
  act_on_lem config r t = elim (Bool-cases r.listed) [
    | inl l ↦ listed_lem config r (ground arith) l ∙ (simp (t, l))
    | inr l ↦ unlisted_lem config r l ∙ (simp (t, l))
  ]

-- Ready on an unshut client whose addresses the blocklists can be asked about returns: the client is refused, asked
-- for a captcha or let through as the verdict says, given whether some list has a host for some address.
pub ready_lem :
    (dns : Dns) (config : Config) (c : Client) (addrs : List Bytes)
    → IsLive c
    → c.shutting_down ≡ false
    → dns.lookup_ip c.remote_addr ≡ some addrs
    → All AddressSized addrs
    → ready dns config c
      ≡ ok (
          settle (verdict config (any (λ rbl. any (lists dns rbl) addrs) config.dnsbl_servers) c) c)
unfolding ready check_dns_bl
ready_lem dns config c addrs h live e sized =
    let (r, found, (l, n)) = lookup_lem dns config.dnsbl_servers c.remote_addr addrs e sized in
    elim (Bool-cases (is_checked config c)) [
      | inl t ↦ rw (t, found) (act_on_lem c h live config r t ∙ rw (l, t) refl)
      | inr f ↦ rw f (not_taken c h live config)
    ]
