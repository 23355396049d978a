-- ===== src/Gateway/Ready.antt =====
-- Ready and checkDnsBl of pkg/webircgateway/client.go: what a new client meets first, the DNS blocklists and the
-- captcha.
pub mod Verdict
mod Tests
use webircgateway.Base.{
  Bool, true, not, ◌&&◌, ◌||◌, [], ◌∷◌, ◌==◌, if◌then◌else◌, length, Outcome, ok, ◌>>=◌,
}
use webircgateway.Text.Bytes.{Bytes, codes, is_empty, equal}
use webircgateway.Text.Index.{index}
use webircgateway.Text.Bytes.{Bytes, codes, is_empty, equal}
use webircgateway.Dnsbl.{Dns, DnsblResult, ResultList, lookup}
use webircgateway.Gateway.Config.{Config}
use webircgateway.Gateway.Client.{Client, send_client_signal, send_irc_error, start_shutdown}

-- What checkDnsBl does: nothing (""), "deny" or "verify".
pub data Action : Type 0 where
  nothing denies verifies : Action

abbrev pub captcha_needed : Client → Outcome Client
captcha_needed c = send_client_signal (codes "data") (codes "CAPTCHA NEEDED" ∷ []) c

pub act_on : Config → ResultList → Client → Outcome (Action × Client)
unfolding equal
act_on config result c =
    if result.listed && equal config.dnsbl_action (codes "deny")
    then (send_irc_error (codes "Blocked by DNSBL") c
        >>= send_client_signal (codes "state") (codes "closed" ∷ codes "dnsbl_listed" ∷ [])
        >>= start_shutdown (codes "dnsbl")
        >>= λ c. ok (Action.denies, c))
    else if result.listed && equal config.dnsbl_action (codes "verify")
    then (captcha_needed (record c { requires_verification = true }) >>= λ c.
        ok (Action.verifies, c))
    else ok (Action.nothing, c)

unfoldable pub check_dns_bl : Dns → Config → Client → Outcome (Action × Client)
unfolding act_on
check_dns_bl dns config c =
    lookup dns config.dnsbl_servers c.remote_addr >>= λ result. act_on config result c

abbrev pub is_valid_action : Bytes → Bool
is_valid_action action = equal action (codes "verify") || equal action (codes "deny")

pub may_need_captcha : Config → Action × Client → Outcome Client
may_need_captcha config (Action.nothing, c) =
    if config.requires_verification && not c.verified then captcha_needed c else ok c
may_need_captcha config (Action.denies, c) = ok c
may_need_captcha config (Action.verifies, c) = ok c

unfoldable pub ready : Dns → Config → Client → Outcome Client
unfolding check_dns_bl may_need_captcha
ready dns config c =
    let checked = check_dns_bl dns config c in
    (if not (length config.dnsbl_servers == 0)
        && not (is_empty c.remote_addr)
        && not c.verified
        && is_valid_action config.dnsbl_action
      then checked
      else ok (Action.nothing, c))
    >>= may_need_captcha config
