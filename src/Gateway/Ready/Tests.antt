-- ===== src/Gateway/Ready/Tests.antt =====
-- A client whose address is on a blocklist.
use webircgateway.Base.{◌≡◌, inl, refl, false, [], ◌∷◌, ok}
use webircgateway.Text.Bytes.{codes}
use webircgateway.Gateway.Client.{Client, new_client}
use webircgateway.Gateway.Client.Lifecycle.{new_client-IsLive}
use webircgateway.Gateway.Client.Tests.{config}
use webircgateway.Gateway.Config.{Config}
use webircgateway.Dnsbl.Lookup.{any, lists}
use webircgateway.Dnsbl.Tests.{home, dns}
use webircgateway.Gateway.Ready.{ready}
use webircgateway.Gateway.Ready.Verdict.{verdict, settle, ready_lem}

abbrev denying : Config
denying = record config { dnsbl_servers = codes "bl.example" ∷ []; dnsbl_action = codes "deny" }

abbrev caller : Client
caller = record (new_client denying 2) { remote_addr = codes "127.0.0.2" }

unshut : caller.shutting_down ≡ false
unfolding new_client
unshut = refl

ready_lem_example :
    ready dns denying caller
    ≡ ok (
        settle
          (verdict denying
            (any (λ rbl. any (lists dns rbl) (home ∷ [])) denying.dnsbl_servers)
            caller)
          caller)
ready_lem_example =
    ready_lem dns denying caller (home ∷ [])
      (record {
        closed = (new_client-IsLive denying 2).closed;
        counted = (new_client-IsLive denying 2).counted;
      })
      unshut refl (inl refl, tt)
