-- ===== src/Gateway/FromClient/Caps.antt =====
-- The CAP lines of ProcessLineFromClient: the capabilities that a client lists and requests.
use webircgateway.Base.{
  true, false, not, ◌&&◌, List, [], ◌∷◌, ◌++◌, if◌then◌else◌, Outcome, ok, ◌>>=◌,
}
use webircgateway.Text.Bytes.{Bytes, codes, equal, to_lower, contains}
use webircgateway.Text.Index.{split}
use webircgateway.Irc.Message.{Message, get_param, get_param_u, to_line}
use webircgateway.Gateway.Access.{contains_one_of}
use webircgateway.Gateway.Client.{send_data}
use webircgateway.Gateway.Rewrite.{set_param}
use webircgateway.Gateway.World.{World, with_client, on_client}
use webircgateway.Gateway.Registration.{Flow, goes_on, drops, is_command}

-- A client that lists capabilities is taken to read message tags.
unfoldable pub on_client_ls : Message → Bytes → World → Outcome Flow
on_client_ls m line w =
    if is_command m (codes "CAP") && equal (get_param_u m 0 []) (codes "LS")
    then ok (goes_on m line (with_client w (record (w.client) { messagetags = true })))
    else ok (goes_on m line w)

-- The loop over the requested capabilities: those that go upstream, and the last one that does not.
unfoldable pub split_caps : List Bytes → Bytes → List Bytes × Bytes
split_caps [] ours = ([], ours)
split_caps (cap ∷ caps) ours =
    let theirs = split_caps caps ours in
    let kept = split_caps caps cap in
    if contains (to_lower cap) (codes "message-tags") then kept else (cap ∷ theirs.0, theirs.1)

-- strings.Join(caps, " ")
unfoldable pub join : List Bytes → Bytes
join [] = []
join (cap ∷ []) = cap
join (cap ∷ next ∷ caps) = cap ++ b' ' ∷ join (next ∷ caps)

pub request_caps : Message → List Bytes × Bytes → World → Outcome Flow
request_caps m ([], ours) w =
    on_client (send_data (codes "CAP * ACK :" ++ ours))
      (with_client w (record (w.client) { requested_message_tags_cap = ours }))
    >>= λ w. ok (drops w)
request_caps m (cap ∷ caps, ours) w =
    let m = set_param m 1 (join (cap ∷ caps)) in
    ok (
      goes_on m (to_line m)
        (with_client w (record (w.client) { requested_message_tags_cap = ours })))

abbrev pub enabling_caps : List Bytes
enabling_caps =
    codes "message-tags" ∷ codes "account-tag" ∷ codes "server-time" ∷ codes "batch" ∷ []

unfoldable pub on_client_req : Message → Bytes → World → Outcome Flow
unfolding request_caps
on_client_req m line w =
    let c = w.client in
    let caps = to_lower (get_param m 1 []) in
    if c.messagetags && is_command m (codes "CAP") && equal (get_param_u m 0 []) (codes "REQ")
    then (if contains caps (codes "message-tags")
        then request_caps m (split_caps (split caps b' ') c.requested_message_tags_cap) w
        else if not (contains_one_of caps enabling_caps)
        then ok (goes_on m line (with_client w (record c { messagetags = false })))
        else ok (goes_on m line w))
    else ok (goes_on m line w)
