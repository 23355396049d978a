-- ===== src/Gateway/Rewrite.antt =====
-- The parts of ProcessLineFromUpstream that may rewrite the line: capabilities and stored client tags.
use webircgateway.Base.{
  ℕ, Bool, false, not, ◌&&◌, Option, none, some, [], ◌∷◌, ◌++◌, leb, if◌then◌else◌, length, set,
  Outcome, ok, ◌>>=◌,
}
use webircgateway.Text.Bytes.{Bytes, codes, equal, is_empty, to_upper, contains}
use webircgateway.Dict.{Dict, insert}
use webircgateway.Irc.Message.{Message, get_param, get_param_u, to_line}
use webircgateway.Gateway.Access.{contains_one_of}
use webircgateway.Gateway.Client.{Client}
use webircgateway.Gateway.MessageTags.{
  MessageTagManager, can_message_contain_client_tags, get_tags_from_message,
}
use webircgateway.Gateway.Track.{param, source_nick}

abbrev pub cap_caps : Message → Bytes
cap_caps m =
    if leb 4 (length m.params) && equal (get_param m 2 []) (codes "*")
    then get_param_u m 3 []
    else get_param_u m 2 []

-- pLen >= 3 and the message is a CAP with this subcommand
abbrev pub is_cap : Message → Bytes → Bool
is_cap m sub = equal (to_upper m.command) (codes "CAP") && equal (get_param_u m 1 []) sub

abbrev pub set_param : Message → ℕ → Bytes → Message
set_param m idx p = record m { params = set m.params idx p }

-- The message, the line and the client behind a part that may rewrite all three.
pub record Line : Type 0 where
  pub message : Message
  pub text : Bytes
  pub client : Client

-- The upstream lists its capabilities: it has message tags of its own, or ours are added to the last line.
unfoldable pub on_cap_ls : Line → Outcome Line
unfolding contains_one_of
on_cap_ls l =
    let m = l.message in
    let native =
      contains_one_of (cap_caps m) (codes "DRAFT/MESSAGE-TAGS-0.2" ∷ codes "MESSAGE-TAGS" ∷ []) in
    let c : Client = if native then record (l.client) { messagetags = false } else l.client in
    if leb 3 (length m.params) && is_cap m (codes "LS")
    then (param m 2 >>= λ p.
        if c.messagetags && not (equal p (codes "*"))
        then (let m' = set_param m 2 (p ++ codes " message-tags") in
            ok (record { message = m'; text = to_line m'; client = c }))
        else ok (record l { client = c }))
    else ok l

-- The upstream acknowledges a request from which message-tags was taken out: it is put back.
unfoldable pub on_cap_ack : Line → Outcome Line
on_cap_ack l =
    let m = l.message in
    let cap = l.client.requested_message_tags_cap in
    if not (is_empty cap)
      && is_cap m (codes "ACK")
      && not (contains (get_param_u m 2 []) (codes "MESSAGE-TAGS"))
    then (param m 2 >>= λ p.
        let m' = set_param m 2 (p ++ b' ' ∷ cap) in
        ok (record {
          message = m';
          text = to_line m';
          client = record (l.client) { requested_message_tags_cap = [] };
        }))
    else ok l

unfoldable pub merge_tags : Dict Bytes → Dict Bytes → Dict Bytes
merge_tags [] tags = tags
merge_tags ((k, v) ∷ more) tags = merge_tags more (insert tags k v)

pub replay_with : Option (Dict Bytes) → Line → Line
replay_with none l = l
replay_with (some tags) l =
    let m = l.message in
    let m' : Message = record m { tags = merge_tags tags m.tags } in
    record l { message = m'; text = to_line m' }

-- Tags stored for this message are added to it.
unfoldable pub replay_tags : (Bytes → ℕ) → MessageTagManager → Line → Outcome Line
unfolding replay_with
replay_tags digest manager l =
    let m = l.message in
    let c = l.client in
    if c.messagetags && can_message_contain_client_tags m
    then (source_nick m >>= λ nick.
        ok (replay_with (get_tags_from_message digest c.upstream_config.hostname nick m manager) l))
    else ok l

unfoldable pub rewrite : (Bytes → ℕ) → MessageTagManager → Line → Outcome Line
rewrite digest manager l = do l ← on_cap_ls l; l ← on_cap_ack l; replay_tags digest manager l
