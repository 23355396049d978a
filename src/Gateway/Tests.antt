-- ===== src/Gateway/Tests.antt =====
-- The access checks and the tag manager at concrete inputs.
use webircgateway.Base.{
  ◌-◌, ◌≡◌, ◌↔◌, ◌⊎◌, refl, true, false, none, some, [], ◌∷◌, arith, if◌then◌else◌, length,
}
use webircgateway.Text.Bytes.{Bytes, codes, equal, to_lower}
use webircgateway.Dict.{Dict, lookup as lookup_key}
use webircgateway.HashDict.{lookup}
use webircgateway.Gateway.Config.{Config, empty_upstream}
use webircgateway.Irc.Message.{Message, new_message, get_param}
use webircgateway.Gateway.Access.{
  is_irc_address_allowed, is_client_origin_allowed, find_upstream, Net, Request, is_trusted_proxy,
  remote_ip_from_request, get_remote_address, is_request_secure,
}
use webircgateway.Gateway.Access.Laws.{
  Matches, Chosen, is_irc_address_allowed_iff, is_client_origin_allowed_iff, find_upstream_lem,
  untrusted_headers,
}
use webircgateway.Gateway.MessageTags.{
  MessageTagManager, new_manager, can_message_contain_client_tags, collect_garbage,
  add_tags_from_message, get_tags_from_message,
}
use webircgateway.Gateway.MessageTags.Laws.{
  IsPlusPart, SameMessage, is_young, get_tags-add_tags, collect_garbage_lem,
}
use webircgateway.Gateway.Client.Tests.{config}

abbrev listed : Config
listed = record config {
  gateway_whitelist = codes "irc.example" ∷ [];
  remote_origins = codes "https://example" ∷ [];
  upstreams = empty_upstream ∷ [];
  reverse_proxies = codes "10" ∷ [];
}

is_irc_address_allowed_iff_example :
    (is_irc_address_allowed equal listed (codes "irc.other") ≡ true)
    ↔ ((listed.gateway_whitelist ≡ []) ⊎ Matches equal listed.gateway_whitelist (codes "irc.other"))
is_irc_address_allowed_iff_example = is_irc_address_allowed_iff equal listed (codes "irc.other")

is_client_origin_allowed_iff_example :
    (is_client_origin_allowed equal listed (codes "https://other") ≡ true) ↔ (
      (codes "https://other" ≡ [])
      ⊎ ((listed.remote_origins ≡ [])
          ⊎ Matches equal listed.remote_origins (codes "https://other")))
is_client_origin_allowed_iff_example =
    is_client_origin_allowed_iff equal listed (codes "https://other")

find_upstream_lem_example : Chosen listed.upstreams (find_upstream (λ n. n - 1) listed)
find_upstream_lem_example = find_upstream_lem (λ n. n - 1) listed (λ n h. omega arith)

-- Addresses as texts, and a range as the text of the address that it holds.
abbrev texts : Net
texts = record {
  Ip = Bytes;
  loopback = codes "127.0.0.1";
  parse_ip = λ s. some s;
  contains_ip = λ r ip. elim ip [ none ↦ false | some a ↦ equal r a ];
  host_of = λ s. s;
}

abbrev plain : Request
plain = record {
  remote_addr = codes "20";
  forwarded_for = [];
  forwarded_proto = [];
  over_tls = false;
}

abbrev spoofed : Request
spoofed = record plain { forwarded_for = codes "127.0.0.1"; forwarded_proto = codes "https" }

untrusted : is_trusted_proxy texts listed (remote_ip_from_request texts plain) ≡ false
unfolding is_trusted_proxy remote_ip_from_request equal webircgateway.Gateway.Access.any_range
untrusted = refl

untrusted_headers_example :
    (get_remote_address texts listed plain ≡ get_remote_address texts listed spoofed)
    × (is_request_secure texts listed plain ≡ is_request_secure texts listed spoofed)
untrusted_headers_example = untrusted_headers texts listed plain spoofed refl refl untrusted

abbrev tagged : Message
tagged = record new_message {
  tags = (codes "+x", codes "1") ∷ (codes "id", codes "2") ∷ [];
  command = codes "PRIVMSG";
  params = codes "#Chan" ∷ codes "hello" ∷ [];
}

abbrev relayed : Message
relayed = record new_message {
  command = codes "PRIVMSG";
  params = codes "#chan" ∷ codes "hello" ∷ [];
}

holds_tags :
    (can_message_contain_client_tags tagged ≡ true)
    × (can_message_contain_client_tags relayed ≡ true)
unfolding can_message_contain_client_tags equal
holds_tags = (refl, refl)

one_tag : lookup_key tagged.tags (codes "+x") ≡ some (codes "1")
unfolding lookup_key equal
one_tag = refl

same_message : SameMessage (codes "irc") (codes "Nick") tagged (codes "IRC") (codes "nick") relayed
same_message = record {
  same_host = unfold to_lower in refl;
  same_nick = unfold to_lower in refl;
  same_target = unfold to_lower get_param in refl;
  same_text = unfold get_param in refl;
}

get_tags-add_tags_example :
    (kept : Dict Bytes) × (get_tags_from_message length
        (codes "IRC")
        (codes "nick")
        relayed
        (add_tags_from_message length 5 (codes "irc") (codes "Nick") tagged new_manager)
      ≡ some kept)
    × IsPlusPart tagged.tags kept
get_tags-add_tags_example =
    get_tags-add_tags length 5 (codes "irc") (codes "Nick") tagged (codes "IRC") (codes "nick")
      relayed new_manager (codes "x") (codes "1") holds_tags.0 holds_tags.1 one_tag same_message

abbrev stored : MessageTagManager
stored = record { known_tags = (7, []) ∷ (8, []) ∷ []; gc_times = (7, 100) ∷ (8, 10) ∷ [] }

collect_garbage_lem_example :
    (lookup (collect_garbage 110 stored).known_tags 7
      ≡ (if is_young 110 stored.gc_times 7 then none else lookup stored.known_tags 7))
    × ((collect_garbage 110 stored).gc_times ≡ stored.gc_times)
collect_garbage_lem_example = collect_garbage_lem 110 stored 7
