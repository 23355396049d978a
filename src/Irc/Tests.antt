-- ===== src/Irc/Tests.antt =====
-- The state of a connection at concrete calls.
use webircgateway.Base.{◌≡◌, refl, true, false, List, [], ◌∷◌}
use webircgateway.Text.Bytes.{Bytes, codes, to_upper}
use webircgateway.Text.Index.{split}
use webircgateway.Dict.{Dict, lookup, insert}
use webircgateway.Irc.Isupport.{
  Isupport, add_tokens, get_token, has_token, is_some, or_empty, last_value, add_tokens_lem,
}
use webircgateway.Irc.State.{
  ChannelOp, new_state, new_state_channel, get_channel, run, view_all, get_channel-run,
}

abbrev no_tokens : Isupport
no_tokens = record { received = true; injected = false; tags = []; tokens = [] }

abbrev pairs : List Bytes
pairs = codes "NICKLEN=30" ∷ codes "EXTJWT" ∷ codes "nicklen=31" ∷ []

add_tokens_value : get_token (add_tokens no_tokens pairs) (codes "NickLen") ≡ codes "31"
unfolding get_token add_tokens to_upper split lookup webircgateway.Dict.insert
add_tokens_value = refl

abbrev calls : List ChannelOp
calls =
    ChannelOp.set (new_state_channel (codes "#Chan") 5)
    ∷ ChannelOp.set (new_state_channel (codes "#b") 6)
    ∷ ChannelOp.remove (codes "#B")
    ∷ []

add_tokens_lem_example :
    (get_token (add_tokens no_tokens pairs) (codes "NickLen")
      ≡ or_empty (
          last_value pairs
            (codes "NickLen")
            (lookup no_tokens.tokens (to_upper (codes "NickLen")))))
    × (has_token (add_tokens no_tokens pairs) (codes "NickLen")
        ≡ is_some (
            last_value pairs
              (codes "NickLen")
              (lookup no_tokens.tokens (to_upper (codes "NickLen")))))
add_tokens_lem_example = add_tokens_lem no_tokens pairs (codes "NickLen")

get_channel-run_example :
    get_channel (run calls new_state) (codes "#CHAN")
    ≡ view_all calls (get_channel new_state) (codes "#CHAN")
get_channel-run_example = get_channel-run calls new_state (codes "#CHAN")
