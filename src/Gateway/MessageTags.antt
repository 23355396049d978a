-- ===== src/Gateway/MessageTags.antt =====
-- pkg/webircgateway/messagetags.go: client tags are kept under a hash of the message that they came with.
-- The hash function is that of another package and a parameter; writing several strings to it hashes
-- their concatenation. Times are in seconds. Each method holds the mutex where it touches the maps.
pub mod Laws
use webircgateway.Base.{
  ℕ, ◌+◌, Bool, false, not, ◌&&◌, Option, none, [], ◌∷◌, ◌++◌, ltb, ◌==◌, if◌then◌else◌, length,
}
use webircgateway.Text.Bytes.{Bytes, codes, to_lower}
use webircgateway.Text.Index.{index}
use webircgateway.Dict.{Dict}
use webircgateway.HashDict.{HashDict, lookup, insert, erase}
use webircgateway.Irc.Message.{Message, get_param}
use webircgateway.Gateway.Access.{string_in_slice}

pub record MessageTagManager : Type 0 where
  pub known_tags : HashDict (Dict Bytes)
  pub gc_times : HashDict ℕ

abbrev pub new_manager : MessageTagManager
new_manager = record { known_tags = []; gc_times = [] }

unfoldable pub can_message_contain_client_tags : Message → Bool
unfolding string_in_slice
can_message_contain_client_tags msg =
    string_in_slice msg.command (codes "PRIVMSG" ∷ codes "NOTICE" ∷ codes "TAGMSG" ∷ [])

-- One pass of RunGarbageCollectionLoop at the time `now`; `times` is what is left of the range.
collect : ℕ → HashDict ℕ → HashDict (Dict Bytes) → HashDict (Dict Bytes)
collect now [] known = known
collect now ((message_hash, created) ∷ times) known =
    collect now times (if ltb now (created + 30) then erase known message_hash else known)

unfoldable pub collect_garbage : ℕ → MessageTagManager → MessageTagManager
unfolding collect
collect_garbage now t = record t { known_tags = collect now t.gc_times t.known_tags }

-- len(tagName) > 0 && tagName[0] == '+'
abbrev pub is_client_tag : Bytes → Bool
is_client_tag [] = false
is_client_tag (c ∷ name) = c == b'+'

unfoldable pub client_tags : Dict Bytes → Dict Bytes
client_tags [] = []
client_tags ((name, value) ∷ tags) =
    let rest = client_tags tags in if is_client_tag name then (name, value) ∷ rest else rest

module _ (digest : Bytes → ℕ) where
  -- `host` is client.UpstreamConfig.Hostname.
  unfoldable pub message_hash : Bytes → Bytes → Message → ℕ
  unfolding get_param
  message_hash host from_nick msg = digest (
      to_lower host
      ++ (to_lower from_nick ++ (to_lower (get_param msg 0 []) ++ get_param msg 1 [])))

  unfoldable pub add_tags_from_message :
      ℕ → Bytes → Bytes → Message → MessageTagManager → MessageTagManager
  unfolding can_message_contain_client_tags client_tags message_hash
  add_tags_from_message now host from_nick msg t =
      let tags = client_tags msg.tags in
      let hash = message_hash host from_nick msg in
      if not (can_message_contain_client_tags msg)
      then t
      else if ltb 0 (length tags)
      then record t {
        known_tags = insert t.known_tags hash tags;
        gc_times = insert t.gc_times hash now;
      }
      else t

  -- none is the result (_, false)
  unfoldable pub get_tags_from_message :
      Bytes → Bytes → Message → MessageTagManager → Option (Dict Bytes)
  unfolding can_message_contain_client_tags message_hash
  get_tags_from_message host from_nick msg t =
      if not (can_message_contain_client_tags msg)
      then none
      else lookup t.known_tags (message_hash host from_nick msg)
