-- ===== src/Gateway/MessageTags/Laws.antt =====
-- What the tag manager gives back, and what its garbage collection removes.
use webircgateway.Base.{
  ℕ, ◌+◌, ◌<◌, ◌≡◌, inl, inr, refl, sym, ap, ◌∙◌, Bool, true, false, ◌&&◌, ◌||◌, none, some, [],
  ◌∷◌, arith, ltb, ◌==◌, if◌then◌else◌, ==_refl, Bool-cases, List-cases, length, some,
}
use webircgateway.Text.Bytes.{Bytes, codes, to_lower, equal, equal_iff, has_prefix}
use webircgateway.Dict.{Dict, lookup as lookup_key}
use webircgateway.HashDict.{HashDict, lookup, erase, lookup-insert, lookup-erase}
use webircgateway.Irc.Message.{Message, get_param}
use webircgateway.Gateway.MessageTags.{
  MessageTagManager, can_message_contain_client_tags, is_client_tag, collect, collect_garbage,
  client_tags, message_hash, add_tags_from_message, get_tags_from_message,
}

-- The tags whose name starts with "+", with their values, and those whose name does not.
abbrev pub IsPlusPart : Dict Bytes → Dict Bytes → Type 0
IsPlusPart tags kept =
    (name : Bytes)
    → lookup_key kept name ≡ (if has_prefix name (codes "+") then lookup_key tags name else none)

abbrev pub IsPlainPart : Dict Bytes → Dict Bytes → Type 0
IsPlainPart tags kept =
    (name : Bytes)
    → lookup_key kept name ≡ (if has_prefix name (codes "+") then none else lookup_key tags name)

pub is_client_tag_lem : (name : Bytes) → is_client_tag name ≡ has_prefix name (codes "+")
unfolding has_prefix
is_client_tag_lem [] = refl
is_client_tag_lem (c ∷ name) = ground arith

lookup-client_tags :
    (tags : Dict Bytes) (name : Bytes)
    → lookup_key (client_tags tags) name
      ≡ (if is_client_tag name then lookup_key tags name else none)
unfolding client_tags lookup_key
lookup-client_tags [] name = ground arith
lookup-client_tags ((j, v) ∷ tags) name = elim (Bool-cases (equal j name)) [
  | inl e ↦
      let same : is_client_tag name ≡ is_client_tag j =
        ap is_client_tag (sym ((equal_iff j name).0 e)) in
      elim (Bool-cases (is_client_tag j)) [
        | inl p ↦ rw (p, same ∙ p) (rw e refl)
        | inr p ↦ rw (p, same ∙ p) (lookup-client_tags tags name ∙ rw (same ∙ p) refl)
      ]
  | inr e ↦ elim (Bool-cases (is_client_tag j)) [
    | inl p ↦ rw (p, e) (lookup-client_tags tags name)
    | inr p ↦ rw (p, e) (lookup-client_tags tags name)
  ]
]

pub client_tags-IsPlusPart : (tags : Dict Bytes) → IsPlusPart tags (client_tags tags)
client_tags-IsPlusPart tags name =
    lookup-client_tags tags name
    ∙ ap (λ b. if b then lookup_key tags name else none) (is_client_tag_lem name)

-- A tag with a "+" leaves a client tag.
client_tags-length :
    (tags : Dict Bytes) (name value : Bytes)
    → lookup_key tags (b'+' ∷ name) ≡ some value
    → 0 < length (client_tags tags)
client_tags-length tags name value h = elim (List-cases (client_tags tags)) [
  | inl e ↦
      let found : lookup_key (client_tags tags) (b'+' ∷ name) ≡ some value =
        lookup-client_tags tags (b'+' ∷ name) ∙ h in
      let nothing : lookup_key (client_tags tags) (b'+' ∷ name) ≡ none =
        rw e (unfold lookup_key in refl) in
      absurd (cc)
  | inr (t, rest, e) ↦ rw e (omega arith)
]

-- The tags of a text that reach the other clients: from the same host, the same nick, to the
-- same target, all three in any case, and with the same text.
pub record SameMessage (host from : Bytes) (msg : Message) (host' from' : Bytes) (msg' : Message)
    : Type 0 where
  pub same_host : to_lower host ≡ to_lower host'
  pub same_nick : to_lower from ≡ to_lower from'
  pub same_target : to_lower (get_param msg 0 []) ≡ to_lower (get_param msg' 0 [])
  pub same_text : get_param msg 1 [] ≡ get_param msg' 1 []

module _ (digest : Bytes → ℕ) where
  message_hash-SameMessage :
      (host from : Bytes) (msg : Message) (host' from' : Bytes) (msg' : Message)
      → SameMessage host from msg host' from' msg'
      → message_hash digest host from msg ≡ message_hash digest host' from' msg'
  unfolding message_hash
  message_hash-SameMessage host from msg host' from' msg' s =
      rw (s.same_host, s.same_nick, s.same_target, s.same_text)

  pub get_tags-stored :
      (now : ℕ) (host from : Bytes) (msg : Message) (host' from' : Bytes) (msg' : Message)
      (t : MessageTagManager)
      → can_message_contain_client_tags msg ≡ true
      → can_message_contain_client_tags msg' ≡ true
      → 0 < length (client_tags msg.tags)
      → SameMessage host from msg host' from' msg'
      → get_tags_from_message digest host' from' msg'
          (add_tags_from_message digest now host from msg t)
        ≡ some (client_tags msg.tags)
  get_tags-stored now host from msg host' from' msg' t h h' some_left s =
      let there : ltb 0 (length (client_tags msg.tags)) ≡ true = ground arith in
      let same = message_hash-SameMessage host from msg host' from' msg' s in
      unfold add_tags_from_message get_tags_from_message in
      simp (h, h', there, same, lookup-insert, ==_refl)

  -- Client tags are handed on: after AddTagsFromMessage on a message that may hold client tags and holds one, a tag whose
  -- name starts with "+", GetTagsFromMessage finds for the same message exactly its tags whose name starts with "+".
  pub get_tags-add_tags :
      (now : ℕ) (host from : Bytes) (msg : Message) (host' from' : Bytes) (msg' : Message)
      (t : MessageTagManager) (name value : Bytes)
      → can_message_contain_client_tags msg ≡ true
      → can_message_contain_client_tags msg' ≡ true
      → lookup_key msg.tags (b'+' ∷ name) ≡ some value
      → SameMessage host from msg host' from' msg'
      → (kept : Dict Bytes) × (get_tags_from_message digest host' from' msg'
            (add_tags_from_message digest now host from msg t)
          ≡ some kept)
        × IsPlusPart msg.tags kept
  get_tags-add_tags now host from msg host' from' msg' t name value h h' holds s = (
    client_tags msg.tags,
    get_tags-stored now host from msg host' from' msg' t h h'
        (client_tags-length msg.tags name value holds) s,
    client_tags-IsPlusPart msg.tags,
  )

-- Whether a time of this hash is younger than 30 seconds at `now`.
pub is_young : ℕ → HashDict ℕ → ℕ → Bool
is_young now [] hash = false
is_young now ((j, created) ∷ times) hash =
    (j == hash && ltb now (created + 30)) || is_young now times hash

lookup-collect :
    (now : ℕ) (times : HashDict ℕ) (known : HashDict (Dict Bytes)) (hash : ℕ)
    → lookup (collect now times known) hash
      ≡ (if is_young now times hash then none else lookup known hash)
unfolding collect is_young
lookup-collect now [] known hash = refl
lookup-collect now ((j, created) ∷ times) known hash = elim (Bool-cases (ltb now (created + 30))) [
  | inl young ↦ rw young (
      lookup-collect now times (erase known j) hash ∙ rw (lookup-erase known j hash) (ground arith))
  | inr old ↦ rw old (lookup-collect now times known hash ∙ ground arith)
]

-- A pass of the garbage collection removes the tags of exactly the hashes whose time is younger than 30
-- seconds, and keeps all older ones; it forgets no time.
pub collect_garbage_lem :
    (now : ℕ) (t : MessageTagManager) (hash : ℕ)
    → (lookup (collect_garbage now t).known_tags hash
        ≡ (if is_young now t.gc_times hash then none else lookup t.known_tags hash))
      × ((collect_garbage now t).gc_times ≡ t.gc_times)
unfolding collect_garbage
collect_garbage_lem now t hash = (lookup-collect now t.gc_times t.known_tags hash, refl)
