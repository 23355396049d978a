-- ===== src/Gateway/FromClient/ClientTags.antt =====
-- What becomes of the client tags of a client's message.
use webircgateway.Base.{
  ◌<◌, ◌≡◌, ◌⊎◌, inl, inr, refl, sym, ap, ◌∙◌, true, ◌&&◌, none, some, [], ◌∷◌, arith,
  if◌then◌else◌, Bool-cases, length, ok, List-cases,
}
use webircgateway.Text.Bytes.{Bytes, has_prefix, equal, equal_iff}
use webircgateway.Dict.{Dict, lookup}
use webircgateway.Irc.Message.{Message, to_line}
use webircgateway.Gateway.MessageTags.{
  MessageTagManager, add_tags_from_message, can_message_contain_client_tags, is_client_tag,
  client_tags, get_tags_from_message,
}
use webircgateway.Gateway.MessageTags.Laws.{
  IsPlusPart, IsPlainPart, is_client_tag_lem, client_tags-IsPlusPart, get_tags-stored,
}
use webircgateway.Gateway.World.{World, Outside}
use webircgateway.Gateway.Registration.{goes_on}
use webircgateway.Gateway.FromClient.{drop_client_tags, on_client_tags}

lookup-drop_client_tags :
    (tags : Dict Bytes) (name : Bytes)
    → lookup (drop_client_tags tags) name ≡ (if is_client_tag name then none else lookup tags name)
unfolding drop_client_tags lookup
lookup-drop_client_tags [] name = ground arith
lookup-drop_client_tags ((j, v) ∷ tags) name = elim (Bool-cases (equal j name)) [
  | inl e ↦
      let same : is_client_tag name ≡ is_client_tag j =
        ap is_client_tag (sym ((equal_iff j name).0 e)) in
      elim (Bool-cases (is_client_tag j)) [
        | inl p ↦ rw (p, same ∙ p) (lookup-drop_client_tags tags name ∙ rw (same ∙ p) refl)
        | inr p ↦ rw (p, same ∙ p) (rw e refl)
      ]
  | inr e ↦ elim (Bool-cases (is_client_tag j)) [
    | inl p ↦ rw (p, e) (lookup-drop_client_tags tags name)
    | inr p ↦ rw (p, e) (lookup-drop_client_tags tags name)
  ]
]

drop_client_tags-IsPlainPart : (tags : Dict Bytes) → IsPlainPart tags (drop_client_tags tags)
drop_client_tags-IsPlainPart tags name =
    lookup-drop_client_tags tags name
    ∙ ap (λ b. if b then none else lookup tags name) (is_client_tag_lem name)

-- What the tag store holds for a client's message: the message has no tag whose name starts with "+", and the store is
-- as it was, or it gives the message's tags of such names, of which there is one.
abbrev pub Stored : Outside → Message → World → MessageTagManager → Type 0
Stored o m w t =
    (((name : Bytes) → lookup m.tags (b'+' ∷ name) ≡ none) × (t ≡ w.tag_manager))
    ⊎ ((kept : Dict Bytes) × (get_tags_from_message o.digest w.client.upstream_config.hostname
            w.client.irc_state.nick m t
          ≡ some kept)
        × IsPlusPart m.tags kept
        × (0 < length kept))

-- add_tags_from_message of the client's own message.
stored_by : Outside → Message → World → MessageTagManager
stored_by o m w =
    add_tags_from_message o.digest o.now w.client.upstream_config.hostname w.client.irc_state.nick m
      w.tag_manager

stored_by-Stored :
    (o : Outside) (m : Message) (w : World)
    → can_message_contain_client_tags m ≡ true
    → Stored o m w (stored_by o m w)
unfolding stored_by lookup has_prefix
stored_by-Stored o m w can = elim (List-cases (client_tags m.tags)) [
  | inl e ↦ inl (
    λ name. sym (client_tags-IsPlusPart m.tags (b'+' ∷ name)) ∙ rw e refl,
    unfold add_tags_from_message in rw (can, e) refl,
  )
  | inr (tag, rest, e) ↦
      let some_tags : 0 < length (client_tags m.tags) = rw e (omega arith) in
      let host = w.client.upstream_config.hostname in
      let nick = w.client.irc_state.nick in
      inr (
        client_tags m.tags,
        get_tags-stored o.digest o.now host nick m host nick m w.tag_manager can can some_tags
            (record { same_host = refl; same_nick = refl; same_target = refl; same_text = refl }),
        client_tags-IsPlusPart m.tags,
        some_tags,
      )
]

-- For a client that uses message tags, a message that can hold client tags goes on, as its line, without its tags whose
-- name starts with "+" and with exactly its other tags, its prefix, command and params; the tag store then gives for
-- that client's message exactly its tags whose name starts with "+" if it has one, and else is as it was.
-- Nothing else of the world changes.
pub on_client_tags_lem :
    (o : Outside) (m : Message) (line : Bytes) (w : World)
    → w.client.messagetags ≡ true
    → can_message_contain_client_tags m ≡ true
    → (kept : Dict Bytes) × (t : MessageTagManager) × (on_client_tags o m line w ≡ (
        let m' : Message = record m { tags = kept } in
        ok (goes_on m' (to_line m') (record w { tag_manager = t }))))
      × IsPlainPart m.tags kept
      × Stored o m w t
unfolding on_client_tags
on_client_tags_lem o m line w wraps can =
    let goes : (w.client.messagetags && can_message_contain_client_tags m) ≡ true =
      simp (wraps, can) in
    (
      drop_client_tags m.tags,
      stored_by o m w,
      unfold stored_by in rw goes refl,
      drop_client_tags-IsPlainPart m.tags,
      stored_by-Stored o m w can,
    )
