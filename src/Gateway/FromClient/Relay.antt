-- ===== src/Gateway/FromClient/Relay.antt =====
-- Whom a TAGMSG reaches.
use webircgateway.Base.{
  ◌≡◌, ◌↔◌, ◌⊎◌, inl, inr, refl, ap, ◌∙◌, Bool, true, false, ◌&&◌, ◌||◌, some, List, [], ◌∷◌, ◌++◌,
  map, arith, if◌then◌else◌, Bool-cases, All, ok, ◌>>=◌, or_panic,
}
use webircgateway.Text.Bytes.{Bytes, codes, equal, equal_iff, to_lower, equal_fold}
use webircgateway.Irc.Message.{Message, Mask, to_line}
use webircgateway.Irc.State.{StateChannel, get_channel, has_channel, has_channel-get_channel}
use webircgateway.Gateway.Client.{Client, send_data}
use webircgateway.Gateway.Client.Lifecycle.{IsLive, send_client_signal_lem}
use webircgateway.Gateway.World.{World}
use webircgateway.Gateway.Registration.{drops}
use webircgateway.Gateway.FromClient.{
  tagmsg_line, relay_to, deliver, deliver_all, relay_tags, on_tagmsg,
}

and_true : (a b : Bool) → (a && b) ≡ true → (a ≡ true) × (b ≡ true)
and_true a b h = ground arith

or_true : (a b : Bool) → (a || b) ≡ true → (a ≡ true) ⊎ (b ≡ true)
or_true a b h = ground arith

or_right : (a : Bool) → (a || true) ≡ true
or_right a = ground arith

not_both : {b : Bool} → b ≡ false → b ≡ true → ⊥
not_both e h = cc

-- Whether a client on this host is the target or in it.
unfoldable pub is_reached : Bytes → Bytes → Client → Bool
is_reached host target c =
    equal (to_lower c.upstream_config.hostname) host
    && (equal_fold target c.irc_state.nick || has_channel c.irc_state target)

-- A client that was told a line: one that shuts down is told nothing more.
unfoldable pub told : Bytes → Client → Client
told line c =
    if c.shutting_down then c else record c { signals = c.signals ++ (codes "data", line, []) ∷ [] }

unfoldable pub relayed : Bytes → Bytes → Bytes → Client → Client
relayed host target line c = if is_reached host target c then told line c else c

deliver_lem :
    (host target line : Bytes) (c : Client)
    → IsLive c
    → deliver host target line c ≡ ok (relayed host target line c)
unfolding deliver send_data relayed is_reached told
deliver_lem host target line c live = elim (Bool-cases (is_reached host target c)) [
  | inl e ↦ rw e (send_client_signal_lem (codes "data") (line ∷ []) c live)
  | inr e ↦ rw e refl
]

deliver_all_lem :
    (host target line : Bytes) (cs : List Client)
    → All IsLive cs
    → deliver_all host target line cs ≡ ok (map (relayed host target line) cs)
unfolding deliver_all
deliver_all_lem host target line [] live = refl
deliver_all_lem host target line (c ∷ cs) (l, live) =
    rw (deliver_lem host target line c l) (rw (deliver_all_lem host target line cs live) refl)

relay_to_lem :
    (target : Bytes) (m : Message) (w : World) (p : Mask)
    → IsLive w.client
    → All IsLive w.peers
    → relay_to target m w p
      ≡ ok (
          drops (
            let reach =
              relayed
                (to_lower w.client.upstream_config.hostname)
                target
                (tagmsg_line m p w.client.irc_state.nick) in
            record w { client = reach w.client; peers = map reach w.peers }))
unfolding relay_to
relay_to_lem target m w p live peers_live =
    let host = to_lower w.client.upstream_config.hostname in
    let sent = tagmsg_line m p w.client.irc_state.nick in
    rw (deliver_lem host target sent w.client live)
      (rw (deliver_all_lem host target sent w.peers peers_live) refl)

-- A client is on a network with this host, in any case, and is the target or is in it as a channel.
abbrev pub Reached : Bytes → Bytes → Client → Type 0
Reached host target c =
    (to_lower c.upstream_config.hostname ≡ to_lower host)
    × ((to_lower target ≡ to_lower c.irc_state.nick)
        ⊎ ((channel : StateChannel) × (get_channel c.irc_state target ≡ some channel)))

-- What a line for that target makes of a client: one that it reaches and that does not shut down is sent it.
abbrev pub Heard : Bytes → Bytes → Bytes → Client → Client → Type 0
Heard host target line c d =
    (Reached host target c
      × (c.shutting_down ≡ false)
      × (d ≡ record c { signals = c.signals ++ (codes "data", line, []) ∷ [] }))
    ⊎ (((¬ Reached host target c) ⊎ (c.shutting_down ≡ true)) × (d ≡ c))

abbrev pub EachHeard : Bytes → Bytes → Bytes → List Client → List Client → Type 0
EachHeard host target line [] [] = Unit
EachHeard host target line [] (d ∷ ds) = ⊥
EachHeard host target line (c ∷ cs) [] = ⊥
EachHeard host target line (c ∷ cs) (d ∷ ds) =
    Heard host target line c d × EachHeard host target line cs ds

is_reached_iff :
    (host target : Bytes) (c : Client)
    → (is_reached (to_lower host) target c ≡ true) ↔ Reached host target c
unfolding is_reached equal_fold
is_reached_iff host target c =
    let net = equal_iff (to_lower c.upstream_config.hostname) (to_lower host) in
    let named = equal_iff (to_lower target) (to_lower c.irc_state.nick) in
    let joined = has_channel-get_channel c.irc_state target in
    (
      λ e.
          let (a, b) = and_true _ _ e in
          (net.0 a, elim (or_true _ _ b) [ inl h ↦ inl (named.0 h) | inr h ↦ inr (joined.0 h) ]),
      λ (a, b).
          rw (net.1 a)
            (elim b [ inl h ↦ rw (named.1 h) refl | inr h ↦ rw (joined.1 h) (or_right _) ]),
    )

relayed-Heard :
    (host target line : Bytes) (c : Client)
    → Heard host target line c (relayed (to_lower host) target line c)
unfolding relayed told
relayed-Heard host target line c = elim (Bool-cases (is_reached (to_lower host) target c)) [
  | inl e ↦ elim (Bool-cases c.shutting_down) [
    | inl f ↦ inr (inr f, rw (e, f) refl)
    | inr f ↦ inl ((is_reached_iff host target c).0 e, f, rw (e, f) refl)
  ]
  | inr e ↦ inr (inl (λ r. absurd (not_both e ((is_reached_iff host target c).1 r))), rw e refl)
]

each-Heard :
    (host target line : Bytes) (cs : List Client)
    → EachHeard host target line cs (map (relayed (to_lower host) target line) cs)
each-Heard host target line [] = tt
each-Heard host target line (c ∷ cs) =
    (relayed-Heard host target line c, each-Heard host target line cs)

-- The TAGMSG of a client that uses message tags, in a gateway whose clients are live, goes to no upstream: the message,
-- with the sender's nick alone as its source, is sent to exactly the clients of the gateway, the sender among them, that
-- are on a network with the same host, in any case, and have the first param as their nick, in any case, or are in it as
-- a channel, and that do not shut down; nothing else changes.
pub on_tagmsg_lem :
    (m : Message) (line : Bytes) (w : World) (p : Mask) (target : Bytes) (more : List Bytes)
    → w.client.messagetags ≡ true
    → m.command ≡ codes "TAGMSG"
    → m.params ≡ target ∷ more
    → m.prefix ≡ some p
    → IsLive w.client
    → All IsLive w.peers
    → (c : Client) × (cs : List Client) × (on_tagmsg m line w
        ≡ ok (drops (record w { client = c; peers = cs })))
      × (let host = w.client.upstream_config.hostname in
          let source : Mask = record p {
            nick = w.client.irc_state.nick;
            username = [];
            hostname = [];
          } in
          let sent = to_line (record m { prefix = some source }) in
          Heard host target sent w.client c × EachHeard host target sent w.peers cs)
unfolding on_tagmsg relay_tags equal tagmsg_line
on_tagmsg_lem m line w p target more wraps named given source live peers_live =
    let goes : (w.client.messagetags && equal m.command (codes "TAGMSG")) ≡ true =
      simp (wraps, named) in
    let host = w.client.upstream_config.hostname in
    let sent = tagmsg_line m p w.client.irc_state.nick in
    (
      relayed (to_lower host) target sent w.client,
      map (relayed (to_lower host) target sent) w.peers,
      rw goes refl
          ∙ ap (λ ps. relay_tags m ps w) given
          ∙ ap (λ q. or_panic q >>= relay_to target m w) source
          ∙ relay_to_lem target m w p live peers_live,
      (relayed-Heard host target sent w.client, each-Heard host target sent w.peers),
    )
