-- ===== src/Gateway/Transports/Kiwiirc/Sound.antt =====
-- What a message does to the channels of a kiwiirc session.
use webircgateway.Base.{
  ℕ, zero, suc, ◌+◌, ◌-◌, ◌≤◌, ◌<◌, ◌≡◌, ◌≢◌, ◌⊎◌, inl, inr, refl, ap, ◌∙◌, Bool, true, false, not,
  Option, none, some, List, [], ◌∷◌, ◌++◌, arith, ltb, Bool-cases, Option-cases, length, get_elem?,
  take, drop, length-append, ok, Returns,
}
use webircgateway.Text.Bytes.{Bytes}
use webircgateway.Text.Index.{index, slice, index-lt-length, get_elem?-index}
use mathlib.Core.Option.{some-injective}
use webircgateway.Dict.{lookup, insert, EachValue, lookup-EachValue, insert-EachValue}
use webircgateway.Gateway.Client.{Client, start_shutdown, send_client_signal}
use webircgateway.Gateway.Client.Lifecycle.{
  IsLive, send_live, send_client_signal_lem, start_shutdown_lem, shut, LifeOp, signal, shutdown,
  apply,
}
use webircgateway.Gateway.Throttle.{capacity}
use webircgateway.Gateway.Transports.Kiwiirc.{
  Channel, new_channel, handle_incoming_line, finish, Session, open_channel, store, pass_data,
  route, lookup, insert, send_frame,
}

-- Recv and waitForClose are closed together, once, by the listener's end, behind Closed.
pub record IsSound (ch : Channel) : Type 0 where
  pub live : IsLive ch.client
  pub recv_with : ch.recv_closed ≡ not ch.listening
  pub wait_with : ch.wait_closed ≡ not ch.listening
  pub closed_if : (ch.listening ≡ true) ⊎ (ch.closed ≡ true)
  pub few : length ch.recv ≤ capacity

new_channel-IsSound : (c : Client) → IsLive c → IsSound (new_channel c)
new_channel-IsSound c h = record {
  live = h;
  recv_with = refl;
  wait_with = refl;
  closed_if = inl refl;
  few = omega arith;
}

add_line :
    (ch : Channel) (line : Bytes)
    → IsSound ch
    → length ch.recv < capacity
    → IsSound (record ch { recv = ch.recv ++ line ∷ [] })
add_line ch line h room = record {
  live = h.live;
  recv_with = h.recv_with;
  wait_with = h.wait_with;
  closed_if = h.closed_if;
  few = omega (arith, room, length-append ch.recv (line ∷ []));
}

pub listens : (ch : Channel) → IsSound ch → ch.closed ≡ false → ch.listening ≡ true
listens ch h e = elim h.closed_if [ inl l ↦ l | inr c ↦ absurd (ground arith) ]

handle_incoming_line-IsSound :
    (line : Bytes) (ch : Channel)
    → IsSound ch
    → Returns
        (handle_incoming_line line ch)
        (λ r. (r ≡ none) ⊎ ((ch' : Channel) × (r ≡ some ch') × IsSound ch'))
unfolding handle_incoming_line
handle_incoming_line-IsSound line ch h = elim (Bool-cases ch.closed) [
  | inl e ↦ (some ch, rw e refl, inr (ch, refl, h))
  | inr e ↦
      let open_still : ch.recv_closed ≡ false = h.recv_with ∙ ap not (listens ch h e) in
      elim (Bool-cases (ltb (length ch.recv) capacity)) [
        | inl room ↦ (
          some (record ch { recv = ch.recv ++ line ∷ [] }),
          rw (e, open_still, room) refl,
          inr (_, refl, add_line ch line h (ground arith)),
        )
        | inr full ↦ (none, rw (e, open_still, full) refl, inl refl)
      ]
]

pub finish-IsSound : (ch : Channel) → IsSound ch → ch.listening ≡ true → Returns (finish ch) IsSound
unfolding finish
finish-IsSound ch h e =
    let recv_open : ch.recv_closed ≡ false = h.recv_with ∙ ap not e in
    let wait_open : ch.wait_closed ≡ false = h.wait_with ∙ ap not e in
    (
      record ch { closed = true; recv_closed = true; wait_closed = true; listening = false },
      rw (recv_open, wait_open) refl,
      record {
        live = h.live;
        recv_with = refl;
        wait_with = refl;
        closed_if = inr refl;
        few = h.few;
      },
    )

send-IsLive :
    (s : Bytes) (args : List Bytes) (c : Client)
    → IsLive c
    → Returns (send_client_signal s args c) IsLive
send-IsLive s args c h = elim (Bool-cases c.shutting_down) [
  | inl e ↦ (c, send_client_signal_lem s args c h ∙ rw e refl, h)
  | inr e ↦ (_, send_live s args c h e, h)
]

pub shutdown-IsLive :
    (reason : Bytes) (c : Client) → IsLive c → Returns (start_shutdown reason c) IsLive
shutdown-IsLive reason c h = elim (Bool-cases c.shutting_down) [
  | inl e ↦ (c, start_shutdown_lem reason c h ∙ rw e refl, h)
  | inr e ↦
      (shut c, start_shutdown_lem reason c h ∙ rw e refl, record { closed = refl; counted = refl })
]

pub apply-IsLive : (op : LifeOp) (c : Client) → IsLive c → Returns (apply op c) IsLive
unfolding apply
apply-IsLive (signal s args) c h = send-IsLive s args c h
apply-IsLive (shutdown reason) c h = shutdown-IsLive reason c h

abbrev pub EachSound : Session → Type 0
EachSound s = EachValue IsSound s.channels

-- A step that waits, or one that leaves every channel sound.
abbrev pub Stays : Option Session → Type 0
Stays r = (r ≡ none) ⊎ ((t : Session) × (r ≡ some t) × EachSound t)

pub send_frame-EachSound :
    (frame : Bytes) (s : Session) → EachSound s → EachSound (send_frame frame s)
send_frame-EachSound frame s h = elim (Bool-cases s.conn_closed) [ inl e ↦ rw e h | inr e ↦ rw e h ]

open_channel-EachSound :
    (made : Client × Bool) (id : Bytes) (there : Option Channel) (s : Session)
    → IsLive (made.0)
    → EachSound s
    → EachSound (open_channel made id there s)
unfolding open_channel
open_channel-EachSound made id (some ch) s l h =
    send_frame-EachSound (b':' ∷ id) (record s { conn_closed = true }) h
open_channel-EachSound (c, false) id none s l h = h
open_channel-EachSound (c, true) id none s l h =
    send_frame-EachSound (b':' ∷ id) (record s { channels = insert s.channels id (new_channel c) })
      (insert-EachValue IsSound s.channels id (new_channel c) h (new_channel-IsSound c l))

store-Stays :
    (s : Session) (id : Bytes) (r : Option Channel)
    → EachSound s
    → (r ≡ none) ⊎ ((ch : Channel) × (r ≡ some ch) × IsSound ch)
    → Stays (store s id r)
unfolding store
store-Stays s id r h (inl e) = inl (rw e refl)
store-Stays s id r h (inr (ch, e, c)) = inr (
  record s { channels = insert s.channels id ch },
  rw e refl,
  insert-EachValue IsSound s.channels id ch h c,
)

pass_data-Stays :
    (id line : Bytes) (s : Session)
    → EachSound s
    → Returns (pass_data id line (lookup s.channels id) s) Stays
unfolding pass_data
pass_data-Stays id line s h = elim (Option-cases (lookup s.channels id)) [
  | inl e ↦ (some s, rw e refl, inr (s, refl, h))
  | inr (ch, e) ↦
      let (r, q, k) =
        handle_incoming_line-IsSound line ch (lookup-EachValue IsSound s.channels id ch h e) in
      (store s id r, rw e (rw q refl), store-Stays s id r h k)
]

-- A space that is not the first byte leaves a slice between.
pub id_slice :
    (b : ℕ) (msg : Bytes) (i : ℕ)
    → b ≢ b' '
    → index (b ∷ msg) b' ' ≡ some i
    → slice (b ∷ msg) 1 i ≡ ok (take (i - 1) msg)
unfolding slice
id_slice b msg zero d e =
    let first : get_elem? (b ∷ msg) 0 ≡ some b' ' = get_elem?-index (b ∷ msg) b' ' e in
    absurd (d (some-injective b b' ' first))
id_slice b msg (suc i) d e =
    let few : suc i < length (b ∷ msg) = index-lt-length (b ∷ msg) b' ' e in ground arith

pub route-Stays :
    (made : Client × Bool) (b : ℕ) (msg : Bytes) (s : Session)
    → IsLive (made.0)
    → EachSound s
    → b ≢ b' '
    → Returns (route made (b ∷ msg) (index (b ∷ msg) b' ') s) Stays
unfolding route
route-Stays made b msg s l h d = elim (Option-cases (index (b ∷ msg) b' ')) [
  | inl e ↦ (
    some (open_channel made msg (lookup s.channels msg) s),
    rw e refl,
    inr (_, refl, open_channel-EachSound made msg (lookup s.channels msg) s l h),
  )
  | inr (i, e) ↦
      let cut : slice (b ∷ msg) 1 i ≡ ok (take (i - 1) msg) = id_slice b msg i d e in
      let (r, q, k) = pass_data-Stays (take (i - 1) msg) (drop (i + 1) (b ∷ msg)) s h in
      (r, rw e (rw cut q), k)
]
