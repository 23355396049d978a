-- ===== src/Gateway/Transports/Kiwiirc/Messages.antt =====
-- What one message of a kiwiirc session may end as: which messages panic, and which wait.
use webircgateway.Base.{
  ℕ, ◌+◌, ◌-◌, ◌≤◌, ◌<◌, ◌≡◌, ◌≢◌, ◌⊎◌, inl, inr, refl, sym, ap, ◌∙◌, Bool, true, false, not, none,
  some, [], ◌∷◌, ◌++◌, arith, ltb, ◌==◌, Bool-cases, Option-cases, length, take, drop, ok, panic,
  subst,
}
use webircgateway.Text.Bytes.{Bytes}
use webircgateway.Text.Index.{index, slice}
use mathlib.Core.Option.{some-injective}
use webircgateway.Dict.{lookup, insert, lookup-EachValue}
use webircgateway.Gateway.Client.{Client}
use webircgateway.Gateway.Throttle.{capacity}
use webircgateway.Gateway.Transports.Kiwiirc.{
  open_channel, Channel, Session, handle_incoming_line, on_message, route, pass_data, store,
}
use webircgateway.Gateway.Transports.Kiwiirc.Sound.{IsSound, EachSound, listens, id_slice}

-- A message whose first byte is a space.
abbrev pub StartsSpaced : Bytes → Type 0
StartsSpaced [] = ⊥
StartsSpaced (b ∷ msg) = b ≡ b' '

-- A channel that is open and whose Recv is full.
abbrev pub IsFull : Channel → Type 0
IsFull ch = (ch.closed ≡ false) × (capacity ≤ length ch.recv)

-- The message's first space is behind its first byte, and the bytes between name a channel that is open and full.
abbrev pub ToFull : Bytes → Session → Type 0
ToFull msg s =
    (i : ℕ) × (ch : Channel) × (index msg b' ' ≡ some i)
    × (0 < i)
    × (lookup s.channels (take (i - 1) (drop 1 msg)) ≡ some ch)
    × IsFull ch

-- What becomes of a message: it starts with a space and panics, or it waits for room, or it is done.
abbrev pub Ends : Client × Bool → Bytes → Session → Type 0
Ends made msg s =
    (StartsSpaced msg × (on_message made msg s ≡ panic) × ¬ ToFull msg s)
    ⊎ ((¬ StartsSpaced msg × (on_message made msg s ≡ ok none) × ToFull msg s)
        ⊎ (¬ StartsSpaced msg
            × (¬ ToFull msg s)
            × ((t : Session) × (on_message made msg s ≡ ok (some t)))))

handle_line_lem :
    (line : Bytes) (ch : Channel)
    → IsSound ch
    → (IsFull ch × (handle_incoming_line line ch ≡ ok none))
      ⊎ (¬ IsFull ch × ((ch' : Channel) × (handle_incoming_line line ch ≡ ok (some ch'))))
unfolding handle_incoming_line
handle_line_lem line ch h = elim (Bool-cases ch.closed) [
  | inl e ↦ inr (λ (c, f). absurd (ground arith), (ch, rw e refl))
  | inr e ↦
      let open_still : ch.recv_closed ≡ false = h.recv_with ∙ ap not (listens ch h e) in
      elim (Bool-cases (ltb (length ch.recv) capacity)) [
        | inl room ↦ inr (
          λ (c, f). absurd (ground arith),
          (record ch { recv = ch.recv ++ line ∷ [] }, rw (e, open_still, room) refl),
        )
        | inr full ↦ inl ((e, ground arith), rw (e, open_still, full) refl)
      ]
]

-- The channel that a message names is the one found.
named_channel :
    (msg : Bytes) (s : Session) (i : ℕ) (ch : Channel)
    → index msg b' ' ≡ some i
    → lookup s.channels (take (i - 1) (drop 1 msg)) ≡ some ch
    → ToFull msg s
    → IsFull ch
named_channel msg s i ch e q (j, ch', e', p, l, f) =
    let same_place : j ≡ i = some-injective j i (sym e' ∙ e) in
    let same : ch' ≡ ch =
      some-injective ch' ch
        (sym l ∙ ap (λ k. lookup s.channels (take (k - 1) (drop 1 msg))) same_place ∙ q) in
    subst IsFull same f

no_space : (msg : Bytes) (s : Session) → index msg b' ' ≡ none → ¬ ToFull msg s
no_space msg s e (i, ch, e', p, l, f) = cc

no_channel :
    (msg : Bytes) (s : Session) (i : ℕ)
    → index msg b' ' ≡ some i
    → lookup s.channels (take (i - 1) (drop 1 msg)) ≡ none
    → ¬ ToFull msg s
no_channel msg s i e q (j, ch, e', p, l, f) =
    let same_place : j ≡ i = some-injective j i (sym e' ∙ e) in
    let found : lookup s.channels (take (i - 1) (drop 1 msg)) ≡ some ch =
      ap (λ k. lookup s.channels (take (k - 1) (drop 1 msg))) (sym same_place) ∙ l in
    cc

-- A first byte that is no space.
first_place : (b : ℕ) (msg : Bytes) (i : ℕ) → b ≢ b' ' → index (b ∷ msg) b' ' ≡ some i → 0 < i
unfolding index
first_place b msg i d e = ground arith

-- A space in front leaves no slice for the channel's name.
pub spaced-panic :
    (made : Client × Bool) (b : ℕ) (msg : Bytes) (s : Session)
    → (b == b' ') ≡ true
    → on_message made (b ∷ msg) s ≡ panic
unfolding on_message route
spaced-panic made b msg s e =
    let first : index (b ∷ msg) b' ' ≡ some 0 = unfold index in rw e refl in
    let cut : slice (b ∷ msg) 1 0 ≡ panic = unfold slice in ground arith in rw first (rw cut refl)

spaced-ne-ToFull : (b : ℕ) (msg : Bytes) (s : Session) → (b == b' ') ≡ true → ¬ ToFull (b ∷ msg) s
spaced-ne-ToFull b msg s e (i, ch, e', p, l, f) =
    let first : index (b ∷ msg) b' ' ≡ some 0 = unfold index in rw e refl in
    let same : i ≡ 0 = some-injective i 0 (sym e' ∙ first) in absurd (omega arith)

passed-Ends :
    (made : Client × Bool) (b : ℕ) (msg : Bytes) (s : Session) (i : ℕ)
    → EachSound s
    → b ≢ b' '
    → index (b ∷ msg) b' ' ≡ some i
    → Ends made (b ∷ msg) s
unfolding on_message route pass_data store
passed-Ends made b msg s i h d e =
    let cut : slice (b ∷ msg) 1 i ≡ ok (take (i - 1) msg) = id_slice b msg i d e in
    let line = drop (i + 1) (b ∷ msg) in
    elim (Option-cases (lookup s.channels (take (i - 1) msg))) [
      | inl q ↦ inr (inr (d, no_channel (b ∷ msg) s i e q, (s, rw e (rw cut (rw q refl)))))
      | inr (ch, q) ↦
          elim (handle_line_lem line ch
            (lookup-EachValue IsSound s.channels (take (i - 1) msg) ch h q)) [
              | inl (f, r) ↦ inr (
                  inl (
                    d,
                    rw e (rw cut (rw q (rw r refl))),
                    (i, ch, e, first_place b msg i d e, q, f),
                  ))
              | inr (f, (ch', r)) ↦ inr (
                  inr (
                    d,
                    λ full. f (named_channel (b ∷ msg) s i ch e q full),
                    (
                      record s { channels = insert s.channels (take (i - 1) msg) ch' },
                      rw e (rw cut (rw q (rw r refl))),
                    ),
                  ))
            ]
    ]

pub on_message-Ends :
    (made : Client × Bool) (msg : Bytes) (s : Session) → EachSound s → Ends made msg s
unfolding on_message route index
on_message-Ends made [] s h = inr (inr (λ e. e, λ (i, ch, e', p, l, f). absurd (cc), (s, refl)))
on_message-Ends made (b ∷ msg) s h = elim (Bool-cases (b == b' ')) [
  | inl e ↦ inl (ground arith, spaced-panic made b msg s e, spaced-ne-ToFull b msg s e)
  | inr e ↦
      let d : b ≢ b' ' = ground arith in
      elim (Option-cases (index (b ∷ msg) b' ')) [
        | inl n ↦ inr (
            inr (
              d,
              no_space (b ∷ msg) s n,
              (open_channel made msg (lookup s.channels msg) s, rw n refl),
            ))
        | inr (i, q) ↦ passed-Ends made b msg s i h d q
      ]
]
