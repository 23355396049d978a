-- ===== src/Gateway/Track/Nick.antt =====
-- ProcessLineFromUpstream's tracking as a whole: which lines panic, and what the others make of the nick.
use webircgateway.Base.{
  ℕ, ◌-◌, ◌≤◌, ◌≡◌, ◌⊎◌, inl, inr, refl, sym, Bool, true, false, ◌&&◌, ◌||◌, Option, none, some, [],
  arith, ltb, if◌then◌else◌, Bool-cases, length, Outcome, panic, ◌>>=◌, Returns,
}
use webircgateway.Text.Bytes.{Bytes, codes, equal}
use webircgateway.Irc.Message.{Mask, Message, get_param}
use webircgateway.Irc.State.{get_channel, StateChannel}
use webircgateway.Gateway.Client.{Client}
use webircgateway.Gateway.Client.Lifecycle.{IsLive}
use webircgateway.Gateway.Track.{
  has_command, on_nick, on_welcome, on_isupport, slice_params, inject_isupport, on_join, on_part,
  on_quit, on_account, on_mode, track,
}
use webircgateway.Gateway.Track.Parts.{
  Holds, other_command, on_nick-Holds, on_welcome-Holds, on_isupport-Holds, inject_isupport-Holds,
  on_join-Holds, on_part-Holds, on_quit-Holds, on_account-Holds,
}
use webircgateway.Gateway.Track.Modes.{Decided, LiveAs, nil_mode, on_mode-Holds, short_isupport}

Decided-bind :
    {P Q : Client → Type 0} (b : Bool) (o : Outcome Client) (k : Client → Outcome Client)
    → Returns o P
    → ((d : Client) → P d → Decided b (k d) Q)
    → Decided b (o >>= k) Q
Decided-bind b o k (d, e, h) next = rw e (next d h)

-- The nick behind a line from p: the first param of the client's own NICK and of the welcome, else the one before.
unfoldable pub nick_after : Message → Mask → Bytes → Bytes
nick_after m p nick =
    if has_command m (codes "001")
    then get_param m 0 []
    else if has_command m (codes "NICK") && equal p.nick nick
    then get_param m 0 []
    else nick

-- The lines that the tracking does not survive.
unfoldable pub breaks : Message → Client → Bool
breaks m c =
    short_isupport m || nil_mode m (get_channel c.irc_state (get_param m 0 [])) c.irc_state.nick

nil_mode-nick_after :
    (m : Message) (p : Mask) (ch : Option StateChannel) (nick : Bytes)
    → nil_mode m ch (nick_after m p nick) ≡ nil_mode m ch nick
unfolding nil_mode nick_after
nil_mode-nick_after m p (some ch) nick = refl
nil_mode-nick_after m p none nick = elim (Bool-cases (has_command m (codes "MODE"))) [
  | inl e ↦
      rw (other_command m _ (codes "001") e (unfold equal in refl))
        (rw (other_command m _ (codes "NICK") e (unfold equal in refl)) refl)
  | inr e ↦ rw e refl
]

module _ (now : ℕ) (m : Message) (p : Mask) (has_source : m.prefix ≡ some p)
    (ch : Option StateChannel) where
  on_isupport-short :
      (nick : Bytes) (c : Client)
      → short_isupport m ≡ true
      → Holds m ch nick c
      → on_isupport m c ≡ panic
  unfolding on_isupport slice_params short_isupport
  on_isupport-short nick c e h =
      let short : (ltb (length m.params - 1) 1 || ltb (length m.params) (length m.params - 1))
          ≡ true =
        ground arith in
      let listed : has_command m (codes "005") ≡ true = ground arith in rw listed (rw short refl)

  enough_params :
      short_isupport m ≡ false → (has_command m (codes "005") ≡ false) ⊎ (2 ≤ length m.params)
  unfolding short_isupport
  enough_params e = elim (Bool-cases (has_command m (codes "005"))) [
    | inl f ↦ inr (ground arith)
    | inr f ↦ inl f
  ]

  -- The parts from on_isupport on, for a line whose 005 is not short.
  after_isupport :
      (nick : Bytes) (c : Client)
      → short_isupport m ≡ false
      → Holds m ch nick c
      → Decided
          (nil_mode m ch nick)
          (do
            c ← on_isupport m c
            c ← inject_isupport m c
            c ← on_join now m c
            c ← on_part m c
            c ← on_quit m c
            on_mode now m (on_account m c))
          (LiveAs nick)
  after_isupport nick c e h =
      Decided-bind _ _ _ (on_isupport-Holds m ch p has_source nick c (enough_params e) h) (λ c h.
        Decided-bind _ _ _ (inject_isupport-Holds m ch p has_source nick c h) (λ c h.
          Decided-bind _ _ _ (on_join-Holds m ch p has_source now nick c h) (λ c h.
            Decided-bind _ _ _ (on_part-Holds m ch p has_source nick c h) (λ c h.
              Decided-bind _ _ _ (on_quit-Holds m ch p has_source nick c h)
                (λ c h. on_mode-Holds now m ch nick _ (on_account-Holds m ch nick c h))))))

  track-Holds :
      (nick : Bytes) (c : Client)
      → Holds m ch nick c
      → Decided
          (short_isupport m || nil_mode m ch (nick_after m p nick))
          (track now m c)
          (LiveAs (nick_after m p nick))
  unfolding track nick_after
  track-Holds nick c h =
      Decided-bind _ (on_nick m c) _ (on_nick-Holds m ch p has_source nick c h) (λ c h.
        Decided-bind _ (on_welcome m c) _ (on_welcome-Holds m ch p has_source _ c h) (λ c h.
          elim (Bool-cases (short_isupport m)) [
            | inl e ↦ inl (rw e refl, rw (on_isupport-short _ c e h) refl)
            | inr e ↦ rw e (after_isupport _ c e h)
          ]))

-- For a line with a source and a live client, the tracking of ProcessLineFromUpstream panics exactly when the
-- line is a 005 with one param, or a MODE line for a channel that the client does not have with a mode of
-- the client's own nick; after every other line it returns, the client is live, and its nick is
-- the line's first param if the line is a welcome or the client's own NICK, else unchanged.
pub track_lem :
    (now : ℕ) (m : Message) (p : Mask) (c : Client)
    → m.prefix ≡ some p
    → IsLive c
    → Decided (breaks m c) (track now m c) (LiveAs (nick_after m p c.irc_state.nick))
unfolding breaks
track_lem now m p c has_source live =
    let ch = get_channel c.irc_state (get_param m 0 []) in
    rw (sym (nil_mode-nick_after m p ch c.irc_state.nick)) (
      track-Holds now m p has_source ch c.irc_state.nick c
        (record { live = live; nick_is = refl; known = inr refl }))
