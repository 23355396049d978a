-- ===== src/Gateway/Track/Modes.antt =====
-- The MODE part of ProcessLineFromUpstream: it returns unless it writes through a channel that is nil.
use webircgateway.Base.{
  ℕ, ◌+◌, ◌≡◌, ◌⊎◌, inl, inr, refl, sym, Bool, true, false, ◌&&◌, ◌||◌, Option, none, some, [], ◌∷◌,
  arith, ltb, ◌==◌, if◌then◌else◌, Bool-cases, length, Outcome, ok, panic, Returns,
}
use webircgateway.Text.Bytes.{Bytes, codes, equal_fold, has_prefix}
use webircgateway.Text.Index.{byte_text}
use webircgateway.Irc.Message.{Message, get_param}
use webircgateway.Irc.State.{StateChannel, new_state_channel, set_channel}
use webircgateway.Gateway.Client.{Client}
use webircgateway.Gateway.Client.Lifecycle.{IsLive}
use webircgateway.Gateway.Track.{has_command, on_mode, mode_loop, change_mode, write_back}
use webircgateway.Gateway.Track.Parts.{Holds, KnowsChannel}

-- Whether one of these mode letters has a param, counted behind idx, that is this nick in any case.
unfoldable pub names_nick : Message → Bytes → Bytes → ℕ → Bool
names_nick m nick [] idx = false
names_nick m nick (b ∷ modes) idx =
    let same = names_nick m nick modes idx in
    let next = names_nick m nick modes (idx + 1) in
    if b == b'+' || b == b'-' then same else equal_fold (get_param m (idx + 1) []) nick || next

mode_loop-nil :
    (m : Message) (nick modes : Bytes) (adding : Bool) (idx : ℕ)
    → mode_loop m nick modes adding idx none
      ≡ (if names_nick m nick modes idx then panic else ok none)
unfolding mode_loop names_nick change_mode
mode_loop-nil m nick [] adding idx = refl
mode_loop-nil m nick (b ∷ modes) adding idx = elim (Bool-cases (b == b'+')) [
  | inl e ↦ rw e (mode_loop-nil m nick modes true idx)
  | inr e ↦ elim (Bool-cases (b == b'-')) [
    | inl f ↦ rw e (rw f (mode_loop-nil m nick modes false idx))
    | inr f ↦ rw e (
        rw f (elim (Bool-cases (equal_fold (get_param m (idx + 1) []) nick)) [
          | inl g ↦ rw g refl
          | inr g ↦ rw g (mode_loop-nil m nick modes adding (idx + 1))
        ]))
  ]
]

change_mode-some :
    (adding : Bool) (mode : Bytes) (ch : StateChannel)
    → (ch' : StateChannel) × (change_mode adding mode (some ch) ≡ ok (some ch'))
unfolding change_mode
change_mode-some true mode ch = (_, refl)
change_mode-some false mode ch = (_, refl)

mode_loop-some :
    (m : Message) (nick modes : Bytes) (adding : Bool) (idx : ℕ) (ch : StateChannel)
    → (ch' : StateChannel) × (mode_loop m nick modes adding idx (some ch) ≡ ok (some ch'))
unfolding mode_loop
mode_loop-some m nick [] adding idx ch = (ch, refl)
mode_loop-some m nick (b ∷ modes) adding idx ch = elim (Bool-cases (b == b'+')) [
  | inl e ↦ rw e (mode_loop-some m nick modes true idx ch)
  | inr e ↦ elim (Bool-cases (b == b'-')) [
    | inl f ↦ rw e (rw f (mode_loop-some m nick modes false idx ch))
    | inr f ↦ rw e (
        rw f (elim (Bool-cases (equal_fold (get_param m (idx + 1) []) nick)) [
          | inl g ↦ rw g (
              let (x, q) = change_mode-some adding (byte_text b) ch in
              rw q (mode_loop-some m nick modes adding (idx + 1) x))
          | inr g ↦ rw g (mode_loop-some m nick modes adding (idx + 1) ch)
        ]))
  ]
]

-- A mode line for a channel that the client does not have, with a mode of its own nick.
unfoldable pub nil_mode : Message → Option StateChannel → Bytes → Bool
nil_mode m (some ch) nick = false
nil_mode m none nick =
    has_command m (codes "MODE")
    && has_prefix (get_param m 0 []) (codes "#")
    && names_nick m nick (get_param m 1 []) 1

-- A 005 line with no param behind the nick.
unfoldable pub short_isupport : Message → Bool
short_isupport m = has_command m (codes "005") && ltb (length m.params) 2

-- A call that panics where b is true and otherwise returns.
abbrev pub Decided : Bool → Outcome Client → (Client → Type 0) → Type 0
Decided b o P = ((b ≡ true) × (o ≡ panic)) ⊎ ((b ≡ false) × Returns o P)

abbrev pub LiveAs : Bytes → Client → Type 0
LiveAs nick c = IsLive c × (c.irc_state.nick ≡ nick)

module _ (now : ℕ) (m : Message) where
  on_mode-nil :
      (c : Client)
      → IsLive c
      → KnowsChannel m none c
      → Decided (nil_mode m none c.irc_state.nick) (on_mode now m c) (LiveAs c.irc_state.nick)
  unfolding on_mode nil_mode write_back
  on_mode-nil c live known =
      elim (Bool-cases
        (has_command m (codes "MODE") && has_prefix (get_param m 0 []) (codes "#"))) [
          | inl e ↦ elim known [
            | inl f ↦ absurd (ground arith)
            | inr f ↦ rw f (
                rw e (
                  rw (mode_loop-nil m c.irc_state.nick (get_param m 1 []) false 1)
                    (elim (Bool-cases (names_nick m c.irc_state.nick (get_param m 1 []) 1)) [
                      | inl g ↦ inl (ground arith, rw g refl)
                      | inr g ↦ inr (ground arith, (c, rw g refl, (live, refl)))
                    ])))
          ]
          | inr e ↦ inr (ground arith, (c, rw e refl, (live, refl)))
        ]

  on_mode-some :
      (ch : StateChannel) (c : Client)
      → IsLive c
      → KnowsChannel m (some ch) c
      → Returns (on_mode now m c) (LiveAs c.irc_state.nick)
  unfolding on_mode write_back set_channel
  on_mode-some ch c live known =
      elim (Bool-cases
        (has_command m (codes "MODE") && has_prefix (get_param m 0 []) (codes "#"))) [
          | inl e ↦ elim known [
            | inl f ↦ absurd (ground arith)
            | inr f ↦
                let (ch', q) =
                  mode_loop-some m c.irc_state.nick (get_param m 1 []) false 1
                    (new_state_channel (get_param m 0 []) now) in
                rw e (rw f (rw q (_, refl, (live, refl))))
          ]
          | inr e ↦ (c, rw e refl, (live, refl))
        ]

  pub on_mode-Holds :
      (ch : Option StateChannel) (nick : Bytes) (c : Client)
      → Holds m ch nick c
      → Decided (nil_mode m ch nick) (on_mode now m c) (LiveAs nick)
  on_mode-Holds none nick c h = rw (sym h.nick_is) (on_mode-nil c h.live h.known)
  on_mode-Holds (some ch) nick c h =
      inr (unfold nil_mode in refl, rw (sym h.nick_is) (on_mode-some ch c h.live h.known))
