-- ===== src/Gateway/Track/Parts.antt =====
-- ProcessLineFromUpstream: its parts return, one by one, with the client live and its nick as the line says.
use webircgateway.Base.{
  ℕ, ◌-◌, ◌≤◌, ◌<◌, ◌≡◌, ◌⊎◌, inl, inr, refl, sym, Bool, true, false, not, ◌&&◌, ◌||◌, Option, none,
  some, List, [], ◌∷◌, arith, ltb, if◌then◌else◌, length, get_elem?, Outcome, ok, or_panic, Returns,
  Returns-if,
}
use webircgateway.Text.Bytes.{Bytes, codes, equal, equal_iff}
use webircgateway.Irc.Isupport.{Isupport, has_token, add_token}
use webircgateway.Irc.Message.{Mask, Message, get_param}
use webircgateway.Irc.State.{
  State, StateChannel, get_channel, set_channel, remove_channel, clear_channels,
}
use webircgateway.Gateway.Client.{Client, send_data}
use webircgateway.Gateway.Client.Lifecycle.{IsLive, send_client_signal_lem}
use webircgateway.Gateway.Track.{
  with_irc, with_isupport, param, has_command, if_own, on_nick, source_nick, on_isupport,
  on_welcome, inject_isupport, on_join, on_part, on_quit, on_account, with_account, slice_params,
}

-- The channel that a mode line names, as the client has it.
abbrev pub KnowsChannel : Message → Option StateChannel → Client → Type 0
KnowsChannel m ch c =
    (has_command m (codes "MODE") ≡ false) ⊎ (get_channel c.irc_state (get_param m 0 []) ≡ ch)

-- Between two parts: the client is live, has this nick, and the channel of a mode line.
pub record Holds (m : Message) (ch : Option StateChannel) (nick : Bytes) (c : Client) : Type 0 where
  pub live : IsLive c
  pub nick_is : c.irc_state.nick ≡ nick
  pub known : KnowsChannel m ch c

pub has_command-true :
    (m : Message) (a : Bytes) → has_command m a ≡ true → (0 < length m.params) × (m.command ≡ a)
unfolding has_command
has_command-true m a h = (ground arith, (equal_iff m.command a).0 (ground arith))

pub other_command :
    (m : Message) (a b : Bytes)
    → has_command m a ≡ true
    → equal a b ≡ false
    → has_command m b ≡ false
other_command m a b h ne =
    let (l, e) = has_command-true m a h in unfold has_command in rw e (ground (arith, ne))

pub first_param :
    (m : Message) (a : Bytes) → has_command m a ≡ true → param m 0 ≡ ok (get_param m 0 [])
unfolding param get_param
first_param m a h = at_zero m.params (has_command-true m a h).0
  where
    at_zero :
        (ps : List Bytes)
        → 0 < length ps
        → or_panic (get_elem? ps 0) ≡ ok (elim (get_elem? ps 0) [ none ↦ [] | some p ↦ p ])
    at_zero [] l = absurd (omega arith)
    at_zero (p ∷ ps) l = refl

pub Holds-if :
    (m : Message) (ch : Option StateChannel) (nick : Bytes) (b : Bool) (c d : Client)
    → Holds m ch nick c
    → Holds m ch nick d
    → Holds m ch nick (if b then c else d)
Holds-if m ch nick true c d h k = h
Holds-if m ch nick false c d h k = k

-- A part that, for a command other than MODE, changes the tracked state alone, with this nick.
pub tracked-Holds :
    {m : Message} {ch : Option StateChannel} {old nick : Bytes} (a : Bytes) (c : Client) (s : State)
    → has_command m a ≡ true
    → equal a (codes "MODE") ≡ false
    → Holds m ch old c
    → s.nick ≡ nick
    → Holds m ch nick (with_irc c s)
tracked-Holds {m = m} a c s e ne h q = record {
  live = h.live;
  nick_is = q;
  known = inl (other_command m a (codes "MODE") e ne);
}

pub send_data-Holds :
    (m : Message) (ch : Option StateChannel) (nick line : Bytes) (c : Client)
    → Holds m ch nick c
    → Returns (send_data line c) (Holds m ch nick)
unfolding send_data get_channel
send_data-Holds m ch nick line c h = (
  _,
  send_client_signal_lem _ (line ∷ []) c h.live,
  Holds-if m ch nick c.shutting_down c _ h
      (record { live = h.live; nick_is = h.nick_is; known = h.known }),
)

module _ (m : Message) (ch : Option StateChannel) (p : Mask) (has_source : m.prefix ≡ some p) where
  -- A part for the client's own lines returns if what it does to the client returns.
  if_own-Holds :
      {P : Client → Type 0} (a : Bytes) (act : Client → Outcome Client) (c : Client)
      → (has_command m a ≡ true → equal p.nick c.irc_state.nick ≡ true → Returns (act c) P)
      → ((has_command m a && equal p.nick c.irc_state.nick) ≡ false → P c)
      → Returns (if_own m a act c) P
  unfolding if_own source_nick
  if_own-Holds {P = P} a act c taken left =
      Returns-if (has_command m a) _ _
        (λ e. rw has_source (
          Returns-if {P = P} (equal p.nick c.irc_state.nick) _ _ (λ f. taken e f)
            (λ f. (c, refl, left (ground arith)))))
        (λ e. (c, refl, left (ground arith)))

  pub on_nick-Holds :
      (nick : Bytes) (c : Client)
      → Holds m ch nick c
      → Returns (on_nick m c) (
          Holds m ch
            (if has_command m (codes "NICK") && equal p.nick nick then get_param m 0 [] else nick))
  unfolding on_nick
  on_nick-Holds nick c h =
      if_own-Holds (codes "NICK") _ c
        (λ e f. rw (first_param m (codes "NICK") e) (
          _,
          refl,
          tracked-Holds (codes "NICK") c _ e (unfold equal in refl) h (simp (e, sym h.nick_is, f)),
        ))
        (λ e. record { live = h.live; nick_is = rw (sym h.nick_is) (rw e refl); known = h.known })

  pub on_welcome-Holds :
      (nick : Bytes) (c : Client)
      → Holds m ch nick c
      → Returns
          (on_welcome m c)
          (Holds m ch (if has_command m (codes "001") then get_param m 0 [] else nick))
  unfolding on_welcome get_param has_command
  on_welcome-Holds nick c h =
      Returns-if (has_command m (codes "001")) _ _
        (λ e. rw (first_param m (codes "001") e) (
          rw has_source (
            _,
            refl,
            record {
              live = h.live;
              nick_is = simp e;
              known = inl (other_command m _ _ e (unfold equal in refl));
            },
          )))
        (λ e. (c, refl, rw e h))

  pub on_isupport-Holds :
      (nick : Bytes) (c : Client)
      → (has_command m (codes "005") ≡ false) ⊎ (2 ≤ length m.params)
      → Holds m ch nick c
      → Returns (on_isupport m c) (Holds m ch nick)
  unfolding on_isupport slice_params
  on_isupport-Holds nick c enough h =
      Returns-if (has_command m (codes "005")) _ _
        (λ e.
          rw (in_bounds e)
            (_, refl, tracked-Holds (codes "005") c _ e (unfold equal in refl) h h.nick_is))
        (λ e. (c, refl, h))
    where
      in_bounds :
          has_command m (codes "005") ≡ true
          → (ltb (length m.params - 1) 1 || ltb (length m.params) (length m.params - 1)) ≡ false
      in_bounds e = elim enough [ inl f ↦ absurd (cc) | inr l ↦ ground arith ]

  pub inject_isupport-Holds :
      (nick : Bytes) (c : Client)
      → Holds m ch nick c
      → Returns (inject_isupport m c) (Holds m ch nick)
  unfolding inject_isupport get_channel
  inject_isupport-Holds nick c h =
      let injected : (i : Isupport) (b : Bool)
          → Holds m ch nick (with_isupport (record c { ext_jwt = b }) i) =
        λ i b. record { live = h.live; nick_is = h.nick_is; known = h.known } in
      let i : Isupport = record (c.irc_state.isupport) { injected = true } in
      Returns-if
        (c.irc_state.isupport.received
          && not c.irc_state.isupport.injected
          && not (equal m.command (codes "005")))
        _ _
        (λ e.
          Returns-if (has_token i (codes "EXTJWT"))
            (ok (with_isupport (record c { ext_jwt = false }) i)) _
            (λ f. (_, refl, injected i false))
            (λ f.
              send_data-Holds m ch nick _ _ (injected (add_token i (codes "EXTJWT=1")) c.ext_jwt)))
        (λ e. (c, refl, h))

  pub on_join-Holds :
      (now : ℕ) (nick : Bytes) (c : Client)
      → Holds m ch nick c
      → Returns (on_join now m c) (Holds m ch nick)
  unfolding on_join set_channel
  on_join-Holds now nick c h =
      if_own-Holds (codes "JOIN") _ c
        (λ e f. (_, refl, tracked-Holds (codes "JOIN") c _ e (unfold equal in refl) h h.nick_is))
        (λ e. h)

  pub on_part-Holds :
      (nick : Bytes) (c : Client) → Holds m ch nick c → Returns (on_part m c) (Holds m ch nick)
  unfolding on_part remove_channel
  on_part-Holds nick c h =
      if_own-Holds (codes "PART") _ c
        (λ e f. (_, refl, tracked-Holds (codes "PART") c _ e (unfold equal in refl) h h.nick_is))
        (λ e. h)

  pub on_quit-Holds :
      (nick : Bytes) (c : Client) → Holds m ch nick c → Returns (on_quit m c) (Holds m ch nick)
  unfolding on_quit clear_channels
  on_quit-Holds nick c h =
      if_own-Holds (codes "QUIT") _ c
        (λ e f. (_, refl, tracked-Holds (codes "QUIT") c _ e (unfold equal in refl) h h.nick_is))
        (λ e. h)

pub on_account-Holds :
    (m : Message) (ch : Option StateChannel) (nick : Bytes) (c : Client)
    → Holds m ch nick c
    → Holds m ch nick (on_account m c)
unfolding on_account get_channel
on_account-Holds m ch nick c h =
    let logged_in = if has_command m (codes "900") then with_account c (get_param m 2 []) else c in
    let k : Holds m ch nick logged_in =
      Holds-if m ch nick (has_command m (codes "900")) (with_account c (get_param m 2 [])) c
        (account-Holds c (get_param m 2 []) h) h in
    Holds-if m ch nick (equal m.command (codes "901")) (with_account logged_in []) logged_in
      (account-Holds logged_in [] k) k
  where
    account-Holds :
        (c : Client) (a : Bytes) → Holds m ch nick c → Holds m ch nick (with_account c a)
    account-Holds c a h = record { live = h.live; nick_is = h.nick_is; known = h.known }
