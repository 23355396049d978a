-- ===== src/Irc/State.antt =====
-- pkg/irc/state.go: what the gateway knows of a client's IRC connection. Channel names are keys in
-- lower case. Every method holds the mutex for its whole body, so each is one step here.
use webircgateway.Base.{
  ℕ, ◌≡◌, ◌↔◌, inl, inr, refl, ap, ◌∙◌, Bool, true, false, Option, none, some, List, [], ◌∷◌,
  if◌then◌else◌, Bool-cases, Option-cases,
}
use webircgateway.Text.Bytes.{Bytes, equal, to_lower, equal_fold}
use mathlib.Core.Path.{fun_ext}
use webircgateway.Dict.{Dict, lookup, insert, erase, lookup-insert, lookup-erase}
use webircgateway.Irc.Isupport.{Isupport, is_some}

pub record StateChannel : Type 0 where
  pub name : Bytes
  pub modes : Dict Bytes
  pub joined : ℕ

-- IrcState.Modes is never read or written by the program beside its declaration.
pub record State : Type 0 where
  pub local_port : ℕ
  pub remote_port : ℕ
  pub username : Bytes
  pub nick : Bytes
  pub real_name : Bytes
  pub password : Bytes
  pub account : Bytes
  pub modes : Dict Bytes
  pub channels : Dict StateChannel
  pub isupport : Isupport

abbrev pub new_state : State
new_state = record {
  local_port = 0;
  remote_port = 0;
  username = [];
  nick = [];
  real_name = [];
  password = [];
  account = [];
  modes = [];
  channels = [];
  isupport = record { received = false; injected = false; tags = []; tokens = [] };
}

-- The time of the call is an argument.
abbrev pub new_state_channel : Bytes → ℕ → StateChannel
new_state_channel name now = record { name = name; modes = []; joined = now }

unfoldable pub has_channel : State → Bytes → Bool
has_channel m name = is_some (lookup m.channels (to_lower name))

-- none is the nil pointer
unfoldable pub get_channel : State → Bytes → Option StateChannel
get_channel m name = lookup m.channels (to_lower name)

unfoldable pub set_channel : State → StateChannel → State
set_channel m channel = record m { channels = insert m.channels (to_lower channel.name) channel }

unfoldable pub remove_channel : State → Bytes → State
remove_channel m name = record m { channels = erase m.channels (to_lower name) }

-- The loop of ClearChannels deletes every key that it ranges over.
erase_all : Dict StateChannel → Dict StateChannel → Dict StateChannel
erase_all [] m = m
erase_all ((k, v) ∷ keys) m = erase_all keys (erase m k)

unfoldable pub clear_channels : State → State
unfolding erase_all
clear_channels m = record m { channels = erase_all m.channels m.channels }

-- A lookup by any spelling of a name finds the channel that was set last under it, until it is removed.
pub get_channel-set_channel :
    (m : State) (channel : StateChannel) (name : Bytes)
    → get_channel (set_channel m channel) name
      ≡ (if equal_fold channel.name name then some channel else get_channel m name)
unfolding get_channel set_channel equal_fold
get_channel-set_channel m channel name =
    lookup-insert m.channels (to_lower channel.name) (to_lower name) channel

pub get_channel-remove_channel :
    (m : State) (gone name : Bytes)
    → get_channel (remove_channel m gone) name
      ≡ (if equal_fold gone name then none else get_channel m name)
unfolding get_channel remove_channel equal_fold
get_channel-remove_channel m gone name = lookup-erase m.channels (to_lower gone) (to_lower name)

-- HasChannel tells whether GetChannel finds a channel.
pub has_channel-get_channel :
    (m : State) (name : Bytes)
    → (has_channel m name ≡ true) ↔ ((c : StateChannel) × (get_channel m name ≡ some c))
unfolding has_channel get_channel
has_channel-get_channel m name = elim (Option-cases (lookup m.channels (to_lower name))) [
  | inl e ↦ rw e (λ h. absurd (cc), λ (c, h). absurd (cc))
  | inr (c, e) ↦ rw e (λ h. (c, refl), λ h. refl)
]

lookup-erase_all :
    (keys m : Dict StateChannel) (j : Bytes)
    → (lookup keys j ≡ none → lookup m j ≡ none)
    → lookup (erase_all keys m) j ≡ none
unfolding erase_all
lookup-erase_all [] m j h = h (unfold lookup in refl)
lookup-erase_all ((k, v) ∷ keys) m j h = lookup-erase_all keys (erase m k) j still
  where
    still : lookup keys j ≡ none → lookup (erase m k) j ≡ none
    still e = elim (Bool-cases (equal k j)) [
      | inl same ↦ lookup-erase m k j ∙ rw same
      | inr other ↦ lookup-erase m k j ∙ rw other (h (unfold lookup in rw other e))
    ]

get_channel-clear_channels : (m : State) (name : Bytes) → get_channel (clear_channels m) name ≡ none
unfolding get_channel clear_channels
get_channel-clear_channels m name = lookup-erase_all m.channels m.channels (to_lower name) (λ e. e)

-- The methods that change the channels.
pub data ChannelOp : Type 0 where
  set : StateChannel → ChannelOp
  remove : Bytes → ChannelOp
  clear : ChannelOp

pub apply : ChannelOp → State → State
apply (set c) m = set_channel m c
apply (remove name) m = remove_channel m name
apply clear m = clear_channels m

pub run : List ChannelOp → State → State
unfolding apply
run [] m = m
run (op ∷ ops) m = run ops (apply op m)

-- The channels as a function of a name, which forgets their order and their spelling.
pub view : ChannelOp → (Bytes → Option StateChannel) → Bytes → Option StateChannel
view (set c) f name = if equal_fold c.name name then some c else f name
view (remove gone) f name = if equal_fold gone name then none else f name
view clear f name = none

pub view_all : List ChannelOp → (Bytes → Option StateChannel) → Bytes → Option StateChannel
view_all [] f = f
view_all (op ∷ ops) f = view_all ops (view op f)

get_channel-apply :
    (op : ChannelOp) (m : State) (name : Bytes)
    → get_channel (apply op m) name ≡ view op (get_channel m) name
unfolding apply view
get_channel-apply (set c) m name = get_channel-set_channel m c name
get_channel-apply (remove gone) m name = get_channel-remove_channel m gone name
get_channel-apply clear m name = get_channel-clear_channels m name

-- After any sequence of SetChannel, RemoveChannel and ClearChannels, GetChannel finds under a name, in
-- any case, the channel set last under it if it was neither removed nor cleared since, and what
-- it found before if no call named it.
pub get_channel-run :
    (ops : List ChannelOp) (m : State) (name : Bytes)
    → get_channel (run ops m) name ≡ view_all ops (get_channel m) name
unfolding run view_all
get_channel-run [] m name = refl
get_channel-run (op ∷ ops) m name =
    get_channel-run ops (apply op m) name
    ∙ ap (λ f. view_all ops f name) (fun_ext λ n. get_channel-apply op m n)
