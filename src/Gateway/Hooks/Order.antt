-- ===== src/Gateway/Hooks/Order.antt =====
-- A dispatch calls what was registered for its event, in the order of the registrations.
use webircgateway.Base.{
  ◌≡◌, inl, inr, refl, sym, ap, ◌∙◌, Option, none, some, List, [], ◌∷◌, ◌++◌, append-nil,
  append_assoc, if◌then◌else◌, Bool-cases,
}
use webircgateway.Text.Bytes.{Bytes, equal, equal_iff}
use webircgateway.Dict.{lookup, lookup-insert}
use webircgateway.Gateway.Hooks.{
  Callback, Registry, call_if, call_each, hook_register, get_callbacks, or_empty,
  HookIrcConnectionPre, HookIrcLine, HookClientState, HookClientInit, HookStatus,
  HookGatewayClosing, as_connection_pre, as_irc_line, as_client_state, as_client_init, as_status,
  as_gateway_closing, dispatch_connection_pre, dispatch_irc_line, dispatch_client_state,
  dispatch_client_init, dispatch_status, dispatch_gateway_closing,
}

unfoldable pub add_function : {S : Type 0} → Option (S → S) → List (S → S) → List (S → S)
add_function none fs = fs
add_function (some f) fs = f ∷ fs

unfoldable pub in_turn : {S : Type 0} → List (S → S) → S → S
in_turn [] s = s
in_turn (f ∷ fs) s = in_turn fs (f s)

in_turn-add_function :
    {S : Type 0} (o : Option (S → S)) (fs : List (S → S)) (s : S)
    → in_turn (add_function o fs) s ≡ in_turn fs (call_if o s)
unfolding in_turn add_function
in_turn-add_function none fs s = refl
in_turn-add_function (some f) fs s = refl

module _ {W : Type 0} where
  -- The registrations of a program, in their order, from an empty registry.
  unfoldable pub registered : List (Bytes × Callback W) → Registry W → Registry W
  registered [] r = r
  registered ((name, p) ∷ regs) r = registered regs (hook_register name p r)

  -- The callbacks of these that were registered for the event.
  unfoldable pub chosen : Bytes → List (Bytes × Callback W) → List (Callback W)
  chosen event [] = []
  chosen event ((name, p) ∷ regs) =
      let rest = chosen event regs in if equal name event then p ∷ rest else rest

  get_callbacks-register :
      (name event : Bytes) (p : Callback W) (r : Registry W)
      → get_callbacks (hook_register name p r) event
        ≡ (if equal name event then get_callbacks r event ++ p ∷ [] else get_callbacks r event)
  unfolding get_callbacks hook_register
  get_callbacks-register name event p r =
      rw (lookup-insert r name event (or_empty (lookup r name) ++ p ∷ []))
        (elim (Bool-cases (equal name event)) [
          | inl e ↦ rw e (ap (λ n. or_empty (lookup r n) ++ p ∷ []) ((equal_iff name event).0 e))
          | inr e ↦ rw e refl
        ])

  get_callbacks-registered :
      (event : Bytes) (regs : List (Bytes × Callback W)) (r : Registry W)
      → get_callbacks (registered regs r) event ≡ get_callbacks r event ++ chosen event regs
  unfolding registered chosen
  get_callbacks-registered event [] r = sym (append-nil (get_callbacks r event))
  get_callbacks-registered event ((name, p) ∷ regs) r =
      get_callbacks-registered event regs (hook_register name p r)
      ∙ elim (Bool-cases (equal name event)) [
        | inl e ↦
            rw (get_callbacks-register name event p r, e)
              (append_assoc (get_callbacks r event) (p ∷ []) (chosen event regs))
        | inr e ↦ rw (get_callbacks-register name event p r, e) refl
      ]

  -- The functions of one hook's type that were registered for the event, in the order of their registrations.
  unfoldable pub functions :
      {S : Type 0}
      → (Callback W → Option (S → S))
      → Bytes
      → List (Bytes × Callback W)
      → List (S → S)
  unfolding add_function
  functions as_hook event [] = []
  functions as_hook event ((name, p) ∷ regs) =
      let rest = functions as_hook event regs in
      if equal name event then add_function (as_hook p) rest else rest

  call_each-functions :
      {S : Type 0} (as_hook : Callback W → Option (S → S)) (event : Bytes)
      (regs : List (Bytes × Callback W)) (s : S)
      → call_each as_hook (chosen event regs) s ≡ in_turn (functions as_hook event regs) s
  unfolding call_each functions chosen in_turn
  call_each-functions as_hook event [] s = refl
  call_each-functions as_hook event ((name, p) ∷ regs) s = elim (Bool-cases (equal name event)) [
    | inl e ↦ rw e (
        call_each-functions as_hook event regs (call_if (as_hook p) s)
        ∙ sym (in_turn-add_function (as_hook p) (functions as_hook event regs) s))
    | inr e ↦ rw e (call_each-functions as_hook event regs s)
  ]

  -- Every Dispatch behind a list of registrations calls, one after the other and in the order of their registrations, the
  -- functions of its hook's type that were registered under the event's name, and nothing else.
  pub dispatch_lem :
      (regs : List (Bytes × Callback W)) (event : Bytes) (pre : HookIrcConnectionPre × W)
      (line : HookIrcLine × W) (state : HookClientState × W) (init : HookClientInit × W)
      (st : HookStatus × W) (closing : HookGatewayClosing × W)
      → let r = registered regs [] in
        (dispatch_connection_pre r event pre ≡ in_turn (functions as_connection_pre event regs) pre)
        × (dispatch_irc_line r event line ≡ in_turn (functions as_irc_line event regs) line)
        × (dispatch_client_state r event state
            ≡ in_turn (functions as_client_state event regs) state)
        × (dispatch_client_init r event init ≡ in_turn (functions as_client_init event regs) init)
        × (dispatch_status r event st ≡ in_turn (functions as_status event regs) st)
        × (dispatch_gateway_closing r event closing
            ≡ in_turn (functions as_gateway_closing event regs) closing)
  unfolding dispatch_connection_pre dispatch_irc_line dispatch_client_state dispatch_client_init
      dispatch_status dispatch_gateway_closing lookup
  dispatch_lem regs event pre line state init st closing =
      let has : get_callbacks (registered regs []) event ≡ chosen event regs =
        get_callbacks-registered event regs [] in
      (
        rw has (call_each-functions as_connection_pre event regs pre),
        rw has (call_each-functions as_irc_line event regs line),
        rw has (call_each-functions as_client_state event regs state),
        rw has (call_each-functions as_client_init event regs init),
        rw has (call_each-functions as_status event regs st),
        rw has (call_each-functions as_gateway_closing event regs closing),
      )
