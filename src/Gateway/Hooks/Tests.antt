-- ===== src/Gateway/Hooks/Tests.antt =====
-- Three registrations for one event.
use webircgateway.Base.{◌≡◌, refl, true, false, none, List, [], ◌∷◌, ◌++◌}
use webircgateway.Text.Bytes.{Bytes, codes}
use webircgateway.Gateway.Hooks.{
  hook_register, get_callbacks, call_each, Callback, irc_line, status, HookIrcLine,
  as_connection_pre, as_irc_line, as_client_state, as_client_init, as_status, as_gateway_closing,
  dispatch_connection_pre, dispatch_irc_line, dispatch_client_state, dispatch_client_init,
  dispatch_status, dispatch_gateway_closing, hook_register, get_callbacks, call_each,
}
use webircgateway.Dict.{lookup, insert}
use webircgateway.Gateway.Hooks.Order.{registered, functions, in_turn, dispatch_lem}

-- Two functions that note their names, and one of another hook's type.
abbrev regs : List (Bytes × Callback (List Bytes))
regs =
    (codes "irc.line", irc_line (λ s. (record (s.0) { halt = true }, (s.1) ++ codes "first" ∷ [])))
    ∷ (codes "irc.line", status (λ s. (s.0, (s.1) ++ codes "other" ∷ [])))
    ∷ (codes "irc.line", irc_line (λ s. (s.0, (s.1) ++ codes "second" ∷ [])))
    ∷ []

abbrev line : HookIrcLine × List Bytes
line = (record { halt = false; line = codes "PING"; message = none; to_server = true }, [])

in_order :
    dispatch_irc_line (registered regs []) (codes "irc.line") line
    ≡ (record (line.0) { halt = true }, codes "first" ∷ codes "second" ∷ [])
unfolding dispatch_irc_line registered hook_register get_callbacks call_each insert lookup
in_order = refl

dispatch_lem_example :
    let r = registered regs [] in
    let event = codes "irc.line" in
    (dispatch_connection_pre r event (record { halt = false }, [])
      ≡ in_turn (functions as_connection_pre event regs) (record { halt = false }, []))
    × (dispatch_irc_line r event line ≡ in_turn (functions as_irc_line event regs) line)
    × (dispatch_client_state r event (record { halt = false; connected = true }, [])
        ≡ in_turn
            (functions as_client_state event regs)
            (record { halt = false; connected = true }, []))
    × (dispatch_client_init r event (record { halt = false; connected = true }, [])
        ≡ in_turn
            (functions as_client_init event regs)
            (record { halt = false; connected = true }, []))
    × (dispatch_status r event (record { halt = false; line = [] }, [])
        ≡ in_turn (functions as_status event regs) (record { halt = false; line = [] }, []))
    × (dispatch_gateway_closing r event (record { halt = false }, [])
        ≡ in_turn (functions as_gateway_closing event regs) (record { halt = false }, []))
dispatch_lem_example =
    dispatch_lem regs (codes "irc.line") (record { halt = false }, []) line
      (record { halt = false; connected = true }, [])
      (record { halt = false; connected = true }, []) (record { halt = false; line = [] }, [])
      (record { halt = false }, [])
