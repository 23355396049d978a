-- ===== src/Gateway/Client/Lifecycle.antt =====
-- A client's signals and shutdown: neither ever panics, and a shutdown is final.
use webircgateway.Base.{
  ℕ, ◌≡◌, inl, inr, refl, ap, ◌∙◌, Bool, true, false, List, [], ◌∷◌, ◌++◌, append-nil, append_assoc,
  arith, if◌then◌else◌, Bool-cases, Outcome, ok, ◌>>=◌,
}
use webircgateway.Text.Bytes.{Bytes}
use webircgateway.Gateway.Config.{Config}
use webircgateway.Gateway.Client.{
  Client, ClientState, Signal, new_client, start_shutdown, send_client_signal, send_args, send,
  close_signals, end_wg_done,
}

-- The channel is closed and EndWG released exactly when the client is shutting down.
pub record LiveParts (signals_closed shutting_down : Bool) (end_wg : ℕ) : Type 0 where
  pub closed : signals_closed ≡ shutting_down
  pub counted : end_wg ≡ (if shutting_down then 0 else 1)

-- It says nothing of the client's other fields, so a change of those keeps it.
abbrev pub IsLive : Client → Type 0
IsLive c = LiveParts c.signals_closed c.shutting_down c.end_wg

pub new_client-IsLive : (config : Config) (id : ℕ) → IsLive (new_client config id)
unfolding new_client
new_client-IsLive config id = record { closed = refl; counted = refl }

abbrev pub sent : Bytes → List Bytes → List Signal
sent signal [] = (signal, [], []) ∷ []
sent signal (a ∷ []) = (signal, a, []) ∷ []
sent signal (a ∷ b ∷ []) = (signal, a, b) ∷ []
sent signal (a ∷ b ∷ d ∷ args) = []

send_args_lem :
    (signal : Bytes) (args : List Bytes) (c : Client)
    → c.signals_closed ≡ false
    → send_args signal args c ≡ ok (record c { signals = c.signals ++ sent signal args })
unfolding send_args send
send_args_lem signal [] c h = rw h
send_args_lem signal (a ∷ []) c h = rw h
send_args_lem signal (a ∷ b ∷ []) c h = rw h
send_args_lem signal (a ∷ b ∷ d ∷ args) c h = rw append-nil

-- SendClientSignal on a live client returns: it appends its one signal while the client is not shutting
-- down (none, if there are more than two arguments), and changes nothing afterwards.
pub send_client_signal_lem :
    (signal : Bytes) (args : List Bytes) (c : Client)
    → IsLive c
    → send_client_signal signal args c
      ≡ ok (if c.shutting_down then c else record c { signals = c.signals ++ sent signal args })
unfolding send_client_signal
send_client_signal_lem signal args c h = elim (Bool-cases c.shutting_down) [
  | inl e ↦ simp e
  | inr e ↦ simp (e, send_args_lem signal args c (h.closed ∙ e))
]

-- StartShutdown on a live client returns. The first call marks the client, sets its state, closes the
-- channel and releases EndWG; every later call changes nothing, whatever its reason.
pub start_shutdown_lem :
    (reason : Bytes) (c : Client)
    → IsLive c
    → start_shutdown reason c
      ≡ ok (
          if c.shutting_down then c else record c {
            shutting_down = true;
            state = ClientState.ending;
            signals_closed = true;
            end_wg = 0;
          })
unfolding start_shutdown close_signals end_wg_done
start_shutdown_lem reason c h = elim (Bool-cases c.shutting_down) [
  | inl e ↦ simp e
  | inr e ↦ let one : c.end_wg ≡ 1 = ground arith in simp (e, h.closed, one)
]

-- The calls that the rest of the gateway makes on a client's lifetime.
pub data LifeOp : Type 0 where
  signal : Bytes → List Bytes → LifeOp
  shutdown : Bytes → LifeOp

unfoldable pub apply : LifeOp → Client → Outcome Client
apply (signal s args) = send_client_signal s args
apply (shutdown reason) = start_shutdown reason

pub run : List LifeOp → Client → Outcome Client
run [] c = ok c
run (op ∷ ops) c = apply op c >>= run ops

-- The signals that a list of calls sends: those in front of the first shutdown.
pub sent_by : List LifeOp → List Signal
sent_by [] = []
sent_by (signal s args ∷ ops) = sent s args ++ sent_by ops
sent_by (shutdown reason ∷ ops) = []

abbrev pub closes : List LifeOp → Bool
closes [] = false
closes (signal s args ∷ ops) = closes ops
closes (shutdown reason ∷ ops) = true

abbrev pub shut : Client → Client
shut c = record c {
  shutting_down = true;
  state = ClientState.ending;
  signals_closed = true;
  end_wg = 0;
}

pub send_live :
    (s : Bytes) (args : List Bytes) (c : Client)
    → IsLive c
    → c.shutting_down ≡ false
    → send_client_signal s args c ≡ ok (record c { signals = c.signals ++ sent s args })
send_live s args c h e =
    send_client_signal_lem s args c h
    ∙ ap (λ b. ok (if b then c else record c { signals = c.signals ++ sent s args })) e

pub shutdown_live :
    (reason : Bytes) (c : Client)
    → IsLive c
    → c.shutting_down ≡ false
    → start_shutdown reason c ≡ ok (shut c)
shutdown_live reason c h e =
    start_shutdown_lem reason c h ∙ ap (λ b. ok (if b then c else shut c)) e

apply_shut : (op : LifeOp) (c : Client) → c.shutting_down ≡ true → apply op c ≡ ok c
unfolding apply send_client_signal start_shutdown
apply_shut (signal s args) c h = simp h
apply_shut (shutdown reason) c h = simp h

run_shut : (ops : List LifeOp) (c : Client) → c.shutting_down ≡ true → run ops c ≡ ok c
unfolding run
run_shut [] c h = refl
run_shut (op ∷ ops) c h = ap (λ o. o >>= run ops) (apply_shut op c h) ∙ run_shut ops c h

-- Whatever signals and shutdowns are asked of a live client that is not shutting down, in any order
-- and any number, no call panics. The signals sent are those asked for before the first
-- shutdown; if there is one, the client is ending, its channel is closed and its wait group
-- released, and otherwise nothing else changes.
pub run_lem :
    (ops : List LifeOp) (c : Client)
    → IsLive c
    → c.shutting_down ≡ false
    → run ops c
      ≡ ok (
          let d = record c { signals = c.signals ++ sent_by ops } in
          if closes ops then shut d else d)
unfolding run sent_by apply
run_lem [] c h e = rw append-nil
run_lem (signal s args ∷ ops) c h e =
    ap (λ o. o >>= run ops) (send_live s args c h e)
    ∙ run_lem ops (record c { signals = c.signals ++ sent s args }) (h) e
    ∙ simp append_assoc
run_lem (shutdown reason ∷ ops) c h e =
    ap (λ o. o >>= run ops) (shutdown_live reason c h e)
    ∙ run_shut ops (shut c) refl
    ∙ simp append-nil
