-- ===== src/Program/Signals.antt =====
-- The phases of a running process: how signals reload and close it, and when it ends.
use webircgateway.Base.{
  arith, ◌-◌, ◌==◌, false, ℕ, zero, suc, ◌≡◌, inl, inr, refl, sym, ap, ◌∙◌, Bool, not, ◌&&◌, Option,
  none, some, List, [], ◌∷◌, Bool-cases, Outcome, ok, panic, diverge, ◌>>=◌, subst, Ensures,
  Ensures-bind, Ensures-if, Ensures-value,
}
use webircgateway.Text.Bytes.{Bytes, codes, equal, has_prefix}
use webircgateway.Gateway.Config.{Config, new_config}
use webircgateway.Gateway.Config.Paths.{set_config_file}
use webircgateway.Gateway.Config.Sections.{Sources}
use webircgateway.Gateway.Config.Load.{LoadError, load}
use webircgateway.Gateway.Config.Valid.{IsValid}
use webircgateway.Gateway.Config.Loaded.{load-IsValid, new_config-IsValid}
use webircgateway.Gateway.Server.{
  Gateway, new_gateway, HttpServer, start_wait, start_gateway, close_gateway,
}
use webircgateway.Program.{
  load_plugins, sigint, sighup, on_signal, ProcessState, alive, ended, held, settle, ProcessEvent,
  received, released, on_event, on_events, Program, exits, runs, Process, after_load, run_gateway,
  main,
}
use webircgateway.Gateway.Server.Starts.{Same, any_result, start_gateway-Same}

>>=-ok : {A : Type 0} (o : Outcome A) → (o >>= ok) ≡ o
>>=-ok (ok a) = refl
>>=-ok panic = refl
>>=-ok diverge = refl

>>=-assoc :
    {A B C : Type 0} (o : Outcome A) (f : A → Outcome B) (k : B → Outcome C)
    → (o >>= λ a. f a >>= k) ≡ ((o >>= f) >>= k)
>>=-assoc (ok a) f k = refl
>>=-assoc panic f k = refl
>>=-assoc diverge f k = refl

abbrev FreshProgram : Program → Type 0
FreshProgram (exits n) = Unit
FreshProgram (runs g plugins) = IsValid g.config × (g.close_wg ≡ 1) × (g.closed_srvs ≡ [])

started :
    (c : Config)
    → IsValid c
    → (g : Gateway) → Same (start_wait (new_gateway c)) g
    → IsValid g.config × (g.close_wg ≡ 1) × (g.closed_srvs ≡ [])
unfolding Same new_gateway
started c v g (a, b, d) = (subst IsValid (sym a) v, b, d)

after_load-Fresh :
    (p : Process) (function : Bytes) (r : Config × Option LoadError)
    → IsValid (r.0)
    → Ensures (after_load p function r) FreshProgram
unfolding after_load
after_load-Fresh p function (c, some e) v = tt
after_load-Fresh p function (c, none) v =
    Ensures-bind (λ _. Unit) FreshProgram (load_plugins p.open_plugin c c.plugins)
      (λ plugins.
        start_gateway p.loads_key_pair function (new_gateway c) >>= λ g. ok (runs g plugins))
      (any_result (load_plugins p.open_plugin c c.plugins))
      (λ plugins _.
        Ensures-bind (Same (start_wait (new_gateway c))) FreshProgram
          (start_gateway p.loads_key_pair function (new_gateway c)) (λ g. ok (runs g plugins))
          (start_gateway-Same p.loads_key_pair function (new_gateway c)) (started c v))

set_config_file-IsValid :
    (cwd file : Bytes) (c : Config) → IsValid c → IsValid (set_config_file cwd file c)
unfolding set_config_file
set_config_file-IsValid cwd file c v = elim (Bool-cases (has_prefix file (codes "$ "))) [
  | inl e ↦ rw e v
  | inr e ↦ rw e v
]

main-Fresh :
    (p : Process) (v : Bool) (file section : Bytes) → Ensures (main p v file section) FreshProgram
unfolding main run_gateway
main-Fresh p v file section = Ensures-if FreshProgram v (ok (exits 0)) _ tt (
    Ensures-if FreshProgram
      (not (equal section (codes "gateway")) && not (equal section (codes "proxy"))) (ok (exits 1))
      (run_gateway p file section) tt
      (after_load-Fresh p section (load p.sources (set_config_file p.cwd file new_config)) (
        load-IsValid p.sources (set_config_file p.cwd file new_config)
          (set_config_file-IsValid p.cwd file new_config new_config-IsValid))))

-- The options after a number of reloads.
unfoldable pub reloaded : Sources → ℕ → Config → Config
reloaded src zero c = c
reloaded src (suc n) c = (load src (reloaded src n c)).0

reloaded-IsValid : (src : Sources) (n : ℕ) (c : Config) → IsValid c → IsValid (reloaded src n c)
unfolding reloaded
reloaded-IsValid src zero c v = v
reloaded-IsValid src (suc n) c v = load-IsValid src (reloaded src n c) (reloaded-IsValid src n c v)

-- Where a process stands, behind a number of reloads: it serves, and main waits for n things besides Close; or its
-- servers are closed, and main waits for n + 1 things; or it is over; or it has panicked.
pub data Phase : Type 0 where
  serving closing : ℕ → ℕ → Phase
  over : ℕ → Phase
  crashed : Phase

unfoldable pub phase_step : ProcessEvent → Phase → Phase
phase_step (received sighup) (serving r n) = serving (suc r) n
phase_step (received sigint) (serving r zero) = over r
phase_step (received sigint) (serving r (suc n)) = closing r n
phase_step released (serving r zero) = crashed
phase_step released (serving r (suc n)) = serving r n
phase_step (received sighup) (closing r n) = closing (suc r) n
phase_step (received sigint) (closing r n) = crashed
phase_step released (closing r zero) = over r
phase_step released (closing r (suc n)) = closing r n
phase_step e (over r) = over r
phase_step e crashed = crashed

unfoldable pub phases : List ProcessEvent → Phase → Phase
unfolding phase_step
phases [] p = p
phases (e ∷ events) p = phases events (phase_step e p)

-- The gateway g with its options reloaded, and with its servers closed.
abbrev pub serves : Sources → Gateway → ℕ → Gateway
serves src g r = record g { config = reloaded src r g.config }

abbrev pub stopped : Sources → Gateway → ℕ → Gateway
stopped src g r = record g {
  config = reloaded src r g.config;
  closed_srvs = g.http_srvs;
  close_wg = 0;
}

-- The state of a process that started with g, in a phase.
unfoldable pub realise : Sources → Gateway → Phase → Outcome ProcessState
realise src g (serving r n) = ok (alive n (serves src g r))
realise src g (closing r n) = ok (alive (suc n) (stopped src g r))
realise src g (over r) = ok (ended (stopped src g r))
realise src g crashed = panic

-- A gateway that was just started.
abbrev fresh : Config → List Bytes → List HttpServer → Gateway
fresh c routes srvs = record {
  config = c;
  routes = routes;
  http_srvs = srvs;
  closed_srvs = [];
  close_wg = 1;
}

suc_ne_zero : (n : ℕ) → (suc n == 0) ≡ false
suc_ne_zero n = ground arith

suc_minus : (n : ℕ) → suc (suc n) - 1 ≡ suc n
suc_minus n = omega arith

module _ (src : Sources) (c : Config) (routes : List Bytes) (srvs : List HttpServer) where
  realise-phase_step :
      (e : ProcessEvent) (p : Phase)
      → (realise src (fresh c routes srvs) p >>= on_event src e)
        ≡ realise src (fresh c routes srvs) (phase_step e p)
  unfolding realise phase_step on_event on_signal settle reloaded close_gateway
  realise-phase_step (received sighup) (serving r zero) = refl
  realise-phase_step (received sighup) (serving r (suc n)) = rw (suc_ne_zero n) refl
  realise-phase_step (received sigint) (serving r zero) = refl
  realise-phase_step (received sigint) (serving r (suc n)) = rw (suc_ne_zero n) refl
  realise-phase_step released (serving r zero) = refl
  realise-phase_step released (serving r (suc zero)) = refl
  realise-phase_step released (serving r (suc (suc n))) =
      rw (suc_ne_zero (suc n)) (rw (suc_minus n) (rw (suc_ne_zero n) refl))
  realise-phase_step (received sighup) (closing r n) = rw (suc_ne_zero n) refl
  realise-phase_step (received sigint) (closing r n) = refl
  realise-phase_step released (closing r zero) = refl
  realise-phase_step released (closing r (suc n)) =
      rw (suc_ne_zero (suc n)) (rw (suc_minus n) (rw (suc_ne_zero n) refl))
  realise-phase_step (received sighup) (over r) = refl
  realise-phase_step (received sigint) (over r) = refl
  realise-phase_step released (over r) = refl
  realise-phase_step e crashed = refl

  realise-phases :
      (events : List ProcessEvent) (p : Phase)
      → (realise src (fresh c routes srvs) p >>= on_events src events)
        ≡ realise src (fresh c routes srvs) (phases events p)
  unfolding on_events phases
  realise-phases [] p = >>=-ok (realise src (fresh c routes srvs) p)
  realise-phases (e ∷ events) p =
      >>=-assoc (realise src (fresh c routes srvs) p) (on_event src e) (on_events src events)
      ∙ ap (λ o. o >>= on_events src events) (realise-phase_step e p)
      ∙ realise-phases events (phase_step e p)

-- A process that main leaves running refines a machine of four phases, through any signals, ends of plugins and an end of
-- the proxy's listener. While it serves, each SIGHUP loads the options once more. A SIGINT closes the HTTP servers that
-- were started, each once and in their order, and ends the process if main waits for no plugin and no listener; otherwise
-- it goes on, with its reloads, until the last of them ends, and a second SIGINT panics, as does an
-- end of a plugin while main waits for none. The options stay valid
-- throughout.
pub signals_lem :
    (p : Process) (v : Bool) (file section : Bytes) (g : Gateway) (plugins : List Bytes)
    (events : List ProcessEvent)
    → main p v file section ≡ ok (runs g plugins)
    → (on_events p.sources events (alive (held section plugins) g)
        ≡ realise p.sources g (phases events (serving 0 (held section plugins))))
      × ((r : ℕ) → IsValid (reloaded p.sources r g.config))
signals_lem p v file section g plugins events e =
    let (valid, one, none_closed) =
      Ensures-value FreshProgram (main p v file section) (runs g plugins)
        (main-Fresh p v file section) e in
    let n = held section plugins in
    let src = p.sources in
    let started : fresh g.config g.routes g.http_srvs ≡ g = rw (one, none_closed) refl in
    let refines : on_events src events (alive n (fresh g.config g.routes g.http_srvs))
        ≡ realise src (fresh g.config g.routes g.http_srvs) (phases events (serving 0 n)) =
      unfold realise reloaded in
      realise-phases src g.config g.routes g.http_srvs events (serving 0 n) in
    (
      subst (λ g. on_events src events (alive n g) ≡ realise src g (phases events (serving 0 n)))
          started refines,
      λ r. reloaded-IsValid src r g.config valid,
    )
