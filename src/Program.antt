-- ===== src/Program.antt =====
-- main.go: the flags, the configuration, the plugins and the process signals. Logging is left out.
pub mod Signals
mod Tests
use webircgateway.Base.{
  ℕ, ◌+◌, ◌-◌, ◌==◌, panic, length, Bool, not, ◌&&◌, Option, none, some, List, [], ◌∷◌, ◌++◌,
  if◌then◌else◌, Outcome, ok, ◌>>=◌,
}
use webircgateway.Text.Bytes.{Bytes, codes, equal}
use webircgateway.Gateway.Config.{Config, new_config}
use webircgateway.Gateway.Config.Paths.{resolve_path, set_config_file}
use webircgateway.Gateway.Config.Sections.{Sources}
use webircgateway.Gateway.Config.Load.{LoadError, load}
use webircgateway.Gateway.Server.{Gateway, new_gateway, start_gateway, close_gateway}

-- A plugin's file: plugin.Open fails, or it has no Start, or it has one.
pub data PluginFile : Type 0 where
  unreadable startless startable : PluginFile

abbrev started_by : PluginFile → Bytes → List Bytes
started_by unreadable path = []
started_by startless path = []
started_by startable path = path ∷ []

-- loadPlugins, with the paths of the plugins that were started; pluginsQuit counts them.
unfoldable pub load_plugins : (Bytes → PluginFile) → Config → List Bytes → Outcome (List Bytes)
unfolding resolve_path
load_plugins open_file c [] = ok []
load_plugins open_file c (plugin ∷ plugins) = resolve_path c plugin >>= λ path.
    load_plugins open_file c plugins >>= λ rest. ok (started_by (open_file path) path ++ rest)

pub data ProcessSignal : Type 0 where
  sigint sighup : ProcessSignal

-- One round of watchForSignals; a reload's error is not looked at.
unfoldable pub on_signal : Sources → ProcessSignal → Gateway → Outcome Gateway
unfolding close_gateway load
on_signal src sigint g = close_gateway g
on_signal src sighup g = ok (record g { config = (load src g.config).0 })

-- The end of main: os.Exit with a code, or a gateway that runs with its plugins.
pub data Program : Type 0 where
  exits : ℕ → Program
  runs : Gateway → List Bytes → Program

-- What the process has around it.
pub record Process : Type 0 where
  pub cwd : Bytes
  pub sources : Sources
  pub open_plugin : Bytes → PluginFile
  pub loads_key_pair : Bytes → Bytes → Bool

unfoldable pub after_load : Process → Bytes → Config × Option LoadError → Outcome Program
unfolding load_plugins start_gateway
after_load p function (c, some e) = ok (exits 1)
after_load p function (c, none) = load_plugins p.open_plugin c c.plugins >>= λ plugins.
    start_gateway p.loads_key_pair function (new_gateway c) >>= λ g. ok (runs g plugins)

unfoldable pub run_gateway : Process → Bytes → Bytes → Outcome Program
unfolding after_load load set_config_file
run_gateway p config_file function =
    after_load p function (load p.sources (set_config_file p.cwd config_file new_config))

-- main with its three flags
unfoldable pub main : Process → Bool → Bytes → Bytes → Outcome Program
unfolding run_gateway
main p print_version config_file start_section =
    let running = run_gateway p config_file start_section in
    if print_version
    then ok (exits 0)
    else if not (equal start_section (codes "gateway")) && not (equal start_section (codes "proxy"))
    then ok (exits 1)
    else running

-- A process behind Start. It is alive while main waits, for a number of plugins, in pluginsQuit.Wait, and for the proxy's
-- listener, in Start; and, behind these, for closeWg, in WaitClose. It has ended once main has returned.
pub data ProcessState : Type 0 where
  alive : ℕ → Gateway → ProcessState
  ended : Gateway → ProcessState

-- What main waits for at first, besides closeWg; Start does not return in the section "proxy".
unfoldable pub held : Bytes → List Bytes → ℕ
held function plugins = length plugins + (if equal function (codes "proxy") then 1 else 0)

-- The end of runGateway: pluginsQuit.Wait and WaitClose, where main returns as soon as it can.
unfoldable pub settle : ℕ → Gateway → ProcessState
settle n g = if n == 0 && g.close_wg == 0 then ended g else alive n g

-- A signal, or the end of a plugin or of the proxy's listener.
pub data ProcessEvent : Type 0 where
  received : ProcessSignal → ProcessEvent
  released : ProcessEvent

-- A Done on a counter of 0 panics; main's return ends watchForSignals.
unfoldable pub on_event : Sources → ProcessEvent → ProcessState → Outcome ProcessState
unfolding on_signal settle
on_event src e (ended g) = ok (ended g)
on_event src (received s) (alive n g) = on_signal src s g >>= λ g. ok (settle n g)
on_event src released (alive n g) = if n == 0 then panic else ok (settle (n - 1) g)

unfoldable pub on_events : Sources → List ProcessEvent → ProcessState → Outcome ProcessState
unfolding on_event
on_events src [] s = ok s
on_events src (e ∷ events) s = on_event src e s >>= on_events src events
