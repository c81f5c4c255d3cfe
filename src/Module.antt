-- ===== src/Module.antt =====
-- mod_janus.c: mod_janus_load, mod_janus_shutdown and the console command. `own_id` gives the session
-- id that the thread of each server holds. The interfaces that the load registers with FreeSWITCH have
-- no state here.
pub mod Started
pub mod Initial
pub mod Stopped
pub mod Commands
mod Tests
use mod_janus.Base.{
  ℕ, String, Bool, true, false, not, ◌&&◌, Option, none, some, List, [], ◌∷◌, if◌then◌else◌,
  is_some, Status, success, failed,
}
use mod_janus.Base.Dict.{Dict, id_eq, name_eq, find}
use mod_janus.Hash.{JanusId}
use mod_janus.Servers.{Server, Globals, zeroed}
use mod_janus.Servers.Add.{Site, behind, same_text, start_registry, stop_registry}
use mod_janus.Servers.Summary.{servers_summary}
use mod_janus.Threads.{start_server_thread, stop_server_thread}
use mod_janus.Config.{ConfigXml, load_config}

-- `globals` as memset leaves it, with the local address
abbrev pub blank : String → Globals
blank guess_ip = record {
  heap = λ p. zeroed;
  next = 0;
  by_name = [];
  by_id = [];
  headless_service_url = none;
  registry_refresh_sec = 0;
  pod_server_fail_max = 0;
  pod_defaults = none;
  start_bound = false;
  stop_bound = false;
  total_calls = 0;
  calls_in_progress = 0;
  guess_ip = guess_ip;
  debug = false;
  registry_thread = false;
  registry_terminating = false;
}

-- a server of the loop that starts the threads
unfoldable pub start_one : Globals → ℕ → Globals
unfolding start_server_thread
start_one g p =
    let s = g.heap p in if s.enabled && not s.dynamic then (start_server_thread true g p).1 else g

unfoldable pub start_all : Dict String ℕ → Globals → Globals
unfolding start_one
start_all [] g = g
start_all ((k, p) ∷ servers) g = start_all servers (start_one g p)

-- mod_janus_load: what load_config returns is not used. `hash_ok` is the outcome of hashCreate.
unfoldable pub module_load : Site → Option ConfigXml → Bool → String → Status × Globals
unfolding load_config start_all start_registry
module_load site xml hash_ok guess_ip =
    let g = (load_config site xml (blank guess_ip)).1 in
    let bound = record g { start_bound = true; stop_bound = true } in
    if hash_ok then (success, start_registry (start_all bound.by_name bound)) else (failed, g)

-- the loop of mod_janus_shutdown over the servers of the table as it is when the loop begins
unfoldable pub stop_all : (ℕ → JanusId) → Dict String ℕ → Globals → Globals
unfolding stop_server_thread
stop_all own_id [] g = g
stop_all own_id ((k, p) ∷ servers) g = stop_all own_id servers (stop_server_thread (own_id p) g p)

-- mod_janus_shutdown: the tables are freed behind the loop
unfoldable pub module_shutdown : (ℕ → JanusId) → Globals → Globals
unfolding stop_registry stop_all
module_shutdown own_id g =
    let g' = stop_registry g in record (stop_all own_id g'.by_name g') { by_id = []; by_name = [] }

-- What the console command prints.
pub data Reply : Type 0 where
  usage debug_usage server_usage ok : Reply
  summary : List String → Reply
  totals : ℕ → ℕ → Reply
  unknown_server : String → Reply

-- `janus server <name> enable` and `disable`
unfoldable pub server_command : (ℕ → JanusId) → String → String → Globals → Reply × Globals
unfolding behind start_server_thread stop_server_thread
server_command own_id name action g = elim (find g.by_name name) [
  | none ↦ (unknown_server name, g)
  | some p ↦
      if is_some (behind "enable" action)
      then (ok, (start_server_thread false g p).1)
      else if is_some (behind "disable" action)
      then (ok, stop_server_thread (own_id p) g p)
      else (server_usage, g)
]

unfoldable pub debug_command : (String → Bool) → List String → Globals → Reply × Globals
debug_command switch_true [] g = (debug_usage, g)
debug_command switch_true (value ∷ more) g = (ok, record g { debug = switch_true value })

unfoldable pub server_words : (ℕ → JanusId) → List String → Globals → Reply × Globals
unfolding server_command
server_words own_id (name ∷ action ∷ more) g = server_command own_id name action g
server_words own_id _ g = (server_usage, g)

-- a command of at least one word
unfoldable pub run_command :
    (String → Bool) → (ℕ → JanusId) → String → List String → Globals → Reply × Globals
unfolding behind same_text debug_command server_words servers_summary
run_command switch_true own_id word more g =
    if is_some (behind "status" word)
    then (totals g.total_calls g.calls_in_progress, g)
    else if is_some (behind "debug" word)
    then debug_command switch_true more g
    else if same_text word "list"
    then (summary (servers_summary g), g)
    else if same_text word "server"
    then server_words own_id more g
    else (usage, g)

-- janus_api_commands on the words of the command; the empty list is also a command that is missing
-- or for which there is no memory. `in_session` is a call from a channel, which prints nothing.
unfoldable pub janus_api_commands :
    (String → Bool)
    → (ℕ → JanusId)
    → Bool
    → List String
    → Globals
    → Status × (Option Reply × Globals)
unfolding run_command
janus_api_commands switch_true own_id true words g = (success, (none, g))
janus_api_commands switch_true own_id false [] g = (failed, (some usage, g))
janus_api_commands switch_true own_id false (word ∷ more) g =
    let (reply, g') = run_command switch_true own_id word more g in (success, (some reply, g'))
