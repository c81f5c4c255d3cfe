-- ===== src/Module/Tests.antt =====
-- The load of a configuration with one server, and commands at it.
use mod_janus.Base.{
  arith, decimal, String, Status, ◌≡◌, refl, true, false, Option, none, some, [], ◌∷◌, inl, success,
}
use mod_janus.Base.Dict.{id_eq, name_eq, find, insert}
use mod_janus.Servers.Add.{Param, Site}
use mod_janus.Config.{ConfigXml, load_config}
use mod_janus.Module.{module_load, blank, janus_api_commands, unknown_server, summary}
use mod_janus.Module.Started.{module_load-Runs}
use mod_janus.Calls.Samples.{no_servers, idle, quiet}
use mod_janus.Calls.{answers}
use mod_janus.Calls.Joined.{ConfigureArgs}
use mod_janus.Calls.Methods.{RoomArgs, JoinArgs}
use mod_janus.Hash.{JanusId}
use mod_janus.Json.Small.{json_lib}
use mod_janus.Servers.{Server}
use mod_janus.Threads.{start_server_thread}
use mod_janus.Threads.System.{System, IsInitial, starts}
use mod_janus.Module.Initial.{module_load-IsInitial}
use mod_janus.Module.Commands.{told, janus_api_commands-Switches}

abbrev site : Site
site = record {
  switch_true = λ v. true;
  interface_ip = λ name family. none;
  max_cand_acl = 25;
  has_ws = true;
}

abbrev url_param : Param
url_param = record { name = "url"; value = "http://10.0.0.7:8088/janus" }

abbrev enabled_param : Param
enabled_param = record { name = "enabled"; value = "true" }

abbrev one_server : Option ConfigXml
one_server = some (record {
  settings = [];
  servers = record { name = "janus-0"; params = url_param ∷ enabled_param ∷ [] } ∷ [];
})

module_load-Runs_example :
    (((module_load site one_server true "10.0.0.1").1.heap 0).thread
      ≡ ((load_config site one_server (blank "10.0.0.1")).1.heap 0).enabled)
    × (((module_load site one_server true "10.0.0.1").1.heap 0).enabled
        ≡ ((load_config site one_server (blank "10.0.0.1")).1.heap 0).enabled)
unfolding module_load load_config find insert
module_load-Runs_example =
    module_load-Runs site one_server "10.0.0.1" "janus-0" 0 (inl (refl, refl))

unknown_name :
    janus_api_commands (λ v. true) (λ p. 0) false ("SERVER" ∷ "janus-9" ∷ "enable" ∷ []) no_servers
    ≡ (success, (some (unknown_server "janus-9"), no_servers))
unfolding janus_api_commands find
unknown_name = refl

-- the module after its load
abbrev loaded : System
loaded = record {
  world = record {
    globals = (module_load site one_server true "10.0.0.1").1;
    sessions = λ q. idle;
  };
  own = λ p. 0;
}

module_load-IsInitial_example : IsInitial loaded
unfolding answers
module_load-IsInitial_example =
    module_load-IsInitial site one_server "10.0.0.1" (λ q. idle) (λ q. refl) (λ q. refl)

abbrev accepts : Server → ConfigureArgs → Status
accepts server args = success

abbrev attaches : Server → JanusId → Option String → JanusId
attaches server id call = 88

abbrev creates : Server → RoomArgs → JanusId
creates server args = 1

abbrev joins : Server → JoinArgs → Status
joins server args = success

loaded-IsInitial : IsInitial loaded
unfolding answers
loaded-IsInitial =
    module_load-IsInitial site one_server "10.0.0.1" (λ q. idle) (λ q. refl) (λ q. refl)

janus_api_commands-Switches_example :
    let g = loaded.world.globals in
    let on = told (λ v. true) loaded.own "janus-0" "enable" g in
    let off = told (λ v. true) loaded.own "janus-0" "disable" g in
    ((on.heap 0).enabled ≡ true)
    × ((on.heap 0).thread ≡ true)
    × ((off.heap 0).thread ≡ false)
    × (on.heap 1 ≡ g.heap 1)
    × (off.heap 1 ≡ g.heap 1)
unfolding module_load load_config find insert start_server_thread
janus_api_commands-Switches_example =
    janus_api_commands-Switches accepts (λ q. quiet) json_lib attaches creates joins (λ v. true)
      loaded "janus-0" 0 1 (starts loaded loaded-IsInitial) refl (omega arith)

-- the thread did run before
was_running : (loaded.world.globals.heap 0).thread ≡ true
unfolding module_load load_config find insert start_server_thread
was_running = refl

-- what `janus list` prints then
listed : janus_api_commands (λ v. true) (λ p. 0) false ("list" ∷ []) loaded.world.globals ≡ (
  success,
  (
    some (
        summary (
          "name|enabled|registry|pod_ip|url|totalCalls|callsInProgress|started|id\n"
          ∷ "janus-0|true|false||http://10.0.0.7:8088/janus|0|0|0|0\n" ∷ [])),
    loaded.world.globals,
  ),
)
unfolding janus_api_commands module_load load_config find insert start_server_thread decimal
listed = refl
