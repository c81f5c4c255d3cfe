-- ===== src/Module/Commands.antt =====
-- mod_janus.c: what `janus server <name> enable` and `disable` do to a module that runs.
use mod_janus.Base.{
  ℕ, String, ◌≡◌, ◌≢◌, refl, Bool, true, false, not, ◌||◌, Option, some, [], ◌∷◌, ◌∙◌, ap, arith,
  ==_iff, Status,
}
use mod_janus.Base.Dict.{id_eq, name_eq, find}
use mod_janus.Base.Dict.Entries.{find-In}
use mod_janus.Hash.{JanusId}
use mod_janus.Json.{JsonLib}
use mod_janus.Servers.{Server, Globals, store}
use mod_janus.Calls.{Env}
use mod_janus.Calls.Joined.{ConfigureArgs}
use mod_janus.Calls.Methods.{RoomArgs, JoinArgs}
use mod_janus.Threads.{start_server_thread, stop_server_thread}
use mod_janus.Threads.Sound.Halts.{haltable, stop-halts, stop-elsewhere}
use mod_janus.Threads.System.{System, Reachable}
use mod_janus.Threads.System.Flags.{Reachable-IsSound}
use mod_janus.Module.{server_command, janus_api_commands}

-- the module's state after `janus server <name> <action>`, for the session ids of the threads
abbrev pub told : (String → Bool) → (ℕ → JanusId) → String → String → Globals → Globals
told switch_true own name action g =
    (janus_api_commands switch_true own false ("server" ∷ name ∷ action ∷ []) g).1.1

-- the two commands at a name of the table
told-enable :
    (switch_true : String → Bool) (own : ℕ → JanusId) (name : String) (p : ℕ) (g : Globals)
    → find g.by_name name ≡ some p
    → told switch_true own name "enable" g ≡ (start_server_thread false g p).1
unfolding janus_api_commands server_command
told-enable switch_true own name p g h = rw (told, h, server_command) refl

told-disable :
    (switch_true : String → Bool) (own : ℕ → JanusId) (name : String) (p : ℕ) (g : Globals)
    → find g.by_name name ≡ some p
    → told switch_true own name "disable" g ≡ stop_server_thread (own p) g p
unfolding janus_api_commands server_command
told-disable switch_true own name p g h = rw (told, h, server_command) refl

-- what a start makes of a server
start-runs :
    (g : Globals) (p : ℕ)
    → let g' = (start_server_thread false g p).1 in
      ((g'.heap p).enabled ≡ true)
      × ((g'.heap p).thread ≡ ((g.heap p).thread || not (g.heap p).enabled))
unfolding start_server_thread store
start-runs g p = ground (arith, ==_iff p p)

start-elsewhere :
    (g : Globals) (p q : ℕ) → q ≢ p → (start_server_thread false g p).1.heap q ≡ g.heap q
unfolding start_server_thread store
start-elsewhere g p q far = ground (arith, far, ==_iff p q)

module _ (configure : Server → ConfigureArgs → Status) (envs : ℕ → Env) (c : JsonLib)
    (get_sender_id : Server → JanusId → Option String → JanusId)
    (create_room : Server → RoomArgs → JanusId) (join : Server → JoinArgs → Status) where
  -- However the module has run, and for a name in its table: after `janus server <name> enable` the
  -- server is enabled, and it has a thread if it had one or was not enabled before; after `janus
  -- server <name> disable` it has no thread. Neither command changes another server.
  pub janus_api_commands-Switches :
      (switch_true : String → Bool) (s : System) (name : String) (p q : ℕ)
      → Reachable configure envs c get_sender_id create_room join s
      → find s.world.globals.by_name name ≡ some p
      → q ≢ p
      → let g = s.world.globals in
        let on = told switch_true s.own name "enable" g in
        let off = told switch_true s.own name "disable" g in
        ((on.heap p).enabled ≡ true)
        × ((on.heap p).thread ≡ ((g.heap p).thread || not (g.heap p).enabled))
        × ((off.heap p).thread ≡ false)
        × (on.heap q ≡ g.heap q)
        × (off.heap q ≡ g.heap q)
  janus_api_commands-Switches switch_true s name p q r h far =
      let g = s.world.globals in
      let sound = Reachable-IsSound configure envs c get_sender_id create_room join s r in
      let fits = sound.all_fit name p (find-In g.by_name name p h) in
      let haltable_p : haltable (g.heap p) ≡ true = ground (arith, fits) in
      let on = told-enable switch_true s.own name p g h in
      let off = told-disable switch_true s.own name p g h in
      let (enabled, thread) = start-runs g p in
      (
        ap (λ x. (x.heap p).enabled) on ∙ enabled,
        ap (λ x. (x.heap p).thread) on ∙ thread,
        ap (λ x. (x.heap p).thread) off ∙ stop-halts (s.own p) g p haltable_p,
        ap (λ x. x.heap q) on ∙ start-elsewhere g p q far,
        ap (λ x. x.heap q) off ∙ stop-elsewhere (s.own p) g p q far,
      )
