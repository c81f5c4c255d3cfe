-- ===== src/Threads/System/Flags.antt =====
-- mod_janus.c: the table of names is sound in every state that the system reaches.
use mathlib.Core.Path.{subst}
use mod_janus.Base.{refl, ℕ, String, sym, Option, Status}
use mod_janus.Hash.{JanusId}
use mod_janus.Json.{JsonLib}
use mod_janus.Servers.{Server}
use mod_janus.Calls.{Env}
use mod_janus.Calls.Joined.{ConfigureArgs}
use mod_janus.Calls.Channel.{put_session}
use mod_janus.Calls.Methods.{RoomArgs, JoinArgs, on_routing}
use mod_janus.Calls.Callbacks.{on_destroy}
use mod_janus.Calls.Callbacks.Rule.{handler-holds}
use mod_janus.Polling.Isolation.{handle_events-globals}
use mod_janus.Threads.{thread_done}
use mod_janus.Threads.Loop.{outer_turn, inner_turn}
use mod_janus.Threads.Sound.{IsSound, Steady, Steady-IsSound, Steady-refl, same-Steady}
use mod_janus.Threads.Sound.Steps.{
  start-IsSound, thread_end-IsSound, stop-IsSound, evict-IsSound, verify-IsSound,
}
use mod_janus.Threads.Sound.Turns.{outer-Steady, inner-Steady, init-Steady, hangup-Steady}
use mod_janus.Threads.Sound.Pods.{register-IsSound}
use mod_janus.Threads.System.{
  System, hold, Step, connects, polls, ends, stops, runs, registers, evicts, verifies, dials,
  calls_back, debugs, does_io, Reachable, starts, goes_on,
}
use mod_janus.Threads.System.Callbacks.{routing-globals, io-globals}

module _ (configure : Server → ConfigureArgs → Status) (envs : ℕ → Env) (c : JsonLib)
    (get_sender_id : Server → JanusId → Option String → JanusId)
    (create_room : Server → RoomArgs → JanusId) (join : Server → JoinArgs → Status) where
  Step-IsSound :
      (s s' : System)
      → Step configure envs c get_sender_id create_room join s s'
      → IsSound s.world.globals
      → IsSound s'.world.globals
  unfolding hold thread_done put_session on_destroy
  Step-IsSound s s' (connects p t lost fresh) k =
      Steady-IsSound s.world.globals (outer_turn t s.world p (s.own p)).world.globals
        (outer-Steady t s.world p (s.own p)) k
  Step-IsSound s s' (polls p status events w live h) k =
      Steady-IsSound w.globals (inner_turn status w p (s.own p)).globals
        (inner-Steady status w p (s.own p))
        (subst IsSound (sym (handle_events-globals configure envs c events s.world w h)) k)
  Step-IsSound s s' (ends p) k = thread_end-IsSound s.world.globals p (s.own p) k
  Step-IsSound s s' (stops p) k = stop-IsSound (s.own p) s.world.globals p k
  Step-IsSound s s' (runs force p) k = start-IsSound force s.world.globals p k
  Step-IsSound s s' (registers now defaults x) k = register-IsSound now defaults x s.world.globals k
  Step-IsSound s s' (evicts p) k = evict-IsSound s.own s.world.globals p k
  Step-IsSound s s' (verifies fetch now p) k = verify-IsSound c fetch now s.world.globals p k
  Step-IsSound s s' (dials p q alloc_ok rest t new h) k = k
  Step-IsSound s s' (calls_back e a b column q status w h) k =
      let v = s.world in
      Steady-IsSound v.globals w.globals
        (handler-holds (λ u. Steady v.globals u.globals) get_sender_id create_room join e a b v q
          column status w (Steady-refl v.globals) (init-Steady get_sender_id create_room e v q)
          (same-Steady v.globals (on_routing join e v q).1.globals (routing-globals join e v q))
          (hangup-Steady e v q) (Steady-refl v.globals) h)
        k
  Step-IsSound s s' (debugs on) k =
      Steady-IsSound s.world.globals (record s.world.globals { debug = on })
        (record { next = refl; names = λ q. refl; flags = λ q. refl; tables = refl }) k
  Step-IsSound s s' (does_io e routine q) k = subst IsSound (sym (io-globals e routine s.world q)) k

  -- In every state that is reached, the table of names is in order, and each server that it leads to
  -- is not being stopped and is enabled if it has a thread.
  pub Reachable-IsSound :
      (s : System)
      → Reachable configure envs c get_sender_id create_room join s
      → IsSound s.world.globals
  Reachable-IsSound s (starts _ i) = i.sound
  Reachable-IsSound s (goes_on s0 _ r step) = Step-IsSound s0 s step (Reachable-IsSound s0 r)
