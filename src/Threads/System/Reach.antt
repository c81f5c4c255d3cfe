-- ===== src/Threads/System/Reach.antt =====
-- mod_janus.c: the session ids are consistent in every state that the system reaches.
use mod_janus.Base.{refl, ℕ, String, ◌≡◌, ◌≢◌, Option, Status, some, arith, Option-cases, inl, inr}
use mod_janus.Base.Dict.{id_eq, find}
use mod_janus.Hash.{JanusId}
use mod_janus.Json.{JsonLib}
use mod_janus.Servers.{Server}
use mod_janus.Calls.{Env}
use mod_janus.Calls.Joined.{ConfigureArgs}
use mod_janus.Calls.Channel.{find_session}
use mod_janus.Calls.Methods.{RoomArgs, JoinArgs}
use mod_janus.Polling.Isolation.{handle_events-globals}
use mod_janus.Threads.System.{
  System, Step, connects, polls, ends, stops, runs, registers, evicts, verifies, dials, calls_back,
  debugs, does_io, IsInitial, Reachable, starts, goes_on,
}
use mod_janus.Threads.System.Invariant.{IsConsistent, id_of}
use mod_janus.Threads.System.Connect.{outer-IsConsistent}
use mod_janus.Threads.System.Leave.{ends-IsConsistent, polls-IsConsistent}
use mod_janus.Threads.System.Stop.{stops-IsConsistent}
use mod_janus.Threads.System.Registry.{
  Keeps-IsConsistent, runs-IsConsistent, registers-IsConsistent, evicts-IsConsistent,
  verifies-IsConsistent,
}
use mod_janus.Threads.System.Callbacks.{
  calls_back-IsConsistent, io-IsConsistent, dials-IsConsistent,
}

module _ (configure : Server → ConfigureArgs → Status) (envs : ℕ → Env) (c : JsonLib)
    (get_sender_id : Server → JanusId → Option String → JanusId)
    (create_room : Server → RoomArgs → JanusId) (join : Server → JoinArgs → Status) where
  Step-IsConsistent :
      (s s' : System)
      → Step configure envs c get_sender_id create_room join s s'
      → IsConsistent s
      → IsConsistent s'
  Step-IsConsistent s s' (connects p t lost fresh) k = outer-IsConsistent t s p lost fresh k
  Step-IsConsistent s s' (polls p status events w live h) k =
      polls-IsConsistent s p status w (handle_events-globals configure envs c events s.world w h) k
  Step-IsConsistent s s' (ends p) k = ends-IsConsistent s p k
  Step-IsConsistent s s' (stops p) k = stops-IsConsistent s p k
  Step-IsConsistent s s' (runs force p) k = runs-IsConsistent s force p k
  Step-IsConsistent s s' (registers now defaults x) k = registers-IsConsistent s now defaults x k
  Step-IsConsistent s s' (evicts p) k = evicts-IsConsistent s p k
  Step-IsConsistent s s' (verifies fetch now p) k = verifies-IsConsistent c fetch now s p k
  Step-IsConsistent s s' (dials p q alloc_ok rest t new h) k = dials-IsConsistent s q t k
  Step-IsConsistent s s' (calls_back e a b column q status w h) k =
      calls_back-IsConsistent get_sender_id create_room join s e a b column q status w h k
  Step-IsConsistent s s' (debugs on) k =
      Keeps-IsConsistent s (record s.world.globals { debug = on }) (refl, λ q. inl refl) k
  Step-IsConsistent s s' (does_io e routine q) k = io-IsConsistent s e routine q k

  initial-IsConsistent : (s : System) → IsInitial s → IsConsistent s
  initial-IsConsistent s i = record {
    held = λ id p f. absurd (ground (arith, f, i.none_known id));
    known = λ p o h. absurd (o (i.none_held p));
    distinct = λ p q o e. absurd (o (i.none_held p));
    unused = λ p q o e. absurd (o (i.none_held p));
  }

  Reachable-IsConsistent :
      (s : System) → Reachable configure envs c get_sender_id create_room join s → IsConsistent s
  Reachable-IsConsistent s (starts _ i) = initial-IsConsistent s i
  Reachable-IsConsistent s (goes_on s0 _ r step) =
      Step-IsConsistent s0 s step (Reachable-IsConsistent s0 r)

  -- However the turns of the server threads, the starts and stops of threads, the events, the work
  -- of the registry on pods and on servers that are gone, the identity checks, the dialling of calls
  -- and all that FreeSWITCH calls for a session interleave, from a state without sessions: while the
  -- thread of a server has a session and the server has a session id, that id is the thread's, the
  -- table of ids leads from it to this server, and no other thread holds it. A Janus server is taken
  -- to give no session id that another thread or server of the module has.
  pub Reachable-session :
      (s : System) (p : ℕ)
      → Reachable configure envs c get_sender_id create_room join s
      → s.own p ≢ 0
      → id_of s p ≢ 0
      → (id_of s p ≡ s.own p)
        × (find s.world.globals.by_id (id_of s p) ≡ some p)
        × ((q : ℕ) → s.own q ≡ id_of s p → q ≡ p)
  Reachable-session s p r some_own some_id =
      let k = Reachable-IsConsistent s r in
      let (same, found) = k.known p some_own some_id in
      (same, ground (arith, same, found), λ q e. k.distinct p q some_own (ground (arith, e, same)))

  -- In every such state a handler that finds a session by the two ids of an event has found it in
  -- the server whose thread holds the first id, which is not 0.
  pub Reachable-find_session :
      (s : System) (id sender : JanusId) (p q : ℕ)
      → Reachable configure envs c get_sender_id create_room join s
      → find_session s.world id sender ≡ some (p, q)
      → (id ≢ 0) × (s.own p ≡ id) × (find (s.world.globals.heap p).sender_id_lookup sender ≡ some q)
  unfolding find_session
  Reachable-find_session s id sender p q r h =
      let k = Reachable-IsConsistent s r in
      elim (Option-cases (find s.world.globals.by_id id)) [
        | inl e ↦ absurd (ground (arith, h, e))
        | inr (p', e) ↦
            elim (Option-cases (find (s.world.globals.heap p').sender_id_lookup sender)) [
              | inl f ↦ absurd (ground (arith, h, e, f))
              | inr (q', f) ↦ ground (arith, h, e, f, k.held id p')
            ]
      ]
