-- ===== src/Threads/System/Tests.antt =====
-- A server thread connects; a call is dialled and set up, and is answered by an event.
use mod_janus.Base.{
  ℕ, String, ◌≡◌, ◌≢◌, refl, true, Option, some, arith, ==_iff, [], ◌∷◌, or_else, false, Status,
  success, none, List, inl, inr, eq_iff,
}
use mod_janus.Base.Dict.{id_eq, name_eq, find, insert, delete}
use mod_janus.Api.Decode.{decode}
use mod_janus.Api.Dispatch.{dispatch_poll_event}
use mod_janus.Polling.Once.{count}
use mod_janus.Threads.System.Answers.{Reachable-answers}
use mod_janus.Hash.{JanusId}
use mod_janus.Json.Small.{Json, text, object, entry, end, json_lib, find_entry}
use mod_janus.Servers.{Server, Globals, zeroed}
use mod_janus.Servers.Refresh.{registry_refresh, new_endpoint, register, is_stale}
use mod_janus.Servers.Pods.{probe_pod}
use mod_janus.Servers.Names.{pod_name_valid}
use mod_janus.Threads.Registry.{bound_start}
use mod_janus.Threads.Refinement.{bound_stop}
use mod_janus.Threads.Refinement.Table.{IsTable}
use mod_janus.Calls.{answers}
use mod_janus.Calls.Channel.{World, put_session, answer_on_webrtcup, answered}
use mod_janus.Calls.Gate.{answered_session}
use mod_janus.Calls.Callbacks.{init, state_handler}
use mod_janus.Polling.{handle_events}
use mod_janus.Polling.Samples.{patient, webrtcup}
use mod_janus.Threads.Outgoing.{new_call, dial_room}
use mod_janus.Calls.Joined.{ConfigureArgs}
use mod_janus.Calls.Methods.{RoomArgs, JoinArgs, on_init}
use mod_janus.Calls.Samples.{quiet, idle, no_servers}
use mod_janus.Threads.{create_pass, start_server_thread, stop_server_thread}
use mod_janus.Threads.Loop.{Turn, outer_turn, inner_turn, connect_pass, start_polling, opening}
use mod_janus.Threads.System.{
  System, hold, IsFresh, IsInitial, IsUnknown, Reachable, starts, goes_on, connects, polls, dials,
  calls_back,
}
use mod_janus.Threads.System.Reach.{Reachable-session}

abbrev one_server : System
one_server = record {
  world = record {
    globals = record no_servers { heap = λ p. record zeroed { enabled = true }; next = 1 };
    sessions = λ q. idle;
  };
  own = λ p. 0;
}

abbrev turn : Turn
turn = record {
  open_ok = true;
  claim = success;
  visits = λ d. [];
  new_id = 7;
  insert_ok = true;
  now = 5;
}

abbrev connected : System
connected =
    hold one_server 0 (outer_turn turn one_server.world 0 0).own_id
      (outer_turn turn one_server.world 0 0).world

abbrev accepts : Server → ConfigureArgs → Status
accepts server args = success

abbrev attaches : Server → JanusId → Option String → JanusId
attaches server id call = 88

abbrev creates : Server → RoomArgs → JanusId
creates server args = 1

abbrev joins : Server → JoinArgs → Status
joins server args = success

seven : (id : ℕ) → id ≡ 7 → id ≢ 0
seven id h = omega arith

one_server-IsInitial : IsInitial one_server
unfolding find answers
one_server-IsInitial = record {
  none_held = λ q. refl;
  none_known = λ id. refl;
  sound = record { table = λ k p i. absurd i; all_fit = λ k p i. absurd i };
  untold = λ q. refl;
  undone = λ q. refl;
}

one_server-IsFresh : IsFresh one_server 7
one_server-IsFresh = record {
  unheld = λ q h. absurd (omega (arith, h));
  unused = λ q h. absurd (omega (arith, h));
}

connected-Reachable : Reachable accepts (λ q. patient) json_lib attaches creates joins connected
unfolding find
connected-Reachable =
    goes_on one_server connected (starts one_server one_server-IsInitial)
      (connects 0 turn refl (λ h. one_server-IsFresh))

Reachable-session_example :
    ((connected.world.globals.heap 0).server_id ≡ connected.own 0)
    × (find connected.world.globals.by_id (connected.world.globals.heap 0).server_id ≡ some 0)
    × ((q : ℕ) → connected.own q ≡ (connected.world.globals.heap 0).server_id → q ≡ 0)
unfolding hold outer_turn connect_pass start_polling opening create_pass
Reachable-session_example =
    Reachable-session accepts (λ q. patient) json_lib attaches creates joins connected 0
      connected-Reachable (seven (connected.own 0) refl)
      (seven (connected.world.globals.heap 0).server_id refl)

abbrev dialled : System
dialled = record connected { world = put_session connected.world 3 (new_call 7 "Ann" "9") }

abbrev attached : System
attached = record dialled { world = (on_init attaches creates quiet dialled.world 3).1 }

abbrev after_event : World
after_event =
    or_else (handle_events accepts (λ q. patient) json_lib (webrtcup ∷ []) attached.world)
      attached.world

abbrev polled : System
polled = hold attached 0 (attached.own 0) (inner_turn success after_event 0 (attached.own 0))

connected-IsUnknown : IsUnknown connected.world 3
unfolding hold outer_turn connect_pass start_polling opening create_pass find
connected-IsUnknown = record { unlisted = λ p id h. absurd (ground (arith, h, ==_iff 0 p)) }

dialled-Reachable : Reachable accepts (λ q. patient) json_lib attaches creates joins dialled
unfolding hold outer_turn connect_pass start_polling opening create_pass dial_room
dialled-Reachable =
    goes_on connected dialled connected-Reachable
      (dials 0 3 true "Ann@9" (new_call 7 "Ann" "9") connected-IsUnknown refl)

attached-Reachable : Reachable accepts (λ q. patient) json_lib attaches creates joins attached
unfolding state_handler
attached-Reachable = goes_on dialled attached dialled-Reachable (
    calls_back quiet false false init 3 (on_init attaches creates quiet dialled.world 3).0
      attached.world refl)

polled-Reachable : Reachable accepts (λ q. patient) json_lib attaches creates joins polled
unfolding on_init hold outer_turn connect_pass start_polling opening create_pass find insert
    handle_events decode find_entry dispatch_poll_event
polled-Reachable =
    goes_on attached polled attached-Reachable
      (polls 0 success (webrtcup ∷ []) after_event (λ h. absurd (ground (arith, h))) refl)

Reachable-answers_example :
    answers (polled.world.sessions 3).trace ≡ count (polled.world.sessions 3).answer_done
Reachable-answers_example =
    Reachable-answers accepts (λ q. patient) json_lib attaches creates joins polled 3
      polled-Reachable

-- the call was told to answer
told_once : answers (polled.world.sessions 3).trace ≡ 1
unfolding on_init hold outer_turn connect_pass start_polling opening create_pass find insert
    handle_events decode find_entry dispatch_poll_event answers inner_turn answer_on_webrtcup
    answered answered_session
told_once = refl

abbrev gone : Server
gone = record zeroed { name = "janus-9"; enabled = true; dynamic = true }

-- a server whose pod is gone, and a service that resolves to another pod
abbrev headless : Globals
headless = record no_servers {
  heap = λ p. gone;
  next = 1;
  by_name = ("janus-9", 0) ∷ [];
  headless_service_url = some "http://janus.svc:8088/janus";
  pod_defaults = some zeroed;
}

abbrev info : String → Option Json
info url = some (object (entry "server-name" (text "janus-0") end))

abbrev addresses : String → Option (List (Option String))
addresses host = some (some "10.0.0.8" ∷ [])

abbrev at_pods : System
at_pods = record { world = record { globals = headless; sessions = λ q. idle }; own = λ p. 0 }

headless-IsTable : IsTable headless
unfolding find
headless-IsTable k p (inl (a, b)) = record {
  named = a;
  allocated = omega (arith, b);
  found = ground (arith, a, b, eq_iff "janus-9" k);
}
headless-IsTable k p (inr i) = absurd i

at_pods-IsInitial : IsInitial at_pods
unfolding find answers
at_pods-IsInitial = record {
  none_held = λ q. refl;
  none_known = λ id. refl;
  sound = record { table = headless-IsTable; all_fit = λ k p i. refl };
  untold = λ q. refl;
  undone = λ q. refl;
}

-- the refresh starts a thread for the new pod, and takes the server that is gone out of the table
refreshed : Globals
refreshed =
    (registry_refresh json_lib info addresses bound_start (bound_stop at_pods.own) 5 headless).1

refreshed_names :
    (find refreshed.by_name "janus-0" ≡ some 1)
    × (find refreshed.by_name "janus-9" ≡ none)
    × ((refreshed.heap 1).thread ≡ true)
unfolding find refreshed registry_refresh new_endpoint probe_pod find_entry pod_name_valid register
    start_server_thread insert is_stale stop_server_thread delete
refreshed_names = (refl, refl, refl)
