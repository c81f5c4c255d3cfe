-- ===== src/Polling/Tests.antt =====
-- Two events for one of two calls of a server, at a small JSON library.
use mod_janus.Base.{refl, Option, some, [], ◌∷◌, arith, success, Status, or_else}
use mod_janus.Base.Dict.{id_eq, find}
use mod_janus.Json.Small.{find_entry, json_lib}
use mod_janus.Servers.{Server, zeroed}
use mod_janus.Calls.Samples.{idle, no_servers}
use mod_janus.Calls.Joined.{ConfigureArgs}
use mod_janus.Calls.Channel.{World, find_session}
use mod_janus.Api.{Message, blank}
use mod_janus.Api.Decode.{decode}
use mod_janus.Api.Dispatch.{dispatch_poll_event}
use mod_janus.Polling.Samples.{patient, webrtcup}
use mod_janus.Polling.{handle_event}
use mod_janus.Polling.Isolation.{IsOther, Same, handle_event-Same}

abbrev world : World
world = record {
  globals = record no_servers {
    heap = λ p. record zeroed { server_id = 7; sender_id_lookup = (88, 3) ∷ (99, 4) ∷ [] };
    next = 1;
    by_id = (7, 0) ∷ [];
  };
  sessions = λ q. idle;
}

abbrev no_configure : Server → ConfigureArgs → Status
no_configure server args = success

abbrev message : Message json_lib
message = record (blank json_lib) { type = some "webrtcup"; server_id = 7; sender_id = 88 }

abbrev world_or : Option World → World
world_or o = or_else o world

abbrev answered_once : World
answered_once = world_or (handle_event no_configure (λ q. patient) json_lib webrtcup world)

IsOther-session : IsOther world 7 88 4
unfolding find_session find
IsOther-session p h = absurd (ground (arith, h))

handle_event-Same_example : Same 4 world answered_once
unfolding handle_event decode find_entry dispatch_poll_event
handle_event-Same_example =
    handle_event-Same no_configure (λ q. patient) json_lib webrtcup message world answered_once 4
      refl IsOther-session refl
