-- ===== src/Servers.antt =====
-- servers.h and globals.h: the records of a Janus server and of the module, and their stores.
-- A `server_t *` is a number into the heap; pServerNameLookup and serverIdLookup hold such numbers.
pub mod Names
pub mod Url
pub mod Pods
pub mod Refresh
pub mod Add
pub mod Summary
mod Tests
use mod_janus.Base.{
  ℕ, ◌+◌, String, ◌≡◌, refl, Bool, true, false, Option, none, some, List, [], ◌==◌, if◌then◌else◌,
}
use mod_janus.Base.Dict.{Dict}
use mod_janus.Hash.{JanusId}

-- janus_transport_t
pub data Transport : Type 0 where
  http ws : Transport

-- server_t. Each bit of `flags` is a field, the mutexes and the memory pool are left out, and
-- `thread` says whether pThread is set. A C string that may be NULL is an option.
pub record Server : Type 0 where
  pub name : String
  pub url : Option String
  pub secret : Option String
  pub auth_token : Option String
  pub hmac_secret : Option String
  pub pod_ip : Option String
  pub thread : Bool
  pub local_network : Option String
  pub extrtpip : Option String
  pub cand_acl : List String
  pub rtpip : Option String
  pub rtpip6 : Option String
  pub codec_string : Option String
  pub enabled : Bool
  pub terminating : Bool
  pub auto_nat : Bool
  pub dynamic : Bool
  pub evicted : Bool
  pub sender_id_lookup : Dict JanusId ℕ
  pub server_id : JanusId
  pub started : ℕ
  pub total_calls : ℕ
  pub calls_in_progress : ℕ
  pub transport : Transport
  pub ws_handle : Bool
  pub ws_last_poll : ℕ
  pub last_activity : ℕ
  pub connect_failures : ℕ
  pub last_verified : ℕ

-- What switch_core_alloc gives: every field zero.
abbrev pub zeroed : Server
zeroed = record {
  name = "";
  url = none;
  secret = none;
  auth_token = none;
  hmac_secret = none;
  pod_ip = none;
  thread = false;
  local_network = none;
  extrtpip = none;
  cand_acl = [];
  rtpip = none;
  rtpip6 = none;
  codec_string = none;
  enabled = false;
  terminating = false;
  auto_nat = false;
  dynamic = false;
  evicted = false;
  sender_id_lookup = [];
  server_id = 0;
  started = 0;
  total_calls = 0;
  calls_in_progress = 0;
  transport = Transport.http;
  ws_handle = false;
  ws_last_poll = 0;
  last_activity = 0;
  connect_failures = 0;
  last_verified = 0;
}

-- globals_t, with the heap of its pool: `next` is the first free place; `registry_thread` says
-- whether the thread of the registry is set.
pub record Globals : Type 0 where
  pub heap : ℕ → Server
  pub next : ℕ
  pub by_name : Dict String ℕ
  pub by_id : Dict JanusId ℕ
  pub headless_service_url : Option String
  pub registry_refresh_sec : ℕ
  pub pod_server_fail_max : ℕ
  pub pod_defaults : Option Server
  pub start_bound : Bool
  pub stop_bound : Bool
  pub total_calls : ℕ
  pub calls_in_progress : ℕ
  pub guess_ip : String
  pub debug : Bool
  pub registry_thread : Bool
  pub registry_terminating : Bool

-- A write through a `server_t *`.
unfoldable pub store : Globals → ℕ → Server → Globals
store g p s = record g { heap = λ q. if p == q then s else g.heap q }

-- switch_core_alloc of a `server_t`, filled in.
unfoldable pub alloc : Globals → Server → Globals
alloc g s = record g { heap = λ q. if g.next == q then s else g.heap q; next = g.next + 1 }
