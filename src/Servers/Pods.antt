-- ===== src/Servers/Pods.antt =====
-- servers.c: the servers that the registry makes of pods, and when they go. A time that a function
-- reads is its argument `now`.
pub mod Removal
pub mod Reports
pub mod Identity
use Prim.Native.String.{◌++◌}
use mod_janus.Base.{
  ℕ, ◌+◌, ◌%◌, ◌^◌, ◌-◌, String, Bool, true, false, not, ◌&&◌, ◌||◌, Option, none, some, List, [],
  ◌∷◌, ltb, leb, ◌==◌, if◌then◌else◌, is_empty, or_else, is_some, str_eq, take,
}
use mod_janus.Base.Dict.{id_eq, name_eq, find, insert, delete}
use mod_janus.Hash.{JanusId}
use mod_janus.Json.{JsonLib}
use mod_janus.Servers.{Server, Globals, Transport, zeroed, store, alloc}
use mod_janus.Servers.Names.{pod_name_valid}
use mod_janus.Servers.Url.{janus_path, parse_http_url_parts, UrlParts}

-- serverCloneDefaults
unfoldable pub clone_defaults : Server → Server → Server
clone_defaults dst src = record dst {
  codec_string = src.codec_string;
  local_network = src.local_network;
  extrtpip = src.extrtpip;
  rtpip = src.rtpip;
  rtpip6 = src.rtpip6;
  secret = src.secret;
  auth_token = src.auth_token;
  hmac_secret = src.hmac_secret;
  cand_acl = src.cand_acl;
  auto_nat = dst.auto_nat || src.auto_nat;
}

-- serversCaptureDefaults
unfoldable pub capture_defaults : Globals → ℕ → Globals
unfolding clone_defaults
capture_defaults g p = record g {
  pod_defaults = some (clone_defaults (or_else g.pod_defaults zeroed) (g.heap p));
}

-- serversProbeJanusPodAtIp: the name that the pod reports, copied into pod_name[64]. `fetch` is
-- httpGet.
unfoldable pub probe_pod :
    (c : JsonLib) → (String → Option c.Node) → String → String → String → Option String
probe_pod c fetch ip port path =
    let info = take 511 ("http://" ++ (ip ++ (":" ++ (port ++ (janus_path path ++ "/info"))))) in
    elim (fetch info) [
      | none ↦ none
      | some json ↦ elim (c.get_item json "server-name") [
        | none ↦ none
        | some item ↦ elim (c.string_value item) [
          | none ↦ none
          | some name ↦ if pod_name_valid name then some (take 63 name) else none
        ]
      ]
    ]

-- a bound function pointer that may be NULL: start_server_thread or stop_server_thread
abbrev pub Hook : Type 0
Hook = Option (Globals → ℕ → Globals)

abbrev pub call_hook : Hook → Globals → ℕ → Globals
call_hook none g p = g
call_hook (some f) g p = f g p

-- the server that serversCreateRegistryServer fills in
unfoldable pub registry_server : ℕ → Server → String → String → String → Server
unfolding clone_defaults
registry_server now defaults pod_name pod_ip url =
    let fresh : Server = record zeroed {
      last_activity = now;
      name = pod_name;
      url = some url;
      pod_ip = some pod_ip;
    } in
    record (clone_defaults fresh defaults) { enabled = true; dynamic = true }

-- serversCreateRegistryServer
unfoldable pub create_registry_server :
    Hook → ℕ → Server → String → String → String → Globals → Globals
unfolding registry_server alloc
create_registry_server start now defaults pod_name pod_ip url g =
    let g' = alloc g (registry_server now defaults pod_name pod_ip url) in
    call_hook start (record g' { by_name = insert g'.by_name pod_name g.next }) g.next

-- a text that is not empty and differs from the one that is there
abbrev differs : String → Option String → Bool
differs new none = not (is_empty new)
differs new (some old) = not (is_empty new) && not (str_eq old new)

-- serversUpdateRegistryServer
unfoldable pub update_registry_server : ℕ → String → String → Server → Server
update_registry_server now pod_ip url s =
    let moved = if differs pod_ip s.pod_ip then record s { pod_ip = some pod_ip } else s in
    let renewed =
      if differs url s.url then record moved { url = some url; last_verified = 0 } else moved in
    record renewed { last_activity = now; connect_failures = 0 }

-- serversVerifyDynamicIdentity, with SERVER_VERIFY_TTL_US
unfoldable pub verify_identity :
    (c : JsonLib) → (String → Option c.Node) → ℕ → Server → Bool × Server
verify_identity c fetch now s =
    let ip = take 15 (or_else s.pod_ip "") in
    if not s.dynamic
    then (true, s)
    else if ltb 0 s.last_verified && ltb (now - s.last_verified) 5000000
    then (true, s)
    else if is_empty ip
    then (false, s)
    else elim (parse_http_url_parts (take 511 (or_else s.url ""))) [
      | none ↦ (false, s)
      | some parts ↦ elim (probe_pod c fetch ip parts.port (janus_path parts.path)) [
        | none ↦ (false, s)
        | some name ↦
            if str_eq name s.name
            then (true, record s { last_verified = now; last_activity = now; connect_failures = 0 })
            else (false, s)
      ]
    ]

-- serversDynamicRecordActivity, -RecordConnectFailure and -ResetConnectFailures
unfoldable pub record_activity : ℕ → Server → Server
record_activity now s = record s { last_activity = now }

unfoldable pub record_connect_failure : Server → Server
record_connect_failure s = record s { connect_failures = (s.connect_failures + 1) % 2 ^ 32 }

unfoldable pub reset_connect_failures : ℕ → Server → Server
reset_connect_failures now s = record s { connect_failures = 0; last_activity = now }

-- serversDynamicEvictable: the result, which is also *pFail
unfoldable pub evictable : Globals → Server → Bool
evictable g s =
    if not s.dynamic
    then false
    else if ltb 0 s.calls_in_progress
    then false
    else ltb 0 g.pod_server_fail_max
      && leb g.pod_server_fail_max s.connect_failures
      && s.server_id == 0

-- serversDynamicRemoveFromLookup
unfoldable pub remove_from_lookup : Globals → ℕ → Globals
unfolding store
remove_from_lookup g p =
    let s = g.heap p in
    let by_id = if s.server_id == 0 then g.by_id else delete g.by_id s.server_id in
    let g' = store g p (record s { server_id = 0; enabled = false }) in
    if not s.dynamic
    then g
    else if is_some (find g.by_name s.name)
    then record g' { by_id = by_id; by_name = delete g.by_name s.name }
    else g
