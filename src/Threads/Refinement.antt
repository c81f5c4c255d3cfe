-- ===== src/Threads/Refinement.antt =====
-- servers.c and mod_janus.c: a refresh of the registry, against what it promises. The table of names
-- is seen as a function: a name is unknown, or known to a server that is pinned (configured, or with
-- calls) or that is not.
pub mod Table
pub mod Register
pub mod Unnamed
pub mod Evict
pub mod Stale
pub mod Refresh
pub mod Stays
pub mod Spared
mod Tests
use mod_janus.Base.{
  ℕ, String, Bool, true, false, not, ◌&&◌, ◌||◌, Option, none, some, if◌then◌else◌, ltb, or_else,
}
use mod_janus.Base.Dict.{name_eq, find}
use mod_janus.Hash.{JanusId}
use mod_janus.Servers.{Server, Globals}
use mod_janus.Servers.Pods.{Hook}
use mod_janus.Threads.{stop_server_thread}

-- a configured server, or one with calls
abbrev pub pinned : Server → Bool
pinned s = not s.dynamic || ltb 0 s.calls_in_progress

abbrev pub view_of : (ℕ → Server) → Option ℕ → Option Bool
view_of heap none = none
view_of heap (some p) = some (pinned (heap p))

-- what a name is
unfoldable pub view : Globals → String → Option Bool
view g k = view_of g.heap (find g.by_name k)

abbrev pub unpinned : Option Bool → Bool
unpinned (some false) = true
unpinned _ = false

-- What the registration of pods does to a name: a pod's name is known afterwards.
abbrev pub with_pod : Bool → Option Bool → Option Bool
with_pod is_pod v = if is_pod then some (or_else v false) else v

-- What a refresh promises for a name: it is known if a pod has answered under it or its server is
-- pinned, and a server that was there stays what it was.
abbrev pub refreshed : Bool → Option Bool → Option Bool
refreshed is_pod none = if is_pod then some false else none
refreshed is_pod (some true) = some true
refreshed is_pod (some false) = if is_pod then some false else none

-- stop_server_thread as mod_janus_load binds it
abbrev pub bound_stop : (ℕ → JanusId) → Hook
bound_stop own_id = some (λ g p. stop_server_thread (own_id p) g p)
