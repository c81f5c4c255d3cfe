-- ===== src/Threads/Stopping.antt =====
-- mod_janus.c: the cases of stopServerThread.
use mod_janus.Base.{ℕ, ◌≡◌, ◌⊎◌, inl, inr, Bool, true, false, not, ◌&&◌, arith, Bool-cases}
use mod_janus.Hash.{JanusId}
use mod_janus.Servers.{Server, Globals, store}
use mod_janus.Servers.Pods.{remove_from_lookup}
use mod_janus.Threads.{thread_end, stop_server_thread}

-- stopServerThread finds a thread to join
abbrev pub has_thread : Server → Bool
has_thread s = s.enabled && not s.terminating && s.thread

-- the module's state after the join
abbrev pub after_join : JanusId → Globals → ℕ → Globals
after_join own g p =
    let ended = thread_end (store g p (record (g.heap p) { terminating = true })) p own in
    store ended p (record (ended.heap p) { thread = false; terminating = false; enabled = false })

pub stop-cases :
    (own : JanusId) (g : Globals) (p : ℕ)
    → ((has_thread (g.heap p) ≡ true) × (stop_server_thread own g p ≡ after_join own g p))
      ⊎ ((has_thread (g.heap p) ≡ false)
          × ((stop_server_thread own g p ≡ remove_from_lookup g p)
              ⊎ (stop_server_thread own g p ≡ g)))
unfolding stop_server_thread
stop-cases own g p = elim (Bool-cases (has_thread (g.heap p))) [
  | inl e ↦ inl (e, ground (arith, e))
  | inr e ↦ elim (Bool-cases (g.heap p).evicted) [
    | inl v ↦ inr (e, inl (ground (arith, e, v)))
    | inr v ↦ inr (e, inr (ground (arith, e, v)))
  ]
]
