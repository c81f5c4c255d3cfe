-- ===== src/Ws/Libks.antt =====
-- janus_ws.c: the count of the users of libks, and the opening and closing of a server's WebSocket.
-- The calls into libks and the memory pools are given by their outcomes.
use mod_janus.Base.{
  ℕ, ◌+◌, ◌-◌, ◌≡◌, Bool, true, false, not, ◌&&◌, ◌==◌, ltb, if◌then◌else◌, Status, success, failed,
  arith,
}

-- g_libks_refs, whether g_libks_ref_mutex is there, and whether ks_init was called without ks_shutdown
-- since.
pub record Libks : Type 0 where
  pub refs : ℕ
  pub has_mutex : Bool
  pub running : Bool

-- janus_ws_libks_acquire
unfoldable pub libks_acquire : Libks → Libks
libks_acquire k = record {
  refs = k.refs + 1;
  has_mutex = true;
  running = if k.refs == 0 then true else k.running;
}

-- janus_ws_libks_release
unfoldable pub libks_release : Libks → Libks
libks_release k =
    if k.has_mutex && ltb 0 k.refs
    then record k { refs = k.refs - 1; running = if k.refs == 1 then false else k.running }
    else k

-- janus_ws_mod_global_shutdown
unfoldable pub mod_global_shutdown : Libks → Libks
mod_global_shutdown k =
    if k.has_mutex && ltb 0 k.refs then record k { refs = 0; running = false } else k

-- What the opening of a WebSocket meets: the two memory pools and the connection.
pub record Reached : Type 0 where
  pub pool_ok : Bool
  pub kpool_ok : Bool
  pub connect_ok : Bool

-- janus_ws_server_open, for a server with or without a handle
unfoldable pub server_open : Reached → Bool → Libks → Status × (Bool × Libks)
unfolding libks_acquire libks_release
server_open r handle k =
    let fails : Status × (Bool × Libks) = (failed, (false, libks_release (libks_acquire k))) in
    if handle
    then (success, (true, k))
    else if r.pool_ok && r.kpool_ok && r.connect_ok
    then (success, (true, libks_acquire k))
    else fails

-- janus_ws_server_close; the deferred events are dropped with the context
unfoldable pub server_close : Bool → Libks → Bool × Libks
unfolding libks_release
server_close handle k = if handle then (false, libks_release k) else (false, k)

-- libks runs exactly while it has users, each of which has made the mutex.
pub record IsCounted (k : Libks) : Type 0 where
  pub running : k.running ≡ ltb 0 k.refs
  pub mutex : (not k.has_mutex && ltb 0 k.refs) ≡ false

pub server_open-IsCounted :
    (r : Reached) (handle : Bool) (k : Libks) → IsCounted k → IsCounted (server_open r handle k).1.1
unfolding server_open libks_acquire libks_release
server_open-IsCounted r handle k h = record {
  running = ground (arith, h.running, h.mutex);
  mutex = ground (arith, h.running, h.mutex);
}

pub server_close-IsCounted :
    (handle : Bool) (k : Libks) → IsCounted k → IsCounted (server_close handle k).1
unfolding server_close libks_release
server_close-IsCounted handle k h = record {
  running = ground (arith, h.running, h.mutex);
  mutex = ground (arith, h.running, h.mutex);
}

-- While libks is counted, a server without a handle that is opened and closed again, or whose opening
-- fails, leaves the count as it was, libks running exactly if it was running, and no handle.
pub server_open-server_close :
    (r : Reached) (k : Libks)
    → IsCounted k
    → let (status, (handle, opened)) = server_open r false k in
      let (handle', closed) = server_close handle opened in
      (closed.refs ≡ k.refs) × (closed.running ≡ k.running) × (handle' ≡ false)
unfolding server_open server_close libks_acquire libks_release
server_open-server_close r k h = ground (arith, h.running, h.mutex)
