-- ===== src/Threads/Sessions.antt =====
-- mod_janus.c: a server's session id and the table of the ids.
use mod_janus.Base.{ℕ, ◌≡◌, ◌≢◌, Bool, none, some, arith, ==_iff}
use mod_janus.Base.Dict.{id_eq, find, find-insert, find-delete}
use mod_janus.Hash.{JanusId}
use mod_janus.Servers.{Server, store}
use mod_janus.Servers.Pods.{record_connect_failure, reset_connect_failures}
use mod_janus.Calls.Channel.{World, find_session}
use mod_janus.Threads.{Pass, put_server, publish, create_pass, poll_failed}

-- the server of the thread after a pass
abbrev pub after : Pass → ℕ → Server
after r p = r.world.globals.heap p

-- If a pass of a thread whose server had no session leaves the server with a session id, the table
-- of ids leads from that id to the server, and the thread holds the same id.
pub create_pass-find :
    (insert_ok : Bool) (now id : ℕ) (w : World) (p : ℕ)
    → (w.globals.heap p).server_id ≡ 0
    → let r = create_pass insert_ok now id w p in
      (after r p).server_id ≢ 0
      → (find r.world.globals.by_id (after r p).server_id ≡ some p)
        × (r.own_id ≡ (after r p).server_id)
unfolding create_pass publish put_server store record_connect_failure reset_connect_failures
create_pass-find insert_ok now id w p fresh some_id =
    ground (arith, fresh, some_id, find-insert w.globals.by_id id id p, ==_iff p p, ==_iff id id)

-- When polling has failed, the two lookups of a handler find no session under that session id, and
-- the server has no session id.
pub poll_failed-find_session :
    (w : World) (p : ℕ) (id sender : JanusId)
    → let w' = poll_failed w p id in
      (find_session w' id sender ≡ none) × ((w'.globals.heap p).server_id ≡ 0)
unfolding poll_failed find_session store
poll_failed-find_session w p id sender =
    ground (arith, find-delete w.globals.by_id id id, ==_iff p p, ==_iff id id)
