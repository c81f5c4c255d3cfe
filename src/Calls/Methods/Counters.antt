-- ===== src/Calls/Methods/Counters.antt =====
-- mod_janus.c: the count of the calls in progress.
use mod_janus.Base.{ℕ, ◌+◌, ◌-◌, ◌^◌, ◌<◌, String, ◌≡◌, ◌≢◌, Option, none, some, success, arith}
use mod_janus.Base.Dict.{id_eq, find, find-delete}
use mod_janus.Hash.{JanusId}
use mod_janus.Servers.{Server, store}
use mod_janus.Calls.{Env}
use mod_janus.Calls.Channel.{World, put_session, find_session}
use mod_janus.Calls.Methods.{RoomArgs, on_init, on_hangup}

-- the calls in progress on the server at `p`
abbrev pub calls_at : World → ℕ → ℕ
calls_at w p = (w.globals.heap p).calls_in_progress

module _ (get_sender_id : Server → JanusId → Option String → JanusId)
    (create_room : Server → RoomArgs → JanusId) where
  module _ (e e' : Env) (w : World) (q p : ℕ)
      (found : find w.globals.by_id (w.sessions q).server_id ≡ some p) where
    -- the world after the call is set up, and after it is hung up
    abbrev pub set_up : World
    set_up = (on_init get_sender_id create_room e w q).1

    abbrev pub hung_up : World
    hung_up = (on_hangup e' set_up q).1

    by_id-set_up : set_up.globals.by_id ≡ w.globals.by_id
    unfolding on_init put_session store
    by_id-set_up = ground (arith, found)

    server_id-set_up : (set_up.sessions q).server_id ≡ (w.sessions q).server_id
    unfolding on_init put_session store
    server_id-set_up = ground (arith, found)

    found-set_up : find set_up.globals.by_id (set_up.sessions q).server_id ≡ some p
    found-set_up = rw (by_id-set_up, server_id-set_up) found

    calls-set_up :
        calls_at w p + 1 < 2 ^ 32
        → (on_init get_sender_id create_room e w q).0 ≡ success
        → calls_at set_up p ≡ calls_at w p + 1
    unfolding on_init put_session store
    calls-set_up room ok = ground (arith, found)

    calls-refused :
        (on_init get_sender_id create_room e w q).0 ≢ success → calls_at set_up p ≡ calls_at w p
    unfolding on_init put_session store
    calls-refused bad = ground (arith, found)

    calls-hung_up : calls_at hung_up p ≡ calls_at set_up p - 1
    unfolding on_hangup put_session store
    calls-hung_up = ground (arith, found-set_up)

    session-hung_up :
        find_session hung_up (set_up.sessions q).server_id (set_up.sessions q).sender_id ≡ none
    unfolding on_hangup put_session store find_session
    session-hung_up =
        let sender = (set_up.sessions q).sender_id in
        ground
          (arith, found-set_up, find-delete (set_up.globals.heap p).sender_id_lookup sender sender)

    -- Where the session's server is found, its count is not at the maximum and the setup succeeds,
    -- a call that is set up and hung up leaves the count of its server as it was, and its handle is
    -- no longer known.
    pub init-hangup :
        calls_at w p + 1 < 2 ^ 32
        → (on_init get_sender_id create_room e w q).0 ≡ success
        → (calls_at hung_up p ≡ calls_at w p)
          × (find_session hung_up (set_up.sessions q).server_id (set_up.sessions q).sender_id
              ≡ none)
    init-hangup room ok = (omega (arith, calls-hung_up, calls-set_up room ok), session-hung_up)

    -- Where the session's server is found and the setup fails, the hangup takes one off the
    -- server's count (which stops at 0), although the call was never counted.
    pub refused-hangup :
        (on_init get_sender_id create_room e w q).0 ≢ success
        → calls_at hung_up p ≡ calls_at w p - 1
    refused-hangup bad = omega (arith, calls-hung_up, calls-refused bad)
