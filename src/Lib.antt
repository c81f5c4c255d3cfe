-- ===== src/Lib.antt =====
-- mod_janus, a FreeSWITCH endpoint for the audiobridge rooms of a Janus WebRTC server.
--
-- The program. Each configured Janus server has a `server_t`, with a session id and a table from
-- handle ids to calls. A call is set up by the state methods of mod_janus.c, which make requests
-- through api.c: attach a handle, create the room, join it. Janus then sends events, which api.c
-- decodes and turns into calls of the handlers of mod_janus.c (joined, accepted, trickle, answered,
-- participant, hungup); a handler finds the session by its two ids and changes its private object.
-- Requests are signed by auth.c where the server has an HMAC secret. Each server has a thread that
-- obtains its session id and polls; behind a headless service, servers.c makes a server of each pod
-- that answers, and takes out those that are gone.
--
-- The files.
--   Base         numbers, texts, options, decimal texts, atoi, strtoull and tables
--   Hash         hash.c: idToStr, hashInsert, hashFind, hashDelete, hashIterate
--   Json         the calls of cJSON that the module makes, as a parameter
--   Servers      servers.h and globals.h: server_t and globals_t, with a heap of servers
--   Servers/Names        servers.c: serversPodNameValid
--   Servers/Url          serversParseHttpUrlParts and serversBuildJanusUrl
--   Servers/Pods         the dynamic servers: creation, update, identity check, removal
--   Servers/Refresh      serversRegistryRefresh
--   Servers/Add          serversAdd, the thread of the refresh timer, its start and its stop
--   Servers/Summary      serversSummary and serversList
--   Auth         auth.c: authSignToken
--   Calls        mod_janus.c: private_object as `Session`, the answers of FreeSWITCH as `Env`
--   Calls/Gate           when a call is answered: answered, participant, the deadline
--   Calls/Media          proceed, accepted, trickle
--   Calls/Joined         joined
--   Calls/Channel        the handlers with the lookups of server and session
--   Calls/Methods        channel_on_init, channel_on_routing, channel_on_hangup, kill_channel
--   Calls/Callbacks      janus_state_handlers and janus_io_routines, with their other entries
--   Threads      mod_janus.c: the passes of server_thread_run, startServerThread, stopServerThread,
--                and resolveServerForDial
--   Threads/Loop         the turns of the two loops of server_thread_run
--   Threads/Sound        the flags of the servers, over each operation on them
--   Threads/System       the threads, their starts and stops, the registry's work, the events, the
--                        console and what FreeSWITCH calls, as a step relation, and its invariants
--   Threads/Outgoing     waitServerActive and channel_outgoing_channel
--   Threads/Refinement   a refresh of the registry against what it promises for each name
--   Config       mod_janus.c: load_config and normalize_headless_service_url
--   Module       mod_janus.c: mod_janus_load, mod_janus_shutdown and the console command
--   Polling      api.c and mod_janus.c: apiPoll over HTTP, with the handlers that its events call
--   Ws           janus_ws.c: deferred events, drain and synchronous requests
--   Ws/Libks     the opening and closing of a WebSocket, with the count of the users of libks
--   Ws/Pump      janus_ws_pump_once, with the requests of other threads between its slices
--   Api          api.c: message_t
--   Api/Encode, Api/Decode       encode and decode
--   Api/Send     api_send_request and its URL
--   Api/Session  apiGetServerId, apiClaimServerId, apiGetSenderId
--   Api/Room, Api/Join, Api/Handle       apiCreateRoom, apiJoin, apiConfigure, apiLeave, apiDetach
--   Api/Dispatch api_dispatch_poll_event
--   Http         http.c: httpPost and httpGet, as the link of Api/Send
-- A module named Tests holds concrete runs and the theorems at concrete inputs.
--
-- Conventions. A C string that may be NULL is an option of a text. A pointer to a server or a
-- session is a number into a heap. `unsigned int` counters wrap at 2 ^ 32 where they are counted
-- up. An allocation that may fail returns an option. What a handler makes FreeSWITCH do is added to
-- the trace of its session. Time, variables of a channel, JSON, HMAC, base64, curl and the
-- socket of a WebSocket are parameters. Every loop goes over a list or a text, so that no
-- fuel is needed; the registry's loops are bounded by their arrays of 64 places.
-- Locks are left out: each handler decides under the lock of its session, and runs whole. So does
-- stopServerThread, which marks the server, joins its thread and clears the mark in one step; no
-- other thread is met between. In the loop that hangs up the calls of a lost session, what hashIterate
-- gives once the current entry is deleted is a parameter. The shutdown goes over the table of names
-- as it is when the loop begins.
--
-- A thread waits at most 100 turns for a server's session; the end of a list of slices or turns is
-- a deadline. Threads.System takes it that a Janus server gives no session id which another thread
-- or server of the module has.
--
-- Not modelled: the words around the numbers and names that the console prints, but for the list of
-- the servers; the pauses between the turns of a thread; cJSON is a copy of another project's
-- library.
pub mod Base
pub mod Hash
pub mod Calls
pub mod Auth
pub mod Json
pub mod Servers
pub mod Threads
pub mod Ws
pub mod Api
pub mod Http
pub mod Polling
pub mod Config
pub mod Module
