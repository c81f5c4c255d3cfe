-- ===== src/Ws/Tests.antt =====
-- The theorems of the WebSocket at a request with an event before its response.
use mod_janus.Base.{◌≡◌, refl, true, false, none, some, List, [], ◌∷◌, ◌++◌}
use mod_janus.Json.Small.{Json, text, object, entry, end, find_entry, json_lib}
use mod_janus.Ws.{
  receive, Ctx, Incoming, idle, skipped, document, is_reply, drain, flush_deferred, slice_over,
  readable, rpc_json,
}
use mod_janus.Ws.Order.{events, has_room, flush-drain}
use mod_janus.Ws.Reply.{AnswersTo, rpc_json-is_reply}
use mod_janus.Ws.Pump.{Request, Slice}
use mod_janus.Ws.Libks.{
  Libks, Reached, IsCounted, server_open, server_close, server_open-server_close,
}

abbrev waiting : Ctx json_lib
waiting = record { rpc_txn = some "t1"; rpc_result = none; deferred = [] }

abbrev media_event : Json
media_event = object (entry "janus" (text "media") end)

abbrev hangup_event : Json
hangup_event = object (entry "janus" (text "hangup") end)

abbrev ack : Json
ack = object (entry "janus" (text "ack") (entry "transaction" (text "t1") end))

abbrev during : List (Incoming json_lib)
during = document media_event true ∷ skipped ∷ document ack true ∷ document hangup_event true ∷ []

abbrev after : List (Incoming json_lib)
after = document media_event true ∷ idle ∷ []

flush-drain_example :
    (flush_deferred json_lib (drain json_lib false waiting during).1.0).1
      ++ (drain json_lib true
          (record (flush_deferred json_lib (drain json_lib false waiting during).1.0).0 {
            rpc_txn = none;
            rpc_result = none;
          })
          after).1.1
    ≡ media_event ∷ hangup_event ∷ media_event ∷ []
unfolding events has_room is_reply find_entry
flush-drain_example = flush-drain json_lib waiting during after refl

rpc_json-is_reply_example :
    AnswersTo json_lib "t1" ack
    × ((rpc_json json_lib waiting "t1" true (slice_over ∷ readable during ∷ [])).1.rpc_txn ≡ none)
unfolding rpc_json is_reply find_entry receive
rpc_json-is_reply_example =
    rpc_json-is_reply json_lib waiting "t1" true (slice_over ∷ readable during ∷ []) ack refl

abbrev quiet : Ctx json_lib
quiet = record { rpc_txn = none; rpc_result = none; deferred = hangup_event ∷ [] }

abbrev request : Request json_lib
request = record { txn = "t1"; written = true; turns = readable during ∷ [] }

-- a slice in which another thread's request runs first, then one with an event
abbrev slices : List (Slice json_lib)
slices =
    record { remain_us = 60000000; others = request ∷ []; poll = λ ms. slice_over; after = 0 }
    ∷ record { remain_us = 59800000; others = []; poll = λ ms. readable after; after = 9 }
    ∷ []

abbrev unused : Libks
unused = record { refs = 0; has_mutex = false; running = false }

abbrev unreachable : Reached
unreachable = record { pool_ok = true; kpool_ok = true; connect_ok = false }

unused-IsCounted : IsCounted unused
unused-IsCounted = record { running = refl; mutex = refl }

server_open-server_close_example :
    let (status, (handle, opened)) = server_open unreachable false unused in
    let (handle', closed) = server_close handle opened in
    (closed.refs ≡ 0) × (closed.running ≡ false) × (handle' ≡ false)
server_open-server_close_example = server_open-server_close unreachable unused unused-IsCounted
