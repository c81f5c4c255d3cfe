-- ===== src/Api/Room.antt =====
-- api.c: apiCreateRoom.
use mod_janus.Base.{
  ℕ, String, true, not, ◌||◌, Option, none, some, if◌then◌else◌, ◌==◌, ◌>>=◌, str_eq, zstr,
  is_empty,
}
use mod_janus.Hash.{JanusId}
use mod_janus.Json.{JsonLib}
use mod_janus.Auth.{AuthLib}
use mod_janus.Servers.{Server}
use mod_janus.Api.{text_of}
use mod_janus.Api.Encode.{add_string, add_optional}
use mod_janus.Api.Send.{Link, url_handle}
use mod_janus.Api.Session.{Reply, no_request, no_response, response, ask, request_to, answers_to}
use mod_janus.Calls.Methods.{RoomArgs}

module _ (c : JsonLib) where
  -- the room as text, if the text is there and not empty, and else as a number
  unfoldable pub add_room : c.Node → Option String → JanusId → Option c.Node
  add_room n none room_id = c.add_item n "room" (c.id_node room_id)
  add_room n (some text) room_id =
      if is_empty text then c.add_item n "room" (c.id_node room_id) else add_string c n "room" text

  -- the body of the request
  unfoldable pub create_room_body : RoomArgs → Option c.Node
  unfolding add_room add_optional
  create_room_body a = do
    empty ← c.create_object
    asked ← add_string c empty "request" "create"
    roomed ← add_room asked a.room_id_str a.room_id
    described ← add_optional c roomed "description" a.description
    pinned ← add_optional c described "pin" a.pin
    recorded ← c.add_item pinned "record" (c.bool_node a.record_room)
    filed ← add_optional c recorded "record_file" a.recording_file
    if a.allow_ws_participants
        then c.add_item filed "allow_ws_participants" (c.bool_node true)
        else some filed

  -- `event`: error 486 says that the room is there already
  unfoldable pub existing_room : RoomArgs → c.Node → JanusId
  existing_room a body = elim (c.get_item body "error_code") [
    | none ↦ 0
    | some n ↦ elim (c.number_value n) [
      | none ↦ 0
      | some v ↦
          if v.as_int == 486
          then (if zstr a.room_id_str then (if a.room_id == 0 then 1 else a.room_id) else 1)
          else 0
    ]
  ]

  -- `created`: the room's number, or 1 for a room that has a text
  unfoldable pub created_room : c.Node → JanusId
  created_room body = elim (c.get_item body "room") [
    | none ↦ 0
    | some n ↦ elim (c.number_value n) [
      | some v ↦ v.as_id
      | none ↦ elim (c.string_value n) [ none ↦ 0 | some _ ↦ 1 ]
    ]
  ]

  -- apiCreateRoom from the response on
  unfoldable pub room_of : RoomArgs → String → Reply c → JanusId
  unfolding existing_room created_room
  room_of a txn no_request = 0
  room_of a txn no_response = 0
  room_of a txn (response n m) = elim m.body [
    | none ↦ 0
    | some body ↦
        if not (answers_to c m "success" txn) || not (m.sender_id == a.sender_id)
        then 0
        else elim (text_of c (c.get_item body "audiobridge")) [
          | none ↦ 0
          | some outcome ↦
              if str_eq outcome "event"
              then existing_room a body
              else if str_eq outcome "created"
              then created_room body
              else 0
        ]
  ]

-- apiCreateRoom
unfoldable pub create_room :
    (c : JsonLib) → AuthLib → Link c → ℕ → Server → String → RoomArgs → JanusId
unfolding create_room_body ask room_of
create_room c auth link now server txn a = elim (create_room_body c a) [
  | none ↦ 0
  | some body ↦
      let m = record (request_to c server "message" txn) {
        server_id = a.server_id;
        body = some body;
      } in
      room_of c a txn (ask c auth link now server m txn a.server_id a.sender_id url_handle)
]
