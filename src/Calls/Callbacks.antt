-- ===== src/Calls/Callbacks.antt =====
-- mod_janus.c: the tables janus_state_handlers and janus_io_routines, through which FreeSWITCH calls
-- the module for a session, and the entries of them that are not in Methods or Channel.
-- channel_outgoing_channel, for which there is no session yet, is in Threads.Outgoing.
pub mod Rule
use mod_janus.Base.{ℕ, String, Bool, Option, none, some, Status, success, if◌then◌else◌}
use mod_janus.Hash.{JanusId}
use mod_janus.Servers.{Server}
use mod_janus.Calls.{
  Session, Env, emit, write_audio, deactivate_rtp, destroy_media, destroy_read_codec,
  destroy_write_codec,
}
use mod_janus.Calls.Channel.{World, put_session, read_frame}
use mod_janus.Calls.Methods.{
  RoomArgs, JoinArgs, Signal, on_init, on_routing, on_hangup, kill_channel,
}

-- The columns of switch_state_handler_table_t.
pub data Column : Type 0 where
  init routing execute hangup_column exchange_media soft_execute : Column
  consume_media hibernate reset park reporting destroy : Column

-- The calls of switch_io_routines_t for a session, with the kind of a message (true: the answer is
-- indicated) and of an event (its body).
pub data Routine : Type 0 where
  reads writes sends_dtmf : Routine
  is_killed : Signal → Routine
  gets_message : Bool → Routine
  gets_event : Option String → Routine

-- channel_on_destroy; `read_ready` and `write_ready` are switch_core_codec_ready of the codecs
unfoldable pub on_destroy : Bool → Bool → World → ℕ → Status × World
on_destroy read_ready write_ready w q =
    let s = w.sessions q in
    let s1 = if read_ready then emit destroy_read_codec s else s in
    let s2 = if write_ready then emit destroy_write_codec s1 else s1 in
    (success, put_session w q (emit destroy_media (emit deactivate_rtp s2)))

-- channel_on_execute
unfoldable pub on_execute : World → ℕ → Status × World
on_execute w q = (success, w)

-- channel_on_exchange_media
unfoldable pub on_exchange_media : World → ℕ → Status × World
on_exchange_media w q = (success, w)

-- channel_on_soft_execute
unfoldable pub on_soft_execute : World → ℕ → Status × World
on_soft_execute w q = (success, w)

-- channel_write_frame
unfoldable pub write_frame : World → ℕ → World
write_frame w q = put_session w q (emit write_audio (w.sessions q))

-- channel_send_dtmf
unfoldable pub send_dtmf : World → ℕ → Status × World
send_dtmf w q = (success, w)

-- channel_answer_channel
unfoldable pub answer_channel : World → ℕ → Status × World
answer_channel w q = (success, w)

-- channel_receive_message: the outcome of channel_answer_channel is not used
unfoldable pub receive_message : Bool → World → ℕ → Status × World
unfolding answer_channel
receive_message is_answer w q =
    let w' = if is_answer then (answer_channel w q).1 else w in (success, w')

-- channel_receive_event
unfoldable pub receive_event : Option String → World → ℕ → Status × World
receive_event body w q = (success, w)

-- janus_io_routines
unfoldable pub io_routine : Env → Routine → World → ℕ → World
unfolding kill_channel write_frame send_dtmf receive_message receive_event
io_routine e reads w q = read_frame e w q
io_routine e writes w q = write_frame w q
io_routine e sends_dtmf w q = (send_dtmf w q).1
io_routine e (is_killed sig) w q = put_session w q (kill_channel sig (w.sessions q))
io_routine e (gets_message is_answer) w q = (receive_message is_answer w q).1
io_routine e (gets_event body) w q = (receive_event body w q).1

module _ (get_sender_id : Server → JanusId → Option String → JanusId)
    (create_room : Server → RoomArgs → JanusId) (join : Server → JoinArgs → Status) where
  -- janus_state_handlers; a column that is NULL does nothing
  unfoldable pub state_handler : Env → Bool → Bool → Column → World → ℕ → Option (Status × World)
  unfolding on_destroy on_execute on_exchange_media on_soft_execute
  state_handler e read_ready write_ready init w q = some (on_init get_sender_id create_room e w q)
  state_handler e read_ready write_ready routing w q = some (on_routing join e w q)
  state_handler e read_ready write_ready execute w q = some (on_execute w q)
  state_handler e read_ready write_ready hangup_column w q = some (on_hangup e w q)
  state_handler e read_ready write_ready exchange_media w q = some (on_exchange_media w q)
  state_handler e read_ready write_ready soft_execute w q = some (on_soft_execute w q)
  state_handler e read_ready write_ready destroy w q = some (on_destroy read_ready write_ready w q)
  state_handler e read_ready write_ready _ w q = none
