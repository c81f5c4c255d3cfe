-- ===== src/Calls.antt =====
-- mod_janus.c: the private state of a call, and what FreeSWITCH answers and is told.
-- A handler takes the answers as `Env` and adds each call that it makes to the session's `trace`,
-- newest first. Log lines are left out.
pub mod Gate
pub mod Media
pub mod Joined
pub mod Channel
pub mod Methods
pub mod Callbacks
pub mod Samples
mod Tests
use mod_janus.Base.{ℕ, suc, String, Bool, Option, List, [], ◌∷◌}
use mod_janus.Hash.{JanusId}

-- switch_call_cause_t, the causes in use
pub data Cause : Type 0 where
  cause_success network_out_of_order media_timeout normal_clearing incompatible_destination : Cause
  destination_out_of_order no_route_destination protocol_error outgoing_call_barred : Cause

-- A call into FreeSWITCH that changes the channel or the media.
pub data Effect : Type 0 where
  answer mark_answered pre_answer mark_pre_answered mark_ring_ready : Effect
  activate_rtp choose_ports prepare_codecs set_ice gen_local_sdp : Effect
  kill_socket stop_media set_audio pass_rfc2833 media_break : Effect
  read_audio write_audio deactivate_rtp destroy_media : Effect
  destroy_read_codec destroy_write_codec : Effect
  hangup : Cause → Effect
  hangup_partner : Cause → Effect
  negotiate : String → Effect
  set_variable : String → Option String → Effect
  add_ice_acl : String → Effect
  -- apiLeave and apiDetach, whose outcome is only logged
  api_leave api_detach : JanusId → JanusId → Effect
  -- strncat wrote behind the end of `sdp`
  overrun : Effect

-- private_object, without the codec, frame, media and mutex handles. `te` is mparams.te with
-- mparams.recv_te, `local_sdp` is mparams.local_sdp_str; TFLAG_IO, TFLAG_VOICE, TFLAG_OUTBOUND and
-- TFLAG_BREAK are fields.
pub record Session : Type 0 where
  pub server_id : JanusId
  pub room_id : JanusId
  pub room_id_str : Option String
  pub display : Option String
  pub sender_id : JanusId
  pub call_id : Option String
  pub sdp_body : Option String
  pub sdp_candidates : Option String
  pub is_trickle_complete : Bool
  pub participant_id_str : Option String
  pub answer_gate : Bool
  pub remote_ready : Bool
  pub answer_requested : Bool
  pub answer_done : Bool
  pub answer_deadline : ℕ
  pub te : ℕ
  pub io : Bool
  pub voice : Bool
  pub outbound : Bool
  pub break_flag : Bool
  pub trace : List Effect

-- What FreeSWITCH answers while a handler runs: the time in microseconds, the channel's variables
-- and those of its partner, if it has one, its tests of texts, and the outcome of each call.
pub record Env : Type 0 where
  pub now : ℕ
  pub variable : String → Option String
  pub partner : Option (String → Option String)
  pub switch_true : Option String → Bool
  pub switch_false : Option String → Bool
  pub uuid : String
  pub local_sdp : Option String
  pub early : Bool
  pub answer_ok : Bool
  pub pre_answer_ok : Bool
  pub negotiate_ok : String → Bool
  pub activate_ok : Bool
  pub choose_ports_ok : Bool
  pub hash_insert_ok : Bool

-- switch_channel_var_true and switch_channel_var_false
abbrev pub var_true : Env → String → Bool
var_true e k = e.switch_true (e.variable k)

abbrev pub var_false : Env → String → Bool
var_false e k = e.switch_false (e.variable k)

abbrev pub emit : Effect → Session → Session
emit x s = record s { trace = x ∷ s.trace }

-- How often the channel was told to answer.
unfoldable pub answers : List Effect → ℕ
answers [] = 0
answers (answer ∷ t) = suc (answers t)
answers (x ∷ t) = answers t
