-- ===== src/Calls/Joined.antt =====
-- mod_janus.c: joined, on the session that the lookups have found. It prepares the media, makes the
-- local SDP and sends it to Janus by apiConfigure, which is the argument `configure`.
use mod_janus.Base.{
  String, Bool, Option, none, some, List, [], ◌∷◌, Status, success, failed, if◌then◌else◌,
  is_success,
}
use mod_janus.Hash.{JanusId}
use mod_janus.Servers.{Server}
use mod_janus.Calls.{
  Session, Env, var_true, emit, hangup, mark_ring_ready, set_variable, set_audio, pass_rfc2833,
  prepare_codecs, set_ice, add_ice_acl, choose_ports, gen_local_sdp, network_out_of_order,
}
use mod_janus.Calls.Gate.{arm_gate}

-- The arguments that `joined` gives apiConfigure.
pub record ConfigureArgs : Type 0 where
  pub server_id : JanusId
  pub sender_id : JanusId
  pub muted : Bool
  pub record_call : Bool
  pub recording_file : Option String
  pub jsep_type : Option String
  pub sdp : Option String
  pub call_id : Option String

-- A lookup of a variable whose name may be NULL finds nothing.
abbrev pub look_up : (String → Option String) → Option String → Option String
look_up variable none = none
look_up variable (some k) = variable k

-- The codec and DTMF settings. With a partner and `janus-use-bridged-channel-codec`, the codec is
-- the partner's variable that has the partner's codec string for its name.
unfoldable pub codec_setup : Env → Server → Session → Session
codec_setup e server s = elim e.partner [
  | some partner ↦
      if var_true e "janus-use-bridged-channel-codec"
      then emit (set_variable "absolute_codec_string" (look_up partner (partner "ep_codec_string")))
          (emit (set_variable "dtmf_type" (partner "dtmf_type"))
            (emit pass_rfc2833 (record s { te = 101 })))
      else emit (set_variable "absolute_codec_string" server.codec_string) s
  | none ↦
      if var_true e "janus-use-bridged-channel-codec"
      then emit (set_variable "dtmf_type" (some "rfc2833"))
          (emit pass_rfc2833 (record s { te = 101 }))
      else s
]

-- the loop over pServer->cand_acl
unfoldable pub add_acls : List String → Session → Session
add_acls [] s = s
add_acls (acl ∷ acls) s = add_acls acls (emit (add_ice_acl acl) s)

-- What joined does before the ports are chosen.
unfoldable pub prepare : Env → Server → Session → Session
unfolding codec_setup add_acls
prepare e server s =
    let s1 = arm_gate e s in
    let s2 = emit set_audio (emit (set_variable "media_webrtc" (some "true")) s1) in
    let s3 = emit set_ice (emit prepare_codecs (codec_setup e server s2)) in
    emit choose_ports (add_acls server.cand_acl s3)

abbrev pub configure_args : Env → Session → ConfigureArgs
configure_args e s = record {
  server_id = s.server_id;
  sender_id = s.sender_id;
  muted = var_true e "janus-start-muted";
  record_call = var_true e "janus-user-record";
  recording_file = e.variable "janus-user-record-file";
  jsep_type = some "offer";
  sdp = e.local_sdp;
  call_id = s.call_id;
}

-- joined, after the lookups. A failing apiConfigure hangs up, and the rest is done all the same.
unfoldable pub joined_session :
    (Server → ConfigureArgs → Status) → Env → Server → Session → Status × Session
unfolding prepare
joined_session configure e server s =
    let s' = prepare e server s in
    if e.choose_ports_ok
    then (let ready = emit gen_local_sdp s' in
        if is_success (configure server (configure_args e ready))
        then (success, emit mark_ring_ready ready)
        else (success, emit mark_ring_ready (emit (hangup network_out_of_order) ready)))
    else (failed, emit (hangup network_out_of_order) s')
