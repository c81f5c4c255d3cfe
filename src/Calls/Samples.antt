-- ===== src/Calls/Samples.antt =====
-- A channel, a session and a module in which nothing has happened, for the concrete runs.
use mod_janus.Base.{true, false, none, []}
use mod_janus.Servers.{Globals, zeroed}
use mod_janus.Calls.{Session, Env}

abbrev pub quiet : Env
quiet = record {
  now = 5;
  variable = λ k. none;
  partner = none;
  switch_true = λ v. false;
  switch_false = λ v. false;
  uuid = "u-1";
  local_sdp = none;
  early = false;
  answer_ok = true;
  pre_answer_ok = true;
  negotiate_ok = λ sdp. true;
  activate_ok = true;
  choose_ports_ok = true;
  hash_insert_ok = true;
}

abbrev pub idle : Session
idle = record {
  server_id = 7;
  room_id = 9;
  room_id_str = none;
  display = none;
  sender_id = 0;
  call_id = none;
  sdp_body = none;
  sdp_candidates = none;
  is_trickle_complete = false;
  participant_id_str = none;
  answer_gate = false;
  remote_ready = false;
  answer_requested = false;
  answer_done = false;
  answer_deadline = 0;
  te = 0;
  io = false;
  voice = false;
  outbound = true;
  break_flag = false;
  trace = [];
}

abbrev pub no_servers : Globals
no_servers = record {
  heap = λ p. zeroed;
  next = 0;
  by_name = [];
  by_id = [];
  headless_service_url = none;
  registry_refresh_sec = 0;
  pod_server_fail_max = 0;
  pod_defaults = none;
  start_bound = false;
  stop_bound = false;
  total_calls = 0;
  calls_in_progress = 0;
  guess_ip = "";
  debug = false;
  registry_thread = false;
  registry_terminating = false;
}
