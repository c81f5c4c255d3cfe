-- ===== src/Polling/Callbacks.antt =====
-- mod_janus.c: the answers that the state methods and the I/O routines make.
use mathlib.Core.Path.{subst}
use mod_janus.Base.{
  sym, ℕ, String, ◌≡◌, refl, inl, inr, Bool, true, Option, some, arith, Status, ◌==◌, ==_iff,
  Option-cases, Bool-cases,
}
use mod_janus.Base.Dict.{id_eq, find}
use mod_janus.Hash.{JanusId}
use mod_janus.Servers.{Server}
use mod_janus.Calls.{Env, Session, answers, emit, read_audio}
use mod_janus.Calls.Gate.{is_due}
use mod_janus.Calls.Channel.{World, put_session, read_frame, answered}
use mod_janus.Calls.Methods.{
  RoomArgs, JoinArgs, on_init, on_routing, on_hangup, init_attached, count_call, choose_call_id,
  close_media, uncount_call, kill_channel,
}
use mod_janus.Calls.Callbacks.{
  Column, Routine, reads, writes, sends_dtmf, is_killed, gets_message, gets_event, on_destroy,
  state_handler, io_routine,
}
use mod_janus.Calls.Callbacks.Rule.{handler-holds}
use mod_janus.Polling.Once.{
  Fair, AllFair, AllFair-trans, put-AllFair, answered-Fair, on_session-AllFair,
}

read-AllFair : (e : Env) (w : World) (q : ℕ) → AllFair w (read_frame e w q)
unfolding read_frame answered answers
read-AllFair e w q =
    let s = w.sessions q in
    let ready = put_session w q (record s { remote_ready = true }) in
    let v = (answered e ready s.server_id s.sender_id).1 in
    let asked =
      AllFair-trans w ready v (put-AllFair w q (record s { remote_ready = true }) refl)
        (on_session-AllFair ready s.server_id s.sender_id _ (λ server. answered-Fair e)) in
    let then_reads : (u : World)
        → AllFair w u
        → AllFair w (put_session u q (emit read_audio (u.sessions q))) =
      λ u h.
        AllFair-trans w u (put_session u q (emit read_audio (u.sessions q))) h
          (put-AllFair u q (emit read_audio (u.sessions q)) refl) in
    elim (Bool-cases (is_due e s)) [
      | inl d ↦ rw (d, read_frame) (then_reads v asked)
      | inr d ↦ rw (d, read_frame) (then_reads w (λ r. refl))
    ]

pub io-AllFair :
    (e : Env) (routine : Routine) (w : World) (q : ℕ) → AllFair w (io_routine e routine w q)
unfolding io_routine answers
io-AllFair e reads w q = read-AllFair e w q
io-AllFair e writes w q = put-AllFair w q _ refl
io-AllFair e sends_dtmf w q = λ r. refl
io-AllFair e (is_killed sig) w q = put-AllFair w q (kill_channel sig (w.sessions q)) (ground arith)
io-AllFair e (gets_message is_answer) w q = λ r. ground arith
io-AllFair e (gets_event body) w q = λ r. refl

destroy-AllFair :
    (read_ready write_ready : Bool) (w : World) (q : ℕ)
    → AllFair w (on_destroy read_ready write_ready w q).1
unfolding on_destroy answers
destroy-AllFair read_ready write_ready w q = put-AllFair w q _ (ground arith)

routing-AllFair :
    (join : Server → JoinArgs → Status) (e : Env) (w : World) (q : ℕ)
    → AllFair w (on_routing join e w q).1
unfolding on_routing put_session answers
routing-AllFair join e w q r = elim (Option-cases (find w.globals.by_id (w.sessions q).server_id)) [
  | inl f ↦ ground (arith, f, ==_iff q r)
  | inr (p, f) ↦ ground (arith, f, ==_iff q r)
]

hangup-AllFair : (e : Env) (w : World) (q : ℕ) → AllFair w (on_hangup e w q).1
unfolding on_hangup close_media uncount_call put_session answers
hangup-AllFair e w q r = elim (Option-cases (find w.globals.by_id (w.sessions q).server_id)) [
  | inl f ↦ ground (arith, f, ==_iff q r)
  | inr (p, f) ↦ ground (arith, f, ==_iff q r, ==_iff q q)
]

module _ (get_sender_id : Server → JanusId → Option String → JanusId)
    (create_room : Server → RoomArgs → JanusId) where
  attached-AllFair :
      (e : Env) (w : World) (p q : ℕ) (s : Session)
      → Fair (w.sessions q) s
      → AllFair w (init_attached get_sender_id create_room e w p q s).1
  unfolding init_attached count_call put_session answers
  attached-AllFair e w p q s fair r = ground (arith, fair, ==_iff q r, ==_iff q q)

  init-AllFair :
      (e : Env) (w : World) (q : ℕ) → AllFair w (on_init get_sender_id create_room e w q).1
  unfolding on_init put_session answers
  init-AllFair e w q =
      let s = record (w.sessions q) { call_id = choose_call_id e } in
      elim (Bool-cases s.outbound) [
        | inr o ↦ λ r. ground (arith, o, ==_iff q r)
        | inl o ↦ elim (Option-cases (find w.globals.by_id s.server_id)) [
          | inl f ↦ λ r. ground (arith, o, f, ==_iff q r)
          | inr (p, f) ↦
              let id = get_sender_id (w.globals.heap p) s.server_id s.call_id in
              let t = record s { sender_id = id } in
              elim (Bool-cases (id == 0)) [
                | inl z ↦ λ r. ground (arith, o, f, z, ==_iff q r)
                | inr z ↦
                    let v = init_attached get_sender_id create_room e w p q t in
                    let same : on_init get_sender_id create_room e w q ≡ v =
                      ground (arith, o, f, z) in
                    subst (λ x. AllFair w x.1) (sym same) (attached-AllFair e w p q t refl)
              ]
        ]
      ]

  pub handler-AllFair :
      (join : Server → JoinArgs → Status) (e : Env) (read_ready write_ready : Bool)
      (column : Column) (w : World) (q : ℕ) (status : Status) (w' : World)
      → state_handler get_sender_id create_room join e read_ready write_ready column w q
        ≡ some (status, w')
      → AllFair w w'
  handler-AllFair join e a b column w q status w' =
      handler-holds (AllFair w) get_sender_id create_room join e a b w q column status w'
        (λ r. refl) (init-AllFair e w q) (routing-AllFair join e w q) (hangup-AllFair e w q)
        (destroy-AllFair a b w q)
