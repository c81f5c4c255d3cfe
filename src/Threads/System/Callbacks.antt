-- ===== src/Threads/System/Callbacks.antt =====
-- mod_janus.c: what FreeSWITCH calls for a session keeps the session ids consistent.
use mod_janus.Base.{
  ℕ, String, ◌≡◌, refl, inl, inr, Bool, true, Option, some, arith, Status, Option-cases,
}
use mod_janus.Base.Dict.{id_eq, find}
use mod_janus.Hash.{JanusId}
use mod_janus.Servers.{Server}
use mod_janus.Calls.{Env, Session}
use mod_janus.Calls.Channel.{World, put_session, read_frame, answered, on_session, find_session}
use mod_janus.Calls.Methods.{RoomArgs, JoinArgs, on_routing}
use mod_janus.Calls.Callbacks.{
  Column, Routine, reads, writes, sends_dtmf, is_killed, gets_message, gets_event, on_destroy,
  state_handler, io_routine,
}
use mod_janus.Calls.Callbacks.Rule.{handler-holds}
use mod_janus.Threads.System.{System}
use mod_janus.Threads.System.Invariant.{IsConsistent}
use mod_janus.Threads.System.Calls.{Takes, Takes-IsConsistent, init-Takes, hangup-Takes}

-- the servers and the tables stay
same-Takes : (w w' : World) → w'.globals ≡ w.globals → Takes w w'
same-Takes w w' same = record {
  table = ground (arith, same);
  ids = λ p. inl (ground (arith, same));
}

pub routing-globals :
    (join : Server → JoinArgs → Status) (e : Env) (w : World) (q : ℕ)
    → (on_routing join e w q).1.globals ≡ w.globals
unfolding on_routing put_session
routing-globals join e w q = elim (Option-cases (find w.globals.by_id (w.sessions q).server_id)) [
  | inl f ↦ ground (arith, f)
  | inr (p, f) ↦ ground (arith, f)
]

answered-globals :
    (e : Env) (w : World) (id sender : JanusId) → (answered e w id sender).1.globals ≡ w.globals
unfolding answered on_session put_session
answered-globals e w id sender = elim (Option-cases (find_session w id sender)) [
  | inl f ↦ rw (f, on_session) refl
  | inr ((p, r), f) ↦ rw (f, on_session) refl
]

read-globals : (e : Env) (w : World) (q : ℕ) → (read_frame e w q).globals ≡ w.globals
unfolding read_frame put_session
read-globals e w q =
    let s = w.sessions q in
    let ready = put_session w q (record s { remote_ready = true }) in
    ground (arith, answered-globals e ready s.server_id s.sender_id)

pub io-globals :
    (e : Env) (routine : Routine) (w : World) (q : ℕ)
    → (io_routine e routine w q).globals ≡ w.globals
unfolding io_routine put_session
io-globals e reads w q = read-globals e w q
io-globals e writes w q = refl
io-globals e sends_dtmf w q = refl
io-globals e (is_killed sig) w q = refl
io-globals e (gets_message is_answer) w q = ground arith
io-globals e (gets_event body) w q = refl

module _ (get_sender_id : Server → JanusId → Option String → JanusId)
    (create_room : Server → RoomArgs → JanusId) (join : Server → JoinArgs → Status) where
  pub calls_back-IsConsistent :
      (s : System) (e : Env) (read_ready write_ready : Bool) (column : Column) (q : ℕ)
      (status : Status) (w : World)
      → state_handler get_sender_id create_room join e read_ready write_ready column s.world q
        ≡ some (status, w)
      → IsConsistent s
      → IsConsistent (record s { world = w })
  unfolding on_destroy put_session
  calls_back-IsConsistent s e a b column q status w h =
      let v = s.world in
      Takes-IsConsistent s w (
        handler-holds (Takes v) get_sender_id create_room join e a b v q column status w
          (same-Takes v v refl) (init-Takes get_sender_id create_room e v q)
          (same-Takes v (on_routing join e v q).1 (routing-globals join e v q)) (hangup-Takes e v q)
          (same-Takes v (on_destroy a b v q).1 refl) h)

pub io-IsConsistent :
    (s : System) (e : Env) (routine : Routine) (q : ℕ)
    → IsConsistent s
    → IsConsistent (record s { world = io_routine e routine s.world q })
io-IsConsistent s e routine q =
    Takes-IsConsistent s _ (same-Takes s.world _ (io-globals e routine s.world q))

pub dials-IsConsistent :
    (s : System) (q : ℕ) (t : Session)
    → IsConsistent s
    → IsConsistent (record s { world = put_session s.world q t })
unfolding put_session
dials-IsConsistent s q t =
    Takes-IsConsistent s _ (same-Takes s.world (put_session s.world q t) refl)
