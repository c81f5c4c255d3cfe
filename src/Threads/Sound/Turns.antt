-- ===== src/Threads/Sound/Turns.antt =====
-- mod_janus.c: the turns of a server thread and what FreeSWITCH calls leave names and flags alone.
use mod_janus.Base.{
  ℕ, String, ◌≡◌, refl, Bool, true, false, Option, List, [], ◌∷◌, arith, ==_iff, ◌==◌, Bool-cases,
  Option-cases, inl, inr, Status, success, failed, notfound, sockerr, not_initialized,
}
use mod_janus.Base.Dict.{Dict, id_eq, name_eq, find, delete}
use mod_janus.Hash.{JanusId}
use mod_janus.Servers.{Server, Globals, store}
use mod_janus.Calls.{Env, Session, emit, hangup, destination_out_of_order}
use mod_janus.Calls.Channel.{World, put_session}
use mod_janus.Calls.Methods.{
  RoomArgs, on_init, on_hangup, init_attached, count_call, uncount_call, choose_call_id,
}
use mod_janus.Threads.{
  Pass, put_server, publish, hang_up_all, claim_pass, create_pass, poll_failed, closed,
}
use mod_janus.Threads.Loop.Cases.{connect-cases, outer-cases, opened}
use mod_janus.Threads.Loop.{Turn, outer_turn, connect_pass, start_polling, inner_turn}
use mod_janus.Threads.Sound.{fit, Steady, Steady-refl, Steady-trans}
use mod_janus.Threads.Sound.Steps.{store-Steady}

-- a write of a server, with any change of the table of ids
with_ids-Steady : (g h : Globals) → Steady g (record h { by_id = g.by_id }) → Steady g h
with_ids-Steady g h t = record {
  next = t.next;
  names = t.names;
  flags = t.flags;
  tables = t.tables;
}

hang_up_all-Steady :
    (calls : List ℕ) (w : World) (p : ℕ) → Steady w.globals (hang_up_all calls w p).globals
unfolding hang_up_all
hang_up_all-Steady [] w p = Steady-refl w.globals
hang_up_all-Steady (q ∷ calls) w p =
    let t = w.sessions q in
    let told = put_session w q (emit (hangup destination_out_of_order) t) in
    let s = w.globals.heap p in
    let s' = record s { sender_id_lookup = delete s.sender_id_lookup t.sender_id } in
    Steady-trans w.globals (store w.globals p s') _ (store-Steady w.globals p s' refl refl)
      (hang_up_all-Steady calls (put_server told p s') p)

publish-Steady :
    (ok : Bool) (w : World) (p : ℕ) (id : JanusId) (s : Server)
    → s.name ≡ (w.globals.heap p).name
    → fit s ≡ fit (w.globals.heap p)
    → Steady w.globals (publish ok w p id s).world.globals
unfolding publish
publish-Steady true w p id s name flags =
    with_ids-Steady w.globals (publish true w p id s).world.globals
      (store-Steady w.globals p s name flags)
publish-Steady false w p id s name flags =
    store-Steady w.globals p (record s { server_id = 0 }) name flags

claim-Steady :
    (visits : Dict JanusId ℕ → List ℕ) (ok : Bool) (status : Status) (w : World) (p : ℕ)
    (id : JanusId)
    → Steady w.globals (claim_pass visits ok status w p id).world.globals
unfolding claim_pass
claim-Steady visits ok success w p id =
    publish-Steady ok w p id (record (w.globals.heap p) { server_id = id }) refl refl
claim-Steady visits ok sockerr w p id =
    store-Steady w.globals p (closed (w.globals.heap p)) (ground arith) (ground arith)
claim-Steady visits ok failed w p id =
    hang_up_all-Steady (visits (w.globals.heap p).sender_id_lookup) w p
claim-Steady visits ok notfound w p id =
    hang_up_all-Steady (visits (w.globals.heap p).sender_id_lookup) w p
claim-Steady visits ok not_initialized w p id =
    hang_up_all-Steady (visits (w.globals.heap p).sender_id_lookup) w p

create-Steady :
    (ok : Bool) (now : ℕ) (id : JanusId) (w : World) (p : ℕ)
    → Steady w.globals (create_pass ok now id w p).world.globals
unfolding create_pass store
create-Steady ok now id w p = record {
  next = ground arith;
  names = λ q. ground (arith, ==_iff p q);
  flags = λ q. ground (arith, ==_iff p q);
  tables = ground arith;
}

polling-Steady :
    (now p : ℕ) (r : Pass) → Steady r.world.globals (start_polling now p r).world.globals
unfolding start_polling store
polling-Steady now p r = record {
  next = ground arith;
  names = λ q. ground (arith, ==_iff p q);
  flags = λ q. ground (arith, ==_iff p q);
  tables = ground arith;
}

connect-Steady :
    (t : Turn) (w : World) (p : ℕ) (id : JanusId)
    → Steady w.globals (connect_pass t w p id).world.globals
connect-Steady t w p id =
    let made = create_pass t.insert_ok t.now t.new_id w p in
    let claimed = claim_pass t.visits t.insert_ok t.claim w p id in
    elim (connect-cases t w p id) [
      | inl e ↦ rw e (
          Steady-trans w.globals made.world.globals (start_polling t.now p made).world.globals
            (create-Steady t.insert_ok t.now t.new_id w p) (polling-Steady t.now p made))
      | inr e ↦ rw e (
          Steady-trans w.globals claimed.world.globals (start_polling t.now p claimed).world.globals
            (claim-Steady t.visits t.insert_ok t.claim w p id) (polling-Steady t.now p claimed))
    ]

pub outer-Steady :
    (t : Turn) (w : World) (p : ℕ) (id : JanusId)
    → Steady w.globals (outer_turn t w p id).world.globals
unfolding put_server
outer-Steady t w p id =
    let s = record (w.globals.heap p) { ws_handle = true } in
    elim (outer-cases t w p id) [
      | inl e ↦ rw e (connect-Steady t w p id)
      | inr (inl e) ↦ rw e (
          Steady-trans w.globals (store w.globals p s)
            (connect_pass t (opened w p) p id).world.globals (store-Steady w.globals p s refl refl)
            (connect-Steady t (opened w p) p id))
      | inr (inr e) ↦ rw e (Steady-refl w.globals)
    ]

init_attached-Steady :
    (get_sender_id : Server → JanusId → Option String → JanusId)
    (create_room : Server → RoomArgs → JanusId) (e : Env) (w : World) (p q : ℕ) (s : Session)
    → Steady w.globals (init_attached get_sender_id create_room e w p q s).1.globals
unfolding init_attached count_call put_session store
init_attached-Steady get_sender_id create_room e w p q s = record {
  next = ground arith;
  names = λ r. ground (arith, ==_iff p r);
  flags = λ r. ground (arith, ==_iff p r);
  tables = ground arith;
}

pub init-Steady :
    (get_sender_id : Server → JanusId → Option String → JanusId)
    (create_room : Server → RoomArgs → JanusId) (e : Env) (w : World) (q : ℕ)
    → Steady w.globals (on_init get_sender_id create_room e w q).1.globals
unfolding on_init put_session
init-Steady get_sender_id create_room e w q =
    let s = record (w.sessions q) { call_id = choose_call_id e } in
    elim (Bool-cases s.outbound) [
      | inr o ↦ rw (on_init, o) (Steady-refl w.globals)
      | inl o ↦ elim (Option-cases (find w.globals.by_id s.server_id)) [
        | inl f ↦ rw (on_init, o, f) (Steady-refl w.globals)
        | inr (p, f) ↦
            let id = get_sender_id (w.globals.heap p) s.server_id s.call_id in
            elim (Bool-cases (id == 0)) [
              | inl z ↦
                  rw (on_init, o, f, z)
                    (store-Steady w.globals p (record (w.globals.heap p) { server_id = 0 }) refl
                      refl)
              | inr z ↦
                  rw (on_init, o, f, z)
                    (init_attached-Steady get_sender_id create_room e w p q
                      (record s { sender_id = id }))
            ]
      ]
    ]

pub hangup-Steady : (e : Env) (w : World) (q : ℕ) → Steady w.globals (on_hangup e w q).1.globals
unfolding on_hangup uncount_call put_session store
hangup-Steady e w q = elim (Option-cases (find w.globals.by_id (w.sessions q).server_id)) [
  | inl f ↦ rw (on_hangup, f) (Steady-refl w.globals)
  | inr (p, f) ↦ record {
    next = ground (arith, f);
    names = λ r. ground (arith, f, ==_iff p r);
    flags = λ r. ground (arith, f, ==_iff p r);
    tables = ground (arith, f);
  }
]

pub inner-Steady :
    (status : Status) (w : World) (p : ℕ) (id : JanusId)
    → Steady w.globals (inner_turn status w p id).globals
unfolding inner_turn poll_failed store
inner-Steady status w p id = record {
  next = ground arith;
  names = λ q. ground (arith, ==_iff p q);
  flags = λ q. ground (arith, ==_iff p q);
  tables = ground arith;
}
