-- ===== src/Threads/System/Answers.antt =====
-- mod_janus.c: how often a call is told to answer, in every state that the system reaches.
use mathlib.Core.Path.{subst}
use mod_janus.Base.{
  success, failed, notfound, sockerr, not_initialized, ℕ, String, ◌≡◌, refl, inl, inr, Bool, true,
  false, Option, List, [], ◌∷◌, arith, Status, ==_iff, Option-cases,
}
use mod_janus.Base.Dict.{Dict, id_eq, delete}
use mod_janus.Hash.{JanusId}
use mod_janus.Json.{JsonLib}
use mod_janus.Servers.{Server}
use mod_janus.Calls.{Env, Session, answers, emit, hangup, destination_out_of_order}
use mod_janus.Calls.Joined.{ConfigureArgs}
use mod_janus.Calls.Channel.{World, put_session}
use mod_janus.Calls.Methods.{RoomArgs, JoinArgs}
use mod_janus.Calls.Callbacks.{io_routine}
use mod_janus.Polling.Once.{
  count, AllFair, AllFair-trans, put-AllFair, fair_of, handle_events-AllFair,
}
use mod_janus.Polling.Callbacks.{handler-AllFair, io-AllFair}
use mod_janus.Threads.Outgoing.{made, dial_room, cut, is_at, new_call}
use mod_janus.Threads.System.{
  System, hold, Step, connects, polls, ends, stops, runs, registers, evicts, verifies, dials,
  calls_back, debugs, does_io, Reachable, starts, goes_on,
}
use mod_janus.Threads.{thread_done, Pass, put_server, publish, claim_pass, create_pass, hang_up_all}
use mod_janus.Threads.Loop.Cases.{connect-cases, outer-cases, opened}
use mod_janus.Threads.Loop.{Turn, outer_turn, connect_pass, start_polling, inner_turn}

hang_up_all-AllFair : (calls : List ℕ) (w : World) (p : ℕ) → AllFair w (hang_up_all calls w p)
unfolding hang_up_all answers
hang_up_all-AllFair [] w p = λ q. refl
hang_up_all-AllFair (q ∷ calls) w p =
    let t = w.sessions q in
    let told = put_session w q (emit (hangup destination_out_of_order) t) in
    let s = w.globals.heap p in
    let v =
      put_server told p (record s { sender_id_lookup = delete s.sender_id_lookup t.sender_id }) in
    AllFair-trans w v (hang_up_all calls v p)
      (put-AllFair w q (emit (hangup destination_out_of_order) t) refl)
      (hang_up_all-AllFair calls v p)

publish-AllFair :
    (ok : Bool) (w : World) (p : ℕ) (id : JanusId) (s : Server)
    → AllFair w (publish ok w p id s).world
unfolding publish
publish-AllFair true w p id s = λ q. refl
publish-AllFair false w p id s = λ q. refl

claim-AllFair :
    (visits : Dict JanusId ℕ → List ℕ) (ok : Bool) (status : Status) (w : World) (p : ℕ)
    (id : JanusId)
    → AllFair w (claim_pass visits ok status w p id).world
unfolding claim_pass
claim-AllFair visits ok success w p id = publish-AllFair ok w p id _
claim-AllFair visits ok sockerr w p id = λ q. refl
claim-AllFair visits ok failed w p id =
    hang_up_all-AllFair (visits (w.globals.heap p).sender_id_lookup) w p
claim-AllFair visits ok notfound w p id =
    hang_up_all-AllFair (visits (w.globals.heap p).sender_id_lookup) w p
claim-AllFair visits ok not_initialized w p id =
    hang_up_all-AllFair (visits (w.globals.heap p).sender_id_lookup) w p

create-AllFair :
    (ok : Bool) (now : ℕ) (id : JanusId) (w : World) (p : ℕ)
    → AllFair w (create_pass ok now id w p).world
unfolding create_pass
create-AllFair ok now id w p q = ground arith

polling-sessions :
    (now p : ℕ) (r : Pass) → (start_polling now p r).world.sessions ≡ r.world.sessions
unfolding start_polling
polling-sessions now p r = ground arith

connect-AllFair :
    (t : Turn) (w : World) (p : ℕ) (id : JanusId) → AllFair w (connect_pass t w p id).world
connect-AllFair t w p id =
    let made = create_pass t.insert_ok t.now t.new_id w p in
    let claimed = claim_pass t.visits t.insert_ok t.claim w p id in
    elim (connect-cases t w p id) [
      | inl e ↦ rw e (
          fair_of w made.world (start_polling t.now p made).world (polling-sessions t.now p made)
            (create-AllFair t.insert_ok t.now t.new_id w p))
      | inr e ↦ rw e (
          fair_of w claimed.world (start_polling t.now p claimed).world
            (polling-sessions t.now p claimed) (claim-AllFair t.visits t.insert_ok t.claim w p id))
    ]

outer-AllFair :
    (t : Turn) (w : World) (p : ℕ) (id : JanusId) → AllFair w (outer_turn t w p id).world
unfolding put_server
outer-AllFair t w p id = elim (outer-cases t w p id) [
  | inl e ↦ rw e (connect-AllFair t w p id)
  | inr (inl e) ↦ rw e (connect-AllFair t (opened w p) p id)
  | inr (inr e) ↦ rw e (λ q. refl)
]

inner-sessions :
    (status : Status) (w : World) (p : ℕ) (id : JanusId)
    → (inner_turn status w p id).sessions ≡ w.sessions
unfolding inner_turn
inner-sessions status w p id = ground arith

-- The answers that a call was told, where they are those that `answer_done` says.
abbrev AllTold : World → Type 0
AllTold w = (q : ℕ) → answers (w.sessions q).trace ≡ count (w.sessions q).answer_done

AllFair-AllTold : (w v : World) → AllFair w v → AllTold w → AllTold v
AllFair-AllTold w v fair told q = omega (arith, fair q, told q)

same-AllTold : (w v : World) → v.sessions ≡ w.sessions → AllTold w → AllTold v
same-AllTold w v same = AllFair-AllTold w v (fair_of w w v same (λ q. refl))

-- a call that is dialled was not told anything
dialled-told :
    (alloc_ok : Bool) (s : Server) (rest : String) (t : Session)
    → (dial_room alloc_ok s rest).leg ≡ made t
    → answers t.trace ≡ count t.answer_done
unfolding dial_room answers
dialled-told alloc_ok s rest t h = elim (Option-cases (cut is_at rest)) [
  | inl e ↦ absurd (ground (arith, h, e))
  | inr ((display, room), e) ↦
      let call : new_call s.server_id display room ≡ t = ground (arith, h, e) in
      subst (λ x. answers x.trace ≡ count x.answer_done) call refl
]

put-AllTold :
    (w : World) (q : ℕ) (t : Session)
    → answers t.trace ≡ count t.answer_done
    → AllTold w
    → AllTold (put_session w q t)
unfolding put_session
put-AllTold w q t new told r = ground (arith, new, told r, ==_iff q r)

module _ (configure : Server → ConfigureArgs → Status) (envs : ℕ → Env) (c : JsonLib)
    (get_sender_id : Server → JanusId → Option String → JanusId)
    (create_room : Server → RoomArgs → JanusId) (join : Server → JoinArgs → Status) where
  Step-AllTold :
      (s s' : System)
      → Step configure envs c get_sender_id create_room join s s'
      → AllTold s.world
      → AllTold s'.world
  unfolding hold thread_done
  Step-AllTold s s' (connects p t lost fresh) k =
      AllFair-AllTold s.world (outer_turn t s.world p (s.own p)).world
        (outer-AllFair t s.world p (s.own p)) k
  Step-AllTold s s' (polls p status events w live h) k =
      same-AllTold w (inner_turn status w p (s.own p)) (inner-sessions status w p (s.own p))
        (AllFair-AllTold s.world w (handle_events-AllFair configure envs c events s.world w h) k)
  Step-AllTold s s' (ends p) k = k
  Step-AllTold s s' (stops p) k = k
  Step-AllTold s s' (runs force p) k = k
  Step-AllTold s s' (registers now defaults x) k = k
  Step-AllTold s s' (evicts p) k = k
  Step-AllTold s s' (verifies fetch now p) k = k
  Step-AllTold s s' (dials p q alloc_ok rest t new h) k =
      put-AllTold s.world q t (dialled-told alloc_ok (s.world.globals.heap p) rest t h) k
  Step-AllTold s s' (calls_back e a b column q status w h) k =
      AllFair-AllTold s.world w
        (handler-AllFair get_sender_id create_room join e a b column s.world q status w h) k
  Step-AllTold s s' (debugs on) k = k
  Step-AllTold s s' (does_io e routine q) k =
      AllFair-AllTold s.world (io_routine e routine s.world q) (io-AllFair e routine s.world q) k

  -- However the turns of the server threads, the starts and stops of threads, the events, the work
  -- of the registry, the dialling of calls and all that FreeSWITCH calls for a session interleave,
  -- from a state in which no call was told to answer: a call was told to answer at most once, and
  -- exactly if its `answer_done` is set.
  pub Reachable-answers :
      (s : System) (q : ℕ)
      → Reachable configure envs c get_sender_id create_room join s
      → answers (s.world.sessions q).trace ≡ count (s.world.sessions q).answer_done
  Reachable-answers s q (starts _ i) = ground (arith, i.untold q, i.undone q)
  Reachable-answers s q (goes_on s0 _ r step) =
      Step-AllTold s0 s step (λ x. Reachable-answers s0 x r) q
