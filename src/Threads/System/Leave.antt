-- ===== src/Threads/System/Leave.antt =====
-- mod_janus.c: the end and the stop of a thread and a failed poll keep the session ids consistent.
use mod_janus.Base.{
  ℕ, ◌≡◌, ◌⊎◌, inl, inr, none, [], arith, ==_iff, Bool-cases, Option-cases, Status, is_success,
}
use mod_janus.Base.Dict.{id_eq, name_eq, find, delete, find-delete}
use mod_janus.Hash.{JanusId}
use mod_janus.Servers.{Globals, store}
use mod_janus.Servers.Pods.{remove_from_lookup}
use mod_janus.Calls.Channel.{World}
use mod_janus.Threads.{closed, poll_failed, thread_end, thread_done}
use mod_janus.Threads.Loop.{inner_turn}
use mod_janus.Threads.System.{System, hold}
use mod_janus.Threads.System.Invariant.{IsConsistent, IsQuiet-IsConsistent, IsDrop-IsConsistent}

-- What a step of the server `p` does to the table of ids and to the ids, where its thread has `own`.
pub record Lets (own : JanusId) (p : ℕ) (g g' : Globals) : Type 0 where
  pub table :
      (id : JanusId)
      → (find g'.by_id id ≡ find g.by_id id)
        ⊎ ((find g'.by_id id ≡ none) × ((id ≡ own) ⊎ (id ≡ (g.heap p).server_id)))
  pub ids : (q : ℕ) → ((g'.heap q).server_id ≡ (g.heap q).server_id) ⊎ ((g'.heap q).server_id ≡ 0)

pub remove_from_lookup-Lets :
    (own : JanusId) (p : ℕ) (g : Globals) → Lets own p g (remove_from_lookup g p)
unfolding remove_from_lookup store
remove_from_lookup-Lets own p g = record {
  table = λ id.
      ground (arith, find-delete g.by_id (g.heap p).server_id id, ==_iff (g.heap p).server_id id);
  ids = λ q. ground (arith, ==_iff p q);
}

pub Lets-trans :
    (own : JanusId) (p : ℕ) (g h k : Globals)
    → (h.heap p).server_id ≡ (g.heap p).server_id
    → Lets own p g h
    → Lets own p h k
    → Lets own p g k
Lets-trans own p g h k same a b = record {
  table = λ id. ground (arith, same, a.table id, b.table id);
  ids = λ q. ground (arith, a.ids q, b.ids q);
}

-- the servers and tables before an evicted server is removed
abbrev closing : Globals → ℕ → JanusId → Globals
closing g p id = record (store g p (record (closed (g.heap p)) { sender_id_lookup = [] })) {
  by_id = delete g.by_id id;
}

closing-Lets :
    (own : JanusId) (p : ℕ) (g : Globals)
    → Lets own p g (closing g p own)
      × (((closing g p own).heap p).server_id ≡ (g.heap p).server_id)
      × (find (closing g p own).by_id own ≡ none)
unfolding store
closing-Lets own p g = (
  record {
    table = λ id. ground (arith, find-delete g.by_id own id, ==_iff own id);
    ids = λ q. inl (ground (arith, ==_iff p q));
  },
  ground (arith, ==_iff p p),
  ground (arith, find-delete g.by_id own own, ==_iff own own),
)

-- What the end of a thread does; the table does not lead from its session id any more.
pub thread_end-Lets :
    (own : JanusId) (p : ℕ) (g : Globals)
    → Lets own p g (thread_end g p own) × (find (thread_end g p own).by_id own ≡ none)
unfolding thread_end
thread_end-Lets own p g =
    let h = closing g p own in
    let (first, same, none_there) = closing-Lets own p g in
    let removed = remove_from_lookup-Lets own p h in
    elim (Bool-cases (closed (g.heap p)).evicted) [
      | inl e ↦
          let end : thread_end g p own ≡ remove_from_lookup h p = ground (arith, e) in
          rw end (
            Lets-trans own p g h (remove_from_lookup h p) same first removed,
            ground (arith, none_there, removed.table own),
          )
      | inr e ↦ let end : thread_end g p own ≡ h = ground (arith, e) in rw end (first, none_there)
    ]

pub ends-IsConsistent :
    (s : System) (p : ℕ)
    → IsConsistent s
    → IsConsistent (hold s p 0 (thread_done s.world p (s.own p)))
unfolding thread_done hold
ends-IsConsistent s p k =
    let (lets, lost) = thread_end-Lets (s.own p) p s.world.globals in
    IsDrop-IsConsistent s (hold s p 0 (thread_done s.world p (s.own p))) p
      (record {
        own = λ q far. ground (arith, far, ==_iff p q);
        own_p = inr (ground (arith, ==_iff p p));
        table = lets.table;
        ids = lets.ids;
        lost = inl (ground (arith, ==_iff p p));
        gone = λ f. ground (arith, f, lost);
      })
      k

-- A step that leaves the thread its session id, and takes the server's.
pub drop-IsConsistent :
    (s : System) (p : ℕ) (w : World)
    → Lets (s.own p) p s.world.globals w.globals
    → (w.globals.heap p).server_id ≡ 0
    → IsConsistent s
    → IsConsistent (hold s p (s.own p) w)
unfolding hold
drop-IsConsistent s p w lets lost k =
    IsDrop-IsConsistent s (hold s p (s.own p) w) p
      (record {
        own = λ q far. ground (arith, far, ==_iff p q);
        own_p = inl (ground (arith, ==_iff p p));
        table = lets.table;
        ids = lets.ids;
        lost = inr lost;
        gone = λ f. ground (arith, ==_iff p p);
      })
      k

-- A step of other things.
pub same-IsConsistent :
    (s : System) (p : ℕ) (w : World)
    → ((id : JanusId) → find w.globals.by_id id ≡ find s.world.globals.by_id id)
    → ((q : ℕ)
        → ((w.globals.heap q).server_id ≡ (s.world.globals.heap q).server_id)
          ⊎ ((w.globals.heap q).server_id ≡ 0))
    → IsConsistent s
    → IsConsistent (hold s p (s.own p) w)
unfolding hold
same-IsConsistent s p w table ids k =
    IsQuiet-IsConsistent s (hold s p (s.own p) w)
      (record { own = λ q. ground (arith, ==_iff p q); table = table; ids = ids }) k

pub polls-IsConsistent :
    (s : System) (p : ℕ) (status : Status) (w : World)
    → w.globals ≡ s.world.globals
    → IsConsistent s
    → IsConsistent (hold s p (s.own p) (inner_turn status w p (s.own p)))
unfolding inner_turn poll_failed store
polls-IsConsistent s p status w same k = elim (Bool-cases (is_success status)) [
  | inl e ↦
      rw e
        (same-IsConsistent s p w (λ id. ground (arith, same)) (λ q. inl (ground (arith, same))) k)
  | inr e ↦ rw e (
      drop-IsConsistent s p (poll_failed w p (s.own p))
        (record {
          table = λ id.
              ground (arith, same, find-delete w.globals.by_id (s.own p) id, ==_iff (s.own p) id);
          ids = λ q. ground (arith, same, ==_iff p q);
        })
        (ground (arith, ==_iff p p)) k)
]

-- A server that is removed has no session id.
pub remove_from_lookup-lost :
    (g : Globals) (p : ℕ)
    → ((remove_from_lookup g p).heap p).server_id ≡ 0 ⊎ (remove_from_lookup g p ≡ g)
unfolding remove_from_lookup store
remove_from_lookup-lost g p = elim (Bool-cases (g.heap p).dynamic) [
  | inr e ↦ inr (ground (arith, e))
  | inl e ↦ elim (Option-cases (find g.by_name (g.heap p).name)) [
    | inl f ↦ inr (ground (arith, e, f))
    | inr (r, f) ↦ inl (ground (arith, e, f, ==_iff p p))
  ]
]
