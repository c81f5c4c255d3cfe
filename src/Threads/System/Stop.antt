-- ===== src/Threads/System/Stop.antt =====
-- mod_janus.c: stopServerThread keeps the session ids consistent.
use mod_janus.Base.{ℕ, ◌≡◌, inl, inr, refl, true, false, none, arith, ==_iff, if◌then◌else◌}
use mod_janus.Base.Dict.{id_eq, name_eq, find}
use mod_janus.Hash.{JanusId}
use mod_janus.Servers.{Server, Globals, store}
use mod_janus.Servers.Pods.{remove_from_lookup}
use mod_janus.Threads.{thread_end, stop_server_thread}
use mod_janus.Threads.Stopping.{has_thread, after_join, stop-cases}
use mod_janus.Threads.System.{System, hold}
use mod_janus.Threads.System.Invariant.{IsConsistent, IsDrop-IsConsistent}
use mod_janus.Threads.System.Leave.{
  Lets, Lets-trans, drop-IsConsistent, same-IsConsistent, thread_end-Lets, remove_from_lookup-Lets,
  remove_from_lookup-lost,
}

store-Lets :
    (own : JanusId) (p : ℕ) (g : Globals) (t : Server)
    → t.server_id ≡ (g.heap p).server_id
    → Lets own p g (store g p t) × (((store g p t).heap p).server_id ≡ (g.heap p).server_id)
unfolding store
store-Lets own p g t same = (
  record { table = λ id. inl refl; ids = λ q. inl (ground (arith, same, ==_iff p q)) },
  ground (arith, same, ==_iff p p),
)

Lets-after :
    (own : JanusId) (p : ℕ) (g h : Globals) (t : Server)
    → t.server_id ≡ (h.heap p).server_id
    → Lets own p g h
    → Lets own p g (store h p t)
unfolding store
Lets-after own p g h t same lets = record {
  table = lets.table;
  ids = λ q. ground (arith, same, lets.ids q, lets.ids p, ==_iff p q);
}

after_join-Lets :
    (own : JanusId) (p : ℕ) (g : Globals)
    → Lets own p g (after_join own g p) × (find (after_join own g p).by_id own ≡ none)
unfolding store
after_join-Lets own p g =
    let h = store g p (record (g.heap p) { terminating = true }) in
    let e = thread_end h p own in
    let l = record (e.heap p) { thread = false; terminating = false; enabled = false } in
    let (marked, same) = store-Lets own p g (record (g.heap p) { terminating = true }) refl in
    let (ended, lost) = thread_end-Lets own p h in
    (Lets-after own p g e l refl (Lets-trans own p g h e same marked ended), lost)

pub stops-IsConsistent :
    (s : System) (p : ℕ)
    → IsConsistent s
    → IsConsistent (
        hold s p
          (if has_thread (s.world.globals.heap p) then 0 else s.own p)
          (record s.world { globals = stop_server_thread (s.own p) s.world.globals p }))
unfolding hold
stops-IsConsistent s p k =
    let g = s.world.globals in
    let unchanged = same-IsConsistent s p s.world (λ id. refl) (λ q. inl refl) k in
    elim (stop-cases (s.own p) g p) [
      | inl (run, e) ↦
          let (lets, lost) = after_join-Lets (s.own p) p g in
          rw (run, e)
            (IsDrop-IsConsistent s
              (hold s p 0 (record s.world { globals = after_join (s.own p) g p })) p
              (record {
                own = λ q far. ground (arith, far, ==_iff p q);
                own_p = inr (ground (arith, ==_iff p p));
                table = lets.table;
                ids = lets.ids;
                lost = inl (ground (arith, ==_iff p p));
                gone = λ f. absurd (ground (arith, f, lost));
              })
              k)
      | inr (idle, inr e) ↦ rw (idle, e) unchanged
      | inr (idle, inl e) ↦ elim (remove_from_lookup-lost g p) [
        | inr f ↦ rw (idle, e, f) unchanged
        | inl f ↦
            rw (idle, e)
              (drop-IsConsistent s p (record s.world { globals = remove_from_lookup g p })
                (remove_from_lookup-Lets (s.own p) p g) f k)
      ]
    ]
