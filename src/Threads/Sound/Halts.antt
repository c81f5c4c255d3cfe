-- ===== src/Threads/Sound/Halts.antt =====
-- mod_janus.c: a stop ends the thread of a server, and no other.
use mathlib.Core.Path.{subst}
use mod_janus.Base.{
  ℕ, ◌≡◌, ◌≢◌, ◌∙◌, sym, ap, refl, Bool, true, false, not, ◌||◌, ◌==◌, if◌then◌else◌, arith, ==_iff,
  Bool-cases, inl, inr,
}
use mod_janus.Base.Dict.{id_eq}
use mod_janus.Hash.{JanusId}
use mod_janus.Servers.{Server, Globals, store}
use mod_janus.Servers.Pods.{remove_from_lookup}
use mod_janus.Threads.{thread_end, stop_server_thread}
use mod_janus.Threads.Stopping.{has_thread, after_join, stop-cases}
use mod_janus.Threads.Sound.{fit}

remove_from_lookup-thread :
    (g : Globals) (p q : ℕ) → ((remove_from_lookup g p).heap q).thread ≡ (g.heap q).thread
unfolding remove_from_lookup store
remove_from_lookup-thread g p q = ground (arith, ==_iff p q)

thread_end-thread :
    (id : JanusId) (g : Globals) (p q : ℕ) → ((thread_end g p id).heap q).thread ≡ (g.heap q).thread
unfolding thread_end remove_from_lookup store
thread_end-thread id g p q = ground (arith, ==_iff p q)

after_join-thread :
    (id : JanusId) (g : Globals) (p q : ℕ)
    → ((after_join id g p).heap q).thread ≡ (if p == q then false else (g.heap q).thread)
unfolding store
after_join-thread id g p q = ground (
  arith,
  thread_end-thread id (store g p (record (g.heap p) { terminating = true })) p q,
  ==_iff p q,
)

-- A server that has no thread, or one that a stop finds.
abbrev pub haltable : Server → Bool
haltable s = not s.thread || fit s

pub stop-halts :
    (id : JanusId) (g : Globals) (p : ℕ)
    → haltable (g.heap p) ≡ true
    → ((stop_server_thread id g p).heap p).thread ≡ false
stop-halts id g p h = elim (stop-cases id g p) [
  | inl (run, e) ↦ rw e (ground (arith, after_join-thread id g p p, ==_iff p p))
  | inr (idle, inl e) ↦ rw e (ground (arith, idle, h, remove_from_lookup-thread g p p))
  | inr (idle, inr e) ↦ rw e (ground (arith, idle, h))
]

pub stop-halted :
    (id : JanusId) (g : Globals) (p q : ℕ)
    → (g.heap q).thread ≡ false
    → ((stop_server_thread id g p).heap q).thread ≡ false
stop-halted id g p q h = elim (stop-cases id g p) [
  | inl (run, e) ↦ rw e (ground (arith, h, after_join-thread id g p q, ==_iff p q))
  | inr (idle, inl e) ↦ rw e (ground (arith, h, remove_from_lookup-thread g p q))
  | inr (idle, inr e) ↦ rw e h
]

remove_from_lookup-elsewhere :
    (g : Globals) (p q : ℕ) → q ≢ p → (remove_from_lookup g p).heap q ≡ g.heap q
unfolding remove_from_lookup store
remove_from_lookup-elsewhere g p q far = ground (arith, far, ==_iff p q)

thread_end-elsewhere :
    (id : JanusId) (g : Globals) (p q : ℕ) → q ≢ p → (thread_end g p id).heap q ≡ g.heap q
unfolding thread_end remove_from_lookup store
thread_end-elsewhere id g p q far = ground (arith, far, ==_iff p q)

after_join-elsewhere :
    (id : JanusId) (g : Globals) (p q : ℕ) → q ≢ p → (after_join id g p).heap q ≡ g.heap q
unfolding store
after_join-elsewhere id g p q far =
    let h = store g p (record (g.heap p) { terminating = true }) in
    ground (arith, far, thread_end-elsewhere id h p q far, ==_iff p q)

-- A stop leaves the other servers alone.
pub stop-elsewhere :
    (id : JanusId) (g : Globals) (p q : ℕ) → q ≢ p → (stop_server_thread id g p).heap q ≡ g.heap q
stop-elsewhere id g p q far = elim (stop-cases id g p) [
  | inl (run, e) ↦ rw e (after_join-elsewhere id g p q far)
  | inr (idle, inl e) ↦ rw e (remove_from_lookup-elsewhere g p q far)
  | inr (idle, inr e) ↦ rw e refl
]

remove_from_lookup-idle :
    (g : Globals) (p : ℕ)
    → has_thread (g.heap p) ≡ false
    → has_thread ((remove_from_lookup g p).heap p) ≡ false
unfolding remove_from_lookup store
remove_from_lookup-idle g p idle = ground (arith, idle, ==_iff p p)

-- After a stop there is no thread to join.
pub stop-idle :
    (id : JanusId) (g : Globals) (p : ℕ) → has_thread ((stop_server_thread id g p).heap p) ≡ false
unfolding store
stop-idle id g p = elim (stop-cases id g p) [
  | inl (run, e) ↦ rw e (ground (arith, ==_iff p p))
  | inr (idle, inl e) ↦ rw e (remove_from_lookup-idle g p idle)
  | inr (idle, inr e) ↦ rw e idle
]

pub stop-haltable :
    (id : JanusId) (g : Globals) (p q : ℕ)
    → haltable (g.heap q) ≡ true
    → haltable ((stop_server_thread id g p).heap q) ≡ true
stop-haltable id g p q h = elim (Bool-cases (q == p)) [
  | inr b ↦
      let far : q ≢ p = λ e. ground (arith, e, b, ==_iff q p) in
      ap haltable (stop-elsewhere id g p q far) ∙ h
  | inl b ↦
      let same : p ≡ q = ground (arith, b, ==_iff q p) in
      subst (λ r. haltable ((stop_server_thread id g p).heap r) ≡ true) same
        (ground (arith, stop-halts id g p (subst (λ r. haltable (g.heap r) ≡ true) (sym same) h)))
]

thread_end-registry :
    (id : JanusId) (g : Globals) (p : ℕ) → (thread_end g p id).registry_thread ≡ g.registry_thread
unfolding thread_end remove_from_lookup store
thread_end-registry id g p = ground arith

-- A stop of a server's thread leaves the registry's alone.
pub stop-registry :
    (id : JanusId) (g : Globals) (p : ℕ)
    → (stop_server_thread id g p).registry_thread ≡ g.registry_thread
unfolding remove_from_lookup store
stop-registry id g p = elim (stop-cases id g p) [
  | inl (run, e) ↦
      rw e (thread_end-registry id (store g p (record (g.heap p) { terminating = true })) p)
  | inr (idle, inl e) ↦ rw e (ground arith)
  | inr (idle, inr e) ↦ rw e refl
]
