-- ===== src/Threads/System/Claim.antt =====
-- mod_janus.c: a claim or a new session keeps the session ids consistent.
use mod_janus.Base.{
  ℕ, ◌≡◌, ◌≢◌, ◌⊎◌, inl, inr, refl, ◌∙◌, Bool, true, false, none, List, [], ◌∷◌, arith, ◌==◌,
  ==_iff, Bool-cases, Status, success, sockerr, failed, notfound, not_initialized,
}
use mod_janus.Base.Dict.{Dict, id_eq, find, find-insert}
use mod_janus.Hash.{JanusId}
use mod_janus.Servers.{store}
use mod_janus.Servers.Pods.{record_connect_failure, reset_connect_failures}
use mod_janus.Calls.Channel.{World, put_session}
use mod_janus.Threads.{Pass, put_server, publish, create_pass, claim_pass, hang_up_all}
use mod_janus.Threads.Loop.{}
use mod_janus.Threads.System.{System, hold, IsFresh}
use mod_janus.Threads.System.Invariant.{
  IsConsistent, IsQuiet-IsConsistent, IsDrop-IsConsistent, IsGain-IsConsistent,
}

-- the system after a pass of the thread of `p`
abbrev pub passed : System → ℕ → Pass → System
passed s p r = hold s p r.own_id r.world

pub create-IsConsistent :
    (insert_ok : Bool) (now id : ℕ) (s : System) (p : ℕ)
    → s.own p ≡ 0
    → (id ≢ 0 → IsFresh s id)
    → IsConsistent s
    → IsConsistent (passed s p (create_pass insert_ok now id s.world p))
unfolding create_pass publish put_server store record_connect_failure reset_connect_failures hold
create-IsConsistent insert_ok now id s p idle fresh k =
    let r = create_pass insert_ok now id s.world p in
    elim (Bool-cases (id == 0)) [
      | inl e ↦
          IsQuiet-IsConsistent s (passed s p r)
            (record {
              own = λ q. ground (arith, e, idle, ==_iff p q);
              table = λ j. ground (arith, e);
              ids = λ q. ground (arith, e, ==_iff p q);
            })
            k
      | inr e ↦ elim (Bool-cases insert_ok) [
        | inr b ↦
            IsQuiet-IsConsistent s (passed s p r)
              (record {
                own = λ q. ground (arith, e, b, idle, ==_iff p q);
                table = λ j. ground (arith, e, b);
                ids = λ q. ground (arith, e, b, ==_iff p q);
              })
              k
        | inl b ↦
            let some_id : id ≢ 0 = λ z. ground (arith, e, z) in
            let new = fresh some_id in
            IsGain-IsConsistent s (passed s p r) p id
              (record {
                is_id = some_id;
                own = λ q far. ground (arith, e, b, far, ==_iff p q);
                own_p = ground (arith, e, b, ==_iff p p);
                table = λ j. ground (arith, e, b, find-insert s.world.globals.by_id id j p);
                ids = λ q far. ground (arith, e, b, far, ==_iff p q);
                ids_p = ground (arith, e, b, ==_iff p p);
                unheld = λ q h. absurd (new.unheld q h);
                unused = λ q h. absurd (new.unused q h);
                before = inl idle;
              })
              k
      ]
    ]

hang_up_all-ids :
    (calls : List ℕ) (w : World) (p q : ℕ)
    → ((hang_up_all calls w p).globals.by_id ≡ w.globals.by_id)
      × (((hang_up_all calls w p).globals.heap q).server_id ≡ (w.globals.heap q).server_id)
unfolding hang_up_all put_server store put_session
hang_up_all-ids [] w p q = (refl, refl)
hang_up_all-ids (x ∷ calls) w p q =
    let (tables, ids) = hang_up_all-ids calls _ p q in (tables, ids ∙ ground (arith, ==_iff p q))

-- What a pass without a new session does to the ids.
pub record Leaves (s : System) (w : World) : Type 0 where
  pub table : (id : JanusId) → find w.globals.by_id id ≡ find s.world.globals.by_id id
  pub ids :
      (q : ℕ)
      → ((w.globals.heap q).server_id ≡ (s.world.globals.heap q).server_id)
        ⊎ ((w.globals.heap q).server_id ≡ 0)

pub keep-IsConsistent :
    (s : System) (p : ℕ) (r : Pass)
    → r.own_id ≡ s.own p
    → Leaves s r.world
    → IsConsistent s
    → IsConsistent (passed s p r)
unfolding hold
keep-IsConsistent s p r own leaves k =
    IsQuiet-IsConsistent s (passed s p r)
      (record {
        own = λ q. ground (arith, own, ==_iff p q);
        table = leaves.table;
        ids = leaves.ids;
      })
      k

release-IsConsistent :
    (s : System) (p : ℕ) (r : Pass)
    → r.own_id ≡ 0
    → find s.world.globals.by_id (s.own p) ≡ none
    → Leaves s r.world
    → IsConsistent s
    → IsConsistent (passed s p r)
unfolding hold
release-IsConsistent s p r own lost leaves k =
    IsDrop-IsConsistent s (passed s p r) p
      (record {
        own = λ q far. ground (arith, far, ==_iff p q);
        own_p = inr (ground (arith, own, ==_iff p p));
        table = λ id. inl (leaves.table id);
        ids = leaves.ids;
        lost = inl (ground (arith, own, ==_iff p p));
        gone = λ f. ground (arith, f, leaves.table (s.own p), lost);
      })
      k

fail-IsConsistent :
    (visits : Dict JanusId ℕ → List ℕ) (s : System) (p : ℕ)
    → find s.world.globals.by_id (s.own p) ≡ none
    → IsConsistent s
    → IsConsistent
        (hold s p 0 (hang_up_all (visits (s.world.globals.heap p).sender_id_lookup) s.world p))
fail-IsConsistent visits s p lost k =
    let w = hang_up_all (visits (s.world.globals.heap p).sender_id_lookup) s.world p in
    let ids = hang_up_all-ids (visits (s.world.globals.heap p).sender_id_lookup) s.world p in
    release-IsConsistent s p (record { own_id = 0; world = w; finished = false }) refl lost
      (record { table = λ id. ground (arith, ids 0); ids = λ q. inl (ids q).1 }) k

pub claim-IsConsistent :
    (visits : Dict JanusId ℕ → List ℕ) (insert_ok : Bool) (status : Status) (s : System) (p : ℕ)
    → s.own p ≢ 0
    → find s.world.globals.by_id (s.own p) ≡ none
    → IsConsistent s
    → IsConsistent (passed s p (claim_pass visits insert_ok status s.world p (s.own p)))
unfolding claim_pass publish put_server store hold
claim-IsConsistent visits true success s p some_id lost k =
    let id = s.own p in
    IsGain-IsConsistent s (passed s p (claim_pass visits true success s.world p id)) p id
      (record {
        is_id = some_id;
        own = λ q far. ground (arith, far, ==_iff p q);
        own_p = ground (arith, ==_iff p p);
        table = λ j. ground (arith, find-insert s.world.globals.by_id id j p);
        ids = λ q far. ground (arith, far, ==_iff p q);
        ids_p = ground (arith, ==_iff p p);
        unheld = λ q h. k.distinct p q some_id h;
        unused = λ q h. k.unused p q some_id h;
        before = inr refl;
      })
      k
claim-IsConsistent visits false success s p some_id lost k =
    release-IsConsistent s p (claim_pass visits false success s.world p (s.own p)) refl lost
      (record { table = λ id. refl; ids = λ q. ground (arith, ==_iff p q) }) k
claim-IsConsistent visits insert_ok sockerr s p some_id lost k =
    keep-IsConsistent s p (claim_pass visits insert_ok sockerr s.world p (s.own p)) refl
      (record { table = λ id. refl; ids = λ q. ground (arith, ==_iff p q) }) k
claim-IsConsistent visits insert_ok failed s p some_id lost k = fail-IsConsistent visits s p lost k
claim-IsConsistent visits insert_ok notfound s p some_id lost k =
    fail-IsConsistent visits s p lost k
claim-IsConsistent visits insert_ok not_initialized s p some_id lost k =
    fail-IsConsistent visits s p lost k
