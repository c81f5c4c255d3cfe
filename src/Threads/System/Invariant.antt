-- ===== src/Threads/System/Invariant.antt =====
-- mod_janus.c: what holds of the session ids of the servers in every state.
use mod_janus.Base.{ℕ, ◌≡◌, ◌≢◌, ◌⊎◌, none, some, arith, ◌==◌, ==_iff, if◌then◌else◌}
use mod_janus.Base.Dict.{id_eq, find}
use mod_janus.Hash.{JanusId}
use mod_janus.Threads.System.{System}

-- the server at a place, its session id, and what the table of ids Finds
abbrev pub id_of : System → ℕ → JanusId
id_of s p = (s.world.globals.heap p).server_id

abbrev pub Finds : System → JanusId → ℕ → Type 0
Finds s id p = find s.world.globals.by_id id ≡ some p

-- The table leads from an id to the thread that holds it; a server with a session, whose thread has
-- one, has the thread's, and the table leads to it; and no two threads hold the same.
pub record IsConsistent (s : System) : Type 0 where
  pub held : (id : JanusId) (p : ℕ) → Finds s id p → (id ≢ 0) × (s.own p ≡ id)
  pub known : (p : ℕ) → s.own p ≢ 0 → id_of s p ≢ 0 → (id_of s p ≡ s.own p) × Finds s (s.own p) p
  pub distinct : (p q : ℕ) → s.own p ≢ 0 → s.own q ≡ s.own p → q ≡ p
  pub unused : (p q : ℕ) → s.own p ≢ 0 → id_of s q ≡ s.own p → q ≡ p

-- A change that only takes session ids from servers.
pub record IsQuiet (s s' : System) : Type 0 where
  pub own : (q : ℕ) → s'.own q ≡ s.own q
  pub table : (id : JanusId) → find s'.world.globals.by_id id ≡ find s.world.globals.by_id id
  pub ids : (q : ℕ) → (id_of s' q ≡ id_of s q) ⊎ (id_of s' q ≡ 0)

pub IsQuiet-IsConsistent : (s s' : System) → IsQuiet s s' → IsConsistent s → IsConsistent s'
IsQuiet-IsConsistent s s' quiet k = record {
  held = λ id p f. ground (arith, f, quiet.table id, quiet.own p, k.held id p);
  known = λ p o i. ground (arith, o, i, quiet.own p, quiet.ids p, quiet.table (s.own p), k.known p);
  distinct = λ p q o e. ground (arith, o, e, quiet.own p, quiet.own q, k.distinct p q);
  unused = λ p q o e. ground (arith, o, e, quiet.own p, quiet.ids q, k.unused p q);
}

-- The thread of a server loses its session, or the server does.
pub record IsDrop (s s' : System) (p : ℕ) : Type 0 where
  pub own : (q : ℕ) → q ≢ p → s'.own q ≡ s.own q
  pub own_p : (s'.own p ≡ s.own p) ⊎ (s'.own p ≡ 0)
  pub table :
      (id : JanusId)
      → (find s'.world.globals.by_id id ≡ find s.world.globals.by_id id)
        ⊎ ((find s'.world.globals.by_id id ≡ none) × ((id ≡ s.own p) ⊎ (id ≡ id_of s p)))
  pub ids : (q : ℕ) → (id_of s' q ≡ id_of s q) ⊎ (id_of s' q ≡ 0)
  pub lost : (s'.own p ≡ 0) ⊎ (id_of s' p ≡ 0)
  pub gone : Finds s' (s.own p) p → s'.own p ≡ s.own p

pub IsDrop-IsConsistent : (s s' : System) (p : ℕ) → IsDrop s s' p → IsConsistent s → IsConsistent s'
IsDrop-IsConsistent s s' p drop k = record {
  held = λ id q f.
      ground (arith, f, drop.table id, drop.own q, drop.own_p, drop.gone, k.held id q, k.held id p);
  known = λ q o i. ground (
    arith,
    o,
    i,
    drop.own q,
    drop.own_p,
    drop.lost,
    drop.ids q,
    drop.table (s.own q),
    k.known q,
    k.distinct q p,
    k.unused q p,
  );
  distinct = λ q r o e. ground (arith, o, e, drop.own q, drop.own r, drop.own_p, k.distinct q r);
  unused = λ q r o e. ground (arith, o, e, drop.own q, drop.own_p, drop.ids r, k.unused q r);
}

-- The thread of a server gets a session id that no other has, or gets its own back.
pub record IsGain (s s' : System) (p : ℕ) (id : JanusId) : Type 0 where
  pub is_id : id ≢ 0
  pub own : (q : ℕ) → q ≢ p → s'.own q ≡ s.own q
  pub own_p : s'.own p ≡ id
  pub table :
      (j : JanusId)
      → find s'.world.globals.by_id j ≡ (if id == j then some p else find s.world.globals.by_id j)
  pub ids : (q : ℕ) → q ≢ p → id_of s' q ≡ id_of s q
  pub ids_p : id_of s' p ≡ id
  pub unheld : (q : ℕ) → s.own q ≡ id → q ≡ p
  pub unused : (q : ℕ) → id_of s q ≡ id → q ≡ p
  pub before : (s.own p ≡ 0) ⊎ (s.own p ≡ id)

pub IsGain-IsConsistent :
    (s s' : System) (p : ℕ) (id : JanusId) → IsGain s s' p id → IsConsistent s → IsConsistent s'
IsGain-IsConsistent s s' p id gain k = record {
  held = λ j q f. ground (
    arith,
    f,
    gain.table j,
    gain.own q,
    gain.own_p,
    gain.is_id,
    gain.before,
    k.held j q,
    ==_iff id j,
  );
  known = λ q o i. ground (
    arith,
    o,
    i,
    gain.own q,
    gain.own_p,
    gain.ids q,
    gain.ids_p,
    gain.table (s.own q),
    gain.table id,
    k.known q,
    gain.unheld q,
    ==_iff id (s.own q),
    ==_iff id id,
  );
  distinct = λ q r o e. ground (
    arith,
    o,
    e,
    gain.own q,
    gain.own r,
    gain.own_p,
    gain.unheld q,
    gain.unheld r,
    k.distinct q r,
  );
  unused = λ q r o e. ground (
    arith,
    o,
    e,
    gain.own q,
    gain.own_p,
    gain.ids r,
    gain.ids_p,
    gain.unheld q,
    gain.unused r,
    k.unused q r,
  );
}
