-- ===== src/Threads/System/Calls.antt =====
-- mod_janus.c: the start and the end of a call keep the session ids consistent.
use mathlib.Core.Path.{subst}
use mod_janus.Base.{
  sym, ℕ, String, ◌≡◌, ◌⊎◌, inl, inr, refl, Option, arith, ◌==◌, ==_iff, Bool-cases, Option-cases,
}
use mod_janus.Base.Dict.{id_eq, find}
use mod_janus.Hash.{JanusId}
use mod_janus.Servers.{Server, store}
use mod_janus.Calls.{Env, Session}
use mod_janus.Calls.Channel.{World, put_session}
use mod_janus.Calls.Methods.{
  RoomArgs, on_init, on_hangup, init_attached, count_call, uncount_call, choose_call_id,
}
use mod_janus.Threads.System.{System}
use mod_janus.Threads.System.Invariant.{IsConsistent, IsQuiet-IsConsistent}

-- a state method takes session ids from servers at most
pub record Takes (w w' : World) : Type 0 where
  pub table : w'.globals.by_id ≡ w.globals.by_id
  pub ids :
      (p : ℕ)
      → ((w'.globals.heap p).server_id ≡ (w.globals.heap p).server_id)
        ⊎ ((w'.globals.heap p).server_id ≡ 0)

pub Takes-IsConsistent :
    (s : System) (w : World)
    → Takes s.world w
    → IsConsistent s
    → IsConsistent (record s { world = w })
Takes-IsConsistent s w takes k =
    IsQuiet-IsConsistent s (record s { world = w })
      (record { own = λ q. refl; table = λ id. ground (arith, takes.table); ids = takes.ids }) k

module _ (get_sender_id : Server → JanusId → Option String → JanusId)
    (create_room : Server → RoomArgs → JanusId) where
  init_attached-Takes :
      (e : Env) (w : World) (p q : ℕ) (s : Session)
      → Takes w (init_attached get_sender_id create_room e w p q s).1
  unfolding init_attached count_call put_session store
  init_attached-Takes e w p q s = record {
    table = ground arith;
    ids = λ r. inl (ground (arith, ==_iff p r));
  }

  pub init-Takes :
      (e : Env) (w : World) (q : ℕ) → Takes w (on_init get_sender_id create_room e w q).1
  unfolding on_init put_session store
  init-Takes e w q =
      let s = record (w.sessions q) { call_id = choose_call_id e } in
      elim (Bool-cases s.outbound) [
        | inr o ↦ record { table = ground (arith, o); ids = λ r. inl (ground (arith, o)) }
        | inl o ↦ elim (Option-cases (find w.globals.by_id s.server_id)) [
          | inl f ↦ rw (on_init, o, f) (record { table = refl; ids = λ r. inl refl })
          | inr (p, f) ↦
              let id = get_sender_id (w.globals.heap p) s.server_id s.call_id in
              elim (Bool-cases (id == 0)) [
                | inl z ↦ record {
                  table = ground (arith, o, f, z);
                  ids = λ r. ground (arith, o, f, z, ==_iff p r);
                }
                | inr z ↦
                    let r =
                      init_attached get_sender_id create_room e w p q
                        (record s { sender_id = id }) in
                    let same : on_init get_sender_id create_room e w q ≡ r =
                      ground (arith, o, f, z) in
                    subst (λ x. Takes w x.1) (sym same)
                      (init_attached-Takes e w p q (record s { sender_id = id }))
              ]
        ]
      ]

pub hangup-Takes : (e : Env) (w : World) (q : ℕ) → Takes w (on_hangup e w q).1
unfolding on_hangup uncount_call put_session store
hangup-Takes e w q = elim (Option-cases (find w.globals.by_id (w.sessions q).server_id)) [
  | inl f ↦ record { table = ground (arith, f); ids = λ r. inl (ground (arith, f)) }
  | inr (p, f) ↦ record {
    table = ground (arith, f);
    ids = λ r. inl (ground (arith, f, ==_iff p r));
  }
]
