-- ===== src/Threads/Refinement/Register.antt =====
-- servers.c with the start of threads of mod_janus.c: what the registration of pods does to a name.
use mod_janus.Base.{
  ℕ, ◌+◌, ◌≤◌, ◌<◌, String, ◌≡◌, refl, false, none, some, List, [], ◌∷◌, ap, length, arith, str_eq,
  eq_iff, ==_iff, Option-cases, inl, inr,
}
use mod_janus.Base.Dict.{id_eq, name_eq, find, insert, find-insert}
use mod_janus.Base.Dict.Entries.{length-insert}
use mod_janus.Servers.{Server, Globals, store, alloc}
use mod_janus.Servers.Pods.{create_registry_server, update_registry_server, registry_server}
use mod_janus.Servers.Refresh.{Endpoint, knows, register, register_all}
use mod_janus.Threads.{start_server_thread}
use mod_janus.Threads.Registry.{bound_start}
use mod_janus.Threads.Refinement.{pinned, view, with_pod}
use mod_janus.Threads.Refinement.Table.{IsTable, find-IsEntry, heap-IsTable, insert-IsTable}

module _ (now : ℕ) (defaults : Server) where
  abbrev after : Endpoint → Globals → Globals
  after x g = register bound_start now defaults x g

  -- A pod whose name is unknown gets a new server at the next place.
  pub register-new :
      (x : Endpoint) (g : Globals)
      → find g.by_name x.pod_name ≡ none
      → ((after x g).by_name ≡ insert g.by_name x.pod_name g.next)
        × (g.next < (after x g).next)
        × (((after x g).heap g.next).name ≡ x.pod_name)
        × (pinned ((after x g).heap g.next) ≡ false)
        × ((q : ℕ) → q < g.next → (after x g).heap q ≡ g.heap q)
  unfolding register create_registry_server store alloc start_server_thread registry_server
  register-new x g h =
      rw (h, register)
        (
          refl,
          omega arith,
          ground (arith, ==_iff g.next g.next),
          ground (arith, ==_iff g.next g.next),
          λ q l. ground (arith, l, ==_iff g.next q),
        )

  -- A pod whose name is known gets no new server.
  register-known :
      (x : Endpoint) (g : Globals) (p : ℕ)
      → find g.by_name x.pod_name ≡ some p
      → ((after x g).by_name ≡ g.by_name)
        × (g.next ≤ (after x g).next)
        × ((q : ℕ)
            → (((after x g).heap q).name ≡ (g.heap q).name)
              × (pinned ((after x g).heap q) ≡ pinned (g.heap q)))
  unfolding register store start_server_thread update_registry_server
  register-known x g p h =
      rw (h, register)
        (ground arith, ground arith, λ q. (ground (arith, ==_iff p q), ground (arith, ==_iff p q)))

  register-view :
      (x : Endpoint) (g : Globals) (k : String)
      → IsTable g
      → view (after x g) k ≡ with_pod (str_eq x.pod_name k) (view g k)
  unfolding view
  register-view x g k t = elim (Option-cases (find g.by_name x.pod_name)) [
    | inl new ↦
        let (tables, room, own, loose, old) = register-new x g new in
        elim (Option-cases (find g.by_name k)) [
          | inl e ↦ ground (
            arith,
            tables,
            loose,
            new,
            e,
            find-insert g.by_name x.pod_name k g.next,
            eq_iff x.pod_name k,
          )
          | inr (q, e) ↦ ground (
            arith,
            tables,
            loose,
            new,
            e,
            old q (find-IsEntry g k q t e).allocated,
            find-insert g.by_name x.pod_name k g.next,
            eq_iff x.pod_name k,
          )
        ]
    | inr (p, e) ↦
        let (tables, room, same) = register-known x g p e in
        elim (Option-cases (find g.by_name k)) [
          | inl f ↦ ground (arith, tables, e, f, eq_iff x.pod_name k)
          | inr (q, f) ↦ ground (arith, tables, e, f, same q)
        ]
  ]

  pub register-IsTable : (x : Endpoint) (g : Globals) → IsTable g → IsTable (after x g)
  register-IsTable x g t = elim (Option-cases (find g.by_name x.pod_name)) [
    | inl new ↦
        let (tables, room, own, loose, old) = register-new x g new in
        insert-IsTable g (after x g) x.pod_name new tables room own
          (λ q l. ap (λ s. s.name) (old q l)) t
    | inr (p, e) ↦
        let (tables, room, same) = register-known x g p e in
        heap-IsTable g (after x g) tables room (λ q. (same q).0) t
  ]

  register-length : (x : Endpoint) (g : Globals) → length (after x g).by_name ≤ length g.by_name + 1
  register-length x g = elim (Option-cases (find g.by_name x.pod_name)) [
    | inl new ↦ ground (arith, register-new x g new, length-insert g.by_name x.pod_name g.next)
    | inr (p, e) ↦ ground (arith, register-known x g p e)
  ]

  -- The pods of a refresh are known afterwards, and what was known stays what it was.
  pub register_all-view :
      (xs : List Endpoint) (g : Globals) (k : String)
      → IsTable g
      → (view (register_all bound_start now defaults xs g) k ≡ with_pod (knows xs k) (view g k))
        × IsTable (register_all bound_start now defaults xs g)
  unfolding register_all knows
  register_all-view [] g k t = (refl, t)
  register_all-view (x ∷ xs) g k t =
      let (seen, table) = register_all-view xs g k t in
      (
        ground (arith, seen, register-view x (register_all bound_start now defaults xs g) k table),
        register-IsTable x _ table,
      )

  pub register_all-length :
      (xs : List Endpoint) (g : Globals)
      → length (register_all bound_start now defaults xs g).by_name ≤ length g.by_name + length xs
  unfolding register_all
  register_all-length [] g = omega arith
  register_all-length (x ∷ xs) g = omega (
    arith,
    register-length x (register_all bound_start now defaults xs g),
    register_all-length xs g,
  )
