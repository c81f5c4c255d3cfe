-- ===== src/Threads/Refinement/Stays.antt =====
-- servers.c: the registration of pods leaves the servers that are there with what they have.
use mathlib.Core.Path.{subst}
use mod_janus.Base.{
  ℕ, ◌<◌, String, ◌≡◌, ◌≢◌, ◌⊎◌, ◌∙◌, sym, ap, refl, Bool, true, not, ◌||◌, none, some, List, [],
  ◌∷◌, ◌==◌, arith, ==_iff, inl, inr, Bool-cases, Option-cases, if◌then◌else◌,
}
use mod_janus.Base.Dict.{id_eq, name_eq, find}
use mod_janus.Servers.{Server, Globals, store, alloc}
use mod_janus.Servers.Pods.{create_registry_server, update_registry_server}
use mod_janus.Servers.Refresh.{Endpoint, register, register_all}
use mod_janus.Threads.{start_server_thread}
use mod_janus.Threads.Registry.{bound_start}

-- The server keeps its session, its calls and, if it had one, its thread.
pub record Stays (s t : Server) : Type 0 where
  pub session : t.server_id ≡ s.server_id
  pub calls : t.sender_id_lookup ≡ s.sender_id_lookup
  pub count : t.calls_in_progress ≡ s.calls_in_progress
  pub kind : t.dynamic ≡ s.dynamic
  pub thread : (t.thread || not s.thread) ≡ true

pub Stays-refl : (s : Server) → Stays s s
Stays-refl s = record {
  session = refl;
  calls = refl;
  count = refl;
  kind = refl;
  thread = ground arith;
}

Stays-trans : (s t u : Server) → Stays s t → Stays t u → Stays s u
Stays-trans s t u a b = record {
  session = b.session ∙ a.session;
  calls = b.calls ∙ a.calls;
  count = b.count ∙ a.count;
  kind = b.kind ∙ a.kind;
  thread = ground (arith, a.thread, b.thread);
}

update-Stays :
    (now : ℕ) (ip url : String) (s : Server) → Stays s (update_registry_server now ip url s)
unfolding update_registry_server
update-Stays now ip url s = record {
  session = ground arith;
  calls = ground arith;
  count = ground arith;
  kind = ground arith;
  thread = ground arith;
}

-- a server at a place that is taken, over a step of the registration
abbrev pub Keeps : ℕ → Globals → Globals → Type 0
Keeps q g g' = Stays (g.heap q) (g'.heap q) × (q < g'.next)

store-Stays :
    (g : Globals) (p q : ℕ) (t : Server) → Stays (g.heap p) t → q < g.next → Keeps q g (store g p t)
unfolding store
store-Stays g p q t stays taken = elim (Bool-cases (p == q)) [
  | inl b ↦
      let same : p ≡ q = ground (arith, b, ==_iff p q) in
      let to : (store g p t).heap q ≡ t = ground (arith, b) in
      (subst (Stays (g.heap q)) (sym to) (subst (λ r. Stays (g.heap r) t) same stays), taken)
  | inr b ↦
      let to : (store g p t).heap q ≡ g.heap q = ground (arith, b) in
      (subst (Stays (g.heap q)) (sym to) (Stays-refl (g.heap q)), taken)
]

start-Keeps : (g : Globals) (p q : ℕ) → q < g.next → Keeps q g (start_server_thread true g p).1
unfolding start_server_thread
start-Keeps g p q taken =
    store-Stays g p q (record (g.heap p) { enabled = true; thread = true })
      (record { session = refl; calls = refl; count = refl; kind = refl; thread = ground arith })
      taken

Keeps-trans : (q : ℕ) (g h k : Globals) → Keeps q g h → Keeps q h k → Keeps q g k
Keeps-trans q g h k a b = (Stays-trans (g.heap q) (h.heap q) (k.heap q) a.0 b.0, b.1)

create-Keeps :
    (now : ℕ) (defaults : Server) (name ip url : String) (g : Globals) (q : ℕ)
    → q < g.next
    → Keeps q g (create_registry_server bound_start now defaults name ip url g)
unfolding create_registry_server alloc start_server_thread store
create-Keeps now defaults name ip url g q taken =
    let h = create_registry_server bound_start now defaults name ip url g in
    let far : q ≢ g.next = λ e. absurd (omega (arith, e, taken)) in
    let same : h.heap q ≡ g.heap q = ground (arith, far, ==_iff g.next q) in
    (subst (Stays (g.heap q)) (sym same) (Stays-refl (g.heap q)), omega (arith, taken))

module _ (now : ℕ) (defaults : Server) where
  -- a dynamic server that is registered again, and any server that is
  abbrev renewed : Endpoint → Globals → ℕ → Globals
  renewed x g p =
      let g' = store g p (update_registry_server now x.pod_ip x.url (g.heap p)) in
      if (g.heap p).enabled then g' else (start_server_thread true g' p).1

  abbrev known : Endpoint → Globals → ℕ → Globals
  known x g p = if (g.heap p).dynamic then renewed x g p else g

  register-none :
      (x : Endpoint) (g : Globals)
      → find g.by_name x.pod_name ≡ none
      → register bound_start now defaults x g
        ≡ create_registry_server bound_start now defaults x.pod_name x.pod_ip x.url g
  unfolding register
  register-none x g e =
      ap
        (λ o. elim o [
          | none ↦ create_registry_server bound_start now defaults x.pod_name x.pod_ip x.url g
          | some p ↦ known x g p
        ])
        e

  register-cases :
      (x : Endpoint) (g : Globals) (p : ℕ)
      → find g.by_name x.pod_name ≡ some p
      → let g' = store g p (update_registry_server now x.pod_ip x.url (g.heap p)) in
        (register bound_start now defaults x g ≡ g)
        ⊎ (register bound_start now defaults x g ≡ g')
        ⊎ (register bound_start now defaults x g ≡ (start_server_thread true g' p).1)
  unfolding register
  register-cases x g p e =
      let at : register bound_start now defaults x g ≡ known x g p =
        ap
          (λ o. elim o [
            | none ↦ create_registry_server bound_start now defaults x.pod_name x.pod_ip x.url g
            | some p ↦ known x g p
          ])
          e in
      elim (Bool-cases (g.heap p).dynamic) [
        | inr d ↦ inl (at ∙ ap (λ b. if b then renewed x g p else g) d)
        | inl d ↦
            let dyn = at ∙ ap (λ b. if b then renewed x g p else g) d in
            let g' = store g p (update_registry_server now x.pod_ip x.url (g.heap p)) in
            let f : Bool → Globals = λ b. if b then g' else (start_server_thread true g' p).1 in
            elim (Bool-cases (g.heap p).enabled) [
              | inl n ↦ inr (inl (dyn ∙ ap f n))
              | inr n ↦ inr (inr (dyn ∙ ap f n))
            ]
      ]

  register-Keeps :
      (x : Endpoint) (g : Globals) (q : ℕ)
      → q < g.next
      → Keeps q g (register bound_start now defaults x g)
  register-Keeps x g q taken = elim (Option-cases (find g.by_name x.pod_name)) [
    | inl e ↦
        subst (Keeps q g) (sym (register-none x g e))
          (create-Keeps now defaults x.pod_name x.pod_ip x.url g q taken)
    | inr (p, e) ↦
        let g' = store g p (update_registry_server now x.pod_ip x.url (g.heap p)) in
        let moved =
          store-Stays g p q (update_registry_server now x.pod_ip x.url (g.heap p))
            (update-Stays now x.pod_ip x.url (g.heap p)) taken in
        elim (register-cases x g p e) [
          | inl same ↦ subst (Keeps q g) (sym same) (Stays-refl (g.heap q), taken)
          | inr (inl same) ↦ subst (Keeps q g) (sym same) moved
          | inr (inr same) ↦ subst (Keeps q g) (sym same) (
              Keeps-trans q g g' (start_server_thread true g' p).1 moved
                (start-Keeps g' p q moved.1))
        ]
  ]

  pub register_all-Keeps :
      (xs : List Endpoint) (g : Globals) (q : ℕ)
      → q < g.next
      → Keeps q g (register_all bound_start now defaults xs g)
  unfolding register_all
  register_all-Keeps [] g q taken = (Stays-refl (g.heap q), taken)
  register_all-Keeps (x ∷ xs) g q taken =
      let h = register_all bound_start now defaults xs g in
      let before = register_all-Keeps xs g q taken in
      Keeps-trans q g h (register bound_start now defaults x h) before
        (register-Keeps x h q before.1)
