-- ===== src/Threads/Registry.antt =====
-- servers.c with the start of threads of mod_janus.c: the pods that a refresh registers are known.
use mod_janus.Base.{
  ℕ, String, ◌≡◌, refl, true, ◌||◌, some, List, [], ◌∷◌, is_some, arith, str_eq, eq_iff,
}
use mod_janus.Base.Dict.{id_eq, name_eq, find, find-insert}
use mod_janus.Servers.{Server, Globals, store, alloc}
use mod_janus.Servers.Pods.{Hook, create_registry_server}
use mod_janus.Servers.Refresh.{Endpoint, knows, register, register_all}
use mod_janus.Threads.{start_server_thread}

-- start_server_thread as mod_janus_load binds it, called with SWITCH_TRUE
abbrev pub bound_start : Hook
bound_start = some (λ g p. (start_server_thread true g p).1)

module _ (now : ℕ) (defaults : Server) where
  register-knows :
      (x : Endpoint) (g : Globals) (k : String)
      → is_some (find (register bound_start now defaults x g).by_name k)
        ≡ (str_eq x.pod_name k || is_some (find g.by_name k))
  unfolding register create_registry_server store alloc start_server_thread
  register-knows x g k =
      ground (arith, find-insert g.by_name x.pod_name k g.next, eq_iff x.pod_name k)

  -- After the endpoints of a refresh are registered, with threads started as the module does,
  -- exactly the names that were known before and those of the endpoints are known.
  pub register_all-knows :
      (xs : List Endpoint) (g : Globals) (k : String)
      → is_some (find (register_all bound_start now defaults xs g).by_name k)
        ≡ (knows xs k || is_some (find g.by_name k))
  unfolding register_all knows
  register_all-knows [] g k = refl
  register_all-knows (x ∷ xs) g k = ground (
    arith,
    register-knows x (register_all bound_start now defaults xs g) k,
    register_all-knows xs g k,
  )
