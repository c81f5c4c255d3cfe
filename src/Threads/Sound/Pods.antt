-- ===== src/Threads/Sound/Pods.antt =====
-- servers.c with the start of threads of mod_janus.c: the registration of a pod keeps the table of
-- names sound.
use mathlib.Core.Path.{subst}
use mod_janus.Base.{ℕ, ◌≡◌, ◌∙◌, ap, true, none, some, arith, ==_iff, Option-cases, inl, inr}
use mod_janus.Base.Dict.{id_eq, name_eq, find}
use mod_janus.Base.Dict.Entries.{In, In-insert}
use mod_janus.Servers.{Server, Globals, store, alloc}
use mod_janus.Servers.Pods.{create_registry_server, update_registry_server, registry_server}
use mod_janus.Servers.Refresh.{Endpoint, register}
use mod_janus.Threads.{start_server_thread}
use mod_janus.Threads.Registry.{bound_start}
use mod_janus.Threads.Refinement.Register.{register-new, register-IsTable}
use mod_janus.Threads.Sound.{fit, IsSound}

module _ (now : ℕ) (defaults : Server) (x : Endpoint) (g : Globals) where
  abbrev after : Globals
  after = register bound_start now defaults x g

  -- the new server of a pod is enabled, and its thread is started
  new-fit : find g.by_name x.pod_name ≡ none → fit (after.heap g.next) ≡ true
  unfolding register create_registry_server store alloc start_server_thread registry_server
  new-fit h = rw (h, register) (ground (arith, ==_iff g.next g.next))

  known-fit :
      (p q : ℕ)
      → find g.by_name x.pod_name ≡ some p
      → fit (g.heap q) ≡ true
      → fit (after.heap q) ≡ true
  unfolding register store start_server_thread update_registry_server
  known-fit p q h f = rw (h, register) (ground (arith, f, ==_iff p q))

  known-tables : (p : ℕ) → find g.by_name x.pod_name ≡ some p → after.by_name ≡ g.by_name
  unfolding register store start_server_thread
  known-tables p h = rw (h, register) (ground arith)

  pub register-IsSound : IsSound g → IsSound after
  register-IsSound sound = elim (Option-cases (find g.by_name x.pod_name)) [
    | inl new ↦
        let (tables, room, own, loose, old) = register-new now defaults x g new in
        record {
          table = register-IsTable now defaults x g sound.table;
          all_fit = λ k q i.
              elim (In-insert g.by_name x.pod_name k g.next q (subst (λ d. In d k q) tables i)) [
                | inl (a, b) ↦ subst (λ r. fit (after.heap r) ≡ true) b (new-fit new)
                | inr before ↦
                    ap fit (old q (sound.table k q before).allocated) ∙ sound.all_fit k q before
              ];
        }
    | inr (p, e) ↦ record {
      table = register-IsTable now defaults x g sound.table;
      all_fit =
          λ k q i. known-fit p q e (sound.all_fit k q (subst (λ d. In d k q) (known-tables p e) i));
    }
  ]
