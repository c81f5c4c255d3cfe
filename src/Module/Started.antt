-- ===== src/Module/Started.antt =====
-- mod_janus.c: the threads that run once the module is loaded.
use mathlib.Core.Path.{subst}
use mod_janus.Base.{
  ℕ, String, ◌≡◌, refl, sym, ap, ◌∙◌, true, false, Option, [], ◌∷◌, arith, ==_iff, inl, inr,
}
use mod_janus.Base.Dict.{Dict, id_eq, name_eq}
use mod_janus.Base.Dict.Entries.{In}
use mod_janus.Servers.{Server, Globals, store}
use mod_janus.Servers.Add.{Site, start_registry}
use mod_janus.Config.{ConfigXml, load_config}
use mod_janus.Config.Table.{load_config-IsReady}
use mod_janus.Threads.{start_server_thread}
use mod_janus.Module.{blank, start_one, start_all, module_load}

-- A static server whose thread runs only if it is enabled.
record IsStatic (s : Server) : Type 0 where
  static : s.dynamic ≡ false
  off : s.enabled ≡ false → s.thread ≡ false

start_one-IsStatic :
    (g : Globals) (q p : ℕ) → IsStatic (g.heap p) → IsStatic ((start_one g q).heap p)
unfolding start_one start_server_thread store
start_one-IsStatic g q p h = record {
  static = ground (arith, h.static, ==_iff q p);
  off = ground (arith, h.off, ==_iff q p);
}

-- the thread runs exactly if the server is enabled
abbrev Runs : Server → Type 0
Runs s = s.thread ≡ s.enabled

start_one-Runs : (g : Globals) (q p : ℕ) → Runs (g.heap p) → Runs ((start_one g q).heap p)
unfolding start_one start_server_thread store
start_one-Runs g q p h = ground (arith, h, ==_iff q p)

started-Runs : (g : Globals) (p : ℕ) → IsStatic (g.heap p) → Runs ((start_one g p).heap p)
unfolding start_one start_server_thread store
started-Runs g p h = ground (arith, h.static, h.off, ==_iff p p)

start_all-Runs :
    (d : Dict String ℕ) (g : Globals) (p : ℕ) → Runs (g.heap p) → Runs ((start_all d g).heap p)
unfolding start_all
start_all-Runs [] g p h = h
start_all-Runs ((j, q) ∷ d) g p h = start_all-Runs d (start_one g q) p (start_one-Runs g q p h)

all_started-Runs :
    (d : Dict String ℕ) (g : Globals) (k : String) (p : ℕ)
    → In d k p
    → IsStatic (g.heap p)
    → Runs ((start_all d g).heap p)
unfolding start_all
all_started-Runs [] g k p i h = absurd i
all_started-Runs ((j, q) ∷ d) g k p (inl (a, b)) h =
    start_all-Runs d (start_one g q) p
      (subst (λ x. Runs ((start_one g x).heap p)) (sym b) (started-Runs g p h))
all_started-Runs ((j, q) ∷ d) g k p (inr i) h =
    all_started-Runs d (start_one g q) k p i (start_one-IsStatic g q p h)

start_all-by_name : (d : Dict String ℕ) (g : Globals) → (start_all d g).by_name ≡ g.by_name
unfolding start_all start_one start_server_thread store
start_all-by_name [] g = refl
start_all-by_name ((j, q) ∷ d) g = start_all-by_name d (start_one g q) ∙ ground arith

-- The start of the threads enables no server.
start_all-enabled :
    (d : Dict String ℕ) (g : Globals) (p : ℕ)
    → ((start_all d g).heap p).enabled ≡ (g.heap p).enabled
unfolding start_all start_one start_server_thread store
start_all-enabled [] g p = refl
start_all-enabled ((j, q) ∷ d) g p =
    start_all-enabled d (start_one g q) p ∙ ground (arith, ==_iff q p)

-- The start of the registry's thread changes neither servers nor tables.
pub start_registry-same :
    (g : Globals)
    → ((start_registry g).heap ≡ g.heap)
      × ((start_registry g).by_name ≡ g.by_name)
      × ((start_registry g).by_id ≡ g.by_id)
      × ((start_registry g).next ≡ g.next)
unfolding start_registry
start_registry-same g = (ground arith, ground arith, ground arith, ground arith)

-- Once the module is loaded, whatever its configuration says, the thread of a server that the table
-- of names leads to is started exactly if the configuration enables the server, and the server is
-- enabled exactly then.
pub module_load-Runs :
    (site : Site) (xml : Option ConfigXml) (guess_ip : String) (k : String) (p : ℕ)
    → In (module_load site xml true guess_ip).1.by_name k p
    → (((module_load site xml true guess_ip).1.heap p).thread
        ≡ ((load_config site xml (blank guess_ip)).1.heap p).enabled)
      × (((module_load site xml true guess_ip).1.heap p).enabled
          ≡ ((load_config site xml (blank guess_ip)).1.heap p).enabled)
unfolding module_load
module_load-Runs site xml guess_ip k p i =
    let g = (load_config site xml (blank guess_ip)).1 in
    let bound = record g { start_bound = true; stop_bound = true } in
    let all = start_all bound.by_name bound in
    let (heap, tables, ids, next) = start_registry-same all in
    let entry = subst (λ d. In d k p) (tables ∙ start_all-by_name bound.by_name bound) i in
    let plain = ((load_config-IsReady site xml (blank guess_ip) refl).configured k p entry).plain in
    let same = start_all-enabled bound.by_name bound p in
    let runs =
      all_started-Runs bound.by_name bound k p entry
        (record { static = plain.static; off = λ h. plain.no_thread }) in
    let at_p : ((start_registry all).heap p) ≡ all.heap p = ap (λ h. h p) heap in
    (ap (λ s. s.thread) at_p ∙ (runs ∙ same), ap (λ s. s.enabled) at_p ∙ same)
