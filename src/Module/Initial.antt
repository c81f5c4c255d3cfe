-- ===== src/Module/Initial.antt =====
-- mod_janus.c: the state that mod_janus_load leaves is one that the system starts from.
use mathlib.Core.Path.{subst}
use mod_janus.Base.{
  ℕ, String, ◌≡◌, ◌∙◌, sym, ap, refl, Bool, true, false, not, ◌&&◌, Option, none, some, List, [],
  ◌∷◌, arith, Bool-cases, inl, inr,
}
use mod_janus.Base.Dict.{Dict, id_eq, name_eq, find}
use mod_janus.Hash.{JanusId}
use mod_janus.Servers.{Globals, alloc}
use mod_janus.Servers.Pods.{capture_defaults}
use mod_janus.Servers.Add.{Param, ServerXml, Site, install, servers_add, start_registry}
use mod_janus.Calls.{Session, answers}
use mod_janus.Config.{
  ConfigXml, set_setting, set_settings, registry_defaults, add_servers, load_config,
}
use mod_janus.Config.Table.{load_config-IsReady}
use mod_janus.Threads.{start_server_thread}
use mod_janus.Threads.Sound.{fit, IsSound, Steady-IsSound}
use mod_janus.Threads.Sound.Steps.{start-IsSound}
use mod_janus.Threads.System.{IsInitial}
use mod_janus.Module.{blank, start_one, start_all, module_load}
use mod_janus.Module.Started.{start_registry-same}

servers_add-by_id :
    (site : Site) (xml : ServerXml) (g : Globals) → (servers_add site xml g).1.by_id ≡ g.by_id
unfolding servers_add install alloc capture_defaults
servers_add-by_id site xml g = ground arith

add_servers-by_id :
    (site : Site) (xs : List ServerXml) (g : Globals) → (add_servers site xs g).by_id ≡ g.by_id
unfolding add_servers
add_servers-by_id site [] g = refl
add_servers-by_id site (x ∷ xs) g =
    add_servers-by_id site xs (servers_add site x g).1 ∙ servers_add-by_id site x g

set_settings-by_id :
    (site : Site) (ps : List Param) (g : Globals) → (set_settings site ps g).by_id ≡ g.by_id
unfolding set_settings set_setting
set_settings-by_id site [] g = refl
set_settings-by_id site (p ∷ ps) g =
    set_settings-by_id site ps (set_setting site p g) ∙ ground arith

-- the end of load_config, where there may be no servers
by_servers :
    (site : Site) (xs : List ServerXml) (g : Globals)
    → ◌≡◌ {A = Dict JanusId ℕ}
        (let r : Bool × Globals = elim xs [
          | [] ↦ (false, g)
          | x ∷ ys ↦ (true, add_servers site (x ∷ ys) g)
        ] in
          r.1.by_id)
        g.by_id
by_servers site [] g = refl
by_servers site (x ∷ xs) g = add_servers-by_id site (x ∷ xs) g

load_config-by_id :
    (site : Site) (xml : Option ConfigXml) (g : Globals)
    → (load_config site xml g).1.by_id ≡ g.by_id
unfolding load_config registry_defaults
load_config-by_id site none g = refl
load_config-by_id site (some xml) g =
    let g' = registry_defaults (set_settings site xml.settings g) in
    let read : g'.by_id ≡ g.by_id = ground arith ∙ set_settings-by_id site xml.settings g in
    by_servers site xml.servers g' ∙ read

start_one-IsSound : (g : Globals) (p : ℕ) → IsSound g → IsSound (start_one g p)
unfolding start_one
start_one-IsSound g p sound = elim (Bool-cases ((g.heap p).enabled && not (g.heap p).dynamic)) [
  | inl e ↦ rw (e, start_one) (start-IsSound true g p sound)
  | inr e ↦ rw (e, start_one) sound
]

start_all-IsSound : (d : Dict String ℕ) (g : Globals) → IsSound g → IsSound (start_all d g)
unfolding start_all
start_all-IsSound [] g sound = sound
start_all-IsSound ((k, p) ∷ d) g sound =
    start_all-IsSound d (start_one g p) (start_one-IsSound g p sound)

start_all-by_id : (d : Dict String ℕ) (g : Globals) → (start_all d g).by_id ≡ g.by_id
unfolding start_all start_one start_server_thread
start_all-by_id [] g = refl
start_all-by_id ((k, p) ∷ d) g = start_all-by_id d (start_one g p) ∙ ground arith

-- what the configuration leaves is sound: no server has a thread, and none is being stopped
configured-IsSound :
    (site : Site) (xml : Option ConfigXml) (guess_ip : String)
    → IsSound (load_config site xml (blank guess_ip)).1
configured-IsSound site xml guess_ip =
    let ready = load_config-IsReady site xml (blank guess_ip) refl in
    record {
      table = ready.table;
      all_fit = λ k p i.
          let plain = (ready.configured k p i).plain in
          ground (arith, plain.no_thread, plain.not_stopping);
    }

-- Once the module is loaded, whatever its configuration says, and before there are calls, it is in
-- a state that the system starts from.
pub module_load-IsInitial :
    (site : Site) (xml : Option ConfigXml) (guess_ip : String) (sessions : ℕ → Session)
    → ((q : ℕ) → answers (sessions q).trace ≡ 0)
    → ((q : ℕ) → (sessions q).answer_done ≡ false)
    → IsInitial (record {
      world = record { globals = (module_load site xml true guess_ip).1; sessions = sessions };
      own = λ p. 0;
    })
unfolding module_load find
module_load-IsInitial site xml guess_ip sessions untold undone =
    let g = (load_config site xml (blank guess_ip)).1 in
    let bound = record g { start_bound = true; stop_bound = true } in
    let all = start_all bound.by_name bound in
    let (heap, tables, ids, next) = start_registry-same all in
    let configured = configured-IsSound site xml guess_ip in
    let bound_sound : IsSound bound = record {
      table = λ k p i.
          let x = configured.table k p i in
          record { named = x.named; allocated = x.allocated; found = x.found };
      all_fit = configured.all_fit;
    } in
    let empty : (start_registry all).by_id ≡ [] =
      ids ∙ (start_all-by_id bound.by_name bound ∙ load_config-by_id site xml (blank guess_ip)) in
    record {
      none_held = λ q. refl;
      none_known = λ id. subst (λ d. find d id ≡ none) (sym empty) refl;
      sound =
          Steady-IsSound all (start_registry all)
            (record {
              next = next;
              names = λ q. ap (λ h. (h q).name) heap;
              flags = λ q. ap (λ h. fit (h q)) heap;
              tables = tables;
            })
            (start_all-IsSound bound.by_name bound bound_sound);
      untold = untold;
      undone = undone;
    }
