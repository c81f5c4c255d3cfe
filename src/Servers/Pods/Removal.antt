-- ===== src/Servers/Pods/Removal.antt =====
-- servers.c: what the removal of a server leaves.
use mod_janus.Base.{ℕ, String, ◌≡◌, ◌≢◌, true, none, if◌then◌else◌, arith, str_eq, ◌==◌}
use mod_janus.Base.Dict.{id_eq, name_eq, find, find-delete}
use mod_janus.Hash.{JanusId}
use mod_janus.Servers.{Globals, store}
use mod_janus.Servers.Pods.{remove_from_lookup}

module _ (g : Globals) (p : ℕ) where
  -- A dynamic server whose name is known and that has a session id is found neither by its name nor
  -- by its id any more, and every other name and id is found as before.
  pub remove_from_lookup-find :
      (k : String) (id : JanusId)
      → (g.heap p).dynamic ≡ true
      → find g.by_name (g.heap p).name ≢ none
      → (g.heap p).server_id ≢ 0
      → (find (remove_from_lookup g p).by_name k
          ≡ (if str_eq (g.heap p).name k then none else find g.by_name k))
        × (find (remove_from_lookup g p).by_id id
            ≡ (if (g.heap p).server_id == id then none else find g.by_id id))
  unfolding remove_from_lookup store
  remove_from_lookup-find k id dyn known has_id = ground (
    arith,
    dyn,
    known,
    has_id,
    find-delete g.by_name (g.heap p).name k,
    find-delete g.by_id (g.heap p).server_id id,
  )
