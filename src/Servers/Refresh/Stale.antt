-- ===== src/Servers/Refresh/Stale.antt =====
-- servers.c: which servers a refresh takes out.
use mod_janus.Base.{
  ℕ, zero, suc, String, ◌≡◌, true, false, List, [], ◌∷◌, arith, Bool-cases, inl, inr,
}
use mod_janus.Base.Dict.{Dict, id_eq, name_eq}
use mod_janus.Servers.{Server}
use mod_janus.Servers.Refresh.{Endpoint, knows, is_stale, evict_list}

-- A server that a refresh may take out: it is dynamic, its pod is gone, and it has no calls.
pub record IsGone (seen : List Endpoint) (s : Server) : Type 0 where
  pub dynamic : s.dynamic ≡ true
  pub unseen : knows seen s.name ≡ false
  pub idle : s.calls_in_progress ≡ 0

-- Every place of the list holds such a server.
pub data AllGone (seen : List Endpoint) (heap : ℕ → Server) : List ℕ → Type 0 where
  empty : AllGone seen heap []
  more :
      (p : ℕ) (ps : List ℕ)
      → IsGone seen (heap p)
      → AllGone seen heap ps
      → AllGone seen heap (p ∷ ps)

is_stale-IsGone : (seen : List Endpoint) (s : Server) → is_stale seen s ≡ true → IsGone seen s
unfolding is_stale
is_stale-IsGone seen s h = record {
  dynamic = ground (arith, h);
  unseen = ground (arith, h);
  idle = ground (arith, h);
}

-- The servers that a refresh lists for eviction are dynamic, have no calls and are not among the
-- pods that answered.
pub evict_list-AllGone :
    (slots : ℕ) (seen : List Endpoint) (heap : ℕ → Server) (servers : Dict String ℕ)
    → AllGone seen heap (evict_list slots seen heap servers)
unfolding evict_list
evict_list-AllGone zero seen heap servers = empty
evict_list-AllGone (suc slots) seen heap [] = empty
evict_list-AllGone (suc slots) seen heap ((k, p) ∷ servers) =
    elim (Bool-cases (is_stale seen (heap p))) [
      | inl e ↦
          rw e (
            more p _ (is_stale-IsGone seen (heap p) e) (evict_list-AllGone slots seen heap servers))
      | inr e ↦ rw e (evict_list-AllGone (suc slots) seen heap servers)
    ]
