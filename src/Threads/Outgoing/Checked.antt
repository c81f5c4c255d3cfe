-- ===== src/Threads/Outgoing/Checked.antt =====
-- mod_janus.c: the server that resolveServerForDial returns, with its check and its wait.
use mod_janus.Base.{
  ℕ, ◌<◌, String, ◌≡◌, ◌≢◌, ◌∙◌, ap, Bool, Option, none, some, arith, ==_iff, inl, inr,
}
use mod_janus.Base.Dict.{id_eq, name_eq, find}
use mod_janus.Json.{JsonLib}
use mod_janus.Servers.{Globals}
use mod_janus.Threads.{resolve_server}
use mod_janus.Threads.Dial.{MayDial, Answer, check, resolve-MayDial}
use mod_janus.Threads.Outgoing.{active, wait_server_active, resolve_for_dial}
use mod_janus.Threads.Outgoing.Wait.{wait_server_active-IsFirst}

active-leads :
    (g : Globals) (p q : ℕ)
    → active g p ≡ some q
    → ((g.heap p).server_id ≢ 0) × (find g.by_id (g.heap p).server_id ≡ some q)
unfolding active
active-leads g p q h = (
  λ z. absurd (ground (arith, h, z, ==_iff (g.heap p).server_id 0)),
  ground (arith, h, ==_iff (g.heap p).server_id 0),
)

module _ (c : JsonLib) (fetch : Bool → String → Option c.Node) (now : Bool → ℕ)
    (refresh : Bool → Globals → Globals) (states : Globals → ℕ → Globals) where
  -- The server `q` that is got in the state `g'` for a name: the name led to a server that could be
  -- dialled, and after less than 100 waits that server's session id led to `q`.
  pub record IsCheckedFor (name : String) (q : ℕ) (g' : Globals) : Type 0 where
    pub server : ℕ
    pub checked : Globals
    pub may_dial : MayDial c fetch now server checked
    pub named : find checked.by_name name ≡ some server
    pub waits : ℕ
    pub soon : waits < 100
    pub at : states checked waits ≡ g'
    pub has_session : ((states checked waits).heap server).server_id ≢ 0
    pub leads :
        find (states checked waits).by_id ((states checked waits).heap server).server_id ≡ some q

  waited-IsCheckedFor :
      (name : String) (p q : ℕ) (g1 g' : Globals)
      → Answer c fetch now refresh name (some p, g1)
      → wait_server_active 10000 (states g1) p ≡ some (q, g')
      → IsCheckedFor name q g'
  waited-IsCheckedFor name p q g1 g' (may, named) h =
      elim (wait_server_active-IsFirst (states g1) p) [
        | inl (never, out) ↦ absurd (ground (arith, h, out))
        | inr (i, r, soon, first, out) ↦
            let same : r ≡ q = ground (arith, h, out) in
            let (has_session, leads) = active-leads (states g1 i) p r first.found in
            record {
              server = p;
              checked = g1;
              may_dial = may;
              named = named;
              waits = i;
              soon = soon;
              at = ground (arith, h, out);
              has_session = has_session;
              leads = leads ∙ ap some same;
            }
      ]

  resolved-IsCheckedFor :
      (name : String) (q : ℕ) (g' : Globals) (r : Option ℕ × Globals)
      → Answer c fetch now refresh name r
      → elim r.0 [ none ↦ none | some p ↦ wait_server_active 10000 (states r.1) p ] ≡ some (q, g')
      → IsCheckedFor name q g'
  resolved-IsCheckedFor name q g' (none, g1) a h = absurd (ground (arith, h))
  resolved-IsCheckedFor name q g' (some p, g1) a h = waited-IsCheckedFor name p q g1 g' a h

  -- Whatever the pods answer at the two attempts, and whatever the refreshes do and the other threads
  -- do meanwhile: a server is returned for a call only after the name led to a server that is static
  -- or that an identity check has just confirmed. The call then waited for that server, less than 100
  -- times 100 ms, until it had a session id, and the server returned is the one that the table of ids
  -- leads to from that id at that moment.
  pub resolve_for_dial-IsCheckedFor :
      (g g' : Globals) (name : String) (q : ℕ)
      → resolve_for_dial (check c fetch now) refresh states g name ≡ some (q, g')
      → IsCheckedFor name q g'
  unfolding resolve_for_dial
  resolve_for_dial-IsCheckedFor g g' name q h =
      resolved-IsCheckedFor name q g' (resolve_server (check c fetch now) refresh g name)
        (resolve-MayDial c fetch now refresh g name) h
