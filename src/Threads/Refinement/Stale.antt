-- ===== src/Threads/Refinement/Stale.antt =====
-- servers.c: the names of the servers that a refresh takes out.
use mod_janus.Base.{
  ℕ, zero, suc, ◌≤◌, String, ◌≡◌, refl, Bool, true, false, not, ◌&&◌, ◌||◌, some, List, [], ◌∷◌,
  length, arith, str_eq, eq_iff, Bool-cases, Option-cases, inl, inr,
}
use mod_janus.Base.Dict.{Dict, id_eq, name_eq, find}
use mod_janus.Base.Dict.Entries.{In, find-In}
use mod_janus.Servers.{Server}
use mod_janus.Servers.Refresh.{Endpoint, knows, is_stale, evict_list}
use mod_janus.Threads.Refinement.{pinned, view_of, unpinned}
use mod_janus.Threads.Refinement.Evict.{named, all_dynamic}

module _ (seen : List Endpoint) (heap : ℕ → Server) where
  fresh :
      (d : Dict String ℕ) (k : String) (p : ℕ)
      → find d k ≡ some p
      → ((j : String) (q : ℕ) → In d j q → ((heap q).name ≡ j) × (find d j ≡ some q))
      → is_stale seen (heap p) ≡ false
      → (q : ℕ) → In d k q
      → is_stale seen (heap q) ≡ false
  fresh d k p h table s q i = ground (arith, h, s, (table k q i).1)

  pub evict_list-all_dynamic :
      (slots : ℕ) (d : Dict String ℕ) → all_dynamic heap (evict_list slots seen heap d) ≡ true
  unfolding evict_list all_dynamic is_stale
  evict_list-all_dynamic zero d = refl
  evict_list-all_dynamic (suc slots) [] = refl
  evict_list-all_dynamic (suc slots) ((k, p) ∷ d) =
      ground (arith, evict_list-all_dynamic slots d, evict_list-all_dynamic (suc slots) d)

  -- an entry of the name leads to a server that is taken out
  unfoldable stale_under : Dict String ℕ → String → Bool
  stale_under [] k = false
  stale_under ((j, p) ∷ d) k = (str_eq j k && is_stale seen (heap p)) || stale_under d k

  evict_list-stale_under :
      (slots : ℕ) (d : Dict String ℕ) (k : String)
      → length d ≤ slots
      → ((j : String) (p : ℕ) → In d j p → (heap p).name ≡ j)
      → named heap (evict_list slots seen heap d) k ≡ stale_under d k
  unfolding evict_list named stale_under
  evict_list-stale_under zero [] k room names = refl
  evict_list-stale_under zero ((j, p) ∷ d) k room names = absurd (omega (arith, room))
  evict_list-stale_under (suc slots) [] k room names = refl
  evict_list-stale_under (suc slots) ((j, p) ∷ d) k room names =
      let own = names j p (inl (refl, refl)) in
      let rest : (i : String) (q : ℕ) → In d i q → (heap q).name ≡ i = λ i q e. names i q (inr e) in
      elim (Bool-cases (is_stale seen (heap p))) [
        | inl e ↦
            ground (arith, e, own, evict_list-stale_under slots d k (omega (arith, room)) rest)
        | inr e ↦
            ground
              (arith, e, own, evict_list-stale_under (suc slots) d k (omega (arith, room)) rest)
      ]

  stale_under-false :
      (d : Dict String ℕ) (k : String)
      → ((q : ℕ) → In d k q → is_stale seen (heap q) ≡ false)
      → stale_under d k ≡ false
  unfolding stale_under
  stale_under-false [] k fresh = refl
  stale_under-false ((j, p) ∷ d) k fresh =
      let rest = stale_under-false d k (λ q e. fresh q (inr e)) in
      elim (Bool-cases (str_eq j k)) [
        | inl e ↦ ground (arith, e, rest, fresh p (inl ((eq_iff j k).0 e, refl)))
        | inr e ↦ ground (arith, e, rest)
      ]

  stale_under-true :
      (d : Dict String ℕ) (k : String) (p : ℕ)
      → In d k p
      → is_stale seen (heap p) ≡ true
      → stale_under d k ≡ true
  unfolding stale_under
  stale_under-true [] k p entry stale = absurd entry
  stale_under-true ((j, q) ∷ d) k p (inl (a, b)) stale = ground (arith, a, b, stale, eq_iff j k)
  stale_under-true ((j, q) ∷ d) k p (inr e) stale = ground (arith, stale_under-true d k p e stale)

  is_stale-pinned : (s : Server) → is_stale seen s ≡ (not (knows seen s.name) && not (pinned s))
  unfolding is_stale
  is_stale-pinned s = ground arith

  -- If every entry of a name leads to the server that the name finds, and the list has room, the
  -- name is taken out when its server is neither among the pods nor pinned, and only then.
  pub evict_list-named :
      (slots : ℕ) (d : Dict String ℕ) (k : String)
      → length d ≤ slots
      → ((j : String) (p : ℕ) → In d j p → ((heap p).name ≡ j) × (find d j ≡ some p))
      → named heap (evict_list slots seen heap d) k
        ≡ (not (knows seen k) && unpinned (view_of heap (find d k)))
  evict_list-named slots d k room table =
      let listed = evict_list-stale_under slots d k room (λ j p e. (table j p e).0) in
      elim (Option-cases (find d k)) [
        | inl e ↦ ground (
          arith,
          listed,
          e,
          stale_under-false d k (λ q i. absurd (ground (arith, e, (table k q i).1))),
        )
        | inr (p, e) ↦
            let (name, _) = table k p (find-In d k p e) in
            let same = is_stale-pinned (heap p) in
            elim (Bool-cases (is_stale seen (heap p))) [
              | inl s ↦
                  ground
                    (arith, listed, e, s, same, name, stale_under-true d k p (find-In d k p e) s)
              | inr s ↦
                  ground
                    (arith, listed, e, s, same, name, stale_under-false d k (fresh d k p e table s))
            ]
      ]
