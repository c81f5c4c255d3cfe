-- ===== src/Threads/Outgoing/Wait.antt =====
-- mod_janus.c: how long a call waits for a server's session.
use mod_janus.Base.{ℕ, zero, suc, ◌<◌, ◌≡◌, refl, none, some, arith, Option-cases, ◌⊎◌, inl, inr}
use mod_janus.Base.Dict.{id_eq}
use mod_janus.Servers.{Globals}
use mod_janus.Threads.Outgoing.{active, wait_active, wait_server_active}

-- The first turn at which the server has a session.
pub record IsFirst (states : ℕ → Globals) (p i q : ℕ) : Type 0 where
  pub found : active (states i) p ≡ some q
  pub earlier : (j : ℕ) → j < i → active (states j) p ≡ none

after_none :
    (states : ℕ → Globals) (p n : ℕ)
    → active (states 0) p ≡ none
    → ((i : ℕ) → i < n → active (states (suc i)) p ≡ none)
    → (i : ℕ) → i < suc n
    → active (states i) p ≡ none
after_none states p n e h zero l = e
after_none states p n e h (suc i) l = h i (omega (arith, l))

abbrev WaitsOut : ℕ → (ℕ → Globals) → ℕ → Type 0
WaitsOut turns states p =
    (((i : ℕ) → i < turns → active (states i) p ≡ none) × (wait_active turns states p ≡ none))
    ⊎ ((i q : ℕ) × (i < turns)
        × IsFirst states p i q
        × (wait_active turns states p ≡ some (q, states i)))

wait_active-WaitsOut : (turns : ℕ) (states : ℕ → Globals) (p : ℕ) → WaitsOut turns states p
unfolding wait_active
wait_active-WaitsOut zero states p = inl (λ i l. absurd (omega (arith, l)), refl)
wait_active-WaitsOut (suc turns) states p = elim (Option-cases (active (states 0) p)) [
  | inr (q, e) ↦ inr (
    0,
    q,
    omega arith,
    record { found = e; earlier = λ j l. absurd (omega (arith, l)) },
    ground (arith, e),
  )
  | inl e ↦ elim (wait_active-WaitsOut turns (λ j. states (suc j)) p) [
    | inl (never, out) ↦ inl (after_none states p turns e never, ground (arith, e, out))
    | inr (i, q, room, first, out) ↦ inr (
      suc i,
      q,
      omega (arith, room),
      record { found = first.found; earlier = after_none states p i e first.earlier },
      ground (arith, e, out),
    )
  ]
]

-- A call waits for a server for at most 100 turns of 100 ms. It gets the server of the first turn at
-- which the session id of the dialled server is set and leads to a server, with the state at that
-- turn, and it gets none only if there is no such turn.
pub wait_server_active-IsFirst :
    (states : ℕ → Globals) (p : ℕ)
    → (((i : ℕ) → i < 100 → active (states i) p ≡ none)
        × (wait_server_active 10000 states p ≡ none))
      ⊎ ((i q : ℕ) × (i < 100)
          × IsFirst states p i q
          × (wait_server_active 10000 states p ≡ some (q, states i)))
unfolding wait_server_active
wait_server_active-IsFirst states p = wait_active-WaitsOut 100 states p
