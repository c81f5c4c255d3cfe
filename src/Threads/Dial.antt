-- ===== src/Threads/Dial.antt =====
-- mod_janus.c: which server resolveServerForDial waits for.
use mod_janus.Base.{
  ℕ, String, ◌≡◌, ◌∙◌, sym, ap, refl, Bool, true, false, Option, none, some, zstr, Bool-cases,
  Option-cases, inl, inr, arith,
}
use mod_janus.Base.Dict.{id_eq, name_eq, find}
use mod_janus.Json.{JsonLib}
use mod_janus.Servers.{Globals, store}
use mod_janus.Threads.{confirm, find_or_refresh, trusted, retry, resolve_server, verify_at}

module _ (c : JsonLib) (fetch : Bool → String → Option c.Node) (now : Bool → ℕ) where
  -- the check of the first or of the second attempt, with what the pods answer then and the clock
  abbrev pub check : Bool → Globals → ℕ → Bool × Globals
  check second g p = verify_at c (fetch second) (now second) g p

  -- A server that may be dialled in a state: it is static, or an identity check of it has just led
  -- from some state to this one with success.
  pub data MayDial : ℕ → Globals → Type 0 where
    static : (g : Globals) (p : ℕ) → (g.heap p).dynamic ≡ false → MayDial p g
    verified :
        (second : Bool) (g g' : Globals) (p : ℕ) → check second g p ≡ (true, g') → MayDial p g'

  -- a check leaves the table of names as it is
  check-by_name : (second : Bool) (g : Globals) (p : ℕ) → (check second g p).1.by_name ≡ g.by_name
  unfolding verify_at store
  check-by_name second g p = refl

  module _ (refresh : Bool → Globals → Globals) where
    -- a server that is found may be dialled, and the table of names leads from the name to it
    abbrev pub Answer : String → Option ℕ × Globals → Type 0
    Answer name (none, g) = Unit {0}
    Answer name (some p, g) = MayDial p g × (find g.by_name name ≡ some p)

    confirm-MayDial :
        (second : Bool) (g : Globals) (name : String) (p : ℕ) (r : Bool × Globals)
        → find g.by_name name ≡ some p
        → check second g p ≡ r
        → Answer name (confirm p r)
    confirm-MayDial second g name p (true, g') h e = (
      verified second g g' p e,
      ap (λ r. find r.1.by_name name) (sym e)
          ∙ ap (λ d. find d name) (check-by_name second g p)
          ∙ h,
    )
    confirm-MayDial second g name p (false, g') h e = _

    trusted-MayDial :
        (second : Bool) (g : Globals) (name : String) (p : ℕ)
        → find g.by_name name ≡ some p
        → Answer name (trusted check refresh second g p)
    unfolding trusted
    trusted-MayDial second g name p h = elim (Bool-cases (g.heap p).dynamic) [
      | inl e ↦ rw (e, trusted) (confirm-MayDial second g name p (check second g p) h refl)
      | inr e ↦ rw (e, trusted) (static g p e, h)
    ]

    retry-MayDial :
        (g : Globals) (p : ℕ) (name : String)
        → find g.by_name name ≡ some p
        → Answer name (retry check refresh g p name)
    unfolding retry
    retry-MayDial g p name h = elim (Bool-cases (zstr g.headless_service_url)) [
      | inl e ↦ rw (e, retry) (trusted-MayDial true g name p h)
      | inr e ↦ elim (Option-cases (find (refresh true g).by_name name)) [
        | inl f ↦ rw (e, retry, f) _
        | inr (q, f) ↦ rw (e, retry, f) (trusted-MayDial true (refresh true g) name q f)
      ]
    ]

    confirm-by_name : (p : ℕ) (r : Bool × Globals) → (confirm p r).1.by_name ≡ r.1.by_name
    confirm-by_name p (true, g') = refl
    confirm-by_name p (false, g') = refl

    trusted-by_name :
        (second : Bool) (g : Globals) (p : ℕ)
        → (trusted check refresh second g p).1.by_name ≡ g.by_name
    unfolding trusted
    trusted-by_name second g p = elim (Bool-cases (g.heap p).dynamic) [
      | inl e ↦ rw (e, trusted) (confirm-by_name p (check second g p) ∙ check-by_name second g p)
      | inr e ↦ rw (e, trusted) refl
    ]

    second-MayDial :
        (p : ℕ) (name : String) (r : Option ℕ × Globals)
        → find r.1.by_name name ≡ some p
        → Answer name r
        → Answer name (elim r.0 [ some q ↦ (some q, r.1) | none ↦ retry check refresh r.1 p name ])
    second-MayDial p name (some q, g) f h = h
    second-MayDial p name (none, g) f h = retry-MayDial g p name f

    found-named :
        (g : Globals) (name : String) (p : ℕ)
        → (find_or_refresh check refresh g name).0 ≡ some p
        → find (find_or_refresh check refresh g name).1.by_name name ≡ some p
    unfolding find_or_refresh
    found-named g name p h = elim (Option-cases (find g.by_name name)) [
      | inr (q, e) ↦ ground (arith, h, e)
      | inl e ↦ ground (arith, h, e)
    ]

    pub resolve-MayDial :
        (g : Globals) (name : String) → Answer name (resolve_server check refresh g name)
    unfolding resolve_server
    resolve-MayDial g name = elim (Option-cases (find_or_refresh check refresh g name).0) [
      | inl e ↦ rw (e, resolve_server) _
      | inr (p, e) ↦
          let g1 = (find_or_refresh check refresh g name).1 in
          let named = found-named g name p e in
          rw (e, resolve_server)
            (second-MayDial p name (trusted check refresh false g1 p)
              (ap (λ d. find d name) (trusted-by_name false g1 p) ∙ named)
              (trusted-MayDial false g1 name p named))
    ]
