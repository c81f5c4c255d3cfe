-- ===== src/Calls/Media/Order.antt =====
-- mod_janus.c: the SDP body and the trickled candidates may come in any order.
use mod_janus.Base.{
  String, ◌≡◌, sym, false, none, some, List, [], ◌∷◌, ◌++◌, arith, is_empty, has_substring,
}
use mod_janus.Calls.{Session, Env}
use mod_janus.Calls.Media.{accepted_session, trickle_session, end_candidates}

-- The trickle events of a list of candidates, in order.
abbrev pub trickles : Env → List String → Session → Session
trickles e [] s = s
trickles e (c ∷ cs) s = trickles e cs (trickle_session e (some c) s).1

abbrev pub Candidates : List String → Type 0
Candidates [] = Unit {0}
Candidates (c ∷ cs) = (is_empty c ≡ false) × Candidates cs

-- A call for which neither the body nor the end of the candidates has come.
pub record IsOpen (s : Session) : Type 0 where
  pub no_body : s.sdp_body ≡ none
  pub not_complete : s.is_trickle_complete ≡ false

module _ (e : Env) (b : String) (bare : has_substring "a=candidate:" b ≡ false) where
  accept-trickle :
      (c : String) (s : Session)
      → is_empty c ≡ false
      → IsOpen s
      → (accepted_session e b (trickle_session e (some c) s).1).1
        ≡ (trickle_session e (some c) (accepted_session e b s).1).1
  unfolding accepted_session trickle_session
  accept-trickle c s h o = ground (arith, bare)

  accept-end :
      (s : Session)
      → IsOpen s
      → (accepted_session e b (end_candidates e s).1).1
        ≡ (end_candidates e (accepted_session e b s).1).1
  unfolding accepted_session end_candidates
  accept-end s o = ground (arith, bare)

  trickle-IsOpen :
      (c : String) (s : Session)
      → is_empty c ≡ false
      → IsOpen s
      → IsOpen (trickle_session e (some c) s).1
  unfolding trickle_session
  trickle-IsOpen c s h o = ground arith

  accept-trickles :
      (cs : List String) (s : Session)
      → Candidates cs
      → IsOpen s
      → (end_candidates e (trickles e cs (accepted_session e b s).1)).1
        ≡ (accepted_session e b (end_candidates e (trickles e cs s)).1).1
  accept-trickles [] s h o = sym (accept-end s o)
  accept-trickles (c ∷ cs) s h o =
      rw (← accept-trickle c s h.0 o)
        (accept-trickles cs (trickle_session e (some c) s).1 h.1 (trickle-IsOpen c s h.0 o))

  -- For a call that has neither the body nor the end of the candidates, and candidates that are not
  -- empty: an SDP body without candidates that comes after the first of them, however many, and
  -- before the rest and their end leaves the same session, with all that FreeSWITCH was told, as
  -- one that comes after their end.
  pub body_position :
      (before after : List String) (s : Session)
      → Candidates before
      → Candidates after
      → IsOpen s
      → (end_candidates e (trickles e after (accepted_session e b (trickles e before s)).1)).1
        ≡ (accepted_session e b (end_candidates e (trickles e (before ++ after) s)).1).1
  body_position [] after s hb ha o = accept-trickles after s ha o
  body_position (c ∷ before) after s hb ha o =
      body_position before after (trickle_session e (some c) s).1 hb.1 ha
        (trickle-IsOpen c s hb.0 o)
