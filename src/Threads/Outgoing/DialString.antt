-- ===== src/Threads/Outgoing/DialString.antt =====
-- mod_janus.c: the parts of a dial string, and what a refused call leaves.
use Prim.Native.String.{◌++◌}
use Prim.Native.String.append
use mod_janus.Base.{
  ℕ, ◌<◌, ◌^◌, String, Char, ◌≡◌, refl, Bool, true, false, not, ◌↔◌, some, arith, strtoull-decimal,
  decimal,
}
use mod_janus.Servers.{Globals}
use mod_janus.Servers.Url.Roundtrip.{free_of}
use mod_janus.Calls.{Session, Cause, cause_success, outgoing_call_barred}
use mod_janus.Threads.Outgoing.{
  cut, is_slash, is_at, room_number, Dialled, Leg, gone, bare, made, new_call, dial_room,
  resolve_for_dial, dial, outgoing_channel,
}

cut-free :
    (stops : Char → Bool) (s : String) (c : Char) (t : String)
    → free_of stops s ≡ true
    → stops c ≡ true
    → cut stops (s ++ String.◌∷◌ c t) ≡ some (s, t)
unfolding cut free_of
cut-free stops String.[] c t free stop = rw (append.nil (String.◌∷◌ c t)) (ground (arith, stop))
cut-free stops (String.◌∷◌ d s) c t free stop =
    rw (append.cons d s (String.◌∷◌ c t))
      (ground (arith, free, cut-free stops s c t (ground (arith, free)) stop))

room_number-decimal : (n : ℕ) → n < 2 ^ 64 → room_number (decimal n) ≡ n
unfolding room_number
room_number-decimal n h = rw (strtoull-decimal n h) refl

-- the dial string of a room
abbrev pub dial_string : String → String → String → String
dial_string name display room = name ++ String.◌∷◌ "/" (display ++ String.◌∷◌ "@" room)

-- the call is set up, or it is barred
abbrev pub is_kept : Cause → Bool
is_kept cause_success = true
is_kept outgoing_call_barred = true
is_kept _ = false

abbrev pub is_gone : Leg → Bool
is_gone gone = true
is_gone bare = false
is_gone (made s) = false

module _ (verify : Bool → Globals → ℕ → Bool × Globals) (refresh : Bool → Globals → Globals)
    (states : Globals → ℕ → Globals) where
  -- A call to `name/display@room` whose server is found with a session and is enabled, and for
  -- which there is memory, is set up, if the name has no `/` and the display no `@`: its private
  -- object has the session id of that server, the texts of the display and of the room, whatever
  -- text the room is, and the room's number; and the number of a decimal text is the number that it
  -- stands for, if this has 64 bits.
  pub outgoing_channel-dial_string :
      (g g' : Globals) (name display room : String) (n p : ℕ)
      → free_of is_slash name ≡ true
      → free_of is_at display ≡ true
      → n < 2 ^ 64
      → resolve_for_dial verify refresh states g name ≡ some (p, g')
      → (g'.heap p).enabled ≡ true
      → (s : Session) × (outgoing_channel verify refresh states
            (record {
              session_ok = true;
              destination = some (dial_string name display room);
              copy_ok = true;
              alloc_ok = true;
            })
            g
          ≡ record { cause = cause_success; leg = made s })
        × (s.server_id ≡ (g'.heap p).server_id)
        × (s.room_id ≡ room_number room)
        × (room_number (decimal n) ≡ n)
        × (s.room_id_str ≡ some room)
        × (s.display ≡ some display)
        × (s.outbound ≡ true)
  unfolding outgoing_channel dial dial_room
  outgoing_channel-dial_string g g' name display room n p free_name free_display small found
        enabled =
      (
        new_call (g'.heap p).server_id display room,
        rw
            (
              dial,
              cut-free is_slash name "/" (display ++ String.◌∷◌ "@" room) free_name refl,
              found,
              dial_room,
              cut-free is_at display "@" room free_display refl,
              enabled,
            )
            refl,
        refl,
        refl,
        room_number-decimal n small,
        refl,
        refl,
        refl,
      )

  -- A call that is refused leaves no session, and one that is set up has one, whatever the dial
  -- string and the servers are; but a call that is barred because its server is disabled leaves the
  -- new session behind.
  pub outgoing_channel-is_gone :
      (d : Dialled) (g : Globals)
      → let r = outgoing_channel verify refresh states d g in
        (is_gone r.leg ≡ not (is_kept r.cause))
        × ((r.leg ≡ bare) ↔ (r.cause ≡ outgoing_call_barred))
  unfolding outgoing_channel dial dial_room
  outgoing_channel-is_gone d g = ground arith
