-- ===== src/Threads/Outgoing/Tests.antt =====
-- A call to a room of the server that is ready.
use mod_janus.Base.{
  ℕ, ◌<◌, ◌≡◌, ◌↔◌, ◌⊎◌, zero, suc, refl, Bool, true, none, some, [], ◌∷◌, decimal, arith,
}
use mod_janus.Base.Dict.{id_eq, name_eq, find}
use mod_janus.Servers.{Globals, zeroed}
use mod_janus.Servers.Url.Roundtrip.{free_of}
use mod_janus.Calls.{Session, cause_success, outgoing_call_barred}
use mod_janus.Calls.Samples.{no_servers}
use mod_janus.Threads.{find_or_refresh, trusted, resolve_server}
use mod_janus.Threads.Outgoing.{
  active, wait_active, wait_server_active, resolve_for_dial, cut, dial, Dialled, bare, made,
  outgoing_channel, room_number,
}
use mod_janus.Threads.Outgoing.Wait.{IsFirst, wait_server_active-IsFirst}
use mod_janus.Threads.Outgoing.DialString.{
  dial_string, outgoing_channel-dial_string, is_gone, outgoing_channel-is_gone,
}

abbrev ready : Globals
ready = record no_servers {
  heap = λ p. record zeroed { name = "janus-0"; enabled = true; server_id = 7 };
  next = 1;
  by_name = ("janus-0", 0) ∷ [];
  by_id = (7, 0) ∷ [];
}

abbrev verify : Bool → Globals → ℕ → Bool × Globals
verify second g p = (true, g)

outgoing_channel-dial_string_example :
    (s : Session) × (outgoing_channel verify
        (λ second g. g)
        (λ g i. g)
        (record {
          session_ok = true;
          destination = some (dial_string "janus-0" "Ann" "1234");
          copy_ok = true;
          alloc_ok = true;
        })
        ready
      ≡ record { cause = cause_success; leg = made s })
    × (s.server_id ≡ 7)
    × (s.room_id ≡ room_number "1234")
    × (room_number (decimal 1234) ≡ 1234)
    × (s.room_id_str ≡ some "1234")
    × (s.display ≡ some "Ann")
    × (s.outbound ≡ true)
unfolding free_of resolve_for_dial resolve_server find_or_refresh trusted find active wait_active
    wait_server_active
outgoing_channel-dial_string_example =
    outgoing_channel-dial_string verify (λ second g. g) (λ g i. g) ready ready "janus-0" "Ann"
      "1234" 1234 0 refl refl (omega arith) refl refl

abbrev unknown : Dialled
unknown = record {
  session_ok = true;
  destination = some (dial_string "janus-9" "Ann" "1234");
  copy_ok = true;
  alloc_ok = true;
}

outgoing_channel-is_gone_example :
    let r = outgoing_channel verify (λ second g. g) (λ g i. g) unknown ready in
    (is_gone r.leg ≡ true) × ((r.leg ≡ bare) ↔ (r.cause ≡ outgoing_call_barred))
unfolding outgoing_channel dial cut resolve_for_dial resolve_server find_or_refresh find
outgoing_channel-is_gone_example =
    outgoing_channel-is_gone verify (λ second g. g) (λ g i. g) unknown ready

-- the server's session is there from the third turn on
abbrev connecting : ℕ → Globals
connecting zero = no_servers
connecting (suc zero) = no_servers
connecting (suc (suc i)) = ready

wait_server_active-IsFirst_example :
    (((i : ℕ) → i < 100 → active (connecting i) 0 ≡ none)
      × (wait_server_active 10000 connecting 0 ≡ none))
    ⊎ ((i q : ℕ) × (i < 100)
        × IsFirst connecting 0 i q
        × (wait_server_active 10000 connecting 0 ≡ some (q, connecting i)))
wait_server_active-IsFirst_example = wait_server_active-IsFirst connecting 0
