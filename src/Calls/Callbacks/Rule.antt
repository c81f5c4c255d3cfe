-- ===== src/Calls/Callbacks/Rule.antt =====
-- mod_janus.c: what holds after any state method, from what holds after each.
use mathlib.Core.Path.{subst}
use mod_janus.Base.{ℕ, String, ◌≡◌, Bool, Option, some, arith, Status}
use mod_janus.Hash.{JanusId}
use mod_janus.Servers.{Server}
use mod_janus.Calls.{Env}
use mod_janus.Calls.Channel.{World}
use mod_janus.Calls.Methods.{RoomArgs, JoinArgs, on_init, on_routing, on_hangup}
use mod_janus.Calls.Callbacks.{
  Column, init, routing, execute, hangup_column, exchange_media, soft_execute, consume_media,
  hibernate, reset, park, reporting, destroy, on_destroy, state_handler,
}

module _ (P : World → Type 0) (get_sender_id : Server → JanusId → Option String → JanusId)
    (create_room : Server → RoomArgs → JanusId) (join : Server → JoinArgs → Status) (e : Env)
    (read_ready write_ready : Bool) (w : World) (q : ℕ) where
  result-holds :
      (r : Status × World) (status : Status) (w' : World)
      → some r ≡ some (status, w')
      → P r.1
      → P w'
  result-holds r status w' h p = let last : r.1 ≡ w' = ground (arith, h) in subst P last p

  pub handler-holds :
      (column : Column) (status : Status) (w' : World)
      → P w
      → P (on_init get_sender_id create_room e w q).1
      → P (on_routing join e w q).1
      → P (on_hangup e w q).1
      → P (on_destroy read_ready write_ready w q).1
      → state_handler get_sender_id create_room join e read_ready write_ready column w q
        ≡ some (status, w')
      → P w'
  unfolding state_handler
  handler-holds init st w' p i r k d h =
      result-holds (on_init get_sender_id create_room e w q) st w' h i
  handler-holds routing st w' p i r k d h = result-holds (on_routing join e w q) st w' h r
  handler-holds execute st w' p i r k d h = result-holds (st, w) st w' (ground (arith, h)) p
  handler-holds hangup_column st w' p i r k d h = result-holds (on_hangup e w q) st w' h k
  handler-holds exchange_media st w' p i r k d h = result-holds (st, w) st w' (ground (arith, h)) p
  handler-holds soft_execute st w' p i r k d h = result-holds (st, w) st w' (ground (arith, h)) p
  handler-holds destroy st w' p i r k d h =
      result-holds (on_destroy read_ready write_ready w q) st w' h d
  handler-holds consume_media st w' p i r k d h = absurd (ground (arith, h))
  handler-holds hibernate st w' p i r k d h = absurd (ground (arith, h))
  handler-holds reset st w' p i r k d h = absurd (ground (arith, h))
  handler-holds park st w' p i r k d h = absurd (ground (arith, h))
  handler-holds reporting st w' p i r k d h = absurd (ground (arith, h))
