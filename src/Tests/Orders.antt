-- ===== src/Tests/Orders.antt =====
-- The processes of one host from their start: one request, and what the terminals are sent.
use mathlib.Core.List.{Sublist}
use fleetcore.Prelude.{◌≡◌, refl, arith, List, [], ◌++◌, drop}
use fleetcore.Bytes.{little}
use fleetcore.Fleet.{Fleet, Reach}
use fleetcore.Fleet.Delivery.{Idle, request_travels}
use fleetcore.Fleet.Origin.Kept.{Pieces, Answers}
use fleetcore.Fleet.Order.Turns.{InTurn, MadeOf, Names}
use fleetcore.Fleet.Order.{sent_in_order}
use fleetcore.Fleet.Origin.{Started, heard, only_asked}
use fleetcore.Proto.{LockRequest}
use fleetcore.StreamBuffer.{empty}
use fleetcore.StreamBuffer.Serve.{All}
use fleetcore.Termd.{term_no}
use fleetcore.Tests.{scratch, request, request-IsLockRequest, row_1003, term_1003}
use fleetcore.Tests.Devices.{quiet_round}
use fleetcore.Tests.Journey.{whole_bytes}
use fleetcore.Tests.Kernel.{Waiting, lists, host}
use fleetcore.Tests.Routing.{found_1003, IsDigits-1003}
use fleetcore.Wire.{make_lock_response}
use fleetcore.Wire.Layout.{lock_request_wire, lock_response_wire}

-- gateway has read nothing yet.
abbrev fresh : Fleet Waiting
fresh = record host { gateway = record (host.gateway) { rx = empty } }

fresh-Started : Started lists fresh
fresh-Started = record {
  locator_idle = refl;
  termd_idle = λ slot small. refl;
  gateway_idle = refl;
  nothing_read = refl;
  nothing_answered = refl;
  nothing_delivered = λ slot small. refl;
}

-- The request for terminal 1003 comes and goes its way.
way :
    (f : Fleet Waiting) × Reach lists little fresh f
    × ((f.termds 3).sent ≡ [] ++ lock_request_wire request)
    × (f.gateway.sent ≡ [] ++ lock_response_wire (make_lock_response 5000 term_1003 7 0))
    × Idle lists little 3 f.kernel
unfolding term_no
way =
    request_travels lists little fresh request 3 scratch whole_bytes whole_bytes b'F'
      (drop 1 (lock_request_wire request)) 4 4 5 0 0 row_1003 quiet_round (refl, refl, refl)
      request-IsLockRequest IsDigits-1003 refl (omega arith) refl refl refl refl refl (refl, refl)
      found_1003 refl (omega arith, (omega arith, tt)) (omega arith)
      (omega arith, (omega arith, tt)) (omega arith)

sent_in_order_example :
    (asked done : List LockRequest) × InTurn asked (heard (way.1))
    × Sublist done asked
    × All (Names 3) done
    × MadeOf done ((way.0).termds 3).sent
sent_in_order_example = sent_in_order little lists 3 (omega arith) (way.1) fresh-Started

only_asked_example : Pieces (Answers (heard (way.1))) lock_response_wire (way.0).gateway.sent
only_asked_example = only_asked little lists (way.1) fresh-Started
