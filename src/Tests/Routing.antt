-- ===== src/Tests/Routing.antt =====
-- The locator at requests for terminal 1003 and others.
use fleetcore.Prelude.{◌≡◌, refl, some, [], arith}
use fleetcore.Bytes.{little}
use fleetcore.IpcMessage.{IpcLockRequest, ipc_lock_request_object, idx_locator}
use fleetcore.Locator.{Locator, resolve, parse_digits}
use fleetcore.Locator as Loc
use fleetcore.Locator.Resolve.{IsDigits, number, routed, resolve-injective}
use fleetcore.Locator.Route.{on_lock_request_routes}
use fleetcore.Locator.Zero.{zeros, on_lock_request_zero}
use fleetcore.Process.{message, send_to}
use fleetcore.ShmTable.{done}
use fleetcore.ShmTable.Locking.{answers}
use fleetcore.ShmTable.Rows.{find_row}
use fleetcore.Termd.{term_no, index}
use fleetcore.Tests.{
  Queues, keeping, internal_request, header_of_request-IsHeader, open_one, small_table, row_1003,
  term_1003,
}

abbrev pub locator : Locator Queues
locator = record { table = open_one; rows = small_table; queues = [] }

pub IsDigits-1003 : IsDigits term_1003
IsDigits-1003 = ground arith

pub found_1003 : find_row (number term_1003) small_table ≡ some row_1003
unfolding find_row
found_1003 = refl

on_lock_request_routes_example :
    Loc.on_lock_request little keeping
      (answers 0 done 0)
      (ipc_lock_request_object little internal_request)
      locator
    ≡ some (
      message,
      record locator {
        queues =
            (send_to keeping
              (index 3)
              (ipc_lock_request_object little (routed little keeping internal_request (index 3)))
              []).1;
      },
    )
unfolding term_no
on_lock_request_routes_example =
    on_lock_request_routes little keeping internal_request locator 5 0 0 3 row_1003
      header_of_request-IsHeader (omega arith) (refl, refl) IsDigits-1003 refl (omega arith)
      found_1003

resolved : resolve open_one (answers 0 done 0) small_table term_1003 ≡ some 3003
unfolding resolve fleetcore.ShmTable.find fleetcore.ShmTable.locked Loc.found_index find_row
resolved = refl

resolve-injective_example : term_1003 ≡ term_1003
resolve-injective_example =
    resolve-injective open_one open_one (answers 0 done 0) (answers 0 done 0) small_table
      small_table term_1003 term_1003 3003 resolved resolved (omega arith)

abbrev for_zeros : IpcLockRequest
for_zeros = record internal_request { msg = record (internal_request.msg) { term_no = zeros } }

on_lock_request_zero_example :
    (Loc.on_lock_request little keeping
        (answers 0 done 0)
        (ipc_lock_request_object little for_zeros)
        locator
      ≡ some (
        message,
        record locator {
          queues =
              (send_to keeping idx_locator
                (ipc_lock_request_object little (routed little keeping for_zeros idx_locator))
                []).1;
        },
      ))
    × (Loc.on_lock_request little keeping
          (answers 0 done 0)
          (ipc_lock_request_object little (routed little keeping for_zeros idx_locator))
          locator
        ≡ some (
          message,
          record locator {
            queues =
                (send_to keeping idx_locator
                  (ipc_lock_request_object little (routed little keeping for_zeros idx_locator))
                  []).1;
          },
        ))
on_lock_request_zero_example =
    on_lock_request_zero little keeping for_zeros locator 5 0 0 header_of_request-IsHeader
      (omega arith) (refl, refl) refl refl
