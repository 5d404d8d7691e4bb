-- ===== src/Tests/Starts.antt =====
-- The processes from their start.
use fleetcore.Prelude.{true, some, List, [], ◌∷◌}
use fleetcore.Bytes.{Bytes, little}
use fleetcore.Gateway.{Sockets}
use fleetcore.Gateway.Main as Gate
use fleetcore.Process.{Event, timed_out, request_job_end}
use fleetcore.TcpServer.{ListenCalls}
use fleetcore.Termd.{slot_argument, Env}
use fleetcore.Termd.Main as Term
use fleetcore.Termd.Main.{main-EndsWell}
use fleetcore.ShmTable.{done}
use fleetcore.ShmTable.Locking.{answers}
use fleetcore.Tests.{keeping, scratch, whole_table}
use fleetcore.Tests.Devices.{quiet_round}
use fleetcore.Tests.Journey.{whole_bytes}
use fleetcore.Tests.Shared.{whole_table-IsTable, slow_creator}

abbrev listening : ListenCalls
listening = record { socket = some 3; bind_ok = λ p. true; listen_ok = true; nonblocking_ok = true }

-- A maintenance terminal connects and sends a request, then gateway is told to stop.
abbrev first_request : List (Event Sockets)
first_request = timed_out (record whole_bytes { accept = some 4 }) ∷ request_job_end ∷ []

-- termd for slot 3, whose terminal connects.
abbrev arguments : List Bytes
arguments = (b't' ∷ []) ∷ (b'3' ∷ []) ∷ []

abbrev connects : List (Event Env)
connects = timed_out (record quiet_round { accept = some 4 }) ∷ request_job_end ∷ []

main-EndsWell_example : Term.EndsWell little keeping scratch (slot_argument arguments) (some 9) (
    Term.main little keeping scratch arguments
      (some 9)
      listening
      slow_creator
      (answers 0 done 0)
      connects
      whole_table
      [])
main-EndsWell_example =
    main-EndsWell little keeping scratch arguments (some 9) listening slow_creator
      (answers 0 done 0) connects whole_table [] whole_table-IsTable
