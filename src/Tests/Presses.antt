-- ===== src/Tests/Presses.antt =====
-- The maintenance screen: presses of its button, and what comes back.
use fleetcore.Prelude.{◌≡◌, ◌≢◌, ◌<◌, refl, true, false, some, [], ◌∷◌, ◌++◌, arith, drop}
use fleetcore.Bytes.{Bytes, load_be16, little}
use fleetcore.MaintWindow.{
  handle_all, link_event, select_event, click_event, ack_event, lines_of, link_after, clicks_of,
  created-handle_all,
}
use fleetcore.MaintWindow
use fleetcore.MaintWorker.{
  MaintWorker, created, on_ready_read, run_acts, slot, press, ack_received, log_line, stream_error,
  disconnected_line, link_state_changed,
}
use fleetcore.MaintWorker.Calls.{Served, run_acts-Served}
use fleetcore.MaintWorker.Receive.{on_ready_read_refuses}
use fleetcore.MaintWorker.Send.{requests, send_locks, send_locks_consecutive}
use fleetcore.Qt.{QtSocket, connected, socket_signal, ready_read_signal}
use fleetcore.StreamBuffer.{empty, next, pending}
use fleetcore.StreamBuffer.Serve.{all_wires}
use fleetcore.Tests.{scratch, request, response, response-IsLockResponse}
use fleetcore.Tests.Screens.{socket_of}
use fleetcore.Wire.{wire_ok, bad_magic, unpack_header, check_header, read_header}
use fleetcore.Wire.Layout.{lock_request_wire, lock_response_wire}

-- Texts are their bytes.
abbrev pub terminal : Bytes
terminal = b'1' ∷ b'0' ∷ b'0' ∷ b'3' ∷ []

abbrev pub to_latin1 : Bytes → Bytes
to_latin1 text = text

abbrev silent : QtSocket Bytes
silent = socket_of connected []

-- A worker that is connected, with 65535 as the next number.
abbrev worker : MaintWorker Bytes Bytes
worker = record (created 9100) { socket = some []; next_seq = 65535 }

send_locks_consecutive_example :
    (s : Bytes) × ((send_locks silent to_latin1 little scratch
        ((99, terminal) ∷ (100, terminal) ∷ [])
        worker).socket
      ≡ some s)
    × (s
        ≡ []
          ++ all_wires lock_request_wire
              (requests to_latin1 ((99, terminal) ∷ (100, terminal) ∷ []) 65535))
    × ((send_locks silent to_latin1 little scratch
          ((99, terminal) ∷ (100, terminal) ∷ [])
          worker).next_seq
        ≡ 1)
send_locks_consecutive_example =
    send_locks_consecutive silent to_latin1 little (λ s. s) scratch
      ((99, terminal) ∷ (100, terminal) ∷ []) worker [] (λ s. refl) (λ bs s. refl) (λ bs s. refl)
      refl refl (omega arith) (refl, (refl, tt))

-- A response, and 20 bytes that are no header.
abbrev junk : Bytes
junk = drop 4 (lock_request_wire request)

abbrev broken : QtSocket Bytes
broken = socket_of connected (lock_response_wire response ++ junk)

bad_magic_ne : bad_magic ≢ wire_ok
bad_magic_ne e = cc

on_ready_read_refuses_example : on_ready_read broken to_latin1 little worker ≡ record worker {
  socket = some [];
  rx = empty;
  timers = 2000 ∷ [];
  emitted =
      ack_received response
      ∷ log_line (stream_error bad_magic)
      ∷ log_line disconnected_line
      ∷ link_state_changed false
      ∷ [];
}
unfolding next load_be16 unpack_header check_header read_header
on_ready_read_refuses_example =
    on_ready_read_refuses broken to_latin1 little worker [] [] [] _ junk junk 20 bad_magic
      (response ∷ []) refl refl refl (response-IsLockResponse, tt) refl refl bad_magic_ne refl

run_acts-Served_example :
    Served (
      run_acts broken to_latin1 little
        (press 99 scratch terminal ∷ slot (socket_signal ready_read_signal []) ∷ [])
        worker)
    × (pending
          (run_acts broken to_latin1 little
            (press 99 scratch terminal ∷ slot (socket_signal ready_read_signal []) ∷ [])
            worker).rx
        < 1024)
unfolding next
run_acts-Served_example =
    run_acts-Served broken to_latin1 little
      (press 99 scratch terminal ∷ slot (socket_signal ready_read_signal []) ∷ []) worker
      (refl, omega arith)

-- A click before the connection is there, and one after.
created-handle_all_example :
    ((handle_all
        (click_event ∷ link_event true ∷ click_event ∷ ack_event response ∷ [])
        (MaintWindow.created terminal)).log_view
      ≡ lines_of (click_event ∷ link_event true ∷ click_event ∷ ack_event response ∷ []))
    × ((handle_all
          (click_event ∷ link_event true ∷ click_event ∷ ack_event response ∷ [])
          (MaintWindow.created terminal)).lock_enabled
        ≡ true)
    × ((handle_all
          (click_event ∷ link_event true ∷ click_event ∷ ack_event response ∷ [])
          (MaintWindow.created terminal)).requested
        ≡ terminal ∷ [])
created-handle_all_example =
    created-handle_all terminal
      (click_event ∷ link_event true ∷ click_event ∷ ack_event response ∷ [])
