-- ===== src/Tests/Screens.antt =====
-- The screen of terminal 1003.
use fleetcore.Prelude.{◌≡◌, refl, true, some, [], ◌∷◌, ◌++◌, arith, length}
use fleetcore.Bytes.{Bytes, AreBytes, little}
use fleetcore.CommWorker.{
  CommWorker, created, start, try_reconnect, run_calls, on_ready_read, lock_received,
}
use fleetcore.CommWorker.Receive.{on_ready_read_emits}
use fleetcore.CommWorker.Retry.{start_dials_once}
use fleetcore.LockWindow.{
  Event, lock_event, link_event, press_event, handle_all, created-looks, Shown, looks,
  locked_by_request,
}
use fleetcore.LockWindow as Window
use fleetcore.Qt.{
  QtSocket, SocketState, connected, unconnected, socket_signal, unheard_signal, time_out,
}
use fleetcore.StreamBuffer.{empty, next}
use fleetcore.StreamBuffer.Framing.{buffer}
use fleetcore.TermGui.{TermGui, launched, Reach}
use fleetcore.TermGui.Screen.{heard, ShowsGenuine, screen_shows, requests_lock}
use fleetcore.Tests.{request, request-IsLockRequest}
use fleetcore.Wire.Layout.{lock_request_wire}

-- A socket in this state, on which these bytes can be read, that keeps what is written.
abbrev pub socket_of : SocketState → Bytes → QtSocket Bytes
socket_of state incoming = record {
  fresh = [];
  state = λ s. state;
  connect_to_host = λ port s. s;
  abort = λ s. (true, s);
  read_all = λ s. (incoming, s);
  write = λ bs s. (some (length bs), s ++ bs);
}

-- One on which the request and half of one more can be read.
abbrev one_and_a_half : QtSocket Bytes
one_and_a_half = socket_of connected (lock_request_wire request ++ (b'F' ∷ b'C' ∷ []))

abbrev one : QtSocket Bytes
one = socket_of connected (lock_request_wire request)

abbrev worker : CommWorker Bytes
worker = record (created 9203) { socket = some [] }

abbrev screen : TermGui Bytes
screen = record { worker = worker; window = Window.created }

on_ready_read_emits_example : on_ready_read one_and_a_half little worker ≡ record worker {
  socket = some [];
  rx = buffer (b'F' ∷ b'C' ∷ []);
  emitted = lock_received request ∷ [];
}
unfolding next
on_ready_read_emits_example =
    on_ready_read_emits one_and_a_half little worker [] [] _ (b'F' ∷ b'C' ∷ []) (request ∷ []) refl
      refl (request-IsLockRequest, tt) refl refl

start_dials_once_example :
    (start (socket_of unconnected []) (created 9203) ≡ record (created 9203) { socket = some [] })
    × (run_calls
          (socket_of unconnected [])
          little
          (socket_signal unheard_signal [] ∷ time_out ∷ [])
          (start (socket_of unconnected []) (created 9203))
        ≡ record (created 9203) { socket = some [] })
start_dials_once_example =
    start_dials_once (socket_of unconnected []) little
      (socket_signal unheard_signal [] ∷ time_out ∷ []) 9203 refl tt

created-looks_example :
    handle_all
      (link_event true ∷ lock_event request ∷ press_event ∷ lock_event request ∷ [])
      Window.created
    ≡ looks (record { locked_by = some request; link = true })
created-looks_example =
    created-looks (link_event true ∷ lock_event request ∷ press_event ∷ lock_event request ∷ [])

requests_lock_example : Reach one little screen (record {
  worker = record worker { socket = some []; rx = empty; emitted = [] };
  window = locked_by_request request Window.created;
})
unfolding next
requests_lock_example =
    requests_lock one little screen [] [] (lock_request_wire request) [] [] request refl
      (request-IsLockRequest, tt) refl refl refl

AreBytes-request : AreBytes (lock_request_wire request)
AreBytes-request = omega arith

-- What the screen of the application shows then.
abbrev locked : TermGui Bytes
locked = record {
  worker = record worker { socket = some []; rx = empty; emitted = [] };
  window = locked_by_request request Window.created;
}

get_there : Reach one little (launched one 9203) locked
unfolding next launched start try_reconnect
get_there =
    requests_lock one little screen [] [] (lock_request_wire request) [] [] request refl
      (request-IsLockRequest, tt) refl refl refl

screen_shows_example :
    (v : Shown) × (locked.window ≡ looks v) × ShowsGenuine (heard get_there) v.locked_by
screen_shows_example = screen_shows one little (λ s. AreBytes-request) 9203 locked get_there
