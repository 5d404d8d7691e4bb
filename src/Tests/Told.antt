-- ===== src/Tests/Told.antt =====
-- The maintenance screen from its start: connected, clicked, acknowledged.
use fleetcore.Prelude.{ℕ, ◌≡◌, refl, true, some, List, [], ◌∷◌, ◌++◌, arith}
use fleetcore.Bytes.{Bytes, AreBytes, little}
use fleetcore.MaintGui.{MaintGui, launched, Reach, here, later, called, delivered}
use fleetcore.MaintGui.Log.{line_of, click_sends, responses_logged}
use fleetcore.MaintGui.Lines.{LinkShown, heard, OfResponse, sent_lines}
use fleetcore.MaintGui.Tells.{screen_tells}
use fleetcore.MaintWindow.{
  MaintWindow, worker_line, handle, on_clicked, on_log_line, on_link_state_changed,
}
use fleetcore.MaintWindow as Window
use fleetcore.MaintWorker.{
  created, start, try_reconnect, call, on_connected, connected_line, log_line, lock_sent,
  link_state_changed,
}
use fleetcore.MaintWorker.Send.{request_of}
use fleetcore.MaintWorker.Told.{first_numbers}
use fleetcore.Qt.{QtSocket, connected, socket_signal, connected_signal}
use fleetcore.StreamBuffer.{next, reset}
use fleetcore.StreamBuffer.Serve.{All}
use fleetcore.Tests.{scratch, response, response-IsLockResponse}
use fleetcore.Tests.Presses.{terminal, to_latin1}
use fleetcore.Tests.Screens.{socket_of}
use fleetcore.Wire.Layout.{lock_request_wire, lock_response_wire}

abbrev answering : QtSocket Bytes
answering = socket_of connected (lock_response_wire response)

AreBytes-response : AreBytes (lock_response_wire response)
AreBytes-response = omega arith

-- The connection has come, and the window has been told.
abbrev up : MaintGui Bytes Bytes
up = record {
  worker = record (created 9100) { socket = some [] };
  window = record {
    selected = terminal;
    lock_enabled = true;
    log_view = worker_line connected_line ∷ [];
    link_text = "link: connected";
    link_style = "color: green;";
    requested = [];
  };
}

get_up : Reach answering to_latin1 little (launched answering to_latin1 terminal) up
unfolding launched start try_reconnect call on_connected reset handle on_log_line
    on_link_state_changed Window.created
get_up =
    later
      (later (later here (called (socket_signal connected_signal [])))
        (delivered (log_line connected_line) (link_state_changed true ∷ []) refl))
      (delivered (link_state_changed true) [] refl)

go_on :
    {s t u : MaintGui Bytes Bytes}
    → Reach answering to_latin1 little s t
    → Reach answering to_latin1 little t u
    → Reach answering to_latin1 little s u
go_on r here = r
go_on r (later more move) = later (go_on r more) move

abbrev sent_request : Bytes
sent_request = lock_request_wire (request_of 99 terminal 1)

-- The button has been clicked, the request written, and its acknowledgement shown.
abbrev told : MaintGui Bytes Bytes
told = record {
  worker = record (created 9100) { socket = some sent_request; next_seq = 2 };
  window = record (up.window) {
    log_view =
        worker_line connected_line ∷ worker_line (lock_sent terminal 1) ∷ line_of response ∷ [];
  };
}

get_told : Reach answering to_latin1 little (launched answering to_latin1 terminal) told
unfolding next handle on_log_line
get_told =
    let sends =
      click_sends answering to_latin1 little 99 scratch up [] sent_request refl refl refl refl refl
        refl refl in
    let shown = later (go_on get_up sends) (delivered (log_line (lock_sent terminal 1)) [] refl) in
    go_on shown (
      responses_logged answering to_latin1 little _ sent_request sent_request
        (lock_response_wire response) [] (response ∷ []) refl (response-IsLockResponse, tt) refl
        refl refl)

screen_tells_example :
    LinkShown told.window
    × All (OfResponse (heard get_told)) told.window.log_view
    × ((n : ℕ) × (rest : List ℕ) × (sent_lines told.window.log_view ++ rest ≡ first_numbers n))
screen_tells_example =
    screen_tells answering to_latin1 little (λ s. AreBytes-response) terminal told get_told

click_sends_example : Reach answering to_latin1 little up (record {
  worker = record (up.worker) {
    socket = some sent_request;
    next_seq = 2;
    emitted = log_line (lock_sent terminal 1) ∷ [];
  };
  window = record (up.window) { requested = [] };
})
click_sends_example =
    click_sends answering to_latin1 little 99 scratch up [] sent_request refl refl refl refl refl
      refl refl
