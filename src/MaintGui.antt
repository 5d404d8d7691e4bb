-- ===== src/MaintGui.antt =====
-- maint_gui/main.cpp: the maintenance application. A worker's thread talks to gateway and the window's
-- thread draws; they exchange nothing but signals. `emitted` of the worker and `requested` of the
-- window hold the signals that are queued for the other thread and not delivered yet.
pub mod Log
pub mod Lines
pub mod Tells
use fleetcore.Prelude.{ℕ, ◌≡◌, true, List, [], ◌∷◌}
use fleetcore.Bytes.{Bytes, Endian}
use fleetcore.IpcMessage.{gateway_port}
use fleetcore.MaintWindow.{
  MaintWindow, Event, ack_event, link_event, log_event, select_event, click_event, handle,
}
use fleetcore.MaintWindow as Window
use fleetcore.MaintWorker.{
  MaintWorker, Signal, ack_received, link_state_changed, log_line, call, send_lock, stop,
}
use fleetcore.MaintWorker as Worker
use fleetcore.Qt.{QtSocket, Call}

pub record MaintGui (S Q : Type 0) : Type 0 where
  pub worker : MaintWorker S Q
  pub window : MaintWindow Q

-- The slot of the window that a signal of the worker is connected to.
abbrev pub delivers : {Q : Type 0} → Signal Q → Event Q
delivers (ack_received rsp) = ack_event rsp
delivers (link_state_changed connected) = link_event connected
delivers (log_line line) = log_event line

module _ {S Q : Type 0} (qt : QtSocket S) (to_latin1 : Q → Bytes) where
  -- `main` until `exec`, with the first entry of the list of terminals: the thread runs, so that
  -- `start` of the worker is called.
  unfoldable pub launched : Q → MaintGui S Q
  launched first = record {
    worker = Worker.start qt to_latin1 (Worker.created gateway_port);
    window = Window.created first;
  }

  -- What may happen next: in the worker's thread a slot is called, the oldest request of the window is
  -- delivered, or `stop` is called for the end; in the window's thread the oldest signal of the
  -- worker is delivered, a terminal is chosen, or the button is clicked.
  pub data Move (e : Endian) (g : MaintGui S Q) : MaintGui S Q → Type 0 where
    called : (c : Call S) → Move e g (record g { worker = call qt to_latin1 e c g.worker })
    requested :
        (now : ℕ) (scratch : Bytes) (text : Q) (rest : List Q)
        → g.window.requested ≡ text ∷ rest
        → Move e g (record {
          worker = send_lock qt to_latin1 e now scratch text g.worker;
          window = record g.window { requested = rest };
        })
    delivered :
        (sig : Signal Q) (rest : List (Signal Q))
        → g.worker.emitted ≡ sig ∷ rest
        → Move e g (record {
          worker = record g.worker { emitted = rest };
          window = handle (delivers sig) g.window;
        })
    selected : (text : Q) → Move e g (record g { window = handle (select_event text) g.window })
    clicked : Move e g (record g { window = handle click_event g.window })
    quit : Move e g (record g { worker = stop qt to_latin1 g.worker })

  pub data Reach (e : Endian) (g : MaintGui S Q) : MaintGui S Q → Type 0 where
    here : Reach e g g
    later : {s t : MaintGui S Q} → Reach e g s → Move e s t → Reach e g t
