-- ===== src/TermGui.antt =====
-- term_gui/main.cpp: the application of a vehicle terminal. A worker's thread talks to termd and the
-- window's thread draws; they exchange nothing but signals. `emitted` of the worker holds the signals
-- that are queued for the window and not delivered yet.
pub mod Screen
pub mod Port
use fleetcore.Prelude.{ℕ, ◌+◌, ◌%◌, ◌^◌, ◌≡◌, Option, none, some, List, [], ◌∷◌, ◌>>=◌}
use fleetcore.Argument.{pos, read_slot}
use fleetcore.Bytes.{Bytes, Endian}
use fleetcore.CommWorker.{CommWorker, Signal, lock_received, link_state_changed, call, stop}
use fleetcore.CommWorker as Comm
use fleetcore.IpcMessage.{term_port_base}
use fleetcore.LockWindow.{LockWindow, Event, lock_event, link_event, handle, on_unlock_pressed}
use fleetcore.LockWindow as Window
use fleetcore.Qt.{QtSocket, Call}

pub record TermGui (S : Type 0) : Type 0 where
  pub worker : CommWorker S
  pub window : LockWindow

-- The port that `main` reads from its arguments, the first of which is the program's name; `none` is
-- the return with an error.
unfoldable pub port_argument : List Bytes → Option ℕ
port_argument (program ∷ arg ∷ args) = do
  slot ← read_slot (pos 1) arg
  some ((term_port_base + slot) % 2 ^ 16)
port_argument _ = some ((term_port_base + 1) % 2 ^ 16)

-- The slot of the window that a signal of the worker is connected to.
abbrev pub delivers : Signal → Event
delivers (lock_received req) = lock_event req
delivers (link_state_changed connected) = link_event connected

module _ {S : Type 0} (qt : QtSocket S) where
  -- `main` with the port, until `exec`: the thread runs, so that `start` of the worker is called.
  unfoldable pub launched : ℕ → TermGui S
  launched port = record { worker = Comm.start qt (Comm.created port); window = Window.created }

  -- What may happen next: in the worker's thread a slot is called, or `stop` for the end; in the
  -- window's thread the oldest signal is delivered, or the button is pressed.
  pub data Move (e : Endian) (g : TermGui S) : TermGui S → Type 0 where
    called : (c : Call S) → Move e g (record g { worker = call qt e c g.worker })
    delivered :
        (sig : Signal) (rest : List Signal)
        → g.worker.emitted ≡ sig ∷ rest
        → Move e g (record {
          worker = record g.worker { emitted = rest };
          window = handle (delivers sig) g.window;
        })
    pressed : Move e g (record g { window = on_unlock_pressed g.window })
    quit : Move e g (record g { worker = stop qt g.worker })

  pub data Reach (e : Endian) (g : TermGui S) : TermGui S → Type 0 where
    here : Reach e g g
    later : {s t : TermGui S} → Reach e g s → Move e s t → Reach e g t
