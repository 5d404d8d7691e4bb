-- ===== src/Qt.antt =====
-- What term_gui and maint_gui use of Qt. A QTcpSocket is a value of any type `S` behind its
-- operations; the event loop calls the slots of a worker, in any order, as functions of the model.
-- A signal that a worker emits is queued for the window's thread, in the order of the emissions.
use fleetcore.Prelude.{ℕ, Bool, true, false, Option, []}
use fleetcore.Bytes.{Bytes}

-- QAbstractSocket::SocketState, as far as the workers tell the states apart.
pub data SocketState : Type 0 where
  unconnected connected other_state : SocketState

abbrev pub is_unconnected : SocketState → Bool
is_unconnected unconnected = true
is_unconnected _ = false

abbrev pub is_connected : SocketState → Bool
is_connected connected = true
is_connected _ = false

-- `abort` says whether `disconnected` is emitted before it returns, in which case the connected slot
-- has run; `write` returns `none` for -1.
pub record QtSocket (S : Type 0) : Type 0 where
  pub fresh : S
  pub state : S → SocketState
  pub connect_to_host : ℕ → S → S
  pub abort : S → Bool × S
  pub read_all : S → Bytes × S
  pub write : Bytes → S → Option ℕ × S

-- The signals of a socket. Those that no slot of a worker is connected to, such as the one for a
-- connection that was refused, are one.
pub data SocketSignal : Type 0 where
  connected_signal disconnected_signal ready_read_signal unheard_signal : SocketSignal

-- What the event loop of a worker's thread meets: a signal of the socket, with the socket as it then
-- is, or the end of a single-shot timer.
pub data Call (S : Type 0) : Type 0 where
  socket_signal : SocketSignal → S → Call S
  time_out : Call S

-- What the slot for a call reads of the socket: everything there is, for `readyRead`.
abbrev pub read_by : {S : Type 0} → QtSocket S → Call S → Bytes
read_by qt (socket_signal ready_read_signal s) = (qt.read_all s).0
read_by qt _ = []
