-- ===== src/CommWorker.antt =====
-- term_gui/comm_worker.h and term_gui/comm_worker.cpp: the connection of a vehicle terminal to its
-- termd. `timers` holds the delays of the single-shot timers that are armed, and `emitted` the signals
-- emitted, both in order; the host name is a constant of `main` and left out. `on_ready_read` and
-- `handle_message` run only where there is a socket, which emits the signal that leads to them.
pub mod Receive
pub mod Retry
pub mod Genuine
use fleetcore.Prelude.{
  ℕ, Bool, true, false, not, Option, none, some, List, [], ◌∷◌, ◌++◌, ◌==◌, if◌then◌else◌, refl,
}
use fleetcore.Bytes.{Bytes, Endian}
use fleetcore.Proto.{LockRequest, code_lock_request, zero_header, zero_lock_request}
use fleetcore.Qt.{
  QtSocket, is_unconnected, connected_signal, disconnected_signal, ready_read_signal,
  unheard_signal, Call, socket_signal, time_out,
}
use fleetcore.StreamBuffer.{StreamBuffer, empty, append, reset, pending}
use fleetcore.StreamBuffer.Serve.{Holds, serve}
use fleetcore.Wire.{is_ok, unpack_header, unpack_lock_request}

abbrev pub reconnect_ms : ℕ
reconnect_ms = 2000

pub data Signal : Type 0 where
  lock_received : LockRequest → Signal
  link_state_changed : Bool → Signal

pub record CommWorker (S : Type 0) : Type 0 where
  pub port : ℕ
  pub socket : Option S
  pub rx : StreamBuffer
  pub timers : List ℕ
  pub emitted : List Signal

-- The constructor.
abbrev pub created : {S : Type 0} → ℕ → CommWorker S
created port = record { port = port; socket = none; rx = empty; timers = []; emitted = [] }

-- The worker as the holder of `rx_`.
abbrev pub held : (S : Type 0) → Holds (CommWorker S)
held S = record {
  get = λ w. w.rx;
  put = λ b w. record w { rx = b };
  get-put = λ b w. refl;
  put-put = λ a b w. refl;
}

module _ {S : Type 0} (qt : QtSocket S) where
  abbrev emit : Signal → CommWorker S → CommWorker S
  emit s w = record w { emitted = w.emitted ++ (s ∷ []) }

  unfoldable pub try_reconnect : CommWorker S → CommWorker S
  try_reconnect w = elim w.socket [
    | none ↦ w
    | some s ↦
        if not (is_unconnected (qt.state s))
        then w
        else record w { socket = some (qt.connect_to_host w.port s) }
  ]

  -- `start`, in which the worker's slots are connected to the three signals of the new socket.
  unfoldable pub start : CommWorker S → CommWorker S
  unfolding try_reconnect
  start w = try_reconnect (record w { socket = some qt.fresh })

  unfoldable pub on_connected : CommWorker S → CommWorker S
  unfolding reset
  on_connected w = emit (link_state_changed true) (record w { rx = reset w.rx })

  unfoldable pub on_disconnected : CommWorker S → CommWorker S
  unfolding reset
  on_disconnected w =
      let w' = emit (link_state_changed false) (record w { rx = reset w.rx }) in
      record w' { timers = w'.timers ++ (reconnect_ms ∷ []) }

  -- `socket_->abort()`, with the slot that it leads to.
  unfoldable pub abort_socket : CommWorker S → CommWorker S
  unfolding on_disconnected
  abort_socket w = elim w.socket [
    | none ↦ w
    | some s ↦
        let (emits, s') = qt.abort s in
        let w' = record w { socket = some s' } in if emits then on_disconnected w' else w'
  ]

  unfoldable pub stop : CommWorker S → CommWorker S
  unfolding abort_socket
  stop w = abort_socket w

  module _ (e : Endian) where
    unfoldable pub handle_message : Bytes → ℕ → CommWorker S → CommWorker S
    unfolding abort_socket reset
    handle_message buf len w =
        let (err, h) = unpack_header e buf len zero_header in
        let (err2, req) = unpack_lock_request e buf len zero_lock_request in
        if not (is_ok err)
        then abort_socket (record w { rx = reset w.rx })
        else if not (h.code == code_lock_request)
        then w
        else if not (is_ok err2)
        then w
        else emit (lock_received req) w

    unfoldable pub on_ready_read : CommWorker S → CommWorker S
    unfolding handle_message serve
    on_ready_read w = elim w.socket [
      | none ↦ w
      | some s ↦
          let (chunk, s') = qt.read_all s in
          let rx = append chunk w.rx in
          serve (held S) handle_message (pending rx) (record w { socket = some s'; rx = rx })
    ]

    -- The slot for a signal of the socket, if one is connected, and for a timer.
    unfoldable pub call : Call S → CommWorker S → CommWorker S
    unfolding try_reconnect on_connected on_disconnected on_ready_read
    call (socket_signal sig s) w =
        let w' = record w { socket = some s } in
        elim sig [
          | connected_signal ↦ on_connected w'
          | disconnected_signal ↦ on_disconnected w'
          | ready_read_signal ↦ on_ready_read w'
          | unheard_signal ↦ w'
        ]
    call time_out w = elim w.timers [ [] ↦ w | t ∷ ts ↦ try_reconnect (record w { timers = ts }) ]

    unfoldable pub run_calls : List (Call S) → CommWorker S → CommWorker S
    unfolding call
    run_calls [] w = w
    run_calls (c ∷ cs) w = run_calls cs (call c w)
