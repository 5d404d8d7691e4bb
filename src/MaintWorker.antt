-- ===== src/MaintWorker.antt =====
-- maint_gui/maint_worker.h and maint_gui/maint_worker.cpp: the connection of the maintenance screen to
-- gateway. `timers` and `emitted` are as in CommWorker; a line for the log is kept as what it is
-- made of, and a QString is a value of any type `Q` with `toLatin1`.
pub mod Send
pub mod Receive
pub mod Calls
pub mod Told
pub mod Genuine
use fleetcore.Prelude.{
  ℕ, ◌+◌, ◌%◌, ◌^◌, Bool, true, false, not, Option, none, some, List, [], ◌∷◌, ◌++◌, ◌==◌,
  if◌then◌else◌, refl, length, take,
}
use fleetcore.Bytes.{Bytes, Endian, byte_at}
use fleetcore.Proto.{
  TermNo, LockResponse, code_lock_response, max_message_len, zero_header, zero_lock_response,
}
use fleetcore.Qt.{
  QtSocket, is_unconnected, is_connected, connected_signal, disconnected_signal, ready_read_signal,
  unheard_signal, Call, socket_signal, time_out,
}
use fleetcore.StreamBuffer.{StreamBuffer, empty, append, reset, pending}
use fleetcore.StreamBuffer.Serve.{Holds, serve}
use fleetcore.Wire.{
  WireError, is_ok, unpack_header, unpack_lock_response, pack_lock_request, make_lock_request,
}

abbrev pub reconnect_ms : ℕ
reconnect_ms = 2000

pub data LogLine (Q : Type 0) : Type 0 where
  connecting_to : ℕ → LogLine Q
  connected_line disconnected_line not_connected bad_number pack_failed short_write : LogLine Q
  lock_sent : Q → ℕ → LogLine Q
  stream_error message_error : WireError → LogLine Q
  not_handled : ℕ → LogLine Q

pub data Signal (Q : Type 0) : Type 0 where
  ack_received : LockResponse → Signal Q
  link_state_changed : Bool → Signal Q
  log_line : LogLine Q → Signal Q

pub record MaintWorker (S Q : Type 0) : Type 0 where
  pub port : ℕ
  pub socket : Option S
  pub rx : StreamBuffer
  pub next_seq : ℕ
  pub timers : List ℕ
  pub emitted : List (Signal Q)

-- The constructor.
abbrev pub created : {S Q : Type 0} → ℕ → MaintWorker S Q
created port = record {
  port = port;
  socket = none;
  rx = empty;
  next_seq = 1;
  timers = [];
  emitted = [];
}

-- The worker as the holder of `rx_`.
abbrev pub held : (S Q : Type 0) → Holds (MaintWorker S Q)
held S Q = record {
  get = λ w. w.rx;
  put = λ b w. record w { rx = b };
  get-put = λ b w. refl;
  put-put = λ a b w. refl;
}

-- `raw.constData()` as the `char term_no[4]` of make_lock_request.
abbrev pub term_no_at : Bytes → TermNo
term_no_at raw = record {
  c0 = byte_at raw 0;
  c1 = byte_at raw 1;
  c2 = byte_at raw 2;
  c3 = byte_at raw 3;
}

-- `scratch` is the buffer on the stack of `sendLock`.
pub data Act (S Q : Type 0) : Type 0 where
  slot : Call S → Act S Q
  press : (now : ℕ) (scratch : Bytes) → Q → Act S Q

module _ {S Q : Type 0} (qt : QtSocket S) (to_latin1 : Q → Bytes) where
  abbrev pub emit : List (Signal Q) → MaintWorker S Q → MaintWorker S Q
  emit signals w = record w { emitted = w.emitted ++ signals }

  unfoldable pub try_reconnect : MaintWorker S Q → MaintWorker S Q
  try_reconnect w = elim w.socket [
    | none ↦ w
    | some s ↦
        let w' = emit (log_line (connecting_to w.port) ∷ []) w in
        if not (is_unconnected (qt.state s))
        then w
        else record w' { socket = some (qt.connect_to_host w.port s) }
  ]

  unfoldable pub start : MaintWorker S Q → MaintWorker S Q
  unfolding try_reconnect
  start w = try_reconnect (record w { socket = some qt.fresh })

  unfoldable pub on_connected : MaintWorker S Q → MaintWorker S Q
  unfolding reset
  on_connected w =
      emit (log_line connected_line ∷ link_state_changed true ∷ []) (record w { rx = reset w.rx })

  unfoldable pub on_disconnected : MaintWorker S Q → MaintWorker S Q
  unfolding reset
  on_disconnected w =
      let w' =
        emit (log_line disconnected_line ∷ link_state_changed false ∷ [])
          (record w { rx = reset w.rx }) in
      record w' { timers = w'.timers ++ (reconnect_ms ∷ []) }

  -- `socket_->abort()`, with the slot that it leads to.
  unfoldable pub abort_socket : MaintWorker S Q → MaintWorker S Q
  unfolding on_disconnected
  abort_socket w = elim w.socket [
    | none ↦ w
    | some s ↦
        let (emits, s') = qt.abort s in
        let w' = record w { socket = some s' } in if emits then on_disconnected w' else w'
  ]

  unfoldable pub stop : MaintWorker S Q → MaintWorker S Q
  unfolding abort_socket
  stop w = abort_socket w

  module _ (e : Endian) where
    -- What follows the write of a message of `n` bytes.
    unfoldable pub after_write : Q → ℕ → Option ℕ × S → MaintWorker S Q → MaintWorker S Q
    after_write text n (none, s) w = emit (log_line short_write ∷ []) (record w { socket = some s })
    after_write text n (some written, s) w =
        let w' = record w { socket = some s } in
        if not (written == n)
        then emit (log_line short_write ∷ []) w'
        else record (emit (log_line (lock_sent text w.next_seq) ∷ []) w') {
          next_seq = (w.next_seq + 1) % 2 ^ 16;
        }

    -- `now` is the clock that make_lock_request reads, `scratch` the buffer on the stack.
    unfoldable pub send_lock : ℕ → Bytes → Q → MaintWorker S Q → MaintWorker S Q
    unfolding after_write
    send_lock now scratch text w = elim w.socket [
      | none ↦ emit (log_line not_connected ∷ []) w
      | some s ↦
          let raw = to_latin1 text in
          let req = make_lock_request now (term_no_at raw) w.next_seq in
          let (n, buf) = pack_lock_request e req scratch max_message_len in
          if not (is_connected (qt.state s))
          then emit (log_line not_connected ∷ []) w
          else if not (length raw == 4)
          then emit (log_line bad_number ∷ []) w
          else if n == 0
          then emit (log_line pack_failed ∷ []) w
          else after_write text n (qt.write (take n buf) s) w
    ]

    unfoldable pub handle_message : Bytes → ℕ → MaintWorker S Q → MaintWorker S Q
    unfolding abort_socket reset
    handle_message buf len w =
        let (err, h) = unpack_header e buf len zero_header in
        let (err2, rsp) = unpack_lock_response e buf len zero_lock_response in
        if not (is_ok err)
        then abort_socket (record (emit (log_line (stream_error err) ∷ []) w) { rx = reset w.rx })
        else if not (h.code == code_lock_response)
        then emit (log_line (not_handled h.code) ∷ []) w
        else if not (is_ok err2)
        then emit (log_line (message_error err2) ∷ []) w
        else emit (ack_received rsp ∷ []) w

    unfoldable pub on_ready_read : MaintWorker S Q → MaintWorker S Q
    unfolding handle_message serve
    on_ready_read w = elim w.socket [
      | none ↦ w
      | some s ↦
          let (chunk, s') = qt.read_all s in
          let rx = append chunk w.rx in
          serve (held S Q) handle_message (pending rx) (record w { socket = some s'; rx = rx })
    ]

    -- The slot for a signal of the socket, if one is connected, and for a timer.
    unfoldable pub call : Call S → MaintWorker S Q → MaintWorker S Q
    unfolding try_reconnect on_connected on_disconnected on_ready_read
    call (socket_signal sig s) w =
        let w' = record w { socket = some s } in
        elim sig [
          | connected_signal ↦ on_connected w'
          | disconnected_signal ↦ on_disconnected w'
          | ready_read_signal ↦ on_ready_read w'
          | unheard_signal ↦ w'
        ]
    call time_out w = elim w.timers [ [] ↦ w | t ∷ ts ↦ try_reconnect (record w { timers = ts }) ]

    -- What the event loop of the worker's thread meets: a slot, or a press of the button.
    unfoldable pub act : Act S Q → MaintWorker S Q → MaintWorker S Q
    unfolding call send_lock
    act (slot c) w = call c w
    act (press now scratch text) w = send_lock now scratch text w

    unfoldable pub run_acts : List (Act S Q) → MaintWorker S Q → MaintWorker S Q
    unfolding act
    run_acts [] w = w
    run_acts (a ∷ acts) w = run_acts acts (act a w)
