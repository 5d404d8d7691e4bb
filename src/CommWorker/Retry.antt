-- ===== src/CommWorker/Retry.antt =====
-- When a vehicle terminal dials its termd, and what it keeps between the calls of its slots.
use fleetcore.Prelude.{
  ℕ, ◌≤◌, ◌<◌, ◌≡◌, refl, false, not, Option, none, some, List, [], ◌∷◌, ◌++◌, arith, length,
  Bool-cases, if_chain, Option-cases, inl, inr, ◌==◌,
}
use fleetcore.Bytes.{Bytes, Endian}
use fleetcore.CommWorker.{
  CommWorker, created, lock_received, link_state_changed, held, try_reconnect, start, abort_socket,
  handle_message, on_ready_read, call, run_calls,
}
use fleetcore.Proto.{zero_header, zero_lock_request}
use fleetcore.Qt.{
  QtSocket, unconnected, is_unconnected, Call, connected_signal, disconnected_signal,
  ready_read_signal, unheard_signal, socket_signal, time_out,
}
use fleetcore.StreamBuffer.{append, next, reset, pending}
use fleetcore.StreamBuffer.Progress.{next-none-lt, next-reset}
use fleetcore.StreamBuffer.Serve.{serve-none_left}
use fleetcore.Wire.{is_ok, unpack_header, unpack_lock_request}

-- Time outs, and signals that no slot is connected to.
abbrev pub Unheard : {S : Type 0} → List (Call S) → Type 0
Unheard [] = Unit {0}
Unheard (time_out ∷ cs) = Unheard cs
Unheard (socket_signal unheard_signal s ∷ cs) = Unheard cs
Unheard (socket_signal _ s ∷ cs) = ⊥

-- The socket as the last of the signals shows it.
abbrev pub last_socket : {S : Type 0} → List (Call S) → Option S → Option S
last_socket [] s = s
last_socket (time_out ∷ cs) s = last_socket cs s
last_socket (socket_signal sig s' ∷ cs) s = last_socket cs (some s')

-- No message waits in the buffer.
abbrev pub Served : {S : Type 0} → CommWorker S → Type 0
Served w = next w.rx ≡ none

module _ {S : Type 0} (qt : QtSocket S) (e : Endian) where
  -- When the connection ends, the link is reported down, the buffer is emptied and one timer is
  -- armed; and when that timer ends, if it is the only one and the socket is still unconnected, termd
  -- is dialled again at the same port.
  pub disconnected_redials :
      (w : CommWorker S) (s : S)
      → w.timers ≡ []
      → qt.state s ≡ unconnected
      → run_calls qt e (socket_signal disconnected_signal s ∷ time_out ∷ []) w ≡ record w {
        socket = some (qt.connect_to_host w.port s);
        rx = reset w.rx;
        timers = [];
        emitted = w.emitted ++ (link_state_changed false ∷ []);
      }
  unfolding run_calls try_reconnect
  disconnected_redials w s none_armed idle = rw (none_armed, run_calls) (rw (idle))

  unheard_lem :
      (cs : List (Call S)) (w : CommWorker S)
      → Unheard cs
      → w.timers ≡ []
      → run_calls qt e cs w ≡ record w { socket = last_socket cs w.socket }
  unfolding run_calls
  unheard_lem [] w u none_armed = refl
  unheard_lem (time_out ∷ cs) w u none_armed =
      rw (none_armed, run_calls) (unheard_lem cs (record w { timers = [] }) u refl)
  unheard_lem (socket_signal unheard_signal s ∷ cs) w u none_armed =
      unheard_lem cs (record w { socket = some s }) u none_armed
  unheard_lem (socket_signal connected_signal s ∷ cs) w u none_armed = absurd u
  unheard_lem (socket_signal disconnected_signal s ∷ cs) w u none_armed = absurd u
  unheard_lem (socket_signal ready_read_signal s ∷ cs) w u none_armed = absurd u

  -- On a new socket that is unconnected a worker dials once when it starts; if no connection comes
  -- about, so that the socket emits none of the three signals that have slots, the worker arms no
  -- timer and never dials again, whatever else the socket emits.
  pub start_dials_once :
      (cs : List (Call S)) (port : ℕ)
      → qt.state qt.fresh ≡ unconnected
      → Unheard cs
      → (start qt (created port)
          ≡ record (created port) { socket = some (qt.connect_to_host port qt.fresh) })
        × (run_calls qt e cs (start qt (created port)) ≡ record (created port) {
          socket = last_socket cs (some (qt.connect_to_host port qt.fresh));
        })
  unfolding start
  start_dials_once cs port idle u = rw (idle) (refl, unheard_lem cs _ u refl)

  abort_shrinks : (w : CommWorker S) → length (abort_socket qt w).rx.bytes ≤ length w.rx.bytes
  unfolding abort_socket reset
  abort_shrinks w = elim (Option-cases w.socket) [
    | inl gone ↦ rw (gone, abort_socket) (omega arith)
    | inr (s, has) ↦
        rw (has, abort_socket)
          (elim (Bool-cases (qt.abort s).0) [
            | inl emits ↦ rw emits (omega arith)
            | inr quiet ↦ rw quiet (omega arith)
          ])
  ]

  handle_shrinks :
      (out : Bytes) (len : ℕ) (w : CommWorker S)
      → length (handle_message qt e out len w).rx.bytes ≤ length w.rx.bytes
  unfolding handle_message reset
  handle_shrinks out len w =
      let (err, h) = unpack_header e out len zero_header in
      let (err2, req) = unpack_lock_request e out len zero_lock_request in
      if_chain (λ (v : CommWorker S). length v.rx.bytes ≤ length w.rx.bytes) (not (is_ok err))
        (not (h.code == 0x10)) (not (is_ok err2)) (abort_socket qt (record w { rx = reset w.rx })) w
        w (record w { emitted = w.emitted ++ (lock_received req ∷ []) })
        (omega (arith, abort_shrinks (record w { rx = reset w.rx }))) (omega arith) (omega arith)
        (omega arith)

  on_ready_read-Served : (w : CommWorker S) → Served w → Served (on_ready_read qt e w)
  unfolding on_ready_read append pending
  on_ready_read-Served w v = elim (Option-cases w.socket) [
    | inl gone ↦ rw (gone, on_ready_read) v
    | inr (s, has) ↦
        let (chunk, s') = qt.read_all s in
        let rx = append chunk w.rx in
        rw (has, on_ready_read)
          (serve-none_left (held S) (handle_message qt e) handle_shrinks (pending rx)
            (record w { socket = some s'; rx = rx }) (omega arith))
  ]

  try_reconnect-Served : (w : CommWorker S) → Served w → Served (try_reconnect qt w)
  unfolding try_reconnect
  try_reconnect-Served w v = elim (Option-cases w.socket) [
    | inl gone ↦ rw (gone, try_reconnect) v
    | inr (s, has) ↦
        rw (has, try_reconnect)
          (elim (Bool-cases (is_unconnected (qt.state s))) [
            | inl idle ↦ rw idle v
            | inr busy ↦ rw busy v
          ])
  ]

  call-Served : (c : Call S) (w : CommWorker S) → Served w → Served (call qt e c w)
  unfolding call
  call-Served (socket_signal connected_signal s) w v = next-reset w.rx
  call-Served (socket_signal disconnected_signal s) w v = next-reset w.rx
  call-Served (socket_signal ready_read_signal s) w v =
      on_ready_read-Served (record w { socket = some s }) v
  call-Served (socket_signal unheard_signal s) w v = v
  call-Served time_out w v = fired w.timers v
    where
      fired :
          (timers : List ℕ)
          → Served w
          → Served (elim timers [ [] ↦ w | t ∷ ts ↦ try_reconnect qt (record w { timers = ts }) ])
      fired [] v = v
      fired (t ∷ ts) v = try_reconnect-Served (record w { timers = ts }) v

  -- A worker that starts with no message waiting in its buffer leaves none waiting and keeps less
  -- than MAX_MESSAGE_LEN bytes, whatever the socket and the timers do.
  pub run_calls-Served :
      (cs : List (Call S)) (w : CommWorker S)
      → Served w
      → Served (run_calls qt e cs w) × (pending (run_calls qt e cs w).rx < 1024)
  unfolding run_calls pending
  run_calls-Served [] w v = (v, next-none-lt w.rx v)
  run_calls-Served (c ∷ cs) w v = run_calls-Served cs (call qt e c w) (call-Served c w v)
