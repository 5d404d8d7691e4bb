-- ===== src/MaintWorker/Calls.antt =====
-- What the maintenance screen's worker keeps between the calls of its slots and the presses.
use fleetcore.Prelude.{
  ℕ, ◌≤◌, ◌<◌, ◌≡◌, refl, not, Option, none, some, List, [], ◌∷◌, ◌++◌, ◌==◌, arith, length,
  Bool-cases, if_chain, Option-cases, inl, inr, ◌^◌, take,
}
use fleetcore.Bytes.{Bytes, Endian}
use fleetcore.MaintWorker.{
  MaintWorker, Act, act, slot, press, log_line, stream_error, message_error, not_handled,
  ack_received, not_connected, bad_number, pack_failed, term_no_at, held, try_reconnect,
  abort_socket, after_write, send_lock, handle_message, on_ready_read, call, run_acts,
}
use fleetcore.Proto.{zero_header, zero_lock_response}
use fleetcore.Qt.{
  QtSocket, is_unconnected, is_connected, Call, connected_signal, disconnected_signal,
  ready_read_signal, unheard_signal, socket_signal, time_out,
}
use fleetcore.StreamBuffer.{append, next, reset, pending}
use fleetcore.StreamBuffer.Progress.{next-none-lt, next-reset}
use fleetcore.StreamBuffer.Invariant.{serve-kept}
use fleetcore.StreamBuffer.Serve.{serve, serve-none_left}
use fleetcore.Wire.{
  is_ok, unpack_header, unpack_lock_response, make_lock_request, pack_lock_request,
}

module _ {S Q : Type 0} where
  -- No message waits in the buffer, and the next sequence number is one of 16 bits.
  abbrev pub Served : MaintWorker S Q → Type 0
  Served w = (next w.rx ≡ none) × (w.next_seq < 2 ^ 16)

  module _ (qt : QtSocket S) (to_latin1 : Q → Bytes) (e : Endian) where
    abort_keeps :
        (w : MaintWorker S Q)
        → (length (abort_socket qt to_latin1 w).rx.bytes ≤ length w.rx.bytes)
          × ((abort_socket qt to_latin1 w).next_seq ≡ w.next_seq)
    unfolding abort_socket reset
    abort_keeps w = elim (Option-cases w.socket) [
      | inl gone ↦ rw (gone, abort_socket) (omega arith, refl)
      | inr (s, has) ↦
          rw (has, abort_socket)
            (elim (Bool-cases (qt.abort s).0) [
              | inl emits ↦ rw emits (omega arith, refl)
              | inr quiet ↦ rw quiet (omega arith, refl)
            ])
    ]

    handle_keeps :
        (out : Bytes) (len : ℕ) (w : MaintWorker S Q)
        → (length (handle_message qt to_latin1 e out len w).rx.bytes ≤ length w.rx.bytes)
          × ((handle_message qt to_latin1 e out len w).next_seq ≡ w.next_seq)
    unfolding handle_message reset
    handle_keeps out len w =
        let (err, h) = unpack_header e out len zero_header in
        let (err2, rsp) = unpack_lock_response e out len zero_lock_response in
        let w' = record w {
          rx = reset w.rx;
          emitted = w.emitted ++ (log_line (stream_error err) ∷ []);
        } in
        let (shorter, same) = abort_keeps w' in
        if_chain
          (λ (v : MaintWorker S Q).
            (length v.rx.bytes ≤ length w.rx.bytes) × (v.next_seq ≡ w.next_seq))
          (not (is_ok err)) (not (h.code == 0x20)) (not (is_ok err2)) (abort_socket qt to_latin1 w')
          (record w { emitted = w.emitted ++ (log_line (not_handled h.code) ∷ []) })
          (record w { emitted = w.emitted ++ (log_line (message_error err2) ∷ []) })
          (record w { emitted = w.emitted ++ (ack_received rsp ∷ []) })
          (omega (arith, shorter), same) (omega arith, refl) (omega arith, refl) (omega arith, refl)

    serve-seq :
        (fuel : ℕ) (w : MaintWorker S Q)
        → (serve (held S Q) (handle_message qt to_latin1 e) fuel w).next_seq ≡ w.next_seq
    serve-seq =
        serve-kept (held S Q) (handle_message qt to_latin1 e) (λ (w : MaintWorker S Q). w.next_seq)
          (λ out len w. (handle_keeps out len w).1) (λ b w. refl)

    on_ready_read-Served :
        (w : MaintWorker S Q) → Served w → Served (on_ready_read qt to_latin1 e w)
    unfolding on_ready_read append pending
    on_ready_read-Served w v = elim (Option-cases w.socket) [
      | inl gone ↦ rw (gone, on_ready_read) v
      | inr (s, has) ↦
          let (chunk, s') = qt.read_all s in
          let rx = append chunk w.rx in
          let w' = record w { socket = some s'; rx = rx } in
          rw (has, on_ready_read)
            (
              serve-none_left (held S Q) (handle_message qt to_latin1 e)
                  (λ out len w. (handle_keeps out len w).0) (pending rx) w' (omega arith),
              rw (serve-seq (pending rx) w') v.1,
            )
    ]

    try_reconnect-Served : (w : MaintWorker S Q) → Served w → Served (try_reconnect qt to_latin1 w)
    unfolding try_reconnect
    try_reconnect-Served w v = elim (Option-cases w.socket) [
      | inl gone ↦ rw (gone, try_reconnect) v
      | inr (s, has) ↦
          rw (has, try_reconnect)
            (elim (Bool-cases (is_unconnected (qt.state s))) [
              | inl idle ↦ rw idle v
              | inr busy ↦ rw busy v
            ])
    ]

    call-Served : (c : Call S) (w : MaintWorker S Q) → Served w → Served (call qt to_latin1 e c w)
    unfolding call
    call-Served (socket_signal connected_signal s) w v = (next-reset w.rx, v.1)
    call-Served (socket_signal disconnected_signal s) w v = (next-reset w.rx, v.1)
    call-Served (socket_signal ready_read_signal s) w v =
        on_ready_read-Served (record w { socket = some s }) v
    call-Served (socket_signal unheard_signal s) w v = v
    call-Served time_out w v = fired w.timers v
      where
        fired :
            (timers : List ℕ)
            → Served w
            → Served (elim timers [
              | [] ↦ w
              | t ∷ ts ↦ try_reconnect qt to_latin1 (record w { timers = ts })
            ])
        fired [] v = v
        fired (t ∷ ts) v = try_reconnect-Served (record w { timers = ts }) v

    after_write-Served :
        (text : Q) (n : ℕ) (o : Option ℕ × S) (w : MaintWorker S Q)
        → Served w
        → Served (after_write qt to_latin1 e text n o w)
    unfolding after_write
    after_write-Served text n (none, s) w v = v
    after_write-Served text n (some written, s) w v = elim (Bool-cases (written == n)) [
      | inl whole ↦ rw whole (v.0, omega arith)
      | inr short ↦ rw short v
    ]

    send_lock-Served :
        (now : ℕ) (scratch : Bytes) (text : Q) (w : MaintWorker S Q)
        → Served w
        → Served (send_lock qt to_latin1 e now scratch text w)
    unfolding send_lock
    send_lock-Served now scratch text w v = elim (Option-cases w.socket) [
      | inl gone ↦ rw (gone, send_lock) v
      | inr (s, has) ↦
          let raw = to_latin1 text in
          let req = make_lock_request now (term_no_at raw) w.next_seq in
          let (n, buf) = pack_lock_request e req scratch 1024 in
          rw (has, send_lock)
            (if_chain Served (not (is_connected (qt.state s))) (not (length raw == 4)) (n == 0)
              (record w { emitted = w.emitted ++ (log_line not_connected ∷ []) })
              (record w { emitted = w.emitted ++ (log_line bad_number ∷ []) })
              (record w { emitted = w.emitted ++ (log_line pack_failed ∷ []) })
              (after_write qt to_latin1 e text n (qt.write (take n buf) s) w) v v v
              (after_write-Served text n (qt.write (take n buf) s) w v))
    ]

    -- A worker that starts with no message waiting in its buffer and a sequence number of 16 bits
    -- leaves no message waiting, keeps less than MAX_MESSAGE_LEN bytes, and its next sequence number
    -- stays one of 16 bits, whatever the socket, the timers and the button do.
    pub run_acts-Served :
        (acts : List (Act S Q)) (w : MaintWorker S Q)
        → Served w
        → Served (run_acts qt to_latin1 e acts w)
          × (pending (run_acts qt to_latin1 e acts w).rx < 1024)
    unfolding run_acts act pending
    run_acts-Served [] w v = (v, next-none-lt w.rx v.0)
    run_acts-Served (slot c ∷ acts) w v =
        run_acts-Served acts (call qt to_latin1 e c w) (call-Served c w v)
    run_acts-Served (press now scratch text ∷ acts) w v =
        run_acts-Served acts (send_lock qt to_latin1 e now scratch text w)
          (send_lock-Served now scratch text w v)
