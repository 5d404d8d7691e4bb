-- ===== src/MaintWorker/Receive.antt =====
-- What the maintenance screen does with the bytes that come from gateway.
use fleetcore.Prelude.{
  ℕ, ◌≤◌, ◌≡◌, ◌≢◌, refl, ap, sym, ◌∙◌, true, false, none, some, List, [], ◌∷◌, ◌++◌, append_assoc,
  append-nil, map, arith, length,
}
use fleetcore.Bytes.{Bytes, Endian}
use fleetcore.MaintWorker.{
  MaintWorker, Signal, ack_received, link_state_changed, log_line, stream_error, disconnected_line,
  held, abort_socket, handle_message, on_ready_read,
}
use fleetcore.Proto.{LockResponse, zero_header, zero_lock_response, term_no_bytes, pad_bytes}
use fleetcore.Qt.{QtSocket}
use fleetcore.StreamBuffer.{empty, append, next, reset, pending}
use fleetcore.StreamBuffer.Framing.{buffer}
use fleetcore.StreamBuffer.Messages.{lock_response_wire-Frame}
use fleetcore.StreamBuffer.Serve.{serve, All, all_wires, act_all, serve-whole, serve-broken}
use fleetcore.Wire.{WireError, wire_ok, unpack_header}
use fleetcore.Wire.Decode.{is_ok_ne, unpack_header_complete}
use fleetcore.Wire.Layout.{header_wire, lock_response_wire}
use fleetcore.Wire.RoundTrip.{IsLockResponse, unpack_lock_response_complete}

module _ {S Q : Type 0} where
  -- The worker with these acknowledgements emitted.
  abbrev pub acknowledged : List LockResponse → MaintWorker S Q → MaintWorker S Q
  acknowledged ms w = record w { emitted = w.emitted ++ map ack_received ms }

  abbrev acknowledge : LockResponse → MaintWorker S Q → MaintWorker S Q
  acknowledge m w = record w { emitted = w.emitted ++ (ack_received m ∷ []) }

  acknowledge_all :
      (ms : List LockResponse) (w : MaintWorker S Q) → act_all acknowledge ms w ≡ acknowledged ms w
  acknowledge_all [] w =
      ap (λ (l : List (Signal Q)). record w { emitted = l }) (sym (append-nil w.emitted))
  acknowledge_all (m ∷ ms) w =
      acknowledge_all ms (acknowledge m w)
      ∙ ap (λ (l : List (Signal Q)). record w { emitted = l })
          (append_assoc w.emitted (ack_received m ∷ []) (map ack_received ms))

  module _ (qt : QtSocket S) (to_latin1 : Q → Bytes) (e : Endian) where
    pub handle_response :
        (m : LockResponse) (rest : Bytes) (len : ℕ) (w : MaintWorker S Q)
        → IsLockResponse m
        → 28 ≤ len
        → handle_message qt to_latin1 e (lock_response_wire m ++ rest) len w ≡ acknowledge m w
    unfolding handle_message
    handle_response m rest len w v room = rw (
      unpack_lock_response_complete e m zero_lock_response rest len v room,
      append_assoc (header_wire m.header)
          (term_no_bytes m.term_no ++ (m.outcome ∷ pad_bytes m.reserved)) rest,
      unpack_header_complete e m.header zero_header
          ((term_no_bytes m.term_no ++ (m.outcome ∷ pad_bytes m.reserved)) ++ rest) len v.fields
          v.accepted (omega arith),
      v.code_is,
    )

    ready_read_chunk :
        (w : MaintWorker S Q) (s s' : S) (chunk bs : Bytes)
        → w.socket ≡ some s
        → qt.read_all s ≡ (chunk, s')
        → w.rx.bytes ++ chunk ≡ bs
        → on_ready_read qt to_latin1 e w
          ≡ serve
              (held S Q)
              (handle_message qt to_latin1 e)
              (length bs)
              (record w { socket = some s'; rx = buffer bs })
    unfolding on_ready_read append pending
    ready_read_chunk w s s' chunk bs has reads split =
        rw (has, on_ready_read)
          (rw (reads) (
            ap
              (λ (b : Bytes).
                serve (held S Q) (handle_message qt to_latin1 e) (length b)
                  (record w { socket = some s'; rx = buffer b }))
              split))

    -- If what is in the buffer with what is read is some lock responses that meet the contract
    -- followed by less than a message, the worker emits an acknowledgement for each of them, once and
    -- in order, and keeps the rest.
    pub on_ready_read_acks :
        (w : MaintWorker S Q) (s s' : S) (chunk tail : Bytes) (ms : List LockResponse)
        → w.socket ≡ some s
        → qt.read_all s ≡ (chunk, s')
        → All IsLockResponse ms
        → next (buffer tail) ≡ none
        → w.rx.bytes ++ chunk ≡ all_wires lock_response_wire ms ++ tail
        → on_ready_read qt to_latin1 e w ≡ record w {
          socket = some s';
          rx = buffer tail;
          emitted = w.emitted ++ map ack_received ms;
        }
    on_ready_read_acks w s s' chunk tail ms has reads vs n split =
        ready_read_chunk w s s' chunk _ has reads split
        ∙ serve-whole (held S Q) (handle_message qt to_latin1 e) lock_response_wire IsLockResponse
            acknowledge lock_response_wire-Frame
            (λ m rest w v. handle_response m rest (length (lock_response_wire m)) _ v (omega arith))
            ms tail (record w { socket = some s' }) vs n
        ∙ ap (λ (w' : MaintWorker S Q). record w' { rx = buffer tail })
            (acknowledge_all ms (record w { socket = some s' }))

    -- What a message that unpack_header refuses leaves, where the socket reports the end of the
    -- connection from `abort`.
    abbrev pub dropped : WireError → S → MaintWorker S Q → MaintWorker S Q
    dropped err s w = record w {
      socket = some s;
      rx = empty;
      timers = w.timers ++ (2000 ∷ []);
      emitted =
          (w.emitted ++ (log_line (stream_error err) ∷ []))
          ++ (log_line disconnected_line ∷ link_state_changed false ∷ []);
    }

    handle_bad :
        (buf : Bytes) (len : ℕ) (w : MaintWorker S Q) (err : WireError) (s s' : S)
        → (unpack_header e buf len zero_header).0 ≡ err
        → err ≢ wire_ok
        → w.socket ≡ some s
        → qt.abort s ≡ (true, s')
        → handle_message qt to_latin1 e buf len w ≡ dropped err s' w
    unfolding handle_message abort_socket reset
    handle_bad buf len w err s s' is bad has aborts =
        rw (is, handle_message) (rw (is_ok_ne err bad) (rw (has) (rw (aborts))))

    -- If what is in the buffer with what is read is some lock responses that meet the contract
    -- followed by something that unpack_header refuses, they are acknowledged in order, nothing
    -- behind them is looked at, the error is logged, the connection is aborted, the buffer is
    -- emptied, the link is reported down and one timer is armed, where the socket reports the end
    -- of the connection from `abort`.
    pub on_ready_read_refuses :
        (w : MaintWorker S Q) (s s' s'' : S) (chunk bad out : Bytes) (len : ℕ) (err : WireError)
        (ms : List LockResponse)
        → w.socket ≡ some s
        → qt.read_all s ≡ (chunk, s')
        → qt.abort s' ≡ (true, s'')
        → All IsLockResponse ms
        → next (buffer bad) ≡ some (out, len)
        → (unpack_header e out len zero_header).0 ≡ err
        → err ≢ wire_ok
        → w.rx.bytes ++ chunk ≡ all_wires lock_response_wire ms ++ bad
        → on_ready_read qt to_latin1 e w ≡ record w {
          socket = some s'';
          rx = empty;
          timers = w.timers ++ (2000 ∷ []);
          emitted =
              ((w.emitted ++ map ack_received ms) ++ (log_line (stream_error err) ∷ []))
              ++ (log_line disconnected_line ∷ link_state_changed false ∷ []);
        }
    on_ready_read_refuses w s s' s'' chunk bad out len err ms has reads aborts vs n is refused
          split =
        let w' = record w { socket = some s' } in
        ready_read_chunk w s s' chunk _ has reads split
        ∙ serve-broken (held S Q) (handle_message qt to_latin1 e) lock_response_wire IsLockResponse
            acknowledge lock_response_wire-Frame
            (λ m rest w v. handle_response m rest (length (lock_response_wire m)) _ v (omega arith))
            ms bad out len w' _ vs n
            (ap
                (λ (v : MaintWorker S Q).
                  handle_message qt to_latin1 e out len (record v { rx = buffer bad }))
                (acknowledge_all ms w')
              ∙ handle_bad out len (record (acknowledged ms w') { rx = buffer bad }) err s' s'' is
                  refused refl aborts)
            refl
