-- ===== src/CommWorker/Receive.antt =====
-- What a vehicle terminal does with the bytes that come from its termd.
use fleetcore.Prelude.{
  ℕ, ◌≤◌, ◌≡◌, ◌≢◌, ◌⊎◌, inl, inr, refl, ap, sym, ◌∙◌, true, false, none, some, List, [], ◌∷◌, ◌++◌,
  ◌==◌, append_assoc, append-nil, map, arith, length, drop, Bool-cases,
}
use fleetcore.Bytes.{Bytes, AreBytes, Endian}
use fleetcore.CommWorker.{
  CommWorker, Signal, lock_received, link_state_changed, held, abort_socket, handle_message,
  on_ready_read,
}
use fleetcore.Proto.{LockRequest, zero_header, zero_lock_request, term_no_bytes}
use fleetcore.Qt.{QtSocket}
use fleetcore.StreamBuffer.{empty, append, next, reset, pending}
use fleetcore.StreamBuffer.Framing.{buffer}
use fleetcore.StreamBuffer.Messages.{lock_request_wire-Frame}
use fleetcore.StreamBuffer.Serve.{serve, All, all_wires, act_all, serve-whole, serve-broken}
use fleetcore.Wire.{wire_ok, unpack_header, unpack_lock_request}
use fleetcore.Wire.Decode.{is_ok_ne, ok-cases, unpack_header_complete}
use fleetcore.Wire.Layout.{header_wire, lock_request_wire}
use fleetcore.Wire.RoundTrip.{
  IsLockRequest, unpack_lock_request_complete, unpack_lock_request_sound,
}

-- The worker with these requests emitted.
abbrev pub received : {S : Type 0} → List LockRequest → CommWorker S → CommWorker S
received ms w = record w { emitted = w.emitted ++ map lock_received ms }

abbrev receive : {S : Type 0} → LockRequest → CommWorker S → CommWorker S
receive m w = record w { emitted = w.emitted ++ (lock_received m ∷ []) }

receive_all :
    {S : Type 0} (ms : List LockRequest) (w : CommWorker S) → act_all receive ms w ≡ received ms w
receive_all [] w = ap (λ (l : List Signal). record w { emitted = l }) (sym (append-nil w.emitted))
receive_all (m ∷ ms) w =
    receive_all ms (receive m w)
    ∙ ap (λ (l : List Signal). record w { emitted = l })
        (append_assoc w.emitted (lock_received m ∷ []) (map lock_received ms))

module _ {S : Type 0} (qt : QtSocket S) (e : Endian) where
  handle_request :
      (m : LockRequest) (rest : Bytes) (len : ℕ) (w : CommWorker S)
      → IsLockRequest m
      → 24 ≤ len
      → handle_message qt e (lock_request_wire m ++ rest) len w ≡ receive m w
  unfolding handle_message
  handle_request m rest len w v room = rw (
    unpack_lock_request_complete e m zero_lock_request rest len v room,
    append_assoc (header_wire m.header) (term_no_bytes m.term_no) rest,
    unpack_header_complete e m.header zero_header (term_no_bytes m.term_no ++ rest) len v.fields
        v.accepted (omega arith),
    v.code_is,
  )

  handle_bad :
      (buf : Bytes) (len : ℕ) (w : CommWorker S)
      → (unpack_header e buf len zero_header).0 ≢ wire_ok
      → handle_message qt e buf len w ≡ abort_socket qt (record w { rx = empty })
  unfolding handle_message reset
  handle_bad buf len w bad = rw (is_ok_ne _ bad)

  ready_read_chunk :
      (w : CommWorker S) (s s' : S) (chunk bs : Bytes)
      → w.socket ≡ some s
      → qt.read_all s ≡ (chunk, s')
      → w.rx.bytes ++ chunk ≡ bs
      → on_ready_read qt e w
        ≡ serve
            (held S)
            (handle_message qt e)
            (length bs)
            (record w { socket = some s'; rx = buffer bs })
  unfolding on_ready_read append pending
  ready_read_chunk w s s' chunk bs has reads split =
      rw (has, on_ready_read)
        (rw (reads) (
          ap
            (λ (b : Bytes).
              serve (held S) (handle_message qt e) (length b)
                (record w { socket = some s'; rx = buffer b }))
            split))

  -- If what is in the buffer with what is read is some lock requests that meet the contract followed
  -- by less than a message, the worker emits each of them, once and in order, and keeps the rest.
  pub on_ready_read_emits :
      (w : CommWorker S) (s s' : S) (chunk tail : Bytes) (ms : List LockRequest)
      → w.socket ≡ some s
      → qt.read_all s ≡ (chunk, s')
      → All IsLockRequest ms
      → next (buffer tail) ≡ none
      → w.rx.bytes ++ chunk ≡ all_wires lock_request_wire ms ++ tail
      → on_ready_read qt e w ≡ record w {
        socket = some s';
        rx = buffer tail;
        emitted = w.emitted ++ map lock_received ms;
      }
  on_ready_read_emits w s s' chunk tail ms has reads vs n split =
      ready_read_chunk w s s' chunk _ has reads split
      ∙ serve-whole (held S) (handle_message qt e) lock_request_wire IsLockRequest receive
          lock_request_wire-Frame
          (λ m rest w v. handle_request m rest (length (lock_request_wire m)) _ v (omega arith)) ms
          tail (record w { socket = some s' }) vs n
      ∙ ap (λ (w' : CommWorker S). record w' { rx = buffer tail })
          (receive_all ms (record w { socket = some s' }))

  abort_emits :
      (w : CommWorker S) (s s' : S)
      → w.socket ≡ some s
      → qt.abort s ≡ (true, s')
      → abort_socket qt w ≡ record w {
        socket = some s';
        rx = empty;
        timers = w.timers ++ (2000 ∷ []);
        emitted = w.emitted ++ (link_state_changed false ∷ []);
      }
  unfolding abort_socket reset
  abort_emits w s s' has aborts = rw (has, abort_socket) (rw (aborts))

  -- If what follows the requests is something that unpack_header refuses, the requests are emitted,
  -- nothing behind them is, the connection is aborted, the buffer is emptied, the link is reported
  -- down and one timer is armed, where the socket reports the end of the connection from `abort`.
  pub on_ready_read_drops :
      (w : CommWorker S) (s s' s'' : S) (chunk bad out : Bytes) (len : ℕ) (ms : List LockRequest)
      → w.socket ≡ some s
      → qt.read_all s ≡ (chunk, s')
      → qt.abort s' ≡ (true, s'')
      → All IsLockRequest ms
      → next (buffer bad) ≡ some (out, len)
      → (unpack_header e out len zero_header).0 ≢ wire_ok
      → w.rx.bytes ++ chunk ≡ all_wires lock_request_wire ms ++ bad
      → on_ready_read qt e w ≡ record w {
        socket = some s'';
        rx = empty;
        timers = w.timers ++ (2000 ∷ []);
        emitted = (w.emitted ++ map lock_received ms) ++ (link_state_changed false ∷ []);
      }
  on_ready_read_drops w s s' s'' chunk bad out len ms has reads aborts vs n refused split =
      let w' = record w { socket = some s' } in
      ready_read_chunk w s s' chunk _ has reads split
      ∙ serve-broken (held S) (handle_message qt e) lock_request_wire IsLockRequest receive
          lock_request_wire-Frame
          (λ m rest w v. handle_request m rest (length (lock_request_wire m)) _ v (omega arith)) ms
          bad out len w' _ vs n
          (handle_bad out len (record (act_all receive ms w') { rx = buffer bad }) refused
            ∙ ap (λ (v : CommWorker S). abort_socket qt (record v { rx = empty }))
                (receive_all ms w')
            ∙ abort_emits (record (received ms w') { rx = empty }) s' s'' refl aborts)
          refl

  handle_skips :
      (buf : Bytes) (len : ℕ) (w : CommWorker S)
      → (unpack_header e buf len zero_header).0 ≡ wire_ok
      → (unpack_lock_request e buf len zero_lock_request).0 ≢ wire_ok
      → handle_message qt e buf len w ≡ w
  unfolding handle_message
  handle_skips buf len w good bad =
      rw (good, is_ok_ne _ bad)
        (elim (Bool-cases ((unpack_header e buf len zero_header).1.code == 0x10)) [
          | inl same ↦ rw same
          | inr other ↦ rw other
        ])

  -- Nothing reaches the screen but a lock request that meets the contract and stands at the front of
  -- the bytes handed over. A header that the contract refuses empties the buffer and aborts the
  -- connection; a message that has such a header but is no lock request changes nothing.
  pub handle_message_cases :
      (buf : Bytes) (len : ℕ) (w : CommWorker S)
      → AreBytes buf
      → len ≤ length buf
      → (((unpack_header e buf len zero_header).0 ≢ wire_ok)
          × (handle_message qt e buf len w ≡ abort_socket qt (record w { rx = empty })))
        ⊎ ((((unpack_header e buf len zero_header).0 ≡ wire_ok)
              × ((unpack_lock_request e buf len zero_lock_request).0 ≢ wire_ok)
              × (handle_message qt e buf len w ≡ w))
            ⊎ ((m : LockRequest) × IsLockRequest m
                × (buf ≡ lock_request_wire m ++ drop 24 buf)
                × (handle_message qt e buf len w ≡ received (m ∷ []) w)))
  handle_message_cases buf len w bs fits = elim (ok-cases (unpack_header e buf len zero_header).0) [
    | inr bad ↦ inl (bad, handle_bad buf len w bad)
    | inl good ↦ elim (ok-cases (unpack_lock_request e buf len zero_lock_request).0) [
      | inr bad ↦ inr (inl (good, bad, handle_skips buf len w good bad))
      | inl whole ↦
          let m = (unpack_lock_request e buf len zero_lock_request).1 in
          let (room, v, split) =
            unpack_lock_request_sound e buf len zero_lock_request m bs fits (λ i. (whole i, m)) in
          inr (
            inr (
              m,
              v,
              split,
              ap (λ (b : Bytes). handle_message qt e b len w) split
                  ∙ handle_request m (drop 24 buf) len w v room,
            ))
    ]
  ]
