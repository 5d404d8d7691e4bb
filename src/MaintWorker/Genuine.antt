-- ===== src/MaintWorker/Genuine.antt =====
-- What the maintenance screen's worker hands to the screen.
use fleetcore.Prelude.{
  ℕ, ◌≤◌, ◌≡◌, ◌≢◌, Option, none, some, List, [], ◌∷◌, ◌++◌, ◌==◌, not, Bool-cases, if_chain,
  Option-cases, inl, inr, length, subst, sym, refl, take, drop, ap, ◌∙◌,
}
use fleetcore.Bytes.{Bytes, AreBytes, Endian}
use fleetcore.MaintWorker.{
  MaintWorker, ack_received, log_line, connecting_to, not_connected, bad_number, pack_failed,
  short_write, stream_error, message_error, not_handled, term_no_at, held, try_reconnect,
  on_connected, on_disconnected, abort_socket, after_write, send_lock, handle_message,
  on_ready_read, call,
}
use fleetcore.MaintWorker.Told.{Told, Told-bytes, Told-append, Told-emit, Told-sent}
use fleetcore.MaintWorker.Receive.{handle_response}
use fleetcore.Proto.{zero_header, zero_lock_response}
use fleetcore.Qt.{
  QtSocket, read_by, is_unconnected, is_connected, Call, connected_signal, disconnected_signal,
  ready_read_signal, unheard_signal, socket_signal, time_out,
}
use fleetcore.StreamBuffer.{empty, append, consume, reset, next, pending}
use fleetcore.StreamBuffer.Invariant.{serve-invariant}
use fleetcore.StreamBuffer.Progress.{next-cases}
use fleetcore.StreamBuffer.Heard.{Rest-nothing, Rest-consume, StandsIn-front, nothing_heard}
use fleetcore.Wire.Layout.{lock_response_wire}
use fleetcore.Wire.{
  wire_ok, unpack_header, unpack_lock_response, make_lock_request, pack_lock_request,
}
use fleetcore.Wire.Decode.{is_ok_ne, ok-cases}
use fleetcore.Wire.RoundTrip.{unpack_lock_response_sound}

module _ {S Q : Type 0} (before : List ℕ) (heard : Bytes) where
  abbrev pub Genuine : MaintWorker S Q → Type 0
  Genuine w = Told before heard w.rx.bytes w.emitted w.next_seq

  module _ (qt : QtSocket S) (to_latin1 : Q → Bytes) where
    pub try_reconnect-Genuine :
        (w : MaintWorker S Q) → Genuine w → Genuine (try_reconnect qt to_latin1 w)
    unfolding try_reconnect
    try_reconnect-Genuine w v = elim (Option-cases w.socket) [
      | inl gone ↦ rw (gone, try_reconnect) v
      | inr (s, has) ↦
          rw (has, try_reconnect)
            (elim (Bool-cases (is_unconnected (qt.state s))) [
              | inl idle ↦
                  rw idle (Told-emit (log_line (connecting_to w.port) ∷ []) (tt, tt) refl v)
              | inr busy ↦ rw busy v
            ])
    ]

    on_disconnected-Genuine :
        (w : MaintWorker S Q) → Genuine w → Genuine (on_disconnected qt to_latin1 w)
    unfolding on_disconnected reset
    on_disconnected-Genuine w v =
        Told-bytes [] (Rest-nothing heard) (Told-emit _ (tt, (tt, tt)) refl v)

    pub abort_socket-Genuine :
        (w : MaintWorker S Q) → Genuine w → Genuine (abort_socket qt to_latin1 w)
    unfolding abort_socket
    abort_socket-Genuine w v = elim (Option-cases w.socket) [
      | inl gone ↦ rw (gone, abort_socket) v
      | inr (s, has) ↦
          let w' = record w { socket = some (qt.abort s).1 } in
          rw (has, abort_socket)
            (elim (Bool-cases (qt.abort s).0) [
              | inl emits ↦ rw emits (on_disconnected-Genuine w' v)
              | inr quiet ↦ rw quiet v
            ])
    ]

    module _ (e : Endian) where
      after_write-Genuine :
          (text : Q) (n : ℕ) (o : Option ℕ × S) (w : MaintWorker S Q)
          → Genuine w
          → Genuine (after_write qt to_latin1 e text n o w)
      unfolding after_write
      after_write-Genuine text n (none, s) w v =
          Told-emit (log_line short_write ∷ []) (tt, tt) refl v
      after_write-Genuine text n (some written, s) w v = elim (Bool-cases (written == n)) [
        | inl whole ↦ rw whole (Told-sent text v)
        | inr short ↦ rw short (Told-emit (log_line short_write ∷ []) (tt, tt) refl v)
      ]

      pub send_lock-Genuine :
          (now : ℕ) (scratch : Bytes) (text : Q) (w : MaintWorker S Q)
          → Genuine w
          → Genuine (send_lock qt to_latin1 e now scratch text w)
      unfolding send_lock
      send_lock-Genuine now scratch text w v = elim (Option-cases w.socket) [
        | inl gone ↦ rw (gone, send_lock) (Told-emit (log_line not_connected ∷ []) (tt, tt) refl v)
        | inr (s, has) ↦
            let raw = to_latin1 text in
            let req = make_lock_request now (term_no_at raw) w.next_seq in
            let (n, buf) = pack_lock_request e req scratch 1024 in
            rw (has, send_lock)
              (if_chain Genuine (not (is_connected (qt.state s))) (not (length raw == 4)) (n == 0)
                (record w { emitted = w.emitted ++ (log_line not_connected ∷ []) })
                (record w { emitted = w.emitted ++ (log_line bad_number ∷ []) })
                (record w { emitted = w.emitted ++ (log_line pack_failed ∷ []) })
                (after_write qt to_latin1 e text n (qt.write (take n buf) s) w)
                (Told-emit (log_line not_connected ∷ []) (tt, tt) refl v)
                (Told-emit (log_line bad_number ∷ []) (tt, tt) refl v)
                (Told-emit (log_line pack_failed ∷ []) (tt, tt) refl v)
                (after_write-Genuine text n (qt.write (take n buf) s) w v))
      ]

      broken-Genuine :
          (buf : Bytes) (len : ℕ) (w : MaintWorker S Q)
          → (unpack_header e buf len zero_header).0 ≢ wire_ok
          → Genuine w
          → Genuine (handle_message qt to_latin1 e buf len w)
      unfolding handle_message reset
      broken-Genuine buf len w bad v =
          let line = stream_error (unpack_header e buf len zero_header).0 in
          let w' = record w { rx = empty; emitted = w.emitted ++ (log_line line ∷ []) } in
          rw (is_ok_ne _ bad) (
            abort_socket-Genuine w'
              (Told-bytes [] (Rest-nothing heard) (Told-emit (log_line line ∷ []) (tt, tt) refl v)))

      skipped-Genuine :
          (buf : Bytes) (len : ℕ) (w : MaintWorker S Q)
          → (unpack_header e buf len zero_header).0 ≡ wire_ok
          → (unpack_lock_response e buf len zero_lock_response).0 ≢ wire_ok
          → Genuine w
          → Genuine (handle_message qt to_latin1 e buf len w)
      unfolding handle_message
      skipped-Genuine buf len w good bad v =
          let h = (unpack_header e buf len zero_header).1 in
          rw (good, is_ok_ne _ bad)
            (elim (Bool-cases (h.code == 0x20)) [
              | inl same ↦ rw same (Told-emit (log_line (message_error _) ∷ []) (tt, tt) refl v)
              | inr other ↦
                  rw other (Told-emit (log_line (not_handled h.code) ∷ []) (tt, tt) refl v)
            ])

      handle-Genuine :
          (out : Bytes) (len : ℕ) (w : MaintWorker S Q)
          → next w.rx ≡ some (out, len)
          → Genuine w
          → Genuine (handle_message qt to_latin1 e out len w)
      handle-Genuine out len w n v =
          let (whole, least, fits, rest) = next-cases w.rx out len n in
          let bs = subst AreBytes (sym whole) v.rest.are_bytes in
          let fits' = subst (λ (o : Bytes). len ≤ length o) (sym whole) fits in
          elim (ok-cases (unpack_header e out len zero_header).0) [
            | inr bad ↦ broken-Genuine out len w bad v
            | inl good ↦ elim (ok-cases (unpack_lock_response e out len zero_lock_response).0) [
              | inr bad ↦ skipped-Genuine out len w good bad v
              | inl read ↦
                  let m = (unpack_lock_response e out len zero_lock_response).1 in
                  let (room, meets, split) =
                    unpack_lock_response_sound e out len zero_lock_response m bs fits'
                      (λ i. (read i, m)) in
                  subst Genuine
                    (sym (
                      ap (λ (b : Bytes). handle_message qt to_latin1 e b len w) split
                      ∙ handle_response qt to_latin1 e m (drop 28 out) len w meets room))
                    (Told-emit (ack_received m ∷ [])
                      (
                        (
                          meets,
                          StandsIn-front (lock_response_wire m) (drop 28 out) heard w.rx.bytes
                              v.rest (sym whole ∙ split),
                        ),
                        tt,
                      )
                      refl v)
            ]
          ]

module _ {S Q : Type 0} (before : List ℕ) (heard : Bytes) (qt : QtSocket S) (to_latin1 : Q → Bytes)
    (e : Endian) (reads : (s : S) → AreBytes (qt.read_all s).0) where
  ready_read-Genuine :
      (s : S) (w : MaintWorker S Q)
      → Genuine before heard w
      → Genuine before
          (heard ++ (qt.read_all s).0)
          (on_ready_read qt to_latin1 e (record w { socket = some s }))
  unfolding on_ready_read append
  ready_read-Genuine s w v =
      let (chunk, s') = qt.read_all s in
      let rx = append chunk w.rx in
      let all = heard ++ chunk in
      serve-invariant (held S Q) (handle_message qt to_latin1 e) (Genuine before all)
        (handle-Genuine before all qt to_latin1 e)
        (λ len w v. Told-bytes (consume len w.rx).bytes (Rest-consume all len w.rx v.rest) v)
        (pending rx) (record w { socket = some s'; rx = rx }) (Told-append chunk (reads s) v)

  fired-Genuine :
      (timers : List ℕ) (w : MaintWorker S Q)
      → Genuine before heard w
      → Genuine before heard
          (elim timers [ [] ↦ w | t ∷ ts ↦ try_reconnect qt to_latin1 (record w { timers = ts }) ])
  fired-Genuine [] w v = v
  fired-Genuine (t ∷ ts) w v =
      try_reconnect-Genuine before heard qt to_latin1 (record w { timers = ts }) v

  pub call-Genuine :
      (c : Call S) (w : MaintWorker S Q)
      → Genuine before heard w
      → Genuine before (heard ++ read_by qt c) (call qt to_latin1 e c w)
  unfolding call on_connected reset
  call-Genuine (socket_signal connected_signal s) w v =
      nothing_heard
        (λ (b : Bytes). Genuine before b (call qt to_latin1 e (socket_signal connected_signal s) w))
        heard (Told-bytes [] (Rest-nothing heard) (Told-emit _ (tt, (tt, tt)) refl v))
  call-Genuine (socket_signal disconnected_signal s) w v =
      nothing_heard
        (λ (b : Bytes).
          Genuine before b (call qt to_latin1 e (socket_signal disconnected_signal s) w))
        heard (on_disconnected-Genuine before heard qt to_latin1 (record w { socket = some s }) v)
  call-Genuine (socket_signal ready_read_signal s) w v = ready_read-Genuine s w v
  call-Genuine (socket_signal unheard_signal s) w v =
      nothing_heard
        (λ (b : Bytes). Genuine before b (call qt to_latin1 e (socket_signal unheard_signal s) w))
        heard v
  call-Genuine time_out w v =
      nothing_heard (λ (b : Bytes). Genuine before b (call qt to_latin1 e time_out w)) heard
        (fired-Genuine w.timers w v)
