-- ===== src/MaintGui/Log.antt =====
-- What a click leads to, and what is logged of the answers.
use fleetcore.Prelude.{
  ℕ, ◌≡◌, refl, ap, sym, ◌∙◌, subst, Bool, if◌then◌else◌, true, none, some, List, [], ◌∷◌, ◌++◌,
  append-nil, append_assoc, map, ◌^◌, ◌%◌, ◌+◌, length,
}
use fleetcore.Bytes.{Bytes, Endian}
use fleetcore.MaintGui.{MaintGui, Reach, here, later, called, requested, delivered, clicked}
use fleetcore.MaintWindow.{
  MaintWindow, ViewLine, ack_line, click_event, handle, on_clicked, on_ack_received, on_log_line,
}
use fleetcore.MaintWorker.{MaintWorker, Signal, ack_received, log_line, lock_sent, call}
use fleetcore.MaintWorker.Receive.{on_ready_read_acks}
use fleetcore.MaintWorker.Send.{request_of, send_lock_writes}
use fleetcore.Proto.{LockResponse}
use fleetcore.Qt.{QtSocket, socket_signal, ready_read_signal, is_connected}
use fleetcore.StreamBuffer.{next}
use fleetcore.StreamBuffer.Framing.{buffer}
use fleetcore.StreamBuffer.Serve.{All, all_wires}
use fleetcore.Wire.Layout.{lock_request_wire, lock_response_wire}
use fleetcore.Wire.RoundTrip.{IsLockResponse}

-- The line that an acknowledgement gets.
abbrev pub line_of : {Q : Type 0} → LockResponse → ViewLine Q
line_of m = ack_line m.term_no m.header.seq m.outcome

module _ {S Q : Type 0} (qt : QtSocket S) (to_latin1 : Q → Bytes) (e : Endian) where
  -- The application with these signals queued and these lines in the log.
  abbrev seen : MaintGui S Q → List (Signal Q) → List (ViewLine Q) → MaintGui S Q
  seen s signals log = record {
    worker = record s.worker { emitted = signals };
    window = record s.window { log_view = log };
  }

  log_all :
      (ms : List LockResponse) (g s : MaintGui S Q)
      → Reach qt to_latin1 e g s
      → s.worker.emitted ≡ map ack_received ms
      → Reach qt to_latin1 e g (record {
        worker = record s.worker { emitted = [] };
        window = record s.window { log_view = s.window.log_view ++ map line_of ms };
      })
  unfolding handle on_ack_received on_log_line
  log_all [] g s r none_left =
      subst (λ (log : List (ViewLine Q)). Reach qt to_latin1 e g (seen s [] log))
        (sym (append-nil s.window.log_view))
        (subst (λ (l : List (Signal Q)). Reach qt to_latin1 e g (seen s l s.window.log_view))
          none_left r)
  log_all (m ∷ ms) g s r queued =
      subst (λ (log : List (ViewLine Q)). Reach qt to_latin1 e g (seen s [] log))
        (append_assoc s.window.log_view (line_of m ∷ []) (map line_of ms))
        (log_all ms g _ (later r (delivered (ack_received m) (map ack_received ms) queued)) refl)

  clicked_is :
      (w : MaintWindow Q)
      → w.lock_enabled ≡ true
      → w.requested ≡ []
      → handle click_event w ≡ record w { requested = w.selected ∷ [] }
  unfolding handle on_clicked
  clicked_is w enabled none_queued =
      ap (λ (b : Bool). if b then on_clicked w else w) enabled
      ∙ ap (λ (l : List Q). record w { requested = l ++ (w.selected ∷ []) }) none_queued

  -- The button clicked while it is enabled, with no other request queued: the threads can go on so
  -- that the worker takes the request with the terminal chosen, and if it is connected, the socket
  -- takes the message and the terminal number has four characters, then the 24 bytes of the lock
  -- request for that terminal with the next sequence number are written.
  pub click_sends :
      (now : ℕ) (scratch : Bytes) (g : MaintGui S Q) (s s' : S)
      → g.window.lock_enabled ≡ true
      → g.window.requested ≡ []
      → g.worker.socket ≡ some s
      → is_connected (qt.state s) ≡ true
      → length (to_latin1 g.window.selected) ≡ 4
      → length scratch ≡ 1024
      → qt.write
          (lock_request_wire (request_of now (to_latin1 g.window.selected) g.worker.next_seq))
          s
        ≡ (some 24, s')
      → Reach qt to_latin1 e g (record {
        worker = record g.worker {
          socket = some s';
          next_seq = (g.worker.next_seq + 1) % 2 ^ 16;
          emitted =
              g.worker.emitted ++ (log_line (lock_sent g.window.selected g.worker.next_seq) ∷ []);
        };
        window = record g.window { requested = [] };
      })
  click_sends now scratch g s s' enabled none_queued has up four size takes =
      let w = record g.window { requested = g.window.selected ∷ [] } in
      let r : Reach qt to_latin1 e g (record { worker = g.worker; window = w }) =
        subst
          (λ (v : MaintWindow Q). Reach qt to_latin1 e g (record { worker = g.worker; window = v }))
          (clicked_is g.window enabled none_queued) (later here clicked) in
      subst
        (λ (v : MaintWorker S Q).
          Reach qt to_latin1 e g
            (record { worker = v; window = record g.window { requested = [] } }))
        (send_lock_writes qt to_latin1 e now scratch g.window.selected g.worker s s' has up four
          size takes)
        (later r (requested now scratch g.window.selected [] refl))

  -- When the bytes of some lock responses that meet the contract are complete and nothing else is
  -- queued for the window, the threads can go on so that the window has a line for each of them, in
  -- order, behind those that it had.
  pub responses_logged :
      (g : MaintGui S Q) (s s' : S) (chunk tail : Bytes) (ms : List LockResponse)
      → qt.read_all s ≡ (chunk, s')
      → All IsLockResponse ms
      → next (buffer tail) ≡ none
      → g.worker.rx.bytes ++ chunk ≡ all_wires lock_response_wire ms ++ tail
      → g.worker.emitted ≡ []
      → Reach qt to_latin1 e g (record {
        worker = record g.worker { socket = some s'; rx = buffer tail; emitted = [] };
        window = record g.window { log_view = g.window.log_view ++ map line_of ms };
      })
  unfolding call
  responses_logged g s s' chunk tail ms reads vs n split idle =
      let w = record g.worker { socket = some s } in
      let acks = on_ready_read_acks qt to_latin1 e w s s' chunk tail ms refl reads vs n split in
      let w' = record g.worker {
        socket = some s';
        rx = buffer tail;
        emitted = g.worker.emitted ++ map ack_received ms;
      } in
      let g' : MaintGui S Q = record { worker = w'; window = g.window } in
      let r : Reach qt to_latin1 e g g' =
        subst
          (λ (v : MaintWorker S Q).
            Reach qt to_latin1 e g (record { worker = v; window = g.window }))
          acks (later here (called (socket_signal ready_read_signal s))) in
      log_all ms g g' r (ap (λ (l : List (Signal Q)). l ++ map ack_received ms) idle)
