-- ===== src/MaintGui/Tells.antt =====
-- What the maintenance screen tells, at every moment.
use fleetcore.Prelude.{
  ℕ, ◌≡◌, refl, sym, ap, ◌∙◌, subst, Bool, true, false, some, List, [], ◌∷◌, ◌++◌, append_assoc,
  append-nil, arith, if◌then◌else◌,
}
use fleetcore.Bytes.{Bytes, AreBytes, Endian}
use fleetcore.MaintGui.{
  MaintGui, launched, delivers, Move, called, requested, delivered, selected, clicked, quit, Reach,
  here, later,
}
use fleetcore.MaintGui.Log.{line_of}
use fleetcore.MaintWindow.{
  MaintWindow, ViewLine, ack_line, worker_line, Event, select_event, click_event, handle,
  on_clicked, on_ack_received, on_log_line, on_link_state_changed,
}
use fleetcore.MaintWindow as Window
use fleetcore.MaintWorker.{
  MaintWorker, Signal, ack_received, link_state_changed, log_line, LogLine, start, stop, send_lock,
  call,
}
use fleetcore.MaintWorker as Worker
use fleetcore.MaintWorker.Told.{MeetsContract, number_of, numbers_of, first_numbers}
use fleetcore.MaintWorker.Genuine.{
  Genuine, try_reconnect-Genuine, abort_socket-Genuine, send_lock-Genuine, call-Genuine,
}
use fleetcore.Qt.{QtSocket, read_by}
use fleetcore.StreamBuffer.Serve.{All, All-append, All-map}
use fleetcore.StreamBuffer.Heard.{Rest-nothing, nothing_heard}
use fleetcore.MaintGui.Lines.{
  reads_in, heard, OfResponse, more_heard, sent_lines, sent_lines-append, LinkShown,
}

module _ {S Q : Type 0} where
  record Good (so_far : Bytes) (g : MaintGui S Q) : Type 0 where
    pub told : Genuine (sent_lines g.window.log_view) so_far g.worker
    pub responses : All (OfResponse so_far) g.window.log_view
    pub link : LinkShown g.window

  -- A line moves from the queue of signals to the log.
  logged :
      (so_far : Bytes) (line : ViewLine Q) (sig : Signal Q) (rest : List (Signal Q))
      (g : MaintGui S Q)
      → OfResponse so_far line
      → numbers_of (sig ∷ rest) ≡ sent_lines (line ∷ []) ++ numbers_of rest
      → g.worker.emitted ≡ sig ∷ rest
      → Good so_far g
      → Good so_far (record {
        worker = record g.worker { emitted = rest };
        window = on_log_line line g.window;
      })
  unfolding on_log_line
  logged so_far line sig rest g of_response moves queued v = record {
    told = record {
      rest = v.told.rest;
      meet = (subst (All (MeetsContract so_far)) queued v.told.meet).1;
      count = v.told.count;
      numbered =
          ap (λ (l : List ℕ). l ++ numbers_of rest) (sent_lines-append log (line ∷ []))
          ∙ append_assoc (sent_lines log) (sent_lines (line ∷ [])) (numbers_of rest)
          ∙ ap (◌++◌ (sent_lines log)) (sym moves ∙ sym (ap numbers_of queued))
          ∙ v.told.numbered;
      next_is = v.told.next_is;
    };
    responses = All-append (OfResponse so_far) log (line ∷ []) v.responses (of_response, tt);
    link = record { text_is = v.link.text_is; style_is = v.link.style_is };
  }
    where
      log : List (ViewLine Q)
      log = g.window.log_view

  delivered-Good :
      (so_far : Bytes) (sig : Signal Q) (rest : List (Signal Q)) (g : MaintGui S Q)
      → g.worker.emitted ≡ sig ∷ rest
      → Good so_far g
      → Good so_far (record {
        worker = record g.worker { emitted = rest };
        window = handle (delivers sig) g.window;
      })
  unfolding handle on_ack_received on_link_state_changed
  delivered-Good so_far (ack_received m) rest g queued v =
      logged so_far (line_of m) (ack_received m) rest g
        (m, (subst (All (MeetsContract so_far)) queued v.told.meet).0, refl, refl, refl) refl queued
        v
  delivered-Good so_far (log_line line) rest g queued v =
      logged so_far (worker_line line) (log_line line) rest g tt
        (ap (λ (l : List ℕ). l ++ numbers_of rest) (sym (append-nil (number_of line)))) queued v
  delivered-Good so_far (link_state_changed connected) rest g queued v = record {
    told = record {
      rest = v.told.rest;
      meet = (subst (All (MeetsContract so_far)) queued v.told.meet).1;
      count = v.told.count;
      numbered =
          ap (◌++◌ (sent_lines g.window.log_view)) (sym (ap numbers_of queued)) ∙ v.told.numbered;
      next_is = v.told.next_is;
    };
    responses = v.responses;
    link = record { text_is = refl; style_is = refl };
  }

  -- Moves that leave the log, the link and the button alone.
  kept-Good :
      (so_far chunk : Bytes) (g : MaintGui S Q) (worker : MaintWorker S Q) (chosen : Q)
      (requests : List Q)
      → Genuine (sent_lines g.window.log_view) (so_far ++ chunk) worker
      → Good so_far g
      → Good (so_far ++ chunk) (record {
        worker = worker;
        window = record g.window { selected = chosen; requested = requests };
      })
  kept-Good so_far chunk g worker chosen requests told v = record {
    told = told;
    responses =
        All-map (OfResponse so_far) (OfResponse (so_far ++ chunk)) (more_heard so_far chunk)
          g.window.log_view v.responses;
    link = record { text_is = v.link.text_is; style_is = v.link.style_is };
  }

  -- A move in which nothing is read.
  quiet-Good :
      (so_far : Bytes) (g : MaintGui S Q) (worker : MaintWorker S Q) (chosen : Q)
      (requests : List Q)
      → Genuine (sent_lines g.window.log_view) so_far worker
      → Good so_far g
      → Good (so_far ++ []) (record {
        worker = worker;
        window = record g.window { selected = chosen; requested = requests };
      })
  quiet-Good so_far g worker chosen requests told =
      kept-Good so_far [] g worker chosen requests
        (nothing_heard (λ (b : Bytes). Genuine (sent_lines g.window.log_view) b worker) so_far told)

  clicked-Good :
      (so_far : Bytes) (enabled : Bool) (g : MaintGui S Q)
      → Good so_far g
      → Good
          (so_far ++ [])
          (record g { window = if enabled then on_clicked g.window else g.window })
  unfolding on_clicked
  clicked-Good so_far true g v =
      quiet-Good so_far g g.worker g.window.selected
        (g.window.requested ++ (g.window.selected ∷ [])) v.told v
  clicked-Good so_far false g v = nothing_heard (λ (b : Bytes). Good b g) so_far v

  module _ (qt : QtSocket S) (to_latin1 : Q → Bytes) (e : Endian) where
    launched-Good : (first : Q) → Good [] (launched qt to_latin1 first)
    unfolding launched start Window.created on_link_state_changed
    launched-Good first = record {
      told =
          try_reconnect-Genuine [] [] qt to_latin1
            (record (Worker.created 9100) { socket = some qt.fresh })
            (record {
              rest = Rest-nothing [];
              meet = tt;
              count = 0;
              numbered = refl;
              next_is = omega arith;
            });
      responses = tt;
      link = record { text_is = refl; style_is = refl };
    }

    module _ (reads : (s : S) → AreBytes (qt.read_all s).0) where
      Move-Good :
          {g g' : MaintGui S Q} (so_far : Bytes) (move : Move qt to_latin1 e g g')
          → Good so_far g
          → Good (so_far ++ reads_in move) g'
      unfolding stop handle reads_in
      Move-Good {g} so_far (called c) v =
          kept-Good so_far (read_by qt c) g (call qt to_latin1 e c g.worker) g.window.selected
            g.window.requested
            (call-Genuine (sent_lines g.window.log_view) so_far qt to_latin1 e reads c g.worker
              v.told)
            v
      Move-Good {g} so_far (requested now scratch text rest queued) v =
          quiet-Good so_far g (send_lock qt to_latin1 e now scratch text g.worker) g.window.selected
            rest
            (send_lock-Genuine (sent_lines g.window.log_view) so_far qt to_latin1 e now scratch text
              g.worker v.told)
            v
      Move-Good {g} so_far (delivered sig rest queued) v =
          nothing_heard
            (λ (b : Bytes). Good b (record {
              worker = record g.worker { emitted = rest };
              window = handle (delivers sig) g.window;
            }))
            so_far (delivered-Good so_far sig rest g queued v)
      Move-Good {g} so_far (selected text) v =
          quiet-Good so_far g g.worker text g.window.requested v.told v
      Move-Good {g} so_far clicked v = clicked-Good so_far g.window.lock_enabled g v
      Move-Good {g} so_far quit v =
          quiet-Good so_far g (stop qt to_latin1 g.worker) g.window.selected g.window.requested
            (abort_socket-Genuine (sent_lines g.window.log_view) so_far qt to_latin1 g.worker
              v.told)
            v

      Reach-Good :
          (first : Q) {g : MaintGui S Q} (r : Reach qt to_latin1 e (launched qt to_latin1 first) g)
          → Good (heard r) g
      unfolding heard
      Reach-Good first here = launched-Good first
      Reach-Good first (later r move) = Move-Good (heard r) move (Reach-Good first r)

      -- Whatever gateway sends, and however the threads take turns, at every moment the label of the
      -- link, its colour and the button agree; every acknowledgement in the log has the terminal, the
      -- number and the result of a lock response that meets the contract and whose bytes stand, in
      -- one piece, in what was read from the socket; and the requests that the log says were sent are
      -- numbered 1, 2 and so on without a gap, with 0 behind 65535; where what is read from the
      -- socket are bytes.
      pub screen_tells :
          (first : Q) (g : MaintGui S Q) (r : Reach qt to_latin1 e (launched qt to_latin1 first) g)
          → LinkShown g.window
            × All (OfResponse (heard r)) g.window.log_view
            × ((n : ℕ) × (rest : List ℕ) × (sent_lines g.window.log_view ++ rest ≡ first_numbers n))
      screen_tells first g r =
          let good = Reach-Good first r in
          (
            good.link,
            good.responses,
            (good.told.count, numbers_of g.worker.emitted, good.told.numbered),
          )
