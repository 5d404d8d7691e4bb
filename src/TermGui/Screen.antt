-- ===== src/TermGui/Screen.antt =====
-- What the screen of a vehicle terminal shows, and when.
use fleetcore.Prelude.{
  ℕ, ◌≡◌, subst, refl, ap, ◌∙◌, false, Option, none, some, List, [], ◌∷◌, ◌++◌, map,
}
use fleetcore.Bytes.{Bytes, AreBytes, Endian}
use fleetcore.CommWorker.{CommWorker, Signal, lock_received, link_state_changed, call, start, stop}
use fleetcore.CommWorker as Comm
use fleetcore.CommWorker.Genuine.{
  Genuine, MeetsContract, Asked-append, try_reconnect-Genuine, abort_socket-Genuine, call-Genuine,
}
use fleetcore.CommWorker.Receive.{on_ready_read_emits}
use fleetcore.LockWindow.{
  LockWindow, Event, lock_event, link_event, press_event, handle, handle_all, handle-looks,
  created-looks, on_lock_received, locked_by_request, apply_locked_style, Shown, looks, after,
}
use fleetcore.Proto.{LockRequest}
use fleetcore.Qt.{QtSocket, read_by, socket_signal, ready_read_signal}
use fleetcore.StreamBuffer.{next}
use fleetcore.StreamBuffer.Heard.{StandsIn, nothing_heard, Rest-nothing}
use fleetcore.StreamBuffer.Framing.{buffer}
use fleetcore.StreamBuffer.Serve.{All, all_wires}
use fleetcore.TermGui.{
  TermGui, launched, delivers, Move, called, delivered, pressed, quit, Reach, here, later,
}
use fleetcore.Wire.Layout.{lock_request_wire}
use fleetcore.Wire.RoundTrip.{IsLockRequest}

-- What is read from the socket in a move, and all that was read on the way.
unfoldable pub reads_in :
    {S : Type 0} {qt : QtSocket S} {e : Endian} {g g' : TermGui S} → Move qt e g g' → Bytes
reads_in {qt = qt} (called c) = read_by qt c
reads_in _ = []

unfoldable pub heard :
    {S : Type 0} {qt : QtSocket S} {e : Endian} {g g' : TermGui S} → Reach qt e g g' → Bytes
unfolding reads_in
heard here = []
heard (later r move) = heard r ++ reads_in move

-- The request that is shown, if any, meets the contract and stands in what was read.
abbrev pub ShowsGenuine : Bytes → Option LockRequest → Type 0
ShowsGenuine so_far none = Unit {0}
ShowsGenuine so_far (some m) = IsLockRequest m × StandsIn (lock_request_wire m) so_far

shows_more :
    (so_far chunk : Bytes) (o : Option LockRequest)
    → ShowsGenuine so_far o
    → ShowsGenuine (so_far ++ chunk) o
shows_more so_far chunk none h = tt
shows_more so_far chunk (some m) asked = Asked-append so_far chunk m asked

module _ {S : Type 0} where
  record Good (so_far : Bytes) (g : TermGui S) : Type 0 where
    pub from_contract : Genuine so_far g.worker
    pub shown : Shown
    pub genuine : ShowsGenuine so_far shown.locked_by
    pub window_is : g.window ≡ looks shown

  window-Good :
      (so_far : Bytes) (ev : Event) (g : TermGui S) (w : CommWorker S)
      → Genuine so_far w
      → (v : Good so_far g) → ShowsGenuine so_far (after (ev ∷ []) v.shown).locked_by
      → Good so_far (record { worker = w; window = handle ev g.window })
  window-Good so_far ev g w genuine v shows = record {
    from_contract = genuine;
    shown = after (ev ∷ []) v.shown;
    genuine = shows;
    window_is = ap (handle ev) v.window_is ∙ handle-looks ev v.shown;
  }

  worker-Good :
      (so_far chunk : Bytes) (g : TermGui S) (w : CommWorker S)
      → Genuine (so_far ++ chunk) w
      → Good so_far g
      → Good (so_far ++ chunk) (record g { worker = w })
  worker-Good so_far chunk g w genuine v = record {
    from_contract = genuine;
    shown = v.shown;
    genuine = shows_more so_far chunk v.shown.locked_by v.genuine;
    window_is = v.window_is;
  }

  delivered-Good :
      (so_far : Bytes) (sig : Signal) (rest : List Signal) (g : TermGui S)
      → All (MeetsContract so_far) (sig ∷ rest)
      → Good so_far g
      → Good so_far (record {
        worker = record g.worker { emitted = rest };
        window = handle (delivers sig) g.window;
      })
  delivered-Good so_far (lock_received m) rest g (meets, all) v =
      window-Good so_far (lock_event m) g (record g.worker { emitted = rest })
        (record { rest = v.from_contract.rest; meet = all }) v meets
  delivered-Good so_far (link_state_changed connected) rest g (meets, all) v =
      window-Good so_far (link_event connected) g (record g.worker { emitted = rest })
        (record { rest = v.from_contract.rest; meet = all }) v v.genuine

  module _ (qt : QtSocket S) (e : Endian) where
    launched-Good : (port : ℕ) → Good [] (launched qt port)
    unfolding launched start handle_all
    launched-Good port = record {
      from_contract =
          try_reconnect-Genuine [] qt (record (Comm.created port) { socket = some qt.fresh })
            (record { rest = Rest-nothing []; meet = tt });
      shown = record { locked_by = none; link = false };
      genuine = tt;
      window_is = created-looks [];
    }

    module _ (reads : (s : S) → AreBytes (qt.read_all s).0) where
      Move-Good :
          {g g' : TermGui S} (so_far : Bytes) (move : Move qt e g g')
          → Good so_far g
          → Good (so_far ++ reads_in move) g'
      unfolding stop handle reads_in
      Move-Good {g} so_far (called c) v =
          worker-Good so_far (read_by qt c) g (call qt e c g.worker)
            (call-Genuine so_far qt e reads c g.worker v.from_contract) v
      Move-Good {g} so_far (delivered sig rest next_is) v =
          nothing_heard
            (λ (b : Bytes). Good b (record {
              worker = record g.worker { emitted = rest };
              window = handle (delivers sig) g.window;
            }))
            so_far
            (delivered-Good so_far sig rest g
              (subst (All (MeetsContract so_far)) next_is v.from_contract.meet) v)
      Move-Good {g} so_far pressed v =
          nothing_heard (λ (b : Bytes). Good b (record g { window = handle press_event g.window }))
            so_far (window-Good so_far press_event g g.worker v.from_contract v tt)
      Move-Good {g} so_far quit v =
          worker-Good so_far [] g (stop qt g.worker)
            (nothing_heard (λ (b : Bytes). Genuine b (stop qt g.worker)) so_far
              (abort_socket-Genuine so_far qt g.worker v.from_contract))
            v

      Reach-Good :
          (port : ℕ) {g : TermGui S} (r : Reach qt e (launched qt port) g) → Good (heard r) g
      unfolding heard
      Reach-Good port here = launched-Good port
      Reach-Good port (later r move) = Move-Good (heard r) move (Reach-Good port r)

      -- Whatever termd sends, and however the threads take turns, at every moment the screen reads
      -- "UNLOCKED", or "LOCKED" with the terminal, the number and the time of one lock request, in the
      -- colours of the one or the other; and that request meets the contract and its bytes stand, in
      -- one piece, in what was read from the socket, where what is read are bytes.
      pub screen_shows :
          (port : ℕ) (g : TermGui S) (r : Reach qt e (launched qt port) g)
          → (v : Shown) × (g.window ≡ looks v) × ShowsGenuine (heard r) v.locked_by
      screen_shows port g r =
          let good = Reach-Good port r in (good.shown, good.window_is, good.genuine)

    deliver_all :
        (ms : List LockRequest) (g s : TermGui S)
        → Reach qt e g s
        → s.worker.emitted ≡ map lock_received ms
        → Reach qt e g (record {
          worker = record s.worker { emitted = [] };
          window = handle_all (map lock_event ms) s.window;
        })
    unfolding handle_all
    deliver_all [] g s r none_left =
        subst
          (λ (l : List Signal).
            Reach qt e g (record { worker = record s.worker { emitted = l }; window = s.window }))
          none_left r
    deliver_all (m ∷ ms) g s r queued =
        deliver_all ms g _ (later r (delivered (lock_received m) (map lock_received ms) queued))
          refl

    last_stays :
        (ms : List LockRequest) (m : LockRequest) (w : LockWindow)
        → handle_all (map lock_event (ms ++ (m ∷ []))) w ≡ locked_by_request m w
    unfolding handle_all handle on_lock_received apply_locked_style
    last_stays [] m w = refl
    last_stays (x ∷ ms) m w = last_stays ms m (on_lock_received x w)

    -- When the bytes of one or more lock requests that meet the contract are complete and nothing
    -- else is queued for the window, the threads can go on so that the window has taken them all, and
    -- then it reads "LOCKED" with the terminal, the number and the time of the last of them, in the
    -- colours of a locked screen, whatever it showed before.
    pub requests_lock :
        (g : TermGui S) (s s' : S) (chunk tail : Bytes) (ms : List LockRequest) (m : LockRequest)
        → qt.read_all s ≡ (chunk, s')
        → All IsLockRequest (ms ++ (m ∷ []))
        → next (buffer tail) ≡ none
        → g.worker.rx.bytes ++ chunk ≡ all_wires lock_request_wire (ms ++ (m ∷ [])) ++ tail
        → g.worker.emitted ≡ []
        → Reach qt e g (record {
          worker = record g.worker { socket = some s'; rx = buffer tail; emitted = [] };
          window = locked_by_request m g.window;
        })
    unfolding call
    requests_lock g s s' chunk tail ms m reads vs n split idle =
        let w = record g.worker { socket = some s } in
        let emits =
          on_ready_read_emits qt e w s s' chunk tail (ms ++ (m ∷ [])) refl reads vs n split in
        let w' = record g.worker {
          socket = some s';
          rx = buffer tail;
          emitted = g.worker.emitted ++ map lock_received (ms ++ (m ∷ []));
        } in
        let g' : TermGui S = record { worker = w'; window = g.window } in
        let r : Reach qt e g g' =
          subst (λ (v : CommWorker S). Reach qt e g (record { worker = v; window = g.window }))
            emits (later here (called (socket_signal ready_read_signal s))) in
        subst
          (λ (win : LockWindow). Reach qt e g (record {
            worker = record g.worker { socket = some s'; rx = buffer tail; emitted = [] };
            window = win;
          }))
          (last_stays ms m g.window)
          (deliver_all (ms ++ (m ∷ [])) g g' r
            (ap (λ (l : List Signal). l ++ map lock_received (ms ++ (m ∷ []))) idle))
