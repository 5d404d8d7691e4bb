-- ===== src/MaintWindow.antt =====
-- maint_gui/maint_window.h and maint_gui/maint_window.cpp: the maintenance screen. A QString is a
-- value of any type `Q`; a line of the log view is kept as what it is made of, without the time of
-- day before it. What Qt lays out is left out. The button emits `clicked` while it is enabled.
use Prim.Native.String.{String}
use fleetcore.Prelude.{
  ℕ, Bool, true, false, List, [], ◌∷◌, ◌++◌, ◌≡◌, refl, sym, ◌∙◌, if◌then◌else◌, append_assoc,
  append-nil, Bool-cases, inl, inr,
}
use fleetcore.MaintWorker.{LogLine}
use fleetcore.Proto.{LockResponse, TermNo}

pub data ViewLine (Q : Type 0) : Type 0 where
  ack_line : (term : TermNo) (seq outcome : ℕ) → ViewLine Q
  worker_line : LogLine Q → ViewLine Q

pub record MaintWindow (Q : Type 0) : Type 0 where
  pub selected : Q
  pub lock_enabled : Bool
  pub log_view : List (ViewLine Q)
  pub link_text : String
  pub link_style : String
  pub requested : List Q

-- What the event loop of the window's thread meets: a signal of the worker, a choice in the list of
-- terminals, or a click on the button.
pub data Event (Q : Type 0) : Type 0 where
  ack_event : LockResponse → Event Q
  link_event : Bool → Event Q
  log_event : LogLine Q → Event Q
  select_event : Q → Event Q
  click_event : Event Q

module _ {Q : Type 0} where
  unfoldable pub on_log_line : ViewLine Q → MaintWindow Q → MaintWindow Q
  on_log_line line w = record w { log_view = w.log_view ++ (line ∷ []) }

  unfoldable pub on_ack_received : LockResponse → MaintWindow Q → MaintWindow Q
  unfolding on_log_line
  on_ack_received rsp = on_log_line (ack_line rsp.term_no rsp.header.seq rsp.outcome)

  unfoldable pub on_link_state_changed : Bool → MaintWindow Q → MaintWindow Q
  on_link_state_changed connected w = record w {
    link_text = if connected then "link: connected" else "link: disconnected";
    link_style = if connected then "color: green;" else "color: red;";
    lock_enabled = connected;
  }

  -- The function connected to `clicked`; `requested` are the signals lockRequested emitted, in order.
  unfoldable pub on_clicked : MaintWindow Q → MaintWindow Q
  on_clicked w = record w { requested = w.requested ++ (w.selected ∷ []) }

  -- The constructor, with the first entry of the list of terminals.
  unfoldable pub created : Q → MaintWindow Q
  unfolding on_link_state_changed
  created first = on_link_state_changed false (record {
    selected = first;
    lock_enabled = true;
    log_view = [];
    link_text = "";
    link_style = "";
    requested = [];
  })

  unfoldable pub handle : Event Q → MaintWindow Q → MaintWindow Q
  unfolding on_ack_received on_link_state_changed on_log_line on_clicked
  handle (ack_event rsp) w = on_ack_received rsp w
  handle (link_event connected) w = on_link_state_changed connected w
  handle (log_event line) w = on_log_line (worker_line line) w
  handle (select_event text) w = record w { selected = text }
  handle click_event w = if w.lock_enabled then on_clicked w else w

  unfoldable pub handle_all : List (Event Q) → MaintWindow Q → MaintWindow Q
  unfolding handle
  handle_all [] w = w
  handle_all (ev ∷ evs) w = handle_all evs (handle ev w)

  -- The lines of some events.
  abbrev pub lines_of : List (Event Q) → List (ViewLine Q)
  lines_of [] = []
  lines_of (ack_event rsp ∷ evs) = ack_line rsp.term_no rsp.header.seq rsp.outcome ∷ lines_of evs
  lines_of (log_event line ∷ evs) = worker_line line ∷ lines_of evs
  lines_of (_ ∷ evs) = lines_of evs

  -- The link after them, and the terminals chosen at the clicks that come while it is up.
  abbrev pub link_after : Bool → List (Event Q) → Bool
  link_after up [] = up
  link_after up (link_event connected ∷ evs) = link_after connected evs
  link_after up (_ ∷ evs) = link_after up evs

  abbrev pub clicks_of : Bool → Q → List (Event Q) → List Q
  clicks_of up text [] = []
  clicks_of up text (link_event connected ∷ evs) = clicks_of connected text evs
  clicks_of up text (select_event text' ∷ evs) = clicks_of up text' evs
  clicks_of true text (click_event ∷ evs) = text ∷ clicks_of true text evs
  clicks_of false text (click_event ∷ evs) = clicks_of false text evs
  clicks_of up text (ack_event rsp ∷ evs) = clicks_of up text evs
  clicks_of up text (log_event line ∷ evs) = clicks_of up text evs

  abbrev Follows : List (Event Q) → MaintWindow Q → Type 0
  Follows evs w =
      ((handle_all evs w).log_view ≡ w.log_view ++ lines_of evs)
      × ((handle_all evs w).lock_enabled ≡ link_after w.lock_enabled evs)
      × ((handle_all evs w).requested ≡ w.requested ++ clicks_of w.lock_enabled w.selected evs)

  handle_all-Follows : (evs : List (Event Q)) (w : MaintWindow Q) → Follows evs w
  unfolding handle_all on_log_line on_ack_received on_link_state_changed on_clicked
  handle_all-Follows [] w = (sym (append-nil w.log_view), refl, sym (append-nil w.requested))
  handle_all-Follows (ack_event rsp ∷ evs) w =
      let line = ack_line rsp.term_no rsp.header.seq rsp.outcome in
      let (log, link, requests) = handle_all-Follows evs (on_log_line line w) in
      (log ∙ append_assoc w.log_view (line ∷ []) (lines_of evs), link, requests)
  handle_all-Follows (link_event connected ∷ evs) w =
      handle_all-Follows evs (on_link_state_changed connected w)
  handle_all-Follows (log_event line ∷ evs) w =
      let (log, link, requests) = handle_all-Follows evs (on_log_line (worker_line line) w) in
      (log ∙ append_assoc w.log_view (worker_line line ∷ []) (lines_of evs), link, requests)
  handle_all-Follows (select_event text ∷ evs) w =
      handle_all-Follows evs (record w { selected = text })
  handle_all-Follows (click_event ∷ evs) w = elim (Bool-cases w.lock_enabled) [
    | inr off ↦ rw (off, handle_all) (handle_all-Follows evs (record w { lock_enabled = false }))
    | inl on ↦
        let w' = record (on_clicked w) { lock_enabled = true } in
        let (log, link, requests) = handle_all-Follows evs w' in
        rw (on, handle_all)
          (
            log,
            link,
            requests ∙ append_assoc w.requested (w.selected ∷ []) (clicks_of true w.selected evs),
          )
  ]

  -- After any sequence of events the log has a line for each acknowledgement and each line of the
  -- worker, in order; the button is enabled exactly if the last report of the link, if any, says that
  -- it is up; and a lock has been requested once for each click that came while it was, with the
  -- terminal chosen at the time.
  pub created-handle_all :
      (first : Q) (evs : List (Event Q))
      → ((handle_all evs (created first)).log_view ≡ lines_of evs)
        × ((handle_all evs (created first)).lock_enabled ≡ link_after false evs)
        × ((handle_all evs (created first)).requested ≡ clicks_of false first evs)
  unfolding created
  created-handle_all first evs = handle_all-Follows evs (created first)
