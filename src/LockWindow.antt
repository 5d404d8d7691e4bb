-- ===== src/LockWindow.antt =====
-- term_gui/lock_window.h and term_gui/lock_window.cpp: the screen of a vehicle terminal. A label is its
-- text and its style sheet; the text of the detail label is kept as what it is made of. What Qt lays
-- out (sizes, alignment, the layout) is left out.
use Prim.Native.String.{String}
use fleetcore.Prelude.{
  ℕ, Bool, true, false, Option, none, some, List, [], ◌∷◌, ◌≡◌, refl, if◌then◌else◌,
}
use fleetcore.Proto.{LockRequest, TermNo}

pub data Detail : Type 0 where
  no_text waiting : Detail
  command : (term : TermNo) (seq timestamp : ℕ) → Detail

pub record LockWindow : Type 0 where
  pub style : String
  pub state_text : String
  pub state_style : String
  pub detail : Detail
  pub detail_style : String
  pub link_text : String
  pub link_style : String

-- The widgets as they are made.
abbrev blank : LockWindow
blank = record {
  style = "";
  state_text = "";
  state_style = "";
  detail = no_text;
  detail_style = "";
  link_text = "";
  link_style = "";
}

unfoldable pub apply_locked_style : LockWindow → LockWindow
apply_locked_style w = record w {
  style = "background-color: #7a1111;";
  state_text = "LOCKED";
  state_style = "color: white; font-size: 72px; font-weight: bold;";
  detail_style = "color: #fcc; font-size: 18px;";
}

unfoldable pub apply_unlocked_style : LockWindow → LockWindow
apply_unlocked_style w = record w {
  style = "background-color: #2b2b2b;";
  state_text = "UNLOCKED";
  state_style = "color: #888; font-size: 72px;";
  detail = waiting;
  detail_style = "color: #666; font-size: 18px;";
}

unfoldable pub on_lock_received : LockRequest → LockWindow → LockWindow
unfolding apply_locked_style
on_lock_received req w = record (apply_locked_style w) {
  detail = command req.term_no req.header.seq req.header.timestamp;
}

unfoldable pub on_link_state_changed : Bool → LockWindow → LockWindow
on_link_state_changed connected w = record w {
  link_text = if connected then "link: connected" else "link: disconnected";
  link_style =
      if connected
      then "color: #7f7; font-size: 14px; padding: 8px;"
      else "color: #f77; font-size: 14px; padding: 8px;";
}

unfoldable pub on_unlock_pressed : LockWindow → LockWindow
unfolding apply_unlocked_style
on_unlock_pressed w = apply_unlocked_style w

-- The constructor.
unfoldable pub created : LockWindow
unfolding apply_unlocked_style on_link_state_changed
created = on_link_state_changed false (apply_unlocked_style blank)

-- What the event loop of the window's thread meets.
pub data Event : Type 0 where
  lock_event : LockRequest → Event
  link_event : Bool → Event
  press_event : Event

unfoldable pub handle : Event → LockWindow → LockWindow
unfolding on_lock_received on_link_state_changed on_unlock_pressed
handle (lock_event req) w = on_lock_received req w
handle (link_event connected) w = on_link_state_changed connected w
handle press_event w = on_unlock_pressed w

unfoldable pub handle_all : List Event → LockWindow → LockWindow
unfolding handle
handle_all [] w = w
handle_all (ev ∷ evs) w = handle_all evs (handle ev w)

-- What the screen means: the request that it shows as locked, if any, and the link.
pub record Shown : Type 0 where
  pub locked_by : Option LockRequest
  pub link : Bool

-- How the screen looks for that, part by part.
abbrev pub state_of : Option LockRequest → String
state_of none = "UNLOCKED"
state_of (some req) = "LOCKED"

abbrev pub detail_of : Option LockRequest → Detail
detail_of none = waiting
detail_of (some req) = command req.term_no req.header.seq req.header.timestamp

abbrev pub ground_of : Option LockRequest → String
ground_of none = "background-color: #2b2b2b;"
ground_of (some req) = "background-color: #7a1111;"

abbrev pub state_style_of : Option LockRequest → String
state_style_of none = "color: #888; font-size: 72px;"
state_style_of (some req) = "color: white; font-size: 72px; font-weight: bold;"

abbrev pub detail_style_of : Option LockRequest → String
detail_style_of none = "color: #666; font-size: 18px;"
detail_style_of (some req) = "color: #fcc; font-size: 18px;"

abbrev pub link_text_of : Bool → String
link_text_of false = "link: disconnected"
link_text_of true = "link: connected"

abbrev pub link_style_of : Bool → String
link_style_of false = "color: #f77; font-size: 14px; padding: 8px;"
link_style_of true = "color: #7f7; font-size: 14px; padding: 8px;"

abbrev pub looks : Shown → LockWindow
looks v = record {
  style = ground_of v.locked_by;
  state_text = state_of v.locked_by;
  state_style = state_style_of v.locked_by;
  detail = detail_of v.locked_by;
  detail_style = detail_style_of v.locked_by;
  link_text = link_text_of v.link;
  link_style = link_style_of v.link;
}

-- A screen locked by a request, with the link as it was.
abbrev pub locked_by_request : LockRequest → LockWindow → LockWindow
locked_by_request req w = record {
  style = "background-color: #7a1111;";
  state_text = "LOCKED";
  state_style = "color: white; font-size: 72px; font-weight: bold;";
  detail = command req.term_no req.header.seq req.header.timestamp;
  detail_style = "color: #fcc; font-size: 18px;";
  link_text = w.link_text;
  link_style = w.link_style;
}

-- The last request that no press follows, and the last state of the link.
abbrev pub after : List Event → Shown → Shown
after [] v = v
after (lock_event req ∷ evs) v = after evs (record v { locked_by = some req })
after (link_event connected ∷ evs) v = after evs (record v { link = connected })
after (press_event ∷ evs) v = after evs (record v { locked_by = none })

handle_all-looks : (evs : List Event) (v : Shown) → handle_all evs (looks v) ≡ looks (after evs v)
unfolding handle_all on_lock_received on_link_state_changed on_unlock_pressed apply_locked_style
    apply_unlocked_style
handle_all-looks [] v = refl
handle_all-looks (lock_event req ∷ evs) v = handle_all-looks evs (record v { locked_by = some req })
handle_all-looks (link_event true ∷ evs) v = handle_all-looks evs (record v { link = true })
handle_all-looks (link_event false ∷ evs) v = handle_all-looks evs (record v { link = false })
handle_all-looks (press_event ∷ evs) v = handle_all-looks evs (record v { locked_by = none })

pub handle-looks : (ev : Event) (v : Shown) → handle ev (looks v) ≡ looks (after (ev ∷ []) v)
unfolding handle_all
handle-looks ev v = handle_all-looks (ev ∷ []) v

-- After any sequence of lock requests, changes of the link and presses of the button, in any order,
-- the screen looks as the last request that no press follows and the last state of the link say: it
-- reads "LOCKED" with the terminal, the number and the time of that request, or "UNLOCKED" and that
-- it waits for a command if there is none, in the colours of the one or the other, and the link is
-- shown as down if it was never reported.
pub created-looks :
    (evs : List Event)
    → handle_all evs created ≡ looks (after evs (record { locked_by = none; link = false }))
unfolding created apply_unlocked_style on_link_state_changed
created-looks evs = handle_all-looks evs (record { locked_by = none; link = false })
