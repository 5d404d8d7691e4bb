-- ===== src/MaintGui/Lines.antt =====
-- What the lines of the log and the labels of the maintenance screen say.
use fleetcore.Prelude.{ℕ, ◌≡◌, refl, sym, ap, ◌∙◌, List, [], ◌∷◌, ◌++◌, append_assoc, if◌then◌else◌}
use fleetcore.Bytes.{Bytes, Endian}
use fleetcore.MaintGui.{MaintGui, Move, called, Reach, here, later}
use fleetcore.MaintWindow.{MaintWindow, ViewLine, ack_line, worker_line}
use fleetcore.MaintWorker.Told.{Answered, Answered-append, number_of}
use fleetcore.Proto.{LockResponse}
use fleetcore.Qt.{QtSocket, read_by}

-- What is read from the socket in a move, and all that was read on the way.
unfoldable pub reads_in :
    {S Q : Type 0} {qt : QtSocket S} {to_latin1 : Q → Bytes} {e : Endian} {g g' : MaintGui S Q}
    → Move qt to_latin1 e g g'
    → Bytes
reads_in {qt = qt} (called c) = read_by qt c
reads_in _ = []

unfoldable pub heard :
    {S Q : Type 0} {qt : QtSocket S} {to_latin1 : Q → Bytes} {e : Endian} {g g' : MaintGui S Q}
    → Reach qt to_latin1 e g g'
    → Bytes
unfolding reads_in
heard here = []
heard (later r move) = heard r ++ reads_in move

-- A line on an acknowledgement is that of a lock response that meets the contract and stands in what
-- was read.
abbrev pub OfResponse : {Q : Type 0} → Bytes → ViewLine Q → Type 0
OfResponse so_far (ack_line term seq outcome) =
    (m : LockResponse) × Answered so_far m
    × (term ≡ m.term_no)
    × (seq ≡ m.header.seq)
    × (outcome ≡ m.outcome)
OfResponse so_far (worker_line line) = Unit {0}

pub more_heard :
    {Q : Type 0} (so_far chunk : Bytes) (line : ViewLine Q)
    → OfResponse so_far line
    → OfResponse (so_far ++ chunk) line
more_heard so_far chunk (ack_line term seq outcome) (m, answered, t, s, o) =
    (m, Answered-append so_far chunk m answered, t, s, o)
more_heard so_far chunk (worker_line line) h = tt

-- The numbers of the requests that the lines say were sent.
abbrev pub sent_lines : {Q : Type 0} → List (ViewLine Q) → List ℕ
sent_lines [] = []
sent_lines (worker_line line ∷ lines) = number_of line ++ sent_lines lines
sent_lines (ack_line term seq outcome ∷ lines) = sent_lines lines

pub sent_lines-append :
    {Q : Type 0} (xs ys : List (ViewLine Q))
    → sent_lines (xs ++ ys) ≡ sent_lines xs ++ sent_lines ys
sent_lines-append [] ys = refl
sent_lines-append (ack_line term seq outcome ∷ xs) ys = sent_lines-append xs ys
sent_lines-append (worker_line line ∷ xs) ys =
    ap (◌++◌ (number_of line)) (sent_lines-append xs ys)
    ∙ sym (append_assoc (number_of line) (sent_lines xs) (sent_lines ys))

-- The label, its colour and the button agree on the link.
pub record LinkShown {Q : Type 0} (w : MaintWindow Q) : Type 0 where
  pub text_is : w.link_text ≡ (if w.lock_enabled then "link: connected" else "link: disconnected")
  pub style_is : w.link_style ≡ (if w.lock_enabled then "color: green;" else "color: red;")
