-- ===== src/ShmTable/Rows.antt =====
-- common/shm_table.h, `TermEntry` and the constants, and the loops of common/shm_table.cpp over the
-- rows.
use fleetcore.Prelude.{
  ℕ, zero, suc, ◌%◌, ◌^◌, Bool, true, false, Option, none, some, List, [], ◌∷◌, ◌==◌, if◌then◌else◌,
}
use fleetcore.Proto.{Pad, zero_pad}

pub record TermEntry : Type 0 where
  pub term_no : ℕ
  pub capabilities : ℕ
  pub state : ℕ
  pub reserved : Pad
  pub last_seen : ℕ

abbrev pub Table : Type 0
Table = List TermEntry

abbrev pub max_terminals : ℕ
max_terminals = 64

abbrev pub term_state_unused : ℕ
term_state_unused = 0

abbrev pub term_state_disconnected : ℕ
term_state_disconnected = 1

abbrev pub term_state_connected : ℕ
term_state_connected = 2

-- 1u << 0
abbrev pub cap_lock : ℕ
cap_lock = 1

-- A row as the kernel hands out a fresh segment.
abbrev pub zero_entry : TermEntry
zero_entry = record { term_no = 0; capabilities = 0; state = 0; reserved = zero_pad; last_seen = 0 }

-- The row that `register_terminal` writes.
abbrev pub fresh_entry : ℕ → TermEntry
fresh_entry term_no = record zero_entry { term_no = term_no; state = term_state_disconnected }

-- The first row of a terminal: the loops of `find`, and of `register_terminal` over what is there.
unfoldable pub find_row : ℕ → Table → Option TermEntry
find_row t [] = none
find_row t (e ∷ rows) = if e.term_no == t then some e else find_row t rows

-- The second loop of `register_terminal`.
unfoldable pub claim_row : ℕ → Table → Bool × Table
claim_row t [] = (false, [])
claim_row t (e ∷ rows) =
    let (ok, later) = claim_row t rows in
    if e.term_no == 0 then (true, fresh_entry t ∷ rows) else (ok, e ∷ later)

unfoldable pub register_row : ℕ → Table → Bool × Table
register_row t rows = elim (find_row t rows) [ some e ↦ (true, rows) | none ↦ claim_row t rows ]

-- The loop that changes the first row of a terminal.
unfoldable pub change_row : (TermEntry → TermEntry) → ℕ → Table → Bool × Table
change_row f t [] = (false, [])
change_row f t (e ∷ rows) =
    let (ok, later) = change_row f t rows in
    if e.term_no == t then (true, f e ∷ rows) else (ok, e ∷ later)

abbrev pub stated : ℕ → ℕ → ℕ → TermEntry → TermEntry
stated now state capabilities e = record e {
  state = state;
  capabilities = capabilities;
  last_seen = now % 2 ^ 64;
}

abbrev pub touched : ℕ → TermEntry → TermEntry
touched now e = record e { last_seen = now % 2 ^ 64 }

unfoldable pub set_row : ℕ → ℕ → ℕ → ℕ → Table → Bool × Table
unfolding change_row
set_row now t state capabilities = change_row (stated now state capabilities) t

unfoldable pub touch_row : ℕ → ℕ → Table → Bool × Table
unfolding change_row
touch_row now = change_row (touched now)

-- The loop of `snapshot`, with room for `cap` more rows.
unfoldable pub occupied_rows : ℕ → Table → List TermEntry
occupied_rows zero rows = []
occupied_rows (suc cap) [] = []
occupied_rows (suc cap) (e ∷ rows) = elim (e.term_no == 0) [
  | true ↦ occupied_rows (suc cap) rows
  | false ↦ e ∷ occupied_rows cap rows
]
