-- ===== src/ShmTable/Lookup.antt =====
-- common/shm_table.cpp: the rows as a partial map from terminal numbers to rows.
use fleetcore.Prelude.{
  ℕ, ◌%◌, ◌^◌, ◌≡◌, ◌≢◌, ◌⊎◌, inl, inr, refl, Bool, true, false, Option, none, some, [], ◌∷◌, arith,
  ◌==◌, ◌||◌, if◌then◌else◌, Option-cases,
}
use fleetcore.Proto.{zero_pad}
use fleetcore.ShmTable.Rows.{
  TermEntry, Table, fresh_entry, find_row, claim_row, register_row, change_row, set_row, touch_row,
  stated, touched,
}

-- No row holds the number, and no number but 0 stands in two rows.
abbrev pub Absent : ℕ → Table → Type 0
Absent t [] = Unit {0}
Absent t (e ∷ rows) = (e.term_no ≢ t) × Absent t rows

abbrev pub Distinct : Table → Type 0
Distinct [] = Unit {0}
Distinct (e ∷ rows) = ((e.term_no ≡ 0) ⊎ Absent e.term_no rows) × Distinct rows

-- Some row is free.
abbrev pub has_free : Table → Bool
has_free [] = false
has_free (e ∷ rows) = if e.term_no == 0 then true else has_free rows

pub find_row-Absent : (t : ℕ) (rows : Table) → find_row t rows ≡ none → Absent t rows
unfolding find_row
find_row-Absent t [] h = tt
find_row-Absent t (e ∷ rows) h = ground (arith, find_row-Absent t rows)

-- What a claim does to the map, and when it succeeds.
claim_row-ok : (t : ℕ) (rows : Table) → (claim_row t rows).0 ≡ has_free rows
unfolding claim_row
claim_row-ok t [] = refl
claim_row-ok t (e ∷ rows) = ground (arith, claim_row-ok t rows)

find_row-claim_row :
    (t u : ℕ) (rows : Table)
    → t ≢ 0
    → u ≢ 0
    → Absent t rows
    → find_row u (claim_row t rows).1
      ≡ (if u == t then (if has_free rows then some (fresh_entry t) else none) else find_row u rows)
unfolding find_row claim_row
find_row-claim_row t u [] ht hu a = ground arith
find_row-claim_row t u (e ∷ rows) ht hu (a, others) =
    ground (arith, find_row-claim_row t u rows ht hu others)

find_row-Absent' : (t : ℕ) (rows : Table) → Absent t rows → find_row t rows ≡ none
unfolding find_row
find_row-Absent' t [] a = refl
find_row-Absent' t (e ∷ rows) (a, others) = ground (arith, find_row-Absent' t rows others)

-- The abstract table maps a terminal to its row, if it has one.
abbrev pub is_registered : Option TermEntry → Bool
is_registered none = false
is_registered (some e) = true

-- The row of a terminal that has just been registered: disconnected, with no capability, never seen.
abbrev pub new_row : ℕ → TermEntry
new_row t = record { term_no = t; capabilities = 0; state = 1; reserved = zero_pad; last_seen = 0 }

-- A row with another state, capabilities and time, and one with another time.
abbrev pub row_with : (state capabilities time : ℕ) → TermEntry → TermEntry
row_with state capabilities time e = record {
  term_no = e.term_no;
  capabilities = capabilities;
  state = state;
  reserved = e.reserved;
  last_seen = time;
}

abbrev pub row_seen : (time : ℕ) → TermEntry → TermEntry
row_seen time e = record {
  term_no = e.term_no;
  capabilities = e.capabilities;
  state = e.state;
  reserved = e.reserved;
  last_seen = time;
}

-- A registration keeps the row of a terminal that has one, and adds a fresh row if there is room.
abbrev pub registered : Bool → ℕ → Option TermEntry → Option TermEntry
registered room t (some e) = some e
registered room t none = if room then some (new_row t) else none

-- A change of a terminal's row.
abbrev pub changed : (TermEntry → TermEntry) → Option TermEntry → Option TermEntry
changed f none = none
changed f (some e) = some (f e)

-- The rows refine an abstract table, from terminal numbers other than 0 to rows: a registration
-- succeeds exactly if the terminal has a row or some row is free; then the terminal has its old row
-- or a new one, disconnected, with no capability and never seen, and every other terminal has the row that it
-- had.
pub register_row_refines :
    (t u : ℕ) (rows : Table)
    → t ≢ 0
    → u ≢ 0
    → ((register_row t rows).0 ≡ (is_registered (find_row t rows) || has_free rows))
      × (find_row u (register_row t rows).1
          ≡ (if u == t then registered (has_free rows) t (find_row t rows) else find_row u rows))
unfolding register_row
register_row_refines t u rows ht hu = elim (Option-cases (find_row t rows)) [
  | inl e ↦
      let gone = find_row-Absent t rows e in
      ground (arith, claim_row-ok t rows, find_row-claim_row t u rows ht hu gone)
  | inr (r, e) ↦ ground arith
]

change_row_refines :
    (f : TermEntry → TermEntry) (t u : ℕ) (rows : Table)
    → ((e : TermEntry) → (f e).term_no ≡ e.term_no)
    → ((change_row f t rows).0 ≡ is_registered (find_row t rows))
      × (find_row u (change_row f t rows).1
          ≡ (if u == t then changed f (find_row t rows) else find_row u rows))
unfolding change_row find_row
change_row_refines f t u [] keep = ground arith
change_row_refines f t u (e ∷ rows) keep =
    ground (arith, keep e, change_row_refines f t u rows keep)

-- `set_state` and `touch` refine a change of one row: they succeed exactly if the terminal has a
-- row, give it the new state, capabilities and time, or the new time alone, the time as a word of 64
-- bits, keep what else is in it, and leave the rows of all other terminals as they were.
pub set_row_refines :
    (now t state capabilities u : ℕ) (rows : Table)
    → ((set_row now t state capabilities rows).0 ≡ is_registered (find_row t rows))
      × (find_row u (set_row now t state capabilities rows).1 ≡ (
          if u == t
          then changed (row_with state capabilities (now % 2 ^ 64)) (find_row t rows)
          else find_row u rows))
      × ((touch_row now t rows).0 ≡ is_registered (find_row t rows))
      × (find_row u (touch_row now t rows).1 ≡ (
          if u == t then changed (row_seen (now % 2 ^ 64)) (find_row t rows) else find_row u rows))
unfolding set_row touch_row
set_row_refines now t state capabilities u rows =
    let (a, b) = change_row_refines (stated now state capabilities) t u rows (λ e. refl) in
    let (c, d) = change_row_refines (touched now) t u rows (λ e. refl) in (a, b, c, d)
