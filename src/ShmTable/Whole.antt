-- ===== src/ShmTable/Whole.antt =====
-- common/shm_table.cpp: the 64 rows as a whole, and the rows in use.
use fleetcore.Prelude.{
  ℕ, zero, suc, ◌≤◌, ◌≡◌, ◌≢◌, ◌⊎◌, inl, inr, refl, sym, ap, ◌∙◌, List, [], ◌∷◌, arith, ◌==◌,
  if◌then◌else◌, length, take, Option-cases, Bool-cases,
}
use fleetcore.ShmTable.Rows.{
  TermEntry, Table, find_row, claim_row, register_row, change_row, set_row, touch_row,
  occupied_rows,
}
use fleetcore.ShmTable.Lookup.{Absent, Distinct, find_row-Absent}

-- The whole table: one row for each of the 64 places, no terminal in two of them.
pub record IsTable (rows : Table) : Type 0 where
  pub size : length rows ≡ 64
  pub distinct : Distinct rows

Absent-claim_row : (t u : ℕ) (rows : Table) → t ≢ u → Absent u rows → Absent u (claim_row t rows).1
unfolding claim_row
Absent-claim_row t u [] h a = tt
Absent-claim_row t u (e ∷ rows) h (a, others) = ground (arith, Absent-claim_row t u rows h others)

length-claim_row : (t : ℕ) (rows : Table) → length (claim_row t rows).1 ≡ length rows
unfolding claim_row
length-claim_row t [] = refl
length-claim_row t (e ∷ rows) = ground (arith, length-claim_row t rows)

apart {ℓ κ μ} : {A : Type ℓ} {B : Type κ} {C : Type μ} → (B → C) → A ⊎ B → A ⊎ C
apart f (inl x) = inl x
apart f (inr y) = inr (f y)

Distinct-claim_row :
    (t : ℕ) (rows : Table) → Absent t rows → Distinct rows → Distinct (claim_row t rows).1
unfolding claim_row
Distinct-claim_row t [] a d = tt
Distinct-claim_row t (e ∷ rows) (a, others) (d, ds) = elim (Bool-cases (e.term_no == 0)) [
  | inl free ↦ rw free (inr others, ds)
  | inr used ↦ rw used (
    apart (Absent-claim_row t e.term_no rows (λ p. a (sym p))) d,
    Distinct-claim_row t rows others ds,
  )
]

Absent-change_row :
    (f : TermEntry → TermEntry) (t u : ℕ) (rows : Table)
    → ((e : TermEntry) → (f e).term_no ≡ e.term_no)
    → Absent u rows
    → Absent u (change_row f t rows).1
unfolding change_row
Absent-change_row f t u [] keep a = tt
Absent-change_row f t u (e ∷ rows) keep (a, others) =
    ground (arith, keep e, Absent-change_row f t u rows keep others)

length-change_row :
    (f : TermEntry → TermEntry) (t : ℕ) (rows : Table)
    → length (change_row f t rows).1 ≡ length rows
unfolding change_row
length-change_row f t [] = refl
length-change_row f t (e ∷ rows) = ground (arith, length-change_row f t rows)

Distinct-change_row :
    (f : TermEntry → TermEntry) (t : ℕ) (rows : Table)
    → ((e : TermEntry) → (f e).term_no ≡ e.term_no)
    → Distinct rows
    → Distinct (change_row f t rows).1
unfolding change_row
Distinct-change_row f t [] keep d = tt
Distinct-change_row f t (e ∷ rows) keep (d, ds) = elim (Bool-cases (e.term_no == t)) [
  | inl here ↦ rw (here, keep e) (d, ds)
  | inr there ↦
      rw there
        (apart (Absent-change_row f t e.term_no rows keep) d, Distinct-change_row f t rows keep ds)
]

register_row-IsTable : (t : ℕ) (rows : Table) → IsTable rows → IsTable (register_row t rows).1
unfolding register_row
register_row-IsTable t rows v = elim (Option-cases (find_row t rows)) [
  | inl e ↦
      rw (e, register_row)
        (record {
          size = length-claim_row t rows ∙ v.size;
          distinct = Distinct-claim_row t rows (find_row-Absent t rows e) v.distinct;
        })
  | inr (r, e) ↦ rw (e, register_row) v
]

pub change_row-IsTable :
    (f : TermEntry → TermEntry) (t : ℕ) (rows : Table)
    → ((e : TermEntry) → (f e).term_no ≡ e.term_no)
    → IsTable rows
    → IsTable (change_row f t rows).1
change_row-IsTable f t rows keep v = record {
  size = length-change_row f t rows ∙ v.size;
  distinct = Distinct-change_row f t rows keep v.distinct;
}

-- Each operation of the table keeps it a table of 64 rows in which no terminal has two rows.
pub operations-IsTable :
    (now t state capabilities : ℕ) (rows : Table)
    → IsTable rows
    → IsTable (register_row t rows).1
      × IsTable (set_row now t state capabilities rows).1
      × IsTable (touch_row now t rows).1
unfolding set_row touch_row
operations-IsTable now t state capabilities rows v = (
  register_row-IsTable t rows v,
  change_row-IsTable _ t rows (λ e. refl) v,
  change_row-IsTable _ t rows (λ e. refl) v,
)

-- The rows in use, in the order of the table.
abbrev pub occupied : Table → List TermEntry
occupied [] = []
occupied (e ∷ rows) = if e.term_no == 0 then occupied rows else e ∷ occupied rows

-- `snapshot` copies the first `cap` rows that are in use, in the order of the table, and nothing
-- else; so never more than `cap`.
pub occupied_rows_lem :
    (cap : ℕ) (rows : Table)
    → (occupied_rows cap rows ≡ take cap (occupied rows)) × (length (occupied_rows cap rows) ≤ cap)
unfolding occupied_rows
occupied_rows_lem zero rows = (refl, omega arith)
occupied_rows_lem (suc cap) [] = (refl, omega arith)
occupied_rows_lem (suc cap) (e ∷ rows) = elim (Bool-cases (e.term_no == 0)) [
  | inl free ↦ rw (free, occupied_rows) (occupied_rows_lem (suc cap) rows)
  | inr used ↦
      let (same, most) = occupied_rows_lem cap rows in
      rw (used, occupied_rows) (ap (◌∷◌ e) same, omega (arith, most))
]
