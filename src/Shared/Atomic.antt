-- ===== src/Shared/Atomic.antt =====
-- The writes of a section amount to the operation, whatever the other processes do meanwhile.
use fleetcore.Prelude.{
  ◌%◌, ◌^◌, ℕ, ◌+◌, ◌≡◌, ◌≢◌, inl, inr, refl, ap, sym, ◌∙◌, true, false, Bool-cases, List, [], ◌∷◌,
  ◌==◌,
}
use fleetcore.Shared.{
  Shared, Op, register_op, set_state_op, touch_op, read_op, hold_op, Write, apply, writes, work, Pc,
  outside, killed, locking, holding, holds, update, Step, calls, locks, interrupted, fails, works,
  unlocks, dies, Reach, later, initial,
}
use fleetcore.Shared.Exclusion.{false-true, update-cases, Exclusive, Reach-Exclusive}
use fleetcore.ShmTable.Whole.{IsTable}
use fleetcore.ShmTable.Rows.{Table, TermEntry, change_row, set_row, touch_row}

abbrev apply_all : List Write → Table → Table
apply_all [] rows = rows
apply_all (w ∷ ws) rows = apply_all ws (apply w rows)

change_row-twice :
    (f g : TermEntry → TermEntry) (t : ℕ) (rows : Table)
    → ((row : TermEntry) → (f row).term_no ≡ row.term_no)
    → (change_row g t (change_row f t rows).1).1 ≡ (change_row (λ row. g (f row)) t rows).1
unfolding change_row
change_row-twice f g t [] keep = refl
change_row-twice f g t (row ∷ rows) keep = elim (Bool-cases (row.term_no == t)) [
  | inl same ↦ rw (same, change_row) (rw (keep row) (rw (same)))
  | inr other ↦
      rw (other, change_row)
        (rw (other) (ap (λ (l : Table). row ∷ l) (change_row-twice f g t rows keep)))
]

apply_all-work : (op : Op) (rows : Table) → apply_all (writes op) rows ≡ work op rows
unfolding work writes apply set_row touch_row
apply_all-work (register_op term) rows = refl
apply_all-work (set_state_op now term state capabilities) rows =
    ap (λ (l : Table). (change_row (λ row. record row { last_seen = now % 2 ^ 64 }) term l).1)
      (change_row-twice (λ row. record row { state = state })
        (λ row. record row { capabilities = capabilities }) term rows (λ row. refl))
    ∙ change_row-twice (λ row. record row { state = state; capabilities = capabilities })
        (λ row. record row { last_seen = now % 2 ^ 64 }) term rows (λ row. refl)
apply_all-work (touch_op now term) rows = refl
apply_all-work read_op rows = refl
apply_all-work (hold_op undo) rows = refl

-- On the way from `s`, the process is behind its `lock` all the time.
pub data During (p : ℕ) (s : Shared) : Shared → Type 0 where
  begins : During p s s
  goes_on : {t u : Shared} → During p s t → Step t u → holds (u.pc p) ≡ true → During p s u

-- The writes that are left lead to these rows.
record Midway (p : ℕ) (op : Op) (result : Table) (t : Shared) : Type 0 where
  pub left : List Write
  pub place : t.pc p ≡ holding op left
  pub leads : apply_all left t.rows ≡ result

abbrev op_of : Pc → Op
op_of (holding op left) = op
op_of _ = read_op

abbrev left_of : Pc → List Write
left_of (holding op left) = left
left_of _ = []

-- A process that does not hold the semaphore afterwards is another one.
gone :
    (p : ℕ) (t : Shared) (q : ℕ) (c : Pc)
    → holds c ≡ false
    → holds (update t.pc q c p) ≡ true
    → p ≢ q
gone p t q c not_there h same = elim (update-cases t.pc q p c) [
  | inl (here, is) ↦ false-true (sym not_there ∙ sym (ap holds is) ∙ h)
  | inr (differs, is) ↦ differs same
]

module _ {p : ℕ} {op : Op} {result : Table} where
  -- Another process moves and leaves the rows alone.
  moved :
      (t : Shared) (q n : ℕ) (c : Pc)
      → Midway p op result t
      → p ≢ q
      → Midway p op result (record t { semval = n; pc = update t.pc q c })
  moved t q n c v other = elim (update-cases t.pc q p c) [
    | inl (same, is) ↦ absurd (other same)
    | inr (differs, is) ↦ record { left = v.left; place = is ∙ v.place; leads = v.leads }
  ]

  -- The process is not where the one that moves is.
  elsewhere :
      (t : Shared) (q : ℕ) (c : Pc) → Midway p op result t → t.pc q ≡ c → holds c ≡ false → p ≢ q
  elsewhere t q c v at not_there same = absurd (
      false-true (
        sym not_there
        ∙ ap holds (sym at)
        ∙ ap (λ (a : ℕ). holds (t.pc a)) (sym same)
        ∙ ap holds v.place))

  Step-Midway :
      {t u : Shared}
      → Step t u
      → Exclusive t
      → holds (u.pc p) ≡ true
      → Midway p op result t
      → Midway p op result u
  Step-Midway {t} (calls q op' at) x h v =
      moved t q t.semval (locking op') v (elsewhere t q outside v at refl)
  Step-Midway {t} (locks q op' at free) x h v =
      moved t q 0 (holding op' (writes op')) v (elsewhere t q (locking op') v at refl)
  Step-Midway (interrupted q op' at) x h v = v
  Step-Midway {t} (fails q op' at) x h v =
      moved t q t.semval outside v (elsewhere t q (locking op') v at refl)
  Step-Midway {t} (works q op' write left at) x h v =
      let same = x.one p q (ap holds v.place) (ap holds at) in
      let there = sym v.place ∙ ap t.pc same ∙ at in
      record {
        left = left;
        place = elim (update-cases t.pc q p (holding op' left)) [
          | inl (itself, is) ↦ is ∙ ap (λ (o : Op). holding o left) (sym (ap op_of there))
          | inr (differs, is) ↦ absurd (differs same)
        ];
        leads = ap (λ (l : List Write). apply_all l t.rows) (sym (ap left_of there)) ∙ v.leads;
      }
  Step-Midway {t} (unlocks q op' at gives) x h v =
      moved t q (t.semval + 1) outside v (gone p t q outside refl h)
  Step-Midway {t} (dies q) x h v = moved t q _ killed v (gone p t q killed refl h)

During-Midway :
    {rows : Table} {s : Shared} (p : ℕ) (op : Op) {t : Shared}
    → IsTable rows
    → Reach (initial rows) s
    → s.pc p ≡ holding op (writes op)
    → During p s t
    → Reach (initial rows) t × Midway p op (work op s.rows) t
During-Midway {s = s} p op table r at begins =
    (r, record { left = writes op; place = at; leads = apply_all-work op s.rows })
During-Midway p op table r at (goes_on d step h) =
    let (reached, v) = During-Midway p op table r at d in
    (later reached step, Step-Midway step (Reach-Exclusive table reached) h v)

-- The section of an operation is atomic. From a free semaphore and a table: if a process is behind its
-- `lock` with all the writes of its operation to do, and stays behind it whatever the other
-- processes do, then when it has no write left the rows are those that the whole operation makes
-- of the rows that it found.
pub section_atomic :
    (rows : Table) (s t : Shared) (p : ℕ) (op : Op)
    → IsTable rows
    → Reach (initial rows) s
    → s.pc p ≡ holding op (writes op)
    → During p s t
    → t.pc p ≡ holding op []
    → t.rows ≡ work op s.rows
section_atomic rows s t p op table r at d done_all =
    let v = (During-Midway p op table r at d).1 in
    ap (λ (l : List Write). apply_all l t.rows) (sym (ap left_of (sym v.place ∙ done_all)))
    ∙ v.leads
